-- ===== src/Crypto/Packed/Ascii.antt =====
-- internal/crypto/crypto.go and envelope.go: a packed text is ASCII.
use an_b.Base.{
  ℕ, ◌<◌, ◌/◌, ◌%◌, ◌-◌, [], ◌∷◌, some, Bytes, All, All-map, All-append, length, take, drop, ok,
  ◌≡◌, ◌++◌, arith, Bool-cases, inl, inr,
}
use an_b.Crypto.Hex.{IsByte, hex_digit, hex_encode}
use an_b.Crypto.Decimal.{IsDigit, itoa, All-digits-itoa}
use an_b.Crypto.Version.{pack_version}
use an_b.Crypto.Packed.{Aead, usable_key, tag_len, seal_aad}
use an_b.Crypto.Packed.RoundTrip.{IsNonce, All-take, All-drop, body, seal_aad-eq}

abbrev pub Ascii : Bytes → Type 0
Ascii = All (λ c. c < 128)

hex_digit-ascii : (n : ℕ) → n < 16 → hex_digit n < 128
unfolding hex_digit
hex_digit-ascii n h = ground arith

hex_encode-Ascii : (s : Bytes) → All IsByte s → Ascii (hex_encode s)
unfolding hex_encode
hex_encode-Ascii [] h = tt
hex_encode-Ascii (c ∷ s) (hc, h) = (
  hex_digit-ascii (c / 16) (omega arith),
  (hex_digit-ascii (c % 16) (omega arith), hex_encode-Ascii s h),
)

hex-colon-Ascii : (s t : Bytes) → All IsByte s → Ascii t → Ascii (hex_encode s ++ (b':' ∷ t))
hex-colon-Ascii s t hs ht =
    All-append (λ c. c < 128) (hex_encode s) (b':' ∷ t) (hex_encode-Ascii s hs) (omega arith, ht)

-- what SealAAD returns is hexadecimal digits and colons
pub seal_aad-Ascii :
    (aead : Aead) (key plaintext aad iv : Bytes) {raw : Bytes}
    → IsNonce iv
    → seal_aad aead key plaintext aad (some iv) ≡ ok raw
    → Ascii raw
seal_aad-Ascii aead key plaintext aad iv {raw} (n, b) h = elim (Bool-cases (usable_key key)) [
  | inr bad ↦ absurd (unfold seal_aad in cc (rw bad at h))
  | inl good ↦
      let e : raw ≡ body aead key plaintext aad iv good n b =
        cc (h, seal_aad-eq aead key plaintext aad iv good n b) in
      let sealed : Bytes = aead.seal key iv plaintext aad in
      let cut : ℕ = length sealed - tag_len in
      let all = aead.seal-bytes key iv plaintext aad in
      rw e (
        hex-colon-Ascii iv _ b (
          hex-colon-Ascii (drop cut sealed) _ (All-drop cut sealed all)
            (hex_encode-Ascii (take cut sealed) (All-take cut sealed all))))
]

digit-ascii : (c : ℕ) → IsDigit c → c < 128
digit-ascii c h = ground arith

pub pack_version-Ascii : (version : ℕ) (raw : Bytes) → Ascii raw → Ascii (pack_version version raw)
unfolding pack_version
pack_version-Ascii version raw h = (
  omega arith,
  All-append (λ c. c < 128) (itoa version) (b':' ∷ raw)
      (All-map IsDigit (λ c. c < 128) digit-ascii (itoa version) (All-digits-itoa version))
      (omega arith, h),
)
