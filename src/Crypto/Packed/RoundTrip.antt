-- ===== src/Crypto/Packed/RoundTrip.antt =====
-- internal/crypto/crypto.go: SealAAD with OpenAAD.
use an_b.Base.{
  ℕ, ◌-◌, ◌≡◌, true, false, [], ◌∷◌, ◌++◌, some, Bytes, length, take, drop, take-append-drop,
  nat_eq, ok, All, refl, arith, Lacks, inl, inr, suc, zero, Bool-cases, ◌≢◌,
}
use an_b.Crypto.Hex.{IsByte, hex_encode, decode-encode, encode-Lacks}
use an_b.Crypto.Version.{has_newline}
use an_b.Crypto.Packed.{
  Aead, nonce_len, tag_len, usable_key, cut_colon, split_packed, seal_aad, open_aad,
}

cut_colon-append : (a b : Bytes) → Lacks b':' a → cut_colon (a ++ (b':' ∷ b)) ≡ some (a, b)
unfolding cut_colon
cut_colon-append [] b h = refl
cut_colon-append (c ∷ a) b (hc, h) = ground (arith, cut_colon-append a b h)

pub split_packed-join :
    (iv tag ct : Bytes)
    → Lacks b':' iv
    → Lacks b':' tag
    → split_packed (iv ++ (b':' ∷ (tag ++ (b':' ∷ ct)))) ≡ ok (iv, tag, ct)
unfolding split_packed
split_packed-join iv tag ct hi ht =
    rw (cut_colon-append iv (tag ++ (b':' ∷ ct)) hi, cut_colon-append tag ct ht)

pub All-take : (n : ℕ) (s : Bytes) → All IsByte s → All IsByte (take n s)
All-take zero s h = tt
All-take (suc n) [] h = tt
All-take (suc n) (c ∷ s) (hc, h) = (hc, All-take n s h)

pub All-drop : (n : ℕ) (s : Bytes) → All IsByte s → All IsByte (drop n s)
All-drop zero s h = h
All-drop (suc n) [] h = tt
All-drop (suc n) (c ∷ s) (hc, h) = All-drop n s h

length-drop : (n : ℕ) (s : Bytes) → length (drop n s) ≡ length s - n
length-drop zero s = omega arith
length-drop (suc n) [] = omega arith
length-drop (suc n) (c ∷ s) = omega (arith, length-drop n s)

module _ (aead : Aead) (key plaintext aad iv : Bytes) (usable : usable_key key ≡ true)
    (nonce : length iv ≡ nonce_len) (bytes : All IsByte iv) where
  abbrev pub sealed : Bytes
  sealed = aead.seal key iv plaintext aad

  abbrev pub cut : ℕ
  cut = length sealed - tag_len

  abbrev pub body : Bytes
  body =
      hex_encode iv
      ++ (b':' ∷ (hex_encode (drop cut sealed) ++ (b':' ∷ hex_encode (take cut sealed))))

  pub seal_aad-eq : seal_aad aead key plaintext aad (some iv) ≡ ok body
  unfolding seal_aad
  seal_aad-eq = rw usable

  tag_bytes : All IsByte (drop cut sealed)
  tag_bytes = All-drop cut sealed (aead.seal-bytes key iv plaintext aad)

  ct_bytes : All IsByte (take cut sealed)
  ct_bytes = All-take cut sealed (aead.seal-bytes key iv plaintext aad)

  tag_length : length (drop cut sealed) ≡ tag_len
  tag_length = omega (arith, length-drop cut sealed, aead.length-seal key iv plaintext aad)

  abbrev pub parts : Bytes × Bytes × Bytes
  parts = (hex_encode iv, hex_encode (drop cut sealed), hex_encode (take cut sealed))

  pub split_packed-body : split_packed body ≡ ok parts
  split_packed-body =
      split_packed-join (hex_encode iv) (hex_encode (drop cut sealed))
        (hex_encode (take cut sealed)) (encode-Lacks b':' iv (inl refl) bytes)
        (encode-Lacks b':' (drop cut sealed) (inl refl) tag_bytes)

  pub open_aad-body : All IsByte plaintext → open_aad aead key body aad ≡ ok plaintext
  unfolding open_aad
  open_aad-body plain = rw (
    split_packed-body,
    decode-encode iv bytes,
    decode-encode (drop cut sealed) tag_bytes,
    decode-encode (take cut sealed) ct_bytes,
    nonce,
    tag_length,
    usable,
    take-append-drop cut sealed,
    aead.unseal-seal key iv plaintext aad plain,
  )

OneLine-append :
    (a b : Bytes) → Lacks b'\n' a → has_newline b ≡ false → has_newline (a ++ b) ≡ false
unfolding has_newline
OneLine-append [] b h k = k
OneLine-append (c ∷ a) b (hc, h) k = ground (arith, OneLine-append a b h k)

OneLine-Lacks : (a : Bytes) → Lacks b'\n' a → has_newline a ≡ false
unfolding has_newline
OneLine-Lacks [] h = refl
OneLine-Lacks (c ∷ a) (hc, h) = ground (arith, OneLine-Lacks a h)

OneLine-cons : (c : ℕ) (a : Bytes) → c ≢ b'\n' → has_newline a ≡ false → has_newline (c ∷ a) ≡ false
unfolding has_newline
OneLine-cons c a h k = ground arith

OneLine-hex :
    (s t : Bytes) → All IsByte s → has_newline t ≡ false → has_newline (hex_encode s ++ t) ≡ false
OneLine-hex s t h k = OneLine-append (hex_encode s) t (encode-Lacks b'\n' s (inr refl) h) k

module _ (aead : Aead) (key plaintext aad iv : Bytes) (usable : usable_key key ≡ true)
    (nonce : length iv ≡ nonce_len) (bytes : All IsByte iv) where
  OneLine-body : has_newline (body aead key plaintext aad iv usable nonce bytes) ≡ false
  OneLine-body =
      let sealed = aead.seal key iv plaintext aad in
      let cut = length sealed - tag_len in
      let all = aead.seal-bytes key iv plaintext aad in
      let ct =
        OneLine-Lacks _
          (encode-Lacks b'\n' (take cut sealed) (inr refl) (All-take cut sealed all)) in
      OneLine-hex iv _ bytes (
        OneLine-cons b':' _ (omega arith) (
          OneLine-hex (drop cut sealed) _ (All-drop cut sealed all)
            (OneLine-cons b':' _ (omega arith) ct)))

-- the nonce that rand.Read fills in has twelve bytes
abbrev pub IsNonce : Bytes → Type 0
IsNonce iv = (length iv ≡ nonce_len) × All IsByte iv

-- For a plaintext of bytes and a random nonce of twelve bytes, what `SealAAD` returns is one line,
-- and `OpenAAD` under the same key and additional data gives the plaintext back.
pub open_aad-seal_aad :
    (aead : Aead) (key plaintext aad iv : Bytes) {raw : Bytes}
    → All IsByte plaintext
    → IsNonce iv
    → seal_aad aead key plaintext aad (some iv) ≡ ok raw
    → (open_aad aead key raw aad ≡ ok plaintext) × (has_newline raw ≡ false)
open_aad-seal_aad aead key plaintext aad iv {raw} plain (n, b) h =
    elim (Bool-cases (usable_key key)) [
      | inr bad ↦ absurd (unfold seal_aad in cc (rw bad at h))
      | inl good ↦
          let e : raw ≡ body aead key plaintext aad iv good n b =
            cc (h, seal_aad-eq aead key plaintext aad iv good n b) in
          rw e (
            open_aad-body aead key plaintext aad iv good n b plain,
            OneLine-body aead key plaintext aad iv good n b,
          )
    ]
