-- ===== src/Crypto/Packed.antt =====
-- internal/crypto/crypto.go: sealing and opening "iv:tag:ct" under AES-256-GCM.
pub mod RoundTrip
pub mod Ascii
use an_b.Base.{
  ℕ, ◌+◌, ◌-◌, ◌≤◌, ◌≡◌, Bool, true, false, ◌||◌, List, [], ◌∷◌, ◌++◌, Option, none, some, Bytes,
  length, take, drop, ◌==◌, nat_eq, if◌then◌else◌, Result, ok, err, ◌>>=◌, ◌>>◌, or_fail, require,
  All,
}
use an_b.Crypto.Hex.{IsByte, hex_encode, hex_decode}
use an_b.Crypto.{Error, malformed, bad_hex, bad_nonce, bad_tag, bad_key, auth_failed, rand_failed}

abbrev pub nonce_len : ℕ
nonce_len = 12

abbrev pub tag_len : ℕ
tag_len = 16

-- crypto/cipher's GCM over crypto/aes. `seal` gives the ciphertext with the tag behind it.
pub record Aead : Type 0 where
  pub seal : Bytes → Bytes → Bytes → Bytes → Bytes
  pub unseal : Bytes → Bytes → Bytes → Bytes → Option Bytes
  -- opening with the key, nonce and additional data of the seal gives the plaintext
  pub unseal-seal : (k n p a : Bytes) → All IsByte p → unseal k n (seal k n p a) a ≡ some p
  -- the tag is 16 bytes, and there is no padding
  pub length-seal : (k n p a : Bytes) → length (seal k n p a) ≡ length p + tag_len
  pub seal-bytes : (k n p a : Bytes) → All IsByte (seal k n p a)

-- aes.NewCipher takes keys of 16, 24 or 32 bytes
unfoldable pub usable_key : Bytes → Bool
usable_key k = length k == 16 || length k == 24 || length k == 32

-- strings.SplitN(s, ":", 2), where there is a colon
unfoldable pub cut_colon : Bytes → Option (Bytes × Bytes)
cut_colon [] = none
cut_colon (c ∷ s) =
    let rest = cut_colon s in
    if c == b':' then some ([], s) else elim rest [ none ↦ none | some (a, b) ↦ some (c ∷ a, b) ]

-- the three parts of strings.SplitN(packed, ":", 3)
unfoldable pub split_packed : Bytes → Result Error (Bytes × Bytes × Bytes)
unfolding cut_colon
split_packed packed = do
  (iv, more) ← or_fail malformed (cut_colon packed)
  (tag, ct) ← or_fail malformed (cut_colon more)
  ok (iv, tag, ct)

module _ (aead : Aead) where
  -- `iv` is what rand.Read put into the nonce, or `none` where it failed
  unfoldable pub seal_aad : Bytes → Bytes → Bytes → Option Bytes → Result Error Bytes
  seal_aad key plaintext aad random = do
    require (usable_key key) bad_key
    iv ← or_fail rand_failed random
    let sealed = aead.seal key iv plaintext aad
    let ct = take (length sealed - tag_len) sealed
    let tag = drop (length sealed - tag_len) sealed
    ok (hex_encode iv ++ (b':' ∷ (hex_encode tag ++ (b':' ∷ hex_encode ct))))

  unfoldable pub open_aad : Bytes → Bytes → Bytes → Result Error Bytes
  unfolding split_packed
  open_aad key packed aad = do
    (iv_hex, tag_hex, ct_hex) ← split_packed packed
    iv ← or_fail bad_hex (hex_decode iv_hex)
    tag ← or_fail bad_hex (hex_decode tag_hex)
    ct ← or_fail bad_hex (hex_decode ct_hex)
    require (length iv == nonce_len) bad_nonce
    require (length tag == tag_len) bad_tag
    require (usable_key key) bad_key
    or_fail auth_failed (aead.unseal key iv (ct ++ tag) aad)
