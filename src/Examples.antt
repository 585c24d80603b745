-- ===== src/Examples.antt =====
-- The theorems at concrete inputs. A cipher, keys, a policy and a store that the examples share.
pub mod Sealing
pub mod Bob
pub mod Regex
pub mod Keys
pub mod Passwords
pub mod Alice
pub mod Commands
pub mod Files
pub mod Boot
use an_b.Base.{
  ℕ, zero, suc, ◌+◌, ◌-◌, ◌%◌, ◌<◌, Bool, true, false, List, [], ◌∷◌, ◌++◌, Option, none, some,
  Bytes, length, take, drop, replicate, map, ◌==◌, bytes_eq, if◌then◌else◌, ◌≡◌, refl, ap, ◌∙◌, sym,
  arith, All, All-append, beq_refl, length-append, length-map, take-length, drop-length, ltb, ◌&&◌,
  Result, ok, err,
}
use an_b.Crypto.Hex.{IsByte}
use an_b.Crypto.Packed.{Aead, tag_len}

unfoldable pub sum : Bytes → ℕ
sum [] = 0
sum (c ∷ s) = c + sum s

-- a stand-in for GCM: the plaintext as it is, and a check sum of key, nonce and data as the tag
abbrev pub tag_of : Bytes → Bytes → Bytes → Bytes
tag_of k n a = replicate 16 (sum (k ++ n ++ a) % 256)

abbrev pub sum_seal : Bytes → Bytes → Bytes → Bytes → Bytes
sum_seal k n p a = map (λ c. c % 256) p ++ tag_of k n a

abbrev pub sum_unseal : Bytes → Bytes → Bytes → Bytes → Option Bytes
sum_unseal k n s a =
    if drop (length s - 16) s == tag_of k n a then some (take (length s - 16) s) else none

pub map-bytes : (p : Bytes) → All IsByte p → map (λ c. c % 256) p ≡ p
map-bytes [] h = refl
map-bytes (c ∷ p) (hc, h) = rw (map-bytes p h) (ap (λ x. x ∷ p) (omega arith))

pub All-mod : (p : Bytes) → All IsByte (map (λ c. c % 256) p)
All-mod [] = tt
All-mod (c ∷ p) = (omega arith, All-mod p)

pub length-sealed : (k n p a : Bytes) → length (sum_seal k n p a) ≡ length p + tag_len
length-sealed k n p a =
    omega (arith, length-append (map (λ c. c % 256) p) (tag_of k n a), length-map (λ c. c % 256) p)

pub unseal-sum : (k n p a : Bytes) → All IsByte p → sum_unseal k n (sum_seal k n p a) a ≡ some p
unseal-sum k n p a h =
    let body : Bytes = map (λ c. c % 256) p in
    let cut : length (sum_seal k n p a) - 16 ≡ length body =
      omega (arith, length-sealed k n p a, length-map (λ c. c % 256) p) in
    ap
      (λ t.
        if drop t (sum_seal k n p a) == tag_of k n a
        then some (take t (sum_seal k n p a))
        else none)
      cut
    ∙ rw (drop-length body (tag_of k n a), take-length body (tag_of k n a), beq_refl (tag_of k n a))
        (ap some (map-bytes p h))

pub tag-bytes : (k n a : Bytes) → All IsByte (tag_of k n a)
tag-bytes k n a =
    let b : (sum (k ++ n ++ a) % 256) < 256 = omega arith in
    (b, (b, (b, (b, (b, (b, (b, (b, (b, (b, (b, (b, (b, (b, (b, (b, tt))))))))))))))))

abbrev pub sum_aead : Aead
sum_aead = record {
  seal = sum_seal;
  unseal = sum_unseal;
  unseal-seal = unseal-sum;
  length-seal = length-sealed;
  seal-bytes = λ k n p a.
      All-append IsByte (map (λ c. c % 256) p) (tag_of k n a) (All-mod p) (tag-bytes k n a);
}

-- keys of 32 bytes, and a nonce
abbrev pub key_one : Bytes
key_one = replicate 32 1

abbrev pub key_two : Bytes
key_two = replicate 32 2

abbrev pub nonce_one : Bytes
nonce_one = replicate 12 7

-- a text of bytes, by computation
abbrev pub all_bytes : Bytes → Bool
all_bytes [] = true
all_bytes (c ∷ s) = ltb c 256 && all_bytes s

pub all_bytes-IsByte : (s : Bytes) → all_bytes s ≡ true → All IsByte s
all_bytes-IsByte [] h = tt
all_bytes-IsByte (c ∷ s) h = (ground arith, all_bytes-IsByte s (ground arith))

-- the value of a result that is known to be one
abbrev pub from_ok {ℓ} : {E : Type ℓ} → Result E Bytes → Bytes
from_ok (ok s) = s
from_ok (err e) = []
