-- ===== src/Crypto/Hex.antt =====
-- encoding/hex, as internal/crypto uses it.
use an_b.Base.{
  ap, ℕ, ◌+◌, ◌-◌, ◌*◌, ◌/◌, ◌%◌, ◌<◌, ◌≡◌, refl, ◌&&◌, [], ◌∷◌, Option, none, some, arith, ltb,
  leb, if◌then◌else◌, Bytes, All, Lacks, ◌≢◌, ◌⊎◌,
}
use mathlib.Core.Path.{transport}

abbrev pub IsByte : ℕ → Type 0
IsByte c = c < 256

unfoldable pub hex_digit : ℕ → ℕ
hex_digit n = if ltb n 10 then b'0' + n else b'a' + (n - 10)

unfoldable pub from_hex_digit : ℕ → Option ℕ
from_hex_digit c =
    if leb b'0' c && leb c b'9'
    then some (c - b'0')
    else if leb b'a' c && leb c b'f'
    then some (c - b'a' + 10)
    else if leb b'A' c && leb c b'F'
    then some (c - b'A' + 10)
    else none

-- hex.EncodeToString
unfoldable pub hex_encode : Bytes → Bytes
hex_encode [] = []
hex_encode (c ∷ s) = hex_digit (c / 16) ∷ hex_digit (c % 16) ∷ hex_encode s

abbrev one_byte : Option ℕ → Option ℕ → Option Bytes → Option Bytes
one_byte (some hi) (some lo) (some s) = some ((hi * 16 + lo) ∷ s)
one_byte _ _ _ = none

-- hex.DecodeString; `none` on a byte that is no digit and on an odd length
unfoldable pub hex_decode : Bytes → Option Bytes
unfolding from_hex_digit
hex_decode [] = some []
hex_decode (c ∷ []) = none
hex_decode (c ∷ d ∷ s) = one_byte (from_hex_digit c) (from_hex_digit d) (hex_decode s)

from_hex_digit-bound : (c n : ℕ) → from_hex_digit c ≡ some n → n < 16
unfolding from_hex_digit
from_hex_digit-bound c n h = ground arith

one_byte-IsByte :
    (a b : Option ℕ) (o : Option Bytes) (s : Bytes)
    → ((n : ℕ) → a ≡ some n → n < 16)
    → ((n : ℕ) → b ≡ some n → n < 16)
    → ((r : Bytes) → o ≡ some r → All IsByte r)
    → one_byte a b o ≡ some s
    → All IsByte s
one_byte-IsByte (some a) (some b) (some r) s ha hb ho h =
    let small = ha a refl in
    let small' = hb b refl in
    let e : (a * 16 + b) ∷ r ≡ s = cc in transport (ap (All IsByte) e) (omega arith, ho r refl)
one_byte-IsByte none b o s ha hb ho h = absurd (cc)
one_byte-IsByte (some a) none o s ha hb ho h = absurd (cc)
one_byte-IsByte (some a) (some b) none s ha hb ho h = absurd (cc)

-- what is decoded are bytes
pub hex_decode-IsByte : (t s : Bytes) → hex_decode t ≡ some s → All IsByte s
unfolding hex_decode
hex_decode-IsByte [] s h = let e : [] ≡ s = cc in transport (ap (All IsByte) e) tt
hex_decode-IsByte (c ∷ []) s h = absurd (cc)
hex_decode-IsByte (c ∷ d ∷ t) s h =
    one_byte-IsByte (from_hex_digit c) (from_hex_digit d) (hex_decode t) s (from_hex_digit-bound c)
      (from_hex_digit-bound d) (hex_decode-IsByte t) h

from_hex_digit-hex_digit : (n : ℕ) → n < 16 → from_hex_digit (hex_digit n) ≡ some n
unfolding from_hex_digit hex_digit
from_hex_digit-hex_digit n h = ground arith

pub decode-encode : (s : Bytes) → All IsByte s → hex_decode (hex_encode s) ≡ some s
unfolding hex_decode hex_encode
decode-encode [] h = refl
decode-encode (c ∷ s) (hc, hs) =
    rw
      (
        from_hex_digit-hex_digit (c / 16) (omega arith),
        from_hex_digit-hex_digit (c % 16) (omega arith),
        decode-encode s hs,
      )
      (ground arith)

hex_digit-Lacks : (b n : ℕ) → (b ≡ b':') ⊎ (b ≡ b'\n') → n < 16 → hex_digit n ≢ b
unfolding hex_digit
hex_digit-Lacks b n e h = ground arith

-- an encoding holds neither a colon nor a newline
pub encode-Lacks :
    (b : ℕ) (s : Bytes) → (b ≡ b':') ⊎ (b ≡ b'\n') → All IsByte s → Lacks b (hex_encode s)
unfolding hex_encode
encode-Lacks b [] e h = tt
encode-Lacks b (c ∷ s) e (hc, hs) = (
  hex_digit-Lacks b (c / 16) e (omega arith),
  (hex_digit-Lacks b (c % 16) e (omega arith), encode-Lacks b s e hs),
)
