-- ===== src/Crypto/Decimal.antt =====
-- strconv.Itoa on numbers that are not negative, and strconv.Atoi on digits, for a 64-bit int.
use an_b.Base.{
  ℕ, zero, suc, ◌∙◌, ◌+◌, ◌-◌, ◌*◌, ◌/◌, ◌%◌, ◌^◌, ◌≤◌, ◌<◌, ◌≡◌, ◌≢◌, refl, ap, Bool, true, ◌&&◌,
  [], ◌∷◌, Option, none, some, arith, ltb, leb, if◌then◌else◌, Bytes, codes, All, Bool-cases, inl,
  inr,
}

abbrev pub max_int : ℕ
max_int = 2 ^ 63 - 1

abbrev pub is_digit : ℕ → Bool
is_digit c = leb b'0' c && leb c b'9'

abbrev pub IsDigit : ℕ → Type 0
IsDigit c = is_digit c ≡ true

abbrev digit : ℕ → ℕ
digit n = b'0' + n % 10

-- the digits of `n` in front of `out`; each round divides by ten
unfoldable pub itoa_onto : ℕ → ℕ → Bytes → Bytes
itoa_onto zero n out = out
itoa_onto (suc fuel) n out =
    let more = itoa_onto fuel (n / 10) (digit n ∷ out) in if ltb n 10 then digit n ∷ out else more

-- a number is above its count of digits, so it is fuel enough
unfoldable pub itoa : ℕ → Bytes
unfolding itoa_onto
itoa n = itoa_onto (suc n) n []

-- the number that digits spell behind `n`
unfoldable pub value : ℕ → Bytes → ℕ
value n [] = n
value n (c ∷ s) = value (n * 10 + (c - b'0')) s

-- on a text of digits
unfoldable pub atoi : Bytes → Option ℕ
unfolding value
atoi s = if leb (value 0 s) max_int then some (value 0 s) else none

value_step : (n : ℕ) (out : Bytes) → value (n / 10) (digit n ∷ out) ≡ value n out
unfolding value
value_step n out = let e : n / 10 * 10 + (digit n - b'0') ≡ n = omega arith in rw e

value-itoa_onto :
    (fuel n : ℕ) (out : Bytes) → n < fuel → value 0 (itoa_onto fuel n out) ≡ value n out
unfolding itoa_onto value
value-itoa_onto zero n out h = absurd (omega arith)
value-itoa_onto (suc fuel) n out h = elim (Bool-cases (ltb n 10)) [
  | inl small ↦
      rw small (let e : 0 + (digit n - b'0') ≡ n = ground arith in ap (λ t. value t out) e)
  | inr large ↦
      rw large (value-itoa_onto fuel (n / 10) (digit n ∷ out) (ground arith) ∙ value_step n out)
]

pub value-itoa : (n : ℕ) → value 0 (itoa n) ≡ n
unfolding itoa value
value-itoa n = value-itoa_onto (suc n) n [] (omega arith)

pub atoi-itoa : (n : ℕ) → n ≤ max_int → atoi (itoa n) ≡ some n
unfolding atoi
atoi-itoa n h = rw (value-itoa n) (ground arith)

All-digits-itoa_onto :
    (fuel n : ℕ) (out : Bytes) → All IsDigit out → All IsDigit (itoa_onto fuel n out)
unfolding itoa_onto
All-digits-itoa_onto zero n out h = h
All-digits-itoa_onto (suc fuel) n out h = elim (Bool-cases (ltb n 10)) [
  | inl small ↦ rw small (ground arith, h)
  | inr large ↦ rw large (All-digits-itoa_onto fuel (n / 10) (digit n ∷ out) (ground arith, h))
]

pub All-digits-itoa : (n : ℕ) → All IsDigit (itoa n)
unfolding itoa
All-digits-itoa n = All-digits-itoa_onto (suc n) n [] tt

itoa_onto-ne-nil : (fuel n c : ℕ) (out : Bytes) → itoa_onto fuel n (c ∷ out) ≢ []
unfolding itoa_onto
itoa_onto-ne-nil zero n c out h = cc
itoa_onto-ne-nil (suc fuel) n c out h = elim (Bool-cases (ltb n 10)) [
  | inl small ↦ ground arith
  | inr large ↦ itoa_onto-ne-nil fuel (n / 10) (digit n) (c ∷ out) (ground arith)
]

pub itoa-ne-nil : (n : ℕ) → itoa n ≢ []
unfolding itoa itoa_onto
itoa-ne-nil n h = elim (Bool-cases (ltb n 10)) [
  | inl small ↦ ground arith
  | inr large ↦ itoa_onto-ne-nil n (n / 10) (digit n) [] (ground arith)
]

itoa-runs : itoa 40960 ≡ codes "40960"
unfolding itoa
itoa-runs = refl

atoi-overflow : atoi (codes "9223372036854775808") ≡ none
unfolding atoi
atoi-overflow = refl
