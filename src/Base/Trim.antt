-- ===== src/Base/Trim.antt =====
-- strings.TrimSpace on visible ASCII bytes.
use Prim.Native.Nat.{ℕ, ◌≤◌, ◌<◌}
use mathlib.Core.Path.{◌≡◌, refl, sym, ap, ◌∙◌, transport}
use mathlib.Core.Bool.{Bool, false}
use mathlib.Core.List.{[], ◌∷◌, ◌++◌, reverse, reverse-cons, reverse-reverse}
use native.Mathlib.Omega.{arith}
use an_b.Base.Tests.{nat_eq, Bool-cases}
use mathlib.Core.Logic.{inl, inr}
use an_b.Base.Lists.{All, All-append}
use an_b.Base.Text.{
  Bytes, is_space, is_space2, is_space3, trim_front, trim_left, trim_right, trim_space,
}

abbrev pub Visible : ℕ → Type 0
Visible c = (33 ≤ c) × (c < 127)

module _ (space2 : ℕ → ℕ → Bool) (space3 : ℕ → ℕ → ℕ → Bool)
    (no2 : (c d : ℕ) → Visible c → Visible d → space2 c d ≡ false)
    (no3 : (c d e : ℕ) → Visible c → Visible d → Visible e → space3 c d e ≡ false) where
  trim_front-Visible : (s : Bytes) → All Visible s → trim_front space2 space3 s ≡ s
  unfolding trim_front
  trim_front-Visible [] h = refl
  trim_front-Visible (c ∷ []) (hc, h) = ground arith
  trim_front-Visible (c ∷ d ∷ []) (hc, (hd, h)) = rw (no2 c d hc hd) (ground arith)
  trim_front-Visible (c ∷ d ∷ e ∷ s) (hc, (hd, (he, h))) =
      rw (no2 c d hc hd, no3 c d e hc hd he) (ground arith)

reverse-Visible : (s : Bytes) → All Visible s → All Visible (reverse s)
reverse-Visible [] h = tt
reverse-Visible (c ∷ s) (hc, h) =
    transport (ap (All Visible) (sym (reverse-cons c s)))
      (All-append Visible (reverse s) (c ∷ []) (reverse-Visible s h) (hc, tt))

trim_left-Visible : (s : Bytes) → All Visible s → trim_left s ≡ s
unfolding trim_left
trim_left-Visible =
    trim_front-Visible is_space2 is_space3 (λ c d hc hd. ground arith)
      (λ c d e hc hd he. ground arith)

trim_right-Visible : (s : Bytes) → All Visible s → trim_right s ≡ s
unfolding trim_right
trim_right-Visible s h =
    ap reverse (
      trim_front-Visible (λ c d. is_space2 d c) (λ c d e. is_space3 e d c)
        (λ c d hc hd. ground arith) (λ c d e hc hd he. ground arith) (reverse s)
        (reverse-Visible s h))
    ∙ reverse-reverse s

pub trim_space-Visible : (s : Bytes) → All Visible s → trim_space s ≡ s
unfolding trim_space
trim_space-Visible s h = ap trim_right (trim_left-Visible s h) ∙ trim_right-Visible s h

-- A visible byte at the start stays there.
module _ (c : ℕ) (vis : Visible c) where
  no_space : is_space c ≡ false
  no_space = ground arith

  no_space2 : (d : ℕ) → is_space2 c d ≡ false
  no_space2 d = ground arith

  no_space3 : (d e : ℕ) → is_space3 c d e ≡ false
  no_space3 d e = ground arith

  trim_left-first : (s : Bytes) → trim_left (c ∷ s) ≡ c ∷ s
  unfolding trim_left trim_front
  trim_left-first [] = rw no_space refl
  trim_left-first (d ∷ []) = rw (no_space, no_space2 d) refl
  trim_left-first (d ∷ e ∷ s) = rw (no_space, no_space2 d, no_space3 d e) refl

  abbrev back : Bytes → Bytes
  back = trim_front (λ c d. is_space2 d c) (λ c d e. is_space3 e d c)

  abbrev EndsHere : Bytes → Type 0
  EndsHere t = (ys : Bytes) × (t ≡ ys ++ (c ∷ []))

  back-last : (xs : Bytes) → EndsHere (back (xs ++ (c ∷ [])))
  unfolding trim_front
  back-last [] = ([], rw no_space refl)
  back-last (x ∷ []) = elim (Bool-cases (is_space x)) [
    | inl space ↦ rw space (back-last [])
    | inr other ↦ (x ∷ [], rw (other, no_space2 x) refl)
  ]
  back-last (x ∷ y ∷ []) = elim (Bool-cases (is_space x)) [
    | inl space ↦ rw space (back-last (y ∷ []))
    | inr other ↦ elim (Bool-cases (is_space2 y x)) [
      | inl two ↦ rw (other, two) (back-last [])
      | inr no_two ↦ (x ∷ y ∷ [], rw (other, no_two, no_space3 y x) refl)
    ]
  ]
  back-last (x ∷ y ∷ z ∷ s) = elim (Bool-cases (is_space x)) [
    | inl space ↦ rw space (back-last (y ∷ z ∷ s))
    | inr other ↦ elim (Bool-cases (is_space2 y x)) [
      | inl two ↦ rw (other, two) (back-last (z ∷ s))
      | inr no_two ↦ elim (Bool-cases (is_space3 z y x)) [
        | inl three ↦ rw (other, no_two, three) (back-last s)
        | inr no_three ↦ (x ∷ y ∷ z ∷ s, rw (other, no_two, no_three) refl)
      ]
    ]
  ]

  pub trim_space-first : (s : Bytes) → (rest : Bytes) × (trim_space (c ∷ s) ≡ c ∷ rest)
  unfolding trim_space trim_right
  trim_space-first s =
      let (ys, e) = back-last (reverse s) in
      (
        reverse ys,
        ap trim_right (trim_left-first s)
            ∙ ap (λ t. reverse (back t)) (reverse-cons c s)
            ∙ ap reverse (
                e
                ∙ ap (λ t. t ++ (c ∷ [])) (sym (reverse-reverse ys))
                ∙ sym (reverse-cons c (reverse ys)))
            ∙ reverse-reverse (c ∷ reverse ys),
      )
