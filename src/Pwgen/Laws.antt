-- ===== src/Pwgen/Laws.antt =====
-- internal/pwgen/pwgen.go: what the generated passwords are made of, and when the drawing ends.
use an_b.Base.{
  ℕ, zero, suc, ◌+◌, ◌*◌, ◌≤◌, ◌<◌, ◌≡◌, refl, ap, ◌∙◌, true, List, [], ◌∷◌, some, Bytes,
  nat_beq_iff, length, arith, All, Bool-cases, inl, inr, ◌≢◌, Result, ok, err, lookup, Table, Bool,
  ◌||◌, ◌⊎◌, bytes_eq, ltb, Option-cases, ◌==◌, if◌then◌else◌, Option, none, codes, false,
}
use an_b.Base.Int.{ℤ, pos, negsuc}
use mathlib.Core.Path.{transport}
use an_b.Pwgen.{
  Bound, bounds, sized, generate, by_style, GenerateError, unknown_style, bad_size, contains,
  covers, byte_at, draw_bytes, fill,
}

byte_at-contains : (s : Bytes) (i : ℕ) → i < length s → contains s (byte_at s i) ≡ true
unfolding contains byte_at
byte_at-contains [] i h = absurd (omega arith)
byte_at-contains (c ∷ s) zero h = ground (arith, nat_beq_iff c c)
byte_at-contains (c ∷ s) (suc i) h = ground (arith, byte_at-contains s i (omega arith))

-- rand.Int answers below its bound
module _ (draw : ℕ → ℕ → ℕ) (below : (i n : ℕ) → 1 ≤ n → draw i n < n) where
  length-draw_bytes : (pool : Bytes) (n i : ℕ) → length (draw_bytes draw pool n i) ≡ n
  unfolding draw_bytes
  length-draw_bytes pool zero i = refl
  length-draw_bytes pool (suc n) i = ap suc (length-draw_bytes pool n (suc i))

  draw_bytes-contains :
      (pool : Bytes) (n i : ℕ)
      → 1 ≤ length pool
      → All (λ c. contains pool c ≡ true) (draw_bytes draw pool n i)
  unfolding draw_bytes
  draw_bytes-contains pool zero i h = tt
  draw_bytes-contains pool (suc n) i h = (
    byte_at-contains pool (draw i (length pool)) (below i (length pool) h),
    draw_bytes-contains pool n (suc i) h,
  )

  -- `out` has n bytes, all of them of the pool, and one at least of each class
  pub record Covering (pool : Bytes) (n : ℕ) (classes : List Bytes) (out : Bytes) : Type 0 where
    pub size : length out ≡ n
    pub within : All (λ c. contains pool c ≡ true) out
    pub classes_met : covers out classes ≡ true

  drawn :
      (pool : Bytes) (n i : ℕ) (classes : List Bytes)
      → 1 ≤ length pool
      → covers (draw_bytes draw pool n i) classes ≡ true
      → Covering pool n classes (draw_bytes draw pool n i)
  drawn pool n i classes some_pool now = record {
    size = length-draw_bytes pool n i;
    within = draw_bytes-contains pool n i some_pool;
    classes_met = now;
  }

  start : (n i : ℕ) → i ≡ i + 0 * n
  start n i = omega arith

  next : (k n i : ℕ) → (i + n) + k * n ≡ i + suc k * n
  next k n i = omega arith

  -- Once a round draws a byte of each class, the loop of `fill` has ended, there or before, if the
  -- fuel allows that many rounds; what it returns has the size that was asked for, is drawn from
  -- the pool, which is not empty, and has a byte of each class.
  pub fill-Covering :
      (fuel k n i : ℕ) (pool : Bytes) (classes : List Bytes)
      → 1 ≤ length pool
      → k < fuel
      → covers (draw_bytes draw pool n (i + k * n)) classes ≡ true
      → (out : Bytes) × (fill draw fuel pool n classes i ≡ some out) × Covering pool n classes out
  unfolding fill
  fill-Covering zero k n i pool classes some_pool h c = absurd (omega arith)
  fill-Covering (suc fuel) zero n i pool classes some_pool h c =
      let now : covers (draw_bytes draw pool n i) classes ≡ true =
        ap (λ j. covers (draw_bytes draw pool n j) classes) (start n i) ∙ c in
      (draw_bytes draw pool n i, rw now refl, drawn pool n i classes some_pool now)
  fill-Covering (suc fuel) (suc k) n i pool classes some_pool h c =
      elim (Bool-cases (covers (draw_bytes draw pool n i) classes)) [
        | inl now ↦ (draw_bytes draw pool n i, rw now refl, drawn pool n i classes some_pool now)
        | inr later ↦ rw later (
            fill-Covering fuel k n (i + n) pool classes some_pool (omega arith)
              (ap (λ j. covers (draw_bytes draw pool n j) classes) (next k n i) ∙ c))
      ]

lookup-All :
    (P : Bound → Type 0) (style : Bytes) (b : Bound) (m : Table Bytes Bound)
    → All (λ e. P e.1) m
    → lookup style m ≡ some b
    → P b
unfolding lookup
lookup-All P style b [] h e = absurd (ground arith)
lookup-All P style b ((k, v) ∷ m) (p, h) e = elim (Bool-cases (k == style)) [
  | inl same ↦ let found : v ≡ b = cc (rw same at e) in transport (ap P found) p
  | inr other ↦ lookup-All P style b m h (rw other at e)
]

usual-within :
    (style : Bytes) (b : Bound)
    → lookup style bounds ≡ some b
    → (b.least ≤ b.usual) × (b.usual ≤ b.most)
usual-within style b h =
    lookup-All (λ b. (b.least ≤ b.usual) × (b.usual ≤ b.most)) style b bounds
      (
        (omega arith, omega arith),
        (
          (omega arith, omega arith),
          (
            (omega arith, omega arith),
            ((omega arith, omega arith), ((omega arith, omega arith), tt)),
          ),
        ),
      )
      h

-- a size that is neither 0 nor within the bounds
abbrev pub Outside : Bound → ℤ → Type 0
Outside b (pos n) = (n ≢ 0) × ((n < b.least) ⊎ (b.most < n))
Outside b (negsuc n) = Unit

-- the size that is used for one that is given, within the bounds
abbrev pub Used : Bound → ℤ → ℕ → Type 0
Used b size n = ((size ≡ pos n) ⊎ ((size ≡ pos 0) × (n ≡ b.usual))) × (b.least ≤ n) × (n ≤ b.most)

sized-cases :
    (style : Bytes) (b : Bound) (size : ℤ)
    → lookup style bounds ≡ some b
    → ((sized b size ≡ none) × Outside b size) ⊎ ((n : ℕ) × (sized b size ≡ some n) × Used b size n)
unfolding sized
sized-cases style b (negsuc n) h = inl (refl, tt)
sized-cases style b (pos zero) h =
    inr (b.usual, refl, (inr (refl, refl), (usual-within style b h).0, (usual-within style b h).1))
sized-cases style b (pos (suc n)) h =
    elim (Bool-cases (ltb (suc n) b.least || ltb b.most (suc n))) [
      | inl out ↦ inl (rw out refl, (λ z. absurd (omega (arith, z)), ground arith))
      | inr within ↦ inr (suc n, rw within refl, (inl refl, ground arith, ground arith))
    ]

abbrev pub Answers : Result GenerateError (Option Bytes) → Type 0
Answers r = (o : Option Bytes) × (r ≡ ok o)

Answers-or :
    (c : Bool) (o : Option Bytes) (r : Result GenerateError (Option Bytes))
    → (c ≡ false → Answers r)
    → Answers (if c then ok o else r)
Answers-or true o r h = (o, refl)
Answers-or false o r h = h refl

by_style-Answers :
    (draw : ℕ → ℕ → ℕ) (words : List Bytes) (encode : Bytes → Bytes) (random : ℕ → Bytes)
    (fuel n : ℕ) (style : Bytes) (b : Bound)
    → lookup style bounds ≡ some b
    → Answers (by_style draw words encode random fuel style n)
unfolding lookup
by_style-Answers draw words encode random fuel n style b h =
    Answers-or (codes "apple" == style) _ _ λ e1. Answers-or (codes "full" == style) _ _ λ e2.
      Answers-or (codes "passphrase" == style) _ _ λ e3. Answers-or (codes "pin" == style) _ _ λ e4.
        Answers-or (codes "aes256" == style) _ _ λ e5. absurd (cc (rw (e1, e2, e3, e4, e5) at h))

-- what `Generate` answers: a refusal of the style, one of the size, or a generator's password
abbrev pub Answered :
    (draw : ℕ → ℕ → ℕ) (words : List Bytes) (encode : Bytes → Bytes) (random : ℕ → Bytes) (fuel : ℕ)
    (style : Bytes) (size : ℤ)
    → Type 0
Answered draw words encode random fuel style size =
    ((lookup style bounds ≡ none)
      × (generate draw words encode random fuel style size ≡ err unknown_style))
    ⊎ ((b : Bound) × (lookup style bounds ≡ some b)
        × ((Outside b size × (generate draw words encode random fuel style size ≡ err bad_size))
            ⊎ ((n : ℕ) × (o : Option Bytes) × Used b size n
                × (generate draw words encode random fuel style size ≡ ok o)
                × (by_style draw words encode random fuel style n ≡ ok o))))

-- Whatever the draws, the style and the size: a style that is not known is refused as such; a size
-- of a known style that is neither 0 nor within the style's bounds is refused; and any other is
-- answered by a generator, never by the last return of `Generate`, with the size, or the style's
-- usual one for 0, in the style's bounds.
pub generate-answers :
    (draw : ℕ → ℕ → ℕ) (words : List Bytes) (encode : Bytes → Bytes) (random : ℕ → Bytes) (fuel : ℕ)
    (style : Bytes) (size : ℤ)
    → Answered draw words encode random fuel style size
unfolding generate
generate-answers draw words encode random fuel style size =
    elim (Option-cases (lookup style bounds)) [
      | inl e ↦ inl (e, rw (generate, e) refl)
      | inr (b, e) ↦ inr (
        b,
        e,
        elim (sized-cases style b size e) [
          | inl (none_fits, out) ↦ inl (out, rw (generate, e, none_fits) refl)
          | inr (n, s, used) ↦
              let (o, a) = by_style-Answers draw words encode random fuel n style b e in
              inr (n, o, used, rw (generate, e, s) a, a)
        ],
      )
    ]
