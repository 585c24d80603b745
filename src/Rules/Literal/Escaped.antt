-- ===== src/Rules/Literal/Escaped.antt =====
-- internal/aclrules/aclrules.go: the quoted and escaped text of LiteralRule as a regular expression.
use an_b.Base.{
  ℕ, true, false, [], ◌∷◌, Option, none, some, Bytes, codes, ◌==◌, nat_eq, if◌then◌else◌, ◌≡◌, refl,
  ap, sym, arith, replace_byte, Bool-cases, inl, inr, nat_beq_iff,
}
use mathlib.Core.Path.{transport}
use an_b.Rules.Shell.{contains_byte}
use an_b.Rules.Literal.{regex_specials, quote_meta, escape_controls}

-- The syntax of package regexp, for patterns of single characters: the metacharacters, the byte that
-- a backslash and a second byte stand for, and the text that such a pattern stands for.
abbrev pub metacharacters : Bytes
metacharacters = codes "\\.+*?()|[]{}^$"

abbrev pub escape_of : ℕ → Option ℕ
escape_of d =
    if d == b't'
    then some b'\t'
    else if d == b'n'
    then some b'\n'
    else if d == b'r'
    then some b'\r'
    else if contains_byte metacharacters d
    then some d
    else none

abbrev pub put_first : Option ℕ → Option Bytes → Option Bytes
put_first (some c) (some s) = some (c ∷ s)
put_first (some c) none = none
put_first none s = none

abbrev pub plain_byte : ℕ → Option ℕ
plain_byte c = if contains_byte metacharacters c then none else some c

unfoldable pub literal_of : Bytes → Option Bytes
unfolding contains_byte
literal_of [] = some []
literal_of (c ∷ []) = put_first (plain_byte c) (some [])
literal_of (c ∷ d ∷ s) =
    let one = literal_of (d ∷ s) in
    let two = literal_of s in
    if c == b'\\' then put_first (escape_of d) two else put_first (plain_byte c) one

abbrev pub escaped : Bytes → Bytes
escaped m = escape_controls (quote_meta m)

-- a special byte is none of the three that are escaped afterwards
special_other :
    (c : ℕ)
    → contains_byte regex_specials c ≡ true
    → ((c == b'\t') ≡ false) × ((c == b'\n') ≡ false) × ((c == b'\r') ≡ false)
unfolding contains_byte
special_other c h = (ground arith, ground arith, ground arith)

module _ (c : ℕ) (m : Bytes) where
  escaped-special : contains_byte regex_specials c ≡ true → escaped (c ∷ m) ≡ b'\\' ∷ c ∷ escaped m
  unfolding escape_controls replace_byte quote_meta
  escaped-special h = let (t, n, r) = special_other c h in rw (h, t) (rw n (rw r refl))

  escaped-plain :
      contains_byte regex_specials c ≡ false
      → (c == b'\t') ≡ false
      → (c == b'\n') ≡ false
      → (c == b'\r') ≡ false
      → escaped (c ∷ m) ≡ c ∷ escaped m
  unfolding escape_controls replace_byte quote_meta
  escaped-plain h t n r = rw (h, t) (rw n (rw r refl))

escaped-control :
    (m : Bytes)
    → (escaped (b'\t' ∷ m) ≡ b'\\' ∷ b't' ∷ escaped m)
      × (escaped (b'\n' ∷ m) ≡ b'\\' ∷ b'n' ∷ escaped m)
      × (escaped (b'\r' ∷ m) ≡ b'\\' ∷ b'r' ∷ escaped m)
unfolding escape_controls replace_byte quote_meta contains_byte
escaped-control m = (refl, refl, refl)

escape_of-special : (c : ℕ) → contains_byte regex_specials c ≡ true → escape_of c ≡ some c
unfolding contains_byte
escape_of-special c h = ground arith

plain-backslash : (c : ℕ) → contains_byte regex_specials c ≡ false → (c == b'\\') ≡ false
unfolding contains_byte
plain-backslash c h = ground arith

literal_of-pair :
    (d : ℕ) (s : Bytes) → literal_of (b'\\' ∷ d ∷ s) ≡ put_first (escape_of d) (literal_of s)
unfolding literal_of
literal_of-pair d s = refl

literal_of-plain :
    (c : ℕ) (s : Bytes)
    → contains_byte regex_specials c ≡ false
    → literal_of (c ∷ s) ≡ put_first (some c) (literal_of s)
unfolding literal_of
literal_of-plain c [] h = rw h refl
literal_of-plain c (d ∷ s) h = rw h (rw (plain-backslash c h) refl)

module _ (m : Bytes) (ih : literal_of (escaped m) ≡ some m) where
  literal-front :
      (c d : ℕ)
      → escaped (c ∷ m) ≡ b'\\' ∷ d ∷ escaped m
      → escape_of d ≡ some c
      → literal_of (escaped (c ∷ m)) ≡ some (c ∷ m)
  literal-front c d e back = rw (e, literal_of-pair d (escaped m), back, ih) refl

  literal-control :
      (c d : ℕ)
      → (c == d) ≡ true
      → literal_of (escaped (d ∷ m)) ≡ some (d ∷ m)
      → literal_of (escaped (c ∷ m)) ≡ some (c ∷ m)
  literal-control c d same h =
      transport
        (ap (λ x. literal_of (escaped (x ∷ m)) ≡ some (x ∷ m)) (sym ((nat_beq_iff c d).0 same))) h

  literal-step : (c : ℕ) → literal_of (escaped (c ∷ m)) ≡ some (c ∷ m)
  literal-step c =
      let (tab, line, return) = escaped-control m in
      elim (Bool-cases (contains_byte regex_specials c)) [
        | inl h ↦ literal-front c c (escaped-special c m h) (escape_of-special c h)
        | inr h ↦ elim (Bool-cases (c == b'\t')) [
          | inl t ↦ literal-control c b'\t' t (literal-front b'\t' b't' tab refl)
          | inr t ↦ elim (Bool-cases (c == b'\n')) [
            | inl n ↦ literal-control c b'\n' n (literal-front b'\n' b'n' line refl)
            | inr n ↦ elim (Bool-cases (c == b'\r')) [
              | inl r ↦ literal-control c b'\r' r (literal-front b'\r' b'r' return refl)
              | inr r ↦ rw (escaped-plain c m h t n r, literal_of-plain c (escaped m) h, ih) refl
            ]
          ]
        ]
      ]

-- the quoted and escaped text is a pattern that stands for the text
pub literal_of-escaped : (m : Bytes) → literal_of (escaped m) ≡ some m
literal_of-escaped [] = unfold literal_of escape_controls quote_meta replace_byte in refl
literal_of-escaped (c ∷ m) = literal-step m (literal_of-escaped m) c
