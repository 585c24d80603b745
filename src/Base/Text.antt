-- ===== src/Base/Text.antt =====
-- Go strings are byte strings: lists of numbers. The functions of package `strings` that the
-- program uses.
use Prim.Native.Nat.{ℕ, suc}
use Prim.Native.Char.{code}
use Prim.Native.String.{String}
use mathlib.Core.Bool.{Bool, true, false, ◌&&◌, ◌||◌}
use mathlib.Core.Logic.{◌≢◌}
use mathlib.Core.Option.{Option, none, some}
use mathlib.Core.List.{List, [], ◌∷◌, ◌++◌, reverse}
use an_b.Base.Tests.{leb, ◌==◌, if◌then◌else◌, nat_eq}
use an_b.Base.Lists.{All}

abbrev pub Bytes : Type 0
Bytes = List ℕ

-- the code points of a literal; these are its bytes when the text is ASCII
abbrev pub codes : String → Bytes
codes String.[] = []
codes (String.◌∷◌ c s) = code c ∷ codes s

-- no byte of the text is `b`
abbrev pub Lacks : ℕ → Bytes → Type 0
Lacks b = All (λ c. c ≢ b)

-- strings.HasPrefix
unfoldable pub has_prefix : Bytes → Bytes → Bool
has_prefix s [] = true
has_prefix [] (p ∷ ps) = false
has_prefix (c ∷ s) (p ∷ ps) = c == p && has_prefix s ps

-- strings.Split by one byte
unfoldable pub split : ℕ → Bytes → List Bytes
split sep [] = [] ∷ []
split sep (c ∷ s) = elim (split sep s) [
  | [] ↦ (c ∷ []) ∷ []
  | p ∷ ps ↦ if c == sep then [] ∷ p ∷ ps else (c ∷ p) ∷ ps
]

-- strings.Join
unfoldable pub join : Bytes → List Bytes → Bytes
join sep [] = []
join sep (p ∷ []) = p
join sep (p ∷ q ∷ ps) = p ++ sep ++ join sep (q ∷ ps)

-- strings.ReplaceAll where the old text is one byte
unfoldable pub replace_byte : ℕ → Bytes → Bytes → Bytes
replace_byte old new [] = []
replace_byte old new (c ∷ s) = (if c == old then new else c ∷ []) ++ replace_byte old new s

-- strings.IndexByte
unfoldable pub index_byte : ℕ → Bytes → Option ℕ
index_byte b [] = none
index_byte b (c ∷ s) =
    if c == b then some 0 else elim (index_byte b s) [ none ↦ none | some i ↦ some (suc i) ]

-- unicode.IsSpace on the runes of one, two and three bytes, the last two by their UTF-8 bytes
abbrev pub is_space : ℕ → Bool
is_space c = c == b' ' || (leb 9 c && leb c 13)

abbrev pub is_space2 : ℕ → ℕ → Bool
is_space2 c d = c == 0xc2 && (d == 0x85 || d == 0xa0)

abbrev pub is_space3 : ℕ → ℕ → ℕ → Bool
is_space3 c d e =
    (c == 0xe1 && d == 0x9a && e == 0x80)
    || (c == 0xe2 && d == 0x80 && (leb 0x80 e && leb e 0x8a || e == 0xa8 || e == 0xa9 || e == 0xaf))
    || (c == 0xe2 && d == 0x81 && e == 0x9f)
    || (c == 0xe3 && d == 0x80 && e == 0x80)

-- drops the white space in front; the tests say which two and three bytes are one such rune
module _ (space2 : ℕ → ℕ → Bool) (space3 : ℕ → ℕ → ℕ → Bool) where
  unfoldable pub trim_front : Bytes → Bytes
  trim_front [] = []
  trim_front (c ∷ []) = if is_space c then [] else c ∷ []
  trim_front (c ∷ d ∷ []) =
      let one = trim_front (d ∷ []) in
      if is_space c then one else if space2 c d then [] else c ∷ d ∷ []
  trim_front (c ∷ d ∷ e ∷ s) =
      let one = trim_front (d ∷ e ∷ s) in
      let two = trim_front (e ∷ s) in
      let three = trim_front s in
      if is_space c
      then one
      else if space2 c d
      then two
      else if space3 c d e
      then three
      else c ∷ d ∷ e ∷ s

unfoldable pub trim_left : Bytes → Bytes
unfolding trim_front
trim_left = trim_front is_space2 is_space3

-- the bytes of a rune stand the other way round in a reversed text
unfoldable pub trim_right : Bytes → Bytes
unfolding trim_front
trim_right s = reverse (trim_front (λ c d. is_space2 d c) (λ c d e. is_space3 e d c) (reverse s))

-- strings.TrimSpace
unfoldable pub trim_space : Bytes → Bytes
unfolding trim_left trim_right
trim_space s = trim_right (trim_left s)
