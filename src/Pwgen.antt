-- ===== src/Pwgen.antt =====
-- internal/pwgen/pwgen.go: passwords from random indices. The text of the embedded word list,
-- base64 and the bytes that rand.Read gives are arguments.
pub mod Laws
use an_b.Base.{
  ℕ, zero, suc, ◌+◌, ◌*◌, ◌-◌, ◌/◌, ◌%◌, Bool, true, false, ◌&&◌, ◌||◌, List, [], ◌∷◌, ◌++◌, Option,
  none, some, Bytes, codes, Table, lookup, ◌==◌, nat_eq, bytes_eq, if◌then◌else◌, ltb, leb, take,
  split, trim_space, has_prefix, drop, length, join, Result, ok, err,
}
use an_b.Base.Int.{ℤ, pos, negsuc}

abbrev pub lower : Bytes
lower = codes "abcdefghijklmnopqrstuvwxyz"

abbrev pub upper : Bytes
upper = codes "ABCDEFGHIJKLMNOPQRSTUVWXYZ"

abbrev pub digits : Bytes
digits = codes "0123456789"

abbrev pub symbols : Bytes
symbols = codes "!#$%&*+-=?@^_~"

abbrev pub alnum : Bytes
alnum = lower ++ upper ++ digits

-- `def`, `min` and `max`; the unit is for messages only
pub record Bound : Type 0 where
  pub usual : ℕ
  pub least : ℕ
  pub most : ℕ

abbrev pub bounds : Table Bytes Bound
bounds =
    (codes "apple", record { usual = 3; least = 1; most = 8 })
    ∷ (codes "full", record { usual = 20; least = 8; most = 100 })
    ∷ (codes "passphrase", record { usual = 5; least = 3; most = 12 })
    ∷ (codes "pin", record { usual = 6; least = 4; most = 32 })
    ∷ (codes "aes256", record { usual = 32; least = 32; most = 32 })
    ∷ []

-- strings.ContainsAny
unfoldable pub contains : Bytes → ℕ → Bool
contains [] c = false
contains (x ∷ xs) c = c == x || contains xs c

unfoldable pub contains_any : Bytes → Bytes → Bool
contains_any [] chars = false
contains_any (c ∷ s) chars = contains chars c || contains_any s chars

unfoldable pub covers : Bytes → List Bytes → Bool
covers b [] = true
covers b (class ∷ classes) = contains_any b class && covers b classes

-- s[i], where i is below the length; Go panics elsewhere, and no index is drawn there
unfoldable pub byte_at : Bytes → ℕ → ℕ
byte_at [] i = 0
byte_at (c ∷ s) zero = c
byte_at (c ∷ s) (suc i) = byte_at s i

unfoldable pub word_at : List Bytes → ℕ → Bytes
word_at [] i = []
word_at (w ∷ ws) zero = w
word_at (w ∷ ws) (suc i) = word_at ws i

-- the loop of `apple` that writes six bytes a group, from the group `i` on
unfoldable pub grouped : ℕ → ℕ → Bytes → Bytes
grouped zero i raw = []
grouped (suc left) i raw =
    (if ltb 0 i then b'-' ∷ [] else []) ++ take 6 (drop (i * 6) raw) ++ grouped left (suc i) raw

-- strings.ToUpper of the first letter, ASCII as the words are
abbrev pub capitalized : Bytes → Bytes
capitalized [] = []
capitalized (c ∷ s) = (if leb b'a' c && leb c b'z' then c - 32 else c) ∷ s

unfoldable pub capitalize_at : ℕ → List Bytes → List Bytes
capitalize_at c [] = []
capitalize_at zero (w ∷ ws) = capitalized w ∷ ws
capitalize_at (suc c) (w ∷ ws) = w ∷ capitalize_at c ws

-- "-%02d" of a number below 100
abbrev pub two_digits : ℕ → Bytes
two_digits n = b'-' ∷ (b'0' + n / 10) ∷ (b'0' + n % 10) ∷ []

unfoldable pub load_lines : List Bytes → List Bytes
load_lines [] = []
load_lines (line ∷ lines) =
    let rest = load_lines lines in
    let word = trim_space line in
    if word == [] || has_prefix word (codes "#") then rest else word ∷ rest

unfoldable pub load_words : Bytes → List Bytes
unfolding load_lines
load_words raw = load_lines (split b'\n' raw)

pub data GenerateError : Type 0 where
  unknown_style : GenerateError
  bad_size : GenerateError
  unreachable_style : GenerateError

-- the size that is used: the default for 0, and none where it is out of bounds
unfoldable pub sized : Bound → ℤ → Option ℕ
sized b (negsuc n) = none
sized b (pos zero) = some b.usual
sized b (pos (suc n)) = if ltb (suc n) b.least || ltb b.most (suc n) then none else some (suc n)

-- `draw i n` is what the i-th call of randIndex answers for the bound n
module _ (draw : ℕ → ℕ → ℕ) where
  unfoldable pub draw_bytes : Bytes → ℕ → ℕ → Bytes
  draw_bytes pool zero i = []
  draw_bytes pool (suc n) i = byte_at pool (draw i (length pool)) ∷ draw_bytes pool n (suc i)

  unfoldable pub draw_words : List Bytes → ℕ → ℕ → List Bytes
  draw_words words zero i = []
  draw_words words (suc n) i = word_at words (draw i (length words)) ∷ draw_words words n (suc i)

  -- at most `fuel` rounds of the loop; `none` where all of them miss a class
  unfoldable pub fill : ℕ → Bytes → ℕ → List Bytes → ℕ → Option Bytes
  unfolding covers draw_bytes
  fill zero pool n classes i = none
  fill (suc fuel) pool n classes i =
      let again = fill fuel pool n classes (i + n) in
      let out = draw_bytes pool n i in if covers out classes then some out else again

  unfoldable pub apple : ℕ → ℕ → Option Bytes
  unfolding fill grouped
  apple fuel groups = elim (fill fuel alnum (groups * 6) (lower ∷ upper ∷ digits ∷ []) 0) [
    | none ↦ none
    | some raw ↦ some (grouped groups 0 raw)
  ]

  unfoldable pub full : ℕ → ℕ → Option Bytes
  unfolding fill
  full fuel n =
      fill fuel (lower ++ upper ++ digits ++ symbols) n (lower ∷ upper ∷ digits ∷ symbols ∷ []) 0

  unfoldable pub pin : ℕ → Bytes
  unfolding draw_bytes
  pin n = draw_bytes digits n 0

  unfoldable pub passphrase : List Bytes → ℕ → Bytes
  unfolding draw_words capitalize_at
  passphrase words n =
      join (b'-' ∷ []) (capitalize_at (draw n n) (draw_words words n 0))
      ++ two_digits (draw (suc n) 100)

  -- `encode` is base64.URLEncoding, `random` what rand.Read puts into n bytes
  module _ (words : List Bytes) (encode : Bytes → Bytes) (random : ℕ → Bytes) where
    abbrev pub by_style : ℕ → Bytes → ℕ → Result GenerateError (Option Bytes)
    by_style fuel style size =
        if codes "apple" == style
        then ok (apple fuel size)
        else if codes "full" == style
        then ok (full fuel size)
        else if codes "passphrase" == style
        then ok (some (passphrase words size))
        else if codes "pin" == style
        then ok (some (pin size))
        else if codes "aes256" == style
        then ok (some (encode (random size)))
        else err unreachable_style

    unfoldable pub generate : ℕ → Bytes → ℤ → Result GenerateError (Option Bytes)
    unfolding sized
    generate fuel style size = elim (lookup style bounds) [
      | none ↦ err unknown_style
      | some b ↦ elim (sized b size) [ none ↦ err bad_size | some n ↦ by_style fuel style n ]
    ]
