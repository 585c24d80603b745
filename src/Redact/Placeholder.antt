-- ===== src/Redact/Placeholder.antt =====
-- internal/redact/redact.go: finding the placeholders of a text, and putting values in their place.
pub mod Laws
use an_b.Base.{
  ℕ, suc, ◌+◌, ◌-◌, Bool, true, false, not, ◌&&◌, ◌||◌, List, [], ◌∷◌, ◌++◌, Option, none, some,
  Bytes, codes, ◌==◌, nat_eq, bytes_eq, if◌then◌else◌, leb, length, take, drop, has_prefix,
}
use an_b.Redact.Search.{Piece, lit, hit, Pattern, pieces, hits, find_string}

abbrev pub placeholder_prefix : Bytes
placeholder_prefix = codes "<agent-vault:"

abbrev pub unvaulted_prefix : Bytes
unvaulted_prefix = codes "<agent-vault:UNVAULTED:sha256:"

-- [a-z0-9], and with the hyphen
abbrev pub is_key_end : ℕ → Bool
is_key_end c = (leb b'a' c && leb c b'z') || (leb b'0' c && leb c b'9')

abbrev pub is_key_byte : ℕ → Bool
is_key_byte c = is_key_end c || c == b'-'

abbrev pub is_hex_byte : ℕ → Bool
is_hex_byte c = (leb b'a' c && leb c b'f') || (leb b'0' c && leb c b'9')

abbrev cons_to : ℕ → Option Bytes → Option Bytes
cons_to c none = none
cons_to c (some s) = some (c ∷ s)

-- the bytes up to `>`, all of one class
unfoldable pub up_to_close : (ℕ → Bool) → Bytes → Option Bytes
up_to_close ok [] = none
up_to_close ok (c ∷ s) =
    let rest = up_to_close ok s in
    if c == b'>' then some [] else if ok c then cons_to c rest else none

unfoldable pub ends_well : Bytes → Bool
ends_well [] = false
ends_well (c ∷ []) = is_key_end c
ends_well (c ∷ d ∷ s) = ends_well (d ∷ s)

-- [a-z0-9](?:[a-z0-9-]*[a-z0-9])?, of bytes in the class
unfoldable pub is_key : Bytes → Bool
is_key [] = false
is_key (c ∷ s) = is_key_end c && ends_well (c ∷ s)

abbrev pub closed : (Bytes → Bool) → Bytes → Option Bytes → Option ℕ
closed good pre none = none
closed good pre (some body) = if good body then some (length pre + suc (length body)) else none

-- a prefix, a body of one class and `>`
abbrev pub tagged : Bytes → (ℕ → Bool) → (Bytes → Bool) → Pattern
tagged pre ok good s =
    if has_prefix s pre then closed good pre (up_to_close ok (drop (length pre) s)) else none

-- placeholderRE
unfoldable pub placeholder : Pattern
placeholder = tagged placeholder_prefix is_key_byte is_key

-- unvaultedRE
unfoldable pub unvaulted : Pattern
unvaulted = tagged unvaulted_prefix is_hex_byte λ h. leb 8 (length h) && leb (length h) 16

-- the length up to and with the first `>`
unfoldable pub close_at : Bytes → Option ℕ
close_at [] = none
close_at (c ∷ s) =
    let rest = close_at s in
    if c == b'>' then some 1 else elim rest [ none ↦ none | some n ↦ some (suc n) ]

-- looseAngleRE, `<[^>]+>`
unfoldable pub loose_angle : Pattern
loose_angle [] = none
loose_angle (c ∷ []) = none
loose_angle (c ∷ d ∷ s) =
    if c == b'<' && not (d == b'>')
    then elim (close_at (d ∷ s)) [ none ↦ none | some n ↦ some (suc n) ]
    else none

-- the submatch of a match of placeholderRE
abbrev pub key_of : Bytes → Bytes
key_of m = take (length m - (length placeholder_prefix + 1)) (drop (length placeholder_prefix) m)

pub record RestoreResult : Type 0 where
  pub content : Bytes
  pub restored : List Bytes
  pub missing : List Bytes

abbrev pub put : Bytes → Option Bytes → Bytes → RestoreResult → RestoreResult
put m none key r = record {
  content = m ++ r.content;
  restored = r.restored;
  missing = key ∷ r.missing;
}
put m (some v) key r = record {
  content = v ++ r.content;
  restored = key ∷ r.restored;
  missing = r.missing;
}

-- `get` is the lookup of a key's value
module _ (get : Bytes → Option Bytes) where
  unfoldable pub restore_pieces : List Piece → RestoreResult
  restore_pieces [] = record { content = []; restored = []; missing = [] }
  restore_pieces (lit c ∷ ps) =
      let r = restore_pieces ps in
      record { content = c ∷ r.content; restored = r.restored; missing = r.missing }
  restore_pieces (hit m ∷ ps) = put m (get (key_of m)) (key_of m) (restore_pieces ps)

  unfoldable pub restore : Bytes → RestoreResult
  restore content = restore_pieces (pieces placeholder content)

-- the loop of ExtractPlaceholders: `seen` are the keys met before
unfoldable pub distinct : (Bytes → Bool) → List Bytes → List Bytes
distinct seen [] = []
distinct seen (m ∷ ms) =
    let others = distinct (λ k. key_of m == k || seen k) ms in
    let rest = distinct seen ms in if seen (key_of m) then rest else key_of m ∷ others

unfoldable pub extract_placeholders : Bytes → List Bytes
extract_placeholders content = distinct (λ k. false) (hits (pieces placeholder content))

unfoldable pub is_valid_placeholder : Bytes → Bool
is_valid_placeholder [] = false
is_valid_placeholder (c ∷ s) =
    find_string placeholder (c ∷ s) == c ∷ s || find_string unvaulted (c ∷ s) == c ∷ s

unfoldable pub invalid_only : List Bytes → List Bytes
invalid_only [] = []
invalid_only (m ∷ ms) =
    let rest = invalid_only ms in if is_valid_placeholder m then rest else m ∷ rest

unfoldable pub find_suspicious_placeholders : Bytes → List Bytes
find_suspicious_placeholders content = invalid_only (hits (pieces loose_angle content))
