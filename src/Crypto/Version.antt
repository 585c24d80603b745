-- ===== src/Crypto/Version.antt =====
-- internal/crypto/envelope.go: the "v<N>:" tag in front of a packed ciphertext.
pub mod Laws
use an_b.Base.{
  ℕ, ◌+◌, ◌≤◌, Bool, true, false, not, ◌&&◌, ◌||◌, List, [], ◌∷◌, ◌++◌, Option, none, some, Bytes,
  codes, ◌==◌, nat_eq, bytes_eq, if◌then◌else◌, leb, Result, ok, err,
}
use an_b.Crypto.Decimal.{is_digit, itoa, atoi}
use an_b.Crypto.{Error, empty_packed, bad_version}

unfoldable pub pack_version : ℕ → Bytes → Bytes
pack_version version raw = b'v' ∷ (itoa version ++ (b':' ∷ raw))

abbrev cons_digit : ℕ → Bytes × Bytes → Bytes × Bytes
cons_digit c (ds, rest) = (c ∷ ds, rest)

-- the longest run of digits in front, and what follows
unfoldable pub span_digits : Bytes → Bytes × Bytes
span_digits [] = ([], [])
span_digits (c ∷ s) =
    let more = span_digits s in if is_digit c then cons_digit c more else ([], c ∷ s)

-- `.` matches every rune but a newline
unfoldable pub has_newline : Bytes → Bool
has_newline [] = false
has_newline (c ∷ s) = c == b'\n' || has_newline s

abbrev after_digits : Bytes × Bytes → Option (Bytes × Bytes)
after_digits ([], rest) = none
after_digits (d ∷ ds, []) = none
after_digits (d ∷ ds, c ∷ body) =
    if c == b':' && not (has_newline body) then some (d ∷ ds, body) else none

-- versionPrefixRE = ^v([0-9]+):(.*)$, its two groups
unfoldable pub match_version_prefix : Bytes → Option (Bytes × Bytes)
unfolding span_digits has_newline
match_version_prefix [] = none
match_version_prefix (c ∷ s) = if c == b'v' then after_digits (span_digits s) else none

abbrev with_version : Option ℕ → Bytes → Result Error (ℕ × Bytes)
with_version none body = err bad_version
with_version (some v) body = if leb 1 v then ok (v, body) else err bad_version

abbrev from_match : Bytes → Option (Bytes × Bytes) → Result Error (ℕ × Bytes)
from_match s none = ok (1, s)
from_match s (some (ds, body)) = with_version (atoi ds) body

unfoldable pub parse_version : Bytes → Result Error (ℕ × Bytes)
unfolding match_version_prefix atoi
parse_version [] = err empty_packed
parse_version (c ∷ s) = from_match (c ∷ s) (match_version_prefix (c ∷ s))
