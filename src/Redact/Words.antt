-- ===== src/Redact/Words.antt =====
-- internal/redact/redact.go: texts that look like no secret.
use an_b.Base.{
  ℕ, ◌+◌, ◌-◌, ◌*◌, Bool, true, false, ◌&&◌, ◌||◌, List, [], ◌∷◌, Bytes, codes, ◌==◌, nat_eq,
  bytes_eq, if◌then◌else◌, leb, length, has_prefix, split,
}
use an_b.Rules.{contains}
use an_b.Exec.Run.{to_lower}

abbrev pub is_upper : ℕ → Bool
is_upper c = leb b'A' c && leb c b'Z'

abbrev pub is_letter : ℕ → Bool
is_letter c = (leb b'a' c && leb c b'z') || is_upper c

abbrev pub is_decimal : ℕ → Bool
is_decimal c = leb b'0' c && leb c b'9'

abbrev pub is_alnum : ℕ → Bool
is_alnum c = is_letter c || is_decimal c

unfoldable pub all_bytes : (ℕ → Bool) → Bytes → Bool
all_bytes p [] = true
all_bytes p (c ∷ s) = p c && all_bytes p s

unfoldable pub ends_with : ℕ → Bytes → Bool
ends_with b [] = false
ends_with b (c ∷ []) = c == b
ends_with b (c ∷ d ∷ s) = ends_with b (d ∷ s)

-- reArrayObj, `(?s)^\[.*\]$|^\{.*\}$`
unfoldable pub is_array_or_object : Bytes → Bool
unfolding ends_with
is_array_or_object [] = false
is_array_or_object (c ∷ s) = (c == b'[' && ends_with b']' s) || (c == b'{' && ends_with b'}' s)

-- reURL, `(?i)^https?://`; the long s of Unicode, which folds to s, is left out
unfoldable pub is_url : Bytes → Bool
is_url s = has_prefix (to_lower s) (codes "http://") || has_prefix (to_lower s) (codes "https://")

-- reFilePath, `^[~.]?/`
unfoldable pub is_file_path : Bytes → Bool
is_file_path [] = false
is_file_path (c ∷ []) = c == b'/'
is_file_path (c ∷ d ∷ s) = c == b'/' || ((c == b'~' || c == b'.') && d == b'/')

abbrev cons_run : ℕ → List Bytes → List Bytes
cons_run c [] = (c ∷ []) ∷ []
cons_run c (r ∷ rs) = (c ∷ r) ∷ rs

-- reNonAlnum.Split, from inside a segment on: the first of the list is the segment
unfoldable pub segments : Bytes → List Bytes
segments [] = [] ∷ []
segments (c ∷ s) = let rest = segments s in if is_alnum c then cons_run c rest else [] ∷ rest

unfoldable pub non_empty : List Bytes → List Bytes
non_empty [] = []
non_empty ([] ∷ ss) = non_empty ss
non_empty ((c ∷ s) ∷ ss) = (c ∷ s) ∷ non_empty ss

abbrev pub common_bigrams : List Bytes
common_bigrams = split b' ' (
    codes
      "th he in er an re on en at es ed te ti or st ar nd to nt is of it al as ha ng co se me de le ou no ne ea ri ro li ra io ic el la ve ta ce ma si om ur ec il ge lo ch so pr pe fo ca di be mo ag un us wi hi sh ac ad ol ab mi im id oo ke ki su po pa wa up do fi ho da fe vi ow am ut ni lu tr pl bl sp cr na ot ns ll ss wh ck gh ry ly ty ay ey")

-- the count of the pairs of neighbours that are common
unfoldable pub bigram_hits : Bytes → ℕ
bigram_hits [] = 0
bigram_hits (c ∷ []) = 0
bigram_hits (c ∷ d ∷ s) =
    (if contains (c ∷ d ∷ []) common_bigrams then 1 else 0) + bigram_hits (d ∷ s)

-- hits / n >= 0.3: the quotient of two small integers is never rounded up to 0.3
unfoldable pub looks_like_english : Bytes → Bool
unfolding bigram_hits
looks_like_english seg =
    let n = length seg - 1 in if n == 0 then true else leb (3 * n) (10 * bigram_hits (to_lower seg))

unfoldable pub is_word_like_segment : Bytes → Bool
unfolding all_bytes looks_like_english
is_word_like_segment seg =
    if leb (length seg) 3
    then true
    else if all_bytes is_upper seg
    then true
    else if all_bytes is_decimal seg
    then true
    else if all_bytes is_letter seg
    then looks_like_english seg
    else false

unfoldable pub all_word_like : List Bytes → Bool
unfolding is_word_like_segment
all_word_like [] = true
all_word_like (s ∷ ss) = is_word_like_segment s && all_word_like ss

unfoldable pub looks_like_non_secret : Bytes → Bool
unfolding is_array_or_object is_url is_file_path segments non_empty all_word_like
looks_like_non_secret s =
    if is_array_or_object s
    then true
    else if is_url s
    then true
    else if is_file_path s
    then true
    else elim (non_empty (segments s)) [ [] ↦ false | seg ∷ segs ↦ all_word_like (seg ∷ segs) ]
