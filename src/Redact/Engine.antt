-- ===== src/Redact/Engine.antt =====
-- internal/redact/redact.go: Redact and RestoreUnvaulted. The secret patterns are compiled regular
-- expressions, so a list of tests; the entropy is float64, so its comparison with the threshold is a
-- test too; SHA-256 in hexadecimal is a function.
use an_b.Base.{
  ℕ, suc, ◌+◌, ◌-◌, Bool, false, not, ◌&&◌, ◌||◌, List, [], ◌∷◌, ◌++◌, Option, none, some, Bytes,
  Table, ◌==◌, nat_eq, bytes_eq, if◌then◌else◌, leb, ltb, length, take, drop, has_prefix, split,
  join, map,
}
use an_b.Rules.{contains}
use an_b.Redact.Search.{Piece, lit, hit, Pattern, pieces}
use an_b.Redact.Placeholder.{placeholder_prefix, unvaulted_prefix, unvaulted}
use an_b.Redact.Words.{looks_like_non_secret}
use an_b.Redact.Candidates.{extract_value_candidates, strip_quotes}

abbrev pub high_entropy_min_length : ℕ
high_entropy_min_length = 12

abbrev pub unvaulted_prefix_len : ℕ
unvaulted_prefix_len = 12

-- a text at the start
abbrev pub exactly : Bytes → Pattern
exactly old s = if has_prefix s old then some (length old) else none

unfoldable pub replaced_pieces : Bytes → List Piece → Bytes
replaced_pieces new [] = []
replaced_pieces new (lit c ∷ ps) = c ∷ replaced_pieces new ps
replaced_pieces new (hit m ∷ ps) = new ++ replaced_pieces new ps

-- strings.ReplaceAll of a text that is not empty
unfoldable pub replace_all : Bytes → Bytes → Bytes → Bytes
unfolding replaced_pieces
replace_all s old new = replaced_pieces new (pieces (exactly old) s)

-- strings.Contains
unfoldable pub contains_text : Bytes → Bytes → Bool
contains_text [] sub = sub == []
contains_text (c ∷ s) sub = has_prefix (c ∷ s) sub || contains_text s sub

-- strings.Replace with the count 1
unfoldable pub replace_first : Bytes → Bytes → Bytes → Bytes
replace_first [] old new = []
replace_first (c ∷ s) old new =
    let rest = replace_first s old new in
    if has_prefix (c ∷ s) old then new ++ drop (length old) (c ∷ s) else c ∷ rest

-- the values that are not empty, the longest first
unfoldable pub insert_longest : Bytes × Bytes → Table Bytes Bytes → Table Bytes Bytes
insert_longest e [] = e ∷ []
insert_longest (v, k) ((u, j) ∷ rest) =
    let more = insert_longest (v, k) rest in
    if leb (length u) (length v) then (v, k) ∷ (u, j) ∷ rest else (u, j) ∷ more

unfoldable pub longest_first : Table Bytes Bytes → Table Bytes Bytes
unfolding insert_longest
longest_first [] = []
longest_first (([], k) ∷ rest) = longest_first rest
longest_first ((c ∷ v, k) ∷ rest) = insert_longest (c ∷ v, k) (longest_first rest)

-- the loop of phase 1
unfoldable pub replace_known : Table Bytes Bytes → Bytes → Bytes
unfolding replace_all
replace_known [] s = s
replace_known ((v, k) ∷ rest) s =
    replace_known rest (replace_all s v (placeholder_prefix ++ (k ++ (b'>' ∷ []))))

abbrev pub values_of : Table Bytes Bytes → List Bytes
values_of = map λ e. e.0

-- a regular expression's test, the entropy's, and a digest
pub record Detector : Type 0 where
  pub secret_patterns : List (Bytes → Bool)
  pub entropy_is_high : Bytes → Bool
  pub sha256_hex : Bytes → Bytes

unfoldable pub matches_any : List (Bytes → Bool) → Bytes → Bool
matches_any [] s = false
matches_any (p ∷ ps) s = p s || matches_any ps s

-- the submatch of a match of unvaultedRE
abbrev pub hash_of : Bytes → Bytes
hash_of m = take (length m - (length unvaulted_prefix + 1)) (drop (length unvaulted_prefix) m)

pub record Unvaulted : Type 0 where
  pub out : Bytes
  pub restored_count : ℕ
  pub unmatched : List Bytes

abbrev pub put_found : Bytes → Option Bytes → Unvaulted → Unvaulted
put_found m none r = record {
  out = m ++ r.out;
  restored_count = r.restored_count;
  unmatched = hash_of m ∷ r.unmatched;
}
put_found m (some v) r = record {
  out = v ++ r.out;
  restored_count = suc r.restored_count;
  unmatched = r.unmatched;
}

module _ (d : Detector) where
  unfoldable pub is_high_entropy : Bytes → Bool
  is_high_entropy s = if ltb (length s) high_entropy_min_length then false else d.entropy_is_high s

  unfoldable pub is_suspect : Bytes → Bool
  unfolding matches_any is_high_entropy
  is_suspect s =
      matches_any d.secret_patterns s || (is_high_entropy s && not (looks_like_non_secret s))

  abbrev pub unvaulted_for : Bytes → Bytes
  unvaulted_for s = unvaulted_prefix ++ (take unvaulted_prefix_len (d.sha256_hex s) ++ (b'>' ∷ []))

  -- the body of the loop over the candidates of a line
  unfoldable pub redact_candidate : List Bytes → Bytes → Bytes → Bytes
  unfolding is_suspect
  redact_candidate known result cand =
      let trimmed = strip_quotes cand in
      if ltb (length trimmed) high_entropy_min_length
      then result
      else if contains trimmed known
      then result
      else if is_suspect trimmed
      then replace_first result cand (unvaulted_for trimmed)
      else result

  unfoldable pub redact_candidates : List Bytes → Bytes → List Bytes → Bytes
  unfolding redact_candidate
  redact_candidates known result [] = result
  redact_candidates known result (c ∷ cs) =
      redact_candidates known (redact_candidate known result c) cs

  unfoldable pub redact_line : List Bytes → Bytes → Bytes
  unfolding redact_candidates
  redact_line known line =
      if contains_text line placeholder_prefix
      then line
      else redact_candidates known line (extract_value_candidates line)

  unfoldable pub redact_unvaulted_tokens : List Bytes → Bytes → Bytes
  unfolding redact_line
  redact_unvaulted_tokens known content =
      join (b'\n' ∷ []) (map (redact_line known) (split b'\n' content))

  unfoldable pub redact : Table Bytes Bytes → Bytes → Bytes
  unfolding replace_known longest_first redact_unvaulted_tokens
  redact secret_values content =
      redact_unvaulted_tokens (values_of secret_values)
        (replace_known (longest_first secret_values) content)

  -- the suspect tokens of a file, each once
  unfoldable pub add_suspects : List Bytes → List Bytes → List Bytes
  unfolding is_suspect
  add_suspects seen [] = seen
  add_suspects seen (c ∷ cs) =
      let t = strip_quotes c in
      add_suspects
        (if not (ltb (length t) high_entropy_min_length) && (not (contains t seen) && is_suspect t)
          then seen ++ (t ∷ [])
          else seen)
        cs

  unfoldable pub suspects_of : List Bytes → List Bytes → List Bytes
  unfolding add_suspects
  suspects_of seen [] = seen
  suspects_of seen (line ∷ lines) =
      suspects_of (add_suspects seen (extract_value_candidates line)) lines

  -- the first candidate whose digest begins with the hash
  unfoldable pub find_by_hash : Bytes → List Bytes → Option Bytes
  find_by_hash hash [] = none
  find_by_hash hash (c ∷ cs) =
      if has_prefix (d.sha256_hex c) hash then some c else find_by_hash hash cs

  unfoldable pub restore_unvaulted_pieces : List Bytes → List Piece → Unvaulted
  unfolding find_by_hash
  restore_unvaulted_pieces cands [] = record { out = []; restored_count = 0; unmatched = [] }
  restore_unvaulted_pieces cands (lit c ∷ ps) =
      let r = restore_unvaulted_pieces cands ps in record r { out = c ∷ r.out }
  restore_unvaulted_pieces cands (hit m ∷ ps) =
      put_found m (find_by_hash (hash_of m) cands) (restore_unvaulted_pieces cands ps)

  unfoldable pub restore_unvaulted : Bytes → Bytes → Unvaulted
  unfolding restore_unvaulted_pieces suspects_of
  restore_unvaulted content existing =
      restore_unvaulted_pieces (suspects_of [] (split b'\n' existing)) (pieces unvaulted content)
