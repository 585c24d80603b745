-- ===== src/Rules/Parse.antt =====
-- internal/aclrules/aclrules.go: reading an allowlist file.
use an_b.Base.{
  ℕ, zero, suc, ◌*◌, Bool, true, false, ◌&&◌, ◌||◌, List, [], ◌∷◌, ◌++◌, Bytes, codes, Option, none,
  some, ◌==◌, nat_eq, bytes_eq, if◌then◌else◌, split, trim_space, has_prefix, length, leb, Result,
  ok, err, ◌>>=◌, or_fail, FileRead, not_exist, failed, contents,
}
use an_b.Rules.{Rule, cli, is_known_surface}

-- the messages, without their wording
pub data RuleError : Type 0 where
  too_many_fields : ℕ → RuleError
  bad_regex : ℕ → RuleError
  empty_env : ℕ → RuleError
  bad_env : ℕ → Bytes → RuleError
  bad_label : ℕ → RuleError
  empty_surface : ℕ → RuleError
  unknown_surface : ℕ → Bytes → RuleError
  scan : RuleError

-- envNameRE, `^[A-Za-z_][A-Za-z0-9_]*$`
abbrev pub is_name_start : ℕ → Bool
is_name_start c = (leb b'A' c && leb c b'Z') || (leb b'a' c && leb c b'z') || c == b'_'

abbrev pub is_name_byte : ℕ → Bool
is_name_byte c = is_name_start c || (leb b'0' c && leb c b'9')

unfoldable pub all_name_bytes : Bytes → Bool
all_name_bytes [] = true
all_name_bytes (c ∷ s) = is_name_byte c && all_name_bytes s

unfoldable pub is_env_name : Bytes → Bool
is_env_name [] = false
is_env_name (c ∷ s) = is_name_start c && all_name_bytes s

-- the loop over the parts of the scope
unfoldable pub surfaces : ℕ → List Bytes → Result RuleError (List Bytes)
surfaces n [] = ok []
surfaces n (p ∷ parts) =
    let rest = surfaces n parts in
    let name = trim_space p in
    if name == []
    then err (empty_surface n)
    else if is_known_surface name
    then (rest >>= λ names. ok (name ∷ names))
    else err (unknown_surface n name)

unfoldable pub parse_scope_column : Bytes → ℕ → Result RuleError (List Bytes)
parse_scope_column col n =
    let text = trim_space col in if text == [] then ok (cli ∷ []) else surfaces n (split b',' text)

-- the loop over the parts of the environment column
unfoldable pub env_names : ℕ → List Bytes → Result RuleError (List Bytes)
env_names n [] = ok []
env_names n (p ∷ parts) =
    let rest = env_names n parts in
    let name = trim_space p in
    if name == []
    then err (empty_env n)
    else if is_env_name name
    then (rest >>= λ names. ok (name ∷ names))
    else err (bad_env n name)

unfoldable pub parse_env_column : Bytes → ℕ → Result RuleError (List Bytes × Bool)
parse_env_column col n =
    let text = trim_space col in
    if text == []
    then ok ([], false)
    else if text == codes "*"
    then ok ([], true)
    else (env_names n (split b',' text) >>= λ names. ok (names, false))

unfoldable pub parse_label_column : Bytes → ℕ → Result RuleError Bytes
parse_label_column [] n = ok []
parse_label_column (c ∷ col) n = if c == b'#' then ok (trim_space col) else err (bad_label n)

abbrev pub anchored : Bytes → Bytes
anchored rx = codes "^(?:" ++ rx ++ codes ")$"

-- `fields[i]`, and the empty text where the line has fewer fields
abbrev pub field : ℕ → List Bytes → Bytes
field n [] = []
field zero (f ∷ fields) = f
field (suc n) (f ∷ fields) = field n fields

-- an empty line or a comment
unfoldable pub is_skipped : Bytes → Bool
is_skipped line = trim_space line == [] || has_prefix (trim_space line) (codes "#")

abbrev pub with_line :
    Result RuleError Rule → List Rule × List RuleError → List Rule × List RuleError
with_line (ok r) (rules, errs) = (r ∷ rules, errs)
with_line (err e) (rules, errs) = (rules, e ∷ errs)

-- bufio.ScanLines drops one carriage return at the end of a line
unfoldable pub drop_return : Bytes → Bytes
drop_return [] = []
drop_return (c ∷ []) = if c == b'\r' then [] else c ∷ []
drop_return (c ∷ d ∷ s) = c ∷ drop_return (d ∷ s)

pub data Loaded : Type 0 where
  loaded : List Rule → Loaded
  rules_missing : Loaded
  open_error : Loaded
  parse_errors : List RuleError → Loaded
  matches_everything : ℕ → Loaded

abbrev pub is_trivial_match_everything : (Bytes → Bool) → Bool
is_trivial_match_everything rx = (rx [] && rx (codes "/")) && rx (codes "../../etc/passwd")

-- the loop that refuses a rule that matches everything
unfoldable pub first_trivial : List Rule → Option Rule
first_trivial [] = none
first_trivial (r ∷ rules) =
    if is_trivial_match_everything r.regex then some r else first_trivial rules

abbrev pub refuse : Option Rule → List Rule → Loaded
refuse none rules = loaded rules
refuse (some r) rules = matches_everything r.line_no

abbrev pub admit : List Rule × List RuleError → Loaded
admit (rules, []) = refuse (first_trivial rules) rules
admit (rules, e ∷ errs) = parse_errors (e ∷ errs)

-- `compile` is regexp.Compile: it refuses a pattern, or gives its MatchString.
module _ (compile : Bytes → Option (Bytes → Bool)) where
  unfoldable pub parse_line : Bytes → ℕ → Result RuleError Rule
  parse_line line n =
      let fields = split b'\t' line in
      if leb 5 (length fields)
      then err (too_many_fields n)
      else (or_fail (bad_regex n) (compile (anchored (field 0 fields))) >>= λ rx.
          parse_env_column (field 1 fields) n >>= λ (allow, any).
          parse_label_column (field 2 fields) n >>= λ label.
          parse_scope_column (field 3 fields) n >>= λ scope. ok (record {
            regex = rx;
            env_allow = allow;
            env_any = any;
            label = label;
            scope = scope;
            line_no = n;
            raw = line;
          }))

  -- One line. A line that does not fit the buffer with its end is an error and ends the scan.
  unfoldable pub scan_line : Bytes → ℕ → List Rule × List RuleError → List Rule × List RuleError
  scan_line p n rest =
      if leb (4 * 1024) (length p)
      then ([], scan ∷ [])
      else if is_skipped (drop_return p)
      then rest
      else with_line (parse_line (drop_return p) n) rest

  -- The scanner's loop, on the pieces between line ends. An empty last piece is no line.
  unfoldable pub scan_lines : List Bytes → ℕ → List Rule × List RuleError
  scan_lines [] n = ([], [])
  scan_lines ([] ∷ []) n = ([], [])
  scan_lines (p ∷ pieces) n = scan_line p (suc n) (scan_lines pieces (suc n))

  unfoldable pub parse : Bytes → List Rule × List RuleError
  parse text = scan_lines (split b'\n' text) 0

  unfoldable pub load_file : FileRead Bytes → Loaded
  load_file not_exist = rules_missing
  load_file failed = open_error
  load_file (contents text) = admit (parse text)
