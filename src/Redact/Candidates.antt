-- ===== src/Redact/Candidates.antt =====
-- internal/redact/redact.go: the values that a line of a file may assign. The three patterns are
-- matchers on bytes.
use an_b.Base.{
  ℕ, Bool, ◌&&◌, ◌||◌, List, [], ◌∷◌, Option, none, some, Bytes, codes, ◌==◌, nat_eq, bytes_eq,
  if◌then◌else◌, has_prefix, trim_space,
}
use an_b.Redact.Words.{is_letter, is_alnum}

-- \s of a regular expression
abbrev pub is_re_space : ℕ → Bool
is_re_space c = c == b' ' || (c == b'\t' || (c == b'\n' || (c == b'\r' || c == 12)))

unfoldable pub skip_spaces : Bytes → Bytes
skip_spaces [] = []
skip_spaces (c ∷ s) = let rest = skip_spaces s in if is_re_space c then rest else c ∷ s

-- what is left behind the longest run of the class
unfoldable pub skip_class : (ℕ → Bool) → Bytes → Bytes
skip_class p [] = []
skip_class p (c ∷ s) = let rest = skip_class p s in if p c then rest else c ∷ s

abbrev pub is_name_start : ℕ → Bool
is_name_start c = is_letter c || c == b'_'

abbrev pub is_env_byte : ℕ → Bool
is_env_byte c = is_alnum c || c == b'_'

abbrev pub is_yaml_byte : ℕ → Bool
is_yaml_byte c = is_env_byte c || (c == b'.' || c == b'-')

-- what follows the name, and spaces
abbrev pub behind_name : (ℕ → Bool) → Bytes → Option Bytes
behind_name p [] = none
behind_name p (c ∷ s) = if is_name_start c then some (skip_spaces (skip_class p s)) else none

abbrev pub value_or_none : Bytes → Option Bytes
value_or_none [] = none
value_or_none (c ∷ s) = some (c ∷ s)

abbrev pub after_equals : Option Bytes → Option Bytes
after_equals none = none
after_equals (some []) = none
after_equals (some (c ∷ s)) = if c == b'=' then value_or_none (skip_spaces s) else none

-- reEnvLine, on a line that is trimmed
unfoldable pub env_line : Bytes → Option Bytes
unfolding skip_spaces skip_class
env_line s = after_equals (behind_name is_env_byte s)

abbrev pub after_space : Bytes → Option Bytes
after_space [] = none
after_space (c ∷ s) = if is_re_space c then value_or_none (skip_spaces s) else none

abbrev pub after_colon : Option Bytes → Option Bytes
after_colon none = none
after_colon (some []) = none
after_colon (some (c ∷ s)) = if c == b':' then after_space s else none

-- reYamlLine, on a line that is trimmed
unfoldable pub yaml_line : Bytes → Option Bytes
unfolding skip_spaces skip_class
yaml_line s = after_colon (behind_name is_yaml_byte s)

abbrev cons_text : ℕ → Option (Bytes × Bytes) → Option (Bytes × Bytes)
cons_text c none = none
cons_text c (some (t, rest)) = some (c ∷ t, rest)

-- the text up to the next quote, and what follows the quote
unfoldable pub up_to_quote : Bytes → Option (Bytes × Bytes)
up_to_quote [] = none
up_to_quote (c ∷ s) =
    let rest = up_to_quote s in if c == b'"' then some ([], s) else cons_text c rest

-- `"[^"]+"` at the start
abbrev pub quoted : Bytes → Option (Bytes × Bytes)
quoted [] = none
quoted (c ∷ s) =
    if c == b'"'
    then elim (up_to_quote s) [
      | none ↦ none
      | some (t, rest) ↦ if t == [] then none else some (t, rest)
    ]
    else none

abbrev json_value : Bytes → Option Bytes
json_value [] = none
json_value (c ∷ s) =
    if c == b':'
    then elim (quoted (skip_spaces s)) [ none ↦ none | some (t, rest) ↦ some t ]
    else none

abbrev json_pair : Option (Bytes × Bytes) → Option Bytes
json_pair none = none
json_pair (some (name, rest)) = json_value (skip_spaces rest)

abbrev or_later : Option Bytes → Option Bytes → Option Bytes
or_later none later = later
or_later (some v) later = some v

-- reJSONLine, the leftmost match
unfoldable pub json_line : Bytes → Option Bytes
unfolding skip_spaces up_to_quote
json_line [] = none
json_line (c ∷ s) = or_later (json_pair (quoted (c ∷ s))) (json_line s)

abbrev pub to_list : Option Bytes → List Bytes → List Bytes
to_list none rest = rest
to_list (some v) rest = v ∷ rest

unfoldable pub extract_value_candidates : Bytes → List Bytes
unfolding env_line yaml_line json_line
extract_value_candidates line =
    let trimmed = trim_space line in
    if has_prefix trimmed (codes "#") || has_prefix trimmed (codes "//")
    then []
    else to_list (env_line trimmed) (to_list (yaml_line trimmed) (to_list (json_line trimmed) []))

abbrev pub is_quote : ℕ → Bool
is_quote c = c == b'"' || c == b'\''

unfoldable pub drop_open_quote : Bytes → Bytes
drop_open_quote [] = []
drop_open_quote (c ∷ s) = if is_quote c then s else c ∷ s

-- one trailing quote, or a quote and a comma
unfoldable pub drop_close_quote : Bytes → Bytes
drop_close_quote [] = []
drop_close_quote (c ∷ []) = if is_quote c then [] else c ∷ []
drop_close_quote (c ∷ d ∷ []) =
    if d == b',' && is_quote c then [] else if is_quote d then c ∷ [] else c ∷ d ∷ []
drop_close_quote (c ∷ d ∷ e ∷ s) = c ∷ drop_close_quote (d ∷ e ∷ s)

unfoldable pub strip_quotes : Bytes → Bytes
unfolding drop_open_quote drop_close_quote
strip_quotes s = drop_close_quote (drop_open_quote (trim_space s))
