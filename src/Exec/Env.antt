-- ===== src/Exec/Env.antt =====
-- cmd/alice/exec.go: the `--env` entries, and the environment of the child.
pub mod Laws
use an_b.Base.{
  ℕ, suc, zero, ◌-◌, Bool, true, false, ◌&&◌, ◌||◌, List, [], ◌∷◌, ◌++◌, Option, none, some, Bytes,
  codes, ◌==◌, nat_eq, bytes_eq, if◌then◌else◌, Result, ok, err, ◌>>=◌, index_byte, take, drop,
  length,
}
use an_b.Rules.{contains}
use an_b.Rules.Parse.{is_env_name}
use an_b.Redact.Placeholder.{
  extract_placeholders, find_suspicious_placeholders, is_key, is_key_byte,
}

pub data EnvError : Type 0 where
  no_key bad_key no_value missing_prefix bad_placeholder : EnvError

pub record EnvEntry : Type 0 where
  pub name : Bytes
  pub value : Bytes

-- keyFormat, `^[a-z0-9](?:[a-z0-9-]*[a-z0-9])?$`
unfoldable pub all_key_bytes : Bytes → Bool
all_key_bytes [] = true
all_key_bytes (c ∷ s) = is_key_byte c && all_key_bytes s

abbrev pub has_key_format : Bytes → Bool
has_key_format s = all_key_bytes s && is_key s

-- the name and the value of `KEY=VALUE`, with a key that is not empty
abbrev pub cut_at : Bytes → Option ℕ → Option (Bytes × Bytes)
cut_at e none = none
cut_at e (some zero) = none
cut_at e (some (suc i)) = some (take (suc i) e, drop (suc (suc i)) e)

-- the message for the first of the suspicious texts
abbrev pub suspicious_error : Bytes → EnvError
suspicious_error first =
    if has_key_format (take (length first - 2) (drop 1 first))
    then missing_prefix
    else bad_placeholder

abbrev pub check_value : Bytes → Bytes → List Bytes → Result EnvError EnvEntry
check_value name val [] = ok (record { name = name; value = val })
check_value name val (first ∷ bad) = err (suspicious_error first)

abbrev pub check_entry : Option (Bytes × Bytes) → Result EnvError EnvEntry
check_entry none = err no_key
check_entry (some (name, val)) =
    if is_env_name name
    then (if val == []
        then err no_value
        else check_value name val (find_suspicious_placeholders val))
    else err bad_key

unfoldable pub parse_entry : Bytes → Result EnvError EnvEntry
parse_entry e = check_entry (cut_at e (index_byte b'=' e))

-- keys[k] = struct{}{}
abbrev pub add_new : Bytes → List Bytes → List Bytes
add_new k keys = if contains k keys then keys else k ∷ keys

abbrev pub add_all : List Bytes → List Bytes → List Bytes
add_all [] keys = keys
add_all (k ∷ ks) keys = add_new k (add_all ks keys)

-- the loop over the raw entries; the keys are a set
unfoldable pub parse_env_flag : List Bytes → Result EnvError (List EnvEntry × List Bytes)
parse_env_flag [] = ok ([], [])
parse_env_flag (e ∷ raw) =
    let rest = parse_env_flag raw in
    parse_entry e >>= λ entry. rest >>= λ (entries, keys).
    ok (entry ∷ entries, add_all (extract_placeholders entry.value) keys)

abbrev pub name_before : Bytes → Option ℕ → Option Bytes
name_before kv none = none
name_before kv (some zero) = none
name_before kv (some (suc n)) = some (take (suc n) kv)

-- the variable's name; `none` for an entry that is no variable
unfoldable pub env_name : Bytes → Option Bytes
env_name kv = name_before kv (index_byte b'=' kv)

abbrev pub keep_unless : List Bytes → Bytes → Option Bytes → List Bytes → List Bytes
keep_unless overridden kv none rest = kv ∷ rest
keep_unless overridden kv (some name) rest = if contains name overridden then rest else kv ∷ rest

-- the loop over the parent's environment
unfoldable pub not_overridden : List Bytes → List Bytes → List Bytes
not_overridden overridden [] = []
not_overridden overridden (kv ∷ parent) =
    keep_unless overridden kv (env_name kv) (not_overridden overridden parent)

unfoldable pub merge_env : List Bytes → List Bytes → List Bytes → List Bytes
merge_env resolved overridden parent = resolved ++ not_overridden overridden parent
