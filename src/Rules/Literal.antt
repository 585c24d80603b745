-- ===== src/Rules/Literal.antt =====
-- internal/aclrules/aclrules.go: the rule line that matches one invocation, which alice appends
-- to the file when the operator agrees.
pub mod Columns
pub mod Escaped
pub mod Parsed
pub mod Appended
pub mod Exact
use an_b.Base.{
  ℕ, Bool, true, false, ◌||◌, List, [], ◌∷◌, ◌++◌, Bytes, codes, join, replace_byte, if◌then◌else◌,
}
use an_b.Base.Sort.{sort}
use an_b.Rules.Shell.{contains_byte, canonicalize}

-- regexp.QuoteMeta: a backslash before each of these bytes
abbrev pub regex_specials : Bytes
regex_specials = codes "\\.+*?()|[]{}^$"

unfoldable pub quote_meta : Bytes → Bytes
quote_meta [] = []
quote_meta (c ∷ s) =
    let rest = quote_meta s in if contains_byte regex_specials c then b'\\' ∷ c ∷ rest else c ∷ rest

-- the bytes that would end a field or a line, as escapes of the regular expression
unfoldable pub escape_controls : Bytes → Bytes
unfolding replace_byte
escape_controls s =
    replace_byte b'\r' (codes "\\r")
      (replace_byte b'\n' (codes "\\n") (replace_byte b'\t' (codes "\\t") s))

-- `^` and `$` around the quoted text
unfoldable pub literal_pattern : Bytes → Bytes
unfolding quote_meta escape_controls
literal_pattern text = b'^' ∷ (escape_controls (quote_meta text) ++ (b'$' ∷ []))

abbrev pub is_empty {ℓ} : {A : Type ℓ} → List A → Bool
is_empty [] = true
is_empty (x ∷ xs) = false

abbrev pub env_column : List Bytes → Bytes → Bytes
env_column (k ∷ keys) label = b'\t' ∷ join (b',' ∷ []) (k ∷ keys)
env_column [] [] = []
env_column [] (c ∷ label) = b'\t' ∷ []

abbrev pub label_column : Bytes → Bytes
label_column [] = []
label_column (c ∷ label) = b'\t' ∷ b'#' ∷ b' ' ∷ c ∷ label

unfoldable pub literal_rule : Bytes → List Bytes → List Bytes → Bytes → Bytes
unfolding literal_pattern sort canonicalize
literal_rule cmd args env_keys label =
    literal_pattern (canonicalize cmd args)
    ++ env_column (sort env_keys) label
    ++ label_column label
