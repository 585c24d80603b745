-- ===== src/Rules/Shell.antt =====
-- internal/aclrules/aclrules.go: the canonical text of an invocation, which the rules are matched
-- against.
pub mod Words
use an_b.Base.{
  ℕ, Bool, true, false, ◌&&◌, ◌||◌, List, [], ◌∷◌, ◌++◌, Bytes, codes, ◌==◌, nat_eq, if◌then◌else◌,
  replace_byte,
}

abbrev pub shell_safe_chars : Bytes
shell_safe_chars = codes "abcdefghijklmnopqrstuvwxyzABCDEFGHIJKLMNOPQRSTUVWXYZ0123456789_-./:=@,"

-- strings.ContainsRune, for a byte
unfoldable pub contains_byte : Bytes → ℕ → Bool
contains_byte [] c = false
contains_byte (x ∷ xs) c = c == x || contains_byte xs c

unfoldable pub all_safe : Bytes → Bool
all_safe [] = true
all_safe (c ∷ s) = contains_byte shell_safe_chars c && all_safe s

-- an empty argument needs its quotes
unfoldable pub is_shell_safe : Bytes → Bool
unfolding all_safe contains_byte
is_shell_safe [] = false
is_shell_safe (c ∷ s) = all_safe (c ∷ s)

-- '\''
abbrev pub quoted_quote : Bytes
quoted_quote = b'\'' ∷ b'\\' ∷ b'\'' ∷ b'\'' ∷ []

unfoldable pub shellescape : Bytes → Bytes
unfolding is_shell_safe replace_byte
shellescape s =
    if is_shell_safe s then s else b'\'' ∷ (replace_byte b'\'' quoted_quote s ++ (b'\'' ∷ []))

-- the loop over the arguments
unfoldable pub escape_args : List Bytes → Bytes
unfolding shellescape
escape_args [] = []
escape_args (a ∷ args) = b' ' ∷ (shellescape a ++ escape_args args)

unfoldable pub canonicalize : Bytes → List Bytes → Bytes
unfolding escape_args
canonicalize cmd args = shellescape cmd ++ escape_args args
