-- ===== src/Rules/Shell/Words.antt =====
-- internal/aclrules/aclrules.go: the canonical text under the rules by which a POSIX shell reads words.
use an_b.Base.{
  ℕ, Bool, true, false, Option, none, some, codes, ◌||◌, ◌&&◌, List, [], ◌∷◌, ◌++◌, Bytes, ◌==◌,
  nat_eq, if◌then◌else◌, replace_byte, ◌≡◌, refl, sym, ◌∙◌, ap, arith, Bool-cases, inl, inr,
  append_assoc, append-nil, nat_beq_iff,
}
use an_b.Rules.Shell.{
  shell_safe_chars, contains_byte, all_safe, is_shell_safe, quoted_quote, shellescape, escape_args,
  canonicalize,
}

-- What an unquoted byte is to the shell (POSIX, Shell Command Language, 2.2 and 2.3): a blank between
-- words, a quote, a backslash, a byte that is an operator, starts an expansion or a pattern, or has
-- another meaning in some place, or a plain one. The equals sign, special only in an assignment in
-- front of the command, is plain.
pub data Class : Type 0 where
  blank quote backslash special plain : Class

abbrev pub special_bytes : Bytes
special_bytes = b'\n' ∷ b'"' ∷ codes "|&;<>()$`*?[]#~%!{}^"

unfoldable pub classify : ℕ → Class
unfolding contains_byte
classify c =
    if c == b' ' || c == b'\t'
    then blank
    else if c == b'\''
    then quote
    else if c == b'\\'
    then backslash
    else if contains_byte special_bytes c
    then special
    else plain

-- between two words, in a word outside quotes, inside quotes, behind a backslash
pub data Mode : Type 0 where
  between bare quoted escaped : Mode

-- what a byte does: it goes on with the word, completes it, or is one that the reader refuses
pub data Step : Type 0 where
  go : Mode → Bytes → Step
  word : Bytes → Step
  refused : Step

abbrev pub unquoted : Mode → Bytes → ℕ → Class → Step
unquoted m cur c quote = go quoted cur
unquoted m cur c backslash = go escaped cur
unquoted m cur c special = refused
unquoted m cur c plain = go bare (cur ++ (c ∷ []))
unquoted between cur c blank = go between []
unquoted bare cur c blank = word cur
unquoted quoted cur c blank = refused
unquoted escaped cur c blank = refused

unfoldable pub read_byte : Mode → Bytes → ℕ → Step
unfolding classify
read_byte between cur c = unquoted between cur c (classify c)
read_byte bare cur c = unquoted bare cur c (classify c)
read_byte quoted cur c = if c == b'\'' then go bare cur else go quoted (cur ++ (c ∷ []))
read_byte escaped cur c = if c == b'\n' then refused else go bare (cur ++ (c ∷ []))

abbrev pub add_word : Bytes → Option (List Bytes) → Option (List Bytes)
add_word w none = none
add_word w (some ws) = some (w ∷ ws)

abbrev pub follow : Step → (Mode → Bytes → Option (List Bytes)) → Option (List Bytes)
follow (go m cur) k = k m cur
follow (word w) k = add_word w (k between [])
follow refused k = none

-- The words of a simple command without expansions, redirections and patterns. Text with an unquoted
-- special byte, a double quote or an open quote is refused.
unfoldable pub read_words : Mode → Bytes → Bytes → Option (List Bytes)
unfolding read_byte
read_words between cur [] = some []
read_words bare cur [] = some (cur ∷ [])
read_words quoted cur [] = none
read_words escaped cur [] = none
read_words m cur (c ∷ s) = follow (read_byte m cur c) λ m' cur'. read_words m' cur' s

abbrev is_plain : Class → Bool
is_plain plain = true
is_plain _ = false

unfoldable all_plain : Bytes → Bool
unfolding classify
all_plain [] = true
all_plain (c ∷ s) = is_plain (classify c) && all_plain s

is_plain-plain : (k : Class) → is_plain k ≡ true → k ≡ plain
is_plain-plain blank h = cc
is_plain-plain quote h = cc
is_plain-plain backslash h = cc
is_plain-plain special h = cc
is_plain-plain plain h = refl

contains_byte-plain :
    (l : Bytes) (c : ℕ) → all_plain l ≡ true → contains_byte l c ≡ true → classify c ≡ plain
unfolding contains_byte all_plain
contains_byte-plain [] c h e = cc
contains_byte-plain (x ∷ xs) c h e = elim (Bool-cases (c == x)) [
  | inl same ↦ ap classify ((nat_beq_iff c x).0 same) ∙ is_plain-plain (classify x) (ground arith)
  | inr other ↦ contains_byte-plain xs c (ground arith) (ground arith)
]

safe_chars-plain : all_plain shell_safe_chars ≡ true
unfolding all_plain classify contains_byte
safe_chars-plain = refl

safe-plain : (c : ℕ) → contains_byte shell_safe_chars c ≡ true → classify c ≡ plain
safe-plain c = contains_byte-plain shell_safe_chars c safe_chars-plain

module _ (c : ℕ) (cur rest : Bytes) (h : classify c ≡ plain) where
  read-plain : read_words bare cur (c ∷ rest) ≡ read_words bare (cur ++ (c ∷ [])) rest
  unfolding read_words read_byte
  read-plain = rw h refl

  read-first : read_words between cur (c ∷ rest) ≡ read_words bare (cur ++ (c ∷ [])) rest
  unfolding read_words read_byte
  read-first = rw h refl

read-all_safe :
    (s cur rest : Bytes)
    → all_safe s ≡ true
    → read_words bare cur (s ++ rest) ≡ read_words bare (cur ++ s) rest
unfolding all_safe
read-all_safe [] cur rest h = rw append-nil
read-all_safe (c ∷ s) cur rest h =
    read-plain c cur (s ++ rest) (safe-plain c (ground arith))
    ∙ read-all_safe s (cur ++ (c ∷ [])) rest (ground arith)
    ∙ ap (λ t. read_words bare t rest) (append_assoc cur (c ∷ []) s)

read-safe :
    (s rest : Bytes)
    → is_shell_safe s ≡ true
    → read_words between [] (s ++ rest) ≡ read_words bare s rest
unfolding is_shell_safe all_safe
read-safe [] rest h = cc
read-safe (c ∷ s) rest h =
    read-first c [] (s ++ rest) (safe-plain c (ground arith))
    ∙ read-all_safe s (c ∷ []) rest (ground arith)

read-quote :
    (cur rest : Bytes)
    → read_words quoted cur (quoted_quote ++ rest) ≡ read_words quoted (cur ++ (b'\'' ∷ [])) rest
unfolding read_words read_byte classify contains_byte
read-quote cur rest = refl

read-literal :
    (c : ℕ) (cur rest : Bytes)
    → (c == b'\'') ≡ false
    → read_words quoted cur (c ∷ rest) ≡ read_words quoted (cur ++ (c ∷ [])) rest
unfolding read_words read_byte
read-literal c cur rest h = rw h

read-close : (cur rest : Bytes) → read_words quoted cur (b'\'' ∷ rest) ≡ read_words bare cur rest
unfolding read_words read_byte
read-close cur rest = refl

read-quoted :
    (s cur rest : Bytes)
    → read_words quoted cur (replace_byte b'\'' quoted_quote s ++ (b'\'' ∷ rest))
      ≡ read_words bare (cur ++ s) rest
unfolding replace_byte
read-quoted [] cur rest = read-close cur rest ∙ rw append-nil refl
read-quoted (c ∷ s) cur rest = elim (Bool-cases (c == b'\'')) [
  | inl same ↦ rw same (
      read-quote cur _
      ∙ read-quoted s (cur ++ (b'\'' ∷ [])) rest
      ∙ ap (λ t. read_words bare t rest)
          (append_assoc cur (b'\'' ∷ []) s
            ∙ ap (λ q. cur ++ (q ∷ s)) (sym ((nat_beq_iff c b'\'').0 same))))
  | inr other ↦ rw other (
      read-literal c cur _ other
      ∙ read-quoted s (cur ++ (c ∷ [])) rest
      ∙ ap (λ t. read_words bare t rest) (append_assoc cur (c ∷ []) s))
]

read-open :
    (s rest : Bytes)
    → read_words between [] (b'\'' ∷ (s ++ rest)) ≡ read_words quoted [] (s ++ rest)
unfolding read_words read_byte classify contains_byte
read-open s rest = refl

read-space :
    (w rest : Bytes) → read_words bare w (b' ' ∷ rest) ≡ add_word w (read_words between [] rest)
unfolding read_words read_byte classify contains_byte
read-space w rest = refl

read-shellescape :
    (s rest : Bytes) → read_words between [] (shellescape s ++ rest) ≡ read_words bare s rest
unfolding shellescape
read-shellescape s rest = elim (Bool-cases (is_shell_safe s)) [
  | inl safe ↦ rw safe (read-safe s rest safe)
  | inr unsafe ↦ rw unsafe (
      read-open (replace_byte b'\'' quoted_quote s ++ (b'\'' ∷ [])) rest
      ∙ ap (λ t. read_words quoted [] t)
          (append_assoc (replace_byte b'\'' quoted_quote s) (b'\'' ∷ []) rest)
      ∙ read-quoted s [] rest)
]

read-args : (w : Bytes) (args : List Bytes) → read_words bare w (escape_args args) ≡ some (w ∷ args)
unfolding escape_args
read-args w [] = unfold read_words in refl
read-args w (a ∷ args) =
    read-space w (shellescape a ++ escape_args args)
    ∙ ap (add_word w) (read-shellescape a (escape_args args) ∙ read-args a args)

pub read-canonicalize :
    (cmd : Bytes) (args : List Bytes)
    → read_words between [] (canonicalize cmd args) ≡ some (cmd ∷ args)
unfolding canonicalize
read-canonicalize cmd args = read-shellescape cmd (escape_args args) ∙ read-args cmd args

-- Two invocations with the same canonical text are the same command with the same arguments: no
-- argument of one can pass for several arguments of another.
pub canonicalize-injective :
    (cmd cmd' : Bytes) (args args' : List Bytes)
    → canonicalize cmd args ≡ canonicalize cmd' args'
    → (cmd ≡ cmd') × (args ≡ args')
canonicalize-injective cmd cmd' args args' same =
    let words : some (cmd ∷ args) ≡ some (cmd' ∷ args') =
      sym (read-canonicalize cmd args)
      ∙ ap (λ t. read_words between [] t) same
      ∙ read-canonicalize cmd' args' in
    (cc, cc)
