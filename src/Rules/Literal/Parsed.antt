-- ===== src/Rules/Literal/Parsed.antt =====
-- internal/aclrules/aclrules.go: the line of LiteralRule as parseLine reads it.
use an_b.Base.{
  ℕ, Bool, true, false, ◌||◌, List, [], ◌∷◌, ◌++◌, Bytes, Lacks, codes, replace_byte, if◌then◌else◌,
  Option, some, ◌≡◌, ◌≢◌, refl, ap, sym, ◌∙◌, arith, All, All-append, All-map, split, ◌==◌, nat_eq,
  bytes_eq, ok, append_assoc, append-nil, trim_space,
}
use an_b.Base.Sort.{sort, insert_sorted}
use an_b.Base.Trim.{Visible}
use an_b.Base.Split.{split-Lacks, split-first}
use an_b.Rules.{Rule, cli, all_in, contains}
use an_b.Rules.Parse.{
  anchored, parse_line, parse_env_column, parse_label_column, parse_scope_column,
}
use an_b.Base.{list_beq, trim_left, trim_right, trim_front}
use an_b.Rules.Literal.Columns.{
  IsName, column, column-Lacks, column-Visible, parse_env_column-names,
}
use an_b.Rules.Literal.{quote_meta, escape_controls, literal_pattern, env_column, label_column}

module _ (b old : ℕ) (new : Bytes) (clean : Lacks b new) where
  replace_byte-Lacks : (s : Bytes) → Lacks b s → Lacks b (replace_byte old new s)
  unfolding replace_byte
  replace_byte-Lacks [] h = tt
  replace_byte-Lacks (c ∷ s) (hc, h) =
      All-append (λ x. x ≢ b) (if c == old then new else c ∷ []) (replace_byte old new s)
        (piece (c == old)) (replace_byte-Lacks s h)
    where
      piece : (t : Bool) → Lacks b (if t then new else c ∷ [])
      piece true = clean
      piece false = (hc, tt)

module _ (old : ℕ) (new : Bytes) (clean : Lacks old new) where
  replace_byte-gone : (s : Bytes) → Lacks old (replace_byte old new s)
  unfolding replace_byte
  replace_byte-gone [] = tt
  replace_byte-gone (c ∷ s) =
      All-append (λ x. x ≢ old) (if c == old then new else c ∷ []) (replace_byte old new s)
        (piece (c == old) refl) (replace_byte-gone s)
    where
      piece : (t : Bool) → (c == old) ≡ t → Lacks old (if t then new else c ∷ [])
      piece true e = clean
      piece false e = (ground arith, tt)

-- the bytes that end a field or a line
pub data Control : ℕ → Type 0 where
  tab : Control b'\t'
  line_end : Control b'\n'
  return : Control b'\r'

escape_controls-Lacks : (b : ℕ) → Control b → (s : Bytes) → Lacks b (escape_controls s)
unfolding escape_controls
escape_controls-Lacks b tab s =
    replace_byte-Lacks b'\t' b'\r' (codes "\\r") (omega arith, (omega arith, tt)) _
      (replace_byte-Lacks b'\t' b'\n' (codes "\\n") (omega arith, (omega arith, tt)) _
        (replace_byte-gone b'\t' (codes "\\t") (omega arith, (omega arith, tt)) s))
escape_controls-Lacks b line_end s =
    let tabs : Bytes = replace_byte b'\t' (codes "\\t") s in
    replace_byte-Lacks b'\n' b'\r' (codes "\\r") (omega arith, (omega arith, tt))
      (replace_byte b'\n' (codes "\\n") tabs)
      (replace_byte-gone b'\n' (codes "\\n") (omega arith, (omega arith, tt)) tabs)
escape_controls-Lacks b return s =
    replace_byte-gone b'\r' (codes "\\r") (omega arith, (omega arith, tt))
      (replace_byte b'\n' (codes "\\n") (replace_byte b'\t' (codes "\\t") s))

Control-other : (b : ℕ) → Control b → (b ≢ b'^') × (b ≢ b'$') × (b ≢ b'#') × (b ≢ b' ')
Control-other b tab = (omega arith, omega arith, omega arith, omega arith)
Control-other b line_end = (omega arith, omega arith, omega arith, omega arith)
Control-other b return = (omega arith, omega arith, omega arith, omega arith)

Control-invisible : (b c : ℕ) → Control b → Visible c → c ≢ b
Control-invisible b c tab h = ground arith
Control-invisible b c line_end h = ground arith
Control-invisible b c return h = ground arith

pub literal_pattern-Lacks : (b : ℕ) → Control b → (text : Bytes) → Lacks b (literal_pattern text)
unfolding literal_pattern
literal_pattern-Lacks b h text =
    let (caret, dollar, hash, space) = Control-other b h in
    (
      λ e. caret (sym e),
      All-append (λ x. x ≢ b) (escape_controls (quote_meta text)) (b'$' ∷ [])
          (escape_controls-Lacks b h (quote_meta text)) (λ e. dollar (sym e), tt),
    )

no_names : (n : ℕ) → parse_env_column [] n ≡ ok ([], false)
unfolding parse_env_column trim_space trim_left trim_right list_beq trim_front
no_names n = refl

no_scope : (n : ℕ) → parse_scope_column [] n ≡ ok (cli ∷ [])
unfolding parse_scope_column trim_space trim_left trim_right list_beq trim_front
no_scope n = refl

-- what the reader makes of the columns of a line
module _ (compile : Bytes → Option (Bytes → Bool)) (n : ℕ) where
  abbrev pub literal : (Bytes → Bool) → List Bytes → Bytes → Bytes → Rule
  literal rx ks label line = record {
    regex = rx;
    env_allow = ks;
    env_any = false;
    label = label;
    scope = cli ∷ [];
    line_no = n;
    raw = line;
  }

  module _ (line pat : Bytes) (rx : Bytes → Bool) (known : compile (anchored pat) ≡ some rx) where
    parse_pattern :
        split b'\t' line ≡ pat ∷ [] → parse_line compile line n ≡ ok (literal rx [] [] line)
    unfolding parse_line parse_label_column
    parse_pattern e = rw (e, known, no_names n, no_scope n) refl

    parse_names :
        (env : Bytes) (ks : List Bytes)
        → split b'\t' line ≡ pat ∷ env ∷ []
        → parse_env_column env n ≡ ok (ks, false)
        → parse_line compile line n ≡ ok (literal rx ks [] line)
    unfolding parse_line parse_label_column
    parse_names env ks e he = rw (e, known, he, no_scope n) refl

    parse_labelled :
        (env : Bytes) (ks : List Bytes) (label : Bytes)
        → split b'\t' line ≡ pat ∷ env ∷ (b'#' ∷ b' ' ∷ label) ∷ []
        → parse_env_column env n ≡ ok (ks, false)
        → trim_space (b' ' ∷ label) ≡ label
        → parse_line compile line n ≡ ok (literal rx ks label line)
    unfolding parse_line parse_label_column
    parse_labelled env ks label e he hl = rw (e, known, he, hl, no_scope n) refl

  module _ (pat : Bytes) (rx : Bytes → Bool) (known : compile (anchored pat) ≡ some rx)
      (whole : Lacks b'\t' pat) where
    abbrev pub line_of : List Bytes → Bytes → Bytes
    line_of ks label = pat ++ env_column ks label ++ label_column label

    pub parse_columns :
        (ks : List Bytes) (label : Bytes)
        → All IsName ks
        → Lacks b'\t' label
        → trim_space (b' ' ∷ label) ≡ label
        → parse_line compile (line_of ks label) n ≡ ok (literal rx ks label (line_of ks label))
    parse_columns [] [] h hl ht =
        parse_pattern (line_of [] []) pat rx known
          (ap (split b'\t') (append-nil (pat ++ []) ∙ append-nil pat) ∙ split-Lacks b'\t' pat whole)
    parse_columns [] (c ∷ l) h hl ht =
        let label : Bytes = c ∷ l in
        let column : Bytes = b'#' ∷ b' ' ∷ label in
        parse_labelled (line_of [] label) pat rx known [] [] label
          (ap (split b'\t') (append_assoc pat (b'\t' ∷ []) (b'\t' ∷ column))
            ∙ split-first b'\t' pat (b'\t' ∷ column) whole
            ∙ ap (λ t. pat ∷ t)
                (split-first b'\t' [] column tt
                  ∙ ap (λ t. [] ∷ t) (split-Lacks b'\t' column (omega arith, (omega arith, hl)))))
          (no_names n) ht
    parse_columns (k ∷ ks) [] (hk, h) hl ht =
        let names : Bytes = column n k ks hk h in
        parse_names (line_of (k ∷ ks) []) pat rx known names (k ∷ ks)
          (ap (split b'\t') (append-nil (pat ++ (b'\t' ∷ names)))
            ∙ split-first b'\t' pat names whole
            ∙ ap (λ t. pat ∷ t) (split-Lacks b'\t' names (column-Lacks n k ks hk h)))
          (parse_env_column-names n k ks hk h)
    parse_columns (k ∷ ks) (c ∷ l) (hk, h) hl ht =
        let label : Bytes = c ∷ l in
        let tag : Bytes = b'#' ∷ b' ' ∷ label in
        let names : Bytes = column n k ks hk h in
        parse_labelled (line_of (k ∷ ks) label) pat rx known names (k ∷ ks) label
          (ap (split b'\t') (append_assoc pat (b'\t' ∷ names) (b'\t' ∷ tag))
            ∙ split-first b'\t' pat (names ++ (b'\t' ∷ tag)) whole
            ∙ ap (λ t. pat ∷ t)
                (split-first b'\t' names tag (column-Lacks n k ks hk h)
                  ∙ ap (λ t. names ∷ t) (split-Lacks b'\t' tag (omega arith, (omega arith, hl)))))
          (parse_env_column-names n k ks hk h) ht

-- neither a line feed nor a carriage return is in the line
module _ (b : ℕ) (control : Control b) (other : b ≢ b'\t') (n : ℕ) where
  env_column-Lacks :
      (ks : List Bytes) (label : Bytes) → All IsName ks → Lacks b (env_column ks label)
  env_column-Lacks [] [] h = tt
  env_column-Lacks [] (c ∷ label) h = (λ e. other (sym e), tt)
  env_column-Lacks (k ∷ ks) label (hk, h) = (
    λ e. other (sym e),
    All-map Visible (λ c. c ≢ b) (λ c hc. Control-invisible b c control hc) (column n k ks hk h)
        (column-Visible n k ks hk h),
  )

  label_column-Lacks : (label : Bytes) → Lacks b label → Lacks b (label_column label)
  label_column-Lacks [] h = tt
  label_column-Lacks (c ∷ label) h =
      let (caret, dollar, hash, space) = Control-other b control in
      (λ e. other (sym e), (λ e. hash (sym e), (λ e. space (sym e), h)))

  pub line-Lacks :
      (text : Bytes) (ks : List Bytes) (label : Bytes)
      → All IsName ks
      → Lacks b label
      → Lacks b (literal_pattern text ++ env_column ks label ++ label_column label)
  line-Lacks text ks label h hl =
      All-append (λ x. x ≢ b) (literal_pattern text ++ env_column ks label) (label_column label)
        (All-append (λ x. x ≢ b) (literal_pattern text) (env_column ks label)
          (literal_pattern-Lacks b control text) (env_column-Lacks ks label h))
        (label_column-Lacks label hl)

-- the set of names is the same in any order
contains-insert_sorted :
    (x k : Bytes) (ks : List Bytes) → contains x (insert_sorted k ks) ≡ (k == x || contains x ks)
unfolding contains insert_sorted
contains-insert_sorted x k [] = refl
contains-insert_sorted x k (j ∷ ks) = ground (arith, contains-insert_sorted x k ks)

contains-sort : (x : Bytes) (ks : List Bytes) → contains x (sort ks) ≡ contains x ks
unfolding contains sort
contains-sort x [] = refl
contains-sort x (k ∷ ks) = rw (contains-insert_sorted x k (sort ks), contains-sort x ks) refl

pub all_in-sort : (xs ks : List Bytes) → all_in xs (sort ks) ≡ all_in xs ks
unfolding all_in
all_in-sort [] ks = refl
all_in-sort (x ∷ xs) ks = rw (contains-sort x ks, all_in-sort xs ks) refl
