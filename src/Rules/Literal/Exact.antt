-- ===== src/Rules/Literal/Exact.antt =====
-- internal/aclrules/aclrules.go: the rule that comes of the line of LiteralRule.
use an_b.Base.{
  ℕ, ◌<◌, Bool, true, false, List, [], ◌∷◌, ◌++◌, ◌≢◌, nat_eq, length, Bytes, Lacks, Option, some,
  ◌≡◌, ◌↔◌, refl, sym, ◌∙◌, arith, All, ◌==◌, bytes_eq, trim_space, if◌then◌else◌,
}
use an_b.Base.Sort.{sort, sort-All}
use an_b.Rules.{Rule, cli, matches, env_allowed, all_in}
use an_b.Rules.Shell.{canonicalize}
use an_b.Rules.Shell.Words.{canonicalize-injective}
use an_b.Rules.Parse.{anchored, parse, scan_line}
use an_b.Rules.Literal.{
  quote_meta, escape_controls, literal_pattern, env_column, label_column, literal_rule,
}
use an_b.Rules.Literal.Escaped.{literal_of, literal_of-escaped}
use an_b.Rules.Literal.Appended.{text_of_lines, parse-appended, scan_line-kept}
use an_b.Rules.Literal.Columns.{IsName}
use an_b.Rules.Literal.Parsed.{
  literal, parse_columns, all_in-sort, literal_pattern-Lacks, Control, tab, line_end, return,
  line-Lacks,
}

abbrev pub Ascii : Bytes → Type 0
Ascii = All (λ c. c < 128)

env_allowed-literal :
    (compile : Bytes → Option (Bytes → Bool)) (n : ℕ) (rx : Bytes → Bool) (ks xs : List Bytes)
    (label line : Bytes)
    → env_allowed (literal compile n rx ks label line) xs ≡ all_in xs ks
unfolding env_allowed all_in
env_allowed-literal compile n rx ks [] label line = refl
env_allowed-literal compile n rx [] (x ∷ xs) label line = refl
env_allowed-literal compile n rx (k ∷ ks) (x ∷ xs) label line = refl

module _ (compile : Bytes → Option (Bytes → Bool)) (n : ℕ) (cmd cmd' : Bytes)
    (args args' env_keys env_keys' : List Bytes) (label line : Bytes) where
  abbrev rule : Rule
  rule = literal compile n (λ s. s == canonicalize cmd args) (sort env_keys) label line

  matches-test : matches rule (canonicalize cmd' args') env_keys' ≡ (
      if canonicalize cmd' args' == canonicalize cmd args then all_in env_keys' env_keys else false)
  unfolding matches
  matches-test =
      rw
        (
          env_allowed-literal compile n (λ s. s == canonicalize cmd args) (sort env_keys) env_keys'
              label line,
          all_in-sort env_keys' env_keys,
        )
        refl

  matches-literal :
      (matches rule (canonicalize cmd' args') env_keys' ≡ true)
      ↔ ((cmd' ≡ cmd) × (args' ≡ args) × (all_in env_keys' env_keys ≡ true))
  matches-literal = (forth, back)
    where
      forth :
          matches rule (canonicalize cmd' args') env_keys' ≡ true
          → (cmd' ≡ cmd) × (args' ≡ args) × (all_in env_keys' env_keys ≡ true)
      forth h =
          let test = sym matches-test ∙ h in
          let same =
            (bytes_eq.equal_iff (canonicalize cmd' args') (canonicalize cmd args)).0
              (ground arith) in
          let (c, a) = canonicalize-injective cmd' cmd args' args same in (c, a, ground arith)

      back :
          (cmd' ≡ cmd) × (args' ≡ args) × (all_in env_keys' env_keys ≡ true)
          → matches rule (canonicalize cmd' args') env_keys' ≡ true
      back (c, a, h) =
          let same =
            (bytes_eq.equal_iff (canonicalize cmd' args') (canonicalize cmd args)).1
              (rw (c, a) refl) in
          matches-test ∙ rw (same, h) refl

-- Package regexp on patterns of single characters: between `^` and `$`, one that stands for an ASCII
-- text compiles to the test for that text.
abbrev pub ReadsLiterals : (Bytes → Option (Bytes → Bool)) → Type 0
ReadsLiterals compile =
    (x m : Bytes)
    → Ascii m
    → literal_of x ≡ some m
    → compile (anchored (b'^' ∷ (x ++ (b'$' ∷ [])))) ≡ some (λ s. s == m)

module _ (compile : Bytes → Option (Bytes → Bool)) (reads : ReadsLiterals compile) (cmd : Bytes)
    (args env_keys : List Bytes) (label : Bytes) (ascii : Ascii (canonicalize cmd args))
    (names : All IsName env_keys) where
  abbrev text : Bytes
  text = canonicalize cmd args

  literal_pattern-reads : compile (anchored (literal_pattern text)) ≡ some (λ s. s == text)
  unfolding literal_pattern
  literal_pattern-reads =
      reads (escape_controls (quote_meta text)) text ascii (literal_of-escaped text)

  abbrev rule_at : ℕ → Rule
  rule_at n =
      literal compile n (λ s. s == text) (sort env_keys) label
        (literal_pattern text ++ env_column (sort env_keys) label ++ label_column label)

  line-Lacks-control :
      (b : ℕ)
      → Control b
      → b ≢ b'\t'
      → Lacks b label
      → Lacks b (literal_rule cmd args env_keys label)
  unfolding literal_rule
  line-Lacks-control b control other h =
      line-Lacks b control other 0 text (sort env_keys) label (sort-All IsName env_keys names) h

  literal_rule-gives :
      (n : ℕ)
      → length (literal_rule cmd args env_keys label) < 4096
      → Lacks b'\t' label
      → Lacks b'\r' label
      → trim_space (b' ' ∷ label) ≡ label
      → scan_line compile (literal_rule cmd args env_keys label) n ([], []) ≡ (rule_at n ∷ [], [])
  unfolding literal_rule literal_pattern
  literal_rule-gives n short tabs returns trimmed =
      scan_line-kept compile _ n (rule_at n) short
        (line-Lacks-control b'\r' return (omega arith) returns)
        (parse_columns compile n (literal_pattern text) (λ s. s == text) literal_pattern-reads
          (literal_pattern-Lacks b'\t' tab text) (sort env_keys) label
          (sort-All IsName env_keys names) tabs trimmed)

-- Let a file of lines give rules and no error. Append the line for an ASCII invocation, with names as
-- environment keys and a label without tabs, ends of lines and white space at its ends, where the
-- line has less than 4096 bytes. Then the file gives the same rules and, behind them, one more. Its
-- label is the label, it is for the surface `cli`, and it matches another invocation just when the
-- command and the arguments are the same and its environment keys are among those of the first.
pub literal_rule-exact :
    (compile : Bytes → Option (Bytes → Bool)) (ls : List Bytes) (rules : List Rule) (cmd : Bytes)
    (args env_keys : List Bytes) (label : Bytes)
    → ReadsLiterals compile
    → All (Lacks b'\n') ls
    → parse compile (text_of_lines ls) ≡ (rules, [])
    → length (literal_rule cmd args env_keys label) < 4096
    → Ascii (canonicalize cmd args)
    → All IsName env_keys
    → Lacks b'\t' label
    → Lacks b'\n' label
    → Lacks b'\r' label
    → trim_space (b' ' ∷ label) ≡ label
    → (cmd' : Bytes) (args' env_keys' : List Bytes)
    → (r : Rule) × (parse compile
          (text_of_lines ls ++ (literal_rule cmd args env_keys label ++ (b'\n' ∷ [])))
        ≡ (rules ++ (r ∷ []), []))
      × (r.label ≡ label)
      × (r.scope ≡ cli ∷ [])
      × ((matches r (canonicalize cmd' args') env_keys' ≡ true)
          ↔ ((cmd' ≡ cmd) × (args' ≡ args) × (all_in env_keys' env_keys ≡ true)))
literal_rule-exact compile ls rules cmd args env_keys label reads whole before short ascii names
      tabs lines returns trimmed cmd' args' env_keys' =
    let r : ℕ → Rule = rule_at compile reads cmd args env_keys label ascii names in
    let (n, e) =
      parse-appended compile (literal_rule cmd args env_keys label) r
        (λ n.
          literal_rule-gives compile reads cmd args env_keys label ascii names n short tabs returns
            trimmed)
        ls rules whole
        (line-Lacks-control compile reads cmd args env_keys label ascii names b'\n' line_end
          (omega arith) lines)
        before in
    (r n, e, refl, refl, matches-literal compile n cmd cmd' args args' env_keys env_keys' label _)
