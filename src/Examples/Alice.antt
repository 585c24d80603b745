-- ===== src/Examples/Alice.antt =====
-- The laws of the allowlist, of the placeholders and of `alice exec`, at concrete inputs.
use an_b.Base.{
  ℕ, ◌<◌, Lacks, nat_eq, length, join, Bool, true, false, List, [], ◌∷◌, ◌++◌, Option, none, some,
  Bytes, codes, ◌==◌, bytes_eq, list_beq, ◌≡◌, ◌↔◌, ◌⊎◌, refl, arith, All, contents, ok, trim_space,
  trim_left, trim_right, trim_front, split, replace_byte, has_prefix, index_byte, ltb, ◌&&◌,
  if◌then◌else◌,
}
use an_b.Rules.{Rule, cli, mcp, matches, choose, all_in, contains}
use an_b.Rules.Shell.{
  canonicalize, escape_args, shellescape, is_shell_safe, all_safe, contains_byte,
}
use an_b.Rules.Shell.Words.{read_words, between, read-canonicalize}
use an_b.Rules.Parse.{
  Loaded, loaded, load_file, parse, parse_line, anchored, is_trivial_match_everything, scan_lines,
  scan_line, is_skipped, drop_return, parse_env_column, parse_label_column, parse_scope_column,
  env_names, is_env_name, all_name_bytes, surfaces, first_trivial,
}
use an_b.Base.Sort.{sort, insert_sorted}
use an_b.Rules.Literal.{literal_rule, literal_pattern, quote_meta, escape_controls}
use an_b.Rules.Literal.Appended.{text_of_lines}
use an_b.Rules.Literal.Exact.{Ascii, literal_rule-exact}
use an_b.Rules.Literal.Columns.{IsName}
use an_b.Rules.Choice.{First, Passes, choose-first}
use an_b.Rules.Loading.{Sound, load_file-Sound}
use an_b.Redact.Placeholder.{
  restore, extract_placeholders, is_key, distinct, placeholder, up_to_close, ends_well,
  find_suspicious_placeholders, invalid_only, loose_angle, close_at, is_valid_placeholder,
  unvaulted,
}
use an_b.Redact.Search.{hits, pieces, pieces_from, find_string}
use an_b.Redact.Placeholder.Laws.{IsKey, placeholder_for, IsReplaced, restore-replaces}
use an_b.Examples.Regex
use an_b.Examples.Regex.{compile-ReadsLiterals}
use an_b.Exec.Env.{EnvEntry, parse_entry, parse_env_flag, merge_env}
use an_b.Exec.Env.Laws.{named, Accepted, named-merge_env, parse_env_flag-Accepted}
use an_b.Exec.Run.{World, cmd_exec}
use an_b.Exec.Run.Gate.{Gated, cmd_exec-Gated}

abbrev curl : Bytes
curl = codes "/usr/bin/curl"

abbrev url : Bytes
url = codes "https://x.org/?a=it's b"

read-canonicalize_example :
    read_words between [] (canonicalize curl (url ∷ [] ∷ [])) ≡ some (curl ∷ url ∷ [] ∷ [])
read-canonicalize_example = read-canonicalize curl (url ∷ [] ∷ [])

abbrev ascii_bytes : Bytes → Bool
ascii_bytes [] = true
ascii_bytes (c ∷ s) = ltb c 128 && ascii_bytes s

ascii_bytes-Ascii : (s : Bytes) → ascii_bytes s ≡ true → Ascii s
ascii_bytes-Ascii [] h = tt
ascii_bytes-Ascii (c ∷ s) h = (ground arith, ascii_bytes-Ascii s (ground arith))

deploy-Ascii : Ascii (canonicalize curl (url ∷ []))
deploy-Ascii =
    ascii_bytes-Ascii (canonicalize curl (url ∷ []))
      (unfold canonicalize escape_args shellescape is_shell_safe replace_byte in refl)

env_keys-IsName : All IsName (codes "TOKEN" ∷ codes "HOME" ∷ [])
unfolding is_env_name all_name_bytes
env_keys-IsName = (refl, (refl, tt))

abbrev who : Bytes
who = codes "me, 2026"

abbrev names : List Bytes
names = codes "TOKEN" ∷ codes "HOME" ∷ []

abbrev header : List Bytes
header = codes "# rules" ∷ [] ∷ []

header-parsed : parse Regex.compile (text_of_lines header) ≡ ([], [])
unfolding parse scan_lines split scan_line is_skipped list_beq trim_space drop_return has_prefix
    trim_front trim_left trim_right
header-parsed = refl

absent : (b : ℕ) (s : Bytes) → contains_byte s b ≡ false → Lacks b s
unfolding contains_byte
absent b [] h = tt
absent b (c ∷ s) h = ground (arith, absent b s)

short-line : length (literal_rule curl (url ∷ []) names who) < 4096
unfolding literal_rule literal_pattern quote_meta escape_controls replace_byte canonicalize
    escape_args shellescape is_shell_safe all_safe contains_byte sort insert_sorted join
short-line = omega arith

literal_rule-exact_example :
    (r : Rule) × (parse Regex.compile
        (text_of_lines header ++ (literal_rule curl (url ∷ []) names who ++ (b'\n' ∷ [])))
      ≡ (r ∷ [], []))
    × (r.label ≡ who)
    × (r.scope ≡ cli ∷ [])
    × ((matches r (canonicalize curl (url ∷ [])) (codes "HOME" ∷ []) ≡ true)
        ↔ ((curl ≡ curl) × (url ∷ [] ≡ url ∷ []) × (all_in (codes "HOME" ∷ []) names ≡ true)))
literal_rule-exact_example =
    literal_rule-exact Regex.compile header [] curl (url ∷ []) names who compile-ReadsLiterals
      (absent b'\n' (codes "# rules") (unfold contains_byte in refl), (tt, tt)) header-parsed
      short-line deploy-Ascii env_keys-IsName (absent b'\t' who (unfold contains_byte in refl))
      (absent b'\n' who (unfold contains_byte in refl))
      (absent b'\r' who (unfold contains_byte in refl))
      (unfold trim_space trim_left trim_right trim_front in refl) curl (url ∷ [])
      (codes "HOME" ∷ [])

-- a rule for one text
abbrev rule_for : Bytes → List Bytes → Rule
rule_for text scope = record {
  regex = λ s. s == text;
  env_allow = codes "TOKEN" ∷ [];
  env_any = false;
  label = [];
  scope = scope;
  line_no = 1;
  raw = [];
}

abbrev rules : List Rule
rules = rule_for curl (mcp ∷ []) ∷ rule_for curl (cli ∷ []) ∷ []

choose-first_example :
    ((choose rules cli curl (codes "TOKEN" ∷ []) ≡ none)
      × All (Passes cli curl (codes "TOKEN" ∷ [])) rules)
    ⊎ ((r : Rule) × (choose rules cli curl (codes "TOKEN" ∷ []) ≡ some r)
        × First cli curl (codes "TOKEN" ∷ []) rules r)
choose-first_example = choose-first cli curl (codes "TOKEN" ∷ []) rules

-- regular expressions without operators: the text between the anchors, and nothing else
abbrev compile : Bytes → Option (Bytes → Bool)
compile pat = some λ s. anchored s == pat

abbrev file : Bytes
file = codes "# r\n/id\tH\t#w\tmcp\n"

abbrev rules_of : Loaded → List Rule
rules_of (loaded rs) = rs
rules_of _ = []

abbrev file_rules : List Rule
file_rules = rules_of (load_file compile (contents file))

file_rules-loaded : load_file compile (contents file) ≡ loaded file_rules
unfolding load_file parse scan_lines split scan_line is_skipped list_beq trim_space drop_return
    has_prefix parse_line parse_env_column parse_label_column parse_scope_column env_names
    is_env_name all_name_bytes surfaces first_trivial trim_front trim_left trim_right
file_rules-loaded = refl

load_file-Sound_example :
    (parse compile file ≡ (file_rules, []))
    × All (Sound compile (split b'\n' file)) file_rules
    × All (λ r. is_trivial_match_everything r.regex ≡ false) file_rules
load_file-Sound_example = load_file-Sound compile file file_rules file_rules-loaded

abbrev values : Bytes → Option Bytes
values k = if k == codes "db-pass" then some (codes "hunter2") else none

db_pass-IsKey : IsKey (codes "db-pass")
db_pass-IsKey =
    (unfold is_key ends_well in refl, (refl, (refl, (refl, (refl, (refl, (refl, (refl, tt))))))))

restore-replaces_example :
    IsReplaced values
      (codes "pw=")
      (codes "db-pass")
      (values (codes "db-pass"))
      (restore values (codes ";"))
      (restore values (codes "pw=" ++ (placeholder_for (codes "db-pass") ++ codes ";")))
restore-replaces_example =
    restore-replaces values (codes "pw=") (codes "db-pass") (codes ";")
      (omega arith, (omega arith, (omega arith, tt))) db_pass-IsKey

named-merge_env_example :
    named
      (codes "A")
      (merge_env (codes "A=1" ∷ []) (codes "A" ∷ []) (codes "A=2" ∷ codes "B=3" ∷ []))
    ≡ named (codes "A") (codes "A=1" ∷ [])
      ++ (if contains (codes "A") (codes "A" ∷ [])
          then []
          else named (codes "A") (codes "A=2" ∷ codes "B=3" ∷ []))
named-merge_env_example =
    named-merge_env (codes "A") (codes "A=1" ∷ []) (codes "A" ∷ []) (codes "A=2" ∷ codes "B=3" ∷ [])

abbrev raw : List Bytes
raw = codes "A=<agent-vault:k>" ∷ []

abbrev entries : List EnvEntry
entries = record { name = codes "A"; value = codes "<agent-vault:k>" } ∷ []

raw-accepted : parse_env_flag raw ≡ ok (entries, codes "k" ∷ [])
unfolding parse_env_flag parse_entry index_byte is_env_name all_name_bytes
    find_suspicious_placeholders invalid_only loose_angle close_at is_valid_placeholder find_string
    unvaulted contains extract_placeholders distinct hits pieces pieces_from placeholder has_prefix
    up_to_close is_key ends_well list_beq
raw-accepted = refl

parse_env_flag-Accepted_example : All (Accepted (codes "k" ∷ [])) entries
parse_env_flag-Accepted_example = parse_env_flag-Accepted raw entries (codes "k" ∷ []) raw-accepted

abbrev world : World
world = record {
  rules = loaded (rule_for (canonicalize curl (url ∷ [])) (cli ∷ []) ∷ []);
  on_tty = false;
  answer = [];
  now = codes "2026";
  can_append = true;
  vault = some ((codes "db-pass", codes "v1:00") ∷ []);
  has_client = true;
  bob = λ keys packed reason. some (codes "hunter2" ∷ [], [] ∷ []);
  look_path = λ p. some p;
  environ = codes "PW=old" ∷ [];
}

abbrev arguments : List Bytes
arguments = codes "--env" ∷ codes "TOKEN=<agent-vault:db-pass>" ∷ codes "--" ∷ curl ∷ url ∷ []

cmd_exec-Gated_example : Gated world arguments (cmd_exec world arguments)
cmd_exec-Gated_example = cmd_exec-Gated world arguments
