-- ===== src/Rules/Lint.antt =====
-- internal/aclrules/lint.go: warnings about the rules of an allowlist. The messages and hints are
-- left out.
pub mod Dots
pub mod Flanked
use an_b.Base.{
  ℕ, Bool, true, false, not, ◌&&◌, ◌||◌, List, [], ◌∷◌, ◌++◌, Option, none, some, Bytes, codes,
  if◌then◌else◌, ◌==◌, bytes_eq, map,
}
use an_b.Rules.{Rule}
use an_b.Rules.Lint.Dots.{has_unescaped_dot}

pub data Severity : Type 0 where
  danger warning info : Severity

pub data Check : Type 0 where
  trivial_match script_host env_wildcard unescaped_dot no_label : Check

pub record Finding : Type 0 where
  pub id : Check
  pub severity : Severity
  pub line_no : ℕ
  pub rule : Bytes

abbrev pub finding : Check → Severity → Rule → Finding
finding check severity r = record {
  id = check;
  severity = severity;
  line_no = r.line_no;
  rule = r.raw;
}

abbrev pub sentinels_non_empty : List Bytes
sentinels_non_empty =
    codes "/"
    ∷ codes "/bin/sh"
    ∷ codes "../../etc/passwd"
    ∷ codes "a"
    ∷ codes "some random string"
    ∷ []

abbrev pub sentinels_all : List Bytes
sentinels_all = [] ∷ sentinels_non_empty

-- the regular expression matches all of the probes
unfoldable pub matches_all : (Bytes → Bool) → List Bytes → Bool
matches_all rx [] = true
matches_all rx (p ∷ ps) = rx p && matches_all rx ps

unfoldable pub lint_trivial_match : Rule → Option Finding
unfolding matches_all
lint_trivial_match r =
    if matches_all r.regex sentinels_all
    then some (finding trivial_match danger r)
    else if not (matches_all r.regex sentinels_non_empty)
    then none
    else if r.regex (codes "/bin/echo hello") && r.regex (codes "curl https://example.com")
    then some (finding trivial_match danger r)
    else none

abbrev pub script_hosts : List Bytes
script_hosts =
    codes "/bin/sh"
    ∷ codes "/bin/bash"
    ∷ codes "/bin/zsh"
    ∷ codes "/bin/dash"
    ∷ codes "/bin/ksh"
    ∷ codes "/usr/bin/python"
    ∷ codes "/usr/bin/python3"
    ∷ codes "/opt/homebrew/bin/python3"
    ∷ codes "/usr/bin/perl"
    ∷ codes "/opt/homebrew/bin/perl"
    ∷ codes "/usr/bin/awk"
    ∷ codes "/usr/bin/gawk"
    ∷ codes "/opt/homebrew/bin/awk"
    ∷ []

abbrev pub jq_hosts : List Bytes
jq_hosts = codes "/usr/bin/jq" ∷ codes "/opt/homebrew/bin/jq" ∷ []

abbrev pub script_probes : Bytes → List Bytes
script_probes host =
    map (λ tail. host ++ tail)
      (codes " -c x" ∷ codes " -c 'echo evil'" ∷ codes " -c any-thing-here" ∷ [])

abbrev pub jq_probes : Bytes → List Bytes
jq_probes host =
    map (λ tail. host ++ tail)
      (codes " -r ." ∷ codes " -r '.foo'" ∷ codes " -r any-expression" ∷ [])

-- a host all of whose probes match
unfoldable pub any_host : (Bytes → Bool) → (Bytes → List Bytes) → List Bytes → Bool
unfolding matches_all
any_host rx probes [] = false
any_host rx probes (h ∷ hs) = matches_all rx (probes h) || any_host rx probes hs

unfoldable pub lint_script_host : Rule → Option Finding
unfolding any_host
lint_script_host r =
    if any_host r.regex script_probes script_hosts
    then some (finding script_host danger r)
    else if any_host r.regex jq_probes jq_hosts
    then some (finding script_host danger r)
    else none

unfoldable pub lint_env_wildcard : Rule → Option Finding
lint_env_wildcard r = if r.env_any then some (finding env_wildcard warning r) else none

unfoldable pub lint_unescaped_dot : Rule → Option Finding
unfolding has_unescaped_dot
lint_unescaped_dot r =
    if has_unescaped_dot r.raw then some (finding unescaped_dot warning r) else none

unfoldable pub lint_no_label : Rule → Option Finding
lint_no_label r = if r.label == [] then some (finding no_label info r) else none

abbrev pub lint_checks : List (Rule → Option Finding)
lint_checks =
    lint_trivial_match ∷ lint_script_host ∷ lint_env_wildcard ∷ lint_unescaped_dot ∷ lint_no_label
    ∷ []

abbrev cons_some : Option Finding → List Finding → List Finding
cons_some none fs = fs
cons_some (some f) fs = f ∷ fs

-- the inner loop
unfoldable pub lint_rule : List (Rule → Option Finding) → Rule → List Finding
lint_rule [] r = []
lint_rule (check ∷ checks) r = cons_some (check r) (lint_rule checks r)

unfoldable pub lint : List Rule → List Finding
unfolding lint_rule
lint [] = []
lint (r ∷ rules) = lint_rule lint_checks r ++ lint rules
