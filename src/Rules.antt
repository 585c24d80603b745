-- ===== src/Rules.antt =====
-- internal/aclrules/aclrules.go: the allowlist of alice's `exec`. A rule, what it allows, and the
-- rule that an invocation is given.
pub mod Shell
pub mod Parse
pub mod Literal
pub mod Choice
pub mod Loading
pub mod Lint
pub mod Migrate
use an_b.Base.{
  ℕ, Bool, true, false, ◌&&◌, ◌||◌, List, [], ◌∷◌, Bytes, codes, Option, none, some, ◌==◌, bytes_eq,
  if◌then◌else◌,
}

-- `regex` is the compiled pattern: MatchString as a function
pub record Rule : Type 0 where
  pub regex : Bytes → Bool
  pub env_allow : List Bytes
  pub env_any : Bool
  pub label : Bytes
  pub scope : List Bytes
  pub line_no : ℕ
  pub raw : Bytes

abbrev pub cli : Bytes
cli = codes "cli"

abbrev pub mcp : Bytes
mcp = codes "mcp"

abbrev pub is_known_surface : Bytes → Bool
is_known_surface s = s == cli || s == mcp

-- the loop `for _, s := range list { if s == x { return true } }`
unfoldable pub contains : Bytes → List Bytes → Bool
contains x [] = false
contains x (y ∷ ys) = y == x || contains x ys

unfoldable pub applies_to : Rule → Bytes → Bool
unfolding contains
applies_to r surface = contains surface r.scope

unfoldable pub filter_by_surface : List Rule → Bytes → List Rule
unfolding applies_to
filter_by_surface [] surface = []
filter_by_surface (r ∷ rules) surface =
    let rest = filter_by_surface rules surface in if applies_to r surface then r ∷ rest else rest

-- the loop over the keys: each is in the set
unfoldable pub all_in : List Bytes → List Bytes → Bool
unfolding contains
all_in [] allowed = true
all_in (k ∷ keys) allowed = contains k allowed && all_in keys allowed

unfoldable pub env_allowed : Rule → List Bytes → Bool
unfolding all_in
env_allowed r [] = true
env_allowed r (k ∷ keys) =
    if r.env_any
    then true
    else elim r.env_allow [ [] ↦ false | a ∷ allow ↦ all_in (k ∷ keys) (a ∷ allow) ]

unfoldable pub matches : Rule → Bytes → List Bytes → Bool
unfolding env_allowed
matches r text env_keys = if r.regex text then env_allowed r env_keys else false

-- cmd/alice/exec.go: the loop that picks the first rule that matches
unfoldable pub first_match : List Rule → Bytes → List Bytes → Option Rule
unfolding matches
first_match [] text env_keys = none
first_match (r ∷ rules) text env_keys =
    if matches r text env_keys then some r else first_match rules text env_keys

abbrev pub choose : List Rule → Bytes → Bytes → List Bytes → Option Rule
unfolding first_match filter_by_surface
choose rules surface text env_keys = first_match (filter_by_surface rules surface) text env_keys
