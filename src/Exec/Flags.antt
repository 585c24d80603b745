-- ===== src/Exec/Flags.antt =====
-- cmd/alice/exec.go: the command line of `alice exec`, as package flag reads it.
use an_b.Base.{
  ℕ, suc, zero, Bool, true, false, ◌||◌, List, [], ◌∷◌, ◌++◌, Option, none, some, Bytes, codes,
  ◌==◌, nat_eq, bytes_eq, if◌then◌else◌, Result, ok, err, index_byte, take, drop,
}

pub record Flags : Type 0 where
  pub dir : Bytes
  pub envs : List Bytes
  pub reason : Bytes
  pub show_match_string : Bool
  pub surface : Bytes

abbrev pub default_flags : Flags
default_flags = record {
  dir = [];
  envs = [];
  reason = [];
  show_match_string = false;
  surface = codes "cli";
}

pub data FlagError : Type 0 where
  positional bad_syntax undefined_flag needs_argument bad_boolean : FlagError

-- the value behind an `=` after the first byte of the name
abbrev named : Bytes → Option ℕ → Bytes × Option Bytes
named s none = (s, none)
named s (some zero) = (s, none)
named s (some (suc i)) = (take (suc i) s, some (drop (suc (suc i)) s))

-- The name and the value of `-name`, `--name`, `-name=value` or `--name=value`. What does not start
-- with a dash, or is a lone dash, is a positional argument.
unfoldable pub flag_name : Bytes → Result FlagError (Bytes × Option Bytes)
flag_name [] = err positional
flag_name (d ∷ []) = err positional
flag_name (d ∷ c ∷ s) =
    let name = if c == b'-' then s else c ∷ s in
    if d == b'-'
    then elim name [
      | [] ↦ err bad_syntax
      | n ∷ ns ↦
          if n == b'-' || n == b'='
          then err bad_syntax
          else ok (named (n ∷ ns) (index_byte b'=' (n ∷ ns)))
    ]
    else err positional

-- strconv.ParseBool
abbrev parse_bool : Bytes → Option Bool
parse_bool s =
    if s == codes "1"
      || s == codes "t"
      || s == codes "T"
      || s == codes "true"
      || s == codes "TRUE"
      || s == codes "True"
    then some true
    else if s == codes "0"
        || s == codes "f"
        || s == codes "F"
        || s == codes "false"
        || s == codes "FALSE"
        || s == codes "False"
    then some false
    else none

-- the flags that take a value
abbrev set_flag : Bytes → Bytes → Flags → Option Flags
set_flag name v f =
    if name == codes "env"
    then some (record {
      dir = f.dir;
      envs = f.envs ++ (v ∷ []);
      reason = f.reason;
      show_match_string = f.show_match_string;
      surface = f.surface;
    })
    else if name == codes "reason"
    then some (record {
      dir = f.dir;
      envs = f.envs;
      reason = v;
      show_match_string = f.show_match_string;
      surface = f.surface;
    })
    else if name == codes "surface"
    then some (record {
      dir = f.dir;
      envs = f.envs;
      reason = f.reason;
      show_match_string = f.show_match_string;
      surface = v;
    })
    else if name == codes "dir"
    then some (record {
      dir = v;
      envs = f.envs;
      reason = f.reason;
      show_match_string = f.show_match_string;
      surface = f.surface;
    })
    else none

abbrev set_show : Bool → Flags → Flags
set_show b f = record {
  dir = f.dir;
  envs = f.envs;
  reason = f.reason;
  show_match_string = b;
  surface = f.surface;
}

abbrev show_value : Option Bytes → Option Bool
show_value none = some true
show_value (some v) = parse_bool v

-- one argument: the flags that follow from it alone, or the flag that takes the next argument
pub data Taken : Type 0 where
  done : Flags → Taken
  wants : (Bytes → Flags) → Taken
  wrong : FlagError → Taken

abbrev take_flag : Result FlagError (Bytes × Option Bytes) → Flags → Taken
take_flag (err e) f = wrong e
take_flag (ok (name, v)) f =
    if name == codes "show-match-string"
    then elim (show_value v) [ none ↦ wrong bad_boolean | some b ↦ done (set_show b f) ]
    else elim v [
      | some x ↦ elim (set_flag name x f) [ none ↦ wrong undefined_flag | some f' ↦ done f' ]
      | none ↦ elim (set_flag name [] f) [
        | none ↦ wrong undefined_flag
        | some f' ↦ wants λ x. elim (set_flag name x f) [ none ↦ f | some f'' ↦ f'' ]
      ]
    ]

-- FlagSet.Parse, where an argument that is no flag is refused afterwards
unfoldable pub parse_flags : List Bytes → Flags → Result FlagError Flags
parse_flags [] f = ok f
parse_flags (a ∷ []) f = elim (take_flag (flag_name a) f) [
  | done f' ↦ ok f'
  | wants g ↦ err needs_argument
  | wrong e ↦ err e
]
parse_flags (a ∷ b ∷ args) f = elim (take_flag (flag_name a) f) [
  | done f' ↦ parse_flags (b ∷ args) f'
  | wants g ↦ parse_flags args (g b)
  | wrong e ↦ err e
]

abbrev keep_front : Bytes → Option (List Bytes × List Bytes) → Option (List Bytes × List Bytes)
keep_front a none = none
keep_front a (some (front, back)) = some (a ∷ front, back)

-- alice's own arguments and the child's, at the first `--`
unfoldable pub split_args : List Bytes → Option (List Bytes × List Bytes)
split_args [] = none
split_args (a ∷ args) =
    let rest = split_args args in if a == codes "--" then some ([], args) else keep_front a rest
