-- ===== src/Exec/Run.antt =====
-- cmd/alice/exec.go: the handler of `alice exec`, from its arguments to the call that replaces the
-- process.
pub mod Gate
use an_b.Base.{
  ℕ, suc, Bool, true, false, ◌&&◌, List, [], ◌∷◌, ◌++◌, Option, none, some, Bytes, codes, ◌==◌,
  bytes_eq, if◌then◌else◌, Result, ok, err, ◌>>=◌, Table, lookup, insert, map, has_prefix,
  replace_byte, trim_space, leb, or_fail, require, ◌>>◌, map_err, nat_eq, ◌+◌,
}
use an_b.Rules.{Rule, is_known_surface, choose}
use an_b.Rules.Shell.{canonicalize}
use an_b.Rules.Parse.{RuleError, Loaded, loaded, rules_missing}
use an_b.Rules.Literal.{literal_rule}
use an_b.Redact.Placeholder.{RestoreResult, restore}
use an_b.Exec.Flags.{Flags, FlagError, default_flags, parse_flags, split_args}
use an_b.Exec.Env.{EnvError, EnvEntry, parse_env_flag, merge_env}

pub data ExecError : Type 0 where
  usage unknown_surface relative_command no_rules denied declined appended append_failed : ExecError
  vault_failed client_failed decrypt_failed no_command panics : ExecError
  bad_flag : FlagError → ExecError
  bad_env : EnvError → ExecError
  bad_rules : Loaded → ExecError
  no_such_key : Bytes → ExecError
  unresolved : Bytes → List Bytes → ExecError

-- what the handler asks of the world, in order
pub data Action : Type 0 where
  append_rule : Bytes → Action
  load_vault : Action
  decrypt : List Bytes → List Bytes → Bytes → Action
  write_back : List Bytes → List Bytes → Action

pub data Outcome : Type 0 where
  failed : ExecError → Outcome
  printed : Bytes → Outcome
  exec : Bytes → List Bytes → List Bytes → Outcome

pub record Run : Type 0 where
  pub actions : List Action
  pub outcome : Outcome

-- What the world answers. `rules` is what LoadFile returns, `vault` the packed values by key, and
-- `bob` what DecryptMany returns: the values and the re-sealed ones.
pub record World : Type 0 where
  pub rules : Loaded
  pub on_tty : Bool
  pub answer : Bytes
  pub now : Bytes
  pub can_append : Bool
  pub vault : Option (Table Bytes Bytes)
  pub has_client : Bool
  pub bob : List Bytes → List Bytes → Bytes → Option (List Bytes × List Bytes)
  pub look_path : Bytes → Option Bytes
  pub environ : List Bytes

abbrev pub fails : ExecError → Run
fails e = record { actions = []; outcome = failed e }

-- an action before the rest
abbrev pub acts : Action → Run → Run
acts a r = record { actions = a ∷ r.actions; outcome = r.outcome }

-- strings.ToLower on ASCII
abbrev pub to_lower : Bytes → Bytes
to_lower = map λ c. if leb b'A' c && leb c b'Z' then c + 32 else c

-- confirmAppend, on the line that was read
abbrev pub confirms : Bytes → Bool
confirms line = to_lower (trim_space line) == codes "yes"

-- the loop over the referenced keys: each must be stored
unfoldable pub packed_values : Table Bytes Bytes → List Bytes → Result ExecError (List Bytes)
packed_values v [] = ok []
packed_values v (k ∷ keys) =
    or_fail (no_such_key k) (lookup k v) >>= λ p. packed_values v keys >>= λ ps. ok (p ∷ ps)

abbrev pub put_value : Bytes → Bytes → Option (Table Bytes Bytes) → Option (Table Bytes Bytes)
put_value k p none = none
put_value k p (some m) = some (insert k p m)

-- the loop `plaintexts[k] = pts[i]`; `none` where `pts` is too short, which panics. The keys are
-- distinct, so the order of the insertions is of no account.
unfoldable pub pair_up : List Bytes → List Bytes → Option (Table Bytes Bytes)
pair_up [] pts = some []
pair_up (k ∷ keys) [] = none
pair_up (k ∷ keys) (p ∷ pts) = put_value k p (pair_up keys pts)

abbrev pub checked_restore : EnvEntry → RestoreResult → Result ExecError Bytes
checked_restore e r = elim r.missing [
  | [] ↦ ok (e.name ++ (b'=' ∷ r.content))
  | k ∷ ks ↦ err (unresolved e.name (k ∷ ks))
]

-- the loop that restores the entries' values
unfoldable pub resolve : Table Bytes Bytes → List EnvEntry → Result ExecError (List Bytes)
resolve plaintexts [] = ok []
resolve plaintexts (e ∷ entries) =
    let rest = resolve plaintexts entries in
    checked_restore e (restore (λ k. lookup k plaintexts) e.value) >>= λ r.
    rest >>= λ rs. ok (r ∷ rs)

abbrev pub finish : World → List Bytes → List EnvEntry → Result ExecError (List Bytes) → Run
finish w argv entries (err e) = fails e
finish w [] entries (ok resolved) = fails usage
finish w (cmd ∷ args) entries (ok resolved) = elim (w.look_path cmd) [
  | none ↦ fails no_command
  | some path ↦ record {
    actions = [];
    outcome = exec path (cmd ∷ args) (merge_env resolved (map (λ e. e.name) entries) w.environ);
  }
]

-- the reason that Bob logs: the operator's, or the rule's label
abbrev pub reason_for : Bytes → Rule → Bytes
reason_for [] r = if r.label == [] then [] else b'[' ∷ (r.label ++ (b']' ∷ []))
reason_for (c ∷ reason) r = c ∷ reason

abbrev pub with_values : World → List Bytes → List EnvEntry → Option (Table Bytes Bytes) → Run
with_values w argv entries none = fails panics
with_values w argv entries (some m) = finish w argv entries (resolve m entries)

-- what follows DecryptMany; a failed write-back is only a warning
abbrev pub with_plaintexts :
    World → List Bytes → List EnvEntry → List Bytes → Option (List Bytes × List Bytes) → Run
with_plaintexts w argv entries keys none = fails decrypt_failed
with_plaintexts w argv entries keys (some (pts, rewraps)) =
    acts (write_back keys rewraps) (with_values w argv entries (pair_up keys pts))

abbrev pub with_packed :
    World → List Bytes → List EnvEntry → List Bytes → Bytes → Result ExecError (List Bytes) → Run
with_packed w argv entries keys reason (err e) = fails e
with_packed w argv entries keys reason (ok packed) =
    if w.has_client
    then acts (decrypt keys packed reason)
        (with_plaintexts w argv entries keys (w.bob keys packed reason))
    else fails client_failed

abbrev pub with_vault :
    World → List Bytes → List EnvEntry → List Bytes → Bytes → Option (Table Bytes Bytes) → Run
with_vault w argv entries keys reason none = fails vault_failed
with_vault w argv entries keys reason (some v) =
    with_packed w argv entries keys reason (packed_values v keys)

-- past the gate
unfoldable pub run_allowed : World → Bytes → Rule → List Bytes → List EnvEntry → List Bytes → Run
run_allowed w reason rule argv entries [] = finish w argv entries (resolve [] entries)
run_allowed w reason rule argv entries (k ∷ keys) =
    acts load_vault (with_vault w argv entries (k ∷ keys) (reason_for reason rule) w.vault)

-- no rule matches: on a terminal the operator is asked, on the surface `cli` alone
unfoldable pub run_denied : World → Bytes → Bytes → List Bytes → List Bytes → Run
run_denied w surface cmd args names =
    if surface == codes "cli" && w.on_tty
    then (if confirms w.answer
        then acts (append_rule (literal_rule cmd args names (codes "auto-blessed " ++ w.now)))
            (fails (if w.can_append then appended else append_failed))
        else fails declined)
    else fails denied

abbrev pub gated :
    World → Flags → Bytes → List Bytes → List EnvEntry → List Bytes → Option Rule → Run
gated w f cmd args entries keys none = run_denied w f.surface cmd args (map (λ e. e.name) entries)
gated w f cmd args entries keys (some rule) = run_allowed w f.reason rule (cmd ∷ args) entries keys

abbrev pub with_rules :
    World → Flags → Bytes → List Bytes → List EnvEntry → List Bytes → Loaded → Run
with_rules w f cmd args entries keys (loaded rules) =
    gated w f cmd args entries keys
      (choose rules f.surface (canonicalize cmd args) (map (λ e. e.name) entries))
with_rules w f cmd args entries keys rules_missing = fails no_rules
with_rules w f cmd args entries keys other = fails (bad_rules other)

abbrev pub with_entries :
    World → Flags → Bytes → List Bytes → Result EnvError (List EnvEntry × List Bytes) → Run
with_entries w f cmd args (err e) = fails (bad_env e)
with_entries w f cmd args (ok (entries, keys)) =
    if f.show_match_string
    then record { actions = []; outcome = printed (canonicalize cmd args) }
    else if has_prefix cmd (codes "/")
    then with_rules w f cmd args entries keys w.rules
    else fails relative_command

abbrev pub with_flags : World → Bytes → List Bytes → Result FlagError Flags → Run
with_flags w cmd args (err e) = fails (bad_flag e)
with_flags w cmd args (ok f) =
    if is_known_surface f.surface
    then with_entries w f cmd args (parse_env_flag f.envs)
    else fails unknown_surface

abbrev pub with_split : World → Option (List Bytes × List Bytes) → Run
with_split w none = fails usage
with_split w (some (own, [])) = fails usage
with_split w (some (own, cmd ∷ args)) = with_flags w cmd args (parse_flags own default_flags)

unfoldable pub cmd_exec : World → List Bytes → Run
cmd_exec w args = with_split w (split_args args)
