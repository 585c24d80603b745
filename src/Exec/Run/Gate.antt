-- ===== src/Exec/Run/Gate.antt =====
-- cmd/alice/exec.go: the handler up to the gate, and what each way through it comes to.
use an_b.Base.{
  true, ◌&&◌, List, [], ◌∷◌, ◌++◌, Option, none, some, Bytes, codes, ◌≡◌, inl, inr, refl, arith,
  Bool-cases, Result, ok, err, map, has_prefix, ◌==◌, bytes_eq,
}
use an_b.Rules.{Rule, is_known_surface, choose, cli}
use an_b.Rules.Shell.{canonicalize}
use an_b.Rules.Parse.{Loaded, loaded, rules_missing, open_error, parse_errors, matches_everything}
use an_b.Rules.Literal.{literal_rule}
use an_b.Exec.Flags.{Flags, FlagError, default_flags, parse_flags, split_args}
use an_b.Exec.Env.{EnvError, EnvEntry, parse_env_flag}
use an_b.Exec.Run.{
  World, Run, append_rule, failed, printed, ExecError, confirms, run_denied, run_allowed, gated,
  with_rules, with_entries, with_flags, with_split, cmd_exec,
}

abbrev pub names : List EnvEntry → List Bytes
names = map λ e. e.name

-- nothing is asked of the world, and no command is run
pub data Idle : Run → Type 0 where
  fails : (e : ExecError) → Idle (record { actions = []; outcome = failed e })
  prints : (s : Bytes) → Idle (record { actions = []; outcome = printed s })

module _ (w : World) where
  -- on a terminal, and on the surface `cli`, the operator agreed to the literal rule of the
  -- invocation; the command is still not run
  pub data Blesses (f : Flags) (cmd : Bytes) (args : List Bytes) (entries : List EnvEntry)
      : Run → Type 0 where
    blesses :
        (e : ExecError)
        → f.surface ≡ cli
        → w.on_tty ≡ true
        → confirms w.answer ≡ true
        → Blesses f cmd args entries (record {
          actions =
              append_rule (literal_rule cmd args (names entries) (codes "auto-blessed " ++ w.now))
              ∷ [];
          outcome = failed e;
        })

  -- the command's path is absolute, and this rule is the choice among those of the file for the
  -- surface, the canonical text and the names of the entries
  abbrev pub Matched : Flags → Bytes → List Bytes → List EnvEntry → Rule → Type 0
  Matched f cmd args entries rule =
      (rules : List Rule) × (w.rules ≡ loaded rules)
      × (has_prefix cmd (codes "/") ≡ true)
      × (is_known_surface f.surface ≡ true)
      × (choose rules f.surface (canonicalize cmd args) (names entries) ≡ some rule)

  pub data Gated (args : List Bytes) : Run → Type 0 where
    idle : {r : Run} → Idle r → Gated args r
    blessing :
        {r : Run} (own : List Bytes) (f : Flags) (cmd : Bytes) (rest : List Bytes)
        (entries : List EnvEntry) (keys : List Bytes)
        → split_args args ≡ some (own, cmd ∷ rest)
        → parse_flags own default_flags ≡ ok f
        → parse_env_flag f.envs ≡ ok (entries, keys)
        → Blesses f cmd rest entries r
        → Gated args r
    allowed :
        (own : List Bytes) (f : Flags) (cmd : Bytes) (rest : List Bytes) (entries : List EnvEntry)
        (keys : List Bytes) (rule : Rule)
        → split_args args ≡ some (own, cmd ∷ rest)
        → parse_flags own default_flags ≡ ok f
        → parse_env_flag f.envs ≡ ok (entries, keys)
        → Matched f cmd rest entries rule
        → Gated args (run_allowed w f.reason rule (cmd ∷ rest) entries keys)

  denied-Gated :
      (args own : List Bytes) (f : Flags) (cmd : Bytes) (rest : List Bytes)
      (entries : List EnvEntry) (keys : List Bytes)
      → split_args args ≡ some (own, cmd ∷ rest)
      → parse_flags own default_flags ≡ ok f
      → parse_env_flag f.envs ≡ ok (entries, keys)
      → Gated args (run_denied w f.surface cmd rest (names entries))
  unfolding run_denied
  denied-Gated args own f cmd rest entries keys es ef ee =
      elim (Bool-cases (f.surface == codes "cli" && w.on_tty)) [
        | inl ask ↦ elim (Bool-cases (confirms w.answer)) [
          | inl yes' ↦
              rw (ask, yes')
                (blessing own f cmd rest entries keys es ef ee (
                  blesses _ ((bytes_eq.equal_iff f.surface cli).0 (ground arith)) (ground arith)
                    yes'))
          | inr no' ↦ rw (ask, no') (idle (fails _))
        ]
        | inr quiet ↦ rw quiet (idle (fails _))
      ]

  -- Whatever the arguments and the world: the run fails or prints with no action at all, or the
  -- operator at a terminal agreed on the surface `cli` to a rule, which is appended and nothing more;
  -- or the arguments parse, the file of rules loads and a rule of it matches, and the run is the one
  -- past the gate under that rule.
  pub cmd_exec-Gated : (args : List Bytes) → Gated args (cmd_exec w args)
  unfolding cmd_exec
  cmd_exec-Gated args = by_split (split_args args) refl
    where
      by_choice :
          (own : List Bytes) (f : Flags) (cmd : Bytes) (rest : List Bytes) (entries : List EnvEntry)
          (keys : List Bytes) (rules : List Rule) (o : Option Rule)
          → split_args args ≡ some (own, cmd ∷ rest)
          → parse_flags own default_flags ≡ ok f
          → parse_env_flag f.envs ≡ ok (entries, keys)
          → w.rules ≡ loaded rules
          → has_prefix cmd (codes "/") ≡ true
          → is_known_surface f.surface ≡ true
          → choose rules f.surface (canonicalize cmd rest) (names entries) ≡ o
          → Gated args (gated w f cmd rest entries keys o)
      by_choice own f cmd rest entries keys rules none es ef ee er ha hs e =
          denied-Gated args own f cmd rest entries keys es ef ee
      by_choice own f cmd rest entries keys rules (some rule) es ef ee er ha hs e =
          allowed own f cmd rest entries keys rule es ef ee (rules, er, ha, hs, e)

      by_rules :
          (own : List Bytes) (f : Flags) (cmd : Bytes) (rest : List Bytes) (entries : List EnvEntry)
          (keys : List Bytes) (l : Loaded)
          → split_args args ≡ some (own, cmd ∷ rest)
          → parse_flags own default_flags ≡ ok f
          → parse_env_flag f.envs ≡ ok (entries, keys)
          → w.rules ≡ l
          → has_prefix cmd (codes "/") ≡ true
          → is_known_surface f.surface ≡ true
          → Gated args (with_rules w f cmd rest entries keys l)
      by_rules own f cmd rest entries keys (loaded rules) es ef ee er ha hs =
          by_choice own f cmd rest entries keys rules _ es ef ee er ha hs refl
      by_rules own f cmd rest entries keys rules_missing es ef ee er ha hs = idle (fails _)
      by_rules own f cmd rest entries keys open_error es ef ee er ha hs = idle (fails _)
      by_rules own f cmd rest entries keys (parse_errors errs) es ef ee er ha hs = idle (fails _)
      by_rules own f cmd rest entries keys (matches_everything n) es ef ee er ha hs = idle (fails _)

      by_entries :
          (own : List Bytes) (f : Flags) (cmd : Bytes) (rest : List Bytes)
          (m : Result EnvError (List EnvEntry × List Bytes))
          → split_args args ≡ some (own, cmd ∷ rest)
          → parse_flags own default_flags ≡ ok f
          → parse_env_flag f.envs ≡ m
          → is_known_surface f.surface ≡ true
          → Gated args (with_entries w f cmd rest m)
      by_entries own f cmd rest (err e) es ef ee hs = idle (fails _)
      by_entries own f cmd rest (ok (entries, keys)) es ef ee hs =
          elim (Bool-cases f.show_match_string) [
            | inl show ↦ rw show (idle (prints _))
            | inr show ↦ elim (Bool-cases (has_prefix cmd (codes "/"))) [
              | inl ha ↦
                  rw (show, ha) (by_rules own f cmd rest entries keys w.rules es ef ee refl ha hs)
              | inr ha ↦ rw (show, ha) (idle (fails _))
            ]
          ]

      by_flags :
          (own : List Bytes) (cmd : Bytes) (rest : List Bytes) (m : Result FlagError Flags)
          → split_args args ≡ some (own, cmd ∷ rest)
          → parse_flags own default_flags ≡ m
          → Gated args (with_flags w cmd rest m)
      by_flags own cmd rest (err e) es ef = idle (fails _)
      by_flags own cmd rest (ok f) es ef = elim (Bool-cases (is_known_surface f.surface)) [
        | inl hs ↦ rw hs (by_entries own f cmd rest (parse_env_flag f.envs) es ef refl hs)
        | inr hs ↦ rw hs (idle (fails _))
      ]

      by_split :
          (o : Option (List Bytes × List Bytes)) → split_args args ≡ o → Gated args (with_split w o)
      by_split none e = idle (fails _)
      by_split (some (own, [])) e = idle (fails _)
      by_split (some (own, cmd ∷ rest)) e =
          by_flags own cmd rest (parse_flags own default_flags) e refl
