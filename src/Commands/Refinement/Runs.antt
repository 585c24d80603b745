-- ===== src/Commands/Refinement/Runs.antt =====
-- cmd/alice/main.go: runs of alice on the abstract vault.
use an_b.Base.{ℕ, Bool, true, List, [], ◌∷◌, Option, some, Bytes, refl, ◌≡◌, Table, ok, length}
use an_b.Base.Int.{ℤ}
use an_b.Server.{Request}
use an_b.Client.{Reply}
use an_b.Exec.Env.{has_key_format}
use an_b.Vault.{list}
use an_b.Commands.{Session, World, load_vault, print}
use an_b.Commands.Local.{
  print_all, cmd_has, cmd_list, cmd_rekey_status, presence, all_present, listed, count_versions,
  sort_rows,
}
use an_b.Commands.Main.{
  Invocation, set_key, remove_keys, describe, import_file, init_vault, has_keys, list_keys,
  rekey_status, run, run_all,
}
use an_b.Commands.Refinement.{
  Permission, View, view, Steps, kept, Reaches, bind-Reaches, bind-disk, keeps,
}
use an_b.Commands.Refinement.Named.{IsNamed}
use an_b.Commands.Refinement.Local.{cmd_desc-Reaches, cmd_rm-Reaches, cmd_init-Reaches}
use an_b.Commands.Refinement.Sealing.{cmd_set-Reaches, cmd_import-Reaches, entries_of, IsEntry}

abbrev nothing : Permission
nothing = record { may_store = λ k. ⊥; may_describe = λ k. ⊥; may_delete = λ k. ⊥ }

module _ (glob : Bytes → Bytes → Bool) where
  -- what each command may do
  abbrev pub permission : Invocation → Permission
  permission (set_key f args) = record nothing {
    may_store = λ k. (args ≡ k ∷ []) × (has_key_format k ≡ true);
  }
  permission (remove_keys yes_flag args) = record nothing { may_delete = IsNamed glob args }
  permission (describe clear args) = record nothing {
    may_describe = λ k. (rest : List Bytes) × (args ≡ k ∷ rest);
  }
  permission (import_file min_len yes_flag file) = record nothing {
    may_store = λ k. (raw : Bytes) × (file ≡ some raw) × IsEntry (entries_of min_len raw) k;
  }
  permission _ = nothing

  -- each command takes the map of before to the next one by steps that it is permitted
  pub Trace : List (World × Invocation) → View → View → Type 0
  Trace [] m m' = (k : Bytes) → m' k ≡ m k
  Trace ((w, i) ∷ is) m m' = (n : View) × Steps (permission i) n m × Trace is n m'

module _ {ℓ} {B : Type ℓ} where
  print_all-disk : (ls : List Bytes) (s : Session B) → (print_all ls s).0.disk ≡ s.disk
  unfolding print_all
  print_all-disk [] s = refl
  print_all-disk (l ∷ ls) s =
      bind-disk (print l) (λ u. print_all ls) s refl (λ t u. print_all-disk ls t)

  cmd_has-Reaches :
      {p : Permission} (args : List Bytes) (s : Session B) → Reaches p s.disk (cmd_has args s)
  unfolding cmd_has load_vault
  cmd_has-Reaches [] s = kept (λ k. refl)
  cmd_has-Reaches (a ∷ args) s = bind-Reaches s.disk load_vault _ s refl refl (λ t v at e.
      bind-Reaches s.disk (print_all _) _ t at (print_all-disk _ t)
        (λ t' u at' e'. keeps s.disk (t', ok (all_present (presence v (a ∷ args)))) at'))

  cmd_list-Reaches :
      {p : Permission} (glob : Bytes → Bytes → Bool) (args : List Bytes) (s : Session B)
      → Reaches p s.disk (cmd_list glob args s)
  unfolding cmd_list load_vault
  cmd_list-Reaches glob args s =
      bind-Reaches s.disk load_vault _ s refl refl
        (λ t v at e. keeps s.disk (t, ok (listed glob args (list v))) at)

  cmd_rekey_status-Reaches :
      {p : Permission} (s : Session B) → Reaches p s.disk (cmd_rekey_status s)
  unfolding cmd_rekey_status load_vault
  cmd_rekey_status-Reaches s = bind-Reaches s.disk load_vault _ s refl refl (λ t v at e.
      keeps {C = Table ℕ ℕ × ℕ} s.disk
        (t, ok (sort_rows (count_versions v.secrets), length v.secrets)) at)

module _ {ℓ} {B : Type ℓ} (ask : Request → B → B × Reply) (generator : Bytes → ℤ → Option Bytes)
    (estimate : Bytes → ℕ) (glob : Bytes → Bytes → Bool) where
  run-Steps :
      (w : World) (i : Invocation) (s : Session B)
      → Steps (permission glob i) (view (run ask generator estimate glob w i s).disk) (view s.disk)
  unfolding run
  run-Steps w (set_key f args) s =
      cmd_set-Reaches ask generator estimate w f args s (λ k e h. (e, h))
  run-Steps w (remove_keys yes_flag args) s = cmd_rm-Reaches glob w yes_flag args s (λ k n. n)
  run-Steps w (describe clear args) s = cmd_desc-Reaches w clear args s (λ k rest e. (rest, e))
  run-Steps w (import_file min_len yes_flag file) s =
      cmd_import-Reaches ask w min_len yes_flag file s (λ raw k e i. (raw, e, i))
  run-Steps w init_vault s = cmd_init-Reaches w s
  run-Steps w (has_keys args) s = cmd_has-Reaches args s
  run-Steps w (list_keys args) s = cmd_list-Reaches glob args s
  run-Steps w rekey_status s = cmd_rekey_status-Reaches s

  -- Runs of `set`, `rm`, `desc`, `import`, `init`, `has`, `list` and `rekey-status` one after the other,
  -- with any outcomes, refine the abstract vault, a map from names to entries. Each run makes steps
  -- that its command permits, and no others: `set` stores an entry under its argument, where that has
  -- the format of a key; `rm` deletes keys that its arguments name; `desc` changes the description of
  -- its first argument; `import` stores entries under names of the file; the others change nothing.
  pub run_all-refines :
      (is : List (World × Invocation)) (s : Session B)
      → Trace glob is (view s.disk) (view (run_all ask generator estimate glob is s).disk)
  unfolding run_all Trace
  run_all-refines [] s = λ k. refl
  run_all-refines ((w, i) ∷ is) s = (
    view (run ask generator estimate glob w i s).disk,
    run-Steps w i s,
    run_all-refines is (run ask generator estimate glob w i s),
  )
