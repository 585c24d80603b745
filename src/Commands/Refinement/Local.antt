-- ===== src/Commands/Refinement/Local.antt =====
-- cmd/alice: `desc`, `rm` and `init` on the abstract vault.
use an_b.Base.{
  Bool, true, false, List, [], ◌∷◌, Option, none, some, Bytes, ok, err, if◌then◌else◌, bytes_eq,
  lookup, delete, lookup-delete, refl, ◌≡◌, ◌∙◌, ap, inl, inr, All, All-map, join, not_exist,
  failed, contents,
}
use an_b.Base.Sort.{sort, sort-All}
use an_b.Commands.Refinement.Named.{IsNamed, named_by_all-IsNamed}
use an_b.Vault.{SecretEntry, Vault, Disk, load, get, remove, removed}
use an_b.Commands.{
  Session, World, ◌>>=◌, ◌>>◌, lift, or_fail, return, load_vault, save_vault, not_found,
}
use an_b.Commands.Secret.{done, cancelled}
use an_b.Commands.Chains.{lift-done}
use an_b.Commands.Local.{
  with_desc, change_desc, cmd_desc, remove_all, named_by_all, confirmed_removal, remove_or_cancel,
  cmd_rm, cmd_init, vault_or_none, vault_exists,
}
use an_b.Commands.Refinement.{
  Permission, View, view, described, deleted, Steps, kept, step, Reaches, keeps, bind-Reaches,
  bind-return, view-save, view-load, set-stored, Steps-loaded, load_vault-loads, saving,
}

-- removing keys from a vault, one after the other
remove_all-Steps :
    {p : Permission} (keys : List Bytes) (v : Vault) (m' : View)
    → All p.may_delete keys
    → ((k : Bytes) → m' k ≡ lookup k (remove_all keys v).secrets)
    → Steps p m' (λ k. lookup k v.secrets)
unfolding remove_all remove
remove_all-Steps {p} [] v m' a h = kept h
remove_all-Steps {p} (key ∷ keys) v m' (may, a) h =
    by_entry may (λ u. remove_all-Steps keys u m' a) (get v key) h
  where
    by_entry :
        p.may_delete key
        → ((u : Vault)
            → ((k : Bytes) → m' k ≡ lookup k (remove_all keys u).secrets)
            → Steps p m' (λ k. lookup k u.secrets))
        → (o : Option SecretEntry)
        → ((k : Bytes) → m' k ≡ lookup k (remove_all keys (removed o key v).0).secrets)
        → Steps p m' (λ k. lookup k v.secrets)
    by_entry may next none g = next v g
    by_entry may next (some e) g =
        step (λ k. lookup k (delete key v.secrets))
          (deleted key may (λ k. lookup-delete key k v.secrets)) (next (removed (some e) key v).0 g)

module _ {ℓ} {B : Type ℓ} where
  change_desc-Reaches :
      {p : Permission} (w : World) (key : Bytes) (v : Vault) (e : SecretEntry) (text : List Bytes)
      (clear : Bool) (d : Disk) (s : Session B)
      → p.may_describe key
      → s.disk ≡ d
      → load d ≡ ok v
      → get v key ≡ some e
      → Reaches p d (change_desc w key v e text clear s)
  unfolding get
  change_desc-Reaches w key v e [] false d s may same h hg = keeps d (s, ok e.desc) same
  change_desc-Reaches w key v e [] true d s may same h hg =
      bind-return d (λ x. []) (save_vault w _ s)
        (saving w d v _ s same h (
          described key [] e may (view-load d v h key ∙ hg)
            (set-stored d v key (with_desc [] e) h)))
  change_desc-Reaches w key v e (a ∷ text) clear d s may same h hg =
      let new = if clear then [] else join (b' ' ∷ []) (a ∷ text) in
      bind-return d (λ x. new) (save_vault w _ s)
        (saving w d v _ s same h (
          described key new e may (view-load d v h key ∙ hg)
            (set-stored d v key (with_desc new e) h)))

  pub cmd_desc-Reaches :
      {p : Permission} (w : World) (clear : Bool) (args : List Bytes) (s : Session B)
      → ((k : Bytes) (rest : List Bytes) → args ≡ k ∷ rest → p.may_describe k)
      → Reaches p s.disk (cmd_desc w clear args s)
  unfolding cmd_desc load_vault
  cmd_desc-Reaches w clear [] s may = kept (λ k. refl)
  cmd_desc-Reaches {p} w clear (key ∷ text) s may =
      bind-Reaches s.disk load_vault _ s refl refl
        (λ s1 v at1 e1. by_entry v (get v key) refl s1 at1 (load_vault-loads s s1 v e1))
    where
      by_entry :
          (v : Vault) (o : Option SecretEntry)
          → get v key ≡ o
          → (s1 : Session B) → s1.disk ≡ s.disk
          → load s.disk ≡ ok v
          → Reaches p s.disk ((or_fail not_found o >>= λ e. change_desc w key v e text clear) s1)
      by_entry v none hg s1 at1 h = keeps {C = Bytes} s.disk (s1, err not_found) at1
      by_entry v (some e) hg s1 at1 h =
          change_desc-Reaches w key v e text clear s.disk s1 (may key text refl) at1 h hg

  remove_or_cancel-Reaches :
      {p : Permission} (w : World) (v : Vault) (keys : List Bytes) (go : Bool) (d : Disk)
      (s : Session B)
      → All p.may_delete keys
      → s.disk ≡ d
      → load d ≡ ok v
      → Reaches p d (remove_or_cancel w v keys go s)
  unfolding save_vault
  remove_or_cancel-Reaches w v keys false d s a same h = keeps d (s, ok cancelled) same
  remove_or_cancel-Reaches w v keys true d s a same h =
      bind-return d (λ x. done) (save_vault w (remove_all keys v) s)
        (elim (view-save (remove_all keys v) w.can_save s.disk) [
          | inl e ↦ Steps-loaded _ d v h (remove_all-Steps keys v _ a e)
          | inr e ↦ kept (λ k. e k ∙ ap (λ x. view x k) same)
        ])

  pub cmd_rm-Reaches :
      {p : Permission} (glob : Bytes → Bytes → Bool) (w : World) (yes_flag : Bool)
      (args : List Bytes) (s : Session B)
      → ((k : Bytes) → IsNamed glob args k → p.may_delete k)
      → Reaches p s.disk (cmd_rm glob w yes_flag args s)
  unfolding cmd_rm load_vault
  cmd_rm-Reaches glob w yes_flag [] s may = kept (λ k. refl)
  cmd_rm-Reaches {p} glob w yes_flag (pat ∷ args) s may =
      bind-Reaches s.disk load_vault _ s refl refl (λ s1 v at1 e1.
        bind-Reaches s.disk (lift (named_by_all glob v (pat ∷ args))) _ s1 at1 refl
          (λ s2 keys at2 e2.
            bind-Reaches s.disk (lift (confirmed_removal w yes_flag)) _ s2 at2 refl (λ s3 go at3 e3.
              remove_or_cancel-Reaches w v (sort keys) go s.disk s3
                (sort-All p.may_delete keys (
                  All-map (IsNamed glob (pat ∷ args)) p.may_delete may keys
                    (named_by_all-IsNamed glob v (pat ∷ args) keys (lift-done _ s1 s2 keys e2).0)))
                at3 (load_vault-loads s s1 v e1))))

  init-Reaches :
      {p : Permission} (w : World) (d : Disk) (s : Session B)
      → s.disk ≡ d
      → Reaches p d (
          if vault_exists d
          then (s, ok cancelled)
          else (save_vault w (vault_or_none (load d)) >> return done) s)
  unfolding load save_vault
  init-Reaches w not_exist s same =
      bind-return not_exist (λ x. done) (save_vault w _ s)
        (elim (view-save (vault_or_none (load not_exist)) w.can_save s.disk) [
          | inl e ↦ kept e
          | inr e ↦ kept (λ k. e k ∙ ap (λ x. view x k) same)
        ])
  init-Reaches w failed s same = keeps failed (s, ok cancelled) same
  init-Reaches w (contents c) s same = keeps (contents c) (s, ok cancelled) same

  pub cmd_init-Reaches :
      {p : Permission} (w : World) (s : Session B) → Reaches p s.disk (cmd_init w s)
  unfolding cmd_init
  cmd_init-Reaches w s = init-Reaches w s.disk s refl
