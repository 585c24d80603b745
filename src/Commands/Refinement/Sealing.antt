-- ===== src/Commands/Refinement/Sealing.antt =====
-- cmd/alice: `set` and `import` on the abstract vault.
use an_b.Base.{
  ℕ, suc, Bool, true, false, not, List, [], ◌∷◌, Option, none, some, Bytes, ok, bytes_eq, lookup,
  insert, lookup-insert, refl, ◌≡◌, ◌∙◌, sym, ap, inl, inr, split,
}
use an_b.Base.Int.{ℤ}
use an_b.Authz.Laws.{Any}
use an_b.Server.{Request}
use an_b.Client.{Reply}
use an_b.Vault.{Vault, Disk, load, get, set}
use an_b.Exec.Env.{has_key_format}
use an_b.Commands.{
  Session, World, require, lift, load_vault, save_vault, load_client, encrypt, no_value_source,
  bad_key_format, generate_combined,
}
use an_b.Commands.Value.{SetFlags, read_value}
use an_b.Commands.Secret.{
  done, cancelled, store_value, cmd_set, entry_for, has_source, is_combined, is_some,
}
use an_b.Commands.Chains.{bind-done, require-done}
use an_b.Commands.Import.{
  Candidate, seal_all, imported_entry, import_confirmed, import_candidates, cmd_import, to_import,
  candidates, confirmed_import,
}
use an_b.Commands.Refinement.{
  Permission, view, stored, Steps, kept, step, Reaches, keeps, bind-Reaches, bind-return, bind-disk,
  Steps-end, view-save, set-stored, Steps-loaded, load_vault-loads, saving,
}

-- the entries of a file that are imported, and the names they go under
abbrev pub entries_of : ℤ → Bytes → List Candidate
entries_of min_len raw = to_import (candidates min_len (split b'\n' raw))

abbrev pub IsEntry : List Candidate → Bytes → Type 0
IsEntry cs k = Any (λ c. c.vault_key ≡ k) cs

module _ {ℓ} {B : Type ℓ} where
  module _ (ask : Request → B → B × Reply) (generator : Bytes → ℤ → Option Bytes)
      (estimate : Bytes → ℕ) where
    store_value-Reaches :
        {p : Permission} (w : World) (f : SetFlags) (key : Bytes) (v : Vault) (value : Option Bytes)
        (d : Disk) (s : Session B)
        → p.may_store key
        → s.disk ≡ d
        → load d ≡ ok v
        → Reaches p d (store_value ask generator estimate w f key v value s)
    unfolding load_client encrypt
    store_value-Reaches w f key v none d s may same h = keeps d (s, ok cancelled) same
    store_value-Reaches w f key v (some value) d s may same h =
        bind-Reaches d (load_client w) _ s same refl (λ t u at e.
          bind-Reaches d (encrypt ask [] key value) _ t at refl (λ t' packed at' e'.
            bind-return d (λ x. done) (save_vault w _ t')
              (saving w d v _ t' at' h (
                stored key (entry_for ask generator estimate w f (get v key) value packed) may
                  (set-stored d v key _ h)))))

    pub cmd_set-Reaches :
        {p : Permission} (w : World) (f : SetFlags) (args : List Bytes) (s : Session B)
        → ((k : Bytes) → args ≡ k ∷ [] → has_key_format k ≡ true → p.may_store k)
        → Reaches p s.disk (cmd_set ask generator estimate w f args s)
    unfolding cmd_set load_vault
    cmd_set-Reaches w f [] s may = kept (λ k. refl)
    cmd_set-Reaches w f (key ∷ a ∷ args) s may = kept (λ k. refl)
    cmd_set-Reaches w f (key ∷ []) s may =
        bind-Reaches s.disk (require (has_source w f) no_value_source) _ s refl refl
          (λ s1 u1 at1 e1.
            bind-Reaches s.disk (require (has_key_format key) bad_key_format) _ s1 at1 refl
              (λ s2 u2 at2 e2.
                bind-Reaches s.disk (require (not (is_combined f)) generate_combined) _ s2 at2 refl
                  (λ s3 u3 at3 e3. bind-Reaches s.disk load_vault _ s3 at3 refl (λ s4 v at4 e4.
                    bind-Reaches s.disk (lift (read_value generator w f (is_some (get v key)))) _ s4
                      at4 refl
                      (λ s5 value at5 e5.
                        store_value-Reaches w f key v value s.disk s5
                          (may key refl
                            (require-done (has_key_format key) bad_key_format s1 s2 u2 e2).0)
                          at5 (ap load (sym at3) ∙ load_vault-loads s3 s4 v e4))))))

  module _ (ask : Request → B → B × Reply) where
    seal_all-Steps :
        {p : Permission} (w : World) (n : ℕ) (cs : List Candidate) (v v' : Vault) (s t : Session B)
        → ((k : Bytes) → IsEntry cs k → p.may_store k)
        → seal_all ask w n cs v s ≡ (t, ok v')
        → Steps p (λ k. lookup k v'.secrets) (λ k. lookup k v.secrets)
    unfolding seal_all encrypt set
    seal_all-Steps w n [] v v' s t may h =
        kept (λ k. let e : v' ≡ v = cc in ap (λ (u : Vault). lookup k u.secrets) e)
    seal_all-Steps w n (c ∷ cs) v v' s t may h =
        let (s1, packed, e1, h1) = bind-done (encrypt ask [] c.vault_key c.value) _ s t v' h in
        let e = imported_entry packed (w.now n) in
        step (λ k. lookup k (insert c.vault_key e v.secrets))
          (stored c.vault_key e (may c.vault_key (inl refl))
            (λ k. lookup-insert c.vault_key k e v.secrets))
          (seal_all-Steps w (suc n) cs _ v' s1 t (λ k i. may k (inr i)) h1)

    seal_all-disk :
        (w : World) (n : ℕ) (cs : List Candidate) (v : Vault) (s : Session B)
        → (seal_all ask w n cs v s).0.disk ≡ s.disk
    unfolding seal_all encrypt
    seal_all-disk w n [] v s = refl
    seal_all-disk w n (c ∷ cs) v s =
        bind-disk (encrypt ask [] c.vault_key c.value) _ s refl (λ t packed.
          seal_all-disk w (suc n) cs (set c.vault_key (imported_entry packed (w.now n)) v) t)

    import_confirmed-Reaches :
        {p : Permission} (w : World) (v : Vault) (cs : List Candidate) (go : Bool) (d : Disk)
        (s : Session B)
        → ((k : Bytes) → IsEntry cs k → p.may_store k)
        → s.disk ≡ d
        → load d ≡ ok v
        → Reaches p d (import_confirmed ask w v cs go s)
    unfolding load_client save_vault
    import_confirmed-Reaches w v cs false d s may same h = keeps d (s, ok cancelled) same
    import_confirmed-Reaches w v cs true d s may same h =
        bind-Reaches d (load_client w) _ s same refl (λ s1 u1 at1 e1.
          bind-Reaches d (seal_all ask w 0 cs v) _ s1 at1 (seal_all-disk w 0 cs v s1)
            (λ s2 v' at2 e2.
              bind-return d (λ x. done) (save_vault w v' s2)
                (elim (view-save v' w.can_save s2.disk) [
                  | inl e ↦
                      Steps-end (Steps-loaded _ d v h (seal_all-Steps w 0 cs v v' s1 s2 may e2)) e
                  | inr e ↦ kept (λ k. e k ∙ ap (λ x. view x k) at2)
                ])))

    import_candidates-Reaches :
        {p : Permission} (w : World) (yes_flag : Bool) (v : Vault) (cs : List Candidate) (d : Disk)
        (s : Session B)
        → ((k : Bytes) → IsEntry cs k → p.may_store k)
        → s.disk ≡ d
        → load d ≡ ok v
        → Reaches p d (import_candidates ask w yes_flag v cs s)
    import_candidates-Reaches w yes_flag v [] d s may same h = keeps d (s, ok cancelled) same
    import_candidates-Reaches w yes_flag v (c ∷ cs) d s may same h =
        bind-Reaches d (lift (confirmed_import w yes_flag)) _ s same refl
          (λ s1 go at1 e1. import_confirmed-Reaches w v (c ∷ cs) go d s1 may at1 h)

    pub cmd_import-Reaches :
        {p : Permission} (w : World) (min_len : ℤ) (yes_flag : Bool) (file : Option Bytes)
        (s : Session B)
        → ((raw k : Bytes) → file ≡ some raw → IsEntry (entries_of min_len raw) k → p.may_store k)
        → Reaches p s.disk (cmd_import ask w min_len yes_flag file s)
    unfolding cmd_import load_vault
    cmd_import-Reaches w min_len yes_flag none s may = kept (λ k. refl)
    cmd_import-Reaches w min_len yes_flag (some raw) s may =
        bind-Reaches s.disk load_vault _ s refl refl (λ s1 v at1 e1.
          import_candidates-Reaches w yes_flag v (entries_of min_len raw) s.disk s1
            (λ k. may raw k refl) at1 (load_vault-loads s s1 v e1))
