-- ===== src/Commands/Refinement.antt =====
-- cmd/alice: what the commands that change the vault do to it, seen as a map from names to entries.
pub mod Named
pub mod Local
pub mod Sealing
pub mod Runs
use an_b.Base.{
  ℕ, suc, Bool, true, false, not, ◌||◌, List, [], ◌∷◌, ◌++◌, Option, none, some, Bytes, Result, ok,
  err, if◌then◌else◌, ◌==◌, bytes_eq, Bool-cases, lookup, insert, delete, lookup-insert,
  lookup-delete, refl, ◌≡◌, ◌∙◌, sym, ap, inl, inr, arith, beq_refl, ◌⊎◌, map_err, join, not_exist,
  failed, split, contents,
}
use an_b.Base.Int.{ℤ}
use mathlib.Core.Path.{transport}
use an_b.Base.Sort.{sort}
use an_b.Server.{Request}
use an_b.Client.{Reply}
use an_b.Vault.{SecretEntry, Vault, Disk, VaultError, load, save, get, set, remove, removed}
use an_b.Exec.Env.{has_key_format}
use an_b.Commands
use an_b.Commands.{
  Session, Command, CommandError, World, ◌>>=◌, ◌>>◌, require, lift, or_fail, return, load_vault,
  save_vault, load_client, encrypt, not_found, no_value_source, bad_key_format, generate_combined,
}
use an_b.Commands.Value.{SetFlags, read_value}
use an_b.Commands.Secret.{
  Done, done, cancelled, store_value, cmd_set, entry_for, has_source, is_combined, is_some,
}
use an_b.Commands.Chains.{bind-done}
use an_b.Commands.Import.{
  Candidate, seal_all, imported_entry, import_confirmed, import_candidates, cmd_import, to_import,
  candidates, confirmed_import,
}
use an_b.Commands.Local.{
  with_desc, change_desc, cmd_desc, remove_all, named_by_all, confirmed_removal, remove_or_cancel,
  cmd_rm, cmd_init, vault_or_none, vault_exists,
}

-- what a command may do: the names under which it may store an entry, those whose description it may
-- change, and those that it may delete
pub record Permission : Type 1 where
  pub may_store : Bytes → Type 0
  pub may_describe : Bytes → Type 0
  pub may_delete : Bytes → Type 0

abbrev pub View : Type 0
View = Bytes → Option SecretEntry

abbrev pub seen : Result VaultError Vault → View
seen (ok v) key = lookup key v.secrets
seen (err e) key = none

-- the abstract vault of a disk
abbrev pub view : Disk → View
view disk = seen (load disk)

-- one abstract step
pub data Step (p : Permission) (m m' : View) : Type 0 where
  stored :
      (key : Bytes) (e : SecretEntry)
      → p.may_store key
      → ((k : Bytes) → m' k ≡ (if key == k then some e else m k))
      → Step p m m'
  described :
      (key text : Bytes) (e : SecretEntry)
      → p.may_describe key
      → m key ≡ some e
      → ((k : Bytes) → m' k ≡ (if key == k then some (with_desc text e) else m k))
      → Step p m m'
  deleted :
      (key : Bytes)
      → p.may_delete key
      → ((k : Bytes) → m' k ≡ (if key == k then none else m k))
      → Step p m m'

-- steps of one command, from the second map to the first
pub data Steps (p : Permission) (m' : View) : View → Type 0 where
  kept : {m : View} → ((k : Bytes) → m' k ≡ m k) → Steps p m' m
  step : {m : View} (n : View) → Step p m n → Steps p m' n → Steps p m' m

-- the disk that a run leaves is some steps away
abbrev pub Reaches {ℓ κ} :
    {B : Type ℓ} {C : Type κ} → Permission → Disk → Session B × Result CommandError C → Type 0
Reaches p d r = Steps p (view r.0.disk) (view d)

pub keeps {ℓ κ} :
    {B : Type ℓ} {C : Type κ} {p : Permission} (d : Disk) (r : Session B × Result CommandError C)
    → r.0.disk ≡ d
    → Reaches p d r
keeps d r e = kept (λ k. ap (λ x. view x k) e)

-- a first part that leaves the disk as it was
pub bind-Reaches {ℓ κ μ} :
    {B : Type ℓ} {A : Type κ} {C : Type μ} {p : Permission} (d : Disk) (m : Command B A)
    (f : A → Command B C) (s : Session B)
    → s.disk ≡ d
    → (m s).0.disk ≡ s.disk
    → ((t : Session B) (a : A) → t.disk ≡ d → m s ≡ (t, ok a) → Reaches p d (f a t))
    → Reaches p d ((m >>= f) s)
bind-Reaches {B} {A} {C} {p} d m f s start same next = by_result (m s) refl
  where
    by_result : (r : Session B × Result CommandError A) → m s ≡ r → Reaches p d (Commands.after r f)
    by_result (t, ok a) e = next t a (ap (λ r. r.0.disk) (sym e) ∙ (same ∙ start)) e
    by_result (t, err e') e =
        keeps {C = C} d (t, err e') (ap (λ r. r.0.disk) (sym e) ∙ (same ∙ start))

pub bind-return {ℓ κ μ} :
    {B : Type ℓ} {A : Type κ} {C : Type μ} {p : Permission} (d : Disk) (g : A → C)
    (r : Session B × Result CommandError A)
    → Reaches p d r
    → Reaches p d (Commands.after r (λ a. return (g a)))
bind-return d g (t, ok a) h = h
bind-return d g (t, err e) h = h

-- a first part and the rest leave the disk as it was
pub bind-disk {ℓ κ μ} :
    {B : Type ℓ} {A : Type κ} {C : Type μ} (m : Command B A) (f : A → Command B C) (s : Session B)
    → (m s).0.disk ≡ s.disk
    → ((t : Session B) (a : A) → (f a t).0.disk ≡ t.disk)
    → ((m >>= f) s).0.disk ≡ s.disk
bind-disk {B} {A} {C} m f s same next = by_result (m s) same
  where
    by_result :
        (r : Session B × Result CommandError A)
        → r.0.disk ≡ s.disk
        → (Commands.after r f).0.disk ≡ s.disk
    by_result (t, ok a) e = next t a ∙ e
    by_result (t, err e') e = e

-- the end of the steps, pointwise
pub Steps-end :
    {p : Permission} {n m' m : View} → Steps p n m → ((k : Bytes) → m' k ≡ n k) → Steps p m' m
Steps-end (kept h) e = kept (λ k. e k ∙ h k)
Steps-end (step i s st) e = step i s (Steps-end st e)

pub view-save :
    (v : Vault) (can_save : Bool) (disk : Disk)
    → ((k : Bytes) → view (save v can_save disk).0 k ≡ lookup k v.secrets)
      ⊎ ((k : Bytes) → view (save v can_save disk).0 k ≡ view disk k)
unfolding save load
view-save v true disk = inl (λ k. refl)
view-save v false disk = inr (λ k. refl)

pub view-load :
    (disk : Disk) (v : Vault) → load disk ≡ ok v → (k : Bytes) → view disk k ≡ lookup k v.secrets
view-load disk v h k = ap (λ r. seen r k) h

-- saving a vault that is one step away from the one that was loaded
save-Steps :
    {p : Permission} (v v' : Vault) (can_save : Bool) (d disk : Disk)
    → d ≡ disk
    → load disk ≡ ok v
    → Step p (view disk) (λ k. lookup k v'.secrets)
    → Steps p (view (save v' can_save d).0) (view disk)
save-Steps v v' can_save d disk same h st = elim (view-save v' can_save d) [
  | inl e ↦ step (λ k. lookup k v'.secrets) st (kept e)
  | inr e ↦ kept (λ k. e k ∙ ap (λ x. view x k) same)
]

-- the other entries are as they were, whatever the vault was
pub set-stored :
    (disk : Disk) (v : Vault) (key : Bytes) (e : SecretEntry)
    → load disk ≡ ok v
    → (k : Bytes) → lookup k (set key e v).secrets ≡ (if key == k then some e else view disk k)
unfolding set
set-stored disk v key e h k = rw (view-load disk v h k) (lookup-insert key k e v.secrets)

-- `view` of a disk that loads
pub Steps-loaded :
    {p : Permission} (m' : View) (d : Disk) (v : Vault)
    → load d ≡ ok v
    → Steps p m' (λ k. lookup k v.secrets)
    → Steps p m' (view d)
Steps-loaded {p} m' d v h st = transport (ap (λ r. Steps p m' (seen r)) (sym h)) st

module _ {ℓ} {B : Type ℓ} where
  pub load_vault-loads :
      (s t : Session B) (v : Vault) → load_vault s ≡ (t, ok v) → load s.disk ≡ ok v
  unfolding load_vault
  load_vault-loads s t v h = ground arith

  pub saving :
      {p : Permission} (w : World) (d : Disk) (v v' : Vault) (s : Session B)
      → s.disk ≡ d
      → load d ≡ ok v
      → Step p (view d) (λ k. lookup k v'.secrets)
      → Reaches p d (save_vault w v' s)
  unfolding save_vault
  saving w d v v' s same h st = save-Steps v v' w.can_save s.disk d same h st
