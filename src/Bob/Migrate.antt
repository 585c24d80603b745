-- ===== src/Bob/Migrate.antt =====
-- cmd/bob/migrate.go: `bob migrate-aad`, which binds each value of a vault to its name.
use an_b.Base.{
  ℕ, suc, zero, Bool, true, false, [], ◌∷◌, Option, none, some, Bytes, Table, lookup, Result, ok,
  err, nat_eq, bytes_eq,
}
use an_b.Crypto.{Error}
use an_b.Crypto.Packed.{Aead, seal_aad, open_aad}
use an_b.Crypto.Version.{pack_version, parse_version}
use an_b.Vault.{SecretEntry, Vault, VaultError, Disk, load, save}

pub data MigrateError : Type 0 where
  no_current_key cannot_backup : MigrateError
  bad_vault : VaultError → MigrateError
  bad_version : Bytes → Error → MigrateError
  retired : Bytes → ℕ → MigrateError
  not_decryptable : Bytes → MigrateError
  not_sealed : Bytes → Error → MigrateError

module _ (aead : Aead) where
  abbrev pub resealed :
      ℕ → Bytes → SecretEntry → Result Error Bytes → Result MigrateError (Option SecretEntry)
  resealed current name e (err f) = err (not_sealed name f)
  resealed current name e (ok sealed) = ok (some (record e { value = pack_version current sealed }))

  -- a value without additional data is sealed anew under the current key
  abbrev pub reseal :
      ℕ
      → Bytes
      → Bytes
      → SecretEntry
      → Option Bytes
      → Result Error Bytes
      → Result MigrateError (Option SecretEntry)
  reseal current cur_k name e random (err f) = err (not_decryptable name)
  reseal current cur_k name e random (ok pt) =
      resealed current name e (seal_aad aead cur_k pt name random)

  abbrev pub unless_bound :
      ℕ
      → Bytes
      → Bytes
      → SecretEntry
      → Option Bytes
      → Bytes
      → Bytes
      → Result Error Bytes
      → Result MigrateError (Option SecretEntry)
  unless_bound current cur_k name e random k body (ok pt) = ok none
  unless_bound current cur_k name e random k body (err f) =
      reseal current cur_k name e random (open_aad aead k body [])

  abbrev pub with_key :
      ℕ
      → Bytes
      → Bytes
      → SecretEntry
      → Option Bytes
      → ℕ
      → Bytes
      → Option Bytes
      → Result MigrateError (Option SecretEntry)
  with_key current cur_k name e random ver body none = err (retired name ver)
  with_key current cur_k name e random ver body (some k) =
      unless_bound current cur_k name e random k body (open_aad aead k body name)

  abbrev pub with_version :
      Table ℕ Bytes
      → ℕ
      → Bytes
      → Bytes
      → SecretEntry
      → Option Bytes
      → Result Error (ℕ × Bytes)
      → Result MigrateError (Option SecretEntry)
  with_version mks current cur_k name e random (err f) = err (bad_version name f)
  with_version mks current cur_k name e random (ok (ver, body)) =
      with_key current cur_k name e random ver body (lookup ver mks)

  -- the body of the loop: the new entry, or none where the value is bound already
  unfoldable pub migrate_entry :
      Table ℕ Bytes
      → ℕ
      → Bytes
      → Bytes
      → SecretEntry
      → Option Bytes
      → Result MigrateError (Option SecretEntry)
  migrate_entry mks current cur_k name e random =
      with_version mks current cur_k name e random (parse_version e.value)

  abbrev pub put_entry :
      Bytes
      → SecretEntry
      → Result MigrateError (Option SecretEntry)
      → Result MigrateError (Table Bytes SecretEntry × ℕ)
      → Result MigrateError (Table Bytes SecretEntry × ℕ)
  put_entry name e (err f) rest = err f
  put_entry name e (ok o) (err f) = err f
  put_entry name e (ok none) (ok (m, n)) = ok ((name, e) ∷ m, n)
  put_entry name e (ok (some e')) (ok (m, n)) = ok ((name, e') ∷ m, suc n)

  -- The loop over the entries, the n-th with the n-th nonce: the entries afterwards, and the number
  -- of those that were sealed anew. The names are distinct, so each is set where it stands.
  unfoldable pub migrate_entries :
      Table ℕ Bytes
      → ℕ
      → Bytes
      → (ℕ → Option Bytes)
      → ℕ
      → Table Bytes SecretEntry
      → Result MigrateError (Table Bytes SecretEntry × ℕ)
  unfolding migrate_entry
  migrate_entries mks current cur_k random n [] = ok ([], 0)
  migrate_entries mks current cur_k random n ((name, e) ∷ rest) =
      put_entry name e (migrate_entry mks current cur_k name e (random n))
        (migrate_entries mks current cur_k random (suc n) rest)

  abbrev pub saved : Disk × Result VaultError (Unit {0}) → ℕ → Disk × Result MigrateError ℕ
  saved (disk, ok u) n = (disk, ok n)
  saved (disk, err e) n = (disk, err (bad_vault e))

  abbrev pub save_migrated :
      Bool
      → Disk
      → Vault
      → Result MigrateError (Table Bytes SecretEntry × ℕ)
      → Disk × Result MigrateError ℕ
  save_migrated can_save disk v (err e) = (disk, err e)
  save_migrated can_save disk v (ok (m, zero)) = (disk, ok 0)
  save_migrated can_save disk v (ok (m, suc n)) =
      saved (save (record v { secrets = m }) can_save disk) (suc n)

  abbrev pub with_secrets :
      Table ℕ Bytes
      → ℕ
      → Bytes
      → (ℕ → Option Bytes)
      → Bool
      → Bool
      → Disk
      → Vault
      → Table Bytes SecretEntry
      → Disk × Result MigrateError ℕ
  with_secrets mks current cur_k random can_backup can_save disk v [] = (disk, ok 0)
  with_secrets mks current cur_k random false can_save disk v (e ∷ es) = (disk, err cannot_backup)
  with_secrets mks current cur_k random true can_save disk v (e ∷ es) =
      save_migrated can_save disk v (migrate_entries mks current cur_k random 0 (e ∷ es))

  abbrev pub with_vault :
      Table ℕ Bytes
      → ℕ
      → Bytes
      → (ℕ → Option Bytes)
      → Bool
      → Bool
      → Disk
      → Result VaultError Vault
      → Disk × Result MigrateError ℕ
  with_vault mks current cur_k random can_backup can_save disk (err e) = (disk, err (bad_vault e))
  with_vault mks current cur_k random can_backup can_save disk (ok v) =
      with_secrets mks current cur_k random can_backup can_save disk v v.secrets

  abbrev pub with_current :
      Table ℕ Bytes
      → ℕ
      → Option Bytes
      → (ℕ → Option Bytes)
      → Bool
      → Bool
      → Disk
      → Disk × Result MigrateError ℕ
  with_current mks current none random can_backup can_save disk = (disk, err no_current_key)
  with_current mks current (some cur_k) random can_backup can_save disk =
      with_vault mks current cur_k random can_backup can_save disk (load disk)

  -- from the unwrapped keys on
  unfoldable pub migrate_aad :
      Table ℕ Bytes
      → ℕ
      → (ℕ → Option Bytes)
      → (can_backup can_save : Bool) → Disk
      → Disk × Result MigrateError ℕ
  unfolding migrate_entries
  migrate_aad mks current random can_backup can_save disk =
      with_current mks current (lookup current mks) random can_backup can_save disk
