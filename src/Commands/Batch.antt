-- ===== src/Commands/Batch.antt =====
-- cmd/alice/main.go, rekey.go and backfill.go: the commands that have Bob decrypt the whole vault.
use an_b.Base.{
  ℕ, Bool, true, ◌&&◌, List, [], ◌∷◌, Option, none, some, Bytes, Table, insert, if◌then◌else◌, ◌==◌,
  bytes_eq, nat_eq, length, map, map_err,
}
use an_b.Crypto.Version.{parse_version}
use an_b.Vault.{SecretEntry, Vault, get, set, apply_rewraps}
use an_b.Server.{Request}
use an_b.Client.{Reply}
use an_b.Commands.{
  World, Command, stdin_no_tty, panics, vault, ◌>>=◌, ◌>>◌, return, or_fail, require, load_vault,
  save_vault, load_client, write_back, decrypt_many,
}
use an_b.Commands.Secret.{epoch_of}

abbrev pub keys_of : Table Bytes SecretEntry → List Bytes
keys_of = map λ e. e.0

abbrev pub packed_of : Table Bytes SecretEntry → List Bytes
packed_of = map λ e. e.1.value

-- the loop `m[pts[i]] = keys[i]`; `none` where Bob's answer is too short, which panics
unfoldable pub values_to_keys :
    List Bytes → List Bytes → Table Bytes Bytes → Option (Table Bytes Bytes)
values_to_keys [] pts m = some m
values_to_keys (k ∷ keys) [] m = none
values_to_keys (k ∷ keys) (p ∷ pts) m = values_to_keys keys pts (insert p k m)

abbrev pub rewrap_at : Bool → List Bytes → Bytes × List Bytes
rewrap_at true (r ∷ rs) = (r, rs)
rewrap_at _ rs = ([], rs)

-- the entry with the metadata that the plaintext and the value have, and whether that is news
abbrev pub measured : (Bytes → ℕ) → Bytes → Bytes → SecretEntry → SecretEntry
measured estimate rewrap pt e =
    let value = if rewrap == [] then e.value else rewrap in
    record e {
      value = value;
      key_epoch = epoch_of (parse_version value);
      len_bytes = length pt;
      entropy_bits = estimate pt;
    }

abbrev pub is_complete : Bytes → SecretEntry → SecretEntry → Bool
is_complete rewrap e m =
    rewrap == []
    && (e.len_bytes == m.len_bytes
        && (e.entropy_bits == m.entropy_bits && e.key_epoch == m.key_epoch))

abbrev pub put_measured : (Bytes → ℕ) → Bytes → Bytes → Bytes → Option SecretEntry → Vault → Vault
put_measured estimate key rewrap pt none v = v
put_measured estimate key rewrap pt (some e) v =
    let m = measured estimate rewrap pt e in if is_complete rewrap e m then v else set key m v

-- The loop over the keys; `parallel`: as many values were sealed anew as there are keys. `none`
-- where Bob's answer is too short, which panics.
unfoldable pub measure_all :
    (Bytes → ℕ) → Bool → List Bytes → List Bytes → List Bytes → Vault → Option Vault
measure_all estimate parallel [] pts rewraps v = some v
measure_all estimate parallel (k ∷ keys) [] rewraps v = none
measure_all estimate parallel (k ∷ keys) (p ∷ pts) rewraps v =
    let (r, rs) = rewrap_at parallel rewraps in
    measure_all estimate parallel keys pts rs (put_measured estimate k r p (get v k) v)

module _ {ℓ} {B : Type ℓ} (ask : Request → B → B × Reply) where
  abbrev pub values_of_vault : World → Table Bytes SecretEntry → Command B (Table Bytes Bytes)
  values_of_vault w [] = return []
  values_of_vault w (e ∷ secrets) = do
    load_client w
    (pts, rewraps) ← decrypt_many ask [] (keys_of (e ∷ secrets)) (packed_of (e ∷ secrets))
    write_back w (keys_of (e ∷ secrets)) rewraps
    or_fail panics (values_to_keys (keys_of (e ∷ secrets)) pts [])

  unfoldable pub decrypt_all_values : World → Command B (Table Bytes Bytes)
  unfolding load_vault load_client decrypt_many write_back values_to_keys
  decrypt_all_values w = do v ← load_vault; values_of_vault w v.secrets

  -- applyRewraps where the caller fails with it
  unfoldable pub write_back_or_fail : World → List Bytes → List Bytes → Command B ℕ
  write_back_or_fail w keys rewraps s =
      let (disk, r) = apply_rewraps keys rewraps w.can_save s.disk in
      (record s { disk = disk }, map_err vault r)

  abbrev pub rekey_secrets : World → Bytes → Table Bytes SecretEntry → Command B ℕ
  rekey_secrets w reason [] = return 0
  rekey_secrets w reason (e ∷ secrets) = do
    load_client w
    (pts, rewraps) ← decrypt_many ask reason (keys_of (e ∷ secrets)) (packed_of (e ∷ secrets))
    write_back_or_fail w (keys_of (e ∷ secrets)) rewraps

  -- the number of values that were migrated
  unfoldable pub cmd_rekey : World → (reason : Bytes) → Command B ℕ
  unfolding load_vault load_client decrypt_many write_back_or_fail
  cmd_rekey w reason = do
    require w.stdin_tty stdin_no_tty
    v ← load_vault
    rekey_secrets w reason v.secrets

  abbrev pub backfill_secrets :
      (Bytes → ℕ) → World → Bytes → Vault → Table Bytes SecretEntry → Command B (Unit {0})
  backfill_secrets estimate w reason v [] = return tt
  backfill_secrets estimate w reason v (e ∷ secrets) = do
    load_client w
    (pts, rewraps) ← decrypt_many ask reason (keys_of (e ∷ secrets)) (packed_of (e ∷ secrets))
    v' ← or_fail panics (
        measure_all estimate (length rewraps == length (e ∷ secrets)) (keys_of (e ∷ secrets)) pts
          rewraps v)
    save_vault w v'

  unfoldable pub cmd_backfill_meta : (Bytes → ℕ) → World → (reason : Bytes) → Command B (Unit {0})
  unfolding load_vault load_client decrypt_many save_vault measure_all
  cmd_backfill_meta estimate w reason = do
    v ← load_vault
    backfill_secrets estimate w reason v v.secrets
