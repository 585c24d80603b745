-- ===== src/Bob/Bound.antt =====
-- cmd/bob/migrate.go: what `bob migrate-aad` leaves.
use an_b.Base.{
  ℕ, zero, suc, ◌≤◌, Bool, true, false, [], ◌∷◌, Option, none, some, Bytes, Table, lookup, Result,
  ok, err, All, refl, ◌≡◌, ◌≢◌, Bool-cases, sym, ap, inl, inr, ◌⊎◌, nat_eq, bytes_eq, arith,
  bind-eq-ok, or_fail, require, length, ◌==◌, ◌++◌, All-append,
}
use mathlib.Core.Path.{transport}
use an_b.Crypto.{Error, bad_hex, bad_nonce, bad_tag, bad_key, auth_failed}
use an_b.Crypto.Hex.{IsByte, hex_decode, hex_decode-IsByte}
use an_b.Crypto.Decimal.{max_int}
use an_b.Crypto.Packed.{Aead, seal_aad, open_aad, split_packed, usable_key, nonce_len, tag_len}
use an_b.Crypto.Packed.RoundTrip.{IsNonce}
use an_b.Crypto.Version.{parse_version}
use an_b.Keystore.Sealing.{Holds, seal-Holds}
use an_b.Vault.{SecretEntry, Vault, VaultError, Disk, load, save}
use an_b.Bob.Migrate.{
  MigrateError, resealed, reseal, unless_bound, with_key, with_version, migrate_entry, put_entry,
  migrate_entries, save_migrated, with_secrets, with_vault, migrate_aad,
}

module _ (aead : Aead) (mks : Table ℕ Bytes) where
  -- the value opens under its name, or without additional data
  pub record WasReadable (name pt packed : Bytes) : Type 0 where
    pub version : ℕ
    pub key : Bytes
    pub raw : Bytes
    pub parses : parse_version packed ≡ ok (version, raw)
    pub at : lookup version mks ≡ some key
    pub opens : (open_aad aead key raw name ≡ ok pt) ⊎ (open_aad aead key raw [] ≡ ok pt)

  -- the entry has the same plaintext as before, now bound to its name, and the same metadata
  pub record IsMigrated (name : Bytes) (e e' : SecretEntry) : Type 0 where
    pub plaintext : Bytes
    pub version : ℕ
    pub was : WasReadable name plaintext e.value
    pub is : Holds aead mks version name plaintext e'.value
    pub metadata : e' ≡ record e { value = e'.value }

  abbrev pub AllMigrated : Table Bytes SecretEntry → Table Bytes SecretEntry → Type 0
  AllMigrated [] [] = Unit
  AllMigrated ((name, e) ∷ before) ((name', e') ∷ now) =
      (name' ≡ name) × IsMigrated name e e' × AllMigrated before now
  AllMigrated _ _ = ⊥

  abbrev pub Outcome : Disk → Disk × Result MigrateError ℕ → Type 0
  Outcome disk (disk', err e) = disk' ≡ disk
  Outcome disk (disk', ok n) =
      (v : Vault) × (u : Vault) × (load disk ≡ ok v)
      × (load disk' ≡ ok u)
      × AllMigrated v.secrets u.secrets

module _ (aead : Aead) (mks : Table ℕ Bytes) (current : ℕ) (cur_k : Bytes)
    (at : lookup current mks ≡ some cur_k) (pos : 1 ≤ current) (fits : current ≤ max_int)
    (unseal_bytes : (k n s a p : Bytes)
      → All IsByte s
      → aead.unseal k n s a ≡ some p
      → All IsByte p) where
  or_fail-ok {ℓ κ} :
      {E : Type ℓ} {A : Type κ} (e : E) (o : Option A) (a : A) → or_fail e o ≡ ok a → o ≡ some a
  or_fail-ok e none a h = absurd (cc)
  or_fail-ok e (some b) a h = cc

  open_aad-bytes : (k raw a pt : Bytes) → open_aad aead k raw a ≡ ok pt → All IsByte pt
  unfolding open_aad
  open_aad-bytes k raw a pt h =
      let (parts, e1, h1) = bind-eq-ok (split_packed raw) _ h in
      let (iv, e2, h2) = bind-eq-ok (or_fail bad_hex (hex_decode parts.0)) _ h1 in
      let (tag, e3, h3) = bind-eq-ok (or_fail bad_hex (hex_decode parts.1)) _ h2 in
      let (ct, e4, h4) = bind-eq-ok (or_fail bad_hex (hex_decode parts.2)) _ h3 in
      let (u5, e5, h5) = bind-eq-ok (require (length iv == nonce_len) bad_nonce) _ h4 in
      let (u6, e6, h6) = bind-eq-ok (require (length tag == tag_len) bad_tag) _ h5 in
      let (u7, e7, h7) = bind-eq-ok (require (usable_key k) bad_key) _ h6 in
      unseal_bytes k iv (ct ++ tag) a pt
        (All-append IsByte ct tag (hex_decode-IsByte parts.2 ct (or_fail-ok bad_hex _ ct e4))
          (hex_decode-IsByte parts.1 tag (or_fail-ok bad_hex _ tag e3)))
        (or_fail-ok auth_failed _ pt h7)

  no_random : (k pt name raw : Bytes) → seal_aad aead k pt name none ≢ ok raw
  unfolding seal_aad
  no_random k pt name raw h = elim (Bool-cases (usable_key k)) [
    | inl e ↦ cc (rw e at h)
    | inr e ↦ cc (rw e at h)
  ]

  module _ (name : Bytes) (e : SecretEntry) where
    abbrev now : Option SecretEntry → SecretEntry
    now none = e
    now (some e') = e'

    abbrev Migrates : Result MigrateError (Option SecretEntry) → Type 0
    Migrates (err f) = Unit
    Migrates (ok o) = IsMigrated aead mks name e (now o)

    module _ (ver : ℕ) (k body : Bytes) (parses : parse_version e.value ≡ ok (ver, body))
        (held : lookup ver mks ≡ some k) where
      resealed-Migrates :
          (pt : Bytes) (random : Option Bytes) (r : Result Error Bytes)
          → ((iv : Bytes) → random ≡ some iv → IsNonce iv)
          → open_aad aead k body [] ≡ ok pt
          → seal_aad aead cur_k pt name random ≡ r
          → Migrates (resealed aead current name e r)
      resealed-Migrates pt random (err f) nonce opens sealed = tt
      resealed-Migrates pt none (ok raw) nonce opens sealed =
          absurd (no_random cur_k pt name raw sealed)
      resealed-Migrates pt (some iv) (ok raw) nonce opens sealed = record {
        plaintext = pt;
        version = current;
        was = record {
          version = ver;
          key = k;
          raw = body;
          parses = parses;
          at = held;
          opens = inr opens;
        };
        is =
            seal-Holds aead mks current name pt cur_k iv raw pos fits at
              (open_aad-bytes k body [] pt opens) (nonce iv refl) sealed;
        metadata = refl;
      }

      reseal-Migrates :
          (random : Option Bytes) (r : Result Error Bytes)
          → ((iv : Bytes) → random ≡ some iv → IsNonce iv)
          → open_aad aead k body [] ≡ r
          → Migrates (reseal aead current cur_k name e random r)
      reseal-Migrates random (err f) nonce opens = tt
      reseal-Migrates random (ok pt) nonce opens =
          resealed-Migrates pt random (seal_aad aead cur_k pt name random) nonce opens refl

      unless_bound-Migrates :
          (random : Option Bytes) (r : Result Error Bytes)
          → ((iv : Bytes) → random ≡ some iv → IsNonce iv)
          → open_aad aead k body name ≡ r
          → Migrates (unless_bound aead current cur_k name e random k body r)
      unless_bound-Migrates random (err f) nonce opens =
          reseal-Migrates random (open_aad aead k body []) nonce refl
      unless_bound-Migrates random (ok pt) nonce opens = record {
        plaintext = pt;
        version = ver;
        was = record {
          version = ver;
          key = k;
          raw = body;
          parses = parses;
          at = held;
          opens = inl opens;
        };
        is = record {
          key = k;
          raw = body;
          at = held;
          parses = parses;
          opens = opens;
          bytes = open_aad-bytes k body name pt opens;
        };
        metadata = refl;
      }

    with_key-Migrates :
        (ver : ℕ) (body : Bytes) (random o : Option Bytes)
        → parse_version e.value ≡ ok (ver, body)
        → ((iv : Bytes) → random ≡ some iv → IsNonce iv)
        → lookup ver mks ≡ o
        → Migrates (with_key aead current cur_k name e random ver body o)
    with_key-Migrates ver body random none parses nonce held = tt
    with_key-Migrates ver body random (some k) parses nonce held =
        unless_bound-Migrates ver k body parses held random (open_aad aead k body name) nonce refl

    with_version-Migrates :
        (random : Option Bytes) (r : Result Error (ℕ × Bytes))
        → ((iv : Bytes) → random ≡ some iv → IsNonce iv)
        → parse_version e.value ≡ r
        → Migrates (with_version aead mks current cur_k name e random r)
    with_version-Migrates random (err f) nonce parses = tt
    with_version-Migrates random (ok (ver, body)) nonce parses =
        with_key-Migrates ver body random (lookup ver mks) parses nonce refl

    migrate_entry-Migrates :
        (random : Option Bytes)
        → ((iv : Bytes) → random ≡ some iv → IsNonce iv)
        → Migrates (migrate_entry aead mks current cur_k name e random)
    unfolding migrate_entry
    migrate_entry-Migrates random nonce =
        with_version-Migrates random (parse_version e.value) nonce refl

  -- the entries that the loop gives, and that a count of zero leaves them as they were
  abbrev AllMigrates :
      Table Bytes SecretEntry → Result MigrateError (Table Bytes SecretEntry × ℕ) → Type 0
  AllMigrates es (err f) = Unit
  AllMigrates es (ok (m, n)) = AllMigrated aead mks es m × (n ≡ 0 → m ≡ es)

  put_entry-AllMigrates :
      (name : Bytes) (e : SecretEntry) (es : Table Bytes SecretEntry)
      (o : Result MigrateError (Option SecretEntry))
      (rest : Result MigrateError (Table Bytes SecretEntry × ℕ))
      → Migrates name e o
      → AllMigrates es rest
      → AllMigrates ((name, e) ∷ es) (put_entry aead name e o rest)
  put_entry-AllMigrates name e es (err f) rest h a = tt
  put_entry-AllMigrates name e es (ok o) (err f) h a = tt
  put_entry-AllMigrates name e es (ok none) (ok (m, n)) h (a, z) =
      ((refl, h, a), λ zero_n. ap (λ t. (name, e) ∷ t) (z zero_n))
  put_entry-AllMigrates name e es (ok (some e')) (ok (m, n)) h (a, z) =
      ((refl, h, a), λ zero_n. absurd (omega arith))

  module _ (random : ℕ → Option Bytes)
      (nonces : (n : ℕ) (iv : Bytes) → random n ≡ some iv → IsNonce iv) where
    migrate_entries-AllMigrates :
        (n : ℕ) (es : Table Bytes SecretEntry)
        → AllMigrates es (migrate_entries aead mks current cur_k random n es)
    unfolding migrate_entries
    migrate_entries-AllMigrates n [] = (tt, λ z. refl)
    migrate_entries-AllMigrates n ((name, e) ∷ es) =
        put_entry-AllMigrates name e es (migrate_entry aead mks current cur_k name e (random n))
          (migrate_entries aead mks current cur_k random (suc n) es)
          (migrate_entry-Migrates name e (random n) (nonces n))
          (migrate_entries-AllMigrates (suc n) es)

    save_migrated-Outcome :
        (can_save : Bool) (disk : Disk) (v : Vault)
        (r : Result MigrateError (Table Bytes SecretEntry × ℕ))
        → load disk ≡ ok v
        → AllMigrates v.secrets r
        → Outcome aead mks disk (save_migrated aead can_save disk v r)
    unfolding save load
    save_migrated-Outcome can_save disk v (err f) h a = refl
    save_migrated-Outcome can_save disk v (ok (m, zero)) h (a, z) =
        (v, v, h, h, transport (ap (AllMigrated aead mks v.secrets) (z refl)) a)
    save_migrated-Outcome true disk v (ok (m, suc n)) h (a, z) =
        (v, record { version = 1; secrets = m }, h, refl, a)
    save_migrated-Outcome false disk v (ok (m, suc n)) h (a, z) = refl

    with_secrets-Outcome :
        (can_backup can_save : Bool) (disk : Disk) (v : Vault) (es : Table Bytes SecretEntry)
        → load disk ≡ ok v
        → v.secrets ≡ es
        → Outcome aead mks disk
            (with_secrets aead mks current cur_k random can_backup can_save disk v es)
    with_secrets-Outcome can_backup can_save disk v [] h same =
        (v, v, h, h, transport (ap (λ t. AllMigrated aead mks t t) (sym same)) tt)
    with_secrets-Outcome false can_save disk v (e ∷ es) h same = refl
    with_secrets-Outcome true can_save disk v (e ∷ es) h same =
        save_migrated-Outcome can_save disk v
          (migrate_entries aead mks current cur_k random 0 (e ∷ es)) h
          (transport
            (ap (λ t. AllMigrates t (migrate_entries aead mks current cur_k random 0 (e ∷ es)))
              (sym same))
            (migrate_entries-AllMigrates 0 (e ∷ es)))

    with_vault-Outcome :
        (can_backup can_save : Bool) (disk : Disk) (r : Result VaultError Vault)
        → load disk ≡ r
        → Outcome aead mks disk
            (with_vault aead mks current cur_k random can_backup can_save disk r)
    with_vault-Outcome can_backup can_save disk (err f) h = refl
    with_vault-Outcome can_backup can_save disk (ok v) h =
        with_secrets-Outcome can_backup can_save disk v v.secrets h refl

    -- `bob migrate-aad`, with a current key whose version is positive and fits an int, nonces of twelve
    -- bytes, and a cipher that opens bytes to bytes: where it fails, the vault file is as it was. Where it
    -- ends well, the vault has the same names in the same order, and the value of each opens under its
    -- name to the plaintext that the value of before had, while the other fields are kept.
    pub migrate_aad-Outcome :
        (can_backup can_save : Bool) (disk : Disk)
        → Outcome aead mks disk (migrate_aad aead mks current random can_backup can_save disk)
    unfolding migrate_aad
    migrate_aad-Outcome can_backup can_save disk =
        rw at (with_vault-Outcome can_backup can_save disk (load disk) refl)
