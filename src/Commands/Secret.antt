-- ===== src/Commands/Secret.antt =====
-- cmd/alice/sensitive.go: `alice set` and `alice get`.
pub mod Stored
pub mod RoundTrip
use an_b.Base.{
  ℕ, Bool, true, false, not, ◌&&◌, ◌||◌, List, [], ◌∷◌, Option, none, some, Bytes, Result, ok, err,
  if◌then◌else◌, ◌==◌, bytes_eq, length,
}
use an_b.Base.Int.{ℤ}
use an_b.Crypto.{Error}
use an_b.Crypto.Version.{parse_version}
use an_b.Vault.{SecretEntry, Vault, get, set}
use an_b.Exec.Env.{has_key_format}
use an_b.Server.{Request}
use an_b.Client.{Reply}
use an_b.Commands.{
  World, Command, usage, no_value_source, bad_key_format, generate_combined, not_found,
  excluded_flags, stdout_no_tty, ◌>>=◌, ◌>>◌, return, fail, lift, or_fail, require, print,
  load_vault, save_vault, load_client, write_back, encrypt, decrypt,
}
use an_b.Commands.Value.{SetFlags, read_value}

pub data Done : Type 0 where
  done cancelled : Done

-- `epoch, _, _ := crypto.ParseVersion(packed)`
abbrev pub epoch_of : Result Error (ℕ × Bytes) → ℕ
epoch_of (ok (epoch, body)) = epoch
epoch_of (err e) = 0

abbrev pub is_some {ℓ} : {A : Type ℓ} → Option A → Bool
is_some none = false
is_some (some a) = true

-- an overwritten entry keeps its date of creation, and its description where no new one is given
abbrev pub created_at : Bytes → Option SecretEntry → Bytes
created_at now none = now
created_at now (some e) = if e.created_at == [] then now else e.created_at

abbrev pub description : SetFlags → Option SecretEntry → Bytes
description f none = f.desc
description f (some e) = if f.desc_provided then f.desc else e.desc

-- the metadata of an entry is shown, or its value has been printed
pub data Shown : Type 0 where
  metadata : Bytes → SecretEntry → Shown
  revealed : Shown

pub record GetFlags : Type 0 where
  pub reveal : Bool
  pub as_json : Bool
  pub reason : Bytes

-- a terminal, or a flag that gives the value
abbrev pub has_source : World → SetFlags → Bool
has_source w f = w.stdin_tty || (f.from_stdin || (f.generate || not (f.from_env == [])))

abbrev pub is_combined : SetFlags → Bool
is_combined f = f.generate && (not (f.from_env == []) || f.from_stdin)

module _ {ℓ} {B : Type ℓ} (ask : Request → B → B × Reply) where
  module _ (generator : Bytes → ℤ → Option Bytes) (estimate : Bytes → ℕ) where
    -- the entry that is stored
    abbrev pub entry_for :
        World → SetFlags → Option SecretEntry → (value packed : Bytes) → SecretEntry
    entry_for w f existing value packed = record {
      value = packed;
      desc = description f existing;
      created_at = created_at (w.now 0) existing;
      updated_at = w.now 0;
      key_epoch = epoch_of (parse_version packed);
      len_bytes = length value;
      entropy_bits = estimate value;
    }

    abbrev pub store_value : World → SetFlags → Bytes → Vault → Option Bytes → Command B Done
    store_value w f key v none = return cancelled
    store_value w f key v (some value) = do
      load_client w
      packed ← encrypt ask [] key value
      save_vault w (set key (entry_for w f (get v key) value packed) v)
      return done

    unfoldable pub cmd_set : World → SetFlags → List Bytes → Command B Done
    unfolding load_vault save_vault load_client encrypt
    cmd_set w f (key ∷ []) = do
      require (has_source w f) no_value_source
      require (has_key_format key) bad_key_format
      require (not (is_combined f)) generate_combined
      v ← load_vault
      value ← lift (read_value generator w f (is_some (get v key)))
      store_value w f key v value
    cmd_set w f _ = fail usage

  -- `if rewrapped != "" { applyRewraps }`
  abbrev pub keep_rewrapped : World → Bytes → Bytes → Command B (Unit {0})
  keep_rewrapped w key [] = return tt
  keep_rewrapped w key (c ∷ r) = write_back w (key ∷ []) ((c ∷ r) ∷ [])

  abbrev pub show : World → GetFlags → Bytes → SecretEntry → Command B Shown
  show w f key e =
      if f.reveal && not f.as_json
      then (do
        require w.stdout_tty stdout_no_tty
        load_client w
        (pt, rewrapped) ← decrypt ask f.reason key e.value
        keep_rewrapped w key rewrapped
        print pt
        return revealed)
      else return (metadata key e)

  unfoldable pub cmd_get : World → GetFlags → List Bytes → Command B Shown
  unfolding load_vault load_client decrypt write_back
  cmd_get w f (key ∷ []) = do
    require (not (f.reveal && f.as_json)) excluded_flags
    v ← load_vault
    e ← or_fail not_found (get v key)
    show w f key e
  cmd_get w f _ = fail usage
