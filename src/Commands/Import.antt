-- ===== src/Commands/Import.antt =====
-- cmd/alice/sensitive.go: `alice import`, the entries of a .env file.
use an_b.Base.{
  ℕ, suc, zero, Bool, true, false, ◌||◌, List, [], ◌∷◌, Option, none, some, Bytes, codes, Result,
  ok, err, if◌then◌else◌, ◌==◌, bytes_eq, nat_eq, split, trim_space, has_prefix, index_byte, take,
  drop, ltb, length, replace_byte,
}
use an_b.Base.Int.{ℤ, to_ℕ}
use an_b.Vault.{SecretEntry, Vault, set}
use an_b.Rules.{contains}
use an_b.Rules.Parse.{is_env_name}
use an_b.Exec.Run.{to_lower}
use an_b.Redact.Candidates.{is_quote}
use an_b.Server.{Request}
use an_b.Client.{Reply}
use an_b.Commands.{
  World, Command, CommandError, file_not_found, refuse_without_yes, ◌>>=◌, ◌>>◌, return, lift,
  or_fail, load_vault, save_vault, load_client, encrypt,
}
use an_b.Commands.Secret.{Done, done, cancelled}

-- an entry of the file, and whether it is skipped
pub record Candidate : Type 0 where
  pub env_key : Bytes
  pub vault_key : Bytes
  pub value : Bytes
  pub skip : Bool

abbrev pub common : List Bytes
common =
    codes "true"
    ∷ codes "false"
    ∷ codes "null"
    ∷ codes "undefined"
    ∷ codes "localhost"
    ∷ codes "0.0.0.0"
    ∷ codes "127.0.0.1"
    ∷ codes "development"
    ∷ codes "production"
    ∷ codes "staging"
    ∷ codes "test"
    ∷ []

unfoldable pub trim_quotes_left : Bytes → Bytes
trim_quotes_left [] = []
trim_quotes_left (c ∷ s) = let rest = trim_quotes_left s in if is_quote c then rest else c ∷ s

-- a quote in front of nothing is dropped
abbrev cons_unless_last_quote : ℕ → Bytes → Bytes
cons_unless_last_quote c [] = if is_quote c then [] else c ∷ []
cons_unless_last_quote c (d ∷ s) = c ∷ d ∷ s

unfoldable pub trim_quotes_right : Bytes → Bytes
trim_quotes_right [] = []
trim_quotes_right (c ∷ s) = cons_unless_last_quote c (trim_quotes_right s)

-- strings.Trim of the quotes
unfoldable pub trim_quotes : Bytes → Bytes
unfolding trim_quotes_left trim_quotes_right
trim_quotes s = trim_quotes_right (trim_quotes_left s)

unfoldable pub vault_key_of : Bytes → Bytes
vault_key_of env_key = to_lower (replace_byte b'_' (b'-' ∷ []) env_key)

abbrev pub candidate_at : ℤ → Bytes → Option ℕ → Option Candidate
candidate_at min_len t none = none
candidate_at min_len t (some zero) = none
candidate_at min_len t (some (suc i)) =
    let env_key = trim_space (take (suc i) t) in
    let value = trim_quotes (trim_space (drop (suc (suc i)) t)) in
    if is_env_name env_key
    then some (record {
      env_key = env_key;
      vault_key = vault_key_of env_key;
      value = value;
      skip = ltb (length value) (to_ℕ min_len) || contains (to_lower value) common;
    })
    else none

-- a line of the file, where it is an entry
unfoldable pub candidate_of : ℤ → Bytes → Option Candidate
unfolding trim_quotes vault_key_of
candidate_of min_len line =
    let t = trim_space line in
    if t == [] || has_prefix t (codes "#") then none else candidate_at min_len t (index_byte b'=' t)

abbrev cons_some : Option Candidate → List Candidate → List Candidate
cons_some none cs = cs
cons_some (some c) cs = c ∷ cs

unfoldable pub candidates : ℤ → List Bytes → List Candidate
unfolding candidate_of
candidates min_len [] = []
candidates min_len (line ∷ lines) = cons_some (candidate_of min_len line) (candidates min_len lines)

unfoldable pub to_import : List Candidate → List Candidate
to_import [] = []
to_import (c ∷ cs) = let rest = to_import cs in if c.skip then rest else c ∷ rest

abbrev pub imported_entry : Bytes → Bytes → SecretEntry
imported_entry packed now = record {
  value = packed;
  desc = [];
  created_at = now;
  updated_at = [];
  key_epoch = 0;
  len_bytes = 0;
  entropy_bits = 0;
}

abbrev pub confirmed_import : World → Bool → Result CommandError Bool
confirmed_import w yes_flag =
    if yes_flag then ok true else if w.stdin_tty then ok w.confirmed else err refuse_without_yes

module _ {ℓ} {B : Type ℓ} (ask : Request → B → B × Reply) where
  -- the loop that seals the values; the n-th reads the n-th time
  unfoldable pub seal_all : World → ℕ → List Candidate → Vault → Command B Vault
  unfolding encrypt
  seal_all w n [] v = return v
  seal_all w n (c ∷ cs) v = do
    packed ← encrypt ask [] c.vault_key c.value
    seal_all w (suc n) cs (set c.vault_key (imported_entry packed (w.now n)) v)

  abbrev pub import_confirmed : World → Vault → List Candidate → Bool → Command B Done
  import_confirmed w v cs false = return cancelled
  import_confirmed w v cs true = do
    load_client w
    v' ← seal_all w 0 cs v
    save_vault w v'
    return done

  -- with nothing to import the command says so and ends well
  abbrev pub import_candidates : World → Bool → Vault → List Candidate → Command B Done
  import_candidates w yes_flag v [] = return cancelled
  import_candidates w yes_flag v (c ∷ cs) = do
    go ← lift (confirmed_import w yes_flag)
    import_confirmed w v (c ∷ cs) go

  -- `file` is what os.ReadFile gives of the file
  unfoldable pub cmd_import : World → ℤ → Bool → (file : Option Bytes) → Command B Done
  unfolding load_vault load_client save_vault candidates to_import
  cmd_import w min_len yes_flag file = do
    raw ← or_fail file_not_found file
    v ← load_vault
    import_candidates w yes_flag v (to_import (candidates min_len (split b'\n' raw)))
