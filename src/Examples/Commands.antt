-- ===== src/Examples/Commands.antt =====
-- The laws of alice's commands, at concrete inputs: alice's vault is new, and Bob's server is behind
-- the connection.
use an_b.Base.{
  insert, ◌⊎◌, inl, inr, ◌+◌, ◌≤◌, length, Result, err, ◌↔◌, index_byte, ℕ, Bool, true, false, List,
  [], ◌∷◌, ◌++◌, Option, none, some, Bytes, codes, ok, not_exist, ◌≡◌, refl, arith, list_beq,
  has_prefix, lookup, ◌==◌, bytes_eq,
}
use an_b.Base.Int.{ℤ, pos}
use an_b.Authz
use an_b.Crypto.Packed.{seal_aad, usable_key}
use an_b.Keystore.{encrypt_result}
use an_b.Keystore
use an_b.Server.{
  Request, Response, World as BobWorld, dispatch, dispatch_kind, kind_of, do_encrypt, guard,
}
use an_b.Server.RateLimiter.{allow}
use an_b.Server.Messages.{decrypt_request}
use an_b.Server.Exchange.{Peer, ask}
use an_b.Server.Wire.{Json, IsJson, handle_line, max_req_bytes, utf8_from, following}
use an_b.Client
use an_b.Client.{Reply, response, call}
use an_b.Crypto.Version.{pack_version}
use an_b.Crypto.Decimal.{itoa}
use an_b.Crypto.Hex.{hex_encode, hex_digit}
use an_b.Vault.{SecretEntry, VaultError, Vault, set, load, save, get}
use an_b.Commands
use an_b.Commands.{Session, World, load_vault, save_vault, load_client}
use an_b.Commands.Value.{SetFlags, read_value, confirm_overwrite}
use an_b.Commands.Secret.{done, cmd_set, cmd_get, GetFlags, revealed}
use an_b.Commands.Secret.Stored.{Stores, cmd_set-Stores}
use an_b.Commands.Secret.RoundTrip.{IsReady, set-get}
use an_b.Commands.Main.{Invocation, set_key, remove_keys, describe, init_vault, run_all}
use an_b.Commands.Refinement.{view}
use an_b.Commands.Refinement.Runs.{Trace, run_all-refines}
use an_b.Exec.Env.{all_key_bytes}
use an_b.Redact.Placeholder.{is_key, ends_well}
use an_b.Rules.Lint.Dots.{has_unescaped_dot, cut_before}
use an_b.Rules.Lint.Flanked.{IsFlanked, has_unescaped_dot_iff}
use an_b.Examples.{sum_aead, nonce_one}
use an_b.Examples.Sealing.{secret, name, secret-bytes, nonce_one-IsNonce}
use an_b.Examples.Bob.{alice, server, world}

-- lines that are the messages, with room for the names of the fields
abbrev Message : Type 0
Message = Request ⊎ Response

abbrev request_in : Message → Option Request
request_in (inl q) = some q
request_in (inr r) = none

abbrev response_in : Message → Option Response
response_in (inl q) = none
response_in (inr r) = some r

abbrev line_size : Message → ℕ
line_size (inl q) = 100 + length q.key + length q.plaintext + length q.packed + length q.reason
line_size (inr r) = 100 + length r.plaintext + length r.packed

abbrev plain_json : Json Message
plain_json = record {
  write_request = λ q. inl q;
  read_request = request_in;
  write_response = λ r. inr r;
  read_response = response_in;
  size = line_size;
}

plain_json-IsJson : IsJson plain_json
plain_json-IsJson = record { request_back = λ q h. refl; response_back = λ r h. refl }

abbrev worlds : ℕ → BobWorld
worlds n = world

-- the value is in the environment, and all files are there
abbrev pub here : World
here = record {
  stdin_tty = true;
  stdout_tty = true;
  confirmed = true;
  stdin = [];
  getenv = λ n. secret;
  password = none;
  now = λ n. codes "2026";
  can_save = true;
  has_config = true;
  has_certificate = true;
  has_client_key = true;
  has_ca = true;
  makes_client = true;
}

abbrev flags : SetFlags
flags = record {
  desc = codes "the db";
  desc_provided = true;
  from_env = codes "DB_PASS";
  from_stdin = false;
  force = false;
  generate = false;
  style = [];
  size = pos 0;
}

abbrev before : Session Peer
before = record { disk = not_exist; printed = []; peer = (server, 0) }

abbrev generator : Bytes → ℤ → Option Bytes
generator style size = none

abbrev estimate : Bytes → ℕ
estimate value = 40

abbrev after : Session Peer
after =
    (cmd_set (ask plain_json sum_aead alice worlds) generator estimate here flags (name ∷ [])
      before).0

set-done :
    cmd_set (ask plain_json sum_aead alice worlds) generator estimate here flags (name ∷ []) before
    ≡ (after, ok done)
unfolding cmd_set load_vault load_client save_vault save load get Commands.encrypt Client.encrypt
    call ask handle_line dispatch dispatch_kind kind_of list_beq do_encrypt guard Authz.allowed
    lookup has_prefix Keystore.encrypt encrypt_result seal_aad usable_key read_value
    confirm_overwrite all_key_bytes is_key ends_well
set-done = refl

abbrev empty : Vault
empty = record { version = 1; secrets = [] }

cmd_set-Stores_example :
    Stores (ask plain_json sum_aead alice worlds) generator estimate here flags name before after
cmd_set-Stores_example =
    cmd_set-Stores (ask plain_json sum_aead alice worlds) generator estimate here flags name before
      after set-done

abbrev vault_in : Result VaultError Vault → Vault
vault_in (ok v) = v
vault_in (err e) = empty

abbrev entry_in : Option SecretEntry → SecretEntry
entry_in (some e) = e
entry_in none = record {
  value = [];
  desc = [];
  created_at = [];
  updated_at = [];
  key_epoch = 0;
  len_bytes = 0;
  entropy_bits = 0;
}

abbrev stored_vault : Vault
stored_vault = vault_in (load after.disk)

abbrev stored_entry : SecretEntry
stored_entry = entry_in (get stored_vault name)

stored_vault-loads : load after.disk ≡ ok stored_vault
unfolding cmd_set load_vault load_client save_vault save load get Commands.encrypt Client.encrypt
    call ask handle_line dispatch dispatch_kind kind_of list_beq do_encrypt guard Authz.allowed
    lookup has_prefix Keystore.encrypt encrypt_result seal_aad usable_key read_value
    confirm_overwrite all_key_bytes is_key ends_well
stored_vault-loads = refl

stored_entry-there : get stored_vault name ≡ some stored_entry
unfolding cmd_set load_vault load_client save_vault save load get Commands.encrypt Client.encrypt
    call ask handle_line dispatch dispatch_kind kind_of list_beq do_encrypt guard Authz.allowed
    lookup has_prefix Keystore.encrypt encrypt_result seal_aad usable_key read_value
    confirm_overwrite all_key_bytes is_key ends_well insert set
stored_entry-there = refl

get_request-fits :
    line_size (inl (decrypt_request (codes "deploy") name stored_entry.value)) ≤ max_req_bytes
unfolding cmd_set load_vault load_client save_vault save load get Commands.encrypt Client.encrypt
    call ask handle_line dispatch dispatch_kind kind_of list_beq do_encrypt guard Authz.allowed
    lookup has_prefix Keystore.encrypt encrypt_result seal_aad usable_key read_value
    confirm_overwrite all_key_bytes is_key ends_well insert set pack_version itoa hex_encode
    hex_digit
get_request-fits = omega arith

here-IsReady : IsReady here
here-IsReady = record {
  terminal = refl;
  config = refl;
  certificate = refl;
  client_key = refl;
  ca = refl;
  client = refl;
}

abbrev reveal : GetFlags
reveal = record { reveal = true; as_json = false; reason = codes "deploy" }

chosen : read_value generator here flags false ≡ ok (some secret)
unfolding read_value confirm_overwrite list_beq
chosen = refl

set-get_example :
    (Authz.allowed server.policy alice name ≡ true)
    × ((u : Session Peer) × (cmd_get
            (ask plain_json sum_aead alice worlds)
            here
            reveal
            (name ∷ [])
            after
          ≡ (u, ok revealed))
        × (u.printed ≡ after.printed ++ (secret ∷ [])))
unfolding lookup load utf8_from following
set-get_example =
    set-get plain_json plain_json-IsJson sum_aead alice worlds generator estimate here here flags
      reveal name secret nonce_one empty stored_vault stored_entry before after set-done refl
      (unfold get lookup in chosen) secret-bytes refl refl refl nonce_one-IsNonce (omega arith)
      (unfold allow in refl) here-IsReady refl refl refl stored_vault-loads stored_entry-there
      get_request-fits

abbrev glob : Bytes → Bytes → Bool
glob pat k = pat == k

abbrev runs : List (World × Invocation)
runs =
    (here, init_vault)
    ∷ (here, set_key flags (name ∷ []))
    ∷ (here, describe false (name ∷ codes "new" ∷ []))
    ∷ (here, remove_keys true (name ∷ []))
    ∷ []

run_all-refines_example :
    Trace glob runs (view before.disk) (
      view
        (run_all (ask plain_json sum_aead alice worlds) generator estimate glob runs before).disk)
run_all-refines_example =
    run_all-refines (ask plain_json sum_aead alice worlds) generator estimate glob runs before

abbrev dotted : Bytes
dotted = codes "/usr/.bin/x"

has_unescaped_dot_iff_example :
    (has_unescaped_dot dotted ≡ true) ↔ IsFlanked [] (cut_before dotted (index_byte b'\t' dotted))
has_unescaped_dot_iff_example = has_unescaped_dot_iff dotted
