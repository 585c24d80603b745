-- ===== src/Examples/Keys.antt =====
-- The laws of the envelope file, of the rotation and of the vault, at concrete inputs.
use an_b.Base.{
  ℕ, ◌+◌, ◌%◌, ◌<◌, ◌≤◌, true, [], ◌∷◌, none, some, Bytes, codes, Table, lookup, insert, Result, ok,
  err, length, replicate, ◌≡◌, ◌≢◌, refl, arith, All, if◌then◌else◌, ◌==◌, nat_eq, list_beq,
  contents,
}
use an_b.Crypto.{Error}
use an_b.Crypto.Hex.{hex_encode, hex_digit, hex_decode}
use an_b.Crypto.Packed.{usable_key, seal_aad, open_aad}
use an_b.Crypto.Decimal.{max_int}
use an_b.Crypto.Envelope.{Envelope, EnvelopeFile, find_key, next_id, remove_envelope, cut_key}
use an_b.Crypto.Envelope.Laws.{next_id-fresh, remove_envelope-keeps}
use an_b.Crypto.Wrap.{Kdf, wrap, unwrap, IsRandom, default_params, unwrap-wrap}
use an_b.Rotate.{Randomness, load_and_unwrap, unwrap_all, rotate_key, rewrap_all}
use an_b.Rotate.Kept.{Opens, rotate_key-Opens, rewrap_all-Opens}
use an_b.Vault.{SecretEntry, Vault, load, apply_rewraps}
use an_b.Vault.Rewraps.{Leaves, apply_rewraps-Kept}
use an_b.Examples.{sum_aead, key_one, key_two, nonce_one, sum, all_bytes-IsByte}

pub length-same : (c : ℕ) → length (replicate 32 c) ≡ 32
length-same c = refl

-- a stand-in for Argon2id: a check sum, over and over
abbrev pub sum_kdf : Kdf
sum_kdf = record {
  derive = λ password salt p. replicate 32 ((sum password + sum salt) % 256);
  encode = λ s. s;
  decode = λ s. some s;
  length-derive = λ password salt p. length-same ((sum password + sum salt) % 256);
  decode-encode = λ s h. refl;
}

abbrev pub password : Bytes
password = codes "correct horse"

abbrev pub salt_one : Bytes
salt_one = replicate 16 3

pub drawn : IsRandom sum_aead sum_kdf salt_one nonce_one
drawn = (all_bytes-IsByte salt_one refl, (refl, all_bytes-IsByte nonce_one refl))

unwrap-wrap_example :
    (env : Envelope) × (wrap sum_aead sum_kdf key_one password (some salt_one) (some nonce_one)
      ≡ ok env)
    × (unwrap sum_aead sum_kdf env password ≡ ok key_one)
unwrap-wrap_example =
    unwrap-wrap sum_aead sum_kdf key_one password salt_one nonce_one refl
      (all_bytes-IsByte key_one refl) drawn

abbrev env_of : Result Error Envelope → Envelope
env_of (ok e) = record e { id = 1; created = codes "2026" }
env_of (err e) = record {
  id = 0;
  created = [];
  salt = [];
  params = default_params;
  iv = [];
  tag = [];
  wrapped = [];
}

abbrev env_one : Envelope
env_one = env_of (wrap sum_aead sum_kdf key_one password (some salt_one) (some nonce_one))

abbrev file : EnvelopeFile
file = record { version = 3; keys = env_one ∷ []; current = 1 }

abbrev file_two : EnvelopeFile
file_two = record { version = 3; keys = env_one ∷ record env_one { id = 2 } ∷ []; current = 2 }

next_id-fresh_example :
    (find_key file_two.keys (next_id file_two.keys) ≡ none)
    × (0 < next_id file_two.keys)
    × (next_id file_two.keys ≤ max_int)
    × All (λ e. e.id < next_id file_two.keys) file_two.keys
unfolding wrap seal_aad usable_key
next_id-fresh_example = next_id-fresh file_two.keys (omega arith)

abbrev file_less : EnvelopeFile
file_less = record { version = 3; keys = record env_one { id = 2 } ∷ []; current = 2 }

file_less-removed : remove_envelope file_two 1 ≡ ok file_less
unfolding remove_envelope cut_key wrap seal_aad usable_key
file_less-removed = refl

remove_envelope-keeps_example :
    (◌≢◌ {A = ℕ} 1 2) × (◌≡◌ {A = ℕ} 2 2) × (find_key file_less.keys 2 ≡ find_key file_two.keys 2)
remove_envelope-keeps_example =
    remove_envelope-keeps file_two file_less 1 2 (λ e. omega arith) file_less-removed

abbrev held : Table ℕ Bytes
held = (1, key_one) ∷ []

abbrev random : Randomness
random n = (some salt_one, some nonce_one)

file-loaded :
    load_and_unwrap sum_aead sum_kdf (some (ok file)) (some password) ≡ ok (file, password)
unfolding load_and_unwrap find_key wrap unwrap open_aad seal_aad usable_key hex_encode hex_digit sum
    hex_decode list_beq
file-loaded = refl

file-opened : unwrap_all sum_aead sum_kdf file.keys password [] ≡ ok held
unfolding unwrap_all insert wrap unwrap open_aad seal_aad usable_key hex_encode hex_digit sum
    hex_decode list_beq
file-opened = refl

rotate_key-Opens_example :
    (g : EnvelopeFile) × (rotate_key sum_aead sum_kdf
        (some (ok file))
        (some password)
        (some key_two)
        (codes "2027")
        random
        true
      ≡ ok g)
    × (g.current ≡ next_id file.keys)
    × Opens sum_aead sum_kdf password
        (if next_id file.keys == 1 then some key_two else lookup 1 held)
        (find_key g.keys 1)
rotate_key-Opens_example =
    rotate_key-Opens sum_aead sum_kdf (some (ok file)) (some password) file password key_two
      (codes "2027") held random 1 file-loaded file-opened (refl, all_bytes-IsByte key_one refl, tt)
      refl (all_bytes-IsByte key_two refl) (λ n. (salt_one, nonce_one, refl, drawn))

abbrev entry : SecretEntry
entry = record {
  value = codes "v1:00";
  desc = codes "the db";
  created_at = codes "2025";
  updated_at = [];
  key_epoch = 1;
  len_bytes = 7;
  entropy_bits = 40;
}

abbrev vault : Vault
vault = record { version = 1; secrets = (codes "db", entry) ∷ (codes "api", entry) ∷ [] }

vault-loaded : load (contents (some vault)) ≡ ok vault
unfolding load
vault-loaded = refl

apply_rewraps-Kept_example :
    Leaves
      (codes "db" ∷ [])
      (codes "api")
      vault
      (apply_rewraps (codes "db" ∷ []) (codes "v2:01" ∷ []) true (contents (some vault))).0
apply_rewraps-Kept_example =
    apply_rewraps-Kept (codes "db" ∷ []) (codes "v2:01" ∷ []) true (contents (some vault)) vault
      (codes "api") vault-loaded

rewrap_all-Opens_example :
    (g : EnvelopeFile) × (rewrap_all sum_aead sum_kdf file (codes "2027") held password random
      ≡ ok g)
    × (g.current ≡ file.current)
    × Opens sum_aead sum_kdf password (lookup 1 held) (find_key g.keys 1)
rewrap_all-Opens_example =
    rewrap_all-Opens sum_aead sum_kdf file (codes "2027") password held random 1
      (λ n. (salt_one, nonce_one, refl, drawn)) (refl, all_bytes-IsByte key_one refl, tt)
