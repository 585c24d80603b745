-- ===== src/Examples/Boot.antt =====
-- Pairing, and the commands `bob init` and `bob serve`, at concrete inputs.
use an_b.Base.{
  Table, lookup, contents, All, Bool-cases, inl, inr, ◌-◌, ◌==◌, bytes_eq, nat_eq, drop, take, ap,
  length, ℕ, true, false, [], ◌∷◌, ◌++◌, Option, none, some, Bytes, codes, ok, ◌≡◌, ◌↔◌, refl,
  arith, list_beq, replicate,
}
use an_b.Base.Int.{pos}
use an_b.Pairing.{Certificate, Encoding, cmd_sign_csr, install_cert, verify_pairing, pairing_code}
use an_b.Pairing.Laws.{IsPaired, verify_pairing_iff, install-sign, signed}
use an_b.Authz
use an_b.Crypto.Envelope.{EnvelopeFile}
use an_b.Keystore.{Store, new, unlocked}
use an_b.Bob.{InitWorld, ServeWorld, cmd_init, cmd_serve, serving, init_password, serve_password}
use an_b.Bob.Laws.{Serves, Initializes, cmd_serve_iff, serve-init}
use an_b.Bob.Bound.{Outcome, migrate_aad-Outcome}
use an_b.Bob.Migrate.{migrate_aad}
use an_b.Crypto.Packed.{seal_aad, open_aad, usable_key}
use an_b.Crypto.Version.{parse_version}
use an_b.Crypto.Packed.RoundTrip.{IsNonce, All-take}
use an_b.Crypto.Hex.{IsByte, hex_encode, hex_decode, hex_digit}
use an_b.Vault.{SecretEntry, Disk, load, save}
use an_b.Examples.Sealing.{secret, name, nonce_one-IsNonce}
use mathlib.Core.Path.{transport}
use an_b.Examples.{from_ok, tag_of, sum_aead, key_one, nonce_one, all_bytes-IsByte, sum}
use an_b.Examples.Keys.{sum_kdf, password, salt_one, drawn}
use an_b.Examples.Bob.{policy}

unmarshal_plain : Bytes → Option (Bytes × ℕ × Bytes)
unmarshal_plain [] = none
unmarshal_plain (t ∷ commit) = some (commit, t, [])

-- a stand-in for ASN.1 and SHA-256
abbrev plain : Encoding
plain = record {
  marshal = λ commit t. t ∷ commit;
  unmarshal = unmarshal_plain;
  sha256 = λ s. replicate 32 (sum s);
  unmarshal-marshal = λ commit t. unfold unmarshal_plain in refl;
  length-sha256 = λ s. refl;
}

abbrev cert : Certificate
cert = signed plain (codes "alice") (codes "key") 4711 1_000_000_007

verify_pairing_iff_example :
    (verify_pairing plain cert (codes "00004711") 2_000_000_000 ≡ ok tt)
    ↔ IsPaired plain cert (codes "00004711") 2_000_000_000
verify_pairing_iff_example = verify_pairing_iff plain cert (codes "00004711") 2_000_000_000

install-sign_example :
    (c : Certificate) × (cmd_sign_csr plain (codes "alice") (codes "key") 4711 1_000_000_007 ≡ ok c)
    × (c.common_name ≡ codes "alice")
    × (c.public_key_info ≡ codes "key")
    × (install_cert plain false (some c) [] (some (pairing_code 4711)) 600_999_999_999 ≡ ok c)
    × ((verify_pairing plain c (codes "00004712") 600_999_999_999 ≡ ok tt) ↔ (
        plain.sha256 (codes "00004712" ++ plain.sha256 (codes "key"))
        ≡ plain.sha256 (pairing_code 4711 ++ plain.sha256 (codes "key"))))
install-sign_example =
    install-sign plain (codes "alice") (codes "key") (codes "00004712") 4711 1_000_000_007
      600_999_999_999 (omega arith) (omega arith)

abbrev init_world : InitWorld
init_world = record {
  has_ca_key = true;
  has_envelope = false;
  force = false;
  loads_ca = true;
  variable = password;
  stdin_tty = false;
  typed = none;
  random_key = some key_one;
  random_salt = some salt_one;
  random_nonce = some nonce_one;
  now = codes "2026";
  can_write = true;
}

abbrev serve_world : ServeWorld
serve_world = record {
  has_files = true;
  file = ok (record { version = 2; keys = []; current = 1 });
  variable = [];
  is_child = false;
  line = [];
  stdin_tty = true;
  typed = some password;
  daemon = false;
  policy = Authz.ok policy;
  allow_all = false;
  allow_all_variable = [];
  ttl = pos 900;
  now = 5;
  makes_tls = true;
  listens = true;
}

cmd_serve_iff_example :
    (cmd_serve sum_aead sum_kdf serve_world ≡ ok (serving new policy))
    ↔ Serves sum_aead sum_kdf serve_world new policy
cmd_serve_iff_example = cmd_serve_iff sum_aead sum_kdf serve_world new policy

initializes : Initializes init_world password
unfolding init_password list_beq
initializes = record {
  has_ca_key = refl;
  fresh = refl;
  loads_ca = refl;
  asked = refl;
  can_write = refl;
}

serve-init_example :
    (f : EnvelopeFile) × (s : Store) × (cmd_init sum_aead sum_kdf init_world ≡ ok f)
    × (cmd_serve sum_aead sum_kdf (record serve_world { file = ok f }) ≡ ok (serving s policy))
    × (unlocked s ≡ true)
    × (s.current ≡ 1)
    × (s.keys ≡ (1, key_one) ∷ [])
serve-init_example =
    serve-init sum_aead sum_kdf init_world serve_world password key_one salt_one nonce_one policy
      initializes refl refl (all_bytes-IsByte key_one refl) refl refl drawn refl
      (unfold serve_password list_beq in refl) refl refl refl refl refl

abbrev keys : Table ℕ Bytes
keys = (1, key_one) ∷ []

-- a value of before the binding: sealed without additional data
abbrev legacy : Bytes
legacy = from_ok (seal_aad sum_aead key_one secret [] (some nonce_one))

abbrev legacy_entry : SecretEntry
legacy_entry = record {
  value = legacy;
  desc = codes "the db";
  created_at = [];
  updated_at = [];
  key_epoch = 0;
  len_bytes = 7;
  entropy_bits = 0;
}

abbrev disk : Disk
disk = contents (some (record { version = 1; secrets = (name, legacy_entry) ∷ [] }))

keys-current : lookup 1 keys ≡ some key_one
unfolding lookup
keys-current = refl

unseal_bytes : (k n s a p : Bytes) → All IsByte s → sum_aead.unseal k n s a ≡ some p → All IsByte p
unseal_bytes k n s a p bytes h = elim (Bool-cases (drop (length s - 16) s == tag_of k n a)) [
  | inl e ↦
      let same : take (length s - 16) s ≡ p = cc (rw e at h) in
      transport (ap (All IsByte) same) (All-take (length s - 16) s bytes)
  | inr e ↦ absurd (cc (rw e at h))
]

migrate_aad-Outcome_example :
    Outcome sum_aead keys disk (migrate_aad sum_aead keys 1 (λ n. some nonce_one) true true disk)
migrate_aad-Outcome_example =
    migrate_aad-Outcome sum_aead keys 1 key_one keys-current (omega arith) (omega arith)
      unseal_bytes (λ n. some nonce_one)
      (λ n iv e. let same : nonce_one ≡ iv = cc in transport (ap IsNonce same) nonce_one-IsNonce)
      true true disk

migrates-one : (migrate_aad sum_aead keys 1 (λ n. some nonce_one) true true disk).1 ≡ ok 1
unfolding migrate_aad lookup load parse_version seal_aad usable_key hex_encode hex_digit open_aad
    sum hex_decode list_beq save
migrates-one = refl
