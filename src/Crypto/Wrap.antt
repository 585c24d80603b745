-- ===== src/Crypto/Wrap.antt =====
-- internal/crypto/crypto.go: wrapping a master key under a password.
use an_b.Base.{
  ℕ, true, ◌||◌, [], ◌∷◌, ◌++◌, Option, some, Bytes, length, ◌==◌, nat_eq, if◌then◌else◌, Result,
  ok, err, ◌>>=◌, ◌>>◌, or_fail, require, map_err, ◌≡◌, refl, All,
}
use an_b.Crypto.{Error, rand_failed, bad_salt, bad_password, wrong_length}
use an_b.Crypto.Hex.{IsByte}
use an_b.Crypto.Packed.{Aead, usable_key, split_packed, seal_aad, open_aad}
use an_b.Crypto.Packed.RoundTrip.{IsNonce, parts, seal_aad-eq, open_aad-body, split_packed-body}
use an_b.Crypto.Envelope.{Params, Envelope}

abbrev pub master_key_len : ℕ
master_key_len = 32

-- golang.org/x/crypto/argon2 and encoding/base64
pub record Kdf : Type 0 where
  pub derive : Bytes → Bytes → Params → Bytes
  pub encode : Bytes → Bytes
  pub decode : Bytes → Option Bytes
  -- argon2.IDKey gives as many bytes as it is asked for
  pub length-derive :
      (password salt : Bytes) (p : Params) → length (derive password salt p) ≡ master_key_len
  -- decoding undoes encoding
  pub decode-encode : (s : Bytes) → All IsByte s → decode (encode s) ≡ some s

abbrev pub default_params : Params
default_params = record { memory = 65_536; passes = 3; lanes = 1 }

abbrev pub or_default : Params → Params
or_default p = if p.memory == 0 || p.passes == 0 || p.lanes == 0 then default_params else p

-- rand.Read into a key's bytes
abbrev pub new_master_key : Option Bytes → Result Error Bytes
new_master_key random = or_fail rand_failed random

abbrev pub parts_of : Result Error (Bytes × Bytes × Bytes) → Bytes × Bytes × Bytes
parts_of (ok parts) = parts
parts_of (err e) = ([], [], [])

module _ (aead : Aead) (kdf : Kdf) where
  abbrev pub envelope_of : Bytes → Bytes × Bytes × Bytes → Envelope
  envelope_of salt (iv, tag, ct) = record {
    id = 0;
    created = [];
    salt = kdf.encode salt;
    params = default_params;
    iv = iv;
    tag = tag;
    wrapped = ct;
  }

  -- `salt` and `iv` are what rand.Read gives
  unfoldable pub wrap : Bytes → Bytes → Option Bytes → Option Bytes → Result Error Envelope
  wrap master_key password salt iv = or_fail rand_failed salt >>= λ salt.
      seal_aad aead (kdf.derive password salt default_params) master_key [] iv >>= λ packed.
      ok (envelope_of salt (parts_of (split_packed packed)))

  abbrev pub any_error : Error → Error
  any_error e = bad_password

  unfoldable pub unwrap : Envelope → Bytes → Result Error Bytes
  unwrap env password = or_fail bad_salt (kdf.decode env.salt) >>= λ salt.
      map_err any_error (
        open_aad aead (kdf.derive password salt (or_default env.params))
          (env.iv ++ (b':' ∷ (env.tag ++ (b':' ∷ env.wrapped)))) [])
      >>= λ key. require (length key == master_key_len) wrong_length >> ok key

  -- the randomness of one wrapping
  abbrev pub IsRandom : Bytes → Bytes → Type 0
  IsRandom salt iv = All IsByte salt × IsNonce iv

  usable_kek : (password salt : Bytes) → usable_key (kdf.derive password salt default_params) ≡ true
  unfolding usable_key
  usable_kek password salt = rw (kdf.length-derive password salt default_params) refl

  -- Wrapping a master key of 32 bytes under a password, with a salt of bytes and a nonce of twelve
  -- bytes, succeeds, and the same password unwraps the envelope to the key.
  pub unwrap-wrap :
      (key password salt iv : Bytes)
      → length key ≡ master_key_len
      → All IsByte key
      → IsRandom salt iv
      → (env : Envelope) × (wrap key password (some salt) (some iv) ≡ ok env)
        × (unwrap env password ≡ ok key)
  unfolding wrap unwrap
  unwrap-wrap key password salt iv size bytes (hs, (len, hi)) =
      let kek : Bytes = kdf.derive password salt default_params in
      let usable = usable_kek password salt in
      let env : Envelope = envelope_of salt (parts aead kek key [] iv usable len hi) in
      (
        env,
        rw
            (
              seal_aad-eq aead kek key [] iv usable len hi,
              split_packed-body aead kek key [] iv usable len hi,
            )
            refl,
        rw (kdf.decode-encode salt hs, open_aad-body aead kek key [] iv usable len hi bytes, size)
            refl,
      )
