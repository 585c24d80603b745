-- ===== src/Examples/Sealing.antt =====
-- The laws of the ciphertext format and of the key store, at concrete inputs.
use an_b.Base.{
  ℕ, ◌+◌, true, false, List, [], ◌∷◌, none, some, Bytes, codes, ◌≡◌, ◌≢◌, ◌⊎◌, refl, arith, All,
  lookup, ok, err, nat_eq,
}
use an_b.Examples.{sum_aead, all_bytes-IsByte, from_ok, key_one, key_two, nonce_one}
use an_b.Crypto.Hex.{IsByte}
use an_b.Crypto.Version.{parse_version, has_newline}
use an_b.Crypto.Packed.{seal_aad, open_aad, usable_key}
use an_b.Crypto.Packed.RoundTrip.{IsNonce, open_aad-seal_aad}
use an_b.Keystore.{
  Store, new, unknown_version, encrypt, decrypt, encrypt_result, add_key, remove_key, Op, op_hold,
  op_add, op_encrypt, op_decrypt, hold_multi, zeroize_locked, arm_locked, op_remove, op_fire,
  op_timer, step, run, zeroize,
}
use an_b.Keystore.Invariant.{Inv, run-new-Inv, AllVersioned}
use an_b.Keystore.Sealing.{Holds, encrypt-Holds, decrypt-encrypt, decrypt-rotated, decrypt-removed}
use an_b.Keystore.Timer.{IsLocked, zeroized_stays-IsLocked, idle_lock}

abbrev pub secret : Bytes
secret = codes "hunter2"

abbrev pub name : Bytes
name = codes "db-pass"

-- one key, version 1, with an idle timer
abbrev pub open_store : Store
open_store = record {
  keys = (1, key_one) ∷ [];
  current = 1;
  ttl = 60;
  expires_at = 60;
  armed = some 60;
  pending = 0;
  lock_calls = 0;
}

-- two versions, the second current
abbrev pub two_keys : Store
two_keys = record open_store { keys = (1, key_one) ∷ (2, key_two) ∷ []; current = 2 }

pub nonce_one-IsNonce : IsNonce nonce_one
nonce_one-IsNonce = (refl, all_bytes-IsByte nonce_one refl)

pub secret-bytes : All IsByte secret
secret-bytes = all_bytes-IsByte secret refl

abbrev raw_one : Bytes
raw_one = codes "07:01:ff"

abbrev tagged_one : Bytes
tagged_one = codes "v12:07:01:ff"

tagged_one-parses : parse_version tagged_one ≡ ok (12, raw_one)
unfolding parse_version
tagged_one-parses = refl

abbrev sealed_one : Bytes
sealed_one = from_ok (seal_aad sum_aead key_one secret name (some nonce_one))

sealed_one-sealed : seal_aad sum_aead key_one secret name (some nonce_one) ≡ ok sealed_one
unfolding seal_aad usable_key
sealed_one-sealed = refl

open_aad-seal_aad_example :
    (open_aad sum_aead key_one sealed_one name ≡ ok secret) × (has_newline sealed_one ≡ false)
open_aad-seal_aad_example =
    open_aad-seal_aad sum_aead key_one secret name nonce_one secret-bytes nonce_one-IsNonce
      sealed_one-sealed

abbrev packed_one : Bytes
packed_one = from_ok (encrypt sum_aead name secret (some nonce_one) 5 open_store).1

packed_one-encrypted :
    (encrypt sum_aead name secret (some nonce_one) 5 open_store).1 ≡ ok packed_one
unfolding encrypt encrypt_result lookup seal_aad usable_key
packed_one-encrypted = refl

decrypt-encrypt_example :
    (decrypt sum_aead name packed_one none 6
      (encrypt sum_aead name secret (some nonce_one) 5 open_store).0).1
    ≡ ok (secret, [], true)
decrypt-encrypt_example =
    decrypt-encrypt sum_aead name secret nonce_one packed_one none 5 6 open_store (omega arith)
      secret-bytes nonce_one-IsNonce packed_one-encrypted

decrypt-rotated_example :
    let rotated =
      add_key 2 key_two 6 (encrypt sum_aead name secret (some nonce_one) 5 open_store).0 in
    let after = decrypt sum_aead name packed_one (some nonce_one) 7 rotated in
    (re : Bytes) × (after.1 ≡ ok (secret, re, false))
    × ((decrypt sum_aead name re none 8 after.0).1 ≡ ok (secret, [], true))
decrypt-rotated_example =
    decrypt-rotated sum_aead name secret nonce_one packed_one key_two nonce_one 2 none 5 6 7 8
      open_store (omega arith) (omega arith) (omega arith) (λ e. omega arith)
      (unfold usable_key in refl) secret-bytes nonce_one-IsNonce nonce_one-IsNonce
      packed_one-encrypted

-- the ciphertext of version 1 in a store that has moved on to version 2
packed_one-Holds : Holds sum_aead two_keys.keys 1 name secret packed_one
packed_one-Holds =
    (encrypt-Holds sum_aead name secret nonce_one (record two_keys { current = 1 }) (omega arith)
      secret-bytes nonce_one-IsNonce packed_here).1
  where
    packed_here :
        encrypt_result sum_aead name secret (some nonce_one) (record two_keys { current = 1 })
        ≡ ok packed_one
    packed_here = unfold encrypt_result encrypt lookup seal_aad usable_key in refl

decrypt-removed_example :
    ((◌≡◌ {A = ℕ} 1 1)
      × ((decrypt sum_aead name packed_one none 9 (remove_key 1 two_keys).0).1
          ≡ err unknown_version))
    ⊎ ((◌≢◌ {A = ℕ} 1 1) × Holds sum_aead (remove_key 1 two_keys).0.keys 1 name secret packed_one)
decrypt-removed_example =
    decrypt-removed sum_aead name secret packed_one 1 1 none 9 two_keys (λ e. omega arith)
      packed_one-Holds (unfold remove_key lookup in refl)

abbrev history : List (Op sum_aead)
history =
    op_hold ((1, key_one) ∷ []) 1 60 0
    ∷ op_encrypt name secret (some nonce_one) 5
    ∷ op_add 2 key_two 6
    ∷ op_fire
    ∷ op_timer
    ∷ []

history-AllVersioned : AllVersioned sum_aead history
history-AllVersioned = (omega arith, (tt, (omega arith, (tt, (tt, tt)))))

run-new-Inv_example : Inv (run sum_aead history new)
run-new-Inv_example = run-new-Inv sum_aead history history-AllVersioned

-- the same history before its timer fires
abbrev early : List (Op sum_aead)
early = op_hold ((1, key_one) ∷ []) 1 60 0 ∷ op_encrypt name secret (some nonce_one) 5 ∷ []

abbrev busy_store : Store
busy_store = run sum_aead early new

busy_facts : (busy_store.current ≡ 1) × (busy_store.ttl ≡ 60)
unfolding run step hold_multi zeroize_locked arm_locked lookup encrypt encrypt_result seal_aad
    usable_key
busy_facts = (refl, refl)

idle_lock_example :
    let after = step sum_aead op_timer (step sum_aead op_fire busy_store) in
    IsLocked after × (after.lock_calls ≡ busy_store.lock_calls + 1)
idle_lock_example =
    idle_lock sum_aead busy_store (run-new-Inv sum_aead early (omega arith, (tt, tt)))
      (λ e. omega (arith, busy_facts.0)) (λ e. omega (arith, busy_facts.1))

abbrev later_calls : List (Op sum_aead)
later_calls = op_decrypt name packed_one none 7 ∷ op_fire ∷ op_timer ∷ op_remove 1 ∷ []

zeroized_stays-IsLocked_example : IsLocked (run sum_aead later_calls (zeroize busy_store))
zeroized_stays-IsLocked_example =
    zeroized_stays-IsLocked sum_aead later_calls busy_store (tt, (tt, (tt, (tt, tt))))
