-- ===== src/Examples/Bob.antt =====
-- The laws of the policy, of the rate limit and of Bob's server, at concrete inputs.
use an_b.Base.{
  ℕ, ◌≤◌, ◌+◌, ◌-◌, ◌*◌, true, false, List, [], ◌∷◌, Option, some, Bytes, codes, Table, lookup, ◌≡◌,
  ◌≢◌, ◌↔◌, refl, inl, arith, contents, length, ok, bytes_eq, list_beq, has_prefix,
}
use an_b.Base.Int.{ℤ, pos, is_positive}
use an_b.Authz
use an_b.Authz.{Policy, allowed, limit, open_or_default, first_bad_limit, any_prefix}
use an_b.Authz.Laws.{Permits, allowed_iff, limit-open_or_default}
use an_b.Server.RateLimiter.{token, Buckets, run}
use an_b.Server.RateLimiter.Bound.{Ordered, NotAfter, last_time, passed, passed-le}
use an_b.Server.{
  Server, World, Request, kind_of, status_op, dispatch, decrypt_all, dispatch_kind, do_encrypt,
  guard,
}
use an_b.Server.Access.{Granted, name_of, keys_of, SaysNothing, dispatch-Granted, dispatch-denied}
use an_b.Server.Batch.{decrypt_all-plaintexts}
use an_b.Keystore.{encrypt, encrypt_result}
use an_b.Keystore.Sealing.{Holds, CanRewrap, encrypt-Holds}
use an_b.Crypto.Packed.{usable_key, seal_aad}
use an_b.Examples.{sum_aead, key_one, nonce_one, all_bytes-IsByte, from_ok}
use an_b.Examples.Sealing.{secret, name, open_store}

abbrev pub alice : Bytes
alice = codes "alice"

abbrev rules : Table Bytes (List Bytes)
rules = (alice, codes "db-" ∷ []) ∷ []

abbrev limits : Table Bytes ℤ
limits = (alice, pos 2) ∷ []

abbrev pub policy : Policy
policy = record { rules = rules; rate_limits = limits; default_allow = false }

allowed_iff_example : (allowed policy alice name ≡ true) ↔ Permits policy alice name
allowed_iff_example = allowed_iff policy alice name

abbrev decode : Bytes → Option (Table Bytes (List Bytes) × Table Bytes ℤ)
decode b = some (rules, limits)

policy-loaded : open_or_default decode (contents []) ≡ Authz.ok policy
unfolding open_or_default first_bad_limit
policy-loaded = refl

limit-open_or_default_example : is_positive (limit policy alice) ≡ true
limit-open_or_default_example =
    limit-open_or_default decode (contents []) policy alice policy-loaded

-- two a minute, for everyone
abbrev two : Bytes → ℕ
two identity = 2

abbrev calls : List (Bytes × ℕ)
calls = (alice, 10) ∷ (codes "eve", 11) ∷ (alice, 12) ∷ (alice, 13) ∷ []

abbrev buckets : Buckets
buckets = (alice, record { tokens = token; last_refill = 5 }) ∷ []

alice-NotAfter : NotAfter 7 (lookup alice buckets)
unfolding lookup list_beq
alice-NotAfter = omega arith

calls-Ordered : Ordered 7 calls
calls-Ordered = (omega arith, (omega arith, (omega arith, (omega arith, tt))))

passed-le_example :
    passed alice calls (run two calls buckets).1 * token
    ≤ two alice * token + (last_time 7 calls - 7) * two alice
passed-le_example = passed-le two alice (omega arith) 7 calls buckets calls-Ordered alice-NotAfter

abbrev request : Request
request = record {
  op = codes "encrypt";
  key = name;
  keys = [];
  plaintext = secret;
  packed = [];
  packed_many = [];
  reason = codes "deploy";
}

abbrev pub world : World
world = record { clock = λ n. 100 + n; random = λ n. some nonce_one }

abbrev pub server : Server
server = record { store = open_store; policy = policy; buckets = []; audit = [] }

request-encrypt : kind_of request.op ≢ status_op
unfolding kind_of list_beq
request-encrypt e = cc

request-answered : (dispatch sum_aead alice request world server).1.is_ok ≡ true
unfolding dispatch dispatch_kind kind_of list_beq do_encrypt guard allowed lookup has_prefix encrypt
    encrypt_result seal_aad usable_key
request-answered = refl

dispatch-Granted_example :
    Granted alice
      (name_of (kind_of request.op))
      (keys_of (kind_of request.op) request)
      request.reason
      server
      (dispatch sum_aead alice request world server).0
dispatch-Granted_example =
    dispatch-Granted sum_aead alice request world server request-encrypt request-answered

dispatch-denied_example :
    ((dispatch sum_aead (codes "eve") request world server).0.store ≡ server.store)
    × SaysNothing (dispatch sum_aead (codes "eve") request world server).1
dispatch-denied_example =
    dispatch-denied sum_aead (codes "eve") request world server request-encrypt
      (unfold kind_of list_beq Authz.allowed lookup in inl refl)

abbrev packed_one : Bytes
packed_one = from_ok (encrypt_result sum_aead name secret (some nonce_one) open_store)

packed_one-Holds : Holds sum_aead open_store.keys 1 name secret packed_one
unfolding encrypt_result lookup seal_aad usable_key
packed_one-Holds =
    (encrypt-Holds sum_aead name secret nonce_one open_store (omega arith)
      (all_bytes-IsByte secret refl) (refl, all_bytes-IsByte nonce_one refl) refl).1

open_store-CanRewrap : CanRewrap sum_aead open_store
unfolding lookup usable_key
open_store-CanRewrap = record {
  unlocked = λ e. omega arith;
  fits = omega arith;
  key = key_one;
  at = refl;
  usable = refl;
}

abbrev items : List (Bytes × Bytes)
items = (name, packed_one) ∷ (name, packed_one) ∷ []

decrypt_all-plaintexts_example :
    (res : List Bytes) × ((decrypt_all sum_aead world 0 items open_store).1
      ≡ ok (secret ∷ secret ∷ [], res))
    × (length res ≡ length items)
decrypt_all-plaintexts_example =
    decrypt_all-plaintexts sum_aead world 0 items (secret ∷ secret ∷ []) open_store
      (λ n. (nonce_one, refl, (refl, all_bytes-IsByte nonce_one refl))) open_store-CanRewrap
      ((1, packed_one-Holds), ((1, packed_one-Holds), tt))
