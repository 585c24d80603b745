-- ===== src/Server.antt =====
-- internal/server/server.go, with the messages of internal/proto/proto.go: Bob's oracle.
-- The policy never changes while Bob serves. Each access to the shared limiter, store and log is
-- atomic by its own mutex; here a request runs with no other in between.
pub mod RateLimiter
pub mod Access
pub mod Batch
pub mod Wire
pub mod Messages
pub mod Exchange
use an_b.Base.{
  ℕ, zero, suc, ◌+◌, ◌-◌, ◌/◌, Bool, true, false, not, ◌&&◌, ◌||◌, List, [], ◌∷◌, ◌++◌, Option,
  none, some, Bytes, codes, length, lookup, ◌==◌, nat_eq, bytes_eq, if◌then◌else◌, Result, ok, err,
}
use an_b.Base.Int.{to_ℕ}
use an_b.Authz
use an_b.Authz.{Policy}
use an_b.Crypto.Packed.{Aead}
use an_b.Keystore.{
  KeyError, locked, unknown_version, cannot_finalize_current, crypto, Store, encrypt, decrypt,
  unlocked, ttl_remaining,
}
use an_b.Server.RateLimiter.{Buckets, allow}

-- Response.Code, "" on success
pub data Code : Type 0 where
  no_code locked_code unauthorized decrypt_failed bad_request internal rate_limited : Code
  unknown_key_version : Code

-- the values of Request.Op
pub data Kind : Type 0 where
  status_op encrypt_op decrypt_op decrypt_many_op unknown_op : Kind

unfoldable pub kind_of : Bytes → Kind
kind_of op =
    if op == codes "status"
    then status_op
    else if op == codes "encrypt"
    then encrypt_op
    else if op == codes "decrypt"
    then decrypt_op
    else if op == codes "decryptMany"
    then decrypt_many_op
    else unknown_op

pub record Request : Type 0 where
  pub op : Bytes
  pub key : Bytes
  pub keys : List Bytes
  pub plaintext : Bytes
  pub packed : Bytes
  pub packed_many : List Bytes
  pub reason : Bytes

pub record Response : Type 0 where
  pub is_ok : Bool
  pub error : Bytes
  pub code : Code
  pub packed : Bytes
  pub plaintext : Bytes
  pub plaintext_many : List Bytes
  pub rewrapped_packed : Bytes
  pub rewrapped_packed_many : List Bytes
  pub is_unlocked : Bool
  pub ttl : ℕ

-- proto.Response{}
abbrev pub blank : Response
blank = record {
  is_ok = false;
  error = [];
  code = no_code;
  packed = [];
  plaintext = [];
  plaintext_many = [];
  rewrapped_packed = [];
  rewrapped_packed_many = [];
  is_unlocked = false;
  ttl = 0;
}

abbrev pub failure : Code → Bytes → Response
failure c e = record blank { code = c; error = e }

-- what one audit event says: its kind, the identity, the operation and the rest
pub data Event : Type 0 where
  allow_event : Bytes → Bytes → List Bytes → Bytes → Event
  deny_event : Bytes → Bytes → Bytes → Event
  rate_limit_event : Bytes → Bytes → Event
  rewrap_event : Bytes → Bytes → List Bytes → ℕ → Event
  drop_event : Bytes → Bytes → Event

pub record Server : Type 0 where
  pub store : Store
  pub policy : Policy
  pub buckets : Buckets
  pub audit : List Event

-- what the n-th calls of time.Now and rand.Read answer during a request
pub record World : Type 0 where
  pub clock : ℕ → ℕ
  pub random : ℕ → Option Bytes

abbrev pub emit : Event → Server → Server
emit e s = record s { audit = s.audit ++ (e ∷ []) }

abbrev pub limit_of : Policy → Bytes → ℕ
limit_of p identity = to_ℕ (Authz.limit p identity)

-- `(resp, false)` is `some resp`
unfoldable pub rate_limit : Bytes → Bytes → World → Server → Server × Option Response
rate_limit identity op w s =
    let (buckets, go) = allow (limit_of s.policy) identity (w.clock 0) s.buckets in
    let s' = record s { buckets = buckets } in
    if go then (s', none) else (
      emit (rate_limit_event identity op) s',
      some (failure rate_limited (codes "rate limit exceeded")),
    )

-- the loop over the keys: the first that the policy refuses
unfoldable pub first_denied : Policy → Bytes → List Bytes → Option Bytes
first_denied p identity [] = none
first_denied p identity (k ∷ ks) =
    if Authz.allowed p identity k then first_denied p identity ks else some k

abbrev denied :
    Bytes → List Bytes → Bytes → Bytes → Server → Option Bytes → Server × Option Response
denied identity ks op reason s (some k) = (
  emit (deny_event identity op k) s,
  some (failure unauthorized (codes "not authorized for key " ++ k)),
)
denied identity ks op reason s none = (emit (allow_event identity op ks reason) s, none)

unfoldable pub guard : Bytes → List Bytes → Bytes → Bytes → Server → Server × Option Response
unfolding first_denied
guard identity ks op reason s = denied identity ks op reason s (first_denied s.policy identity ks)

unfoldable pub crypto_err : KeyError → Response
crypto_err locked = failure locked_code (codes "vault is locked")
crypto_err unknown_version =
    failure unknown_key_version (codes "ciphertext references a finalized key version")
crypto_err _ = failure decrypt_failed (codes "operation failed")

-- the continuation of a gate: go on, or answer
abbrev pub gate : Server × Option Response → (Server → Server × Response) → Server × Response
gate (s, none) go = go s
gate (s, some r) go = (s, r)

abbrev pub zip : List Bytes → List Bytes → List (Bytes × Bytes)
zip [] ps = []
zip (k ∷ ks) [] = []
zip (k ∷ ks) (p ∷ ps) = (k, p) ∷ zip ks ps

-- one more plaintext and rewrapped value in front of those that follow
abbrev cons_opened :
    Bytes
    → Bytes
    → Store × Result KeyError (List Bytes × List Bytes)
    → Store × Result KeyError (List Bytes × List Bytes)
cons_opened pt re (st, ok (pts, res)) = (st, ok (pt ∷ pts, re ∷ res))
cons_opened pt re (st, err e) = (st, err e)

-- the loop returns at the first error
abbrev continue_with :
    Store × Result KeyError (Bytes × Bytes × Bool)
    → (Store → Store × Result KeyError (List Bytes × List Bytes))
    → Store × Result KeyError (List Bytes × List Bytes)
continue_with (st, err e) go = (st, err e)
continue_with (st, ok (pt, re, _)) go = cons_opened pt re (go st)

-- the number of rewrapped values that are not empty
unfoldable pub count_rewrapped : List Bytes → ℕ
count_rewrapped [] = 0
count_rewrapped ([] ∷ rs) = count_rewrapped rs
count_rewrapped ((c ∷ r) ∷ rs) = suc (count_rewrapped rs)

module _ (aead : Aead) where
  -- the loop of decryptMany; the n-th Decrypt reads the n-th time and nonce
  unfoldable pub decrypt_all :
      World → ℕ → List (Bytes × Bytes) → Store → Store × Result KeyError (List Bytes × List Bytes)
  decrypt_all w n [] st = (st, ok ([], []))
  decrypt_all w n ((k, p) ∷ rest) st =
      continue_with (decrypt aead k p (w.random n) (w.clock (suc n)) st)
        λ st'. decrypt_all w (suc n) rest st'

  abbrev pub encrypted : Server → Store × Result KeyError Bytes → Server × Response
  encrypted s (st, ok packed) =
      (record s { store = st }, record blank { is_ok = true; packed = packed })
  encrypted s (st, err e) = (record s { store = st }, crypto_err e)

  -- `if rewrapped != "" { audit }`
  abbrev note_rewrap : Bytes → Bytes → List Bytes → ℕ → Server → Server
  note_rewrap identity op ks zero s = s
  note_rewrap identity op ks (suc n) s = emit (rewrap_event identity op ks (suc n)) s

  abbrev pub decrypted :
      Bytes → Bytes → Server → Store × Result KeyError (Bytes × Bytes × Bool) → Server × Response
  decrypted identity key s (st, ok (pt, re, _)) = (
    note_rewrap identity (codes "decrypt") (key ∷ []) (count_rewrapped (re ∷ []))
        (record s { store = st }),
    record blank { is_ok = true; plaintext = pt; rewrapped_packed = re },
  )
  decrypted identity key s (st, err e) = (record s { store = st }, crypto_err e)

  -- with nothing rewrapped the list is left out
  abbrev decrypted_many :
      Bytes
      → List Bytes
      → Server
      → Store × Result KeyError (List Bytes × List Bytes)
      → Server × Response
  decrypted_many identity ks s (st, ok (pts, res)) = (
    note_rewrap identity (codes "decryptMany") ks (count_rewrapped res) (record s { store = st }),
    record blank {
      is_ok = true;
      plaintext_many = pts;
      rewrapped_packed_many = if count_rewrapped res == 0 then [] else res;
    },
  )
  decrypted_many identity ks s (st, err e) = (record s { store = st }, crypto_err e)

  unfoldable pub do_status : World → Server → Server × Response
  do_status w s = (
    s,
    record blank {
      is_ok = true;
      is_unlocked = unlocked s.store;
      ttl = ttl_remaining (w.clock 0) s.store / 1_000_000_000;
    },
  )

  unfoldable pub do_encrypt : Bytes → Request → World → Server → Server × Response
  unfolding crypto_err
  do_encrypt identity req w s =
      gate (guard identity (req.key ∷ []) (codes "encrypt") req.reason s)
        λ s. encrypted s (encrypt aead req.key req.plaintext (w.random 0) (w.clock 1) s.store)

  unfoldable pub do_decrypt : Bytes → Request → World → Server → Server × Response
  unfolding crypto_err count_rewrapped
  do_decrypt identity req w s = gate (rate_limit identity (codes "decrypt") w s) λ s.
      gate (guard identity (req.key ∷ []) (codes "decrypt") req.reason s) λ s.
        decrypted identity req.key s
          (decrypt aead req.key req.packed (w.random 0) (w.clock 1) s.store)

  unfoldable pub do_decrypt_many : Bytes → Request → World → Server → Server × Response
  unfolding crypto_err
  do_decrypt_many identity req w s = gate (rate_limit identity (codes "decryptMany") w s) λ s.
      gate (guard identity req.keys (codes "decryptMany") req.reason s) λ s.
        if length req.keys == length req.packed_many
        then decrypted_many identity req.keys s
            (decrypt_all w 0 (zip req.keys req.packed_many) s.store)
        else (s, failure bad_request (codes "decryptMany: keys/packedMany length mismatch"))

  -- the switch on `req.Op`
  unfoldable pub dispatch_kind : Kind → Bytes → Request → World → Server → Server × Response
  dispatch_kind status_op identity req w s = do_status w s
  dispatch_kind encrypt_op identity req w s = do_encrypt identity req w s
  dispatch_kind decrypt_op identity req w s = do_decrypt identity req w s
  dispatch_kind decrypt_many_op identity req w s = do_decrypt_many identity req w s
  dispatch_kind unknown_op identity req w s =
      (s, failure bad_request (codes "unknown op: " ++ req.op))

  unfoldable pub dispatch : Bytes → Request → World → Server → Server × Response
  unfolding dispatch_kind kind_of
  dispatch identity req w s = dispatch_kind (kind_of req.op) identity req w s
