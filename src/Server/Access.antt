-- ===== src/Server/Access.antt =====
-- internal/server/server.go: authorization and the audit log, for every request.
use an_b.Base.{
  ℕ, zero, suc, Bool, true, false, List, [], ◌∷◌, ◌++◌, none, some, Bytes, codes, length, ◌==◌,
  nat_eq, bytes_eq, if◌then◌else◌, Result, ok, err, All, Bool-cases, Option-cases, arith, refl, ◌≡◌,
  ◌≢◌, inl, inr, ◌∙◌, sym, append_assoc, append-nil,
}
use an_b.Authz
use an_b.Authz.{Policy}
use an_b.Authz.Laws.{Any}
use an_b.Crypto.Packed.{Aead}
use an_b.Keystore.{Store, KeyError}
use an_b.Server.RateLimiter.{allow}
use an_b.Server.{
  unauthorized, Request, Response, failure, Event, allow_event, deny_event, Server, World, emit,
  rate_limit, first_denied, guard, gate, encrypted, decrypted, decrypted_many, note_rewrap,
  count_rewrapped, Kind, status_op, encrypt_op, decrypt_op, decrypt_many_op, unknown_op, kind_of,
  dispatch_kind, do_encrypt, do_decrypt, do_decrypt_many, dispatch, limit_of, decrypt_all, zip,
  bad_request,
}

-- the policy lets the identity use every key
abbrev pub AllAllowed : Policy → Bytes → List Bytes → Type 0
AllAllowed p identity = All (λ k. Authz.allowed p identity k ≡ true)

pub first_denied-none :
    (p : Policy) (identity : Bytes) (ks : List Bytes)
    → first_denied p identity ks ≡ none
    → AllAllowed p identity ks
unfolding first_denied
first_denied-none p identity [] h = tt
first_denied-none p identity (k ∷ ks) h = ground (arith, first_denied-none p identity ks)

first_denied-some :
    (p : Policy) (identity : Bytes) (ks : List Bytes)
    → Any (λ k. Authz.allowed p identity k ≡ false) ks
    → (k : Bytes) × (first_denied p identity ks ≡ some k)
unfolding first_denied
first_denied-some p identity [] h = absurd h
first_denied-some p identity (k ∷ ks) (inl e) = (k, rw e)
first_denied-some p identity (k ∷ ks) (inr h) =
    let (j, e) = first_denied-some p identity ks h in
    elim (Bool-cases (Authz.allowed p identity k)) [
      | inl yes_k ↦ (j, rw yes_k e)
      | inr no_k ↦ (k, rw no_k)
    ]

-- the keys that a request names
abbrev pub keys_of : Kind → Request → List Bytes
keys_of encrypt_op req = req.key ∷ []
keys_of decrypt_op req = req.key ∷ []
keys_of decrypt_many_op req = req.keys
keys_of _ req = []

-- the operation's name in the log
abbrev pub name_of : Kind → Bytes
name_of status_op = codes "status"
name_of encrypt_op = codes "encrypt"
name_of decrypt_op = codes "decrypt"
name_of decrypt_many_op = codes "decryptMany"
name_of unknown_op = []

-- a response that gives nothing away
abbrev pub SaysNothing : Response → Type 0
SaysNothing r =
    (r.is_ok ≡ false)
    × (r.plaintext ≡ [])
    × (r.plaintext_many ≡ [])
    × (r.packed ≡ [])
    × (r.rewrapped_packed ≡ [])
    × (r.rewrapped_packed_many ≡ [])

-- the keys were all allowed, and the decision stands in the log behind what was there
pub record Granted (identity op : Bytes) (ks : List Bytes) (reason : Bytes) (s s' : Server)
    : Type 0 where
  pub allowed : AllAllowed s.policy identity ks
  pub later : List Event
  pub logged : s'.audit ≡ s.audit ++ (allow_event identity op ks reason ∷ later)

pub guard-allowed :
    (identity : Bytes) (ks : List Bytes) (op reason : Bytes) (s : Server)
    → first_denied s.policy identity ks ≡ none
    → guard identity ks op reason s ≡ (emit (allow_event identity op ks reason) s, none)
unfolding guard
guard-allowed identity ks op reason s e = rw e

pub guard-denied :
    (identity : Bytes) (ks : List Bytes) (op reason : Bytes) (s : Server) (k : Bytes)
    → first_denied s.policy identity ks ≡ some k
    → guard identity ks op reason s ≡ (
      emit (deny_event identity op k) s,
      some (failure unauthorized (codes "not authorized for key " ++ k)),
    )
unfolding guard
guard-denied identity ks op reason s k e = rw e

rate_limit-keeps :
    (identity op : Bytes) (w : World) (s : Server)
    → ((rate_limit identity op w s).0.policy ≡ s.policy)
      × ((rate_limit identity op w s).0.store ≡ s.store)
      × ((rate_limit identity op w s).1 ≡ none → (rate_limit identity op w s).0.audit ≡ s.audit)
unfolding rate_limit
rate_limit-keeps identity op w s = ground arith

-- the log only grew
abbrev pub Grows : Server → Server → Type 0
Grows s s' = (later : List Event) × (s'.audit ≡ s.audit ++ later)

gate-guard :
    (identity : Bytes) (ks : List Bytes) (op reason : Bytes) (s : Server)
    (go : Server → Server × Response)
    → ((t : Server) → Grows t (go t).0)
    → (gate (guard identity ks op reason s) go).1.is_ok ≡ true
    → Granted identity op ks reason s (gate (guard identity ks op reason s) go).0
gate-guard identity ks op reason s go grows h =
    elim (Option-cases (first_denied s.policy identity ks)) [
      | inr (k, e) ↦ absurd (cc (rw (guard-denied identity ks op reason s k e) at h))
      | inl e ↦
          let (later, log) = grows (emit (allow_event identity op ks reason) s) in
          rw (guard-allowed identity ks op reason s e) (record {
            allowed = first_denied-none s.policy identity ks e;
            later = later;
            logged = log ∙ append_assoc s.audit _ later;
          })
    ]

gate-rate :
    (identity op : Bytes) (w : World) (s : Server) (go : Server → Server × Response)
    → (gate (rate_limit identity op w s) go).1.is_ok ≡ true
    → (gate (rate_limit identity op w s) go ≡ go (rate_limit identity op w s).0)
      × ((rate_limit identity op w s).1 ≡ none)
unfolding rate_limit
gate-rate identity op w s go h = ground arith

module _ (identity op : Bytes) (ks : List Bytes) (reason : Bytes) (w : World) (s : Server) where
  -- behind the rate limit and the guard
  gates-Granted :
      (go : Server → Server × Response)
      → ((t : Server) → Grows t (go t).0)
      → let both = gate (rate_limit identity op w s) λ t. gate (guard identity ks op reason t) go in
        both.1.is_ok ≡ true → Granted identity op ks reason s both.0
  gates-Granted go grows h =
      let (same, passed) =
        gate-rate identity op w s (λ t. gate (guard identity ks op reason t) go) h in
      let (pol, _, log) = rate_limit-keeps identity op w s in
      let t = (rate_limit identity op w s).0 in
      let g = gate-guard identity ks op reason t go grows (rw same at h) in
      rw same (record {
        allowed = rw pol at g.allowed;
        later = g.later;
        logged = rw (log passed) at g.logged;
      })

note_rewrap-Grows :
    (aead : Aead) (identity op : Bytes) (ks : List Bytes) (n : ℕ) (s : Server)
    → Grows s (note_rewrap aead identity op ks n s)
note_rewrap-Grows aead identity op ks zero s = ([], sym (append-nil s.audit))
note_rewrap-Grows aead identity op ks (suc n) s = (_, refl)

encrypted-Grows :
    (aead : Aead) (s : Server) (r : Store × Result KeyError Bytes) → Grows s (encrypted aead s r).0
encrypted-Grows aead s (st, ok p) = ([], sym (append-nil s.audit))
encrypted-Grows aead s (st, err e) = ([], sym (append-nil s.audit))

decrypted-Grows :
    (aead : Aead) (identity key : Bytes) (s : Server)
    (r : Store × Result KeyError (Bytes × Bytes × Bool))
    → Grows s (decrypted aead identity key s r).0
decrypted-Grows aead identity key s (st, ok (pt, re, _)) =
    note_rewrap-Grows aead identity (codes "decrypt") (key ∷ []) (count_rewrapped (re ∷ []))
      (record s { store = st })
decrypted-Grows aead identity key s (st, err e) = ([], sym (append-nil s.audit))

decrypted_many-Grows :
    (aead : Aead) (identity : Bytes) (ks : List Bytes) (s : Server)
    (r : Store × Result KeyError (List Bytes × List Bytes))
    → Grows s (decrypted_many aead identity ks s r).0
decrypted_many-Grows aead identity ks s (st, ok (pts, res)) =
    note_rewrap-Grows aead identity (codes "decryptMany") ks (count_rewrapped res)
      (record s { store = st })
decrypted_many-Grows aead identity ks s (st, err e) = ([], sym (append-nil s.audit))

module _ (aead : Aead) (identity : Bytes) (req : Request) (w : World) (s : Server) where
  do_encrypt-Granted :
      (do_encrypt aead identity req w s).1.is_ok ≡ true
      → Granted identity
          (codes "encrypt")
          (req.key ∷ [])
          req.reason
          s
          (do_encrypt aead identity req w s).0
  unfolding do_encrypt
  do_encrypt-Granted h =
      gate-guard identity (req.key ∷ []) (codes "encrypt") req.reason s _
        (λ t. encrypted-Grows aead t _) h

  do_decrypt-Granted :
      (do_decrypt aead identity req w s).1.is_ok ≡ true
      → Granted identity
          (codes "decrypt")
          (req.key ∷ [])
          req.reason
          s
          (do_decrypt aead identity req w s).0
  unfolding do_decrypt
  do_decrypt-Granted h =
      gates-Granted identity (codes "decrypt") (req.key ∷ []) req.reason w s _
        (λ t. decrypted-Grows aead identity req.key t _) h

  many-Grows :
      (t : Server)
      → Grows t
          (if length req.keys == length req.packed_many
            then decrypted_many aead identity req.keys t
                (decrypt_all aead w 0 (zip req.keys req.packed_many) t.store)
            else (t, failure bad_request (codes "decryptMany: keys/packedMany length mismatch"))).0
  many-Grows t = elim (Bool-cases (length req.keys == length req.packed_many)) [
    | inl e ↦ rw e (decrypted_many-Grows aead identity req.keys t _)
    | inr e ↦ rw e ([], sym (append-nil t.audit))
  ]

  do_decrypt_many-Granted :
      (do_decrypt_many aead identity req w s).1.is_ok ≡ true
      → Granted identity
          (codes "decryptMany")
          req.keys
          req.reason
          s
          (do_decrypt_many aead identity req w s).0
  unfolding do_decrypt_many
  do_decrypt_many-Granted h =
      gates-Granted identity (codes "decryptMany") req.keys req.reason w s _ many-Grows h

  kind-Granted :
      (k : Kind)
      → k ≢ status_op
      → (dispatch_kind aead k identity req w s).1.is_ok ≡ true
      → Granted identity
          (name_of k)
          (keys_of k req)
          req.reason
          s
          (dispatch_kind aead k identity req w s).0
  unfolding dispatch_kind
  kind-Granted status_op ns h = absurd (ns refl)
  kind-Granted encrypt_op ns h = do_encrypt-Granted h
  kind-Granted decrypt_op ns h = do_decrypt-Granted h
  kind-Granted decrypt_many_op ns h = do_decrypt_many-Granted h
  kind-Granted unknown_op ns h = cc

  -- A request other than a status query is answered OK only if the policy allows the identity every
  -- key that the request names, and then an ALLOW event with the identity, the operation, the keys
  -- and the reason stands in the log, behind all that the log held.
  pub dispatch-Granted :
      kind_of req.op ≢ status_op
      → (dispatch aead identity req w s).1.is_ok ≡ true
      → Granted identity
          (name_of (kind_of req.op))
          (keys_of (kind_of req.op) req)
          req.reason
          s
          (dispatch aead identity req w s).0
  dispatch-Granted ns h = unfold dispatch in kind-Granted (kind_of req.op) ns h

  -- what a denied request leaves: the keys as they were, and an answer that says nothing
  abbrev Inert : Server × Response → Type 0
  Inert (t, r) = (t.store ≡ s.store) × SaysNothing r

  denied_behind_rate :
      (op : Bytes) (ks : List Bytes) (k : Bytes) (go : Server → Server × Response)
      → first_denied s.policy identity ks ≡ some k
      → Inert (gate (rate_limit identity op w s) λ t. gate (guard identity ks op req.reason t) go)
  unfolding rate_limit
  denied_behind_rate op ks k go d =
      let taken = allow (limit_of s.policy) identity (w.clock 0) s.buckets in
      elim (Bool-cases taken.1) [
        | inl passed ↦
            rw (passed, guard-denied identity ks op req.reason (record s { buckets = taken.0 }) k d)
              (refl, (refl, refl, refl, refl, refl, refl))
        | inr limited ↦ rw limited (refl, (refl, refl, refl, refl, refl, refl))
      ]

  kind-denied :
      (kind : Kind) (k : Bytes)
      → kind ≢ status_op
      → first_denied s.policy identity (keys_of kind req) ≡ some k
      → Inert (dispatch_kind aead kind identity req w s)
  unfolding dispatch_kind do_encrypt do_decrypt do_decrypt_many
  kind-denied status_op k ns d = absurd (ns refl)
  kind-denied encrypt_op k ns d =
      rw (guard-denied identity (req.key ∷ []) (codes "encrypt") req.reason s k d)
        (refl, (refl, refl, refl, refl, refl, refl))
  kind-denied decrypt_op k ns d = denied_behind_rate (codes "decrypt") (req.key ∷ []) k _ d
  kind-denied decrypt_many_op k ns d = denied_behind_rate (codes "decryptMany") req.keys k _ d
  kind-denied unknown_op k ns d = (refl, (refl, refl, refl, refl, refl, refl))

  -- If the policy refuses one key of a request that is no status query, the key store is not
  -- touched and the answer is not OK and carries no plaintext and no ciphertext.
  pub dispatch-denied :
      kind_of req.op ≢ status_op
      → Any (λ k. Authz.allowed s.policy identity k ≡ false) (keys_of (kind_of req.op) req)
      → ((dispatch aead identity req w s).0.store ≡ s.store)
        × SaysNothing (dispatch aead identity req w s).1
  dispatch-denied ns refused =
      let (k, d) = first_denied-some s.policy identity _ refused in
      unfold dispatch in kind-denied (kind_of req.op) k ns d
