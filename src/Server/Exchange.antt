-- ===== src/Server/Exchange.antt =====
-- internal/server/server.go and internal/client/client.go: alice's calls with Bob's server behind the
-- connection.
use an_b.Base.{
  ℕ, suc, ◌≤◌, true, false, [], ◌∷◌, ◌++◌, Option, none, some, Bytes, codes, nat_eq, bytes_eq,
  list_beq, Result, ok, err, ltb, Option-cases, Bool-cases, refl, ◌≡◌, inl, inr, ◌∙◌, sym, ap,
  arith,
}
use an_b.Crypto.Packed.{Aead}
use an_b.Crypto.Packed.RoundTrip.{IsNonce}
use an_b.Keystore
use an_b.Keystore.{Store, KeyError}
use an_b.Keystore.Ascii.{encrypt-Ascii}
use an_b.Server.RateLimiter.{allow}
use an_b.Server.{
  Request, Response, Server, World, unauthorized, bad_request, failure, blank, first_denied, guard,
  encrypted, dispatch, dispatch_kind, kind_of, do_encrypt, do_decrypt, rate_limit, limit_of, emit,
  allow_event, deny_event, drop_event, crypto_err, count_rewrapped,
}
use an_b.Server.Wire.{
  IsUtf8, utf8_from, following, Ascii-IsUtf8, IsTextResponse, Json, IsJson, max_req_bytes,
  handle_line,
}
use an_b.Server.Messages.{
  encrypt_request, decrypt_request, empty-IsUtf8, failure-IsText, crypto_err-IsText,
  first_denied-one, denied-IsUtf8, encrypt_request-IsText, decrypt_request-IsText,
}
use an_b.Server.Access.{guard-denied, guard-allowed}
use an_b.Client.{Reply, response, not_json, ClientError, answered, call, encrypt, decrypt, when_ok}

-- Bob, and the number of requests that he has answered
abbrev pub Peer : Type 0
Peer = Server × ℕ

-- what json.Unmarshal makes of the answer's line
abbrev pub reply_of : Option Response → Reply
reply_of none = not_json
reply_of (some r) = response r

crypto_err-fails : (e : KeyError) → (crypto_err e).is_ok ≡ false
unfolding crypto_err
crypto_err-fails Keystore.locked = refl
crypto_err-fails Keystore.unknown_version = refl
crypto_err-fails Keystore.cannot_finalize_current = refl
crypto_err-fails (Keystore.crypto e) = refl

module _ {Line : Type 0} (json : Json Line) (aead : Aead) (identity : Bytes)
    (worlds : ℕ → World) where
  -- The n-th request is answered in the n-th world. Request and answer pass as lines of JSON. (A
  -- connection that the server closes on a request that is too long may also be reset before the
  -- answer is read; then alice sees another error.)
  unfoldable pub ask : Request → Peer → Peer × Reply
  ask req (s, n) =
      let (s', r) = handle_line json aead identity (json.write_request req) (worlds n) s in
      ((s', suc n), reply_of (json.read_response (json.write_response r)))

  -- what alice makes of the answer to Encrypt
  abbrev outcome : ℕ → Server × Response → Peer × Result ClientError Bytes
  outcome n g = (
    (g.0, suc n),
    when_ok (λ a. a.packed) (answered (reply_of (json.read_response (json.write_response g.1)))),
  )

  encrypt-by_line :
      (key value : Bytes) (s : Server) (n : ℕ)
      → encrypt ask [] key value (s, n)
        ≡ outcome n (
            handle_line json aead identity
              (json.write_request (encrypt_request key value))
              (worlds n)
              s)
  unfolding encrypt call ask
  encrypt-by_line key value s n = refl

  module _ (laws : IsJson json) (n : ℕ) (peer : Peer) (packed : Bytes) where
    survives :
        (r : Response)
        → IsTextResponse r
        → reply_of (json.read_response (json.write_response r)) ≡ response r
    survives r h = ap reply_of (laws.response_back r h)

    refused :
        (t : Server) (r : Response)
        → r.is_ok ≡ false
        → IsTextResponse r
        → outcome n (t, r) ≡ (peer, ok packed)
        → ⊥
    refused t r no_ok text h = cc (rw (survives r text, no_ok) at h)

    sealed_parts :
        (t : Server) (r : Store × Result KeyError Bytes)
        → ((p : Bytes) → r.1 ≡ ok p → IsUtf8 p)
        → outcome n (encrypted aead t r) ≡ (peer, ok packed)
        → (r.1 ≡ ok packed) × (peer ≡ (record t { store = r.0 }, suc n))
    sealed_parts t (st, ok p) text h =
        let answer : Response = record blank { is_ok = true; packed = p } in
        let valid : IsTextResponse answer = record {
          error = empty-IsUtf8;
          packed = text p refl;
          plaintext = empty-IsUtf8;
          plaintext_many = tt;
          rewrapped_packed = empty-IsUtf8;
          rewrapped_packed_many = tt;
        } in
        let h' = rw (survives answer valid) at h in (cc, cc)
    sealed_parts t (st, err e) text h = absurd (
        refused (record t { store = st }) (crypto_err e) (crypto_err-fails e) (crypto_err-IsText e)
          h)

  -- What a successful Encrypt tells: the key is allowed, Bob's key store sealed the value, and the
  -- policy and the buckets are as they were.
  pub record Sealed (key value packed : Bytes) (s : Server) (n : ℕ) (peer : Peer) : Type 0 where
    pub allowed : first_denied s.policy identity (key ∷ []) ≡ none
    pub answer :
        (Keystore.encrypt aead key value ((worlds n).random 0) ((worlds n).clock 1) s.store).1
        ≡ ok packed
    pub store :
        peer.0.store
        ≡ (Keystore.encrypt aead key value ((worlds n).random 0) ((worlds n).clock 1) s.store).0
    pub policy : peer.0.policy ≡ s.policy
    pub buckets : peer.0.buckets ≡ s.buckets
    pub count : peer.1 ≡ suc n

  module _ (laws : IsJson json) (key value : Bytes) (s : Server) (n : ℕ) (hk : IsUtf8 key)
      (hv : IsUtf8 value) where
    line_fits :
        ltb max_req_bytes (json.size (json.write_request (encrypt_request key value))) ≡ false
        → handle_line json aead identity
            (json.write_request (encrypt_request key value))
            (worlds n)
            s
          ≡ do_encrypt aead identity (encrypt_request key value) (worlds n) s
    unfolding handle_line dispatch dispatch_kind kind_of list_beq
    line_fits fits =
        rw
          (
            fits,
            laws.request_back (encrypt_request key value) (encrypt_request-IsText key value hk hv),
          )
          refl

    too_long :
        ltb max_req_bytes (json.size (json.write_request (encrypt_request key value))) ≡ true
        → (t : Server) × (handle_line json aead identity
              (json.write_request (encrypt_request key value))
              (worlds n)
              s
            ≡ (t, failure bad_request (codes "request exceeds 1 MiB")))
    unfolding handle_line
    too_long long = (emit (drop_event identity (codes "request-too-large")) s, rw long refl)

    too_long-IsText : IsTextResponse (failure bad_request (codes "request exceeds 1 MiB"))
    unfolding utf8_from following
    too_long-IsText = failure-IsText bad_request (codes "request exceeds 1 MiB") refl

    by_policy :
        (packed iv : Bytes) (peer : Peer)
        → (worlds n).random 0 ≡ some iv
        → IsNonce iv
        → outcome n (do_encrypt aead identity (encrypt_request key value) (worlds n) s)
          ≡ (peer, ok packed)
        → Sealed key value packed s n peer
    unfolding do_encrypt
    by_policy packed iv peer hiv nonce h =
        elim (Option-cases (first_denied s.policy identity (key ∷ []))) [
          | inr (k, e) ↦
              let text : IsUtf8 (codes "not authorized for key " ++ k) =
                rw (first_denied-one s.policy identity key k e) (denied-IsUtf8 key hk) in
              absurd (
                refused laws n peer packed (emit (deny_event identity (codes "encrypt") k) s)
                  (failure unauthorized (codes "not authorized for key " ++ k)) refl
                  (failure-IsText unauthorized (codes "not authorized for key " ++ k) text)
                  (rw (do_encrypt, guard-denied identity (key ∷ []) (codes "encrypt") [] s k e) at
                    h))
          | inl e ↦
              let t = emit (allow_event identity (codes "encrypt") (key ∷ []) []) s in
              let r =
                Keystore.encrypt aead key value ((worlds n).random 0) ((worlds n).clock 1)
                  s.store in
              let (answer, same) =
                sealed_parts laws n peer packed t r
                  (λ p hp. Ascii-IsUtf8 p (
                    encrypt-Ascii aead key value iv s.store ((worlds n).clock 1) p nonce
                      (rw hiv at hp)))
                  (rw (do_encrypt, guard-allowed identity (key ∷ []) (codes "encrypt") [] s e) at
                    h) in
              rw same (record {
                allowed = e;
                answer = answer;
                store = refl;
                policy = refl;
                buckets = refl;
                count = refl;
              })
        ]

    -- Encrypt of a key and a value of valid UTF-8 that succeeds
    pub encrypt-Sealed :
        (packed iv : Bytes) (peer : Peer)
        → (worlds n).random 0 ≡ some iv
        → IsNonce iv
        → encrypt ask [] key value (s, n) ≡ (peer, ok packed)
        → Sealed key value packed s n peer
    encrypt-Sealed packed iv peer hiv nonce h =
        let h' = sym (encrypt-by_line key value s n) ∙ h in
        elim (Bool-cases
          (ltb max_req_bytes (json.size (json.write_request (encrypt_request key value))))) [
            | inl long ↦
                let (t, e) = too_long long in
                absurd (
                  refused laws n peer packed t (failure bad_request (codes "request exceeds 1 MiB"))
                    refl too_long-IsText (ap (outcome n) (sym e) ∙ h'))
            | inr fits ↦
                by_policy packed iv peer hiv nonce (ap (outcome n) (sym (line_fits fits)) ∙ h')
          ]

  module _ (laws : IsJson json) (reason key packed value : Bytes) (s : Server) (n : ℕ)
      (hr : IsUtf8 reason) (hk : IsUtf8 key) (hp : IsUtf8 packed) (hv : IsUtf8 value)
      (size : json.size (json.write_request (decrypt_request reason key packed))
        ≤ max_req_bytes) where
    abbrev opened_response : Response
    opened_response = record blank { is_ok = true; plaintext = value }

    opened_response-IsText : IsTextResponse opened_response
    opened_response-IsText = record {
      error = empty-IsUtf8;
      packed = empty-IsUtf8;
      plaintext = hv;
      plaintext_many = tt;
      rewrapped_packed = empty-IsUtf8;
      rewrapped_packed_many = tt;
    }

    decrypt-by_line :
        handle_line json aead identity
          (json.write_request (decrypt_request reason key packed))
          (worlds n)
          s
        ≡ do_decrypt aead identity (decrypt_request reason key packed) (worlds n) s
    unfolding handle_line dispatch dispatch_kind kind_of list_beq
    decrypt-by_line =
        let fits : ltb max_req_bytes
              (json.size (json.write_request (decrypt_request reason key packed)))
            ≡ false =
          ground arith in
        rw
          (
            fits,
            laws.request_back (decrypt_request reason key packed)
                (decrypt_request-IsText reason key packed hr hk hp),
          )
          refl

    -- Decrypt of an allowed key that the rate limit lets through, where the key store opens the value
    -- on its current version
    pub decrypt-current :
        (allow (limit_of s.policy) identity ((worlds n).clock 0) s.buckets).1 ≡ true
        → first_denied s.policy identity (key ∷ []) ≡ none
        → (Keystore.decrypt aead key packed ((worlds n).random 0) ((worlds n).clock 1) s.store).1
          ≡ ok (value, [], true)
        → (decrypt ask reason key packed (s, n)).1 ≡ ok (value, [])
    unfolding decrypt call ask do_decrypt rate_limit guard count_rewrapped
    decrypt-current passes allowed opens = rw decrypt-by_line (
        rw (passes, allowed, opens)
          (ap (λ o. when_ok (λ r. (r.plaintext, r.rewrapped_packed)) (answered (reply_of o)))
            (laws.response_back opened_response opened_response-IsText)))
