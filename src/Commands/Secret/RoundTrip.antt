-- ===== src/Commands/Secret/RoundTrip.antt =====
-- cmd/alice/sensitive.go: `alice get` behind `alice set`.
use an_b.Base.{
  ℕ, suc, ◌≤◌, true, false, [], ◌∷◌, ◌++◌, Option, some, Bytes, ok, All, refl, ◌≡◌, ◌∙◌, sym, ap,
  lookup, insert, lookup-insert, beq_refl, bytes_eq,
}
use an_b.Base.Int.{ℤ}
use an_b.Crypto.Packed.{Aead}
use an_b.Crypto.Hex.{IsByte}
use an_b.Crypto.Decimal.{max_int}
use an_b.Crypto.Packed.RoundTrip.{IsNonce}
use an_b.Keystore.Sealing.{decrypt-encrypt}
use an_b.Authz
use an_b.Server.Access.{first_denied-none}
use an_b.Server.RateLimiter.{allow}
use an_b.Server.{Request, World, Server, limit_of}
use an_b.Server.Exchange
use an_b.Server.Messages.{decrypt_request}
use an_b.Server.Exchange.{Peer, Sealed, encrypt-Sealed, decrypt-current}
use an_b.Server.Wire.{IsUtf8, Ascii-IsUtf8, Json, IsJson, max_req_bytes}
use an_b.Keystore.Ascii.{encrypt-Ascii}
use mathlib.Core.Path.{transport}
use an_b.Client
use an_b.Client.{Reply, ClientError}
use an_b.Vault.{SecretEntry, Vault, load, get}
use an_b.Commands
use an_b.Commands.{
  Session, Command, CommandError, ◌>>=◌, ◌>>◌, load_vault, save_vault, load_client, encrypt,
  decrypt, write_back, no_value_source, bad_key_format, generate_combined, require, lift, or_fail,
  print, return,
}
use an_b.Commands.Value.{SetFlags, read_value}
use an_b.Commands.Secret.{done, cmd_set, is_some, GetFlags, revealed, cmd_get}
use an_b.Commands.Secret.Stored.{cmd_set-Stores}

-- a terminal on the output, and all files of the enrolment
pub record IsReady (w : Commands.World) : Type 0 where
  pub terminal : w.stdout_tty ≡ true
  pub config : w.has_config ≡ true
  pub certificate : w.has_certificate ≡ true
  pub client_key : w.has_client_key ≡ true
  pub ca : w.has_ca ≡ true
  pub client : w.makes_client ≡ true

module _ {ℓ} {B : Type ℓ} (ask : Request → B → B × Reply) where
  get-reveals :
      (w : Commands.World) (g : GetFlags) (key value : Bytes) (v : Vault) (e : SecretEntry)
      (t : Session B)
      → IsReady w
      → g.reveal ≡ true
      → g.as_json ≡ false
      → load t.disk ≡ ok v
      → get v key ≡ some e
      → (Client.decrypt ask g.reason key e.value t.peer).1 ≡ ok (value, [])
      → (u : Session B) × (cmd_get ask w g (key ∷ []) t ≡ (u, ok revealed))
        × (u.printed ≡ t.printed ++ (value ∷ []))
  unfolding cmd_get load_vault load_client decrypt
  get-reveals w g key value v e t r hr hj hl hg hd = (
    record t {
      peer = (Client.decrypt ask g.reason key e.value t.peer).0;
      printed = t.printed ++ (value ∷ []);
    },
    rw (hr, hj, hl, hg, r.terminal, r.config, r.certificate, r.client_key, r.ca, r.client, hd),
    refl,
  )

module _ {Line : Type 0} (json : Json Line) (laws : IsJson json) (aead : Aead) (identity : Bytes)
    (worlds : ℕ → World) (generator : Bytes → ℤ → Option Bytes) (estimate : Bytes → ℕ) where
  abbrev alices : Request → Peer → Peer × Reply
  alices = Exchange.ask json aead identity worlds

  -- what Bob sealed at one request opens at the next one
  Sealed-opens :
      (reason key value iv packed : Bytes) (s s' : Server) (n n' : ℕ)
      → Sealed json aead identity worlds key value packed s n (s', n')
      → All IsByte value
      → IsUtf8 reason
      → IsUtf8 key
      → IsUtf8 value
      → (worlds n).random 0 ≡ some iv
      → IsNonce iv
      → s.store.current ≤ max_int
      → (allow (limit_of s.policy) identity ((worlds (suc n)).clock 0) s.buckets).1 ≡ true
      → json.size (json.write_request (decrypt_request reason key packed)) ≤ max_req_bytes
      → (Client.decrypt alices reason key packed (s', n')).1 ≡ ok (value, [])
  Sealed-opens reason key value iv packed s s' n n' st bytes hr hk hv hiv nonce fits passes size =
      let answer = rw hiv at st.answer in
      let hp =
        Ascii-IsUtf8 packed
          (encrypt-Ascii aead key value iv s.store ((worlds n).clock 1) packed nonce answer) in
      decrypt-current json aead identity worlds laws reason key packed value s' n' hr hk hp hv size
        (rw (st.policy, st.buckets, st.count) passes) (rw st.policy st.allowed)
        (rw (st.store, hiv)
          (decrypt-encrypt aead key value iv packed ((worlds n').random 0) ((worlds n).clock 1)
            ((worlds n').clock 1) s.store fits bytes nonce answer))

  -- Let `set` end well against Bob's server, with a key and a value of valid UTF-8, a nonce of twelve
  -- bytes and a current version that an int holds. Then the key is one that Bob's policy allows, and a
  -- `get --reveal` of it that follows, on a terminal and with the files of the enrolment, prints just
  -- the value that was set, if its reason is valid UTF-8, its request for the stored text fits into
  -- 1 MiB and Bob's rate limit lets that one request through.
  pub set-get :
      (w w' : Commands.World) (f : SetFlags) (g : GetFlags) (key value iv : Bytes) (v after : Vault)
      (e : SecretEntry) (s t : Session Peer)
      → cmd_set alices generator estimate w f (key ∷ []) s ≡ (t, ok done)
      → load s.disk ≡ ok v
      → read_value generator w f (is_some (get v key)) ≡ ok (some value)
      → All IsByte value
      → IsUtf8 key
      → IsUtf8 value
      → (worlds s.peer.1).random 0 ≡ some iv
      → IsNonce iv
      → s.peer.0.store.current ≤ max_int
      → (allow
          (limit_of s.peer.0.policy)
          identity
          ((worlds (suc s.peer.1)).clock 0)
          s.peer.0.buckets).1
        ≡ true
      → IsReady w'
      → g.reveal ≡ true
      → g.as_json ≡ false
      → IsUtf8 g.reason
      → load t.disk ≡ ok after
      → get after key ≡ some e
      → json.size (json.write_request (decrypt_request g.reason key e.value)) ≤ max_req_bytes
      → (Authz.allowed s.peer.0.policy identity key ≡ true)
        × ((u : Session Peer) × (cmd_get alices w' g (key ∷ []) t ≡ (u, ok revealed))
            × (u.printed ≡ t.printed ++ (value ∷ [])))
  unfolding get
  set-get w w' f g key value iv v after e s t h hl hv bytes hk text hiv nonce fits passes ready hr
        hj hreason ha he size =
      let st = cmd_set-Stores alices generator estimate w f key s t h in
      let same_v : st.v ≡ v = cc (sym st.loaded ∙ hl) in
      let chosen = rw same_v at st.chosen in
      let same_value : st.value ≡ value = cc (sym chosen ∙ hv) in
      let sealed =
        encrypt-Sealed json aead identity worlds laws key value s.peer.0 s.peer.1 hk text st.packed
          iv t.peer hiv nonce (rw same_value at st.sealed) in
      let there : lookup key (insert key st.entry st.v.secrets) ≡ some st.entry =
        lookup-insert key key st.entry st.v.secrets ∙ rw (beq_refl key) refl in
      let same_after : after ≡ record { version = 1; secrets = insert key st.entry st.v.secrets } =
        cc (sym ha ∙ st.saved) in
      let same_e : e ≡ st.entry = cc (sym he ∙ ap (λ x. lookup key x.secrets) same_after ∙ there) in
      let same_packed : e.value ≡ st.packed = ap (λ x. x.value) same_e ∙ st.holds in
      let opens =
        Sealed-opens g.reason key value iv st.packed s.peer.0 t.peer.0 s.peer.1 t.peer.1 sealed
          bytes hreason hk text hiv nonce fits passes
          (transport
            (ap
              (λ p. json.size (json.write_request (decrypt_request g.reason key p)) ≤ max_req_bytes)
              same_packed)
            size) in
      (
        (first_denied-none s.peer.0.policy identity (key ∷ []) sealed.allowed).0,
        get-reveals alices w' g key value after e t ready hr hj ha he (
            transport
              (ap (λ p. (Client.decrypt alices g.reason key p t.peer).1 ≡ ok (value, []))
                (sym same_packed))
              opens),
      )
