-- ===== src/Bob/Laws.antt =====
-- cmd/bob/main.go: what `bob serve` serves, and that it opens what `bob init` has made.
use an_b.Base.{
  ℕ, Bool, true, false, not, ◌&&◌, ◌||◌, [], ◌∷◌, some, Bytes, Table, lookup, insert, Result, ok,
  err, refl, if◌then◌else◌, ◌≡◌, ◌≢◌, ◌↔◌, ◌∙◌, sym, ap, All, arith, length, bind-eq-ok, require,
  or_fail, map_err, bytes_eq, nat_eq,
}
use an_b.Authz
use an_b.Authz.{Policy}
use an_b.Crypto.Hex.{IsByte}
use an_b.Crypto.Packed.{Aead}
use an_b.Crypto.Envelope.{EnvelopeFile, find_key}
use an_b.Crypto.Wrap.{Kdf, IsRandom, master_key_len, unwrap, unwrap-wrap}
use an_b.Rotate.{unwrap_all}
use an_b.Keystore.{Store, new, hold_multi, unlocked, zeroize_locked, arm_locked}
use an_b.Bob.{
  BobError, InitWorld, ServeWorld, serving, cmd_init, cmd_serve, init_password, serve_password,
  opted_in, duration_of, first_file, serve_with, detach, not_opened, policy_of, bad_file,
  no_current, wrong_password, allow_all_refused, bad_tls, cannot_listen, missing_file,
}
use an_b.Bob.Conditions.{
  GivenBy, Closed, Opened, serve_password-GivenBy, GivenBy-serve_password, test-Closed, Closed-test,
  unwrap_all-Opened, Opened-unwrap_all,
}

require-true : (c : Bool) (e : BobError) (u : Unit {0}) → require c e ≡ ok u → c ≡ true
require-true true e u h = refl
require-true false e u h = absurd (cc)

map_err-ok {ℓ κ} :
    {E : Type ℓ} {A : Type κ} (f : E → BobError) (r : Result E A) (a : A)
    → map_err f r ≡ ok a
    → r ≡ ok a
map_err-ok f (ok b) a h = cc
map_err-ok f (err e) a h = absurd (cc)

policy_of-ok : (r : Authz.Loaded) (p : Policy) → policy_of r ≡ ok p → r ≡ Authz.ok p
policy_of-ok (Authz.ok q) p h = cc
policy_of-ok Authz.read_error p h = absurd (cc)
policy_of-ok Authz.json_error p h = absurd (cc)
policy_of-ok (Authz.bad_limit i n) p h = absurd (cc)

-- the conditions of `bob init`, with this password
pub record Initializes (w : InitWorld) (password : Bytes) : Type 0 where
  pub has_ca_key : w.has_ca_key ≡ true
  pub fresh : (not w.has_envelope || w.force) ≡ true
  pub loads_ca : w.loads_ca ≡ true
  pub asked : init_password w ≡ ok password
  pub can_write : w.can_write ≡ true

held-one :
    (ttl now : ℕ) (key : Bytes)
    → let s = hold_multi ((1, key) ∷ []) 1 ttl now new in
      (unlocked s ≡ true) × (s.current ≡ 1) × (s.keys ≡ (1, key) ∷ [])
unfolding unlocked hold_multi zeroize_locked arm_locked lookup
held-one ttl now key = ground arith

module _ (aead : Aead) (kdf : Kdf) where
  abbrev held : ServeWorld → EnvelopeFile → Table ℕ Bytes → Store
  held w f keys = hold_multi keys f.current (duration_of w.ttl) w.now new

  -- What a process that serves has: the files; a password from the variable, the parent or the
  -- terminal that opens every envelope of the file; a policy that has been loaded and does not allow
  -- everything unless the operator asked for it; and a store with just the opened keys.
  pub record Serves (w : ServeWorld) (s : Store) (p : Policy) : Type 0 where
    pub file : EnvelopeFile
    pub password : Bytes
    pub keys : Table ℕ Bytes
    pub has_files : w.has_files ≡ true
    pub read : w.file ≡ ok file
    pub asked : GivenBy w password
    pub foreground : (w.daemon && not w.is_child) ≡ false
    pub opened : Opened aead kdf file.keys password [] keys
    pub loaded : w.policy ≡ Authz.ok p
    pub closed : Closed w p
    pub makes_tls : w.makes_tls ≡ true
    pub listens : w.listens ≡ true
    pub store : s ≡ held w file keys

  serve_with-Serves :
      (w : ServeWorld) (f : EnvelopeFile) (password : Bytes) (s : Store) (p : Policy)
      → w.has_files ≡ true
      → w.file ≡ ok f
      → serve_password w ≡ ok password
      → (w.daemon && not w.is_child) ≡ false
      → serve_with aead kdf w f password ≡ ok (serving s p)
      → Serves w s p
  serve_with-Serves w f password s p hf hr ha hg h =
      let (keys, e1, h1) =
        bind-eq-ok (map_err not_opened (unwrap_all aead kdf f.keys password [])) _ h in
      let (q, e2, h2) = bind-eq-ok (policy_of w.policy) _ h1 in
      let (u3, e3, h3) =
        bind-eq-ok (require (not q.default_allow || opted_in w) allow_all_refused) _ h2 in
      let (u4, e4, h4) = bind-eq-ok (require w.makes_tls bad_tls) _ h3 in
      let (u5, e5, h5) = bind-eq-ok (require w.listens cannot_listen) _ h4 in
      let same : q ≡ p = cc in
      record {
        file = f;
        password = password;
        keys = keys;
        has_files = hf;
        read = hr;
        asked = serve_password-GivenBy w password ha;
        foreground = hg;
        opened =
            unwrap_all-Opened aead kdf f.keys password [] keys (map_err-ok not_opened _ keys e1);
        loaded = policy_of-ok w.policy q e2 ∙ ap Authz.ok same;
        closed =
            test-Closed w p
              (ap (λ r. not r.default_allow || opted_in w) (sym same) ∙ require-true _ _ u3 e3);
        makes_tls = require-true _ _ u4 e4;
        listens = require-true _ _ u5 e5;
        store = cc;
      }

  detach-not-serving :
      (f : EnvelopeFile) (password : Bytes) (s : Store) (p : Policy)
      → detach aead kdf f password ≢ ok (serving s p)
  detach-not-serving f password s p h =
      let (cur, e1, h1) = bind-eq-ok (or_fail no_current (find_key f.keys f.current)) _ h in
      let (mk, e2, h2) = bind-eq-ok (map_err wrong_password (unwrap aead kdf cur password)) _ h1 in
      cc

  by_mode :
      (w : ServeWorld) (f : EnvelopeFile) (password : Bytes) (s : Store) (p : Policy)
      (background : Bool)
      → (w.daemon && not w.is_child) ≡ background
      → w.has_files ≡ true
      → w.file ≡ ok f
      → serve_password w ≡ ok password
      → (if background then detach aead kdf f password else serve_with aead kdf w f password)
        ≡ ok (serving s p)
      → Serves w s p
  by_mode w f password s p true e hf hr ha h = absurd (detach-not-serving f password s p h)
  by_mode w f password s p false e hf hr ha h = serve_with-Serves w f password s p hf hr ha e h

  serve-Serves :
      (w : ServeWorld) (s : Store) (p : Policy)
      → cmd_serve aead kdf w ≡ ok (serving s p)
      → Serves w s p
  unfolding cmd_serve
  serve-Serves w s p h =
      let (u1, e1, h1) = bind-eq-ok (require w.has_files missing_file) _ h in
      let (f, e2, h2) = bind-eq-ok (map_err bad_file w.file) _ h1 in
      let (password, e3, h3) = bind-eq-ok (serve_password w) _ h2 in
      by_mode w f password s p _ refl (require-true _ _ u1 e1) (map_err-ok bad_file w.file f e2) e3
        h3

  pub cmd_serve_iff :
      (w : ServeWorld) (s : Store) (p : Policy)
      → (cmd_serve aead kdf w ≡ ok (serving s p)) ↔ Serves w s p
  unfolding cmd_serve
  cmd_serve_iff w s p = (
    serve-Serves w s p,
    λ h.
        rw
          (
            h.has_files,
            h.read,
            GivenBy-serve_password w h.password h.asked,
            h.foreground,
            Opened-unwrap_all aead kdf h.file.keys h.password [] h.keys h.opened,
            h.loaded,
            Closed-test w p h.closed,
            h.makes_tls,
            h.listens,
            h.store,
          )
          refl,
  )

  -- `bob init` with a password, 32 random bytes for the key, and a salt and a nonce, writes an envelope
  -- file. A `bob serve` in the foreground that reads this file, with the same password and a policy
  -- that it accepts, serves, and its store is unlocked and holds the key under version 1, as current.
  pub serve-init :
      (w : InitWorld) (sw : ServeWorld) (password key salt iv : Bytes) (p : Policy)
      → Initializes w password
      → w.random_key ≡ some key
      → length key ≡ master_key_len
      → All IsByte key
      → w.random_salt ≡ some salt
      → w.random_nonce ≡ some iv
      → IsRandom aead kdf salt iv
      → sw.has_files ≡ true
      → serve_password sw ≡ ok password
      → (sw.daemon && not sw.is_child) ≡ false
      → sw.policy ≡ Authz.ok p
      → (not p.default_allow || opted_in sw) ≡ true
      → sw.makes_tls ≡ true
      → sw.listens ≡ true
      → (f : EnvelopeFile) × (s : Store) × (cmd_init aead kdf w ≡ ok f)
        × (cmd_serve aead kdf (record sw { file = ok f }) ≡ ok (serving s p))
        × (unlocked s ≡ true)
        × (s.current ≡ 1)
        × (s.keys ≡ (1, key) ∷ [])
  unfolding cmd_init unwrap_all unwrap insert serve_password
  serve-init w sw password key salt iv p init hk size bytes hs hn random files asked mode policy
        closed tls listens =
      let (e, wrapped, opens) = unwrap-wrap aead kdf key password salt iv size bytes random in
      let f = first_file aead kdf w.now e in
      let sw' = record sw { file = ok f } in
      let opened : unwrap_all aead kdf f.keys password [] ≡ ok ((1, key) ∷ []) = rw opens refl in
      let s = held (record sw { file = ok f }) f ((1, key) ∷ []) in
      let served = (cmd_serve_iff (record sw { file = ok f }) s p).1 (record {
        file = f;
        password = password;
        keys = (1, key) ∷ [];
        has_files = files;
        read = refl;
        asked = serve_password-GivenBy sw' password asked;
        foreground = mode;
        opened = unwrap_all-Opened aead kdf f.keys password [] ((1, key) ∷ []) opened;
        loaded = policy;
        closed = test-Closed sw' p closed;
        makes_tls = tls;
        listens = listens;
        store = refl;
      }) in
      (
        f,
        s,
        rw
            (
              init.has_ca_key, init.fresh, init.loads_ca, init.asked, hk, hs, hn, wrapped,
              init.can_write,
            )
            refl,
        served,
        (held-one (duration_of sw.ttl) sw.now key).0,
        (held-one (duration_of sw.ttl) sw.now key).1,
        (held-one (duration_of sw.ttl) sw.now key).2,
      )
