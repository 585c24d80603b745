-- ===== src/Bob.antt =====
-- cmd/bob/main.go and migrate.go: `bob init`, `bob serve` up to the first request, and
-- `bob migrate-aad`. What the commands read is an argument.
pub mod Migrate
pub mod Conditions
pub mod Laws
pub mod Bound
use an_b.Base.{
  ℕ, suc, zero, ◌*◌, ◌%◌, ◌^◌, ◌-◌, ltb, Bool, true, false, not, ◌&&◌, ◌||◌, List, [], ◌∷◌, Option,
  none, some, Bytes, codes, Table, lookup, Result, ok, err, if◌then◌else◌, ◌==◌, bytes_eq, nat_eq,
  ◌>>=◌, ◌>>◌, require, or_fail, map_err,
}
use an_b.Base.Int.{ℤ, pos, negsuc}
use an_b.Authz
use an_b.Authz.{Policy}
use an_b.Crypto.{Error}
use an_b.Crypto.Packed.{Aead}
use an_b.Crypto.Envelope.{Envelope, EnvelopeFile, FileError, find_key, schema_version}
use an_b.Crypto.Wrap.{Kdf, wrap, unwrap, new_master_key}
use an_b.Rotate.{RotateError, unwrap_all}
use an_b.Keystore.{Store, new, hold_multi}

pub data BobError : Type 0 where
  no_ca initialized bad_ca needs_password no_terminal cannot_write : BobError
  missing_file no_parent_password no_current allow_all_refused bad_tls cannot_listen : BobError
  no_random : Error → BobError
  not_wrapped : Error → BobError
  bad_file : FileError → BobError
  wrong_password : Error → BobError
  not_opened : RotateError → BobError
  bad_authz : BobError

-- what `bob init` finds: files, a CA that loads, the password of the environment or of the terminal,
-- random bytes, and whether the steps behind the envelope file work
pub record InitWorld : Type 0 where
  pub has_ca_key : Bool
  pub has_envelope : Bool
  pub force : Bool
  pub loads_ca : Bool
  pub variable : Bytes
  pub stdin_tty : Bool
  pub typed : Option Bytes
  pub random_key : Option Bytes
  pub random_salt : Option Bytes
  pub random_nonce : Option Bytes
  pub now : Bytes
  pub can_write : Bool

-- the password of $ANB_BOB_PASSWORD, or the one that is typed
unfoldable pub init_password : InitWorld → Result BobError Bytes
init_password w =
    if w.variable == []
    then (if w.stdin_tty then or_fail no_terminal w.typed else err needs_password)
    else ok w.variable

module _ (aead : Aead) (kdf : Kdf) where
  abbrev pub first_file : Bytes → Envelope → EnvelopeFile
  first_file now e = record {
    version = schema_version;
    keys = record e { id = 1; created = now } ∷ [];
    current = 1;
  }

  -- the file envelope.json that is written
  unfoldable pub cmd_init : InitWorld → Result BobError EnvelopeFile
  unfolding init_password
  cmd_init w = do
    require w.has_ca_key no_ca
    require (not w.has_envelope || w.force) initialized
    require w.loads_ca bad_ca
    password ← init_password w
    key ← map_err no_random (new_master_key w.random_key)
    e ← map_err not_wrapped (wrap aead kdf key password w.random_salt w.random_nonce)
    require w.can_write cannot_write
    ok (first_file w.now e)

-- what `bob serve` finds
pub record ServeWorld : Type 0 where
  pub has_files : Bool
  pub file : Result FileError EnvelopeFile
  pub variable : Bytes
  pub is_child : Bool
  pub line : Bytes
  pub stdin_tty : Bool
  pub typed : Option Bytes
  pub daemon : Bool
  pub policy : Authz.Loaded
  pub allow_all : Bool
  pub allow_all_variable : Bytes
  pub ttl : ℤ
  pub now : ℕ
  pub makes_tls : Bool
  pub listens : Bool

-- $ANB_BOB_PASSWORD, the parent's pipe, or the terminal
unfoldable pub serve_password : ServeWorld → Result BobError Bytes
serve_password w =
    if not (w.variable == [])
    then ok w.variable
    else if w.is_child
    then (if w.line == [] then err no_parent_password else ok w.line)
    else if w.stdin_tty
    then or_fail no_terminal w.typed
    else err needs_password

-- the process serves requests with a store and a policy, or hands the password to a child
pub data Serving : Type 0 where
  serving : Store → Policy → Serving
  detached : Bytes → Serving

abbrev policy_of : Authz.Loaded → Result BobError Policy
policy_of (Authz.ok p) = ok p
policy_of _ = err bad_authz

-- a policy that allows all is served only where the operator opted in
abbrev pub opted_in : ServeWorld → Bool
opted_in w = w.allow_all || w.allow_all_variable == codes "1"

-- `time.Duration(*ttl) * time.Second`, a product of int64 that wraps around; a negative one is 0, since
-- the key store arms no timer for either
unfoldable pub duration_of : ℤ → ℕ
duration_of (pos n) = let d = n * 1_000_000_000 % 2 ^ 64 in if ltb d (2 ^ 63) then d else 0
duration_of (negsuc n) =
    let d = (2 ^ 64 - suc n * 1_000_000_000 % 2 ^ 64) % 2 ^ 64 in if ltb d (2 ^ 63) then d else 0

module _ (aead : Aead) (kdf : Kdf) where
  abbrev pub detach : EnvelopeFile → Bytes → Result BobError Serving
  detach f password = do
    cur ← or_fail no_current (find_key f.keys f.current)
    mk ← map_err wrong_password (unwrap aead kdf cur password)
    ok (detached password)

  abbrev pub serve_with : ServeWorld → EnvelopeFile → Bytes → Result BobError Serving
  serve_with w f password = do
    mks ← map_err not_opened (unwrap_all aead kdf f.keys password [])
    policy ← policy_of w.policy
    require (not policy.default_allow || opted_in w) allow_all_refused
    require w.makes_tls bad_tls
    require w.listens cannot_listen
    ok (serving (hold_multi mks f.current (duration_of w.ttl) w.now new) policy)

  unfoldable pub cmd_serve : ServeWorld → Result BobError Serving
  unfolding serve_password
  cmd_serve w = do
    require w.has_files missing_file
    f ← map_err bad_file w.file
    password ← serve_password w
    if w.daemon && not w.is_child then detach f password else serve_with w f password
