-- ===== src/Keystore.antt =====
-- internal/keystore/keystore.go: Bob's master keys in memory.
-- Every method holds the mutex from its first line to its last, so it is one step. Times are
-- nanoseconds. A TTL that is not positive is 0 here, and versions are not negative. Copying a
-- key and locking or wiping its memory do not show in the values.
pub mod Invariant
pub mod Sealing
pub mod Ascii
pub mod Timer
use an_b.Base.{
  ℕ, zero, suc, ◌+◌, ◌-◌, Bool, true, false, not, ◌&&◌, ◌||◌, List, [], ◌∷◌, Option, none, some,
  Bytes, Table, lookup, insert, delete, ◌==◌, nat_eq, if◌then◌else◌, Result, ok, err, ◌>>=◌,
  map_err, or_fail,
}
use an_b.Crypto.{Error}
use an_b.Crypto.Packed.{Aead, seal_aad, open_aad}
use an_b.Crypto.Version.{pack_version, parse_version}

pub data KeyError : Type 0 where
  locked unknown_version cannot_finalize_current : KeyError
  crypto : Error → KeyError

pub record Store : Type 0 where
  pub keys : Table ℕ Bytes
  pub current : ℕ
  pub ttl : ℕ
  pub expires_at : ℕ
  -- the deadline of a timer that has neither fired nor been stopped
  pub armed : Option ℕ
  -- callbacks of fired timers that wait for the mutex
  pub pending : ℕ
  -- calls of onLock so far
  pub lock_calls : ℕ

-- keystore.New
abbrev pub new : Store
new = record {
  keys = [];
  current = 0;
  ttl = 0;
  expires_at = 0;
  armed = none;
  pending = 0;
  lock_calls = 0;
}

unfoldable pub zeroize_locked : Store → Store
zeroize_locked s = record s { armed = none; keys = []; current = 0 }

unfoldable pub arm_locked : ℕ → Store → Store
arm_locked now s =
    if s.ttl == 0 then s else record s { expires_at = now + s.ttl; armed = some (now + s.ttl) }

-- the callback of the timer, once it has the mutex
unfoldable pub on_timer : Store → Store
unfolding zeroize_locked
on_timer s =
    let had = not (s.current == 0) in
    let z = zeroize_locked s in
    record z {
      pending = z.pending - 1;
      lock_calls = if had then z.lock_calls + 1 else z.lock_calls;
    }

abbrev install : Option Bytes → Table ℕ Bytes → ℕ → ℕ → ℕ → Store → Store
install none ks current ttl now s = s
install (some _) ks current ttl now s =
    arm_locked now (record s { keys = ks; current = current; ttl = ttl })

-- `keys == nil`, `len(keys) == 0` and a missing current leave the store locked
unfoldable pub hold_multi : Table ℕ Bytes → ℕ → ℕ → ℕ → Store → Store
unfolding zeroize_locked arm_locked
hold_multi ks current ttl now s = install (lookup current ks) ks current ttl now (zeroize_locked s)

pub hold : Bytes → ℕ → ℕ → Store → Store
hold key ttl = hold_multi ((1, key) ∷ []) 1 ttl

unfoldable pub add_key : ℕ → Bytes → ℕ → Store → Store
unfolding arm_locked
add_key id key now s = arm_locked now (record s { keys = insert id key s.keys; current = id })

abbrev removal : ℕ → Option Bytes → Store → Store × Result KeyError (Unit {0})
removal id none s = (s, err unknown_version)
removal id (some k) s = (record s { keys = delete id s.keys }, ok tt)

unfoldable pub remove_key : ℕ → Store → Store × Result KeyError (Unit {0})
remove_key id s =
    if id == s.current then (s, err cannot_finalize_current) else removal id (lookup id s.keys) s

unfoldable pub unlocked : Store → Bool
unlocked s = not (s.current == 0)

pub current_version : Store → ℕ × Bool
current_version s = (s.current, not (s.current == 0))

unfoldable pub ttl_remaining : ℕ → Store → ℕ
ttl_remaining now s = if s.current == 0 || s.ttl == 0 then 0 else s.expires_at - now

unfoldable pub zeroize : Store → Store
unfolding zeroize_locked
zeroize s = zeroize_locked s

-- what a method leaves behind: on success it arms the timer, on an error it changes nothing
abbrev pub finish {ℓ} : {A : Type ℓ} → ℕ → Store → Result KeyError A → Store × Result KeyError A
finish now s (ok a) = (arm_locked now s, ok a)
finish now s (err e) = (s, err e)

-- a decryption's plaintext, the rewrapped value (empty where there is none), and whether the
-- ciphertext was on the current version
abbrev pub Opened : Type 0
Opened = Bytes × Bytes × Bool

module _ (aead : Aead) where
  unfoldable pub encrypt_result : Bytes → Bytes → Option Bytes → Store → Result KeyError Bytes
  encrypt_result name plaintext random s = if s.current == 0 then err locked else (do
    k ← or_fail locked (lookup s.current s.keys)
    raw ← map_err crypto (seal_aad aead k plaintext name random)
    ok (pack_version s.current raw))

  unfoldable pub encrypt : Bytes → Bytes → Option Bytes → ℕ → Store → Store × Result KeyError Bytes
  unfolding arm_locked
  encrypt name plaintext random now s = finish now s (encrypt_result name plaintext random s)

  -- a missing current key is the nil slice
  abbrev key_of : Option Bytes → Bytes
  key_of none = []
  key_of (some k) = k

  unfoldable pub rewrap : Bytes → Bytes → Option Bytes → Store → Result KeyError Opened
  rewrap name pt random s = do
    sealed ← map_err crypto (seal_aad aead (key_of (lookup s.current s.keys)) pt name random)
    ok (pt, pack_version s.current sealed, false)

  unfoldable pub decrypt_result : Bytes → Bytes → Option Bytes → Store → Result KeyError Opened
  unfolding rewrap
  decrypt_result name packed random s = if s.current == 0 then err locked else (do
    (ver, raw) ← map_err crypto (parse_version packed)
    k ← or_fail unknown_version (lookup ver s.keys)
    pt ← map_err crypto (open_aad aead k raw name)
    if ver == s.current then ok (pt, [], true) else rewrap name pt random s)

  unfoldable pub decrypt : Bytes → Bytes → Option Bytes → ℕ → Store → Store × Result KeyError Opened
  unfolding arm_locked
  decrypt name packed random now s = finish now s (decrypt_result name packed random s)

  -- what may happen to the store; a timer fires at any time after its deadline
  pub data Op : Type 0 where
    op_hold : Table ℕ Bytes → ℕ → ℕ → ℕ → Op
    op_add : ℕ → Bytes → ℕ → Op
    op_remove : ℕ → Op
    op_encrypt op_decrypt : Bytes → Bytes → Option Bytes → ℕ → Op
    op_zeroize op_fire op_timer : Op

  -- the runtime starts the callback, which then waits for the mutex
  abbrev fire : Option ℕ → Store → Store
  fire none s = s
  fire (some deadline) s = record s { armed = none; pending = s.pending + 1 }

  abbrev run_callback : ℕ → Store → Store
  run_callback zero s = s
  run_callback (suc n) s = on_timer s

  unfoldable pub step : Op → Store → Store
  step (op_hold ks current ttl now) s = hold_multi ks current ttl now s
  step (op_add id key now) s = add_key id key now s
  step (op_remove id) s = (remove_key id s).0
  step (op_encrypt name pt random now) s = (encrypt name pt random now s).0
  step (op_decrypt name packed random now) s = (decrypt name packed random now s).0
  step op_zeroize s = zeroize s
  step op_fire s = fire s.armed s
  step op_timer s = run_callback s.pending s

  unfoldable pub run : List Op → Store → Store
  run [] s = s
  run (o ∷ os) s = run os (step o s)
