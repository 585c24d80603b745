-- ===== src/Keystore/Timer.antt =====
-- internal/keystore/keystore.go: locking, by Zeroize and by the idle timer.
use an_b.Base.{
  ℕ, zero, suc, ◌+◌, ◌≤◌, false, List, [], ◌∷◌, Option, none, some, Bytes, lookup, ◌==◌, nat_eq,
  err, ◌≡◌, ◌≢◌, refl, ◌⊎◌, inl, inr, arith, Bool-cases, ◌∙◌,
}
use an_b.Crypto.Packed.{Aead}
use an_b.Keystore.{
  locked, Store, on_timer, remove_key, zeroize, unlocked, encrypt, encrypt_result, decrypt,
  decrypt_result, Op, op_hold, op_add, op_remove, op_encrypt, op_decrypt, op_zeroize, op_fire,
  op_timer, step, run, fire, run_callback, ttl_remaining,
}
use an_b.Keystore.Invariant.{Inv}

-- no key is held, and none is current
abbrev pub IsLocked : Store → Type 0
IsLocked s = (s.current ≡ 0) × (s.keys ≡ [])

-- the operations that bring no key in
abbrev pub BringsNoKey : (aead : Aead) → Op aead → Type 0
BringsNoKey aead (op_hold ks current ttl now) = ⊥
BringsNoKey aead (op_add id key now) = ⊥
BringsNoKey aead _ = Unit

remove_key-IsLocked : (id : ℕ) (s : Store) → IsLocked s → IsLocked (remove_key id s).0
unfolding remove_key
remove_key-IsLocked id s (c, k) = elim (Bool-cases (id == s.current)) [
  | inl same ↦ rw same (c, k)
  | inr other ↦
      let e : lookup id s.keys ≡ none = rw k (unfold lookup in refl) in rw (other, e) (c, k)
]

kept-IsLocked :
    {A : Type 0} {p : Store × A} (s : Store) (a : A) → p ≡ (s, a) → IsLocked s → IsLocked p.0
kept-IsLocked s a e l = rw e l

armed_or_pending :
    (s : Store)
    → (s.armed ≡ some s.expires_at) ⊎ (1 ≤ s.pending)
    → (s.armed ≢ none) ⊎ (1 ≤ s.pending)
armed_or_pending s (inl e) = inl (λ n. cc)
armed_or_pending s (inr h) = inr h

module _ (aead : Aead) where
  -- A locked store refuses Encrypt and Decrypt with ErrLocked and is left as it was, whatever the
  -- arguments, and reports no time left.
  locked_refuses :
      (name text : Bytes) (random : Option Bytes) (now : ℕ) (s : Store)
      → IsLocked s
      → (encrypt aead name text random now s ≡ (s, err locked))
        × (decrypt aead name text random now s ≡ (s, err locked))
        × (unlocked s ≡ false)
        × (ttl_remaining now s ≡ 0)
  unfolding encrypt decrypt encrypt_result decrypt_result unlocked ttl_remaining
  locked_refuses name text random now s (c, k) = rw c (refl, refl, refl, refl)

  zeroize-IsLocked : (s : Store) → IsLocked (zeroize s)
  unfolding zeroize
  zeroize-IsLocked s = (refl, refl)

  on_timer-IsLocked : (s : Store) → IsLocked (on_timer s)
  unfolding on_timer
  on_timer-IsLocked s = (refl, refl)

  fire-IsLocked : (o : Option ℕ) (s : Store) → IsLocked s → IsLocked (fire aead o s)
  fire-IsLocked none s l = l
  fire-IsLocked (some d) s l = l

  callback-IsLocked : (n : ℕ) (s : Store) → IsLocked s → IsLocked (run_callback aead n s)
  callback-IsLocked zero s l = l
  callback-IsLocked (suc n) s l = on_timer-IsLocked s

  step-IsLocked :
      (o : Op aead) (s : Store) → BringsNoKey aead o → IsLocked s → IsLocked (step aead o s)
  unfolding step
  step-IsLocked (op_hold ks current ttl now) s none_in l = absurd none_in
  step-IsLocked (op_add id key now) s none_in l = absurd none_in
  step-IsLocked (op_remove id) s _ l = remove_key-IsLocked id s l
  step-IsLocked (op_encrypt name pt random now) s _ l =
      kept-IsLocked s _ (locked_refuses name pt random now s l).0 l
  step-IsLocked (op_decrypt name packed random now) s _ l =
      kept-IsLocked s _ (locked_refuses name packed random now s l).1 l
  step-IsLocked op_zeroize s _ l = zeroize-IsLocked s
  step-IsLocked op_fire s _ l = fire-IsLocked s.armed s l
  step-IsLocked op_timer s _ l = callback-IsLocked s.pending s l

  abbrev pub NoneBringsKey : List (Op aead) → Type 0
  NoneBringsKey [] = Unit
  NoneBringsKey (o ∷ os) = BringsNoKey aead o × NoneBringsKey os

  run-IsLocked :
      (os : List (Op aead)) (s : Store) → NoneBringsKey os → IsLocked s → IsLocked (run aead os s)
  unfolding run
  run-IsLocked [] s h l = l
  run-IsLocked (o ∷ os) s (ho, hs) l = run-IsLocked os (step aead o s) hs (step-IsLocked o s ho l)

  -- After Zeroize no key comes back, whatever calls and timer events follow, until a key is
  -- brought in.
  pub zeroized_stays-IsLocked :
      (os : List (Op aead)) (s : Store) → NoneBringsKey os → IsLocked (run aead os (zeroize s))
  zeroized_stays-IsLocked os s h = run-IsLocked os (zeroize s) h (zeroize-IsLocked s)

  callback-locks :
      (n : ℕ) (s : Store)
      → 1 ≤ n
      → s.current ≢ 0
      → IsLocked (run_callback aead n s) × ((run_callback aead n s).lock_calls ≡ s.lock_calls + 1)
  unfolding on_timer
  callback-locks zero s h nz = absurd (omega arith)
  callback-locks (suc n) s h nz = ((refl, refl), ground arith)

  fire-pending :
      (o : Option ℕ) (s : Store)
      → (o ≢ none) ⊎ (1 ≤ s.pending)
      → (1 ≤ (fire aead o s).pending)
        × ((fire aead o s).current ≡ s.current)
        × ((fire aead o s).lock_calls ≡ s.lock_calls)
  fire-pending none s (inl h) = absurd (h refl)
  fire-pending none s (inr h) = (h, refl, refl)
  fire-pending (some d) s h = (omega arith, refl, refl)

  -- The idle timer always wipes: in a state that a history can reach, an unlocked store with a TTL
  -- is locked, with no key left, once its timer has fired and the callback has run, and onLock is
  -- called exactly once.
  pub idle_lock :
      (s : Store)
      → Inv s
      → s.current ≢ 0
      → s.ttl ≢ 0
      → let after = step aead op_timer (step aead op_fire s) in
        IsLocked after × (after.lock_calls ≡ s.lock_calls + 1)
  unfolding step
  idle_lock s v nz timed =
      let (waits, same, calls) = fire-pending s.armed s (armed_or_pending s (v.guarded nz timed)) in
      let (l, c) =
        callback-locks (fire aead s.armed s).pending (fire aead s.armed s) waits (rw same nz) in
      (l, c ∙ rw calls)
