-- ===== src/Keystore/Invariant.antt =====
-- internal/keystore/keystore.go: the invariant of the store, over its operations and histories.
use an_b.Base.{
  ℕ, zero, suc, ◌≤◌, List, [], ◌∷◌, Option, none, some, Bytes, Table, lookup, insert, delete,
  lookup-insert, lookup-delete, ◌==◌, nat_eq, nat_beq_iff, beq_refl, Result, ok, err, ◌≡◌, ◌≢◌,
  refl, ◌⊎◌, inl, inr, arith, Option-cases, Bool-cases,
}
use an_b.Crypto.Packed.{Aead}
use an_b.Keystore.{
  KeyError, Store, new, zeroize_locked, arm_locked, on_timer, hold_multi, add_key, remove_key,
  zeroize, finish, encrypt, decrypt, Op, op_hold, op_add, op_remove, op_encrypt, op_decrypt,
  op_zeroize, op_fire, op_timer, step, run, fire, run_callback,
}

pub record Inv (s : Store) : Type 0 where
  -- an unlocked store holds the key that Encrypt uses
  pub has_current : s.current ≢ 0 → (k : Bytes) × (lookup s.current s.keys ≡ some k)
  -- a locked store holds no key at all
  pub locked_empty : s.current ≡ 0 → s.keys ≡ []
  -- an unlocked store with a TTL has a timer that will fire, or a callback that waits to wipe it
  pub guarded : s.current ≢ 0 → s.ttl ≢ 0 → (s.armed ≡ some s.expires_at) ⊎ (1 ≤ s.pending)

-- key versions are at least 1: 0 says "locked"
abbrev pub IsVersioned : (aead : Aead) → Op aead → Type 0
IsVersioned aead (op_hold ks current ttl now) = 1 ≤ current
IsVersioned aead (op_add id key now) = 1 ≤ id
IsVersioned aead _ = Unit

new-Inv : Inv new
unfolding lookup
new-Inv = record {
  has_current = λ h. absurd (h refl);
  locked_empty = λ _. refl;
  guarded = λ h. absurd (h refl);
}

-- the timer is armed last, so `guarded` needs nothing of the state before
arm_locked-Inv :
    (now : ℕ) (s : Store)
    → (s.current ≢ 0 → (k : Bytes) × (lookup s.current s.keys ≡ some k))
    → (s.current ≡ 0 → s.keys ≡ [])
    → Inv (arm_locked now s)
unfolding arm_locked
arm_locked-Inv now s has empty = elim (Bool-cases (s.ttl == 0)) [
  | inl off ↦ rw off (record {
    has_current = has;
    locked_empty = empty;
    guarded = λ _ t. absurd (t ((nat_beq_iff s.ttl 0).0 off));
  })
  | inr on ↦ rw on (record { has_current = has; locked_empty = empty; guarded = λ _ _. inl refl })
]

zeroize_locked-Inv : (s : Store) → Inv (zeroize_locked s)
unfolding zeroize_locked
zeroize_locked-Inv s = record {
  has_current = λ h. absurd (h refl);
  locked_empty = λ _. refl;
  guarded = λ h. absurd (h refl);
}

hold_multi-Inv :
    (ks : Table ℕ Bytes) (current ttl now : ℕ) (s : Store)
    → 1 ≤ current
    → Inv (hold_multi ks current ttl now s)
unfolding hold_multi
hold_multi-Inv ks current ttl now s pos = elim (Option-cases (lookup current ks)) [
  | inl e ↦ rw e (zeroize_locked-Inv s)
  | inr (k, e) ↦ rw e (arm_locked-Inv now _ (λ _. (k, e)) (λ z. absurd (omega arith)))
]

add_key-Inv : (id : ℕ) (key : Bytes) (now : ℕ) (s : Store) → 1 ≤ id → Inv (add_key id key now s)
unfolding add_key
add_key-Inv id key now s pos =
    arm_locked-Inv now (record s { keys = insert id key s.keys; current = id })
      (λ _. (key, rw (lookup-insert id id, beq_refl id))) (λ z. absurd (omega arith))

remove_key-Inv : (id : ℕ) (s : Store) → Inv s → Inv (remove_key id s).0
unfolding remove_key
remove_key-Inv id s v = elim (Bool-cases (id == s.current)) [
  | inl same ↦ rw same v
  | inr other ↦ rw other (elim (Option-cases (lookup id s.keys)) [
    | inl e ↦ rw e v
    | inr (k, e) ↦ rw e (record {
      has_current =
          λ h. let (c, ec) = v.has_current h in (c, rw (lookup-delete id s.current, other) ec);
      locked_empty = λ z. rw (v.locked_empty z) (unfold delete in refl);
      guarded = v.guarded;
    })
  ])
]

finish-Inv {ℓ} :
    {A : Type ℓ} (now : ℕ) (s : Store) (r : Result KeyError A) → Inv s → Inv (finish now s r).0
finish-Inv now s (ok a) v = arm_locked-Inv now s v.has_current v.locked_empty
finish-Inv now s (err e) v = v

on_timer-Inv : (s : Store) → Inv (on_timer s)
unfolding on_timer
on_timer-Inv s = record {
  has_current = λ h. absurd (h refl);
  locked_empty = λ _. refl;
  guarded = λ h. absurd (h refl);
}

module _ (aead : Aead) where
  fire-Inv : (o : Option ℕ) (s : Store) → Inv s → Inv (fire aead o s)
  fire-Inv none s v = v
  fire-Inv (some d) s v = record {
    has_current = v.has_current;
    locked_empty = v.locked_empty;
    guarded = λ _ _. inr (omega arith);
  }

  run_callback-Inv : (n : ℕ) (s : Store) → Inv s → Inv (run_callback aead n s)
  run_callback-Inv zero s v = v
  run_callback-Inv (suc n) s v = on_timer-Inv s

  -- Every operation, and every event of the timer, keeps the invariant.
  step-Inv : (o : Op aead) (s : Store) → IsVersioned aead o → Inv s → Inv (step aead o s)
  unfolding step encrypt decrypt zeroize
  step-Inv (op_hold ks current ttl now) s pos v = hold_multi-Inv ks current ttl now s pos
  step-Inv (op_add id key now) s pos v = add_key-Inv id key now s pos
  step-Inv (op_remove id) s pos v = remove_key-Inv id s v
  step-Inv (op_encrypt name pt random now) s pos v = finish-Inv now s _ v
  step-Inv (op_decrypt name packed random now) s pos v = finish-Inv now s _ v
  step-Inv op_zeroize s pos v = zeroize_locked-Inv s
  step-Inv op_fire s pos v = fire-Inv s.armed s v
  step-Inv op_timer s pos v = run_callback-Inv s.pending s v

  abbrev pub AllVersioned : List (Op aead) → Type 0
  AllVersioned [] = Unit
  AllVersioned (o ∷ os) = IsVersioned aead o × AllVersioned os

  run-Inv : (os : List (Op aead)) (s : Store) → AllVersioned os → Inv s → Inv (run aead os s)
  unfolding run
  run-Inv [] s h v = v
  run-Inv (o ∷ os) s (ho, hs) v = run-Inv os (step aead o s) hs (step-Inv o s ho v)

  -- After any history that starts empty and uses versions of at least 1: an unlocked store holds
  -- its current key, a locked one holds none, and an unlocked one with a TTL has a timer armed at
  -- its expiry or a callback waiting to wipe it.
  pub run-new-Inv : (os : List (Op aead)) → AllVersioned os → Inv (run aead os new)
  run-new-Inv os h = run-Inv os new h new-Inv
