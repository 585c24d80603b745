-- ===== src/Server/RateLimiter/Bound.antt =====
-- internal/server/ratelimit.go: runs of calls, and the units that a bucket can pay out.
use an_b.Base.{
  ℕ, ◌+◌, ◌-◌, ◌*◌, ◌≤◌, Bool, true, false, Option, none, some, List, [], ◌∷◌, Bytes, lookup,
  lookup-insert, ltb, bytes_eq, list_beq, list_beq_iff, if◌then◌else◌, ◌≡◌, arith, ◌==◌, beq_refl,
  Bool-cases, inl, inr,
}
use an_b.Server.RateLimiter.{token, Bucket, Buckets, refill, take_token, allow, run}

-- the units that a bucket can pay out at time `t`; a fresh identity starts full
abbrev pub available : ℕ → ℕ → Option Bucket → ℕ
available cap t none = cap * token
available cap t (some b) = refill cap t b

abbrev pub NotAfter : ℕ → Option Bucket → Type 0
NotAfter t none = Unit
NotAfter t (some b) = b.last_refill ≤ t

abbrev pub price : Bool → ℕ
price go = if go then token else 0

split_time : (cap a b c : ℕ) → a ≤ b → b ≤ c → (c - a) * cap ≡ (b - a) * cap + (c - b) * cap
split_time cap a b c h k = let e : c - a ≡ (b - a) + (c - b) = omega arith in rw e (omega arith)

refill-le : (cap t : ℕ) (b : Bucket) → refill cap t b ≤ cap * token
unfolding refill
refill-le cap t b = ground arith

available-le : (cap t : ℕ) (o : Option Bucket) → available cap t o ≤ cap * token
available-le cap t none = omega arith
available-le cap t (some b) = refill-le cap t b

-- waiting from `s` to `t` credits at most `cap` units for each nanosecond
available_later :
    (cap s t : ℕ) (o : Option Bucket)
    → NotAfter s o
    → s ≤ t
    → available cap t o ≤ available cap s o + (t - s) * cap
available_later cap s t none n h = omega arith
available_later cap s t (some b) n h =
    unfold refill in ground (arith, split_time cap b.last_refill s t n h)

refill_now :
    (cap t : ℕ) (k : ℕ)
    → k ≤ cap * token
    → refill cap t (record { tokens = k; last_refill = t }) ≡ k
unfolding refill
refill_now cap t k h =
    let e : (t - t) * cap ≡ 0 = (let z : t - t ≡ 0 = omega arith in rw z (omega arith)) in
    ground (arith, e)

-- a call takes what it pays for out of the bucket
take_token-pays :
    (cap now : ℕ) (o : Option Bucket)
    → 1 ≤ cap
    → price (take_token cap now o).1 + available cap now (some (take_token cap now o).0)
      ≤ available cap now o
unfolding take_token
take_token-pays cap now none c =
    rw (refill_now cap now (cap * token - token) (omega arith)) (omega arith)
take_token-pays cap now (some b) c = elim (Bool-cases (ltb (refill cap now b) token)) [
  | inl low ↦
      rw low (rw (refill_now cap now (refill cap now b) (refill-le cap now b)) (omega arith))
  | inr high ↦ rw high (
      rw (refill_now cap now (refill cap now b - token) (omega (arith, refill-le cap now b)))
        (ground arith))
]

-- the calls come in the order of their times, none before `s`
abbrev pub Ordered : ℕ → List (Bytes × ℕ) → Type 0
Ordered s [] = Unit
Ordered s ((_, now) ∷ calls) = (s ≤ now) × Ordered now calls

-- the time of the last call
abbrev pub last_time : ℕ → List (Bytes × ℕ) → ℕ
last_time s [] = s
last_time s ((_, now) ∷ calls) = last_time now calls

-- how many of the calls were `identity`'s and went through
abbrev pub passed : Bytes → List (Bytes × ℕ) → List Bool → ℕ
passed identity ((i, _) ∷ calls) (go ∷ gos) =
    (if i == identity then (if go then 1 else 0) else 0) + passed identity calls gos
passed identity _ _ = 0

pub le-last_time : (s : ℕ) (calls : List (Bytes × ℕ)) → Ordered s calls → s ≤ last_time s calls
le-last_time s [] o = omega arith
le-last_time s ((_, now) ∷ calls) o = omega (arith, le-last_time now calls o.1)

price-eq : (go : Bool) → (if go then 1 else 0) * token ≡ price go
price-eq true = omega arith
price-eq false = omega arith

refilled : (cap now : ℕ) (o : Option Bucket) → (take_token cap now o).0.last_refill ≤ now
unfolding take_token
refilled cap now none = omega arith
refilled cap now (some b) = ground arith

NotAfter-later : (s t : ℕ) (o : Option Bucket) → NotAfter s o → s ≤ t → NotAfter t o
NotAfter-later s t none n h = tt
NotAfter-later s t (some b) n h = omega arith

module _ (limit : Bytes → ℕ) (identity : Bytes) (positive : 1 ≤ limit identity) where
  -- the units of `identity`'s bucket
  abbrev units : ℕ → Buckets → ℕ
  units t buckets = available (limit identity) t (lookup identity buckets)

  spend_same :
      (s now : ℕ) (buckets : Buckets)
      → NotAfter s (lookup identity buckets)
      → s ≤ now
      → (price (allow limit identity now buckets).1 + units now (allow limit identity now buckets).0
          ≤ units s buckets + (now - s) * limit identity)
        × NotAfter now (lookup identity (allow limit identity now buckets).0)
  unfolding allow
  spend_same s now buckets n h =
      rw (lookup-insert identity identity, beq_refl identity)
        (let cap = limit identity in
          let o = lookup identity buckets in
          (
            omega (arith, take_token-pays cap now o positive, available_later cap s now o n h),
            refilled cap now o,
          ))

  spend_other :
      (i : Bytes) (s now : ℕ) (buckets : Buckets)
      → list_beq i identity ≡ false
      → NotAfter s (lookup identity buckets)
      → s ≤ now
      → (units now (allow limit i now buckets).0 ≤ units s buckets + (now - s) * limit identity)
        × NotAfter now (lookup identity (allow limit i now buckets).0)
  unfolding allow
  spend_other i s now buckets ne n h =
      rw (lookup-insert i identity, ne)
        (
          available_later (limit identity) s now (lookup identity buckets) n h,
          NotAfter-later s now (lookup identity buckets) n h,
        )

  -- In any window of time, whatever the other identities do, the calls of one identity that go
  -- through cost at most a full bucket and what the window credits.
  pub passed-bound :
      (s : ℕ) (calls : List (Bytes × ℕ)) (buckets : Buckets)
      → Ordered s calls
      → NotAfter s (lookup identity buckets)
      → passed identity calls (run limit calls buckets).1 * token
          + units (last_time s calls) (run limit calls buckets).0
        ≤ units s buckets + (last_time s calls - s) * limit identity
  unfolding run
  passed-bound s [] buckets o n = omega arith
  passed-bound s ((i, now) ∷ calls) buckets (h, o) n = elim (Bool-cases (list_beq i identity)) [
    | inl same ↦
        let e : i ≡ identity = (list_beq_iff i identity).0 same in
        rw e (
          let (paid, later) = spend_same s now buckets n h in
          rw (beq_refl identity) (
            omega (
              arith,
              paid,
              passed-bound now calls (allow limit identity now buckets).0 o later,
              split_time (limit identity) s now (last_time now calls) h (le-last_time now calls o),
              price-eq (allow limit identity now buckets).1,
            )))
    | inr other ↦
        let (kept, later) = spend_other i s now buckets other n h in
        rw other (
          omega (
            arith,
            passed-bound now calls (allow limit i now buckets).0 o later,
            split_time (limit identity) s now (last_time now calls) h (le-last_time now calls o),
          ))
  ]

  -- For a limit of at least 1 and calls in the order of time, from any start that is not before the identity's last refill:
  -- whatever the other identities do, the identity's calls that go through are no more than a full
  -- bucket and what the window credits at `limit / 60` tokens a second.
  pub passed-le :
      (s : ℕ) (calls : List (Bytes × ℕ)) (buckets : Buckets)
      → Ordered s calls
      → NotAfter s (lookup identity buckets)
      → passed identity calls (run limit calls buckets).1 * token
        ≤ limit identity * token + (last_time s calls - s) * limit identity
  passed-le s calls buckets o n = omega (
    arith,
    passed-bound s calls buckets o n,
    available-le (limit identity) s (lookup identity buckets),
  )
