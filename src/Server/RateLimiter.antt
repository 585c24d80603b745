-- ===== src/Server/RateLimiter.antt =====
-- internal/server/ratelimit.go: a token bucket for each identity. Each call of `allow` holds the
-- mutex from its first line to its last, so a run is a sequence of calls.
-- The float64 arithmetic is taken as exact: tokens are counted in units of 1 / (60 * 10^9) of a
-- token, in which a nanosecond credits `cap` units, and times are nanoseconds of the monotonic
-- clock. A cap is positive wherever the policy was loaded from a file or is the default.
pub mod Bound
use an_b.Base.{
  ℕ, ◌+◌, ◌-◌, ◌*◌, ◌≤◌, Bool, true, false, Option, none, some, List, [], ◌∷◌, Bytes, Table, lookup,
  insert, ltb, bytes_eq, if◌then◌else◌,
}

-- one token
abbrev pub token : ℕ
token = 60_000_000_000

pub record Bucket : Type 0 where
  pub tokens : ℕ
  pub last_refill : ℕ

abbrev pub Buckets : Type 0
Buckets = Table Bytes Bucket

-- the lazy refill, clamped at the capacity
unfoldable pub refill : ℕ → ℕ → Bucket → ℕ
refill cap now b =
    let credited = b.tokens + (now - b.last_refill) * cap in
    if ltb (cap * token) credited then cap * token else credited

-- the bucket behind one call, and whether the call may go on
unfoldable pub take_token : ℕ → ℕ → Option Bucket → Bucket × Bool
unfolding refill
take_token cap now none = (record { tokens = cap * token - token; last_refill = now }, true)
take_token cap now (some b) =
    let t = refill cap now b in
    if ltb t token
    then (record { tokens = t; last_refill = now }, false)
    else (record { tokens = t - token; last_refill = now }, true)

module _ (limit : Bytes → ℕ) where
  unfoldable pub allow : Bytes → ℕ → Buckets → Buckets × Bool
  unfolding take_token
  allow identity now buckets =
      let (b, go) = take_token (limit identity) now (lookup identity buckets) in
      (insert identity b buckets, go)

  -- calls in the order in which they took the mutex, each with its identity and time
  unfoldable pub run : List (Bytes × ℕ) → Buckets → Buckets × List Bool
  run [] buckets = (buckets, [])
  run ((identity, now) ∷ calls) buckets =
      let (next, go) = allow identity now buckets in
      let (final, rest) = run calls next in (final, go ∷ rest)
