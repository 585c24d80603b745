-- ===== src/Redact/Placeholder/Laws.antt =====
-- internal/redact/redact.go: Restore and ExtractPlaceholders.
use an_b.Base.{
  ℕ, suc, zero, ◌+◌, ◌-◌, ◌≡◌, ◌≢◌, refl, ap, sym, ◌∙◌, arith, Bool, true, false, ◌||◌, List, [],
  ◌∷◌, ◌++◌, Option, none, some, Bytes, Lacks, All, ◌==◌, nat_eq, bytes_eq, length, take, drop,
  has_prefix, take-length, length-append, ◌⊎◌, append_assoc, Bool-cases, inl, inr,
}
use mathlib.Core.Path.{transport}
use an_b.Redact.Search.{Piece, lit, hit, Pattern, pieces, pieces_from, hits}
use an_b.Redact.Placeholder.{
  placeholder_prefix, is_key_byte, up_to_close, is_key, placeholder, key_of, RestoreResult, put,
  restore_pieces, restore, distinct, extract_placeholders,
}

abbrev pub IsKey : Bytes → Type 0
IsKey k = (is_key k ≡ true) × All (λ c. is_key_byte c ≡ true) k

abbrev pub placeholder_for : Bytes → Bytes
placeholder_for k = placeholder_prefix ++ (k ++ (b'>' ∷ []))

up_to_close-body :
    (k s : Bytes)
    → All (λ c. is_key_byte c ≡ true) k
    → up_to_close is_key_byte (k ++ (b'>' ∷ s)) ≡ some k
unfolding up_to_close
up_to_close-body [] s h = refl
up_to_close-body (c ∷ k) s (hc, h) = rw (up_to_close-body k s h) (ground arith)

has_prefix-append : (s t : Bytes) → has_prefix (s ++ t) s ≡ true
unfolding has_prefix
has_prefix-append [] t = refl
has_prefix-append (c ∷ s) t = ground (arith, has_prefix-append s t)

placeholder-here :
    (k s : Bytes)
    → IsKey k
    → placeholder (placeholder_prefix ++ (k ++ (b'>' ∷ s)))
      ≡ some (length placeholder_prefix + suc (length k))
unfolding placeholder has_prefix
placeholder-here k s h = rw (up_to_close-body k s h.1, h.0) refl

placeholder-other : (c : ℕ) (s : Bytes) → c ≢ b'<' → placeholder (c ∷ s) ≡ none
unfolding placeholder has_prefix
placeholder-other c s h = ground arith

pieces_from-length :
    (p : Pattern) (x s : Bytes) → pieces_from p (length x) (x ++ s) ≡ pieces_from p zero s
unfolding pieces_from
pieces_from-length p [] s = refl
pieces_from-length p (c ∷ x) s = pieces_from-length p x s

key_of-placeholder : (k : Bytes) → key_of (placeholder_for k) ≡ k
key_of-placeholder k =
    let n : length (placeholder_for k) - (length placeholder_prefix + 1) ≡ length k =
      omega (arith, length-append k (b'>' ∷ [])) in
    ap (λ n. take n (k ++ (b'>' ∷ []))) n ∙ take-length k (b'>' ∷ [])

pieces-other :
    (c : ℕ) (s : Bytes) → c ≢ b'<' → pieces placeholder (c ∷ s) ≡ lit c ∷ pieces placeholder s
unfolding pieces pieces_from
pieces-other c s h = rw (placeholder-other c s h) refl

pieces-hit :
    (p : Pattern) (c : ℕ) (x s : Bytes)
    → p (c ∷ (x ++ s)) ≡ some (suc (length x))
    → pieces p (c ∷ (x ++ s)) ≡ hit (c ∷ x) ∷ pieces p s
unfolding pieces pieces_from
pieces-hit p c x s e = rw (e, take-length x s, pieces_from-length p x s) refl

pieces-here :
    (k s : Bytes)
    → IsKey k
    → pieces placeholder (placeholder_for k ++ s) ≡ hit (placeholder_for k) ∷ pieces placeholder s
pieces-here k s h =
    let x : Bytes = drop 1 (placeholder_for k) in
    let n : length placeholder_prefix + suc (length k) ≡ suc (length x) =
      omega (arith, length-append k (b'>' ∷ [])) in
    pieces-hit placeholder b'<' x s (
      ap (λ t. placeholder (placeholder_prefix ++ t)) (append_assoc k (b'>' ∷ []) s)
      ∙ placeholder-here k s h
      ∙ ap some n)

module _ (get : Bytes → Option Bytes) where
  -- `a` stands in front of what is restored
  abbrev pub after : Bytes → RestoreResult → RestoreResult
  after a r = record { content = a ++ r.content; restored = r.restored; missing = r.missing }

  pub restore-front : (a s : Bytes) → Lacks b'<' a → restore get (a ++ s) ≡ after a (restore get s)
  unfolding restore restore_pieces
  restore-front [] s h = refl
  restore-front (c ∷ a) s (hc, h) =
      rw (pieces-other c (a ++ s) hc) (ap (after (c ∷ [])) (restore-front a s h))

  pub restore-here :
      (k s : Bytes)
      → IsKey k
      → restore get (placeholder_for k ++ s) ≡ put (placeholder_for k) (get k) k (restore get s)
  unfolding restore restore_pieces
  restore-here k s h = rw (pieces-here k s h, key_of-placeholder k) refl

  -- what the restored text and the two lists of keys are, where `o` is the key's value and `rest` is
  -- what the text behind the placeholder gives
  abbrev pub IsReplaced : Bytes → Bytes → Option Bytes → RestoreResult → RestoreResult → Type 0
  IsReplaced a k (some v) rest r =
      (r.content ≡ a ++ (v ++ rest.content))
      × (r.restored ≡ k ∷ rest.restored)
      × (r.missing ≡ rest.missing)
  IsReplaced a k none rest r =
      (r.content ≡ a ++ (placeholder_for k ++ rest.content))
      × (r.restored ≡ rest.restored)
      × (r.missing ≡ k ∷ rest.missing)

  put-IsReplaced :
      (a k : Bytes) (o : Option Bytes) (rest : RestoreResult)
      → IsReplaced a k o rest (after a (put (placeholder_for k) o k rest))
  put-IsReplaced a k none rest = (refl, refl, refl)
  put-IsReplaced a k (some v) rest = (refl, refl, refl)

  -- Text without `<` is kept, and the rest of the text behind the first placeholder is restored in
  -- the same way. Where the key has a value, the value stands in place of the placeholder, and the key
  -- is the first of those restored. Where it has none, the placeholder stays, and the key is the
  -- first of those missing.
  pub restore-replaces :
      (a k s : Bytes)
      → Lacks b'<' a
      → IsKey k
      → IsReplaced a k (get k) (restore get s) (restore get (a ++ (placeholder_for k ++ s)))
  restore-replaces a k s ha hk =
      transport
        (ap (IsReplaced a k (get k) (restore get s))
          (sym (restore-front a (placeholder_for k ++ s) ha ∙ ap (after a) (restore-here k s hk))))
        (put-IsReplaced a k (get k) (restore get s))

  -- the key has a value
  abbrev pub Found : Bytes → Type 0
  Found k = (v : Bytes) × (get k ≡ some v)

  distinct-All :
      (seen : Bytes → Bool) (ms : List Bytes)
      → ((k : Bytes) → seen k ≡ true → Found k)
      → All Found (distinct seen ms)
      → All (λ m. Found (key_of m)) ms
  unfolding distinct
  distinct-All seen [] hs h = tt
  distinct-All seen (m ∷ ms) hs h =
      by_seen (Bool-cases (seen (key_of m))) (distinct-All seen ms hs)
        (distinct-All (λ k. key_of m == k || seen k) ms)
    where
      met : seen (key_of m) ≡ true → distinct seen (m ∷ ms) ≡ distinct seen ms
      met e = rw e refl

      fresh :
          seen (key_of m) ≡ false
          → distinct seen (m ∷ ms) ≡ key_of m ∷ distinct (λ k. key_of m == k || seen k) ms
      fresh e = rw e refl

      known :
          (k : Bytes)
          → Found (key_of m)
          → ((key_of m == k) ≡ true) ⊎ ((key_of m == k) ≡ false)
          → (key_of m == k || seen k) ≡ true
          → Found k
      known k found (inl same) t =
          transport (ap Found ((bytes_eq.equal_iff (key_of m) k).0 same)) found
      known k found (inr other) t = hs k (ground arith)

      by_seen :
          (seen (key_of m) ≡ true) ⊎ (seen (key_of m) ≡ false)
          → (All Found (distinct seen ms) → All (λ m. Found (key_of m)) ms)
          → (((k : Bytes) → (key_of m == k || seen k) ≡ true → Found k)
              → All Found (distinct (λ k. key_of m == k || seen k) ms)
              → All (λ m. Found (key_of m)) ms)
          → All (λ m. Found (key_of m)) (m ∷ ms)
      by_seen (inl e) same more = (hs (key_of m) e, same (transport (ap (All Found) (met e)) h))
      by_seen (inr e) same more =
          let (found, others) = transport (ap (All Found) (fresh e)) h in
          (found, more (λ k t. known k found (Bool-cases (key_of m == k)) t) others)

  missing-none :
      (ps : List Piece)
      → All (λ m. Found (key_of m)) (hits ps)
      → (restore_pieces get ps).missing ≡ []
  unfolding restore_pieces hits
  missing-none [] h = refl
  missing-none (lit c ∷ ps) h = missing-none ps h
  missing-none (hit m ∷ ps) ((v, e), h) = rw e (missing-none ps h)

  -- each match has a value where each key that ExtractPlaceholders names has one
  pub extract-All :
      (s : Bytes)
      → All Found (extract_placeholders s)
      → All (λ m. Found (key_of m)) (hits (pieces placeholder s))
  unfolding extract_placeholders
  extract-All s h = distinct-All (λ k. false) (hits (pieces placeholder s)) (λ k e. cc) h

  -- Where each key that ExtractPlaceholders names has a value, restoring the text leaves no
  -- placeholder behind.
  pub restore_complete :
      (s : Bytes) → All Found (extract_placeholders s) → (restore get s).missing ≡ []
  unfolding restore
  restore_complete s h = missing-none (pieces placeholder s) (extract-All s h)
