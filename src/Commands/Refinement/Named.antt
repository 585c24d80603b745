-- ===== src/Commands/Refinement/Named.antt =====
-- cmd/alice/sensitive.go: which keys the arguments of `alice rm` name.
use an_b.Base.{
  Bool, true, List, [], ◌∷◌, Bytes, Result, ok, err, Bool-cases, All, All-map, refl, ◌≡◌, ap, sym,
  inl, inr, ◌⊎◌, map, sym,
}
use mathlib.Core.Path.{transport}
use an_b.Authz.Laws.{Any}
use an_b.Rules.{contains}
use an_b.Vault.{Vault, Listing, list}
use an_b.Exec.Env.{add_all, add_new}
use an_b.Commands.{CommandError}
use an_b.Commands.Local.{has, matching, match_keys, named_by, named_by_all, gather, named_here}

module _ (glob : Bytes → Bytes → Bool) where
  -- an argument names itself, and what it matches as a pattern
  abbrev pub Names : Bytes → Bytes → Type 0
  Names pat k = (k ≡ pat) ⊎ (glob pat k ≡ true)

  -- a key that one of the arguments names
  abbrev pub IsNamed : List Bytes → Bytes → Type 0
  IsNamed args k = Any (λ pat. Names pat k) args

  matching-Names :
      (pat : Bytes) (ls : List Listing) → All (Names pat) (map (λ l. l.key) (matching glob pat ls))
  unfolding matching
  matching-Names pat [] = tt
  matching-Names pat (l ∷ ls) = elim (Bool-cases (glob pat l.key)) [
    | inl e ↦ rw e (inr e, matching-Names pat ls)
    | inr e ↦ rw e (matching-Names pat ls)
  ]

  named_here-Names :
      (pat : Bytes) (hits keys : List Bytes)
      → All (Names pat) hits
      → named_here hits ≡ ok keys
      → All (Names pat) keys
  named_here-Names pat [] keys a h = absurd (cc)
  named_here-Names pat (k ∷ ks) keys a h =
      let e : k ∷ ks ≡ keys = cc in transport (ap (All (Names pat)) e) a

  named_by-Names :
      (v : Vault) (pat : Bytes) (keys : List Bytes)
      → named_by glob v pat ≡ ok keys
      → All (Names pat) keys
  unfolding match_keys
  named_by-Names v pat keys h = elim (Bool-cases (has v pat)) [
    | inl e ↦ let h' = rw e at h in let same : pat ∷ [] ≡ keys = cc in rw (sym same) (inl refl, tt)
    | inr e ↦
        named_here-Names pat (match_keys glob v pat) keys (matching-Names pat (list v)) (rw e at h)
  ]

  add_new-All :
      (P : Bytes → Type 0) (k : Bytes) (keys : List Bytes)
      → P k
      → All P keys
      → All P (add_new k keys)
  add_new-All P k keys h hs = elim (Bool-cases (contains k keys)) [
    | inl e ↦ rw e hs
    | inr e ↦ rw e (h, hs)
  ]

  add_all-All :
      (P : Bytes → Type 0) (ks keys : List Bytes) → All P ks → All P keys → All P (add_all ks keys)
  add_all-All P [] keys h hs = hs
  add_all-All P (k ∷ ks) keys (h, h') hs =
      add_new-All P k (add_all ks keys) h (add_all-All P ks keys h' hs)

  gather-All :
      (P : Bytes → Type 0) (a b : Result CommandError (List Bytes)) (keys : List Bytes)
      → ((ks : List Bytes) → a ≡ ok ks → All P ks)
      → ((ks : List Bytes) → b ≡ ok ks → All P ks)
      → gather glob a b ≡ ok keys
      → All P keys
  gather-All P (err e) b keys ha hb h = absurd (cc)
  gather-All P (ok ks) (err e) keys ha hb h = absurd (cc)
  gather-All P (ok ks) (ok rest) keys ha hb h =
      let e : add_all ks rest ≡ keys = cc in
      rw (sym e) (add_all-All P ks rest (ha ks refl) (hb rest refl))

  pub named_by_all-IsNamed :
      (v : Vault) (args keys : List Bytes)
      → named_by_all glob v args ≡ ok keys
      → All (IsNamed args) keys
  unfolding named_by_all
  named_by_all-IsNamed v [] keys h = let e : [] ≡ keys = cc in rw (sym e) tt
  named_by_all-IsNamed v (pat ∷ args) keys h =
      gather-All (IsNamed (pat ∷ args)) (named_by glob v pat) (named_by_all glob v args) keys
        (λ ks e.
          All-map (Names pat) (IsNamed (pat ∷ args)) (λ k n. inl n) ks (named_by-Names v pat ks e))
        (λ ks e.
          All-map (IsNamed args) (IsNamed (pat ∷ args)) (λ k n. inr n) ks
            (named_by_all-IsNamed v args ks e))
        h
