-- ===== src/Base/Split.antt =====
-- Splitting a text at a byte.
use mathlib.Core.Path.{◌≡◌, refl, ap, ◌∙◌}
use mathlib.Core.List.{List, [], ◌∷◌, ◌++◌, append_assoc}
use Prim.Native.Nat.{ℕ}
use native.Mathlib.Omega.{arith}
use an_b.Base.Tests.{◌==◌, nat_eq, Bool-cases, beq_refl}
use an_b.Base.Lists.{All, All-append}
use mathlib.Core.Logic.{inl, inr, ◌≢◌}
use an_b.Base.Text.{Bytes, Lacks, split, join}

module _ (sep : ℕ) where
  pub split-Lacks : (a : Bytes) → Lacks sep a → split sep a ≡ a ∷ []
  unfolding split
  split-Lacks [] h = refl
  split-Lacks (c ∷ a) (hc, h) = rw (split-Lacks a h) (ground arith)

  split-cons : (s : Bytes) → (p : Bytes) × (ps : List Bytes) × (split sep s ≡ p ∷ ps)
  unfolding split
  split-cons [] = ([], [], refl)
  split-cons (c ∷ s) =
      let (p, ps, e) = split-cons s in
      elim (Bool-cases (c == sep)) [
        | inl h ↦ ([], p ∷ ps, rw (e, h) refl)
        | inr h ↦ (c ∷ p, ps, rw (e, h) refl)
      ]

  split-here : (s : Bytes) → split sep (sep ∷ s) ≡ [] ∷ split sep s
  unfolding split
  split-here s = let (p, ps, e) = split-cons s in rw (e, beq_refl sep) refl

  split-next :
      (c : ℕ) (s p : Bytes) (ps : List Bytes)
      → c ≢ sep
      → split sep s ≡ p ∷ ps
      → split sep (c ∷ s) ≡ (c ∷ p) ∷ ps
  unfolding split
  split-next c s p ps hc e = rw e (ground arith)

  pub split-first : (a s : Bytes) → Lacks sep a → split sep (a ++ (sep ∷ s)) ≡ a ∷ split sep s
  split-first [] s h = split-here s
  split-first (c ∷ a) s (hc, h) =
      split-next c (a ++ (sep ∷ s)) a (split sep s) hc (split-first a s h)

  pub split-join :
      (p : Bytes) (ps : List Bytes)
      → Lacks sep p
      → All (Lacks sep) ps
      → split sep (join (sep ∷ []) (p ∷ ps)) ≡ p ∷ ps
  unfolding join
  split-join p [] h hs = split-Lacks p h
  split-join p (q ∷ ps) h (hq, hs) =
      ap (split sep) (append_assoc p (sep ∷ []) (join (sep ∷ []) (q ∷ ps)))
      ∙ split-first p (join (sep ∷ []) (q ∷ ps)) h
      ∙ ap (λ t. p ∷ t) (split-join q ps hq hs)

module _ (P : ℕ → Type 0) where
  -- what holds of the separator and of each part holds of the joined text
  pub join-All : (sep : ℕ) (ps : List Bytes) → P sep → All (All P) ps → All P (join (sep ∷ []) ps)
  unfolding join
  join-All sep [] h hs = tt
  join-All sep (p ∷ []) h (hp, hs) = hp
  join-All sep (p ∷ q ∷ ps) h (hp, hs) =
      All-append P (p ++ (sep ∷ [])) (join (sep ∷ []) (q ∷ ps))
        (All-append P p (sep ∷ []) hp (h, tt)) (join-All sep (q ∷ ps) h hs)
