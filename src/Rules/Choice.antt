-- ===== src/Rules/Choice.antt =====
-- cmd/alice/exec.go, with FilterBySurface of internal/aclrules/aclrules.go: the choice of a rule.
use an_b.Base.{
  true, false, List, [], ◌∷◌, ◌++◌, Bytes, none, some, ◌≡◌, ◌⊎◌, refl, ap, ◌∙◌, All, Bool-cases,
  inl, inr, bytes_eq,
}
use an_b.Rules.{Rule, matches, applies_to, first_match, filter_by_surface, choose}

module _ (surface text : Bytes) (env_keys : List Bytes) where
  -- the rule is of another surface, or does not match
  abbrev pub Passes : Rule → Type 0
  Passes q = (applies_to q surface ≡ true) → matches q text env_keys ≡ false

  -- the first rule of the surface that matches stands at this place of the file
  abbrev pub First : List Rule → Rule → Type 0
  First rules r =
      (before after : List Rule) × (rules ≡ before ++ (r ∷ after))
      × (applies_to r surface ≡ true)
      × (matches r text env_keys ≡ true)
      × All Passes before

  later : (q r : Rule) (rules : List Rule) → Passes q → First rules r → First (q ∷ rules) r
  later q r rules h (before, after, e, ha, hm, hb) =
      (q ∷ before, after, ap (λ t. q ∷ t) e, ha, hm, (h, hb))

  choose-here :
      (q : Rule) (rules : List Rule)
      → applies_to q surface ≡ true
      → matches q text env_keys ≡ true
      → choose (q ∷ rules) surface text env_keys ≡ some q
  unfolding choose filter_by_surface first_match
  choose-here q rules ha hm = rw (ha, hm) refl

  choose-later :
      (q : Rule) (rules : List Rule)
      → Passes q
      → choose (q ∷ rules) surface text env_keys ≡ choose rules surface text env_keys
  unfolding choose filter_by_surface first_match
  choose-later q rules h = elim (Bool-cases (applies_to q surface)) [
    | inl ha ↦ rw (ha, h ha) refl
    | inr ha ↦ rw ha refl
  ]

  abbrev Chosen : List Rule → Type 0
  Chosen rules =
      ((choose rules surface text env_keys ≡ none) × All Passes rules)
      ⊎ ((r : Rule) × (choose rules surface text env_keys ≡ some r) × First rules r)

  skipped : (q : Rule) (rules : List Rule) → Chosen rules → Passes q → Chosen (q ∷ rules)
  skipped q rules (inl found) h = inl (choose-later q rules h ∙ found.0, (h, found.1))
  skipped q rules (inr (r, e, first)) h =
      inr (r, choose-later q rules h ∙ e, later q r rules h first)

  -- The loop over the rules of a surface picks the first rule of the file that is of the surface and
  -- matches, or no rule where all rules are of other surfaces or do not match.
  pub choose-first :
      (rules : List Rule)
      → ((choose rules surface text env_keys ≡ none) × All Passes rules)
        ⊎ ((r : Rule) × (choose rules surface text env_keys ≡ some r) × First rules r)
  choose-first [] = inl (unfold choose filter_by_surface first_match in refl, tt)
  choose-first (q ∷ rules) =
      let rest = choose-first rules in
      elim (Bool-cases (applies_to q surface)) [
        | inl ha ↦ elim (Bool-cases (matches q text env_keys)) [
          | inl hm ↦ inr (q, choose-here q rules ha hm, ([], rules, refl, ha, hm, tt))
          | inr hm ↦ skipped q rules rest λ _. hm
        ]
        | inr ha ↦ skipped q rules rest λ h. cc
      ]
