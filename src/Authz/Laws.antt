-- ===== src/Authz/Laws.antt =====
-- internal/authz/authz.go: the meaning of a policy, and the limits of a loaded one.
use an_b.Base.{
  FileRead, not_exist, contents, failed, true, Option, none, some, List, [], ◌∷◌, ◌≡◌, refl, ◌⊎◌,
  inl, inr, ◌↔◌, Bytes, codes, Table, lookup, ◌==◌, bytes_eq, has_prefix, arith, ◌++◌, list_beq_iff,
  Option-cases, Bool-cases,
}
use an_b.Base.Int.{ℤ, is_positive}
use an_b.Authz.{Policy, ok, allow_all, first_bad_limit, open_or_default, limit, any_prefix, allowed}

-- `key` is `pre` with something behind it
abbrev pub IsPrefixOf : Bytes → Bytes → Type 0
IsPrefixOf pre key = (rest : Bytes) × (key ≡ pre ++ rest)

has_prefix_sound : (s p : Bytes) → has_prefix s p ≡ true → IsPrefixOf p s
unfolding has_prefix
has_prefix_sound s [] h = (s, refl)
has_prefix_sound [] (p ∷ ps) h = cc
has_prefix_sound (c ∷ s) (p ∷ ps) h =
    let (rest, e) = has_prefix_sound s ps (ground arith) in (rest, ground arith)

has_prefix_complete : (p rest : Bytes) → has_prefix (p ++ rest) p ≡ true
unfolding has_prefix
has_prefix_complete [] rest = refl
has_prefix_complete (p ∷ ps) rest = ground (arith, has_prefix_complete ps rest)

-- one entry of a rule admits the key: it is "*", or a prefix of the key
abbrev pub Admits : Bytes → Bytes → Type 0
Admits key pre = (pre ≡ codes "*") ⊎ IsPrefixOf pre key

abbrev pub Any {ℓ} : {A : Type ℓ} → (A → Type 0) → List A → Type 0
Any P [] = ⊥
Any P (x ∷ xs) = P x ⊎ Any P xs

any_prefix_sound : (key : Bytes) (l : List Bytes) → any_prefix key l ≡ true → Any (Admits key) l
unfolding any_prefix
any_prefix_sound key [] h = cc
any_prefix_sound key (p ∷ ps) h = elim (Bool-cases (p == codes "*")) [
  | inl e ↦ inl (inl ((list_beq_iff p (codes "*")).0 e))
  | inr other ↦ elim (Bool-cases (has_prefix key p)) [
    | inl e ↦ inl (inr (has_prefix_sound key p e))
    | inr differs ↦ inr (any_prefix_sound key ps (ground arith))
  ]
]

any_prefix_complete : (key : Bytes) (l : List Bytes) → Any (Admits key) l → any_prefix key l ≡ true
unfolding any_prefix
any_prefix_complete key [] h = absurd h
any_prefix_complete key (p ∷ ps) (inl (inl e)) = ground (arith, list_beq_iff p (codes "*"))
any_prefix_complete key (p ∷ ps) (inl (inr (rest, e))) = ground (arith, has_prefix_complete p rest)
any_prefix_complete key (p ∷ ps) (inr h) = ground (arith, any_prefix_complete key ps h)

-- the policy's meaning: allow-all, or a rule of the identity admits the key
abbrev pub Permits : Policy → Bytes → Bytes → Type 0
Permits p identity key =
    (p.default_allow ≡ true)
    ⊎ ((l : List Bytes) × (lookup identity p.rules ≡ some l) × Any (Admits key) l)

-- `Allowed` answers true exactly where the policy is allow-all, or the identity has a rule one of
-- whose entries is "*" or a prefix of the key.
pub allowed_iff :
    (p : Policy) (identity key : Bytes) → (allowed p identity key ≡ true) ↔ Permits p identity key
unfolding allowed
allowed_iff p identity key = (sound, complete)
  where
    sound : allowed p identity key ≡ true → Permits p identity key
    sound h = elim (Bool-cases p.default_allow) [
      | inl e ↦ inl e
      | inr d ↦ elim (Option-cases (lookup identity p.rules)) [
        | inl e ↦ absurd (ground arith)
        | inr (l, e) ↦ inr (l, e, any_prefix_sound key l (ground arith))
      ]
    ]

    complete : Permits p identity key → allowed p identity key ≡ true
    complete (inl e) = ground arith
    complete (inr (l, e, a)) = ground (arith, any_prefix_complete key l a)

first_bad_limit-none :
    (m : Table Bytes ℤ) (id : Bytes) (v : ℤ)
    → first_bad_limit m ≡ none
    → lookup id m ≡ some v
    → is_positive v ≡ true
unfolding first_bad_limit lookup
first_bad_limit-none [] id v h e = cc
first_bad_limit-none ((j, n) ∷ m) id v h e = ground (arith, first_bad_limit-none m id v)

limit_positive :
    (p : Policy) (id : Bytes)
    → first_bad_limit p.rate_limits ≡ none
    → is_positive (limit p id) ≡ true
unfolding limit
limit_positive p id h = elim (Option-cases (lookup id p.rate_limits)) [
  | inr (v, e) ↦ rw e (first_bad_limit-none p.rate_limits id v h e)
  | inl e ↦ rw e (elim (Option-cases (lookup (codes "default") p.rate_limits)) [
    | inr (v, d) ↦ rw d (first_bad_limit-none p.rate_limits (codes "default") v h d)
    | inl d ↦ rw d
  ])
]

-- A policy that `OpenOrDefault` returns gives every identity a positive limit, whatever the file
-- held.
pub limit-open_or_default :
    (decode : Bytes → Option (Table Bytes (List Bytes) × Table Bytes ℤ)) (f : FileRead Bytes)
    (p : Policy) (identity : Bytes)
    → open_or_default decode f ≡ ok p
    → is_positive (limit p identity) ≡ true
unfolding open_or_default
limit-open_or_default decode not_exist p identity h =
    let e : p ≡ allow_all = cc in rw e (unfold limit lookup in refl)
limit-open_or_default decode failed p identity h = cc
limit-open_or_default decode (contents b) p identity h = limit_positive p identity (ground arith)
