-- ===== src/Rules/Literal/Columns.antt =====
-- internal/aclrules/aclrules.go: the environment column of a literal rule, and its names.
use an_b.Base.{
  ℕ, true, false, List, [], ◌∷◌, Bytes, Lacks, codes, join, ◌≡◌, ◌≢◌, refl, sym, ap, ◌∙◌, arith,
  All, All-map, split, ◌==◌, nat_eq, bytes_eq, ok, Bool-cases, inl, inr,
}
use an_b.Base.Trim.{Visible, trim_space-Visible}
use an_b.Base.Split.{split-join, join-All}
use an_b.Rules.Parse.{parse_env_column, env_names, is_env_name, all_name_bytes, is_name_byte}
use an_b.Base.{list_beq}

abbrev pub IsName : Bytes → Type 0
IsName k = is_env_name k ≡ true

-- the bytes of a name: visible, and neither a comma nor a tab
abbrev NameByte : ℕ → Type 0
NameByte c = Visible c × (c ≢ b',') × (c ≢ b'*')

name_byte : (c : ℕ) → is_name_byte c ≡ true → NameByte c
name_byte c h = (ground arith, ground arith, ground arith)

all_name_bytes-All : (s : Bytes) → all_name_bytes s ≡ true → All NameByte s
unfolding all_name_bytes
all_name_bytes-All [] h = tt
all_name_bytes-All (c ∷ s) h = (name_byte c (ground arith), all_name_bytes-All s (ground arith))

IsName-bytes : (k : Bytes) → IsName k → All NameByte k
unfolding is_env_name
IsName-bytes [] h = cc
IsName-bytes (c ∷ s) h = (name_byte c (ground arith), all_name_bytes-All s (ground arith))

IsName-Visible : (k : Bytes) → IsName k → All Visible k
IsName-Visible k h = All-map NameByte Visible (λ c hc. hc.0) k (IsName-bytes k h)

names-Lacks :
    (b : ℕ) → ((c : ℕ) → NameByte c → c ≢ b) → (ks : List Bytes) → All IsName ks → All (Lacks b) ks
names-Lacks b f =
    All-map IsName (Lacks b) λ k h. All-map NameByte (λ c. c ≢ b) f k (IsName-bytes k h)

no_comma : (c : ℕ) → NameByte c → c ≢ b','
no_comma c h = h.1

IsName-some : (k : Bytes) → IsName k → (k == []) ≡ false
unfolding is_env_name list_beq
IsName-some [] h = cc
IsName-some (c ∷ k) h = refl

env_names-IsName : (n : ℕ) (ks : List Bytes) → All IsName ks → env_names n ks ≡ ok ks
unfolding env_names
env_names-IsName n [] h = refl
env_names-IsName n (k ∷ ks) (hk, h) =
    rw (trim_space-Visible k (IsName-Visible k hk), IsName-some k hk, hk, env_names-IsName n ks h)
      refl

module _ (n : ℕ) (k : Bytes) (ks : List Bytes) (hk : IsName k) (h : All IsName ks) where
  abbrev pub column : Bytes
  column = join (b',' ∷ []) (k ∷ ks)

  pub column-Visible : All Visible column
  column-Visible =
      join-All Visible b',' (k ∷ ks) (omega arith, omega arith)
        (All-map IsName (All Visible) IsName-Visible (k ∷ ks) (hk, h))

  split-column : split b',' column ≡ k ∷ ks
  split-column =
      split-join b',' k ks (names-Lacks b',' no_comma (k ∷ ks) (hk, h)).0
        (names-Lacks b',' no_comma ks h)

  column-other : (t : Bytes) → split b',' t ≡ t ∷ [] → is_env_name t ≡ false → (column == t) ≡ false
  column-other t single other = elim (Bool-cases (column == t)) [
    | inl e ↦
        let same : column ≡ t = (bytes_eq.equal_iff column t).0 e in
        let parts : split b',' t ≡ k ∷ ks = ap (split b',') (sym same) ∙ split-column in cc
    | inr e ↦ e
  ]

  column-some : (column == []) ≡ false
  unfolding split is_env_name
  column-some = column-other [] refl refl

  column-star : (column == codes "*") ≡ false
  unfolding split is_env_name
  column-star = column-other (codes "*") refl refl

  pub parse_env_column-names : parse_env_column column n ≡ ok (k ∷ ks, false)
  unfolding parse_env_column
  parse_env_column-names =
      rw
        (
          trim_space-Visible column column-Visible,
          column-some,
          column-star,
          split-column,
          env_names-IsName n (k ∷ ks) (hk, h),
        )
        refl

  pub column-Lacks : Lacks b'\t' column
  column-Lacks = All-map Visible (λ c. c ≢ b'\t') (λ c hc. ground arith) column column-Visible
