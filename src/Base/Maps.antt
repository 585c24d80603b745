-- ===== src/Base/Maps.antt =====
-- Go maps as association lists. A `range` over a map visits the entries in the list's order; the
-- theorems are about every list, so about every order.
use mathlib.Core.Path.{◌≡◌, refl}
use mathlib.Core.Option.{Option, none, some}
use mathlib.Core.List.{List, [], ◌∷◌}
use native.Mathlib.Omega.{arith}
use an_b.Base.Tests.{Comparable, ◌==◌, if◌then◌else◌}

abbrev pub Table {ℓ κ} : Type ℓ → Type κ → Type (ℓ ⊔ κ)
Table K V = List (K × V)

module _ {ℓ κ} {K : Type ℓ} {V : Type κ} ⦃c : Comparable K⦄ where
  -- delete(m, k)
  unfoldable pub delete : K → Table K V → Table K V
  delete key [] = []
  delete key ((k, value) ∷ table) =
      let rest = delete key table in if k == key then rest else (k, value) ∷ rest

  -- m[k] = v
  unfoldable pub insert : K → V → Table K V → Table K V
  insert key new [] = (key, new) ∷ []
  insert key new ((k, old) ∷ table) =
      let rest = insert key new table in if k == key then (key, new) ∷ table else (k, old) ∷ rest

  -- v, ok := m[k]
  unfoldable pub lookup : K → Table K V → Option V
  lookup _ [] = none
  lookup key ((k, value) ∷ table) = if k == key then some value else lookup key table

  pub lookup-delete :
      (gone key : K) (table : Table K V)
      → lookup key (delete gone table) ≡ (if gone == key then none else lookup key table)
  unfolding lookup delete
  lookup-delete gone key [] = ground arith
  lookup-delete gone key ((k, _) ∷ table) = ground (
    arith,
    c.equal_iff gone key,
    c.equal_iff k gone,
    c.equal_iff k key,
    lookup-delete gone key table,
  )

  pub lookup-insert :
      (set key : K) (value : V) (table : Table K V)
      → lookup key (insert set value table) ≡ (if set == key then some value else lookup key table)
  unfolding lookup insert
  lookup-insert set key value [] = refl
  lookup-insert set key value ((k, _) ∷ table) = ground (
    arith,
    lookup-insert set key value table,
    c.equal_iff set key,
    c.equal_iff k set,
    c.equal_iff k key,
  )

module _ {ℓ κ} {K : Type ℓ} {V : Type κ} where
  abbrev pub keys : Table K V → List K
  keys [] = []
  keys ((k, _) ∷ m) = k ∷ keys m
