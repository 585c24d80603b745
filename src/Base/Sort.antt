-- ===== src/Base/Sort.antt =====
-- sort.Strings: byte strings in the order of their bytes. A sort by insertion; the order is total
-- and equal strings are the same, so every sort gives this list.
use mathlib.Core.Bool.{Bool, true, false, ◌&&◌, ◌||◌}
use mathlib.Core.List.{List, [], ◌∷◌}
use an_b.Base.Tests.{ltb, ◌==◌, nat_eq, if◌then◌else◌}
use an_b.Base.Lists.{All}
use an_b.Base.Text.{Bytes}

unfoldable pub bytes_le : Bytes → Bytes → Bool
bytes_le [] t = true
bytes_le (c ∷ s) [] = false
bytes_le (c ∷ s) (d ∷ t) = ltb c d || (c == d && bytes_le s t)

unfoldable pub insert_sorted : Bytes → List Bytes → List Bytes
unfolding bytes_le
insert_sorted s [] = s ∷ []
insert_sorted s (t ∷ ts) =
    let rest = insert_sorted s ts in if bytes_le s t then s ∷ t ∷ ts else t ∷ rest

unfoldable pub sort : List Bytes → List Bytes
unfolding insert_sorted
sort [] = []
sort (s ∷ ss) = insert_sorted s (sort ss)

module _ (P : Bytes → Type 0) where
  if-All : (b : Bool) (xs ys : List Bytes) → All P xs → All P ys → All P (if b then xs else ys)
  if-All true xs ys hx hy = hx
  if-All false xs ys hx hy = hy

  insert_sorted-All : (s : Bytes) (ts : List Bytes) → P s → All P ts → All P (insert_sorted s ts)
  unfolding insert_sorted
  insert_sorted-All s [] h hs = (h, tt)
  insert_sorted-All s (t ∷ ts) h (ht, hs) =
      if-All (bytes_le s t) (s ∷ t ∷ ts) (t ∷ insert_sorted s ts) (h, (ht, hs))
        (ht, insert_sorted-All s ts h hs)

  pub sort-All : (ss : List Bytes) → All P ss → All P (sort ss)
  unfolding sort
  sort-All [] h = tt
  sort-All (s ∷ ss) (h, hs) = insert_sorted-All s (sort ss) h (sort-All ss hs)
