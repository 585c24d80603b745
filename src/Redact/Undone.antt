-- ===== src/Redact/Undone.antt =====
-- internal/redact/redact.go: Restore puts back the value that Redact took out.
use an_b.Base.{
  ℕ, suc, zero, ◌≡◌, ◌≢◌, refl, ap, sym, ◌∙◌, arith, Bool, true, false, List, [], ◌∷◌, ◌++◌, Option,
  none, some, Bytes, append-nil, Lacks, nat_eq, bytes_eq, length, take, has_prefix, if◌then◌else◌,
}
use an_b.Redact.Search.{
  Piece, pieces, lit, hit, pieces_from, piece_at, text_of, text_of-pieces_from,
}
use an_b.Redact.Placeholder.{restore, restore_pieces, put}
use an_b.Redact.Placeholder.Laws.{IsKey, placeholder_for, after, restore-front, restore-here}
use an_b.Redact.Engine.{
  exactly, replaced_pieces, replace_all, replace_known, longest_first, insert_longest,
}

has_prefix-take : (s v : Bytes) → has_prefix s v ≡ true → take (length v) s ≡ v
unfolding has_prefix
has_prefix-take s [] h = refl
has_prefix-take [] (c ∷ v) h = absurd (cc)
has_prefix-take (d ∷ s) (c ∷ v) h = ground (arith, has_prefix-take s v, nat_eq.equal_iff d c)

-- each byte on its own is no `<`, and each match is the value
abbrev Plain : Bytes → List Piece → Type 0
Plain v [] = Unit
Plain v (lit c ∷ ps) = (c ≢ b'<') × Plain v ps
Plain v (hit m ∷ ps) = (m ≡ v) × Plain v ps

piece_at-Plain :
    (v : Bytes) (c : ℕ) (s : Bytes) (found : Bool) (next : List Piece) (behind : ℕ → List Piece)
    → c ≢ b'<'
    → has_prefix (c ∷ s) v ≡ found
    → Plain v next
    → ((n : ℕ) → Plain v (behind n))
    → Plain v (piece_at (if found then some (length v) else none) c s next behind)
piece_at-Plain v c s false next behind hc e hn hb = (hc, hn)
piece_at-Plain [] c s true next behind hc e hn hb = (hc, hn)
piece_at-Plain (d ∷ v) c s true next behind hc e hn hb =
    (has_prefix-take (c ∷ s) (d ∷ v) e, hb (length v))

pieces_from-Plain :
    (v : Bytes) (n : ℕ) (s : Bytes) → Lacks b'<' s → Plain v (pieces_from (exactly v) n s)
unfolding pieces_from
pieces_from-Plain v n [] h = tt
pieces_from-Plain v (suc n) (c ∷ s) (hc, h) = pieces_from-Plain v n s h
pieces_from-Plain v zero (c ∷ s) (hc, h) =
    piece_at-Plain v c s (has_prefix (c ∷ s) v) (pieces_from (exactly v) zero s) _ hc refl
      (pieces_from-Plain v zero s h) (λ n. pieces_from-Plain v n s h)

restore-nil :
    (get : Bytes → Option Bytes)
    → restore get [] ≡ record { content = []; restored = []; missing = [] }
unfolding restore restore_pieces pieces pieces_from
restore-nil get = refl

module _ (get : Bytes → Option Bytes) (v k : Bytes) (key : IsKey k) (stored : get k ≡ some v) where
  restored-pieces :
      (ps : List Piece)
      → Plain v ps
      → let r = restore get (replaced_pieces (placeholder_for k) ps) in
        (r.content ≡ text_of ps) × (r.missing ≡ [])
  unfolding replaced_pieces text_of
  restored-pieces [] h =
      (ap (λ r. r.content) (restore-nil get), ap (λ r. r.missing) (restore-nil get))
  restored-pieces (lit c ∷ ps) (hc, h) =
      let (content, missing) = restored-pieces ps h in
      let front = restore-front get (c ∷ []) (replaced_pieces (placeholder_for k) ps) (hc, tt) in
      (ap (λ r. r.content) front ∙ ap (λ t. c ∷ t) content, ap (λ r. r.missing) front ∙ missing)
  restored-pieces (hit m ∷ ps) (hm, h) =
      let (content, missing) = restored-pieces ps h in
      let here =
        restore-here get k (replaced_pieces (placeholder_for k) ps) key
        ∙ ap
            (λ o.
              put (placeholder_for k) o k (restore get (replaced_pieces (placeholder_for k) ps)))
            stored in
      (
        ap (λ r. r.content) here ∙ (ap (λ t. v ++ t) content ∙ ap (λ x. x ++ text_of ps) (sym hm)),
        ap (λ r. r.missing) here ∙ missing,
      )

-- In a text without `<`, let the first phase of Redact, with one secret, put the placeholder of its key
-- in place of its value. Restore, with this value for the key, gives the text back, and misses nothing.
pub restore-replace_known :
    (get : Bytes → Option Bytes) (v k s : Bytes)
    → IsKey k
    → get k ≡ some v
    → Lacks b'<' s
    → let r = restore get (replace_known (longest_first ((v, k) ∷ [])) s) in
      (r.content ≡ s) × (r.missing ≡ [])
unfolding replace_known longest_first insert_longest replace_all pieces
restore-replace_known get [] k s key stored h =
    let front =
      ap (restore get) (sym (append-nil s))
      ∙ (restore-front get s [] h ∙ ap (after get s) (restore-nil get)) in
    (ap (λ r. r.content) front ∙ append-nil s, ap (λ r. r.missing) front)
restore-replace_known get (c ∷ v) k s key stored h =
    let (content, missing) =
      restored-pieces get (c ∷ v) k key stored (pieces_from (exactly (c ∷ v)) zero s)
        (pieces_from-Plain (c ∷ v) zero s h) in
    (content ∙ text_of-pieces_from (exactly (c ∷ v)) zero s, missing)
