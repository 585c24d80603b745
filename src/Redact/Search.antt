-- ===== src/Redact/Search.antt =====
-- Searching a text for all matches of a pattern: the leftmost match first, then on behind it. A
-- pattern is given as the length of its match at the start of a text.
use an_b.Base.{
  ℕ, zero, suc, List, [], ◌∷◌, ◌++◌, Option, none, some, Bytes, take, drop, ◌≡◌, refl, ap, ◌∙◌,
  take-append-drop,
}

pub data Piece : Type 0 where
  lit : ℕ → Piece
  hit : Bytes → Piece

abbrev pub Pattern : Type 0
Pattern = Bytes → Option ℕ

-- what stands at a place: one byte, or a match and what follows it; an empty match is passed over
abbrev pub piece_at : Option ℕ → ℕ → Bytes → List Piece → (ℕ → List Piece) → List Piece
piece_at none c s next behind = lit c ∷ next
piece_at (some zero) c s next behind = lit c ∷ next
piece_at (some (suc n)) c s next behind = hit (c ∷ take n s) ∷ behind n

-- `n` bytes still belong to the last match
unfoldable pub pieces_from : Pattern → ℕ → Bytes → List Piece
pieces_from p n [] = []
pieces_from p (suc n) (c ∷ s) = pieces_from p n s
pieces_from p zero (c ∷ s) =
    piece_at (p (c ∷ s)) c s (pieces_from p zero s) (λ n. pieces_from p n s)

unfoldable pub pieces : Pattern → Bytes → List Piece
pieces p = pieces_from p zero

-- FindAllString
unfoldable pub hits : List Piece → List Bytes
hits [] = []
hits (lit c ∷ ps) = hits ps
hits (hit m ∷ ps) = m ∷ hits ps

-- FindString; the empty text where there is no match
unfoldable pub find_string : Pattern → Bytes → Bytes
unfolding hits pieces
find_string p s = elim (hits (pieces p s)) [ [] ↦ [] | m ∷ ms ↦ m ]

-- the text that the pieces make up
unfoldable pub text_of : List Piece → Bytes
text_of [] = []
text_of (lit c ∷ ps) = c ∷ text_of ps
text_of (hit m ∷ ps) = m ++ text_of ps

text_of-piece_at :
    (o : Option ℕ) (c : ℕ) (s : Bytes) (next : List Piece) (behind : ℕ → List Piece)
    → text_of next ≡ s
    → ((n : ℕ) → text_of (behind n) ≡ drop n s)
    → text_of (piece_at o c s next behind) ≡ c ∷ s
unfolding text_of
text_of-piece_at none c s next behind e en = ap (λ t. c ∷ t) e
text_of-piece_at (some zero) c s next behind e en = ap (λ t. c ∷ t) e
text_of-piece_at (some (suc n)) c s next behind e en =
    ap (λ t. c ∷ (take n s ++ t)) (en n) ∙ ap (λ t. c ∷ t) (take-append-drop n s)

pub text_of-pieces_from : (p : Pattern) (n : ℕ) (s : Bytes) → text_of (pieces_from p n s) ≡ drop n s
unfolding pieces_from
text_of-pieces_from p zero [] = unfold text_of in refl
text_of-pieces_from p (suc n) [] = unfold text_of in refl
text_of-pieces_from p (suc n) (c ∷ s) = text_of-pieces_from p n s
text_of-pieces_from p zero (c ∷ s) =
    text_of-piece_at (p (c ∷ s)) c s (pieces_from p zero s) (λ n. pieces_from p n s)
      (text_of-pieces_from p zero s) (λ n. text_of-pieces_from p n s)

-- the pieces of a text make up the text
pub text_of-pieces : (p : Pattern) (s : Bytes) → text_of (pieces p s) ≡ s
unfolding pieces
text_of-pieces p s = text_of-pieces_from p zero s
