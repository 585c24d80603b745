-- ===== src/Rules/Lint/Dots.antt =====
-- internal/aclrules/lint.go: the dot of lintUnescapedDot. The loop keeps what stands in front of the
-- place it is at, the nearest byte first.
use an_b.Base.{
  ℕ, suc, zero, Bool, true, false, not, ◌&&◌, ◌||◌, [], ◌∷◌, Option, none, some, Bytes, ◌==◌,
  nat_eq, if◌then◌else◌, index_byte, take,
}

-- strings.IndexByte, and the text up to there
abbrev pub cut_before : Bytes → Option ℕ → Bytes
cut_before s none = s
cut_before s (some i) = take i s

-- a slash among the next `n` bytes, with no byte of `stops` in front of it
unfoldable pub slash_within : (ℕ → Bool) → ℕ → Bytes → Bool
slash_within stops zero s = false
slash_within stops (suc n) [] = false
slash_within stops (suc n) (c ∷ s) =
    let rest = slash_within stops n s in if c == b'/' then true else if stops c then false else rest

abbrev pub stops_left : ℕ → Bool
stops_left c = c == b' ' || c == b'\t'

abbrev pub stops_right : ℕ → Bool
stops_right c = c == b' ' || (c == b'\t' || c == b'$')

abbrev pub escaped : Bytes → Bool
escaped [] = false
escaped (c ∷ before) = c == b'\\'

-- the dot at this place is one that is warned of
abbrev pub warned : Bytes → ℕ → Bytes → Bool
warned before c s =
    c == b'.'
    && (not (escaped before)
        && (slash_within stops_left 30 before && slash_within stops_right 30 s))

unfoldable pub scan_dots : Bytes → Bytes → Bool
unfolding slash_within
scan_dots before [] = false
scan_dots before (c ∷ s) = warned before c s || scan_dots (c ∷ before) s

unfoldable pub has_unescaped_dot : Bytes → Bool
unfolding scan_dots
has_unescaped_dot raw = scan_dots [] (cut_before raw (index_byte b'\t' raw))
