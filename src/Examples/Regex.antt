-- ===== src/Examples/Regex.antt =====
-- A stand-in for package regexp that takes patterns of single characters between anchors.
use an_b.Base.{
  ◌-◌, Bool, [], ◌∷◌, ◌++◌, Option, none, some, Bytes, codes, ◌==◌, bytes_eq, ◌≡◌, ap, ◌∙◌, arith,
  length, take, drop, append_assoc, take-length, length-append,
}
use an_b.Rules.Parse.{anchored}
use an_b.Rules.Literal.Escaped.{literal_of}
use an_b.Rules.Literal.Exact.{ReadsLiterals}

-- the text between `^(?:^` and `$)$`
abbrev pub middle : Bytes → Bytes
middle pat = take (length (drop 5 pat) - 3) (drop 5 pat)

abbrev pub test_for : Option Bytes → Option (Bytes → Bool)
test_for none = none
test_for (some m) = some λ s. s == m

abbrev pub compile : Bytes → Option (Bytes → Bool)
compile pat = test_for (literal_of (middle pat))

abbrev pub close : Bytes
close = codes "$)$"

middle-anchored : (x : Bytes) → middle (anchored (b'^' ∷ (x ++ (b'$' ∷ [])))) ≡ x
middle-anchored x =
    ap (λ t. take (length t - 3) t) (append_assoc x (b'$' ∷ []) (codes ")$"))
    ∙ ap (λ n. take n (x ++ close)) (omega (arith, length-append x close))
    ∙ take-length x close

pub compile-ReadsLiterals : ReadsLiterals compile
compile-ReadsLiterals x m ascii h = ap test_for (ap literal_of (middle-anchored x) ∙ h)
