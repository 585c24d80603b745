-- ===== src/Examples/Passwords.antt =====
-- internal/pwgen/pwgen.go: a password at concrete draws.
use an_b.Base.{
  ℕ, ◌*◌, ◌≤◌, ◌<◌, ◌≡◌, refl, true, List, [], ◌∷◌, ◌++◌, some, Bytes, codes, ltb, if◌then◌else◌,
  arith, bytes_eq,
}
use an_b.Base.Int.{pos}
use an_b.Base.{join, split, list_beq, trim_space, has_prefix}
use an_b.Pwgen.{
  word_at, load_words, passphrase, lower, upper, digits, symbols, contains, contains_any, covers,
  byte_at, draw_bytes, fill, grouped, full, apple,
}
use an_b.Pwgen.Laws.{Covering, fill-Covering, generate-answers, Answered}

-- every eighteenth index, as far as the bound allows, and then index 0
abbrev spread : ℕ → ℕ → ℕ
spread i n = if ltb (i * 18) n then i * 18 else 0

spread-lt : (i n : ℕ) → 1 ≤ n → spread i n < n
spread-lt i n h = ground arith

abbrev pool : Bytes
pool = lower ++ upper ++ digits ++ symbols

abbrev classes : List Bytes
classes = lower ∷ upper ∷ digits ∷ symbols ∷ []

spread-covers : covers (draw_bytes spread pool 8 0) classes ≡ true
unfolding covers contains_any contains draw_bytes byte_at
spread-covers = refl

full_password : full spread 1 8 ≡ some (codes "asK2@aaa")
unfolding full contains_any contains byte_at
full_password = refl

apple_password : apple spread 1 2 ≡ some (codes "asK2aa-aaaaaa")
unfolding apple grouped contains_any contains byte_at
apple_password = refl

fill-Covering_example :
    (out : Bytes) × (fill spread 1 pool 8 classes 0 ≡ some out)
    × Covering spread spread-lt pool 8 classes out
fill-Covering_example =
    fill-Covering spread spread-lt 1 0 8 0 pool classes (omega arith) (omega arith) spread-covers

generate-answers_example : Answered spread [] (λ s. s) (λ n. []) 1 (codes "full") (pos 8)
generate-answers_example = generate-answers spread [] (λ s. s) (λ n. []) 1 (codes "full") (pos 8)

two_words : load_words (codes "# list\n tidy \n\ncobra\n") ≡ codes "tidy" ∷ codes "cobra" ∷ []
unfolding load_words split list_beq trim_space has_prefix
two_words = refl

three_words : passphrase spread (load_words (codes "tidy\ncobra")) 3 ≡ codes "Tidy-tidy-tidy-72"
unfolding load_words passphrase join word_at split list_beq trim_space has_prefix
three_words = refl
