-- ===== src/Crypto/Version/Laws.antt =====
-- internal/crypto/envelope.go: ParseVersion, on tagged and on untagged ciphertexts.
use an_b.Base.{
  ℕ, ◌≤◌, false, [], ◌∷◌, ◌++◌, some, Bytes, nat_eq, bytes_eq, ok, ◌≡◌, ◌≢◌, refl, All, arith,
}
use an_b.Crypto.Decimal.{IsDigit, itoa, max_int, atoi-itoa, All-digits-itoa, itoa-ne-nil}
use an_b.Crypto.Version.{
  pack_version, span_digits, has_newline, match_version_prefix, parse_version,
}

-- a body that the pattern's `.*` spans
abbrev pub OneLine : Bytes → Type 0
OneLine s = has_newline s ≡ false

span_digits-append :
    (ds rest : Bytes) → All IsDigit ds → span_digits (ds ++ (b':' ∷ rest)) ≡ (ds, b':' ∷ rest)
unfolding span_digits
span_digits-append [] rest h = refl
span_digits-append (d ∷ ds) rest (hd, hs) = ground (arith, span_digits-append ds rest hs)

match-tagged :
    (ds rest : Bytes)
    → All IsDigit ds
    → ds ≢ []
    → OneLine rest
    → match_version_prefix (b'v' ∷ (ds ++ (b':' ∷ rest))) ≡ some (ds, rest)
unfolding match_version_prefix
match-tagged [] rest h ne one = absurd (ne refl)
match-tagged (d ∷ ds) rest h ne one = rw (span_digits-append (d ∷ ds) rest h, one)

-- A packed value gives back its version and body, for a body of one line and a version of at
-- least 1 that an int holds.
pub parse-pack :
    (version : ℕ) (raw : Bytes)
    → 1 ≤ version
    → version ≤ max_int
    → OneLine raw
    → parse_version (pack_version version raw) ≡ ok (version, raw)
unfolding parse_version pack_version
parse-pack version raw pos fits one =
    rw
      (
        match-tagged (itoa version) raw (All-digits-itoa version) (itoa-ne-nil version) one,
        atoi-itoa version fits,
      )
      (ground arith)
