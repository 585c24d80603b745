-- ===== src/Pairing/Laws.antt =====
-- internal/ca/pairing.go: what the check of a pairing accepts, and the way from `bob sign-csr` to
-- `alice install-cert`.
use an_b.Base.{
  ℕ, suc, zero, ◌+◌, ◌-◌, ◌*◌, ◌/◌, ◌%◌, ◌<◌, ◌≤◌, ◌^◌, true, false, List, [], ◌∷◌, ◌++◌, Option,
  none, some, Bytes, Result, ok, err, refl, ◌≡◌, ◌↔◌, arith, All, Bool-cases, inl, inr, ltb, length,
  length-append, beq_refl, bytes_eq, ap, ◌∙◌, sym, nat_eq,
}
use native.Mathlib.Nat.{pow-suc}
use an_b.Crypto.Decimal.{itoa, itoa_onto, IsDigit, All-digits-itoa}
use an_b.Pairing.{
  Certificate, Pairing, PairingError, Encoding, pairing_code, validate_pairing_code, zeros,
  all_digits, pairing_commit, decode_pairing, decode_pairing_value, same_oid, verify_pairing,
  pairing_oid, cmd_sign_csr, sign_csr_with_pairing, encode, install_cert, read_pairing_code,
  pair_code_ttl, second, checked,
}

-- the digits of a number below a power of ten
length-itoa_onto :
    (k fuel n : ℕ) (out : Bytes)
    → n < fuel
    → n < 10 ^ suc k
    → length (itoa_onto fuel n out) ≤ suc k + length out
unfolding itoa_onto
length-itoa_onto k zero n out h small = absurd (omega arith)
length-itoa_onto zero (suc fuel) n out h small =
    let one : ltb n 10 ≡ true = ground arith in rw one (omega arith)
length-itoa_onto (suc k) (suc fuel) n out h small = elim (Bool-cases (ltb n 10)) [
  | inl one ↦ rw one (omega arith)
  | inr more ↦
      let big : 10 ≤ n = ground arith in
      let power : 10 ^ suc (suc k) ≡ 10 ^ suc k * 10 = pow-suc 10 (suc k) in
      rw more (
        omega (
          arith,
          length-itoa_onto k fuel (n / 10) ((b'0' + n % 10) ∷ out) (omega arith)
              (omega (arith, power)),
        ))
]

length-zeros : (n : ℕ) → length (zeros n) ≡ n
length-zeros zero = refl
length-zeros (suc n) = ap suc (length-zeros n)

all_digits-append :
    (s t : Bytes) → all_digits s ≡ true → all_digits t ≡ true → all_digits (s ++ t) ≡ true
unfolding all_digits
all_digits-append [] t hs ht = ht
all_digits-append (c ∷ s) t hs ht = ground (arith, all_digits-append s t)

all_digits-zeros : (n : ℕ) → all_digits (zeros n) ≡ true
unfolding all_digits
all_digits-zeros zero = refl
all_digits-zeros (suc n) = all_digits-zeros n

all_digits-All : (s : Bytes) → All IsDigit s → all_digits s ≡ true
unfolding all_digits
all_digits-All [] h = refl
all_digits-All (c ∷ s) (d, h) = rw (d, all_digits-All s h) refl

-- a code that Bob makes is one that alice takes
validate-pairing_code : (n : ℕ) → n < 100_000_000 → validate_pairing_code (pairing_code n) ≡ ok tt
unfolding validate_pairing_code pairing_code itoa
validate-pairing_code n h =
    let short : length (itoa n) ≤ 8 =
      omega (arith, length-itoa_onto 7 (suc n) n [] (omega arith) h) in
    let size : length (pairing_code n) ≡ 8 =
      length-append (zeros (8 - length (itoa n))) (itoa n)
      ∙ rw (length-zeros (8 - length (itoa n))) (omega arith) in
    let digits : all_digits (pairing_code n) ≡ true =
      all_digits-append (zeros (8 - length (itoa n))) (itoa n)
        (all_digits-zeros (8 - length (itoa n))) (all_digits-All (itoa n) (All-digits-itoa n)) in
    rw (size, digits) refl

same_oid_refl : (a : List ℕ) → same_oid a a ≡ true
unfolding same_oid
same_oid_refl [] = refl
same_oid_refl (n ∷ a) = ground (arith, same_oid_refl a)

module _ (enc : Encoding) where
  -- the certificate holds a pairing, the time is before its expiry, and the code is the one that it
  -- commits to
  pub record IsPaired (cert : Certificate) (code : Bytes) (now : ℕ) : Type 0 where
    pub pairing : Pairing
    pub holds : decode_pairing enc cert.extensions ≡ ok (some pairing)
    pub before : now < pairing.expires_at
    pub commits : enc.sha256 (code ++ enc.sha256 cert.public_key_info) ≡ pairing.commit

  checked-IsPaired :
      (cert : Certificate) (code : Bytes) (now : ℕ) (r : Result PairingError (Option Pairing))
      → decode_pairing enc cert.extensions ≡ r
      → checked enc cert code now r ≡ ok tt
      → IsPaired cert code now
  unfolding pairing_commit
  checked-IsPaired cert code now (err e) d h = absurd (cc)
  checked-IsPaired cert code now (ok none) d h = absurd (cc)
  checked-IsPaired cert code now (ok (some p)) d h = record {
    pairing = p;
    holds = d;
    before = ground arith;
    commits =
        (bytes_eq.equal_iff (enc.sha256 (code ++ enc.sha256 cert.public_key_info)) p.commit).0
          (ground (arith, h));
  }

  -- VerifyPairing accepts a code just where the certificate is paired with it at that time.
  pub verify_pairing_iff :
      (cert : Certificate) (code : Bytes) (now : ℕ)
      → (verify_pairing enc cert code now ≡ ok tt) ↔ IsPaired cert code now
  unfolding verify_pairing pairing_commit
  verify_pairing_iff cert code now = (
    checked-IsPaired cert code now (decode_pairing enc cert.extensions) refl,
    λ p. rw (p.holds, p.commits) (ground (arith, p.before, beq_refl p.pairing.commit)),
  )

  -- what `bob sign-csr` makes
  abbrev pub signed : (common_name public_key_info : Bytes) (number now : ℕ) → Certificate
  signed common_name public_key_info number now = record {
    common_name = common_name;
    public_key_info = public_key_info;
    extensions =
        record {
          id = pairing_oid;
          value =
              enc.marshal (enc.sha256 (pairing_code number ++ enc.sha256 public_key_info))
                ((now + pair_code_ttl) / second * second);
        }
        ∷ [];
  }

  sign_csr-signed :
      (common_name public_key_info : Bytes) (number now : ℕ)
      → cmd_sign_csr enc common_name public_key_info number now
        ≡ ok (signed common_name public_key_info number now)
  unfolding cmd_sign_csr sign_csr_with_pairing encode pairing_commit
  sign_csr-signed common_name public_key_info number now =
      rw (enc.length-sha256 (pairing_code number ++ enc.sha256 public_key_info)) refl

  signed-holds :
      (common_name public_key_info : Bytes) (number now : ℕ)
      → decode_pairing enc (signed common_name public_key_info number now).extensions
        ≡ ok (
            some (record {
              commit = enc.sha256 (pairing_code number ++ enc.sha256 public_key_info);
              expires_at = (now + pair_code_ttl) / second * second;
            }))
  unfolding decode_pairing decode_pairing_value same_oid
  signed-holds common_name public_key_info number now =
      rw
        (
          enc.unmarshal-marshal (enc.sha256 (pairing_code number ++ enc.sha256 public_key_info))
              ((now + pair_code_ttl) / second),
          enc.length-sha256 (pairing_code number ++ enc.sha256 public_key_info),
        )
        refl

  -- `bob sign-csr` gives a certificate of the identity and of the public key of the request. Until the
  -- whole second in which ten minutes have passed, `alice install-cert` installs it for the code that
  -- Bob's operator was shown, where that is a number below a hundred million. Any other code is taken
  -- just if its digest with the fingerprint is the same.
  pub install-sign :
      (common_name public_key_info code : Bytes) (number now later : ℕ)
      → number < 100_000_000
      → later < (now + pair_code_ttl) / second * second
      → (cert : Certificate) × (cmd_sign_csr enc common_name public_key_info number now ≡ ok cert)
        × (cert.common_name ≡ common_name)
        × (cert.public_key_info ≡ public_key_info)
        × (install_cert enc false (some cert) [] (some (pairing_code number)) later ≡ ok cert)
        × ((verify_pairing enc cert code later ≡ ok tt) ↔ (
            enc.sha256 (code ++ enc.sha256 public_key_info)
            ≡ enc.sha256 (pairing_code number ++ enc.sha256 public_key_info)))
  unfolding install_cert read_pairing_code
  install-sign common_name public_key_info code number now later h before =
      let cert = signed common_name public_key_info number now in
      let holds = signed-holds common_name public_key_info number now in
      let p : Pairing = record {
        commit = enc.sha256 (pairing_code number ++ enc.sha256 public_key_info);
        expires_at = (now + pair_code_ttl) / second * second;
      } in
      let paired : (c : Bytes)
          → enc.sha256 (c ++ enc.sha256 public_key_info) ≡ p.commit
          → IsPaired cert c later =
        λ c e. record { pairing = p; holds = holds; before = before; commits = e } in
      let accepted =
        (verify_pairing_iff cert (pairing_code number) later).1
          (paired (pairing_code number) refl) in
      (
        cert,
        sign_csr-signed common_name public_key_info number now,
        refl,
        refl,
        rw (validate-pairing_code number h, accepted) refl,
        (
          λ e.
              let q = (verify_pairing_iff cert code later).0 e in
              let same = sym q.holds ∙ holds in q.commits ∙ cc,
          λ e. (verify_pairing_iff cert code later).1 (paired code e),
        ),
      )
