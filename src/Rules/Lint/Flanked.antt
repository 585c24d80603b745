-- ===== src/Rules/Lint/Flanked.antt =====
-- internal/aclrules/lint.go: which dots lintUnescapedDot warns of.
use an_b.Base.{
  ℕ, zero, suc, ◌<◌, Bool, true, false, [], ◌∷◌, ◌++◌, Bytes, All, refl, ◌≡◌, ◌≢◌, ◌↔◌, ap, ◌∙◌,
  inl, inr, Bool-cases, arith, length, ◌==◌, nat_eq, index_byte,
}
use an_b.Rules.Lint.Dots.{
  slash_within, scan_dots, has_unescaped_dot, warned, escaped, stops_left, stops_right, cut_before,
}

-- a slash less than `n` bytes away, with neither a slash nor a stop in front of it
pub record Near (stops : ℕ → Bool) (n : ℕ) (s : Bytes) : Type 0 where
  pub front : Bytes
  pub rest : Bytes
  pub text : s ≡ front ++ (b'/' ∷ rest)
  pub close : length front < n
  pub clear : All (λ c. (c ≢ b'/') × (stops c ≡ false)) front

slash_within_sound :
    (stops : ℕ → Bool) (n : ℕ) (s : Bytes) → slash_within stops n s ≡ true → Near stops n s
unfolding slash_within
slash_within_sound stops zero s h = absurd (cc)
slash_within_sound stops (suc n) [] h = absurd (cc)
slash_within_sound stops (suc n) (c ∷ s) h = elim (Bool-cases (c == b'/')) [
  | inl e ↦
      let same : c ≡ b'/' = (nat_eq.equal_iff c b'/').0 e in
      record { front = []; rest = s; text = ap (λ x. x ∷ s) same; close = omega arith; clear = tt }
  | inr e ↦ elim (Bool-cases (stops c)) [
    | inl st ↦ absurd (cc (rw (e, st) at h))
    | inr go ↦
        let near = slash_within_sound stops n s (rw (e, go) at h) in
        record {
          front = c ∷ near.front;
          rest = near.rest;
          text = ap (λ t. c ∷ t) near.text;
          close = omega (arith, near.close);
          clear = ((λ same. cc ((nat_eq.equal_iff c b'/').1 same, e), go), near.clear);
        }
  ]
]

slash_within_complete :
    (stops : ℕ → Bool) (n : ℕ) (front rest : Bytes)
    → length front < n
    → All (λ c. (c ≢ b'/') × (stops c ≡ false)) front
    → slash_within stops n (front ++ (b'/' ∷ rest)) ≡ true
unfolding slash_within
slash_within_complete stops zero front rest close clear = absurd (omega arith)
slash_within_complete stops (suc n) [] rest close clear = refl
slash_within_complete stops (suc n) (c ∷ front) rest close ((other, go), clear) =
    let e : (c == b'/') ≡ false = ground (arith, other, nat_eq.equal_iff c b'/') in
    rw (e, go) (slash_within_complete stops n front rest (omega arith) clear)

-- a text turned round, in front of another
pub onto : Bytes → Bytes → Bytes
onto [] before = before
onto (c ∷ p) before = onto p (c ∷ before)

-- a dot of `s`, where `before` is the text in front of `s` turned round: it is not behind a backslash,
-- and a slash is near on either side
pub record IsFlanked (before s : Bytes) : Type 0 where
  pub front : Bytes
  pub rest : Bytes
  pub text : s ≡ front ++ (b'.' ∷ rest)
  pub plain : escaped (onto front before) ≡ false
  pub left : Near stops_left 30 (onto front before)
  pub right : Near stops_right 30 rest

warned_sound : (before s : Bytes) (c : ℕ) → warned before c s ≡ true → IsFlanked before (c ∷ s)
unfolding onto
warned_sound before s c h = elim (Bool-cases (c == b'.')) [
  | inr e ↦ absurd (cc (rw e at h))
  | inl e ↦ elim (Bool-cases (escaped before)) [
    | inl esc ↦ absurd (cc (rw (e, esc) at h))
    | inr plain ↦ elim (Bool-cases (slash_within stops_left 30 before)) [
      | inr l ↦ absurd (cc (rw (e, plain, l) at h))
      | inl l ↦
          let same : c ≡ b'.' = (nat_eq.equal_iff c b'.').0 e in
          record {
            front = [];
            rest = s;
            text = ap (λ x. x ∷ s) same;
            plain = plain;
            left = slash_within_sound stops_left 30 before l;
            right = slash_within_sound stops_right 30 s (rw (e, plain, l) at h);
          }
    ]
  ]
]

scan_dots_sound : (before s : Bytes) → scan_dots before s ≡ true → IsFlanked before s
unfolding scan_dots onto
scan_dots_sound before [] h = absurd (cc)
scan_dots_sound before (c ∷ s) h = elim (Bool-cases (warned before c s)) [
  | inl e ↦ warned_sound before s c e
  | inr e ↦
      let later = scan_dots_sound (c ∷ before) s (rw e at h) in
      record {
        front = c ∷ later.front;
        rest = later.rest;
        text = ap (λ t. c ∷ t) later.text;
        plain = later.plain;
        left = later.left;
        right = later.right;
      }
]

slash_within-Near :
    (stops : ℕ → Bool) (n : ℕ) (s : Bytes) → Near stops n s → slash_within stops n s ≡ true
slash_within-Near stops n s h =
    ap (slash_within stops n) h.text ∙ slash_within_complete stops n h.front h.rest h.close h.clear

scan_dots_complete :
    (before front rest : Bytes)
    → escaped (onto front before) ≡ false
    → Near stops_left 30 (onto front before)
    → Near stops_right 30 rest
    → scan_dots before (front ++ (b'.' ∷ rest)) ≡ true
unfolding scan_dots onto
scan_dots_complete before [] rest plain left right =
    rw
      (
        plain,
        slash_within-Near stops_left 30 before left,
        slash_within-Near stops_right 30 rest right,
      )
      refl
scan_dots_complete before (c ∷ front) rest plain left right =
    let later = scan_dots_complete (c ∷ before) front rest plain left right in
    elim (Bool-cases (warned before c (front ++ (b'.' ∷ rest)))) [
      | inl e ↦ rw e refl
      | inr e ↦ rw e later
    ]

-- The linter warns of a rule just where the text in front of its first tab has a dot that is flanked:
-- not behind a backslash, and on either side a slash at most thirty bytes away, with neither a space
-- nor a tab between, nor a `$` on the right.
pub has_unescaped_dot_iff :
    (raw : Bytes)
    → (has_unescaped_dot raw ≡ true) ↔ IsFlanked [] (cut_before raw (index_byte b'\t' raw))
unfolding has_unescaped_dot
has_unescaped_dot_iff raw = (
  scan_dots_sound [] (cut_before raw (index_byte b'\t' raw)),
  λ h. ap (scan_dots []) h.text ∙ scan_dots_complete [] h.front h.rest h.plain h.left h.right,
)
