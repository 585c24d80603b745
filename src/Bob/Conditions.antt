-- ===== src/Bob/Conditions.antt =====
-- cmd/bob/main.go: when `bob serve` has a password, may serve its policy and opens its keys.
use an_b.Base.{
  ◌⊎◌, inl, inr, List, Option, none, codes, Bool-cases, ◌==◌, ℕ, true, false, not, ◌||◌, [], ◌∷◌,
  some, Bytes, Table, insert, Result, ok, err, refl, ◌≡◌, ◌≢◌, sym, ap, arith, bind-eq-ok, or_fail,
  map_err, bytes_eq, nat_eq,
}
use an_b.Authz.{Policy}
use an_b.Crypto.Packed.{Aead}
use an_b.Crypto.Envelope.{Envelope}
use an_b.Crypto.Wrap.{Kdf, unwrap}
use an_b.Rotate.{RotateError, not_unwrapped, unwrap_all}
use an_b.Bob.{BobError, ServeWorld, serve_password, opted_in, no_terminal}

-- where the password comes from: the variable; else, in a child, the line of its parent's pipe; else
-- what is typed at a terminal
pub data GivenBy (w : ServeWorld) (password : Bytes) : Type 0 where
  variable : w.variable ≢ [] → password ≡ w.variable → GivenBy w password
  pipe : w.variable ≡ [] → w.is_child ≡ true → w.line ≢ [] → password ≡ w.line → GivenBy w password
  terminal :
      w.variable ≡ []
      → w.is_child ≡ false
      → w.stdin_tty ≡ true
      → w.typed ≡ some password
      → GivenBy w password

-- the flag --insecure-allow-all, or $ANB_BOB_ALLOW_ALL=1
abbrev pub OptedIn : ServeWorld → Type 0
OptedIn w = (w.allow_all ≡ true) ⊎ (w.allow_all_variable ≡ codes "1")

or_fail-ok {ℓ} :
    {A : Type ℓ} (e : BobError) (o : Option A) (a : A) → or_fail e o ≡ ok a → o ≡ some a
or_fail-ok e (some b) a h = cc
or_fail-ok e none a h = absurd (cc)

no_text : (s : Bytes) → (s == []) ≡ true → s ≡ []
no_text s = (bytes_eq.equal_iff s []).0

some_text : (s : Bytes) → (s == []) ≡ false → s ≢ []
some_text s h e = let t = (bytes_eq.equal_iff s []).1 e in cc

text_test : (s : Bytes) → s ≢ [] → (s == []) ≡ false
text_test s h = elim (Bool-cases (s == [])) [ inl e ↦ absurd (h (no_text s e)) | inr e ↦ e ]

pub serve_password-GivenBy :
    (w : ServeWorld) (password : Bytes) → serve_password w ≡ ok password → GivenBy w password
unfolding serve_password
serve_password-GivenBy w password h = elim (Bool-cases (w.variable == [])) [
  | inr set ↦ variable (some_text w.variable set) (cc (rw set at h))
  | inl unset ↦ elim (Bool-cases w.is_child) [
    | inl child ↦ elim (Bool-cases (w.line == [])) [
      | inl no_line ↦ absurd (cc (rw (unset, child, no_line) at h))
      | inr line ↦
          pipe (no_text w.variable unset) child (some_text w.line line)
            (cc (rw (unset, child, line) at h))
    ]
    | inr parent ↦ elim (Bool-cases w.stdin_tty) [
      | inl tty ↦
          terminal (no_text w.variable unset) parent tty
            (or_fail-ok no_terminal w.typed password (rw (unset, parent, tty) at h))
      | inr no_tty ↦ absurd (cc (rw (unset, parent, no_tty) at h))
    ]
  ]
]

pub GivenBy-serve_password :
    (w : ServeWorld) (password : Bytes) → GivenBy w password → serve_password w ≡ ok password
unfolding serve_password
GivenBy-serve_password w password (variable some_variable e) =
    rw (text_test w.variable some_variable, e) refl
GivenBy-serve_password w password (pipe no_variable child some_line e) =
    rw ((bytes_eq.equal_iff w.variable []).1 no_variable, child, text_test w.line some_line, e) refl
GivenBy-serve_password w password (terminal no_variable parent tty e) =
    rw ((bytes_eq.equal_iff w.variable []).1 no_variable, parent, tty, e) refl

opted_in-OptedIn : (w : ServeWorld) → opted_in w ≡ true → OptedIn w
opted_in-OptedIn w h = elim (Bool-cases w.allow_all) [
  | inl flag ↦ inl flag
  | inr no_flag ↦ inr ((bytes_eq.equal_iff w.allow_all_variable (codes "1")).0 (rw no_flag at h))
]

OptedIn-opted_in : (w : ServeWorld) → OptedIn w → opted_in w ≡ true
OptedIn-opted_in w (inl flag) = rw flag refl
OptedIn-opted_in w (inr e) =
    let test = (bytes_eq.equal_iff w.allow_all_variable (codes "1")).1 e in ground arith

-- a policy that does not allow everything, or a request for one that does
abbrev pub Closed : ServeWorld → Policy → Type 0
Closed w p = (p.default_allow ≡ false) ⊎ OptedIn w

pub test-Closed :
    (w : ServeWorld) (p : Policy) → (not p.default_allow || opted_in w) ≡ true → Closed w p
test-Closed w p h = elim (Bool-cases p.default_allow) [
  | inr shut ↦ inl shut
  | inl allows ↦ inr (opted_in-OptedIn w (rw allows at h))
]

pub Closed-test :
    (w : ServeWorld) (p : Policy) → Closed w p → (not p.default_allow || opted_in w) ≡ true
Closed-test w p (inl shut) = rw shut refl
Closed-test w p (inr asked) =
    let e = OptedIn-opted_in w asked in
    elim (Bool-cases p.default_allow) [ inl allows ↦ rw (allows, e) refl | inr shut ↦ rw shut refl ]

wrapped-ok {ℓ κ} :
    {E : Type ℓ} {A : Type κ} (f : E → RotateError) (r : Result E A) (a : A)
    → map_err f r ≡ ok a
    → r ≡ ok a
wrapped-ok f (ok b) a h = cc
wrapped-ok f (err e) a h = absurd (cc)

module _ (aead : Aead) (kdf : Kdf) where
  -- every envelope opens under the password, and the table is `out` with each key put in under the
  -- id of its envelope, one after the other
  abbrev pub Opened : List Envelope → Bytes → Table ℕ Bytes → Table ℕ Bytes → Type 0
  Opened [] password out keys = keys ≡ out
  Opened (e ∷ es) password out keys =
      (k : Bytes) × (unwrap aead kdf e password ≡ ok k)
      × Opened es password (insert e.id k out) keys

  pub unwrap_all-Opened :
      (es : List Envelope) (password : Bytes) (out keys : Table ℕ Bytes)
      → unwrap_all aead kdf es password out ≡ ok keys
      → Opened es password out keys
  unfolding unwrap_all
  unwrap_all-Opened [] password out keys h = cc
  unwrap_all-Opened (e ∷ es) password out keys h =
      let (k, e1, h1) =
        bind-eq-ok (map_err (not_unwrapped e.id) (unwrap aead kdf e password)) _ h in
      (
        k,
        wrapped-ok (not_unwrapped e.id) (unwrap aead kdf e password) k e1,
        unwrap_all-Opened es password (insert e.id k out) keys h1,
      )

  pub Opened-unwrap_all :
      (es : List Envelope) (password : Bytes) (out keys : Table ℕ Bytes)
      → Opened es password out keys
      → unwrap_all aead kdf es password out ≡ ok keys
  unfolding unwrap_all
  Opened-unwrap_all [] password out keys h = ap ok (sym h)
  Opened-unwrap_all (e ∷ es) password out keys (k, opens, h) =
      rw opens (Opened-unwrap_all es password (insert e.id k out) keys h)
