-- ===== src/Exec/Env/Laws.antt =====
-- cmd/alice/exec.go: the `--env` entries that are accepted, and the merged environment.
use an_b.Base.{
  true, false, ◌||◌, List, [], ◌∷◌, ◌++◌, Option, none, some, Bytes, ◌==◌, nat_eq, bytes_eq,
  if◌then◌else◌, ok, bind-eq-ok, index_byte, ◌≡◌, ◌≢◌, refl, ap, ◌∙◌, arith, All, All-map,
  Bool-cases, inl, inr, beq_refl,
}
use mathlib.Core.Path.{transport}
use an_b.Rules.{contains}
use an_b.Rules.Parse.{is_env_name}
use an_b.Redact.Placeholder.{extract_placeholders, find_suspicious_placeholders}
use an_b.Exec.Env.{
  EnvEntry, cut_at, check_value, check_entry, parse_entry, add_new, add_all, parse_env_flag,
  env_name, not_overridden, keep_unless, merge_env,
}

abbrev pick : Bytes → Bytes → Option Bytes → List Bytes → List Bytes
pick name kv none rest = rest
pick name kv (some n) rest = if n == name then kv ∷ rest else rest

-- the entries of an environment for one variable
unfoldable pub named : Bytes → List Bytes → List Bytes
named name [] = []
named name (kv ∷ env) = pick name kv (env_name kv) (named name env)

named-append :
    (name : Bytes) (xs ys : List Bytes) → named name (xs ++ ys) ≡ named name xs ++ named name ys
unfolding named
named-append name [] ys = refl
named-append name (kv ∷ xs) ys =
    ap (pick name kv (env_name kv)) (named-append name xs ys) ∙ pick-append (env_name kv)
  where
    pick-append :
        (o : Option Bytes)
        → pick name kv o (named name xs ++ named name ys)
          ≡ pick name kv o (named name xs) ++ named name ys
    pick-append none = refl
    pick-append (some n) = ground arith

pick-if :
    (name kv n : Bytes) (overridden xs : List Bytes)
    → contains n overridden ≡ false
    → pick name kv (some n) (if contains name overridden then [] else xs)
      ≡ (if contains name overridden then [] else pick name kv (some n) xs)
pick-if name kv n overridden xs keep = ground (arith, bytes_eq.equal_iff n name)

named-not_overridden :
    (name : Bytes) (overridden parent : List Bytes)
    → named name (not_overridden overridden parent)
      ≡ (if contains name overridden then [] else named name parent)
unfolding named not_overridden
named-not_overridden name overridden [] = ground arith
named-not_overridden name overridden (kv ∷ parent) =
    kept (env_name kv) refl (named-not_overridden name overridden parent)
  where
    kept :
        (o : Option Bytes)
        → env_name kv ≡ o
        → named name (not_overridden overridden parent)
          ≡ (if contains name overridden then [] else named name parent)
        → named name (keep_unless overridden kv o (not_overridden overridden parent))
          ≡ (if contains name overridden then [] else pick name kv o (named name parent))
    kept none e ih = rw e ih
    kept (some n) e ih = elim (Bool-cases (contains n overridden)) [
      | inl drop ↦ ground (arith, bytes_eq.equal_iff n name)
      | inr keep ↦ rw keep (
          ap (λ t. pick name kv t (named name (not_overridden overridden parent))) e
          ∙ ap (pick name kv (some n)) ih
          ∙ pick-if name kv n overridden (named name parent) keep)
    ]

pub named-merge_env :
    (name : Bytes) (resolved overridden parent : List Bytes)
    → named name (merge_env resolved overridden parent)
      ≡ named name resolved ++ (if contains name overridden then [] else named name parent)
unfolding merge_env
named-merge_env name resolved overridden parent =
    named-append name resolved (not_overridden overridden parent)
    ∙ ap (λ t. named name resolved ++ t) (named-not_overridden name overridden parent)

-- an accepted entry
abbrev pub Accepted : List Bytes → EnvEntry → Type 0
Accepted keys e =
    (is_env_name e.name ≡ true)
    × (e.value ≢ [])
    × (find_suspicious_placeholders e.value ≡ [])
    × All (λ k. contains k keys ≡ true) (extract_placeholders e.value)

check_value-ok :
    (name val : Bytes) (bad : List Bytes) (entry : EnvEntry)
    → check_value name val bad ≡ ok entry
    → (bad ≡ []) × (entry ≡ record { name = name; value = val })
check_value-ok name val [] entry h = (refl, cc)
check_value-ok name val (b ∷ bad) entry h = cc

check_entry-ok :
    (o : Option (Bytes × Bytes)) (entry : EnvEntry)
    → check_entry o ≡ ok entry
    → (is_env_name entry.name ≡ true)
      × (entry.value ≢ [])
      × (find_suspicious_placeholders entry.value ≡ [])
check_entry-ok none entry h = cc
check_entry-ok (some (name, val)) entry h = elim (Bool-cases (is_env_name name)) [
  | inl named ↦ elim (Bool-cases (val == [])) [
    | inl empty ↦ absurd (ground arith)
    | inr full ↦
        let (clean, e) =
          check_value-ok name val (find_suspicious_placeholders val) entry (ground arith) in
        rw e (named, λ none. ground (arith, (bytes_eq.equal_iff val []).1 none), clean)
  ]
  | inr unnamed ↦ absurd (ground arith)
]

contains-add_new :
    (x k : Bytes) (keys : List Bytes) → contains x (add_new k keys) ≡ (k == x || contains x keys)
unfolding contains
contains-add_new x k keys = elim (Bool-cases (contains k keys)) [
  | inl there ↦ ground (arith, bytes_eq.equal_iff k x)
  | inr missing ↦ rw missing refl
]

contains-add_all :
    (x : Bytes) (ks keys : List Bytes)
    → contains x keys ≡ true
    → contains x (add_all ks keys) ≡ true
contains-add_all x [] keys h = h
contains-add_all x (k ∷ ks) keys h =
    ground (arith, contains-add_new x k (add_all ks keys), contains-add_all x ks keys h)

add_all-contains : (ks keys : List Bytes) → All (λ k. contains k (add_all ks keys) ≡ true) ks
add_all-contains [] keys = tt
add_all-contains (k ∷ ks) keys = (
  ground (arith, contains-add_new k k (add_all ks keys), beq_refl k),
  All-map (λ x. contains x (add_all ks keys) ≡ true)
      (λ x. contains x (add_all (k ∷ ks) keys) ≡ true)
      (λ x h. ground (arith, contains-add_new x k (add_all ks keys))) ks (add_all-contains ks keys),
)

widen : (ks keys : List Bytes) (e : EnvEntry) → Accepted keys e → Accepted (add_all ks keys) e
widen ks keys e (hn, hv, hs, hk) = (
  hn,
  hv,
  hs,
  All-map (λ x. contains x keys ≡ true) (λ x. contains x (add_all ks keys) ≡ true)
      (λ x h. contains-add_all x ks keys h) (extract_placeholders e.value) hk,
)

Accepted-cons :
    (entry : EnvEntry) (others : List EnvEntry) (more : List Bytes)
    → (is_env_name entry.name ≡ true)
      × (entry.value ≢ [])
      × (find_suspicious_placeholders entry.value ≡ [])
    → All (Accepted more) others
    → All (Accepted (add_all (extract_placeholders entry.value) more)) (entry ∷ others)
Accepted-cons entry others more (hn, hv, hs) h =
    let new : List Bytes = extract_placeholders entry.value in
    (
      (hn, hv, hs, add_all-contains new more),
      All-map (Accepted more) (Accepted (add_all new more)) (widen new more) others h,
    )

pub parse_env_flag-Accepted :
    (raw : List Bytes) (entries : List EnvEntry) (keys : List Bytes)
    → parse_env_flag raw ≡ ok (entries, keys)
    → All (Accepted keys) entries
unfolding parse_env_flag
parse_env_flag-Accepted [] entries keys h = let e : entries ≡ [] = cc in rw e tt
parse_env_flag-Accepted (r ∷ raw) entries keys h =
    let (entry, he, rest) = bind-eq-ok (parse_entry r) _ h in
    let ((others, more), ho, last) = bind-eq-ok (parse_env_flag raw) _ rest in
    let new : List EnvEntry × List Bytes =
      (entry ∷ others, add_all (extract_placeholders entry.value) more) in
    let found : List EnvEntry × List Bytes = (entries, keys) in
    let same : new ≡ found = cc in
    let facts = check_entry-ok (cut_at r (index_byte b'=' r)) entry (unfold parse_entry in he) in
    transport (ap (λ t. All (Accepted t.1) t.0) same)
      (Accepted-cons entry others more facts (parse_env_flag-Accepted raw others more ho))
