-- ===== src/Crypto/Envelope/Laws.antt =====
-- internal/crypto/envelope.go: NextID and RemoveKey.
use an_b.Base.{
  ℕ, ◌+◌, ◌≤◌, ◌<◌, List, [], ◌∷◌, Option, none, some, ◌==◌, nat_eq, if◌then◌else◌, ok, ◌≡◌, ◌≢◌,
  refl, sym, ap, ◌∙◌, arith, All, All-map, Bool-cases, inl, inr,
}
use an_b.Crypto.Decimal.{max_int}
use an_b.Crypto.Envelope.{
  Envelope, EnvelopeFile, is_above, max_id, find_key, next_id, cut_key, put_front, with_keys_cut,
  remove_envelope,
}

-- ids from 0 on that leave room for one more
abbrev pub Below : List Envelope → Type 0
Below = All (λ e. e.id < max_int)

le-max_id : (n : ℕ) (es : List Envelope) → n ≤ max_id n es
unfolding max_id
le-max_id n [] = omega arith
le-max_id n (e ∷ es) = ground (arith, le-max_id (if is_above n e.id then e.id else n) es)

max_id-lt : (n : ℕ) (es : List Envelope) → n < max_int → Below es → max_id n es < max_int
unfolding max_id
max_id-lt n [] hn h = hn
max_id-lt n (e ∷ es) hn (he, h) =
    max_id-lt (if is_above n e.id then e.id else n) es (ground arith) h

max_id-All : (n : ℕ) (es : List Envelope) → Below es → All (λ e. e.id ≤ max_id n es) es
unfolding max_id
max_id-All n [] h = tt
max_id-All n (e ∷ es) (he, h) = (
  ground (arith, le-max_id (if is_above n e.id then e.id else n) es),
  max_id-All (if is_above n e.id then e.id else n) es h,
)

next_id-eq : (es : List Envelope) → Below es → next_id es ≡ max_id 0 es + 1
unfolding next_id
next_id-eq es h = omega (arith, max_id-lt 0 es (omega arith) h)

find_key-above : (n : ℕ) (es : List Envelope) → All (λ e. e.id ≤ n) es → find_key es (n + 1) ≡ none
unfolding find_key
find_key-above n [] h = refl
find_key-above n (e ∷ es) (he, h) = ground (arith, find_key-above n es h)

pub next_id-fresh :
    (es : List Envelope)
    → Below es
    → (find_key es (next_id es) ≡ none)
      × (0 < next_id es)
      × (next_id es ≤ max_int)
      × All (λ e. e.id < next_id es) es
next_id-fresh es h =
    let e = next_id-eq es h in
    rw e (
      find_key-above (max_id 0 es) es (max_id-All 0 es h),
      omega arith,
      omega (arith, max_id-lt 0 es (omega arith) h),
      All-map (λ e. e.id ≤ max_id 0 es) (λ e. e.id < max_id 0 es + 1) (λ e h. omega arith) es
          (max_id-All 0 es h),
    )

module _ (e : Envelope) (es : List Envelope) (id : ℕ) where
  find_key-here : e.id ≡ id → find_key (e ∷ es) id ≡ some e
  unfolding find_key
  find_key-here h = ground arith

  find_key-later : e.id ≢ id → find_key (e ∷ es) id ≡ find_key es id
  unfolding find_key
  find_key-later h = ground arith

put_front-eq-some :
    (e : Envelope) (o : Option (List Envelope)) (rest : List Envelope)
    → put_front e o ≡ some rest
    → (more : List Envelope) × (o ≡ some more) × (rest ≡ e ∷ more)
put_front-eq-some e none rest h = cc
put_front-eq-some e (some more) rest h = (more, refl, cc)

cut_key-other :
    (es rest : List Envelope) (id other : ℕ)
    → id ≢ other
    → cut_key es id ≡ some rest
    → find_key rest other ≡ find_key es other
unfolding cut_key
cut_key-other [] rest id other ne h = cc
cut_key-other (e ∷ es) rest id other ne h = elim (Bool-cases (e.id == id)) [
  | inl here ↦
      let cut : rest ≡ es = ground arith in
      rw cut (sym (find_key-later e es other λ same. ground arith))
  | inr later ↦
      let (more, found, same) = put_front-eq-some e (cut_key es id) rest (ground arith) in
      let ih = cut_key-other es more id other ne found in
      rw same (elim (Bool-cases (e.id == other)) [
        | inl it ↦
            find_key-here e more other (ground arith)
            ∙ sym (find_key-here e es other (ground arith))
        | inr no_it ↦
            find_key-later e more other (λ same. ground arith)
            ∙ ih
            ∙ sym (find_key-later e es other (λ same. ground arith))
      ])
]

with_keys_cut-ok :
    (f f' : EnvelopeFile) (o : Option (List Envelope))
    → with_keys_cut f o ≡ ok f'
    → (o ≡ some f'.keys) × (f'.current ≡ f.current)
with_keys_cut-ok f f' none h = cc
with_keys_cut-ok f f' (some es) h =
    let same : record { version = f.version; keys = es; current = f.current } ≡ f' = cc in
    (ap (λ t. some t.keys) same, ap (λ t. t.current) (sym same))

-- RemoveKey never takes the current key out; where it succeeds, the other ids lead to the same
-- envelopes as before and the current id is as it was.
pub remove_envelope-keeps :
    (f f' : EnvelopeFile) (id other : ℕ)
    → id ≢ other
    → remove_envelope f id ≡ ok f'
    → (id ≢ f.current) × (f'.current ≡ f.current) × (find_key f'.keys other ≡ find_key f.keys other)
unfolding remove_envelope
remove_envelope-keeps f f' id other ne h = elim (Bool-cases (id == f.current)) [
  | inl current ↦ absurd (ground arith)
  | inr apart ↦
      let (cut, same) = with_keys_cut-ok f f' (cut_key f.keys id) (ground arith) in
      (λ e. ground arith, same, cut_key-other f.keys f'.keys id other ne cut)
]
