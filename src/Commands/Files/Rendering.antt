-- ===== src/Commands/Files/Rendering.antt =====
-- cmd/alice/template.go: what `alice template` renders.
use an_b.Base.{
  true, List, [], ◌∷◌, ◌++◌, sym, ap, if◌then◌else◌, lookup, Option, none, some, Bytes, Table,
  insert, lookup-insert, Result, ok, err, All, All-map, refl, ◌≡◌, ◌≢◌, ◌∙◌, length, ◌==◌, bytes_eq,
  beq_refl, Bool-cases, inl, inr, arith,
}
use an_b.Server.{Request}
use an_b.Client
use an_b.Client.{Reply}
use an_b.Vault.{Vault, SecretEntry, load, get, apply_rewraps}
use an_b.Exec.Run.{pair_up, put_value}
use an_b.Redact.Engine.{Detector}
use an_b.Redact.Placeholder.{restore, restore_pieces, key_of, placeholder, extract_placeholders}
use an_b.Redact.Search.{Piece, lit, hit, pieces, hits}
use an_b.Redact.Placeholder.Laws.{Found, restore_complete, extract-All}
use an_b.Commands.{
  CommandError, not_found, Session, World, load_vault, load_client, decrypt_many, write_back,
}
use an_b.Commands.Files.{Written, packed_values, cmd_template, template_values, lookup_in}

Found-insert :
    (m : Table Bytes Bytes) (key value k : Bytes)
    → Found (lookup_in m) k
    → Found (lookup_in (insert key value m)) k
Found-insert m key value k (v, e) = elim (Bool-cases (key == k)) [
  | inl same ↦ (value, lookup-insert key k value m ∙ rw same refl)
  | inr other ↦ (v, lookup-insert key k value m ∙ rw other e)
]

-- as many plaintexts as keys: each key has a value
pair_up-Found :
    (keys pts : List Bytes)
    → length pts ≡ length keys
    → (m : Table Bytes Bytes) × (pair_up keys pts ≡ some m) × All (Found (lookup_in m)) keys
unfolding pair_up
pair_up-Found [] pts h = ([], refl, tt)
pair_up-Found (k ∷ keys) [] h = absurd (omega arith)
pair_up-Found (k ∷ keys) (p ∷ pts) h =
    let (m, e, found) = pair_up-Found keys pts (omega arith) in
    (
      insert k p m,
      rw e refl,
      (
        (p, lookup-insert k k p m ∙ rw (beq_refl k) refl),
        All-map (Found (lookup_in m)) (Found (lookup_in (insert k p m))) (Found-insert m k p) keys
            found,
      ),
    )

-- the plaintext that stands where the key stands first
abbrev pub value_at : Bytes → List Bytes → List Bytes → Option Bytes
value_at k [] pts = none
value_at k (x ∷ keys) [] = none
value_at k (x ∷ keys) (p ∷ pts) = if x == k then some p else value_at k keys pts

-- The text that the pieces give: the bytes outside the matches are kept, and in place of each match
-- stands the plaintext of its key, which has one.
abbrev pub IsRendering : List Bytes → List Bytes → List Piece → Bytes → Type 0
IsRendering keys pts [] out = out ≡ []
IsRendering keys pts (lit c ∷ ps) out =
    (rest : Bytes) × (out ≡ c ∷ rest) × IsRendering keys pts ps rest
IsRendering keys pts (hit m ∷ ps) out =
    (v : Bytes) × (rest : Bytes) × (value_at (key_of m) keys pts ≡ some v)
    × (out ≡ v ++ rest)
    × IsRendering keys pts ps rest

pair_up-value_at :
    (k : Bytes) (keys pts : List Bytes) (m : Table Bytes Bytes)
    → pair_up keys pts ≡ some m
    → lookup k m ≡ value_at k keys pts
unfolding pair_up
pair_up-value_at k [] pts m h = let e : m ≡ [] = cc in rw e (unfold lookup in refl)
pair_up-value_at k (x ∷ keys) [] m h = absurd (cc)
pair_up-value_at k (x ∷ keys) (p ∷ pts) m h =
    by_rest (pair_up keys pts) (λ m' e. pair_up-value_at k keys pts m' e) h
  where
    by_rest :
        (o : Option (Table Bytes Bytes))
        → ((m' : Table Bytes Bytes) → o ≡ some m' → lookup k m' ≡ value_at k keys pts)
        → put_value x p o ≡ some m
        → lookup k m ≡ value_at k (x ∷ keys) (p ∷ pts)
    by_rest none ih h' = absurd (cc)
    by_rest (some m') ih h' =
        let same : m ≡ insert x p m' = cc in
        rw same (lookup-insert x k p m' ∙ ap (λ o. if x == k then some p else o) (ih m' refl))

restored-IsRendering :
    (keys pts : List Bytes) (m : Table Bytes Bytes) (ps : List Piece)
    → pair_up keys pts ≡ some m
    → All (λ x. Found (lookup_in m) (key_of x)) (hits ps)
    → IsRendering keys pts ps (restore_pieces (lookup_in m) ps).content
unfolding restore_pieces hits
restored-IsRendering keys pts m [] e h = refl
restored-IsRendering keys pts m (lit c ∷ ps) e h =
    ((restore_pieces (lookup_in m) ps).content, refl, restored-IsRendering keys pts m ps e h)
restored-IsRendering keys pts m (hit x ∷ ps) e ((v, found), h) = (
  v,
  (restore_pieces (lookup_in m) ps).content,
  sym (pair_up-value_at (key_of x) keys pts m e) ∙ found,
  rw found refl,
  restored-IsRendering keys pts m ps e h,
)

packed_values-some : (v : Vault) (k : Bytes) (ks : List Bytes) → packed_values v (k ∷ ks) ≢ ok []
unfolding packed_values
packed_values-some v k ks h = by_cases (get v k) (packed_values v ks) h
  where
    by_cases :
        (o : Option SecretEntry) (r : Result CommandError (List Bytes))
        → ◌≡◌ {A = Result CommandError (List Bytes)}
            (elim o [
              | none ↦ err not_found
              | some e ↦ elim r [ err f ↦ err f | ok ps ↦ ok (e.value ∷ ps) ]
            ])
            (ok [])
        → ⊥
    by_cases none r h = cc
    by_cases (some e) (err f) h = cc
    by_cases (some e) (ok ps) h = cc

module _ {ℓ} {B : Type ℓ} (ask : Request → B → B × Reply) (d : Detector) where
  template_values-Found :
      (w : World) (reason : Bytes) (v : Vault) (ks packed pts rewraps : List Bytes) (s : Session B)
      (peer : B)
      → load s.disk ≡ ok v
      → packed_values v ks ≡ ok packed
      → load_client w s ≡ (s, ok tt)
      → Client.decrypt_many ask reason ks packed s.peer ≡ (peer, ok (pts, rewraps))
      → length pts ≡ length ks
      → (t : Session B) × (m : Table Bytes Bytes) × (template_values ask d w reason ks s
          ≡ (t, ok m))
        × (pair_up ks pts ≡ some m)
        × All (Found (lookup_in m)) ks
  unfolding load_vault decrypt_many write_back
  template_values-Found w reason v [] packed pts rewraps s peer hl hp hc hd n =
      (s, [], refl, unfold pair_up in refl, tt)
  template_values-Found w reason v (k ∷ ks) [] pts rewraps s peer hl hp hc hd n =
      absurd (packed_values-some v k ks hp)
  template_values-Found w reason v (k ∷ ks) (p ∷ packed) pts rewraps s peer hl hp hc hd n =
      let (m, e, found) = pair_up-Found (k ∷ ks) pts n in
      let t = record s {
        peer = peer;
        disk = (apply_rewraps (k ∷ ks) rewraps w.can_save s.disk).0;
      } in
      (t, m, rw (hl, hp, hc, hd, e) refl, e, found)

  -- `alice template` of a readable source whose keys are all in the vault, with a client, a Bob that
  -- answers with as many plaintexts as keys, and a destination that can be written, ends well. In what
  -- it writes the bytes of the source outside the placeholders are kept, and in place of each
  -- placeholder stands the plaintext that Bob gave at the place of its key.
  pub cmd_template-renders :
      (w : World) (reason text : Bytes) (v : Vault) (packed pts rewraps : List Bytes)
      (s : Session B) (peer : B)
      → load s.disk ≡ ok v
      → packed_values v (extract_placeholders text) ≡ ok packed
      → load_client w s ≡ (s, ok tt)
      → Client.decrypt_many ask reason (extract_placeholders text) packed s.peer
        ≡ (peer, ok (pts, rewraps))
      → length pts ≡ length (extract_placeholders text)
      → (t : Session B) × (out : Written) × (cmd_template ask d w reason (some text) true s
          ≡ (t, ok out))
        × IsRendering (extract_placeholders text) pts (pieces placeholder text) out.content
  unfolding cmd_template restore
  cmd_template-renders w reason text v packed pts rewraps s peer hl hp hc hd n =
      let (t, m, e, paired, found) =
        template_values-Found w reason v (extract_placeholders text) packed pts rewraps s peer hl hp
          hc hd n in
      let complete = restore_complete (lookup_in m) text found in
      let r = restore (lookup_in m) text in
      (
        t,
        record { content = r.content; count = length r.restored; unvaulted_count = 0 },
        rw (e, complete) refl,
        restored-IsRendering (extract_placeholders text) pts m (pieces placeholder text) paired
            (extract-All (lookup_in m) text found),
      )
