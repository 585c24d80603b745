-- ===== src/Rotate/Kept.antt =====
-- cmd/bob/rotate.go: the keys of the envelope file before and behind a rotation.
use an_b.Base.{
  ℕ, suc, true, List, [], ◌∷◌, Option, none, some, Bytes, Table, lookup, insert, lookup-insert,
  ◌==◌, nat_eq, if◌then◌else◌, Result, ok, ◌≡◌, refl, ap, ◌∙◌, arith, All, Bool-cases, inl, inr,
  length,
}
use mathlib.Core.Path.{transport}
use an_b.Crypto.Hex.{IsByte}
use an_b.Crypto.Packed.{Aead}
use an_b.Crypto.Envelope.{Envelope, EnvelopeFile, FileError, find_key, next_id, schema_version}
use an_b.Crypto.Wrap.{Kdf, unwrap, master_key_len, IsRandom, unwrap-wrap}
use an_b.Rotate.{
  Randomness, insert_by_id, sort_by_id, created_dates, date_for, unwrap_all, stamped, wrap_keys,
  rewrap_all, load_and_unwrap, add_fresh, rotate_key,
}

find_key-insert_by_id :
    (e : Envelope) (es : List Envelope) (id : ℕ)
    → find_key (insert_by_id e es) id ≡ (if e.id == id then some e else find_key es id)
unfolding find_key insert_by_id
find_key-insert_by_id e [] id = refl
find_key-insert_by_id e (f ∷ fs) id = ground (arith, find_key-insert_by_id e fs id)

find_key-sort_by_id : (es : List Envelope) (id : ℕ) → find_key (sort_by_id es) id ≡ find_key es id
unfolding sort_by_id
find_key-sort_by_id [] id = refl
find_key-sort_by_id (e ∷ es) id =
    find_key-insert_by_id e (sort_by_id es) id
    ∙ ap (λ t. if e.id == id then some e else t) (find_key-sort_by_id es id)
    ∙ unfold find_key in refl

module _ (aead : Aead) (kdf : Kdf) where
  -- an id leads to no key and to no envelope, or to a key and to an envelope that the password opens
  -- to the key
  abbrev pub Opens : Bytes → Option Bytes → Option Envelope → Type 0
  Opens password none none = Unit
  Opens password none (some e) = ⊥
  Opens password (some k) none = ⊥
  Opens password (some k) (some e) = unwrap aead kdf e password ≡ ok k

  -- master keys of 32 bytes
  abbrev pub MasterKeys : Table ℕ Bytes → Type 0
  MasterKeys [] = Unit
  MasterKeys ((id, k) ∷ keys) = (length k ≡ master_key_len) × All IsByte k × MasterKeys keys

  -- rand.Read never fails
  abbrev pub Random : Randomness → Type 0
  Random random =
      (n : ℕ)
      → (salt : Bytes) × (iv : Bytes) × (random n ≡ (some salt, some iv))
        × IsRandom aead kdf salt iv

  Opens-cons :
      (password : Bytes) (id other : ℕ) (k date : Bytes) (keys : Table ℕ Bytes) (e : Envelope)
      (es : List Envelope)
      → unwrap aead kdf e password ≡ ok k
      → Opens password (lookup id keys) (find_key es id)
      → Opens password
          (lookup id ((other, k) ∷ keys))
          (find_key (stamped aead kdf other date e ∷ es) id)
  unfolding lookup find_key unwrap
  Opens-cons password id other k date keys e es h rest = elim (Bool-cases (other == id)) [
    | inl same ↦ rw same h
    | inr apart ↦ rw apart rest
  ]

  wrap_keys-Opens :
      (created : Table ℕ Bytes) (now password : Bytes) (keys : Table ℕ Bytes) (random : Randomness)
      (n id : ℕ)
      → Random random
      → MasterKeys keys
      → (es : List Envelope) × (wrap_keys aead kdf created now password keys random n ≡ ok es)
        × Opens password (lookup id keys) (find_key es id)
  unfolding wrap_keys
  wrap_keys-Opens created now password [] random n id r h = ([], refl, unfold lookup find_key in tt)
  wrap_keys-Opens created now password ((other, k) ∷ keys) random n id r (size, bytes, h) =
      let (salt, iv, given, good) = r n in
      let (e, wrapped, opened) = unwrap-wrap aead kdf k password salt iv size bytes good in
      let (es, rest, opens) = wrap_keys-Opens created now password keys random (suc n) id r h in
      (
        stamped aead kdf other (date_for now (lookup other created)) e ∷ es,
        rw (given, wrapped, rest) refl,
        Opens-cons password id other k _ keys e es opened opens,
      )

  -- Where rand.Read does not fail, keys of 32 bytes are all wrapped under the password, and every id
  -- leads to an envelope that the password opens to its key, or to none where there is no key.
  pub rewrap_all-Opens :
      (f : EnvelopeFile) (now password : Bytes) (keys : Table ℕ Bytes) (random : Randomness)
      (id : ℕ)
      → Random random
      → MasterKeys keys
      → (g : EnvelopeFile) × (rewrap_all aead kdf f now keys password random ≡ ok g)
        × (g.current ≡ f.current)
        × Opens password (lookup id keys) (find_key g.keys id)
  unfolding rewrap_all
  rewrap_all-Opens f now password keys random id r h =
      let (es, wrapped, opens) =
        wrap_keys-Opens (created_dates f.keys []) now password keys random 0 id r h in
      (
        record { version = f.version; keys = sort_by_id es; current = f.current },
        rw wrapped refl,
        refl,
        rw (find_key-sort_by_id es id) opens,
      )

  MasterKeys-insert :
      (id : ℕ) (k : Bytes) (keys : Table ℕ Bytes)
      → length k ≡ master_key_len
      → All IsByte k
      → MasterKeys keys
      → MasterKeys (insert id k keys)
  unfolding insert
  MasterKeys-insert id k [] size bytes h = (size, bytes, tt)
  MasterKeys-insert id k ((j, w) ∷ keys) size bytes (hw, bw, h) = elim (Bool-cases (j == id)) [
    | inl same ↦ rw same (size, bytes, h)
    | inr apart ↦ rw apart (hw, bw, MasterKeys-insert id k keys size bytes h)
  ]

  pub rotate_key-Opens :
      (file : Option (Result FileError EnvelopeFile)) (password : Option Bytes) (f : EnvelopeFile)
      (pass fresh now : Bytes) (keys : Table ℕ Bytes) (random : Randomness) (id : ℕ)
      → load_and_unwrap aead kdf file password ≡ ok (f, pass)
      → unwrap_all aead kdf f.keys pass [] ≡ ok keys
      → MasterKeys keys
      → length fresh ≡ master_key_len
      → All IsByte fresh
      → Random random
      → (g : EnvelopeFile) × (rotate_key aead kdf file password (some fresh) now random true ≡ ok g)
        × (g.current ≡ next_id f.keys)
        × Opens pass
            (if next_id f.keys == id then some fresh else lookup id keys)
            (find_key g.keys id)
  unfolding rotate_key
  rotate_key-Opens file password f pass fresh now keys random id loaded opened h size bytes r =
      let new = add_fresh aead kdf f fresh keys in
      let (g, done, cur, opens) =
        rewrap_all-Opens new.0 now pass new.1 random id r
          (MasterKeys-insert (next_id f.keys) fresh keys size bytes h) in
      (
        record { version = schema_version; keys = g.keys; current = g.current },
        rw (loaded, opened, done) refl,
        cur,
        transport
            (ap (λ t. Opens pass t (find_key g.keys id))
              (lookup-insert (next_id f.keys) id fresh keys))
            opens,
      )
