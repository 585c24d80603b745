-- ===== src/Rotate.antt =====
-- cmd/bob/rotate.go: rotating the master password and the master keys, and retiring a key.
-- The commands end by writing envelope.json; what is read before is an argument.
pub mod Kept
use an_b.Base.{
  ℕ, suc, ◌+◌, Bool, true, false, not, ◌&&◌, List, [], ◌∷◌, ◌++◌, Option, none, some, Bytes, codes,
  Table, lookup, insert, ◌==◌, nat_eq, bytes_eq, if◌then◌else◌, leb, ltb, Result, ok, err, ◌>>=◌,
  ◌>>◌, or_fail, require, map_err, trim_space,
}
use an_b.Crypto.{Error}
use an_b.Crypto.Packed.{Aead}
use an_b.Crypto.Envelope.{
  Envelope, EnvelopeFile, FileError, find_key, next_id, remove_envelope, schema_version,
}
use an_b.Crypto.Wrap.{Kdf, wrap, unwrap, new_master_key}
use an_b.Exec.Run.{to_lower}

pub data RotateError : Type 0 where
  no_file no_password no_current same_password cannot_write no_such_version current_version :
      RotateError
  bad_file : FileError → RotateError
  not_unwrapped : ℕ → Error → RotateError
  not_wrapped : ℕ → Error → RotateError
  wrong_password : Error → RotateError
  no_random : Error → RotateError
  not_removed : FileError → RotateError

-- what rand.Read gives the n-th wrapping of a run: a salt and a nonce
abbrev pub Randomness : Type 0
Randomness = ℕ → Option Bytes × Option Bytes

-- where the key is inserted by its id; the ids are distinct, so every sort gives this order (no id is
-- negative: a file has ids from 1 on)
unfoldable pub insert_by_id : Envelope → List Envelope → List Envelope
insert_by_id e [] = e ∷ []
insert_by_id e (f ∷ fs) =
    let rest = insert_by_id e fs in if ltb f.id e.id then f ∷ rest else e ∷ f ∷ fs

unfoldable pub sort_by_id : List Envelope → List Envelope
sort_by_id [] = []
sort_by_id (e ∷ es) = insert_by_id e (sort_by_id es)

-- the loop `created[k.ID] = k.Created`
unfoldable pub created_dates : List Envelope → Table ℕ Bytes → Table ℕ Bytes
created_dates [] out = out
created_dates (e ∷ es) out = created_dates es (insert e.id e.created out)

-- the date of before, or now
abbrev pub date_for : Bytes → Option Bytes → Bytes
date_for now none = now
date_for now (some []) = now
date_for now (some (c ∷ date)) = c ∷ date

module _ (aead : Aead) (kdf : Kdf) where
  -- the loop over the envelopes, with the keys opened so far
  unfoldable pub unwrap_all :
      List Envelope → Bytes → Table ℕ Bytes → Result RotateError (Table ℕ Bytes)
  unwrap_all [] password out = ok out
  unwrap_all (e ∷ es) password out =
      map_err (not_unwrapped e.id) (unwrap aead kdf e password) >>= λ k.
      unwrap_all es password (insert e.id k out)

  abbrev pub stamped : ℕ → Bytes → Envelope → Envelope
  stamped id date e = record e { id = id; created = date }

  -- the loop over the keys, the n-th with the n-th randomness
  unfoldable pub wrap_keys :
      Table ℕ Bytes
      → Bytes
      → Bytes
      → Table ℕ Bytes
      → Randomness
      → ℕ
      → Result RotateError (List Envelope)
  wrap_keys created now password [] random n = ok []
  wrap_keys created now password ((id, k) ∷ keys) random n =
      map_err (not_wrapped id) (wrap aead kdf k password (random n).0 (random n).1) >>= λ e.
      wrap_keys created now password keys random (suc n) >>= λ es.
      ok (stamped id (date_for now (lookup id created)) e ∷ es)

  unfoldable pub rewrap_all :
      EnvelopeFile → Bytes → Table ℕ Bytes → Bytes → Randomness → Result RotateError EnvelopeFile
  rewrap_all f now keys password random =
      wrap_keys (created_dates f.keys []) now password keys random 0 >>= λ es.
      ok (record { version = f.version; keys = sort_by_id es; current = f.current })

  -- MarshalEnvelopeFile sets the version; `can_write` tells whether the file could be written
  abbrev pub write_envelope : Bool → EnvelopeFile → Result RotateError EnvelopeFile
  write_envelope can_write f =
      require can_write cannot_write
      >> ok (record { version = schema_version; keys = f.keys; current = f.current })

  -- `file` is none where there is none, and `password` where none is to be had
  unfoldable pub load_and_unwrap :
      Option (Result FileError EnvelopeFile)
      → Option Bytes
      → Result RotateError (EnvelopeFile × Bytes)
  load_and_unwrap file password = or_fail no_file file >>= λ loaded.
      map_err bad_file loaded >>= λ f. or_fail no_password password >>= λ pass.
      or_fail no_current (find_key f.keys f.current) >>= λ cur.
      map_err wrong_password (unwrap aead kdf cur pass) >>= λ _. ok (f, pass)

  -- a key is added under the next id, as current
  abbrev pub add_fresh : EnvelopeFile → Bytes → Table ℕ Bytes → EnvelopeFile × Table ℕ Bytes
  add_fresh f fresh keys = (
    record { version = f.version; keys = f.keys; current = next_id f.keys },
    insert (next_id f.keys) fresh keys,
  )

  abbrev pub rotated :
      EnvelopeFile × Table ℕ Bytes
      → Bytes
      → Bytes
      → Randomness
      → Bool
      → Result RotateError EnvelopeFile
  rotated (f, keys) now password random can_write =
      rewrap_all f now keys password random >>= write_envelope can_write

  abbrev pub with_fresh :
      Bool
      → EnvelopeFile
      → Table ℕ Bytes
      → Option Bytes
      → Result RotateError (EnvelopeFile × Table ℕ Bytes)
  with_fresh true f keys fresh = ok (f, keys)
  with_fresh false f keys fresh =
      map_err no_random (new_master_key fresh) >>= λ k. ok (add_fresh f k keys)

  unfoldable pub rotate_password :
      Bool
      → Option (Result FileError EnvelopeFile)
      → Option Bytes
      → Option Bytes
      → Option Bytes
      → Bytes
      → Randomness
      → Bool
      → Result RotateError EnvelopeFile
  rotate_password keep_key file old new fresh now random can_write =
      load_and_unwrap file old >>= λ (f, old_pass). or_fail no_password new >>= λ new_pass.
      require (not (new_pass == old_pass)) same_password
      >> (unwrap_all f.keys old_pass [] >>= λ keys.
          with_fresh keep_key f keys fresh >>= λ next. rotated next now new_pass random can_write)

  -- `rotate-master-key` without `--finalize`
  unfoldable pub rotate_key :
      Option (Result FileError EnvelopeFile)
      → Option Bytes
      → Option Bytes
      → Bytes
      → Randomness
      → Bool
      → Result RotateError EnvelopeFile
  rotate_key file password fresh now random can_write =
      load_and_unwrap file password >>= λ (f, pass). unwrap_all f.keys pass [] >>= λ keys.
      with_fresh false f keys fresh >>= λ next. rotated next now pass random can_write

  abbrev pub found : Option Envelope → Bool
  found none = false
  found (some e) = true

  -- `none` where the operator cancels, and nothing is written
  unfoldable pub do_finalize :
      EnvelopeFile
      → Bytes
      → ℕ
      → Bool
      → Bytes
      → Bytes
      → Randomness
      → Bool
      → Result RotateError (Option EnvelopeFile)
  do_finalize f password id yes_flag answer now random can_write =
      require (found (find_key f.keys id)) no_such_version
      >> (require (not (id == f.current)) current_version
          >> (if not yes_flag && not (trim_space (to_lower answer) == codes "yes")
              then ok none
              else (map_err not_removed (remove_envelope f id) >>= λ less.
                  unwrap_all less.keys password [] >>= λ keys.
                  rewrap_all less now keys password random >>= λ again.
                  write_envelope can_write again >>= λ written. ok (some written))))
