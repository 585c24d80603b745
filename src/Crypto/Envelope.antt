-- ===== src/Crypto/Envelope.antt =====
-- internal/crypto/envelope.go: the file that holds the wrapped master keys, one for each version.
pub mod Laws
use an_b.Base.{
  ℕ, ◌+◌, ◌^◌, ◌%◌, leb, not, ◌&&◌, Bool, true, false, List, [], ◌∷◌, Option, none, some, Bytes,
  ◌==◌, nat_eq, bytes_eq, if◌then◌else◌, ltb, Result, ok, err,
}

pub record Params : Type 0 where
  pub memory : ℕ
  pub passes : ℕ
  pub lanes : ℕ

pub record Envelope : Type 0 where
  pub id : ℕ
  pub created : Bytes
  pub salt : Bytes
  pub params : Params
  pub iv : Bytes
  pub tag : Bytes
  pub wrapped : Bytes

pub record EnvelopeFile : Type 0 where
  pub version : ℕ
  pub keys : List Envelope
  pub current : ℕ

abbrev pub schema_version : ℕ
schema_version = 3

pub data FileError : Type 0 where
  not_json no_keys bad_legacy remove_current no_such_key : FileError

-- An id is a Go int, as its 64-bit pattern: from 2 ^ 63 on it stands for a negative one.
abbrev pub is_negative : ℕ → Bool
is_negative n = leb (2 ^ 63) n

-- `k.ID > max`, where `max` is not negative
abbrev pub is_above : ℕ → ℕ → Bool
is_above n id = not (is_negative id) && ltb n id

-- the loop over the ids
unfoldable pub max_id : ℕ → List Envelope → ℕ
max_id n [] = n
max_id n (e ∷ es) = max_id (if is_above n e.id then e.id else n) es

-- What json.Unmarshal makes of the data: nothing, a file with a `keys` field, or one without, which
-- is then read as an envelope.
pub data Decoded : Type 0 where
  broken : Decoded
  with_keys : Option EnvelopeFile → Decoded
  without_keys : Option Envelope → Decoded

-- a file without `current` has the highest id as current
abbrev pub with_current : EnvelopeFile → EnvelopeFile
with_current f =
    if f.current == 0
    then record { version = f.version; keys = f.keys; current = max_id 0 f.keys }
    else f

abbrev pub non_empty : EnvelopeFile → List Envelope → Result FileError EnvelopeFile
non_empty f [] = err no_keys
non_empty f (e ∷ es) = ok (with_current f)

-- the envelope of a file from before the versions
abbrev pub legacy : Bytes → Envelope → EnvelopeFile
legacy now e = record {
  version = schema_version;
  keys = record e { id = 1; created = if e.created == [] then now else e.created } ∷ [];
  current = 1;
}

unfoldable pub load_envelope_file : Bytes → Decoded → Result FileError EnvelopeFile
load_envelope_file now broken = err not_json
load_envelope_file now (with_keys none) = err not_json
load_envelope_file now (with_keys (some f)) = non_empty f f.keys
load_envelope_file now (without_keys none) = err bad_legacy
load_envelope_file now (without_keys (some e)) = ok (legacy now e)

unfoldable pub find_key : List Envelope → ℕ → Option Envelope
find_key [] id = none
find_key (e ∷ es) id = if e.id == id then some e else find_key es id

-- the sum wraps around
unfoldable pub next_id : List Envelope → ℕ
next_id es = (max_id 0 es + 1) % 2 ^ 64

abbrev pub put_front : Envelope → Option (List Envelope) → Option (List Envelope)
put_front e none = none
put_front e (some es) = some (e ∷ es)

-- the first envelope with the id is cut out
unfoldable pub cut_key : List Envelope → ℕ → Option (List Envelope)
cut_key [] id = none
cut_key (e ∷ es) id = let rest = cut_key es id in if e.id == id then some es else put_front e rest

abbrev pub with_keys_cut : EnvelopeFile → Option (List Envelope) → Result FileError EnvelopeFile
with_keys_cut f none = err no_such_key
with_keys_cut f (some es) = ok (record { version = f.version; keys = es; current = f.current })

unfoldable pub remove_envelope : EnvelopeFile → ℕ → Result FileError EnvelopeFile
remove_envelope f id =
    if id == f.current then err remove_current else with_keys_cut f (cut_key f.keys id)
