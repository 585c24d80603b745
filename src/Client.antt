-- ===== src/Client.antt =====
-- internal/client/client.go: alice's calls of Bob. The connection is a function: what Bob's side
-- makes of a request, and what comes back of it. TLS, the deadlines and the encoding of the
-- messages stand behind it.
use an_b.Base.{Bool, List, [], ◌∷◌, Bytes, Result, ok, err, if◌then◌else◌, ℕ, bytes_eq, codes}
use an_b.Server
use an_b.Server.{Request, Response, Code}

pub data ClientError : Type 0 where
  unreachable locked unauthorized decrypt_failed rate_limited : ClientError
  unknown_key_version protocol : ClientError
  said : Bytes → ClientError

-- A connection that cannot be made, or ends before a byte of an answer, gives no line; the line
-- that comes may be no response.
pub data Reply : Type 0 where
  no_line not_json : Reply
  response : Response → Reply

abbrev said_or_protocol : Bytes → ClientError
said_or_protocol [] = protocol
said_or_protocol (c ∷ e) = said (c ∷ e)

-- a code that the client does not know, and none, fall to the default
abbrev pub by_code : Code → Bytes → ClientError
by_code Server.locked_code e = locked
by_code Server.unauthorized e = unauthorized
by_code Server.decrypt_failed e = decrypt_failed
by_code Server.rate_limited e = rate_limited
by_code Server.unknown_key_version e = unknown_key_version
by_code _ e = said_or_protocol e

unfoldable pub map_err : Response → ClientError
map_err r = by_code r.code r.error

abbrev pub answered : Reply → Result ClientError Response
answered no_line = err unreachable
answered not_json = err protocol
answered (response r) = ok r

-- `if !resp.OK { return mapErr(resp) }`
abbrev pub when_ok {ℓ} :
    {A : Type ℓ} → (Response → A) → Result ClientError Response → Result ClientError A
when_ok f (err e) = err e
when_ok f (ok r) = if r.is_ok then ok (f r) else err (map_err r)

abbrev status_of : Result ClientError Response → Result ClientError (Bool × ℕ)
status_of (err e) = err e
status_of (ok r) = ok (r.is_unlocked, r.ttl)

-- the zero Request
abbrev pub empty_request : Request
empty_request = record {
  op = [];
  key = [];
  keys = [];
  plaintext = [];
  packed = [];
  packed_many = [];
  reason = [];
}

module _ {ℓ} {B : Type ℓ} (ask : Request → B → B × Reply) where
  -- `reason` is what SetReason stamped
  unfoldable pub call : Bytes → Request → B → B × Result ClientError Response
  call reason req b =
      let (b', reply) = ask (record req { reason = reason }) b in (b', answered reply)

  unfoldable pub encrypt : Bytes → Bytes → Bytes → B → B × Result ClientError Bytes
  unfolding call map_err
  encrypt reason key plaintext b =
      let (b', r) =
        call reason
          (record empty_request { op = codes "encrypt"; key = key; plaintext = plaintext }) b in
      (b', when_ok (λ r. r.packed) r)

  -- the plaintext, and the value sealed anew where there is one
  unfoldable pub decrypt : Bytes → Bytes → Bytes → B → B × Result ClientError (Bytes × Bytes)
  unfolding call map_err
  decrypt reason key packed b =
      let (b', r) =
        call reason (record empty_request { op = codes "decrypt"; key = key; packed = packed }) b in
      (b', when_ok (λ r. (r.plaintext, r.rewrapped_packed)) r)

  unfoldable pub decrypt_many :
      Bytes → List Bytes → List Bytes → B → B × Result ClientError (List Bytes × List Bytes)
  unfolding call map_err
  decrypt_many reason keys [] b = (b, ok ([], []))
  decrypt_many reason keys (p ∷ packed) b =
      let (b', r) =
        call reason
          (record empty_request { op = codes "decryptMany"; keys = keys; packed_many = p ∷ packed })
          b in
      (b', when_ok (λ r. (r.plaintext_many, r.rewrapped_packed_many)) r)

  unfoldable pub status : Bytes → B → B × Result ClientError (Bool × ℕ)
  unfolding call
  status reason b =
      let (b', r) = call reason (record empty_request { op = codes "status" }) b in
      (b', status_of r)
