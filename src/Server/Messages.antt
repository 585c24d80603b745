-- ===== src/Server/Messages.antt =====
-- internal/client/client.go and internal/server/server.go: the requests of Encrypt and Decrypt, and the
-- answers, as texts of valid UTF-8.
use an_b.Base.{
  [], ◌∷◌, ◌++◌, some, Bytes, codes, nat_eq, bytes_eq, Bool-cases, refl, ◌≡◌, inl, inr, arith,
}
use an_b.Authz
use an_b.Authz.{Policy}
use an_b.Keystore
use an_b.Keystore.{Store, KeyError}
use an_b.Server.{Request, Code, failure, first_denied, crypto_err}
use an_b.Server.Wire.{IsUtf8, utf8_from, following, IsUtf8-ascii, IsTextRequest, IsTextResponse}
use an_b.Client.{empty_request}

pub empty-IsUtf8 : IsUtf8 []
unfolding utf8_from
empty-IsUtf8 = refl

pub failure-IsText : (c : Code) (e : Bytes) → IsUtf8 e → IsTextResponse (failure c e)
failure-IsText c e h = record {
  error = h;
  packed = empty-IsUtf8;
  plaintext = empty-IsUtf8;
  plaintext_many = tt;
  rewrapped_packed = empty-IsUtf8;
  rewrapped_packed_many = tt;
}

pub crypto_err-IsText : (e : KeyError) → IsTextResponse (crypto_err e)
unfolding crypto_err utf8_from following
crypto_err-IsText Keystore.locked = failure-IsText _ _ refl
crypto_err-IsText Keystore.unknown_version = failure-IsText _ _ refl
crypto_err-IsText Keystore.cannot_finalize_current = failure-IsText _ _ refl
crypto_err-IsText (Keystore.crypto e) = failure-IsText _ _ refl

pub first_denied-one :
    (p : Policy) (identity key k : Bytes) → first_denied p identity (key ∷ []) ≡ some k → k ≡ key
unfolding first_denied
first_denied-one p identity key k h = elim (Bool-cases (Authz.allowed p identity key)) [
  | inl allowed ↦ absurd (cc (rw allowed at h))
  | inr refused ↦ let e : some key ≡ some k = rw refused at h in cc
]

pub denied-IsUtf8 : (key : Bytes) → IsUtf8 key → IsUtf8 (codes "not authorized for key " ++ key)
denied-IsUtf8 key h = IsUtf8-ascii (codes "not authorized for key ") key (omega arith) h

abbrev pub encrypt_request : Bytes → Bytes → Request
encrypt_request key value = record empty_request {
  op = codes "encrypt";
  key = key;
  plaintext = value;
}

abbrev pub decrypt_request : Bytes → Bytes → Bytes → Request
decrypt_request reason key packed = record empty_request {
  op = codes "decrypt";
  key = key;
  packed = packed;
  reason = reason;
}

pub encrypt_request-IsText :
    (key value : Bytes) → IsUtf8 key → IsUtf8 value → IsTextRequest (encrypt_request key value)
unfolding utf8_from following
encrypt_request-IsText key value hk hv = record {
  op = refl;
  key = hk;
  keys = tt;
  plaintext = hv;
  packed = refl;
  packed_many = tt;
  reason = refl;
}

pub decrypt_request-IsText :
    (reason key packed : Bytes)
    → IsUtf8 reason
    → IsUtf8 key
    → IsUtf8 packed
    → IsTextRequest (decrypt_request reason key packed)
unfolding utf8_from following
decrypt_request-IsText reason key packed hr hk hp = record {
  op = refl;
  key = hk;
  keys = tt;
  plaintext = refl;
  packed = hp;
  packed_many = tt;
  reason = hr;
}
