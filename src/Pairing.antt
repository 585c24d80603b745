-- ===== src/Pairing.antt =====
-- internal/ca/pairing.go: the pairing code that binds a fresh certificate to the operator who saw it
-- signed; the signing and the check of internal/ca/ca.go and cmd/alice/sensitive.go around it. X.509,
-- PEM, ASN.1 and SHA-256 are arguments. Times are nanoseconds.
pub mod Laws
use an_b.Base.{
  ℕ, suc, zero, ◌+◌, ◌-◌, ◌*◌, ◌/◌, ◌<◌, ◌%◌, Bool, true, false, not, ◌&&◌, ◌||◌, List, [], ◌∷◌,
  ◌++◌, Option, none, some, Bytes, codes, Result, ok, err, if◌then◌else◌, ◌==◌, bytes_eq, nat_eq,
  ltb, leb, length, ◌≡◌, ◌>>=◌,
}
use an_b.Crypto.Decimal.{itoa}

pub record Extension : Type 0 where
  pub id : List ℕ
  pub value : Bytes

pub record Certificate : Type 0 where
  pub common_name : Bytes
  pub public_key_info : Bytes
  pub extensions : List Extension

pub record Pairing : Type 0 where
  pub commit : Bytes
  pub expires_at : ℕ

pub data PairingError : Type 0 where
  bad_asn1 trailing_bytes bad_commit absent expired mismatch : PairingError
  bad_length not_digits no_code not_certificate : PairingError

abbrev pub pairing_oid : List ℕ
pairing_oid = 2 ∷ 25 ∷ 0x7d2cba5a ∷ 0x4b8d4e9a ∷ []

abbrev pub second : ℕ
second = 1_000_000_000

-- how long a code is good
abbrev pub pair_code_ttl : ℕ
pair_code_ttl = 600 * second

unfoldable pub same_oid : List ℕ → List ℕ → Bool
same_oid [] [] = true
same_oid (a ∷ as') (b ∷ bs) = a == b && same_oid as' bs
same_oid _ _ = false

-- encoding/asn1 on the pair of a commit and a time, and crypto/sha256
pub record Encoding : Type 0 where
  pub marshal : Bytes → ℕ → Bytes
  -- the pair, and the bytes behind it
  pub unmarshal : Bytes → Option (Bytes × ℕ × Bytes)
  pub sha256 : Bytes → Bytes
  -- GeneralizedTime holds whole seconds
  pub unmarshal-marshal :
      (commit : Bytes) (t : ℕ)
      → unmarshal (marshal commit (t * second)) ≡ some (commit, t * second, [])
  pub length-sha256 : (s : Bytes) → length (sha256 s) ≡ 32

abbrev pub zeros : ℕ → Bytes
zeros zero = []
zeros (suc n) = b'0' ∷ zeros n

-- NewPairingCode, "%08d" of a random number below 100_000_000
unfoldable pub pairing_code : ℕ → Bytes
pairing_code n = zeros (8 - length (itoa n)) ++ itoa n

unfoldable pub all_digits : Bytes → Bool
all_digits [] = true
all_digits (c ∷ s) = (leb b'0' c && leb c b'9') && all_digits s

unfoldable pub validate_pairing_code : Bytes → Result PairingError (Unit {0})
unfolding all_digits
validate_pairing_code s =
    if length s == 8 then (if all_digits s then ok tt else err not_digits) else err bad_length

module _ (enc : Encoding) where
  unfoldable pub pairing_commit : (code fingerprint : Bytes) → Bytes
  pairing_commit code fingerprint = enc.sha256 (code ++ fingerprint)

  abbrev pub fingerprint_of : Certificate → Bytes
  fingerprint_of cert = enc.sha256 cert.public_key_info

  -- Pairing.Encode, with the time cut to whole seconds
  unfoldable pub encode : Pairing → Result PairingError Bytes
  encode p =
      if length p.commit == 32
      then ok (enc.marshal p.commit (p.expires_at / second * second))
      else err bad_commit

  abbrev pub decoded : Option (Bytes × ℕ × Bytes) → Result PairingError Pairing
  decoded none = err bad_asn1
  decoded (some (commit, t, c ∷ rest)) = err trailing_bytes
  decoded (some (commit, t, [])) =
      if length commit == 32
      then ok (record { commit = commit; expires_at = t })
      else err bad_commit

  unfoldable pub decode_pairing_value : Bytes → Result PairingError Pairing
  decode_pairing_value b = decoded (enc.unmarshal b)

  abbrev pub some_pairing : Result PairingError Pairing → Result PairingError (Option Pairing)
  some_pairing (ok p) = ok (some p)
  some_pairing (err e) = err e

  -- the first extension with the OID
  unfoldable pub decode_pairing : List Extension → Result PairingError (Option Pairing)
  unfolding same_oid decode_pairing_value
  decode_pairing [] = ok none
  decode_pairing (e ∷ es) =
      if same_oid e.id pairing_oid
      then some_pairing (decode_pairing_value e.value)
      else decode_pairing es

  abbrev pub checked :
      Certificate
      → Bytes
      → ℕ
      → Result PairingError (Option Pairing)
      → Result PairingError (Unit {0})
  checked cert code now (err e) = err e
  checked cert code now (ok none) = err absent
  checked cert code now (ok (some p)) =
      if ltb now p.expires_at
      then (if pairing_commit code (fingerprint_of cert) == p.commit then ok tt else err mismatch)
      else err expired

  unfoldable pub verify_pairing : Certificate → Bytes → ℕ → Result PairingError (Unit {0})
  unfolding decode_pairing pairing_commit
  verify_pairing cert code now = checked cert code now (decode_pairing cert.extensions)

  -- SignCSRWithPairing: what the certificate for a request takes over, and the extension
  unfoldable pub sign_csr_with_pairing :
      (common_name public_key_info : Bytes) → Pairing → Result PairingError Certificate
  unfolding encode
  sign_csr_with_pairing common_name public_key_info p = encode p >>= λ value. ok (record {
    common_name = common_name;
    public_key_info = public_key_info;
    extensions = record { id = pairing_oid; value = value } ∷ [];
  })

  -- SignCSR
  unfoldable pub sign_csr : (common_name public_key_info : Bytes) → Certificate
  sign_csr common_name public_key_info = record {
    common_name = common_name;
    public_key_info = public_key_info;
    extensions = [];
  }

  -- readPairingCode, from $ANB_PAIR_CODE or the line that is typed
  unfoldable pub read_pairing_code :
      (variable : Bytes) (line : Option Bytes) → Result PairingError Bytes
  unfolding validate_pairing_code
  read_pairing_code [] none = err no_code
  read_pairing_code [] (some line) = validate_pairing_code line >>= λ _. ok line
  read_pairing_code (c ∷ v) line = validate_pairing_code (c ∷ v) >>= λ _. ok (c ∷ v)

  -- `alice install-cert`: ok where the certificate is written
  unfoldable pub install_cert :
      (no_pair : Bool) (cert : Option Certificate) (variable : Bytes) (line : Option Bytes)
      (now : ℕ)
      → Result PairingError Certificate
  unfolding read_pairing_code verify_pairing
  install_cert no_pair none variable line now = err not_certificate
  install_cert true (some cert) variable line now = ok cert
  install_cert false (some cert) variable line now =
      read_pairing_code variable line >>= λ code. verify_pairing cert code now >>= λ _. ok cert

  -- what `bob sign-csr` does with a random number for the code and a time
  unfoldable pub cmd_sign_csr :
      (common_name public_key_info : Bytes) (number now : ℕ) → Result PairingError Certificate
  unfolding sign_csr_with_pairing pairing_commit pairing_code
  cmd_sign_csr common_name public_key_info number now =
      sign_csr_with_pairing common_name public_key_info (record {
        commit = pairing_commit (pairing_code number) (enc.sha256 public_key_info);
        expires_at = now + pair_code_ttl;
      })
