-- ===== src/Crypto.antt =====
-- internal/crypto: the packed ciphertext format, the key envelope and their errors.
pub mod Decimal
pub mod Version
pub mod Hex
pub mod Packed
pub mod Envelope
pub mod Wrap

-- what the package's functions return as errors
pub data Error : Type 0 where
  empty_packed bad_version malformed bad_hex bad_nonce bad_tag bad_key auth_failed : Error
  rand_failed bad_salt bad_password wrong_length : Error
