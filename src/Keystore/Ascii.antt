-- ===== src/Keystore/Ascii.antt =====
-- internal/keystore/keystore.go: what Encrypt returns is ASCII.
use an_b.Base.{
  ℕ, some, Bytes, lookup, ◌==◌, nat_eq, ok, map_err, ◌≡◌, sym, ◌∙◌, Option-cases, Bool-cases, inl,
  inr, bind-eq-ok,
}
use an_b.Crypto.Packed.{Aead, seal_aad}
use an_b.Crypto.Packed.RoundTrip.{IsNonce}
use an_b.Crypto.Packed.Ascii.{Ascii, seal_aad-Ascii, pack_version-Ascii}
use an_b.Crypto.Version.{pack_version}
use an_b.Keystore.{Store, crypto, encrypt, encrypt_result}
use an_b.Keystore.Sealing.{map_err-eq-ok, finish-result}

module _ (aead : Aead) (name pt iv : Bytes) (s : Store) where
  encrypt_result-Ascii :
      (packed : Bytes)
      → IsNonce iv
      → encrypt_result aead name pt (some iv) s ≡ ok packed
      → Ascii packed
  unfolding encrypt_result
  encrypt_result-Ascii packed nonce h = elim (Bool-cases (s.current == 0)) [
    | inl none_held ↦ absurd (cc (rw none_held at h))
    | inr some_current ↦ elim (Option-cases (lookup s.current s.keys)) [
      | inl e ↦ absurd (cc (rw (some_current, e) at h))
      | inr (k, e) ↦
          let (raw, sealed, made) =
            bind-eq-ok (map_err crypto (seal_aad aead k pt name (some iv)))
              (λ raw. ok (pack_version s.current raw)) (rw (some_current, e) at h) in
          let eq : pack_version s.current raw ≡ packed = cc made in
          rw (← eq) (
            pack_version-Ascii s.current raw
              (seal_aad-Ascii aead k pt name iv nonce (map_err-eq-ok _ sealed)))
    ]
  ]

  pub encrypt-Ascii :
      (now : ℕ) (packed : Bytes)
      → IsNonce iv
      → (encrypt aead name pt (some iv) now s).1 ≡ ok packed
      → Ascii packed
  unfolding encrypt
  encrypt-Ascii now packed nonce h =
      encrypt_result-Ascii packed nonce
        (sym (finish-result now s (encrypt_result aead name pt (some iv) s)) ∙ h)
