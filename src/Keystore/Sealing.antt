-- ===== src/Keystore/Sealing.antt =====
-- internal/keystore/keystore.go: Encrypt and Decrypt, with AddKey and RemoveKey in between.
use an_b.Base.{
  ℕ, ◌≤◌, Bool, true, false, [], Option, some, Bytes, Table, lookup, insert, delete, lookup-insert,
  lookup-delete, ◌==◌, nat_eq, nat_beq_iff, beq_refl, Result, ok, err, map_err, ◌≡◌, ◌≢◌, refl, ◌⊎◌,
  inl, inr, arith, Option-cases, Bool-cases, bind-eq-ok, sym, ◌∙◌, All,
}
use an_b.Crypto.Hex.{IsByte}
use an_b.Crypto.Decimal.{max_int}
use an_b.Crypto.{Error}
use an_b.Crypto.Packed.{usable_key, Aead, seal_aad, open_aad}
use an_b.Crypto.Packed.RoundTrip.{body, seal_aad-eq, IsNonce, open_aad-seal_aad}
use an_b.Crypto.Version.{pack_version, parse_version}
use an_b.Crypto.Version.Laws.{parse-pack}
use an_b.Keystore.{
  KeyError, unknown_version, crypto, Store, arm_locked, add_key, remove_key, finish, encrypt,
  encrypt_result, decrypt, decrypt_result,
}

pub map_err-eq-ok : {A : Type 0} {a : A} (r : Result Error A) → map_err crypto r ≡ ok a → r ≡ ok a
map_err-eq-ok (ok x) h = cc
map_err-eq-ok (err e) h = cc

nonzero-test : (n : ℕ) → n ≢ 0 → (n == 0) ≡ false
nonzero-test n h = ground arith

other_version : (a b : ℕ) → a ≢ b → (a == b) ≡ false
other_version a b h = ground arith

arm_locked-keys : (now : ℕ) (s : Store) → (arm_locked now s).keys ≡ s.keys
unfolding arm_locked
arm_locked-keys now s = ground arith

arm_locked-current : (now : ℕ) (s : Store) → (arm_locked now s).current ≡ s.current
unfolding arm_locked
arm_locked-current now s = ground arith

module _ {A : Type 0} (now : ℕ) (s : Store) where
  pub finish-result : (r : Result KeyError A) → (finish now s r).1 ≡ r
  finish-result (ok a) = refl
  finish-result (err e) = refl

  pub finish-keys : (r : Result KeyError A) → (finish now s r).0.keys ≡ s.keys
  finish-keys (ok a) = arm_locked-keys now s
  finish-keys (err e) = refl

  pub finish-current : (r : Result KeyError A) → (finish now s r).0.current ≡ s.current
  finish-current (ok a) = arm_locked-current now s
  finish-current (err e) = refl

module _ (aead : Aead) where
  -- `packed` holds `pt` under version `v` of the keys `ks`, bound to `name`
  pub record Holds (ks : Table ℕ Bytes) (v : ℕ) (name pt packed : Bytes) : Type 0 where
    pub key : Bytes
    pub raw : Bytes
    pub at : lookup v ks ≡ some key
    pub parses : parse_version packed ≡ ok (v, raw)
    pub opens : open_aad aead key raw name ≡ ok pt
    pub bytes : All IsByte pt

  pub seal-Holds :
      (ks : Table ℕ Bytes) (v : ℕ) (name pt k iv raw : Bytes)
      → 1 ≤ v
      → v ≤ max_int
      → lookup v ks ≡ some k
      → All IsByte pt
      → IsNonce iv
      → seal_aad aead k pt name (some iv) ≡ ok raw
      → Holds ks v name pt (pack_version v raw)
  seal-Holds ks v name pt k iv raw pos fits at bytes nonce sealed =
      let (opens, one) = open_aad-seal_aad aead k pt name iv bytes nonce sealed in
      record {
        key = k;
        raw = raw;
        at = at;
        parses = parse-pack v raw pos fits one;
        opens = opens;
        bytes = bytes;
      }

  -- What Encrypt returns holds the plaintext under the current version.
  pub encrypt-Holds :
      (name pt iv : Bytes) (s : Store) {packed : Bytes}
      → s.current ≤ max_int
      → All IsByte pt
      → IsNonce iv
      → encrypt_result aead name pt (some iv) s ≡ ok packed
      → (s.current ≢ 0) × Holds s.keys s.current name pt packed
  unfolding encrypt_result
  encrypt-Holds name pt iv s {packed} fits bytes nonce h = elim (Bool-cases (s.current == 0)) [
    | inl none_held ↦ absurd (cc (rw none_held at h))
    | inr some_current ↦ elim (Option-cases (lookup s.current s.keys)) [
      | inl e ↦ absurd (cc (rw (some_current, e) at h))
      | inr (k, e) ↦
          let (raw, sealed, made) =
            bind-eq-ok (map_err crypto (seal_aad aead k pt name (some iv)))
              (λ raw. ok (pack_version s.current raw)) (rw (some_current, e) at h) in
          let nz : s.current ≢ 0 = λ z. cc ((nat_beq_iff s.current 0).1 z, some_current) in
          let eq : pack_version s.current raw ≡ packed = cc made in
          (
            nz,
            rw (← eq) (
                seal-Holds s.keys s.current name pt k iv raw (omega arith) fits e bytes nonce
                  (map_err-eq-ok _ sealed)),
          )
    ]
  ]

  -- Decrypting under the current version gives the plaintext and no rewrapped value.
  decrypt_current :
      (name pt packed : Bytes) (random : Option Bytes) (s : Store)
      → s.current ≢ 0
      → Holds s.keys s.current name pt packed
      → decrypt_result aead name packed random s ≡ ok (pt, [], true)
  unfolding decrypt_result
  decrypt_current name pt packed random s nz h =
      rw (nonzero-test s.current nz, h.parses, h.at, h.opens, beq_refl s.current)

  -- Decrypting under an older version also seals the plaintext anew under the current one.
  decrypt_older :
      (name pt packed iv k : Bytes) (v : ℕ) (s : Store)
      → s.current ≢ 0
      → s.current ≤ max_int
      → v ≢ s.current
      → lookup s.current s.keys ≡ some k
      → usable_key k ≡ true
      → IsNonce iv
      → Holds s.keys v name pt packed
      → (re : Bytes) × (decrypt_result aead name packed (some iv) s ≡ ok (pt, re, false))
        × Holds s.keys s.current name pt re
  unfolding decrypt_result
  decrypt_older name pt packed iv k v s nz fits ne at usable (len, bytes) h =
      let raw = body aead k pt name iv usable len bytes in
      let sealed = seal_aad-eq aead k pt name iv usable len bytes in
      (
        pack_version s.current raw,
        rw (
          nonzero-test s.current nz,
          h.parses,
          h.at,
          h.opens,
          other_version v s.current ne,
          at,
          sealed,
        ),
        seal-Holds s.keys s.current name pt k iv raw (omega arith) fits at h.bytes (len, bytes)
            sealed,
      )

  -- A ciphertext that Encrypt returned, for a plaintext of bytes, a nonce of twelve bytes and a
  -- current version that an int holds, decrypts at any later time under the same name to the same
  -- plaintext, as current and with no rewrapped value.
  pub decrypt-encrypt :
      (name pt iv packed : Bytes) (random : Option Bytes) (now later : ℕ) (s : Store)
      → s.current ≤ max_int
      → All IsByte pt
      → IsNonce iv
      → (encrypt aead name pt (some iv) now s).1 ≡ ok packed
      → (decrypt aead name packed random later (encrypt aead name pt (some iv) now s).0).1
        ≡ ok (pt, [], true)
  unfolding encrypt decrypt
  decrypt-encrypt name pt iv packed random now later s fits bytes nonce h =
      let r = encrypt_result aead name pt (some iv) s in
      let (nz, held) =
        encrypt-Holds name pt iv s fits bytes nonce (sym (finish-result now s r) ∙ h) in
      finish-result later (finish now s r).0 _
      ∙ decrypt_current name pt packed random (finish now s r).0 (rw (finish-current now s r) nz)
          (rw (finish-current now s r, finish-keys now s r) held)

  -- a store that can decrypt any version it holds: the current key can seal
  pub record CanRewrap (s : Store) : Type 0 where
    pub unlocked : s.current ≢ 0
    pub fits : s.current ≤ max_int
    pub key : Bytes
    pub at : lookup s.current s.keys ≡ some key
    pub usable : usable_key key ≡ true

  -- whatever the version, a ciphertext that holds `pt` decrypts to it
  pub decrypt_any :
      (name pt packed iv : Bytes) (v : ℕ) (s : Store)
      → CanRewrap s
      → IsNonce iv
      → Holds s.keys v name pt packed
      → (re : Bytes) × (flag : Bool) × (decrypt_result aead name packed (some iv) s
          ≡ ok (pt, re, flag))
  decrypt_any name pt packed iv v s c nonce h = elim (Bool-cases (v == s.current)) [
    | inl same ↦ (
      [],
      true,
      decrypt_current name pt packed (some iv) s c.unlocked
          (rw ((nat_beq_iff v s.current).0 same) at h),
    )
    | inr other ↦
        let (re, e, _) =
          decrypt_older name pt packed iv c.key v s c.unlocked c.fits
            (λ e. cc ((nat_beq_iff v s.current).1 e, other)) c.at c.usable nonce h in
        (re, false, e)
  ]

  -- a ciphertext under an older version, decrypted twice
  decrypt_twice :
      (name pt packed iv k : Bytes) (v : ℕ) (random : Option Bytes) (later last : ℕ) (t : Store)
      → t.current ≢ 0
      → t.current ≤ max_int
      → v ≢ t.current
      → lookup t.current t.keys ≡ some k
      → usable_key k ≡ true
      → IsNonce iv
      → Holds t.keys v name pt packed
      → (re : Bytes) × ((decrypt aead name packed (some iv) later t).1 ≡ ok (pt, re, false))
        × ((decrypt aead name re random last (decrypt aead name packed (some iv) later t).0).1
            ≡ ok (pt, [], true))
  unfolding decrypt
  decrypt_twice name pt packed iv k v random later last t nz fits ne at usable nonce h =
      let (re, opened, held) = decrypt_older name pt packed iv k v t nz fits ne at usable nonce h in
      let r = decrypt_result aead name packed (some iv) t in
      (
        re,
        finish-result later t r ∙ opened,
        finish-result last (finish later t r).0 _
            ∙ decrypt_current name pt re random (finish later t r).0
                (rw (finish-current later t r) nz)
                (rw (finish-current later t r, finish-keys later t r) held),
      )

  Holds-insert :
      (ks : Table ℕ Bytes) (v id : ℕ) (key name pt packed : Bytes)
      → v ≢ id
      → Holds ks v name pt packed
      → Holds (insert id key ks) v name pt packed
  Holds-insert ks v id key name pt packed ne h = record {
    key = h.key;
    raw = h.raw;
    parses = h.parses;
    opens = h.opens;
    bytes = h.bytes;
    at = rw (lookup-insert id v, other_version id v (λ e. ne (sym e))) h.at;
  }

  added-Holds :
      (name pt packed fresh : Bytes) (v id added : ℕ) (s : Store)
      → v ≢ id
      → Holds s.keys v name pt packed
      → ((add_key id fresh added s).current ≡ id)
        × (lookup id (add_key id fresh added s).keys ≡ some fresh)
        × Holds (add_key id fresh added s).keys v name pt packed
  unfolding add_key
  added-Holds name pt packed fresh v id added s ne h =
      let s' = record s { keys = insert id fresh s.keys; current = id } in
      (
        arm_locked-current added s',
        rw (arm_locked-keys added s', lookup-insert id id, beq_refl id),
        rw (arm_locked-keys added s') (Holds-insert s.keys v id fresh name pt packed ne h),
      )

  -- A rotation keeps old ciphertexts readable. Let Encrypt seal a plaintext of bytes, and AddKey
  -- then bring in a usable key under another version of at least 1, where an int holds both versions
  -- and nonces have twelve bytes: decrypting gives the plaintext and a rewrapped value, which from
  -- then on decrypts as current to the same plaintext.
  pub decrypt-rotated :
      (name pt iv packed fresh iv' : Bytes) (id : ℕ) (random : Option Bytes)
      (now added later last : ℕ) (s : Store)
      → s.current ≤ max_int
      → 1 ≤ id
      → id ≤ max_int
      → s.current ≢ id
      → usable_key fresh ≡ true
      → All IsByte pt
      → IsNonce iv
      → IsNonce iv'
      → (encrypt aead name pt (some iv) now s).1 ≡ ok packed
      → let rotated = add_key id fresh added (encrypt aead name pt (some iv) now s).0 in
        let after = decrypt aead name packed (some iv') later rotated in
        (re : Bytes) × (after.1 ≡ ok (pt, re, false))
        × ((decrypt aead name re random last after.0).1 ≡ ok (pt, [], true))
  unfolding encrypt
  decrypt-rotated name pt iv packed fresh iv' id random now added later last s fits pos small ne
        usable bytes nonce nonce' h =
      let r = encrypt_result aead name pt (some iv) s in
      let (nz, held) =
        encrypt-Holds name pt iv s fits bytes nonce (sym (finish-result now s r) ∙ h) in
      let (cur, at, held') =
        added-Holds name pt packed fresh s.current id added (finish now s r).0 ne
          (rw (finish-keys now s r) held) in
      decrypt_twice name pt packed iv' fresh s.current random later last
        (add_key id fresh added (finish now s r).0) (rw cur (omega arith)) (rw cur small)
        (rw cur ne) (rw cur at) usable nonce' held'

  removed-keys :
      (w : ℕ) (s : Store)
      → (remove_key w s).1 ≡ ok tt
      → ((remove_key w s).0.keys ≡ delete w s.keys) × ((remove_key w s).0.current ≡ s.current)
  unfolding remove_key
  removed-keys w s h = ground arith

  -- After RemoveKey of a version on an unlocked store, a ciphertext of that version is refused,
  -- and those of the other versions hold what they held.
  pub decrypt-removed :
      (name pt packed : Bytes) (v w : ℕ) (random : Option Bytes) (now : ℕ) (s : Store)
      → s.current ≢ 0
      → Holds s.keys v name pt packed
      → (remove_key w s).1 ≡ ok tt
      → ((v ≡ w)
          × ((decrypt aead name packed random now (remove_key w s).0).1 ≡ err unknown_version))
        ⊎ ((v ≢ w) × Holds (remove_key w s).0.keys v name pt packed)
  unfolding decrypt decrypt_result
  decrypt-removed name pt packed v w random now s nz h removed =
      let (ks, cur) = removed-keys w s removed in
      let t = (remove_key w s).0 in
      elim (Bool-cases (v == w)) [
        | inl same ↦
            let e = (nat_beq_iff v w).0 same in
            inl (
              e,
              finish-result now t _
                  ∙ rw (
                    cur,
                    nonzero-test s.current nz,
                    h.parses,
                    ks,
                    e,
                    lookup-delete w w,
                    beq_refl w,
                  ),
            )
        | inr other ↦
            let ne : v ≢ w = λ e. cc ((nat_beq_iff v w).1 e, other) in
            inr (
              ne,
              record {
                key = h.key;
                raw = h.raw;
                parses = h.parses;
                opens = h.opens;
                bytes = h.bytes;
                at = rw (ks, lookup-delete w v, other_version w v (λ e. ne (sym e))) h.at;
              },
            )
      ]
