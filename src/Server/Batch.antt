-- ===== src/Server/Batch.antt =====
-- internal/server/server.go: the batch of decryptMany.
use an_b.Base.{
  ℕ, suc, Bool, List, [], ◌∷◌, some, Bytes, Table, length, nat_eq, bytes_eq, Result, ok, arith,
  refl, ◌≡◌, ap,
}
use an_b.Crypto.Packed.{Aead}
use an_b.Keystore.{Opened, Store, KeyError, decrypt, finish}
use an_b.Keystore.Sealing.{Holds, CanRewrap, decrypt_any, finish-keys, finish-current}
use an_b.Crypto.Packed.RoundTrip.{IsNonce}
use an_b.Server.{World, decrypt_all}

module _ (aead : Aead) where
  -- item by item, `pts` are the plaintexts that the ciphertexts hold under their names
  abbrev pub AllHold : Table ℕ Bytes → List (Bytes × Bytes) → List Bytes → Type 0
  AllHold ks [] [] = Unit
  AllHold ks ((k, p) ∷ items) (pt ∷ pts) = ((v : ℕ) × Holds aead ks v k pt p) × AllHold ks items pts
  AllHold ks _ _ = ⊥

  -- rand.Read never fails
  abbrev pub Random : World → Type 0
  Random w = (n : ℕ) → (iv : Bytes) × (w.random n ≡ some iv) × IsNonce iv

  decrypt-step :
      (k p pt iv : Bytes) (v now : ℕ) (st : Store)
      → CanRewrap aead st
      → IsNonce iv
      → Holds aead st.keys v k pt p
      → (st' : Store) × (re : Bytes) × (flag : Bool) × (decrypt aead k p (some iv) now st
          ≡ (st', ok (pt, re, flag)))
        × (st'.keys ≡ st.keys)
        × (st'.current ≡ st.current)
  unfolding decrypt
  decrypt-step k p pt iv v now st c nonce h =
      let (re, flag, e) = decrypt_any aead k pt p iv v st c nonce h in
      let r : Result KeyError Opened = ok (pt, re, flag) in
      (
        (finish now st r).0,
        re,
        flag,
        ap (finish now st) e,
        finish-keys now st r,
        finish-current now st r,
      )

  -- Where the store holds the key of every ciphertext and can seal anew, and every draw of random
  -- bytes succeeds, every ciphertext decrypts to its own plaintext, in the order of the request,
  -- with a rewrapped value (possibly empty) for each.
  pub decrypt_all-plaintexts :
      (w : World) (n : ℕ) (items : List (Bytes × Bytes)) (pts : List Bytes) (st : Store)
      → Random w
      → CanRewrap aead st
      → AllHold st.keys items pts
      → (res : List Bytes) × ((decrypt_all aead w n items st).1 ≡ ok (pts, res))
        × (length res ≡ length items)
  unfolding decrypt_all
  decrypt_all-plaintexts w n [] [] st r c h = ([], refl, refl)
  decrypt_all-plaintexts w n [] (pt ∷ pts) st r c h = absurd h
  decrypt_all-plaintexts w n ((k, p) ∷ items) [] st r c h = absurd h
  decrypt_all-plaintexts w n ((k, p) ∷ items) (pt ∷ pts) st r c ((v, h), hs) =
      let (iv, random, nonce) = r n in
      let (st', re, flag, e, ks, cur) = decrypt-step k p pt iv v (w.clock (suc n)) st c nonce h in
      let c' : CanRewrap aead st' = record {
        unlocked = rw cur c.unlocked;
        fits = rw cur c.fits;
        key = c.key;
        at = rw (cur, ks) c.at;
        usable = c.usable;
      } in
      let (res, rest, len) = decrypt_all-plaintexts w (suc n) items pts st' r c' (rw ks hs) in
      (re ∷ res, rw (random, e, rest), omega (arith, len))
