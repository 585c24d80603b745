-- ===== src/Commands/Chains.antt =====
-- cmd/alice: what a chain of steps that ends well tells of the steps.
use an_b.Base.{Bool, true, false, Bytes, Result, ok, err, refl, ◌≡◌, bytes_eq, arith, map_err}
use an_b.Server.{Request}
use an_b.Client
use an_b.Client.{Reply, ClientError}
use an_b.Vault.{Vault, load, save}
use an_b.Commands
use an_b.Commands.{
  Session, Command, CommandError, ◌>>=◌, ◌>>◌, load_vault, save_vault, load_client, encrypt,
  decrypt, write_back, no_value_source, bad_key_format, generate_combined, require, lift, or_fail,
  print, return,
}

-- a chain that succeeds succeeds in its first step
pub bind-done {ℓ κ μ} :
    {B : Type ℓ} {A : Type κ} {C : Type μ} (m : Command B A) (f : A → Command B C)
    (s s' : Session B) (c : C)
    → (m >>= f) s ≡ (s', ok c)
    → (t : Session B) × (a : A) × (m s ≡ (t, ok a)) × (f a t ≡ (s', ok c))
bind-done {B} {A} {C} m f s s' c h = by_result (m s) refl h
  where
    by_result :
        (r : Session B × Result CommandError A)
        → m s ≡ r
        → Commands.after r f ≡ (s', ok c)
        → (t : Session B) × (a : A) × (m s ≡ (t, ok a)) × (f a t ≡ (s', ok c))
    by_result (t, ok a) e h = (t, a, e, h)
    by_result (t, err e') e h = absurd (cc)

module _ {ℓ} {B : Type ℓ} where
  pub require-done :
      (c : Bool) (e : CommandError) (s t : Session B) (u : Unit {0})
      → require c e s ≡ (t, ok u)
      → (c ≡ true) × (t ≡ s)
  require-done true e s t u h = (refl, cc)
  require-done false e s t u h = absurd (cc)

  pub lift-done {κ} :
      {A : Type κ} (r : Result CommandError A) (s t : Session B) (a : A)
      → lift r s ≡ (t, ok a)
      → (r ≡ ok a) × (t ≡ s)
  lift-done r s t a h = (cc, cc)

  pub load_vault-done :
      (s t : Session B) (v : Vault) → load_vault s ≡ (t, ok v) → (load s.disk ≡ ok v) × (t ≡ s)
  unfolding load_vault
  load_vault-done s t v h = (ground (arith), cc)

  pub load_client-done :
      (w : Commands.World) (s t : Session B) (u : Unit {0}) → load_client w s ≡ (t, ok u) → t ≡ s
  unfolding load_client
  load_client-done w s t u h = cc

  pub save_vault-done :
      (w : Commands.World) (v : Vault) (s t : Session B) (u : Unit {0})
      → save_vault w v s ≡ (t, ok u)
      → (load t.disk ≡ ok (record { version = 1; secrets = v.secrets }))
        × (t.peer ≡ s.peer)
        × (t.printed ≡ s.printed)
  unfolding save_vault save load
  save_vault-done w v s t u h = ground arith

  answered :
      (s t : Session B) (packed : Bytes) (r : B × Result ClientError Bytes)
      → ◌≡◌ {A = Session B × Result CommandError Bytes}
          (record s { peer = r.0 }, map_err Commands.bob r.1)
          (t, ok packed)
      → r ≡ (t.peer, ok packed)
  answered s t packed (b, ok p) h = cc
  answered s t packed (b, err e) h = absurd (cc)

  pub encrypt-done :
      (ask : Request → B → B × Reply) (reason key value packed : Bytes) (s t : Session B)
      → encrypt ask reason key value s ≡ (t, ok packed)
      → (Client.encrypt ask reason key value s.peer ≡ (t.peer, ok packed)) × (t.disk ≡ s.disk)
  unfolding encrypt
  encrypt-done ask reason key value packed s t h =
      (answered s t packed (Client.encrypt ask reason key value s.peer) h, cc)
