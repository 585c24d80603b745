-- ===== src/Commands.antt =====
-- cmd/alice: what the commands of alice share. A command runs in a session: the vault file on the
-- disk, the values and answers that it has printed, and Bob behind the connection.
pub mod Value
pub mod Chains
pub mod Local
pub mod Secret
pub mod Import
pub mod Batch
pub mod Files
pub mod Main
pub mod Refinement
use an_b.Base.{
  ℕ, Bool, List, [], ◌∷◌, ◌++◌, Option, none, some, Bytes, Result, ok, err, if◌then◌else◌, map_err,
}
use an_b.Vault.{Vault, Disk, VaultError, load, save, apply_rewraps}
use an_b.Client
use an_b.Client.{ClientError, Reply}
use an_b.Server.{Request}

pub data CommandError : Type 0 where
  usage no_value_source bad_key_format generate_combined bad_generator env_empty : CommandError
  refuse_overwrite no_input no_password empty_value file_not_found not_found no_match : CommandError
  refuse_without_yes excluded_flags stdout_no_tty stdin_no_tty write_failed panics : CommandError
  no_config no_certificate no_client_key no_ca bad_client : CommandError
  missing_placeholders : List Bytes → CommandError
  unmatched : List Bytes → CommandError
  vault : VaultError → CommandError
  bob : ClientError → CommandError

pub record Session {ℓ} (B : Type ℓ) : Type ℓ where
  pub disk : Disk
  pub printed : List Bytes
  pub peer : B

-- What the process finds: its terminal and input, its environment, whether a write of the vault
-- works, which files of the enrolment can be read, and whether a client can be made of them.
pub record World : Type 0 where
  pub stdin_tty : Bool
  pub stdout_tty : Bool
  pub confirmed : Bool
  pub stdin : Bytes
  pub getenv : Bytes → Bytes
  pub password : Option Bytes
  pub now : ℕ → Bytes
  pub can_save : Bool
  pub has_config : Bool
  pub has_certificate : Bool
  pub has_client_key : Bool
  pub has_ca : Bool
  pub makes_client : Bool

abbrev pub Command {ℓ κ} : Type ℓ → Type κ → Type (ℓ ⊔ κ)
Command B A = Session B → Session B × Result CommandError A

abbrev pub after {ℓ κ μ} :
    {B : Type ℓ} {A : Type κ} {C : Type μ}
    → Session B × Result CommandError A
    → (A → Command B C)
    → Session B × Result CommandError C
after (s, ok a) f = f a s
after (s, err e) f = (s, err e)

module _ {ℓ κ μ} {B : Type ℓ} {A : Type κ} {C : Type μ} where
  infixl 5 ◌>>=◌
  abbrev pub ◌>>=◌ : Command B A → (A → Command B C) → Command B C
  ◌>>=◌ m f s = after (m s) f

module _ {ℓ κ} {B : Type ℓ} {C : Type κ} where
  infixl 5 ◌>>◌
  abbrev pub ◌>>◌ : Command B (Unit {0}) → Command B C → Command B C
  m >> k = m >>= λ _. k

module _ {ℓ κ} {B : Type ℓ} {A : Type κ} where
  abbrev pub return : A → Command B A
  return a s = (s, ok a)

  abbrev pub fail : CommandError → Command B A
  fail e s = (s, err e)

  abbrev pub lift : Result CommandError A → Command B A
  lift r s = (s, r)

  abbrev pub or_fail : CommandError → Option A → Command B A
  or_fail e none s = (s, err e)
  or_fail e (some a) s = (s, ok a)

module _ {ℓ} {B : Type ℓ} where
  -- `if !c { return e }`
  abbrev pub require : Bool → CommandError → Command B (Unit {0})
  require c e s = (s, if c then ok tt else err e)

  abbrev pub print : Bytes → Command B (Unit {0})
  print line s = (record s { printed = s.printed ++ (line ∷ []) }, ok tt)

  unfoldable pub load_vault : Command B Vault
  load_vault s = (s, map_err vault (load s.disk))

  unfoldable pub save_vault : World → Vault → Command B (Unit {0})
  save_vault w v s =
      let (disk, r) = save v w.can_save s.disk in (record s { disk = disk }, map_err vault r)

  -- loadClient: each file is missed in turn
  unfoldable pub load_client : World → Command B (Unit {0})
  load_client w s = (
    s,
    if w.has_config
        then (if w.has_certificate
            then (if w.has_client_key
                then (if w.has_ca
                    then (if w.makes_client then ok tt else err bad_client)
                    else err no_ca)
                else err no_client_key)
            else err no_certificate)
        else err no_config,
  )

  -- applyRewraps where the caller only warns of a failure
  unfoldable pub write_back : World → List Bytes → List Bytes → Command B (Unit {0})
  write_back w keys rewraps s =
      (record s { disk = (apply_rewraps keys rewraps w.can_save s.disk).0 }, ok tt)

  module _ (ask : Request → B → B × Reply) where
    unfoldable pub encrypt : Bytes → Bytes → Bytes → Command B Bytes
    encrypt reason key value s =
        let (peer, r) = Client.encrypt ask reason key value s.peer in
        (record s { peer = peer }, map_err bob r)

    unfoldable pub decrypt : Bytes → Bytes → Bytes → Command B (Bytes × Bytes)
    decrypt reason key packed s =
        let (peer, r) = Client.decrypt ask reason key packed s.peer in
        (record s { peer = peer }, map_err bob r)

    unfoldable pub decrypt_many :
        Bytes → List Bytes → List Bytes → Command B (List Bytes × List Bytes)
    decrypt_many reason keys packed s =
        let (peer, r) = Client.decrypt_many ask reason keys packed s.peer in
        (record s { peer = peer }, map_err bob r)
