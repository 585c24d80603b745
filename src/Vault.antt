-- ===== src/Vault.antt =====
-- internal/localvault/localvault.go: alice's vault, and cmd/alice/main.go: writing the re-sealed
-- values back to it. The disk holds the file vault.json; json.Unmarshal either makes a vault of it
-- or refuses it.
pub mod Rewraps
use an_b.Base.{
  ℕ, suc, Bool, true, false, ◌&&◌, List, [], ◌∷◌, Option, none, some, Bytes, Table, lookup, insert,
  delete, ◌==◌, nat_eq, bytes_eq, if◌then◌else◌, Result, ok, err, ◌>>=◌, FileRead, not_exist,
  failed, contents, length, map,
}
use an_b.Base.Sort.{bytes_le}
use an_b.Crypto.{Error}
use an_b.Crypto.Version.{parse_version}

pub record SecretEntry : Type 0 where
  pub value : Bytes
  pub desc : Bytes
  pub created_at : Bytes
  pub updated_at : Bytes
  pub key_epoch : ℕ
  pub len_bytes : ℕ
  pub entropy_bits : ℕ

pub record Vault : Type 0 where
  pub version : ℕ
  pub secrets : Table Bytes SecretEntry

pub data VaultError : Type 0 where
  cannot_read not_json cannot_save length_mismatch : VaultError

abbrev pub Disk : Type 0
Disk = FileRead (Option Vault)

abbrev pub vault_version : ℕ
vault_version = 1

unfoldable pub load : Disk → Result VaultError Vault
load not_exist = ok (record { version = vault_version; secrets = [] })
load failed = err cannot_read
load (contents none) = err not_json
load (contents (some v)) = ok v

-- the file is renamed into place, so it is the new one or, on an error, the one before
unfoldable pub save : Vault → Bool → Disk → Disk × Result VaultError (Unit {0})
save v true disk =
    (contents (some (record { version = vault_version; secrets = v.secrets })), ok tt)
save v false disk = (disk, err cannot_save)

unfoldable pub get : Vault → Bytes → Option SecretEntry
get v key = lookup key v.secrets

unfoldable pub set : Bytes → SecretEntry → Vault → Vault
set key e v = record { version = v.version; secrets = insert key e v.secrets }

abbrev pub removed : Option SecretEntry → Bytes → Vault → Vault × Bool
removed none key v = (v, false)
removed (some e) key v = (record { version = v.version; secrets = delete key v.secrets }, true)

unfoldable pub remove : Bytes → Vault → Vault × Bool
remove key v = removed (get v key) key v

pub record Listing : Type 0 where
  pub key : Bytes
  pub desc : Bytes
  pub key_epoch : ℕ
  pub len_bytes : ℕ
  pub entropy_bits : ℕ

abbrev pub listing_of : Bytes × SecretEntry → Listing
listing_of (k, e) = record {
  key = k;
  desc = e.desc;
  key_epoch = e.key_epoch;
  len_bytes = e.len_bytes;
  entropy_bits = e.entropy_bits;
}

unfoldable pub insert_listing : Listing → List Listing → List Listing
insert_listing l [] = l ∷ []
insert_listing l (m ∷ ms) =
    let rest = insert_listing l ms in if bytes_le l.key m.key then l ∷ m ∷ ms else m ∷ rest

unfoldable pub sort_listings : List Listing → List Listing
sort_listings [] = []
sort_listings (l ∷ ls) = insert_listing l (sort_listings ls)

unfoldable pub list : Vault → List Listing
list v = sort_listings (map listing_of v.secrets)

-- the version in the value, where it has one that reads
abbrev pub epoch_or : ℕ → Result Error (ℕ × Bytes) → ℕ
epoch_or old (ok (epoch, body)) = epoch
epoch_or old (err e) = old

abbrev pub rewrapped_entry : Bytes → SecretEntry → SecretEntry
rewrapped_entry value e = record {
  value = value;
  desc = e.desc;
  created_at = e.created_at;
  updated_at = e.updated_at;
  key_epoch = epoch_or e.key_epoch (parse_version value);
  len_bytes = e.len_bytes;
  entropy_bits = e.entropy_bits;
}

-- an entry that has been removed in the meantime is skipped
abbrev pub put_back : Bytes → Bytes → Option SecretEntry → Vault → Vault
put_back key value none v = v
put_back key value (some e) v = set key (rewrapped_entry value e) v

-- the loop over the values that are not empty
unfoldable pub put_all : List Bytes → List Bytes → Vault → Vault
put_all (k ∷ keys) ([] ∷ rs) v = put_all keys rs v
put_all (k ∷ keys) ((c ∷ r) ∷ rs) v = put_all keys rs (put_back k (c ∷ r) (get v k) v)
put_all _ _ v = v

unfoldable pub count_non_empty : List Bytes → ℕ
count_non_empty [] = 0
count_non_empty ([] ∷ rs) = count_non_empty rs
count_non_empty ((c ∷ r) ∷ rs) = suc (count_non_empty rs)

abbrev pub saved : ℕ → Disk × Result VaultError (Unit {0}) → Disk × Result VaultError ℕ
saved n (disk, ok u) = (disk, ok n)
saved n (disk, err e) = (disk, err e)

abbrev pub with_vault :
    List Bytes → List Bytes → Bool → Disk → Result VaultError Vault → Disk × Result VaultError ℕ
with_vault keys rs can_save disk (err e) = (disk, err e)
with_vault keys rs can_save disk (ok v) =
    saved (count_non_empty rs) (save (put_all keys rs v) can_save disk)

unfoldable pub apply_rewraps : List Bytes → List Bytes → Bool → Disk → Disk × Result VaultError ℕ
apply_rewraps keys [] can_save disk = (disk, ok 0)
apply_rewraps keys (r ∷ rs) can_save disk =
    if length keys == length (r ∷ rs)
    then (if count_non_empty (r ∷ rs) == 0
        then (disk, ok 0)
        else with_vault keys (r ∷ rs) can_save disk (load disk))
    else (disk, err length_mismatch)
