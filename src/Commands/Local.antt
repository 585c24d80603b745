-- ===== src/Commands/Local.antt =====
-- cmd/alice/safe.go, sensitive.go and rekey.go: the commands that never ask Bob.
use an_b.Base.{
  ℕ, suc, Bool, true, false, ◌&&◌, List, [], ◌∷◌, ◌++◌, none, some, Bytes, codes, Result, ok, err,
  if◌then◌else◌, bytes_eq, nat_eq, Table, lookup, insert, not_exist, join, map, leb, length,
}
use an_b.Base.Sort.{sort}
use an_b.Crypto.Version.{parse_version}
use an_b.Vault.{SecretEntry, Vault, Disk, Listing, get, set, remove, list, load, VaultError}
use an_b.Exec.Env.{add_all}
use an_b.Commands.{
  World, Command, CommandError, usage, not_found, no_match, refuse_without_yes, ◌>>=◌, ◌>>◌, return,
  fail, lift, or_fail, print, load_vault, save_vault,
}
use an_b.Commands.Secret.{Done, done, cancelled, is_some, epoch_of}

-- Vault.Has
unfoldable pub has : Vault → Bytes → Bool
has v key = is_some (get v key)

-- what `has` answers of each key
abbrev pub presence : Vault → List Bytes → List (Bytes × Bool)
presence v keys = map (λ k. (k, has v k)) keys

unfoldable pub all_present : List (Bytes × Bool) → Bool
all_present [] = true
all_present ((k, b) ∷ rest) = b && all_present rest

abbrev pub truth : Bool → Bytes
truth true = codes "true"
truth false = codes "false"

abbrev pub presence_line : Bool → Bytes × Bool → Bytes
presence_line many (k, b) = if many then k ++ (codes ": " ++ truth b) else truth b

-- `if len(hits) == 0`
abbrev pub named_here : List Bytes → Result CommandError (List Bytes)
named_here [] = err no_match
named_here (k ∷ ks) = ok (k ∷ ks)

-- a pattern is filepath.Match: true where it matches without an error
module _ (glob : Bytes → Bytes → Bool) where
  unfoldable pub matching : Bytes → List Listing → List Listing
  matching pattern [] = []
  matching pattern (l ∷ ls) =
      let rest = matching pattern ls in if glob pattern l.key then l ∷ rest else rest

  unfoldable pub match_keys : Vault → Bytes → List Bytes
  unfolding matching
  match_keys v pattern = map (λ l. l.key) (matching pattern (list v))

  -- the keys that one argument of `rm` names: an exact key, or those that the pattern matches
  abbrev pub named_by : Vault → Bytes → Result CommandError (List Bytes)
  named_by v pattern =
      if has v pattern then ok (pattern ∷ []) else named_here (match_keys v pattern)

  abbrev pub gather :
      Result CommandError (List Bytes)
      → Result CommandError (List Bytes)
      → Result CommandError (List Bytes)
  gather (err e) rest = err e
  gather (ok ks) (err e) = err e
  gather (ok ks) (ok rest) = ok (add_all ks rest)

  -- the loop over the arguments; the keys are a set
  unfoldable pub named_by_all : Vault → List Bytes → Result CommandError (List Bytes)
  named_by_all v [] = ok []
  named_by_all v (p ∷ ps) = gather (named_by v p) (named_by_all v ps)

unfoldable pub remove_all : List Bytes → Vault → Vault
remove_all [] v = v
remove_all (k ∷ ks) v = remove_all ks (remove k v).0

-- the number of values sealed under each version; 0 stands for -1, the values that do not parse
unfoldable pub count_versions : Table Bytes SecretEntry → Table ℕ ℕ
count_versions [] = []
count_versions ((k, e) ∷ rest) =
    let counts = count_versions rest in
    let version = epoch_of (parse_version e.value) in
    insert version (suc (elim (lookup version counts) [ none ↦ 0 | some n ↦ n ])) counts

-- sort.Ints of the versions
unfoldable pub insert_row : ℕ × ℕ → Table ℕ ℕ → Table ℕ ℕ
insert_row r [] = r ∷ []
insert_row (v, n) ((u, m) ∷ rows) =
    let rest = insert_row (v, n) rows in if leb v u then (v, n) ∷ (u, m) ∷ rows else (u, m) ∷ rest

unfoldable pub sort_rows : Table ℕ ℕ → Table ℕ ℕ
sort_rows [] = []
sort_rows (r ∷ rows) = insert_row r (sort_rows rows)

-- `list`, with or without a pattern
abbrev pub listed : (Bytes → Bytes → Bool) → List Bytes → List Listing → List Listing
listed glob [] ls = ls
listed glob (p ∷ ps) ls = matching glob p ls

abbrev pub with_desc : Bytes → SecretEntry → SecretEntry
with_desc text e = record e { desc = text }

abbrev pub confirmed_removal : World → Bool → Result CommandError Bool
confirmed_removal w yes_flag =
    if yes_flag then ok true else if w.stdin_tty then ok w.confirmed else err refuse_without_yes

-- os.Stat finds a file that cannot be read
abbrev pub vault_exists : Disk → Bool
vault_exists not_exist = false
vault_exists _ = true

abbrev pub vault_or_none : Result VaultError Vault → Vault
vault_or_none (ok v) = v
vault_or_none (err e) = record { version = 0; secrets = [] }

module _ {ℓ} {B : Type ℓ} where
  unfoldable pub print_all : List Bytes → Command B (Unit {0})
  print_all [] = return tt
  print_all (l ∷ ls) = print l >> print_all ls

  -- false: the process exits with status 1
  unfoldable pub cmd_has : (keys : List Bytes) → Command B Bool
  unfolding load_vault all_present
  cmd_has [] = fail usage
  cmd_has (k ∷ keys) = do
    v ← load_vault
    print_all (map (presence_line (leb 2 (length (k ∷ keys)))) (presence v (k ∷ keys)))
    return (all_present (presence v (k ∷ keys)))

  unfoldable pub cmd_list : (Bytes → Bytes → Bool) → List Bytes → Command B (List Listing)
  unfolding load_vault
  cmd_list glob patterns = do v ← load_vault; return (listed glob patterns (list v))

  abbrev pub change_desc : World → Bytes → Vault → SecretEntry → List Bytes → Bool → Command B Bytes
  change_desc w key v e [] false = return e.desc
  change_desc w key v e text clear =
      let d = if clear then [] else join (b' ' ∷ []) text in
      save_vault w (set key (with_desc d e) v) >> return d

  -- the description that the entry has or is given
  unfoldable pub cmd_desc : World → Bool → List Bytes → Command B Bytes
  unfolding load_vault save_vault
  cmd_desc w clear [] = fail usage
  cmd_desc w clear (key ∷ text) = do
    v ← load_vault
    e ← or_fail not_found (get v key)
    change_desc w key v e text clear

  abbrev pub remove_or_cancel : World → Vault → List Bytes → Bool → Command B Done
  remove_or_cancel w v keys false = return cancelled
  remove_or_cancel w v keys true = save_vault w (remove_all keys v) >> return done

  unfoldable pub cmd_rm : (Bytes → Bytes → Bool) → World → Bool → List Bytes → Command B Done
  unfolding load_vault save_vault
  cmd_rm glob w yes_flag [] = fail usage
  cmd_rm glob w yes_flag (p ∷ patterns) = do
    v ← load_vault
    keys ← lift (named_by_all glob v (p ∷ patterns))
    go ← lift (confirmed_removal w yes_flag)
    remove_or_cancel w v (sort keys) go

  unfoldable pub cmd_init : World → Command B Done
  unfolding save_vault load
  cmd_init w s =
      if vault_exists s.disk
      then (s, ok cancelled)
      else (save_vault w (vault_or_none (load s.disk)) >> return done) s

  -- the rows of the table, and their total
  unfoldable pub cmd_rekey_status : Command B (Table ℕ ℕ × ℕ)
  unfolding load_vault count_versions sort_rows
  cmd_rekey_status = do
    v ← load_vault
    return (sort_rows (count_versions v.secrets), length v.secrets)
