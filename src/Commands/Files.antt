-- ===== src/Commands/Files.antt =====
-- cmd/alice/safe.go, sensitive.go and template.go: the commands that read and write files with
-- secrets in them.
pub mod Rendering
use an_b.Base.{
  ℕ, suc, zero, ◌+◌, ◌-◌, Bool, true, false, not, ◌&&◌, List, [], ◌∷◌, ◌++◌, Option, none, some,
  Bytes, Table, lookup, Result, ok, err, if◌then◌else◌, ◌==◌, bytes_eq, nat_eq, split, length, map,
  ltb, take, drop,
}
use an_b.Crypto.Decimal.{itoa}
use an_b.Vault.{SecretEntry, Vault, get}
use an_b.Redact.Search.{pieces, hits}
use an_b.Redact.Placeholder.{
  RestoreResult, restore, extract_placeholders, unvaulted, placeholder_prefix,
}
use an_b.Redact.Engine.{Detector, redact, restore_unvaulted, Unvaulted, contains_text}
use an_b.Exec.Run.{pair_up}
use an_b.Server.{Request}
use an_b.Client.{Reply}
use an_b.Commands.{
  World, Command, CommandError, file_not_found, missing_placeholders, unmatched, write_failed,
  panics, not_found, ◌>>=◌, ◌>>◌, return, fail, lift, or_fail, print, load_vault, load_client,
  write_back, decrypt_many,
}
use an_b.Commands.Local.{vault_exists, print_all}
use an_b.Commands.Batch.{decrypt_all_values}

-- strings.HasSuffix of a newline
unfoldable pub ends_in_newline : Bytes → Bool
ends_in_newline [] = false
ends_in_newline (c ∷ []) = c == b'\n'
ends_in_newline (c ∷ d ∷ s) = ends_in_newline (d ∷ s)

-- the lines without the last, where that is empty
unfoldable pub drop_last_empty : List Bytes → List Bytes
drop_last_empty [] = []
drop_last_empty ([] ∷ []) = []
drop_last_empty (l ∷ []) = l ∷ []
drop_last_empty (l ∷ m ∷ ls) = l ∷ drop_last_empty (m ∷ ls)

unfoldable pub spaces : ℕ → Bytes
spaces zero = []
spaces (suc n) = b' ' ∷ spaces n

unfoldable pub numbered : ℕ → ℕ → List Bytes → List Bytes
numbered width n [] = []
numbered width n (l ∷ ls) =
    (spaces (width - length (itoa n)) ++ (itoa n ++ (b'\t' ∷ l))) ∷ numbered width (suc n) ls

abbrev pub at_least_six : ℕ → ℕ
at_least_six n = if ltb n 6 then 6 else n

-- printCatN
unfoldable pub cat_n : Bytes → Bytes → List Bytes
unfolding ends_in_newline drop_last_empty spaces numbered
cat_n redacted raw =
    let all = split b'\n' redacted in
    let lines = if ends_in_newline raw then drop_last_empty all else all in
    numbered (at_least_six (length (itoa (length lines)))) 1 lines

-- a line of the file, and the key or the marker that it holds
abbrev pub LineHit : Type 0
LineHit = ℕ × Bytes

-- the loop over the values, for one line
unfoldable pub vaulted_in : ℕ → Bytes → Table Bytes Bytes → List LineHit
vaulted_in n line [] = []
vaulted_in n line ((v, k) ∷ vals) =
    let rest = vaulted_in n line vals in
    if not (v == []) && contains_text line v then (n, k) ∷ rest else rest

unfoldable pub vaulted_hits : ℕ → List Bytes → Table Bytes Bytes → List LineHit
unfolding vaulted_in
vaulted_hits n [] vals = []
vaulted_hits n (l ∷ ls) vals = vaulted_in n l vals ++ vaulted_hits (suc n) ls vals

-- a marker without its brackets: strings.TrimPrefix and TrimSuffix
abbrev pub marker_body : Bytes → Bytes
marker_body m =
    take (length m - (length placeholder_prefix + 1)) (drop (length placeholder_prefix) m)

unfoldable pub suspect_hits : ℕ → List Bytes → List LineHit
suspect_hits n [] = []
suspect_hits n (l ∷ ls) =
    map (λ m. (n, marker_body m)) (hits (pieces unvaulted l)) ++ suspect_hits (suc n) ls

pub record Scan : Type 0 where
  pub vaulted : List LineHit
  pub suspects : List LineHit

-- what `write` and `template` write
pub record Written : Type 0 where
  pub content : Bytes
  pub count : ℕ
  pub unvaulted_count : ℕ

-- the keys that are stored, with their packed values; the others are left out
abbrev pub keep_stored :
    Bytes → Option SecretEntry → List Bytes × List Bytes → List Bytes × List Bytes
keep_stored k none rest = rest
keep_stored k (some e) (keys, packed) = (k ∷ keys, e.value ∷ packed)

unfoldable pub stored : Vault → List Bytes → List Bytes × List Bytes
stored v [] = ([], [])
stored v (k ∷ ks) = keep_stored k (get v k) (stored v ks)

-- every key must be stored
unfoldable pub packed_values : Vault → List Bytes → Result CommandError (List Bytes)
packed_values v [] = ok []
packed_values v (k ∷ ks) = elim (get v k) [
  | none ↦ err not_found
  | some e ↦ elim (packed_values v ks) [ err f ↦ err f | ok ps ↦ ok (e.value ∷ ps) ]
]

-- unvaultedMarker.MatchString
unfoldable pub has_marker : Bytes → Bool
has_marker s = elim (hits (pieces unvaulted s)) [ [] ↦ false | m ∷ ms ↦ true ]

abbrev pub lookup_in : Table Bytes Bytes → Bytes → Option Bytes
lookup_in m k = lookup k m

abbrev pub all_matched : Unvaulted → Result CommandError (Bytes × ℕ)
all_matched r = elim r.unmatched [
  | [] ↦ ok (r.out, r.restored_count)
  | h ∷ hs ↦ err (unmatched (h ∷ hs))
]

module _ (d : Detector) where
  -- the UNVAULTED placeholders are restored from the file that stands there
  unfoldable pub finish_content : Bytes → Option Bytes → Result CommandError (Bytes × ℕ)
  unfolding has_marker
  finish_content content existing =
      if has_marker content
      then elim existing [
        | none ↦ err file_not_found
        | some old ↦ all_matched (restore_unvaulted d content old)
      ]
      else ok (content, 0)

  -- from the restored text to the file
  abbrev pub file_for : RestoreResult → Option Bytes → Result CommandError Written
  file_for r existing = elim r.missing [
    | k ∷ ks ↦ err (missing_placeholders (k ∷ ks))
    | [] ↦ elim (finish_content r.content existing) [
      | err e ↦ err e
      | ok (final, n) ↦
          ok (record { content = final; count = length r.restored + n; unvaulted_count = n })
    ]
  ]

abbrev pub template_for : RestoreResult → Result CommandError Written
template_for r = elim r.missing [
  | k ∷ ks ↦ err (missing_placeholders (k ∷ ks))
  | [] ↦ ok (record { content = r.content; count = length r.restored; unvaulted_count = 0 })
]

module _ {ℓ} {B : Type ℓ} (ask : Request → B → B × Reply) (d : Detector) where
  abbrev pub known_values : World → Command B (Table Bytes Bytes)
  known_values w s = if vault_exists s.disk then decrypt_all_values ask w s else return [] s

  -- `file` is what os.ReadFile gives of the file
  unfoldable pub cmd_read : World → (file : Option Bytes) → Command B (Unit {0})
  unfolding cat_n print_all
  cmd_read w file = do
    raw ← or_fail file_not_found file
    vals ← known_values w
    print_all (cat_n (redact d vals raw) raw)

  unfoldable pub cmd_redact : World → Command B (Unit {0})
  cmd_redact w = do vals ← known_values w; print (redact d vals w.stdin)

  unfoldable pub cmd_scan : World → (file : Option Bytes) → Command B Scan
  unfolding vaulted_hits suspect_hits
  cmd_scan w file = do
    raw ← or_fail file_not_found file
    vals ← known_values w
    return (record {
      vaulted = vaulted_hits 1 (split b'\n' raw) vals;
      suspects = suspect_hits 1 (split b'\n' (redact d vals raw));
    })

  -- the plaintexts of the keys, in one round
  abbrev pub resolve : World → Bytes → List Bytes → List Bytes → Command B (Table Bytes Bytes)
  resolve w reason keys [] = return []
  resolve w reason keys (p ∷ packed) = do
    load_client w
    (pts, rewraps) ← decrypt_many ask reason keys (p ∷ packed)
    write_back w keys rewraps
    or_fail panics (pair_up keys pts)

  -- os.WriteFile of what has been made
  abbrev pub write_file : Bool → Written → Command B Written
  write_file true out = return out
  write_file false out = fail write_failed

  -- `existing` is the file before; the file afterwards is the content of the answer
  unfoldable pub cmd_write :
      World → (content : Bytes) (existing : Option Bytes) (can_write : Bool) → Command B Written
  unfolding load_vault load_client decrypt_many write_back stored finish_content
  cmd_write w content existing can_write = do
    v ← load_vault
    resolved ←
        resolve w [] (stored v (extract_placeholders content)).0
          (stored v (extract_placeholders content)).1
    out ← lift (file_for d (restore (lookup_in resolved) content) existing)
    write_file can_write out

  abbrev pub template_values : World → Bytes → List Bytes → Command B (Table Bytes Bytes)
  template_values w reason [] = return []
  template_values w reason (k ∷ keys) = do
    v ← load_vault
    packed ← lift (packed_values v (k ∷ keys))
    resolve w reason (k ∷ keys) packed

  -- `alice template` from the text of its source on
  unfoldable pub cmd_template :
      World → (reason : Bytes) (source : Option Bytes) (can_write : Bool) → Command B Written
  unfolding load_vault load_client decrypt_many write_back packed_values
  cmd_template w reason source can_write = do
    text ← or_fail file_not_found source
    plaintexts ← template_values w reason (extract_placeholders text)
    out ← lift (template_for (restore (lookup_in plaintexts) text))
    write_file can_write out
