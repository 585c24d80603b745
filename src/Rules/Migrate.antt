-- ===== src/Rules/Migrate.antt =====
-- internal/aclrules/migrate.go: the rules made of the older exec-allowlist.json.
use an_b.Base.{
  Bool, List, [], ◌∷◌, ◌++◌, Option, none, some, Bytes, codes, Result, ok, err, if◌then◌else◌,
  FileRead, not_exist, failed, contents,
}
use an_b.Rules.Literal.{literal_rule}

pub record LegacyEntry : Type 0 where
  pub label : Bytes
  pub cmd : Bytes
  pub args : List Bytes
  pub env : List Bytes

pub data MigrateError : Type 0 where
  cannot_stat cannot_read cannot_parse cannot_write cannot_rename cannot_rename_json : MigrateError

-- The files of the state directory that the migration is about: the rules, the older list, its copy,
-- and the temporary file. `A` is what the older list holds.
pub record Files {ℓ} (A : Type ℓ) : Type ℓ where
  pub rules : FileRead Bytes
  pub json : FileRead A
  pub bak : FileRead A
  pub tmp : FileRead Bytes

abbrev pub label_or_migrated : Bytes → Bytes
label_or_migrated [] = codes "migrated"
label_or_migrated (c ∷ l) = c ∷ l

abbrev pub migrate_header : Bytes
migrate_header =
    codes
      "# AnB exec-allowlist rules (migrated from v2.x exec-allowlist.json).\n# Original kept as exec-allowlist.json.bak.\n# One rule per line: <regex>\\t<env-csv>\\t#<label>. Implicit ^...$ anchor.\n\n"

unfoldable pub migrated_lines : List LegacyEntry → Bytes
migrated_lines [] = []
migrated_lines (e ∷ es) =
    literal_rule e.cmd e.args e.env (label_or_migrated e.label) ++ (b'\n' ∷ migrated_lines es)

-- which of the steps on the disk work
pub record Steps : Type 0 where
  pub can_write : Bool
  pub can_rename : Bool
  pub can_rename_json : Bool

module _ {ℓ} {A : Type ℓ} (decode : A → Option (List LegacyEntry)) where
  -- the temporary file, the rename over the rules, and the rename of the older list
  abbrev pub write_rules : Steps → Bytes → A → Files A → Files A × Result MigrateError (Unit {0})
  write_rules w text json f =
      if w.can_write
      then (if w.can_rename
          then (if w.can_rename_json
              then (
                record f {
                  rules = contents text;
                  bak = contents json;
                  json = not_exist;
                  tmp = not_exist;
                },
                ok tt,
              )
              else (record f { rules = contents text; tmp = not_exist }, err cannot_rename_json))
          else (record f { tmp = contents text }, err cannot_rename))
      else (f, err cannot_write)

  abbrev pub with_entries :
      Steps → A → Option (List LegacyEntry) → Files A → Files A × Result MigrateError (Unit {0})
  with_entries w json none f = (f, err cannot_parse)
  with_entries w json (some entries) f =
      write_rules w (migrate_header ++ migrated_lines entries) json f

  abbrev pub with_json : Steps → FileRead A → Files A → Files A × Result MigrateError (Unit {0})
  with_json w not_exist f = (f, ok tt)
  with_json w failed f = (f, err cannot_read)
  with_json w (contents json) f = with_entries w json (decode json) f

  abbrev pub without_rules :
      Steps → FileRead Bytes → Files A → Files A × Result MigrateError (Unit {0})
  without_rules w not_exist f = with_json w f.json f
  without_rules w failed f = (f, err cannot_stat)
  without_rules w (contents rules) f = (f, ok tt)

  unfoldable pub migrate_legacy : Steps → Files A → Files A × Result MigrateError (Unit {0})
  unfolding migrated_lines
  migrate_legacy w f = without_rules w f.rules f
