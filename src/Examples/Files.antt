-- ===== src/Examples/Files.antt =====
-- The laws of templates and of redaction, at concrete inputs.
use an_b.Base.{
  Lacks, contents, ℕ, true, false, [], ◌∷◌, some, Bytes, codes, ok, ◌≡◌, refl, arith, list_beq,
  has_prefix, lookup, bytes_eq,
}
use an_b.Client
use an_b.Client.{Reply, response, call}
use an_b.Server.{blank, Request}
use an_b.Rules.Shell.{contains_byte}
use an_b.Redact.Undone.{restore-replace_known}
use an_b.Redact.Engine.{Detector, replace_known, longest_first}
use an_b.Redact.Placeholder.{restore, extract_placeholders}
use an_b.Redact.Placeholder.Laws.{IsKey}
use an_b.Commands.Files.{Written, cmd_template, packed_values, lookup_in}
use an_b.Commands.Files.Rendering.{cmd_template-renders, IsRendering}
use an_b.Vault.{SecretEntry, Vault, load, get}
use an_b.Commands.{Session, load_client}
use an_b.Redact.Search.{hits, pieces, pieces_from}
use an_b.Redact.Placeholder.{distinct, placeholder, up_to_close, is_key, ends_well}
use an_b.Examples.Sealing.{secret, name}
use an_b.Examples.Commands.{here}

-- a Bob that answers each request with one plaintext
abbrev one_value : Request → Unit {0} → Unit {0} × Reply
one_value req u = (u, response (record blank { plaintext_many = secret ∷ []; is_ok = true }))

abbrev db_entry : SecretEntry
db_entry = record {
  value = codes "v1:00:00:00";
  desc = [];
  created_at = [];
  updated_at = [];
  key_epoch = 1;
  len_bytes = 7;
  entropy_bits = 40;
}

abbrev filled : Vault
filled = record { version = 1; secrets = (name, db_entry) ∷ [] }

abbrev start : Session (Unit {0})
start = record { disk = contents (some filled); printed = []; peer = tt }

abbrev template_text : Bytes
template_text = codes "pass=<agent-vault:db-pass>"

abbrev detector : Detector
detector = record { secret_patterns = []; entropy_is_high = λ s. false; sha256_hex = λ s. s }

cmd_template-renders_example :
    (t : Session (Unit {0})) × (out : Written) × (cmd_template one_value detector here []
        (some template_text)
        true
        start
      ≡ (t, ok out))
    × IsRendering
        (extract_placeholders template_text)
        (secret ∷ [])
        (pieces placeholder template_text)
        out.content
unfolding load packed_values load_client extract_placeholders Client.decrypt_many call get lookup
    distinct hits pieces pieces_from placeholder has_prefix up_to_close is_key ends_well list_beq
cmd_template-renders_example =
    cmd_template-renders one_value detector here [] template_text filled (db_entry.value ∷ [])
      (secret ∷ []) [] start tt refl refl refl refl refl

abbrev config : Bytes
config = codes "pass=hunter2, again=hunter2"

name-IsKey : IsKey name
unfolding is_key ends_well
name-IsKey = (refl, (refl, (refl, (refl, (refl, (refl, (refl, (refl, tt))))))))

lacks : (b : ℕ) (s : Bytes) → contains_byte s b ≡ false → Lacks b s
unfolding contains_byte
lacks b [] h = tt
lacks b (c ∷ s) h = ground (arith, lacks b s)

restore-replace_known_example :
    let r =
      restore
        (lookup_in ((name, secret) ∷ []))
        (replace_known (longest_first ((secret, name) ∷ [])) config) in
    (r.content ≡ config) × (r.missing ≡ [])
restore-replace_known_example =
    restore-replace_known (lookup_in ((name, secret) ∷ [])) secret name config name-IsKey
      (unfold lookup list_beq in refl) (lacks b'<' config (unfold contains_byte in refl))
