-- ===== src/Commands/Secret/Stored.antt =====
-- cmd/alice/sensitive.go: what `alice set` stores.
use an_b.Crypto.{Error}
use an_b.Crypto.Version.{parse_version}
use an_b.Base.{
  ℕ, err, length, if◌then◌else◌, ◌==◌, true, not, [], ◌∷◌, Option, none, some, Bytes, Result, ok,
  refl, ◌≡◌, ◌∙◌, sym, ap, insert, bytes_eq,
}
use an_b.Base.Int.{ℤ}
use an_b.Server.{Request}
use an_b.Client
use an_b.Client.{Reply, ClientError}
use an_b.Vault.{SecretEntry, Vault, load, get, set}
use an_b.Exec.Env.{has_key_format}
use an_b.Commands
use an_b.Commands.{
  Session, Command, CommandError, ◌>>=◌, ◌>>◌, load_vault, save_vault, load_client, encrypt,
  decrypt, write_back, no_value_source, bad_key_format, generate_combined, require, lift, or_fail,
  print, return,
}
use an_b.Commands.Value.{SetFlags, read_value}
use an_b.Commands.Secret.{
  has_source, is_combined, Done, done, created_at, description, epoch_of, entry_for, store_value,
  cmd_set, is_some,
}
use an_b.Commands.Chains.{
  bind-done, require-done, lift-done, load_vault-done, load_client-done, save_vault-done,
  encrypt-done,
}

-- the date of creation and the description of an entry, from the entry of before
abbrev pub DatedFrom : Option SecretEntry → Bytes → Bytes → Type 0
DatedFrom none now date = date ≡ now
DatedFrom (some old) now date = date ≡ (if old.created_at == [] then now else old.created_at)

abbrev pub DescribedFrom : Option SecretEntry → SetFlags → Bytes → Type 0
DescribedFrom none f desc = desc ≡ f.desc
DescribedFrom (some old) f desc = desc ≡ (if f.desc_provided then f.desc else old.desc)

-- the version that stands in front of a packed text, and 0 where none does
abbrev pub EpochOf : Result Error (ℕ × Bytes) → ℕ → Type 0
EpochOf (ok (version, body)) epoch = epoch ≡ version
EpochOf (err e) epoch = epoch ≡ 0

created_at-DatedFrom : (o : Option SecretEntry) (now : Bytes) → DatedFrom o now (created_at now o)
created_at-DatedFrom none now = refl
created_at-DatedFrom (some old) now = refl

description-DescribedFrom :
    (o : Option SecretEntry) (f : SetFlags) → DescribedFrom o f (description f o)
description-DescribedFrom none f = refl
description-DescribedFrom (some old) f = refl

epoch_of-EpochOf : (r : Result Error (ℕ × Bytes)) → EpochOf r (epoch_of r)
epoch_of-EpochOf (ok (version, body)) = refl
epoch_of-EpochOf (err e) = refl

module _ {ℓ} {B : Type ℓ} where
  -- What a run of `set` that is not cancelled leaves. The key has the format of a key, `value` is what
  -- the flags and the operator gave, `packed` is what Bob made of it, and the vault on the disk is the
  -- one of before with `entry` under the key. The entry holds `packed`, and of the value only its
  -- length and its estimated entropy.
  pub record Stores (ask : Request → B → B × Reply) (generator : Bytes → ℤ → Option Bytes)
      (estimate : Bytes → ℕ) (w : Commands.World) (f : SetFlags) (key : Bytes) (s t : Session B)
      : Type ℓ where
    pub v : Vault
    pub value : Bytes
    pub packed : Bytes
    pub entry : SecretEntry
    pub format : has_key_format key ≡ true
    pub loaded : load s.disk ≡ ok v
    pub chosen : read_value generator w f (is_some (get v key)) ≡ ok (some value)
    pub sealed : Client.encrypt ask [] key value s.peer ≡ (t.peer, ok packed)
    pub saved : load t.disk ≡ ok (record { version = 1; secrets = insert key entry v.secrets })
    pub holds : entry.value ≡ packed
    pub described : DescribedFrom (get v key) f entry.desc
    pub created : DatedFrom (get v key) (w.now 0) entry.created_at
    pub updated : entry.updated_at ≡ w.now 0
    pub epoch : EpochOf (parse_version packed) entry.key_epoch
    pub counted : entry.len_bytes ≡ length value
    pub estimated : entry.entropy_bits ≡ estimate value

  module _ (ask : Request → B → B × Reply) (generator : Bytes → ℤ → Option Bytes)
      (estimate : Bytes → ℕ) where
    assembled :
        (w : Commands.World) (f : SetFlags) (key : Bytes) (v : Vault) (value packed : Bytes)
        (s s1 s2 s3 t : Session B) (u1 u3 : Unit {0})
        → has_key_format key ≡ true
        → load s.disk ≡ ok v
        → read_value generator w f (is_some (get v key)) ≡ ok (some value)
        → load_client w s ≡ (s1, ok u1)
        → encrypt ask [] key value s1 ≡ (s2, ok packed)
        → save_vault w
            (set key (entry_for ask generator estimate w f (get v key) value packed) v)
            s2
          ≡ (s3, ok u3)
        → ◌≡◌ {A = Session B × Result CommandError Done} (s3, ok done) (t, ok done)
        → Stores ask generator estimate w f key s t
    unfolding set
    assembled w f key v value packed s s1 s2 s3 t u1 u3 hf hl hr h1 h2 h3 h4 =
        let same = load_client-done w s s1 u1 h1 in
        let (sealed, disk) = encrypt-done ask [] key value packed s1 s2 h2 in
        let (saved, peer, printed) = save_vault-done w _ s2 s3 u3 h3 in
        let end : s3 ≡ t = cc in
        let there : t.peer ≡ s2.peer = ap (λ r. r.peer) (sym end) ∙ peer in
        record {
          v = v;
          value = value;
          packed = packed;
          entry = entry_for ask generator estimate w f (get v key) value packed;
          format = hf;
          loaded = hl;
          chosen = hr;
          sealed =
              ap (λ r. Client.encrypt ask [] key value r.peer) (sym same)
              ∙ (sealed ∙ ap (λ q. (q, ok packed)) (sym there));
          saved = ap (λ r. load r.disk) (sym end) ∙ saved;
          holds = refl;
          described = description-DescribedFrom (get v key) f;
          created = created_at-DatedFrom (get v key) (w.now 0);
          updated = refl;
          epoch = epoch_of-EpochOf (parse_version packed);
          counted = refl;
          estimated = refl;
        }

    stored :
        (w : Commands.World) (f : SetFlags) (key : Bytes) (v : Vault) (value : Option Bytes)
        (s t : Session B)
        → has_key_format key ≡ true
        → load s.disk ≡ ok v
        → read_value generator w f (is_some (get v key)) ≡ ok value
        → store_value ask generator estimate w f key v value s ≡ (t, ok done)
        → Stores ask generator estimate w f key s t
    stored w f key v none s t hf hl hr h = absurd (cc)
    stored w f key v (some value) s t hf hl hr h =
        let (s1, u1, e1, h1) = bind-done (load_client w) _ s t done h in
        let (s2, packed, e2, h2) = bind-done (encrypt ask [] key value) _ s1 t done h1 in
        let (s3, u3, e3, h3) = bind-done (save_vault w _) _ s2 t done h2 in
        assembled w f key v value packed s s1 s2 s3 t u1 u3 hf hl hr e1 e2 e3 h3

    behind_checks :
        (w : Commands.World) (f : SetFlags) (key : Bytes) (v : Vault) (value : Option Bytes)
        (s s1 s2 t : Session B)
        → s1 ≡ s
        → has_key_format key ≡ true
        → load_vault s1 ≡ (s2, ok v)
        → (r : Result CommandError (Option Bytes))
        → read_value generator w f (is_some (get v key)) ≡ r
        → (s3 : Session B) → lift r s2 ≡ (s3, ok value)
        → store_value ask generator estimate w f key v value s3 ≡ (t, ok done)
        → Stores ask generator estimate w f key s t
    behind_checks w f key v value s s1 s2 t same hf hl r hr s3 e h =
        let (loaded, same2) = load_vault-done s1 s2 v hl in
        let (chosen, same3) = lift-done r s2 s3 value e in
        let all : s3 ≡ s = same3 ∙ (same2 ∙ same) in
        stored w f key v value s t hf (ap (λ q. load q.disk) (sym same) ∙ loaded) (hr ∙ chosen)
          (rw all at h)

    pub cmd_set-Stores :
        (w : Commands.World) (f : SetFlags) (key : Bytes) (s t : Session B)
        → cmd_set ask generator estimate w f (key ∷ []) s ≡ (t, ok done)
        → Stores ask generator estimate w f key s t
    unfolding cmd_set
    cmd_set-Stores w f key s t h =
        let (s1, u1, e1, h1) = bind-done (require (has_source w f) no_value_source) _ s t done h in
        let (s2, u2, e2, h2) =
          bind-done (require (has_key_format key) bad_key_format) _ s1 t done h1 in
        let (s3, u3, e3, h3) =
          bind-done (require (not (is_combined f)) generate_combined) _ s2 t done h2 in
        let (s4, v, e4, h4) = bind-done load_vault _ s3 t done h3 in
        let (s5, value, e5, h5) =
          bind-done (lift (read_value generator w f (is_some (get v key)))) _ s4 t done h4 in
        let (format, same2) = require-done (has_key_format key) bad_key_format s1 s2 u2 e2 in
        behind_checks w f key v value s s3 s4 t
          ((require-done (not (is_combined f)) generate_combined s2 s3 u3 e3).1
            ∙ (same2 ∙ (require-done (has_source w f) no_value_source s s1 u1 e1).1))
          format e4 _ refl s5 e5 h5
