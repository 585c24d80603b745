-- ===== src/Vault/Rewraps.antt =====
-- cmd/alice/main.go: applyRewraps, and the entries of the vault before and behind it.
use an_b.Base.{
  ℕ, Bool, true, false, ◌||◌, List, [], ◌∷◌, Option, none, some, Bytes, lookup, lookup-insert, ◌==◌,
  nat_eq, bytes_eq, ok, length, ◌≡◌, refl, sym, ap, ◌∙◌, Bool-cases, inl, inr,
}
use an_b.Rules.{contains}
use an_b.Vault.{
  SecretEntry, Vault, Disk, load, save, get, set, rewrapped_entry, put_back, put_all,
  count_non_empty, saved, apply_rewraps,
}

-- The entry of a key before and behind a write-back: there is one where there was one, its
-- description, dates, length and strength are the same, and all of it is where `touched` is false.
abbrev pub Kept : Bool → Option SecretEntry → Option SecretEntry → Type 0
Kept touched none none = Unit
Kept touched none (some e) = ⊥
Kept touched (some e) none = ⊥
Kept true (some e) (some f) =
    (f.desc ≡ e.desc)
    × (f.created_at ≡ e.created_at)
    × (f.updated_at ≡ e.updated_at)
    × (f.len_bytes ≡ e.len_bytes)
    × (f.entropy_bits ≡ e.entropy_bits)
Kept false (some e) (some f) = f ≡ e

Kept-refl : (touched : Bool) (o : Option SecretEntry) → Kept touched o o
Kept-refl touched none = tt
Kept-refl true (some e) = (refl, refl, refl, refl, refl)
Kept-refl false (some e) = refl

Kept-trans : (s t : Bool) (a b c : Option SecretEntry) → Kept s a b → Kept t b c → Kept (s || t) a c
Kept-trans s t none none none h k = tt
Kept-trans s t none none (some f) h k = absurd k
Kept-trans s t none (some e) c h k = absurd h
Kept-trans s t (some d) none c h k = absurd h
Kept-trans s t (some d) (some e) none h k = absurd k
Kept-trans true true (some d) (some e) (some f) (h1, h2, h3, h4, h5) (k1, k2, k3, k4, k5) =
    (k1 ∙ h1, k2 ∙ h2, k3 ∙ h3, k4 ∙ h4, k5 ∙ h5)
Kept-trans true false (some d) (some e) (some f) h k = rw k h
Kept-trans false true (some d) (some e) (some f) h (k1, k2, k3, k4, k5) =
    rw⁻¹ h (k1, k2, k3, k4, k5)
Kept-trans false false (some d) (some e) (some f) h k = k ∙ h

put_back-Kept :
    (k r name : Bytes) (o : Option SecretEntry) (v : Vault)
    → get v k ≡ o
    → Kept (k == name) (get v name) (get (put_back k r o v) name)
unfolding get set
put_back-Kept k r name none v e = Kept-refl (k == name) (lookup name v.secrets)
put_back-Kept k r name (some entry) v e = elim (Bool-cases (k == name)) [
  | inl same ↦
      let here : get v name ≡ some entry =
        ap (get v) (sym ((bytes_eq.equal_iff k name).0 same)) ∙ e in
      rw (here, lookup-insert k name (rewrapped_entry r entry) v.secrets, same)
        (refl, refl, refl, refl, refl)
  | inr apart ↦
      rw (lookup-insert k name (rewrapped_entry r entry) v.secrets, apart)
        (Kept-refl false (lookup name v.secrets))
]

put_all-Kept :
    (keys rs : List Bytes) (name : Bytes) (v : Vault)
    → Kept (contains name keys) (get v name) (get (put_all keys rs v) name)
unfolding put_all contains
put_all-Kept [] rs name v = Kept-refl false (get v name)
put_all-Kept (k ∷ keys) [] name v = Kept-refl (k == name || contains name keys) (get v name)
put_all-Kept (k ∷ keys) ([] ∷ rs) name v =
    Kept-trans (k == name) (contains name keys) (get v name) (get v name)
      (get (put_all keys rs v) name) (Kept-refl (k == name) (get v name))
      (put_all-Kept keys rs name v)
put_all-Kept (k ∷ keys) ((c ∷ r) ∷ rs) name v =
    let w : Vault = put_back k (c ∷ r) (get v k) v in
    Kept-trans (k == name) (contains name keys) (get v name) (get w name)
      (get (put_all keys rs w) name) (put_back-Kept k (c ∷ r) name (get v k) v refl)
      (put_all-Kept keys rs name w)

-- the vault on the disk afterwards
abbrev pub Leaves : List Bytes → Bytes → Vault → Disk → Type 0
Leaves keys name v disk =
    (w : Vault) × (load disk ≡ ok w) × Kept (contains name keys) (get v name) (get w name)

same-Leaves :
    (keys : List Bytes) (name : Bytes) (v : Vault) (disk : Disk)
    → load disk ≡ ok v
    → Leaves keys name v disk
same-Leaves keys name v disk h = (v, h, Kept-refl (contains name keys) (get v name))

saved-Leaves :
    (keys rs : List Bytes) (name : Bytes) (v : Vault) (n : ℕ) (can_save : Bool) (disk : Disk)
    → load disk ≡ ok v
    → Leaves keys name v (saved n (save (put_all keys rs v) can_save disk)).0
unfolding save
saved-Leaves keys rs name v n true disk h = (
  record { version = 1; secrets = (put_all keys rs v).secrets },
  unfold load in refl,
  unfold get in put_all-Kept keys rs name v,
)
saved-Leaves keys rs name v n false disk h = same-Leaves keys name v disk h

-- Whatever values are written back and however it ends, a vault that loads still loads; each key has
-- an entry just where it had one, with the description, the dates, the length and the strength of
-- before, and the entry of a key that is not named is not changed at all.
pub apply_rewraps-Kept :
    (keys rs : List Bytes) (can_save : Bool) (disk : Disk) (v : Vault) (name : Bytes)
    → load disk ≡ ok v
    → Leaves keys name v (apply_rewraps keys rs can_save disk).0
unfolding apply_rewraps
apply_rewraps-Kept keys [] can_save disk v name h = same-Leaves keys name v disk h
apply_rewraps-Kept keys (r ∷ rs) can_save disk v name h =
    elim (Bool-cases (length keys == length (r ∷ rs))) [
      | inl fits ↦ elim (Bool-cases (count_non_empty (r ∷ rs) == 0)) [
        | inl none_new ↦ rw (fits, none_new) (same-Leaves keys name v disk h)
        | inr some_new ↦
            rw (fits, some_new, h)
              (saved-Leaves keys (r ∷ rs) name v (count_non_empty (r ∷ rs)) can_save disk h)
      ]
      | inr other ↦ rw other (same-Leaves keys name v disk h)
    ]
