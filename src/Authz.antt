-- ===== src/Authz.antt =====
-- internal/authz/authz.go: which identity may use which vault key, and how often.
pub mod Laws
use an_b.Base.{
  ℕ, Bool, true, false, ◌&&◌, ◌||◌, Option, none, some, List, [], ◌∷◌, Bytes, codes, Table, lookup,
  ◌==◌, bytes_eq, has_prefix, if◌then◌else◌, FileRead, not_exist, failed, contents,
}
use an_b.Base.Int.{ℤ, pos, is_positive}

abbrev pub default_rate_limit : ℕ
default_rate_limit = 100

pub record Policy : Type 0 where
  pub rules : Table Bytes (List Bytes)
  pub rate_limits : Table Bytes ℤ
  pub default_allow : Bool

pub data Loaded : Type 0 where
  ok : Policy → Loaded
  read_error : Loaded
  json_error : Loaded
  bad_limit : Bytes → ℤ → Loaded

abbrev pub allow_all : Policy
allow_all = record { rules = []; rate_limits = []; default_allow = true }

-- the loop over `p.RateLimits`: the first entry that is not positive
unfoldable pub first_bad_limit : Table Bytes ℤ → Option (Bytes × ℤ)
first_bad_limit [] = none
first_bad_limit ((id, n) ∷ m) = if is_positive n then first_bad_limit m else some (id, n)

abbrev checked : Policy → Option (Bytes × ℤ) → Loaded
checked p none = ok p
checked p (some (id, n)) = bad_limit id n

-- `decode` is json.Unmarshal into a zero Policy. The field DefaultAllow is `json:"-"`, so it
-- stays false.
module _ (decode : Bytes → Option (Table Bytes (List Bytes) × Table Bytes ℤ)) where
  unfoldable pub open_or_default : FileRead Bytes → Loaded
  unfolding first_bad_limit
  open_or_default not_exist = ok allow_all
  open_or_default failed = read_error
  open_or_default (contents b) = elim (decode b) [
    | none ↦ json_error
    | some (rules, limits) ↦
        checked (record { rules = rules; rate_limits = limits; default_allow = false })
          (first_bad_limit limits)
  ]

abbrev pub or_else : Option ℤ → ℤ → ℤ
or_else none d = d
or_else (some v) d = v

unfoldable pub limit : Policy → Bytes → ℤ
limit p identity =
    or_else (lookup identity p.rate_limits)
      (or_else (lookup (codes "default") p.rate_limits) (pos default_rate_limit))

-- the loop over the prefixes
unfoldable pub any_prefix : Bytes → List Bytes → Bool
any_prefix key [] = false
any_prefix key (pre ∷ rest) = (pre == codes "*" || has_prefix key pre) || any_prefix key rest

unfoldable pub allowed : Policy → Bytes → Bytes → Bool
unfolding any_prefix
allowed p identity key =
    if p.default_allow
    then true
    else elim (lookup identity p.rules) [ none ↦ false | some prefixes ↦ any_prefix key prefixes ]
