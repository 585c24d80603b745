-- ===== src/Commands/Value.antt =====
-- cmd/alice/sensitive.go: the value that `alice set` stores, and whether it may overwrite.
use an_b.Base.{
  Bool, true, false, not, ◌&&◌, [], ◌∷◌, Option, none, some, Bytes, Result, ok, err, if◌then◌else◌,
  ◌==◌, bytes_eq, trim_space,
}
use an_b.Base.Int.{ℤ}
use an_b.Commands.{
  World, CommandError, bad_generator, env_empty, refuse_overwrite, no_input, no_password,
  empty_value,
}

-- the flags of `set`; `generator` is pwgen.Generate
pub record SetFlags : Type 0 where
  pub desc : Bytes
  pub desc_provided : Bool
  pub from_env : Bytes
  pub from_stdin : Bool
  pub force : Bool
  pub generate : Bool
  pub style : Bytes
  pub size : ℤ

-- true: go on; false: cancelled
unfoldable pub confirm_overwrite : World → Bool → Result CommandError Bool
confirm_overwrite w force =
    if force then ok true else if w.stdin_tty then ok w.confirmed else err refuse_overwrite

-- the value, or `none` where the operator cancels
abbrev pub Chosen : Type 0
Chosen = Result CommandError (Option Bytes)

abbrev chosen_unless_empty : CommandError → Bytes → Chosen
chosen_unless_empty e [] = err e
chosen_unless_empty e (c ∷ value) = ok (some (c ∷ value))

-- `if already { ... confirmOverwrite ... }` in front of what follows
abbrev when_confirmed : Result CommandError Bool → Chosen → Chosen
when_confirmed (err e) next = err e
when_confirmed (ok false) next = ok none
when_confirmed (ok true) next = next

abbrev if_already : World → Bool → Bool → Chosen → Chosen
if_already w force already next =
    if already then when_confirmed (confirm_overwrite w force) next else next

abbrev generated : Option Bytes → Chosen
generated none = err bad_generator
generated (some value) = ok (some value)

abbrev typed : Option Bytes → Chosen
typed none = err no_password
typed (some value) = chosen_unless_empty empty_value value

module _ (generator : Bytes → ℤ → Option Bytes) where
  -- the switch over the sources of the value
  unfoldable pub read_value : World → SetFlags → Bool → Chosen
  unfolding confirm_overwrite
  read_value w f already =
      if f.generate
      then if_already w f.force already (generated (generator f.style f.size))
      else if not (f.from_env == [])
      then (if w.getenv f.from_env == []
          then err env_empty
          else if_already w f.force already (ok (some (w.getenv f.from_env))))
      else if f.from_stdin
      then (if already && not f.force
          then err refuse_overwrite
          else chosen_unless_empty no_input (trim_space w.stdin))
      else if_already w f.force already (typed w.password)
