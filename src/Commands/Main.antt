-- ===== src/Commands/Main.antt =====
-- cmd/alice/main.go: the table of commands, as far as they change the vault without a value that Bob
-- seals anew, and runs of alice one after the other.
use an_b.Base.{ℕ, Bool, List, [], ◌∷◌, Option, Bytes}
use an_b.Base.Int.{ℤ}
use an_b.Server.{Request}
use an_b.Client.{Reply}
use an_b.Commands.{Session, World}
use an_b.Commands.Value.{SetFlags}
use an_b.Commands.Secret.{cmd_set}
use an_b.Commands.Import.{cmd_import}
use an_b.Commands.Local.{cmd_has, cmd_list, cmd_desc, cmd_rm, cmd_init, cmd_rekey_status}

-- a command with its flags and arguments; `import_file` has what os.ReadFile gives of the file
pub data Invocation : Type 0 where
  set_key : SetFlags → List Bytes → Invocation
  remove_keys : (yes_flag : Bool) → List Bytes → Invocation
  describe : (clear : Bool) → List Bytes → Invocation
  import_file : (min_len : ℤ) (yes_flag : Bool) → Option Bytes → Invocation
  init_vault : Invocation
  has_keys : List Bytes → Invocation
  list_keys : List Bytes → Invocation
  rekey_status : Invocation

module _ {ℓ} {B : Type ℓ} (ask : Request → B → B × Reply) (generator : Bytes → ℤ → Option Bytes)
    (estimate : Bytes → ℕ) (glob : Bytes → Bytes → Bool) where
  -- the session that the command leaves, whether it ends well or not
  unfoldable pub run : World → Invocation → Session B → Session B
  run w (set_key f args) s = (cmd_set ask generator estimate w f args s).0
  run w (remove_keys yes_flag args) s = (cmd_rm glob w yes_flag args s).0
  run w (describe clear args) s = (cmd_desc w clear args s).0
  run w (import_file min_len yes_flag file) s = (cmd_import ask w min_len yes_flag file s).0
  run w init_vault s = (cmd_init w s).0
  run w (has_keys args) s = (cmd_has args s).0
  run w (list_keys args) s = (cmd_list glob args s).0
  run w rekey_status s = (cmd_rekey_status s).0

  unfoldable pub run_all : List (World × Invocation) → Session B → Session B
  unfolding run
  run_all [] s = s
  run_all ((w, i) ∷ is) s = run_all is (run w i s)
