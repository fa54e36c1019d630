-- ===== src/Demo/Session.antt =====
-- A line at the prompt, the start of the demo, and which lines end it. The library `cmd` gives a
-- line to a method, and that is a command here; its own commands, as `help`, are a parameter.
use decentralised_interledge.Prelude.{
  ℕ, Bool, true, false, Option, none, some, List, [], ◌∷◌, Result, ok, err, system_exit,
  if◌then◌else◌,
}
use decentralised_interledge.Prelude.Int.{ℤ}
use decentralised_interledge.Prelude.Actions.{Action, pure, throw, ◌>>=◌}
use decentralised_interledge.Interfaces.{bytes_eq}
use decentralised_interledge.Config.Parsers.{Parser}
use decentralised_interledge.Config.Texts.{Text, codes}
use decentralised_interledge.Demo.Ledgers.{Sdk, LedgerPair, setup_ledgers}
use decentralised_interledge.Demo.Commands.{
  Session, on_world, do_mint, do_transfer_out, do_state_of, do_example_run,
}

-- The method that the library calls for a line, with its argument. `exit`, `quit` and `EOF` are one.
-- For `example_run` the number drawn and the number of polls are given.
pub data Command : Type 0 where
  mint transfer_out state_of other help : Text → Command
  exit : Text → Command
  example_run : (polls : ℕ) → ℤ → Command

module _ {W : Type 0} where
  -- `True` stops the loop of the commands.
  abbrev pub do_exit : Text → Action (Session W) (Option Bool)
  do_exit line = pure (some true)

  -- The library's `default` prints that the command is unknown.
  abbrev pub default : Text → Action (Session W) (Option Bool)
  default line = if bytes_eq line (codes "q") then do_exit line else pure (some false)

module _ {W : Type 0} (sdk : Sdk W) (ledgers : LedgerPair sdk.Web3 sdk.Contract)
    (library_help : Text → Action W (Unit {0})) where
  -- A method that returns `None`.
  abbrev pub none_of : Action (Session W) (Unit {0}) → Action (Session W) (Option Bool)
  none_of body = body >>= λ _. pure (some false)

  -- Whether the loop stops; `none` where the command still waits.
  unfoldable pub method : Command → Action (Session W) (Option Bool)
  unfolding do_mint do_transfer_out do_state_of do_example_run
  method (mint line) = none_of (do_mint sdk ledgers line)
  method (transfer_out line) = none_of (do_transfer_out sdk ledgers line)
  method (state_of line) = none_of (do_state_of sdk ledgers line)
  method (example_run polls id) =
      do_example_run sdk ledgers polls id >>= λ ended. pure (if ended then some false else none)
  method (help line) = none_of (on_world (library_help line))
  method (exit line) = do_exit line
  method (other line) = default line

  -- The `except` prints the exception, and the loop goes on.
  abbrev pub caught : Result (Option Bool) × Session W → Option Bool × Session W
  caught (ok stop, s) = (stop, s)
  caught (err _, s) = (some false, s)

  unfoldable pub onecmd : Command → Session W → Option Bool × Session W
  unfolding method
  onecmd command s = caught (method command s)

-- The ledgers and the tokens that `cmdloop` starts with.
unfoldable pub main :
    {W : Type 0} (sdk : Sdk W)
    → (parse : Text → Result Parser) → (arguments : List Text)
    → Action W (LedgerPair sdk.Web3 sdk.Contract × List Text)
unfolding setup_ledgers
main sdk parse [] = throw system_exit
main sdk parse (script ∷ []) = throw system_exit
main sdk parse (script ∷ config_file ∷ more) = do
  ledgers ← setup_ledgers sdk parse config_file
  pure (ledgers, [])
