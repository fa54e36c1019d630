-- ===== src/Demo/Commands.antt =====
-- The commands of `CliDemo`. What is printed is left out but for the states of the tokens. The
-- library `cmd` gives a line to a method of this class, and that is a command here.

use Prim.Native.String.{String}
use decentralised_interledge.Prelude.{
  ℕ, zero, suc, Bool, true, false, ◌==◌, Option, none, some, List, [], ◌∷◌, ◌++◌, Result, ok, err,
  key_error, assertion_error, if◌then◌else◌,
}
use decentralised_interledge.Prelude.Int.{ℤ, pos, negsuc}
use decentralised_interledge.Prelude.Actions.{Action, pure, throw, lift, ◌>>=◌}
use decentralised_interledge.Interfaces.{Bytes, bytes_eq}
use decentralised_interledge.Config.Texts.{Text, codes, int}
use decentralised_interledge.Ethereum.Events.{decimal}
use decentralised_interledge.Demo.Lines.{words_of, is_in}
use decentralised_interledge.Demo.Ledgers.{
  Argument, address, uri, integer, bytes, Sdk, LedgerPair, user_of, DemoLedger, send_transaction,
}

-- The lines that tell a token's state in a ledger.
pub record Status : Type 0 where
  pub ledger : String
  pub token : ℤ
  pub state : String

-- `self.tokens`, of which only the keys are read, and what has been printed, the latest first.
pub record Session (W : Type 0) : Type 0 where
  pub world : W
  pub tokens : List Text
  pub shown : List Status

-- `str(number)`
abbrev pub str_of : ℤ → Text
str_of (pos n) = decimal n
str_of (negsuc n) = 45 ∷ decimal (suc n)

-- `tokens[token] = True`
abbrev pub with_token : Text → List Text → List Text
with_token token tokens = if is_in token tokens then tokens else tokens ++ (token ∷ [])

-- `STATE_MAP[state]`, where the state may be `None`.
abbrev pub state_name : Option ℕ → Result String
state_name (some zero) = ok "Not Here"
state_name (some (suc zero)) = ok "Transfer Out"
state_name (some (suc (suc zero))) = ok "Here"
state_name _ = err key_error

-- `assert state == wanted`
abbrev pub is_state : ℕ → Option ℕ → Bool
is_state wanted none = false
is_state wanted (some state) = state == wanted

module _ {W : Type 0} where
  -- A call that does not touch the session.
  abbrev pub on_world : {A : Type 0} → Action W A → Action (Session W) A
  on_world call s = let (r, w) = call s.world in (r, record s { world = w })

  abbrev pub remember : ℤ → Action (Session W) (Unit {0})
  remember id s = (ok tt, record s { tokens = with_token (str_of id) s.tokens })

  abbrev pub print_state : String → ℤ → String → Action (Session W) (Unit {0})
  print_state ledger id state s =
      (ok tt, record s { shown = record { ledger = ledger; token = id; state = state } ∷ s.shown })

  abbrev pub assert_that : Bool → Action (Session W) (Unit {0})
  assert_that holds = if holds then pure tt else throw assertion_error

module _ {W : Type 0} (sdk : Sdk W) (ledgers : LedgerPair sdk.Web3 sdk.Contract) where
  unfoldable pub call :
      DemoLedger sdk → Text → String → List Argument → Action (Session W) (Option ℕ)
  unfolding send_transaction
  call ledger from_address name arguments =
      on_world (send_transaction sdk ledger from_address name arguments)

  -- The state of a token, asked for by the minter.
  abbrev pub query : DemoLedger sdk → ℤ → Action (Session W) (Option ℕ)
  query ledger id = call ledger ledger.minter "getStateOfToken" (integer id ∷ [])

  unfoldable pub mint_at :
      DemoLedger sdk → ℤ → (token_uri : Text) → Bytes → Action (Session W) (Unit {0})
  unfolding call
  mint_at ledger id token_uri name = do
    user ← lift (user_of ledger)
    _ ←
        call ledger ledger.minter "mint"
          (address user ∷ integer id ∷ uri token_uri ∷ bytes name ∷ [])
    pure tt

  -- The call with the encoded token, as if its transfer had come in.
  abbrev pub activate : Bytes → Action (Session W) (Option ℕ)
  activate token_data =
      call ledgers.left ledgers.left.minter "interledgerReceive"
        (integer (pos 1) ∷ bytes token_data ∷ [])

  unfoldable pub mint_token : (id token_uri asset_name : Text) → Action (Session W) (Unit {0})
  unfolding mint_at call int
  mint_token id_text token_uri asset_name = do
    id ← lift (int id_text)
    token_data ← lift (sdk.encode_uint256 id)
    _ ← remember id
    name ← lift (sdk.to_bytes ledgers.left.web3 asset_name)
    _ ← mint_at ledgers.left id token_uri name
    _ ← mint_at ledgers.right id token_uri name
    _ ← activate token_data
    state_left ← query ledgers.left id
    assert_that (is_state 2 state_left)

  abbrev pub mint_args : List Text → Action (Session W) (Unit {0})
  mint_args (id ∷ token_uri ∷ asset_name ∷ []) = mint_token id token_uri asset_name
  mint_args _ = pure tt

  unfoldable pub do_mint : Text → Action (Session W) (Unit {0})
  unfolding words_of mint_token
  do_mint line = mint_args (words_of line)

  abbrev pub ledger_of : Text → Option (DemoLedger sdk)
  ledger_of id =
      if bytes_eq id (codes "left")
      then some ledgers.left
      else if bytes_eq id (codes "right")
      then some ledgers.right
      else none

  abbrev pub transfer_token : Option (DemoLedger sdk) → Text → Action (Session W) (Unit {0})
  transfer_token none id_text = pure tt
  transfer_token (some ledger) id_text = do
    id ← lift (int id_text)
    _ ← remember id
    user ← lift (user_of ledger)
    _ ← call ledger user "transferOut" (integer id ∷ [])
    pure tt

  abbrev pub transfer_args : List Text → Action (Session W) (Unit {0})
  transfer_args (ledger_id ∷ id ∷ []) = transfer_token (ledger_of ledger_id) id
  transfer_args _ = pure tt

  unfoldable pub do_transfer_out : Text → Action (Session W) (Unit {0})
  unfolding words_of call int
  do_transfer_out line = transfer_args (words_of line)

  -- The state in both ledgers is read, and then both are printed.
  unfoldable pub show_states : ℤ → Action (Session W) (Unit {0})
  unfolding call
  show_states id = do
    state_left ← query ledgers.left id
    state_right ← query ledgers.right id
    left_name ← lift (state_name state_left)
    _ ← print_state "left" id left_name
    right_name ← lift (state_name state_right)
    print_state "right" id right_name

  abbrev pub state_args : List Text → Action (Session W) (Unit {0})
  state_args (id_text ∷ []) = do id ← lift (int id_text); _ ← remember id; show_states id
  state_args _ = pure tt

  unfoldable pub do_state_of : Text → Action (Session W) (Unit {0})
  unfolding words_of show_states int
  do_state_of line = state_args (words_of line)

  -- The loop until the left ledger has given the token away; `polls` is how often it goes round, and
  -- false that it would go on.
  unfoldable pub wait_for_left : (polls : ℕ) → ℤ → Action (Session W) Bool
  unfolding call
  wait_for_left zero id s = (ok false, s)
  wait_for_left (suc polls) id s =
      (query ledgers.left id >>= λ state_left.
      if is_state 0 state_left
      then pure true
      else (on_world sdk.sleep >>= λ _. wait_for_left polls id))
        s

  -- The end of the run, once the loop has been left.
  abbrev pub finish : ℤ → Bool → Action (Session W) Bool
  finish id false = pure false
  finish id true = do
    state_right ← query ledgers.right id
    left_name ← lift (state_name (some 0))
    _ ← print_state "left" id left_name
    right_name ← lift (state_name state_right)
    _ ← print_state "right" id right_name
    pure true

  -- `id` is the number that `random.randrange` gives.
  unfoldable pub do_example_run : (polls : ℕ) → (id : ℤ) → Action (Session W) Bool
  unfolding mint_at show_states wait_for_left call
  do_example_run polls id = do
    token_data ← lift (sdk.encode_uint256 id)
    _ ← remember id
    name ← lift (sdk.to_bytes ledgers.left.web3 (codes "Sword"))
    _ ← mint_at ledgers.left id (codes "weapons/") name
    _ ← mint_at ledgers.right id (codes "weapons/") name
    _ ← on_world sdk.sleep
    _ ← show_states id
    _ ← activate token_data
    _ ← on_world sdk.sleep
    _ ← show_states id
    user ← lift (user_of ledgers.left)
    _ ← call ledgers.left user "transferOut" (integer id ∷ [])
    _ ← show_states id
    ended ← wait_for_left polls id
    finish id ended
