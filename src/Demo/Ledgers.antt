-- ===== src/Demo/Ledgers.antt =====
-- The two ledgers of the demo, and the transactions that it sends to them. web3, `eth_abi`, files
-- and the console are parameters, and every call of theirs may raise. A dict of a ledger is a record.
use Prim.Native.String.{String}
use text.Mathlib.Text.{◌==◌ as str_eq}
use decentralised_interledge.Prelude.{
  ℕ, Bool, true, false, Option, none, some, List, [], ◌∷◌, ◌++◌, get_elem?, Result, ok, err,
  key_error, index_error, value_error, system_exit, other_error, if◌then◌else◌,
}
use decentralised_interledge.Prelude.Int.{ℤ, pos, negsuc}
use decentralised_interledge.Prelude.Actions.{Action, pure, throw, lift, ◌>>=◌, ◌>>◌}
use decentralised_interledge.Interfaces.{Bytes}
use decentralised_interledge.Config.LedgerOptions.{is_poa}
use decentralised_interledge.Config.Parsers.{Parser, read, optional}
use decentralised_interledge.Config.Texts.{Text, codes, int}

-- An argument of a contract function.
pub data Argument : Type 0 where
  address uri : Text → Argument
  integer : ℤ → Argument
  bytes : Bytes → Argument

-- What the demo calls. `explain` is `eval(e.__str__())['message']` of the caught `ValueError`.
pub record Sdk (W : Type 0) : Type 1 where
  pub Web3 : Type 0
  pub Abi : Type 0
  pub Contract : Type 0
  pub connect : Text → Action W Web3
  pub inject_poa : Web3 → Action W (Unit {0})
  pub is_connected : Web3 → Action W Bool
  pub read_contract_abi : Text → Action W Abi
  pub contract : Web3 → Abi → Text → Action W Contract
  pub accounts : Web3 → Action W (List Text)
  pub to_bytes : Web3 → Text → Result Bytes
  pub encode_uint256 : ℤ → Result Bytes
  pub decode_uint256 : Argument → Result ℤ
  pub call_state : Contract → Argument → Action W ℕ
  pub transact : Contract → String → List Argument → Text → Action W ℕ
  pub wait_for_receipt : Web3 → ℕ → Action W (Unit {0})
  pub explain : Action W (Unit {0})
  pub sleep : Action W (Unit {0})  -- `time.sleep(1)`

-- The key `user` is set behind the others.
pub record Ledger (Web3 Contract : Type 0) : Type 0 where
  pub web3 : Web3
  pub endpoint : Text
  pub minter : Text
  pub contract_address : Text
  pub contract : Contract
  pub user : Option Text

pub record LedgerPair (Web3 Contract : Type 0) : Type 0 where
  pub left : Ledger Web3 Contract
  pub right : Ledger Web3 Contract

-- `ledger["user"]`
abbrev pub user_of : {A B : Type 0} → Ledger A B → Result Text
user_of ledger = elim ledger.user [ none ↦ err key_error | some user ↦ ok user ]

-- `items[i]`
abbrev pub item : {A : Type 0} → List A → ℕ → Result A
item items i = elim (get_elem? items i) [ none ↦ err index_error | some a ↦ ok a ]

abbrev pub item_at : List Text → ℤ → Option Text
item_at accounts (pos i) = get_elem? accounts i
item_at accounts (negsuc i) = none

-- The loop over the lines that are typed in: the account, and the lines that are left. `input`
-- raises at the end of them.
unfoldable pub select_account_from : List Text → (lines : List Text) → Result (Text × List Text)
unfolding int
select_account_from accounts [] = err other_error
select_account_from accounts (line ∷ lines) =
    let rest = select_account_from accounts lines in
    elim (int line) [
      | err e ↦ err e
      | ok i ↦ elim (item_at accounts i) [ some account ↦ ok (account, lines) | none ↦ rest ]
    ]

-- The token that the message is about.
abbrev pub token_of : {W : Type 0} → Sdk W → String → List Argument → Result Argument
token_of sdk name arguments =
    if str_eq name "mint"
    then item arguments 1
    else if str_eq name "interledgerReceive"
    then (elim (item arguments 1) [
      | err e ↦ err e
      | ok encoded ↦ elim (sdk.decode_uint256 encoded) [ err e ↦ err e | ok id ↦ ok (integer id) ]
    ])
    else item arguments 0

module _ {W : Type 0} (sdk : Sdk W) where
  abbrev pub DemoLedger : Type 0
  DemoLedger = Ledger sdk.Web3 sdk.Contract

  abbrev pub inject_if : Bool → sdk.Web3 → Action W (Unit {0})
  inject_if true web3 = sdk.inject_poa web3
  inject_if false web3 = pure tt

  abbrev pub is_injected : Option Bool → Bool
  is_injected none = false
  is_injected (some b) = b

  -- What is behind the test of the connection.
  unfoldable pub connected_ledger : Parser → String → Text → sdk.Web3 → Bool → Action W DemoLedger
  connected_ledger parser section endpoint web3 false = throw system_exit
  connected_ledger parser section endpoint web3 true = do
    abi_file ← lift (read parser section "contract_abi")
    abi ← sdk.read_contract_abi (codes abi_file)
    minter ← lift (read parser section "minter")
    contract_address ← lift (read parser section "contract")
    contract ← sdk.contract web3 abi (codes contract_address)
    pure (record {
      web3 = web3;
      endpoint = endpoint;
      minter = codes minter;
      contract_address = codes contract_address;
      contract = contract;
      user = none;
    })

  unfoldable pub init_web3 : Parser → String → Action W DemoLedger
  unfolding connected_ledger
  init_web3 parser section = do
    url ← lift (read parser section "url")
    port ← lift (read parser section "port")
    let endpoint = codes url ++ (b':' ∷ codes port)
    web3 ← sdk.connect endpoint
    _ ← inject_if (is_injected (is_poa (optional parser section "poa"))) web3
    connected ← sdk.is_connected web3
    connected_ledger parser section endpoint web3 connected

  unfoldable pub select_account : DemoLedger → Action W DemoLedger
  select_account ledger = do
    accounts ← sdk.accounts ledger.web3
    user ← lift (item accounts 0)
    pure (record ledger { user = some user })

  -- `configparser` reads the file, and is a parameter.
  unfoldable pub setup_ledgers :
      (parse : Text → Result Parser) → Text → Action W (LedgerPair sdk.Web3 sdk.Contract)
  unfolding init_web3 select_account
  setup_ledgers parse config_file = do
    parser ← lift (parse config_file)
    left_section ← lift (read parser "service" "left")
    right_section ← lift (read parser "service" "right")
    left ← init_web3 parser left_section
    right ← init_web3 parser right_section
    left_ledger ← select_account left
    right_ledger ← select_account right
    pure (record { left = left_ledger; right = right_ledger })

  -- The body of the `try`, with the state of a token where there is one.
  unfoldable pub send : DemoLedger → Text → String → List Argument → Action W (Option ℕ)
  send ledger from_address name arguments =
      if str_eq name "getStateOfToken"
      then (do
        token ← lift (item arguments 0)
        state ← sdk.call_state ledger.contract token
        pure (some state))
      else (do
        tx_hash ← sdk.transact ledger.contract name arguments from_address
        _ ← sdk.wait_for_receipt ledger.web3 tx_hash
        pure none)

  -- The three `except` clauses.
  abbrev pub recover : Result (Option ℕ) × W → Result (Option ℕ) × W
  recover (ok state, w) = (ok state, w)
  recover (err value_error, w) = (sdk.explain >> pure none) w
  recover (err _, w) = (ok none, w)

  -- A failure is printed, and gives `None` like a transaction does.
  unfoldable pub send_transaction : DemoLedger → Text → String → List Argument → Action W (Option ℕ)
  unfolding send
  send_transaction ledger from_address name arguments = do
    _ ← lift (token_of sdk name arguments)
    λ w. recover (send ledger from_address name arguments w)
