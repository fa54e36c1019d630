-- ===== src/Ethereum/Making.antt =====
-- The constructors of the Ethereum adapters, from their options to the objects that they keep. web3
-- is a parameter, and every call of it may raise.
use mathlib.Core.Path.{subst}
use Prim.Native.String.{String}
use decentralised_interledge.Prelude.{
  ℕ, Bool, true, false, Option, none, some, List, [], ◌∷◌, Result, ok, ◌≡◌, refl,
}
use decentralised_interledge.Prelude.Actions.{Action, pure, lift, ◌>>=◌}
use decentralised_interledge.Prelude.Promises.{
  Ensures, Returned, Ensures-Returned, Ensures-lift, Ensures-known, Ensures-continue,
  Ensures-weaken, Ensures-pure,
}
use decentralised_interledge.Interfaces.{Event}
use decentralised_interledge.Config.LedgerOptions.{EthereumConfig}
use decentralised_interledge.Config.Texts.{Text, codes}
use decentralised_interledge.Ethereum.Account.{Credentials}
use decentralised_interledge.Ethereum.Connection.{Connection, new_web3}
use decentralised_interledge.Ethereum.Watching.{Monitor}

-- What the constructors call of web3.
pub record Web3Module (W Abi : Type 0) : Type 1 where
  pub Web3 : Type 0
  pub Contract : Type 0
  pub Filter : Type 0
  pub open_web3 : Connection → Action W Web3
  pub contract_at : Web3 → Abi → String → Action W Contract
  pub head_of : Web3 → Action W ℕ  -- `blockNumber`
  pub create_filter : Contract → Action W Filter  -- from the latest block
  pub get_all_entries : Filter → Action W (List Event)

-- What both adapters keep; `timeout` is in seconds.
pub record Endpoint (Web3 Contract : Type 0) : Type 0 where
  pub web3 : Web3
  pub contract : Contract
  pub last_block : ℕ
  pub private_key : Option String
  pub minter : String
  pub password : Option String
  pub timeout : ℕ

-- The initiator has the filter, and the cursor and the cache of its monitor.
pub record InitiatorObject (Web3 Contract Filter : Type 0) : Type 0 where
  pub endpoint : Endpoint Web3 Contract
  pub filt : Filter
  pub monitor : Monitor

abbrev pub codes_of : Option String → Option Text
codes_of none = none
codes_of (some v) = some (codes v)

-- `bool(self.private_key)`
abbrev pub is_nonempty : Option Text → Bool
is_nonempty none = false
is_nonempty (some []) = false
is_nonempty (some (c ∷ cs)) = true

abbrev pub is_some : Option String → Bool
is_some none = false
is_some (some v) = true

-- How the adapter's account is unlocked.
abbrev pub credentials_of : {A B : Type 0} → Endpoint A B → Credentials
credentials_of endpoint = record {
  has_private_key = is_nonempty (codes_of endpoint.private_key);
  has_password = is_some endpoint.password;
}

module _ {W Abi : Type 0} (web3 : Web3Module W Abi) (cfg : EthereumConfig Abi) where
  -- `Web3Initializer.__init__`
  abbrev pub connection_of : Result Connection
  connection_of = new_web3 (codes cfg.url) (codes_of cfg.port) cfg.poa (codes_of cfg.ipc_path)

  abbrev pub endpoint_at : web3.Web3 → web3.Contract → ℕ → Endpoint web3.Web3 web3.Contract
  endpoint_at object contract last_block = record {
    web3 = object;
    contract = contract;
    last_block = last_block;
    private_key = cfg.private_key;
    minter = cfg.minter;
    password = cfg.password;
    timeout = 120;
  }

  -- `EthereumResponder.__init__`, and the first part of `EthereumInitiator.__init__`.
  unfoldable pub new_endpoint : Action W (Endpoint web3.Web3 web3.Contract)
  unfolding new_web3
  new_endpoint = do
    connected ← lift connection_of
    object ← web3.open_web3 connected
    contract ← web3.contract_at object cfg.contract_abi cfg.contract_address
    last_block ← web3.head_of object
    pure (endpoint_at object contract last_block)

  unfoldable pub new_initiator : Action W (InitiatorObject web3.Web3 web3.Contract web3.Filter)
  unfolding new_endpoint
  new_initiator = do
    endpoint ← new_endpoint
    filt ← web3.create_filter endpoint.contract
    _ ← web3.get_all_entries filt
    pure (record {
      endpoint = endpoint;
      filt = filt;
      monitor = record { cursor = endpoint.last_block; cache = [] };
    })

  abbrev pub IsOpened : web3.Web3 → Type 0
  IsOpened object =
      (connected : Connection) × (connection_of ≡ ok connected)
      × Returned (web3.open_web3 connected) object

  abbrev pub BeginsAtHead : InitiatorObject web3.Web3 web3.Contract web3.Filter → Type 0
  BeginsAtHead made =
      IsOpened made.endpoint.web3 × Returned (web3.head_of made.endpoint.web3) made.monitor.cursor

  headed :
      (object : web3.Web3) (contract : web3.Contract)
      → Ensures
          (web3.head_of object >>= λ last_block. pure (endpoint_at object contract last_block))
          (λ made _. (object ≡ made.web3) × Returned (web3.head_of made.web3) made.last_block)
  headed object contract =
      Ensures-known _ (Returned (web3.head_of object)) (web3.head_of object) _
        (Ensures-Returned (web3.head_of object))
        λ last_block at_head. Ensures-pure _ _ (λ _. (refl, at_head))

  endpoint_ensures :
      Ensures new_endpoint
        (λ made _. IsOpened made.web3 × Returned (web3.head_of made.web3) made.last_block)
  unfolding new_endpoint
  endpoint_ensures = Ensures-lift _ connection_of _ λ connected chosen.
      Ensures-known _ _ (web3.open_web3 connected) _ (Ensures-Returned (web3.open_web3 connected))
        λ object returned.
          Ensures-continue _ (web3.contract_at object cfg.contract_abi cfg.contract_address) _
            λ contract.
              Ensures-weaken _ _ _
                (λ made _ h. (subst IsOpened h.0 (connected, chosen, returned), h.1))
                (headed object contract)

  begins : Ensures new_initiator (λ made _. BeginsAtHead made)
  unfolding new_initiator
  begins = Ensures-known _ _ new_endpoint _ endpoint_ensures λ endpoint h.
      Ensures-continue _ (web3.create_filter endpoint.contract) _
        λ filt. Ensures-continue _ (web3.get_all_entries filt) _ λ _. Ensures-pure _ _ (λ _. h)

  -- The first block that the monitor of the confirmations reads is the head of the chain when the
  -- adapter is made, of the very ledger that a provider for the options has opened.
  pub new_initiator_begins :
      (w w' : W) (made : InitiatorObject web3.Web3 web3.Contract web3.Filter)
      → new_initiator w ≡ (ok made, w')
      → BeginsAtHead made
  unfolding Ensures
  new_initiator_begins w w' made e = begins w w' made e
