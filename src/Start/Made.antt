-- ===== src/Start/Made.antt =====
-- The set-up of the script with the parsers of the sections; only the constructors of the adapters
-- are left as parameters.
use Prim.Native.String.{String}
use decentralised_interledge.Prelude.{List, Result, ok, err, ◌>>=◌, ◌≡◌, refl, assertion_error}
use decentralised_interledge.Config.Parsers.{Parser, read}
use decentralised_interledge.Config.LedgerOptions.{
  Host, EthereumConfig, parse_ethereum, parse_ksi, parse_fabric, parse_typed,
}
use decentralised_interledge.Start.{
  InitiatorPlan, ResponderPlan, ethereum_initiator, fabric_initiator, ethereum_responder,
  ksi_responder, fabric_responder, Setup, left_to_right_bridge, right_to_left_bridge,
}

-- The constructors of the adapters, which may raise.
pub record Constructors (Abi I R : Type 0) : Type 0 where
  pub new_ethereum_initiator : EthereumConfig Abi → Result I
  pub new_fabric_initiator : List String → Result I
  pub new_ethereum_responder : EthereumConfig Abi → Result R
  pub new_ksi_responder : List String → Result R
  pub new_fabric_responder : List String → Result R

module _ (host : Host) {I R : Type 0} (constructors : Constructors host.Abi I R)
    (parser : Parser) where
  open constructors use {
    new_ethereum_initiator, new_fabric_initiator, new_ethereum_responder, new_ksi_responder,
    new_fabric_responder,
  }

  unfoldable pub make_initiator : InitiatorPlan → Result I
  make_initiator (ethereum_initiator section) = do
    cfg ← parse_ethereum host parser section
    new_ethereum_initiator cfg
  make_initiator (fabric_initiator section) = do
    options ← parse_fabric parser section
    new_fabric_initiator options

  unfoldable pub make_responder : ResponderPlan → Result R
  make_responder (ethereum_responder section) = do
    cfg ← parse_ethereum host parser section
    new_ethereum_responder cfg
  make_responder (ksi_responder section) = do
    options ← parse_ksi parser section
    new_ksi_responder options
  make_responder (fabric_responder section) = do
    options ← parse_fabric parser section
    new_fabric_responder options

  unfoldable pub setup_of : Setup I R
  unfolding make_initiator make_responder
  setup_of = record {
    type_of = λ section. read parser section "type";
    make_initiator = make_initiator;
    make_responder = make_responder;
  }

  parse_fabric_other :
      (section : String)
      → read parser section "type" ≡ ok "ethereum"
      → parse_fabric parser section ≡ err assertion_error
  unfolding parse_fabric parse_typed
  parse_fabric_other section e = rw e refl

  -- With an Ethereum section on the left and a Fabric section on the right no bridge is made in
  -- either direction: if the initiator of the left side can be made, the script ends with an
  -- AssertionError from left to right, and from right to left as well.
  pub ethereum_fabric_raises :
      (left right : String) (i : I)
      → read parser left "type" ≡ ok "ethereum"
      → read parser right "type" ≡ ok "fabric"
      → make_initiator (ethereum_initiator left) ≡ ok i
      → (left_to_right_bridge setup_of left right ≡ err assertion_error)
        × (right_to_left_bridge setup_of left right ≡ err assertion_error)
  unfolding left_to_right_bridge right_to_left_bridge setup_of
  ethereum_fabric_raises left right i e1 e2 made =
      let refused = parse_fabric_other left e1 in
      (rw (e1, e2, made, refused) refl, rw (e1, e2, refused) refl)
