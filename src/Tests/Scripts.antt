-- ===== src/Tests/Scripts.antt =====
-- A configuration with Ethereum on the left and Fabric on the right.
use text.Mathlib.Text.{◌==◌ as str_eq}
use decentralised_interledge.Prelude.{
  true, none, some, ok, err, assertion_error, ◌≡◌, refl, if◌then◌else◌,
}
use decentralised_interledge.Start.{
  InitiatorPlan, ResponderPlan, ethereum_initiator, fabric_responder, Setup, Bridge,
  left_to_right_bridge, right_to_left_bridge, main,
}
use decentralised_interledge.Config.Parsers.{Parser, read}
use decentralised_interledge.Config.LedgerOptions.{Host, parse_ethereum}
use decentralised_interledge.Start.Made.{
  Constructors, make_initiator, setup_of, ethereum_fabric_raises,
}
use decentralised_interledge.Start.Made.{make_responder}
use decentralised_interledge.Start.Script.{script, HasNodeId, script-HasNodeId}
use decentralised_interledge.Prelude.{Option, none, [], ◌∷◌, ◌++◌, ◌≢◌, ◌⊎◌, false}
use decentralised_interledge.Prelude.Int.{pos}
use decentralised_interledge.Config.NodeOptions.{
  NodeOptions, parse_node_config, node_options, boolean,
}
use decentralised_interledge.Config.Texts.{
  Text, codes, int, skip_spaces, read_signed, read_number, read_digits, all_spaces, split,
}
use decentralised_interledge.Config.Arguments.{get, parse_arg, parse_args, parse_args_config}
use decentralised_interledge.Config.Overrides.{written}
use decentralised_interledge.Ethereum.Events.{decimal, digits}
use decentralised_interledge.Interfaces.{NodeConfig}
use decentralised_interledge.Tests.Bridge.{bridge}

abbrev setup : Setup InitiatorPlan ResponderPlan
setup = record {
  type_of = λ section. ok (if str_eq section "left" then "ethereum" else "fabric");
  make_initiator = ok;
  make_responder = ok;
}

abbrev started : Bridge InitiatorPlan ResponderPlan NodeConfig
started = record {
  initiator = ethereum_initiator "left";
  responder = fabric_responder "left";
  config = bridge;
}

runs : main setup "left-to-right" "left" "right" (ok bridge) ≡ ok (some started, none)
unfolding main left_to_right_bridge
runs = refl

-- The sections of the two sides.
abbrev parser : Parser
parser = record {
  has_section = λ section. true;
  option = λ section key.
      if str_eq key "type"
      then some (if str_eq section "left" then "ethereum" else "fabric")
      else some "x";
}

abbrev host : Host
host = record { Abi = Unit {0}; to_checksum_address = ok; load_json = λ _. ok tt }

abbrev constructors : Constructors (Unit {0}) (Unit {0}) (Unit {0})
constructors = record {
  new_ethereum_initiator = λ _. ok tt;
  new_fabric_initiator = λ _. ok tt;
  new_ethereum_responder = λ _. ok tt;
  new_ksi_responder = λ _. ok tt;
  new_fabric_responder = λ _. ok tt;
}

read_left : read parser "left" "type" ≡ ok "ethereum"
unfolding read
read_left = refl

read_right : read parser "right" "type" ≡ ok "fabric"
unfolding read
read_right = refl

left_made : make_initiator host constructors parser (ethereum_initiator "left") ≡ ok tt
unfolding make_initiator parse_ethereum read
left_made = refl

ethereum_fabric_raises_example :
    (left_to_right_bridge (setup_of host constructors parser) "left" "right" ≡ err assertion_error)
    × (right_to_left_bridge (setup_of host constructors parser) "left" "right"
        ≡ err assertion_error)
ethereum_fabric_raises_example =
    ethereum_fabric_raises host constructors parser "left" "right" tt read_left read_right left_made

-- Two Ethereum ledgers, of which the left one starts transfers, and a node.
abbrev file : Parser
file = record {
  has_section = λ section. true;
  option = λ section key.
      if str_eq section "service"
      then (if str_eq key "direction" then some "left-to-right" else some key)
      else if str_eq section "node"
      then (if str_eq key "node_id"
          then some "0"
          else if str_eq key "node_count"
          then some "3"
          else if str_eq key "secret"
          then some "s"
          else none)
      else some (if str_eq key "type" then "ethereum" else "x");
}

abbrev node : NodeOptions
node = record {
  node_id = pos 2;
  node_count = pos 3;
  secret = "s";
  timeout_initial = pos 30;
  timeout_backoff = pos 2;
  timeout_enabled = true;
  confirm_transfer = true;
  verification_enabled = true;
  route_to_first_node = false;
}

abbrev bridge_of_2 : Option (Bridge (Unit {0}) (Unit {0}) NodeOptions)
bridge_of_2 = some (record { initiator = tt; responder = tt; config = node })

abbrev no_bridge : Option (Bridge (Unit {0}) (Unit {0}) NodeOptions)
no_bridge = none

abbrev setting : Text
setting = written (codes "node") (codes "node_id") (decimal 2)

script_runs :
    script host constructors (λ _. ok file) (codes "s" ∷ codes "f" ∷ ([] ++ (setting ∷ [])))
    ≡ ok (bridge_of_2, no_bridge)
unfolding script main left_to_right_bridge setup_of make_initiator make_responder parse_ethereum
    read parse_args_config parse_args parse_arg split decimal digits parse_node_config node_options
    int skip_spaces read_signed read_number read_digits all_spaces boolean get
script_runs = refl

script-HasNodeId_example :
    ((bridge_of_2 ≢ none) ⊎ (no_bridge ≢ none))
    × HasNodeId host constructors (λ _. ok file) (pos 2) bridge_of_2
    × HasNodeId host constructors (λ _. ok file) (pos 2) no_bridge
script-HasNodeId_example =
    script-HasNodeId host constructors (λ _. ok file) (codes "s") (codes "f") [] 2 bridge_of_2
      no_bridge script_runs
