-- ===== src/Start.antt =====
-- start_dib.py: the adapters that a bridge is made of, and the bridges that are started. The reading
-- of a section and the making of an adapter from it are parameters, which may raise.
pub mod Sides
pub mod Made
pub mod Script
use Prim.Native.String.{String}
use text.Mathlib.Text.{◌==◌ as str_eq}
use decentralised_interledge.Prelude.{
  Bool, true, false, Option, none, some, Result, ok, err, ◌>>=◌, system_exit, if◌then◌else◌,
}

-- The adapters, each with the section that configures it.
pub data InitiatorPlan : Type 0 where
  ethereum_initiator fabric_initiator : String → InitiatorPlan

pub data ResponderPlan : Type 0 where
  ethereum_responder ksi_responder fabric_responder : String → ResponderPlan

-- What the script reads and makes: `parser.get(section, 'type')`, and the adapters with their parsers.
pub record Setup (I R : Type 0) : Type 0 where
  pub type_of : String → Result String
  pub make_initiator : InitiatorPlan → Result I
  pub make_responder : ResponderPlan → Result R

-- A `DecentralizedInterledger` as it is made, with the options of its node.
pub record Bridge (I R C : Type 0) : Type 0 where
  pub initiator : I
  pub responder : R
  pub config : C

-- The chain of tests for an initiator, with the sections that its two parsers read; `exit(1)` raises.
abbrev pub initiator_plan : String → String → String → Result InitiatorPlan
initiator_plan ledger section fabric_section =
    if str_eq ledger "ethereum"
    then ok (ethereum_initiator section)
    else if str_eq ledger "fabric"
    then ok (fabric_initiator fabric_section)
    else err system_exit

abbrev pub responder_plan : String → String → String → Result ResponderPlan
responder_plan ledger section fabric_section =
    if str_eq ledger "ethereum"
    then ok (ethereum_responder section)
    else if str_eq ledger "ksi"
    then ok (ksi_responder section)
    else if str_eq ledger "fabric"
    then ok (fabric_responder fabric_section)
    else err system_exit

module _ {I R : Type 0} (setup : Setup I R) where
  unfoldable pub left_to_right_bridge : String → String → Result (I × R)
  left_to_right_bridge left right = do
    ledger_left ← setup.type_of left
    ledger_right ← setup.type_of right
    plan ← initiator_plan ledger_left left left
    initiator ← setup.make_initiator plan
    other ← responder_plan ledger_right right left
    responder ← setup.make_responder other
    ok (initiator, responder)

  unfoldable pub right_to_left_bridge : String → String → Result (I × R)
  right_to_left_bridge left right = do
    ledger_left ← setup.type_of left
    ledger_right ← setup.type_of right
    plan ← initiator_plan ledger_right right left
    initiator ← setup.make_initiator plan
    other ← responder_plan ledger_left left left
    responder ← setup.make_responder other
    ok (initiator, responder)

  -- The bridge for one direction, with the options of the node, which are parsed behind it.
  abbrev pub bridge_of : {C : Type 0} → I × R → C → Bridge I R C
  bridge_of (i, r) config = record { initiator = i; responder = r; config = config }

  -- The bridges that `main` makes and starts, from the settings of the section `service`.
  unfoldable pub main :
      {C : Type 0} (direction left right : String)
      → Result C
      → Result (Option (Bridge I R C) × Option (Bridge I R C))
  unfolding left_to_right_bridge right_to_left_bridge
  main direction left right node_cfg =
      if str_eq direction "left-to-right"
      then (do
        pair ← left_to_right_bridge left right
        config ← node_cfg
        ok (some (bridge_of pair config), none))
      else if str_eq direction "right-to-left"
      then (do
        pair ← right_to_left_bridge left right
        config ← node_cfg
        ok (none, some (bridge_of pair config)))
      else if str_eq direction "both"
      then (do
        there ← left_to_right_bridge left right
        back ← right_to_left_bridge left right
        config ← node_cfg
        ok (some (bridge_of there config), some (bridge_of back config)))
      else err system_exit
