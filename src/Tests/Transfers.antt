-- ===== src/Tests/Transfers.antt =====
-- Ledgers that answer for the example transfer, and a node between them.
use decentralised_interledge.Prelude.{
  true, false, Option, none, some, [], ◌∷◌, Result, ok, err, key_error, ◌≡◌, ◌≢◌, ◌⊎◌, refl,
}
use decentralised_interledge.Prelude.Dict.{lookup, HasUniqueKeys}
use decentralised_interledge.Interfaces.{
  Event, Response, FoundCall, event_accepted, interledger_commit, bytes, application_reject,
}
use decentralised_interledge.Node.Calls.{
  Call, Reply, listen_for_events, monitor_confirmations, process_event, commit_sending,
  abort_sending, get_interledger_commit_tx, get_interledger_abort_tx, check_confirmation,
  initiator_report_error, responder_report_error, send_data, get_send_response, check_response,
  get_interledger_receive_tx,
}
use decentralised_interledge.Node.Tasks.{
  Host, process_initiator_event, process_timeout, confirm_transfer, execute_transfer,
}
use decentralised_interledge.Node.System.{System, new_system, run, answered, turns, turn, resume}
use decentralised_interledge.Node.Protocol.{IsJustified, AreKnown, MayDrop, here}
use decentralised_interledge.Node.Safety.{IsSound}
use decentralised_interledge.Node.Caution.{AreCareful, process_timeout-AreCareful}
use decentralised_interledge.Node.Loop.{
  Round, run_loop, iteration, process_initiator_events, process_verifications, process_timeouts,
  gather, outcome_of, found_transfers, finished,
}
use decentralised_interledge.Timeout.{is_my_duty, resolve_timeout_period, get_transfer_age, duty_of}
use decentralised_interledge.Register.{
  register_transfer, deregister_transfer, get_timed_out_transfers, due_among,
  find_transfer_by_initiator_id, first_with_initiator_id,
}
use decentralised_interledge.Node.Guarantees.{
  run_loop-IsJustified, run_loop_keeps, run_loop-IsSound,
}
use decentralised_interledge.Node.Running.{steady}
use decentralised_interledge.Tests.Bridge.{bridge, delivery}

abbrev pub host : Host
host = record { depth = 10; invalid_transfer = 99 }

abbrev pub sending : Event
sending = record {
  event_block = 3;
  transaction_hash = 17 ∷ [];
  log_index = 0;
  arg_id = 5;
  arg_data = 1 ∷ 2 ∷ [];
}

abbrev done : Response
done = record {
  status = true;
  error_code = none;
  tx_hash = some 40;
  block_number = some 4;
  additional_data = some 0;
  nonce = some 7;
}

abbrev rejected : Response
rejected = record done { status = false; error_code = some application_reject }

abbrev receipt_tx : FoundCall
receipt_tx = record {
  block_id = 4;
  tx_id = 40;
  tx_func = "interledgerReceive(uint256,bytes)";
  tx_params = ("data", bytes (1 ∷ 2 ∷ [])) ∷ [];
}

abbrev commit_tx : FoundCall
commit_tx = record {
  block_id = 5;
  tx_id = 50;
  tx_func = "interledgerCommit(uint256)";
  tx_params = [];
}

-- Ledgers on which a delivery is answered by `response`, and whose commit is `tx`.
abbrev ledgers : Response → Option FoundCall → (c : Call) → Result (Reply c)
ledgers response tx listen_for_events = ok (sending ∷ [])
ledgers response tx monitor_confirmations = ok (5 ∷ [])
ledgers response tx (process_event _) = ok delivery
ledgers response tx (commit_sending _) = ok true
ledgers response tx (abort_sending _ _) = ok true
ledgers response tx (get_interledger_commit_tx _) = ok tx
ledgers response tx (get_interledger_abort_tx _) = ok none
ledgers response tx (check_confirmation none) = err key_error
ledgers response tx (check_confirmation (some _)) = ok interledger_commit
ledgers response tx (initiator_report_error _ _) = ok tt
ledgers response tx (responder_report_error _ _) = ok tt
ledgers response tx (send_data _ _) = ok response
ledgers response tx (get_send_response _ _) = ok response
ledgers response tx (check_response _) = ok event_accepted
ledgers response tx (get_interledger_receive_tx _) = ok (some receipt_tx)

abbrev pub round : Round
round = record {
  event_order = 0 ∷ 0 ∷ 0 ∷ 0 ∷ [];
  verification_order = 0 ∷ 0 ∷ 0 ∷ 0 ∷ [];
  timeout_order = 0 ∷ 0 ∷ 0 ∷ 0 ∷ [];
  readings = λ _. (102, 102);
}

run_loop-IsJustified_example :
    IsJustified
      (run_loop (steady (ledgers done none) 102) host bridge (round ∷ []) (new_system tt)).1.log
run_loop-IsJustified_example =
    run_loop-IsJustified (steady (ledgers done none) 102) host bridge (round ∷ []) tt

run_loop-IsSound_example :
    let s =
      (run_loop (steady (ledgers done none) 102) host bridge (round ∷ []) (new_system tt)).1 in
    AreKnown s.log s.register × HasUniqueKeys s.register
run_loop-IsSound_example =
    run_loop-IsSound (steady (ledgers done none) 102) host bridge (round ∷ []) tt

-- A node in which the example transfer is registered.
abbrev waiting : System (Unit {0})
waiting = record {
  register = (7, delivery) ∷ [];
  world = tt;
  log = answered (process_event sending) (ok delivery) ∷ [];
}

waiting-IsSound : IsSound waiting
waiting-IsSound = record {
  justified = (tt, tt);
  known = (refl, (sending, here refl), tt);
  unique = (tt, tt);
}

run_loop_keeps_example :
    (lookup 7
        (run_loop (steady (ledgers rejected none) 112) host bridge (round ∷ []) waiting).1.register
      ≢ none)
    ⊎ MayDrop
        (run_loop (steady (ledgers rejected none) 112) host bridge (round ∷ []) waiting).1.log
        7
run_loop_keeps_example =
    run_loop_keeps (steady (ledgers rejected none) 112) host bridge (round ∷ []) waiting 7
      waiting-IsSound (λ h. cc)

process_timeout-AreCareful_example :
    AreCareful delivery
      (run
        (steady (ledgers rejected none) 112)
        (process_timeout bridge delivery)
        (new_system tt)).1.log
process_timeout-AreCareful_example =
    process_timeout-AreCareful delivery (steady (ledgers rejected none) 112) bridge (new_system tt)
      refl

-- In one round the transfer is registered, delivered and committed, and the round ends.
run_loop_delivers :
    let (outcome, s) =
      run_loop (steady (ledgers done none) 102) host bridge (round ∷ []) (new_system tt) in
    (outcome ≡ finished) × (s.register ≡ [])
unfolding run_loop iteration process_initiator_events process_verifications process_timeouts gather
    outcome_of found_transfers turns turn resume run process_initiator_event execute_transfer
    confirm_transfer is_my_duty resolve_timeout_period get_transfer_age duty_of register_transfer
    deregister_transfer get_timed_out_transfers due_among find_transfer_by_initiator_id
    first_with_initiator_id
run_loop_delivers = (refl, refl)
