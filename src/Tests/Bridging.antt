-- ===== src/Tests/Bridging.antt =====
-- A node between two Ethereum ledgers, of which one reports an event and the other accepts the
-- delivery.
use decentralised_interledge.Prelude.{
  ℕ, ◌≤◌, Bool, true, none, some, List, [], ◌∷◌, Result, ok, err, ◌≡◌, refl, value_error,
}
use decentralised_interledge.Interfaces.{
  Response, Transfer, Event, event_accepted, application_reject, number,
}
use decentralised_interledge.Ethereum.Chain.{
  Tx, Contract, get_block, find_function_call, search_blocks, search_txs, call_in, is_match,
  all_params,
}
use decentralised_interledge.Ethereum.Account.{
  Receipt, submit, needs_private_key, submit_with_password, submit_unlocked,
}
use decentralised_interledge.Ethereum.Account.Locks.{by_password}
use decentralised_interledge.Ethereum.Filters
use decentralised_interledge.Ethereum.Filters.{Filters, check_response, check_response_accepts}
use decentralised_interledge.Ethereum.Sending
use decentralised_interledge.Ethereum.Sending.{confirmed, attempt, handle, await_receipt}
use decentralised_interledge.Ethereum.Delivery
use decentralised_interledge.Ethereum.Delivery.{
  success, with_details, await_send, handle_send, send_response, success, failure, with_details,
  get_send_response,
}
use decentralised_interledge.Ethereum.Watching
use decentralised_interledge.Ethereum.Watching.{ids_in, id_in, is_confirmation, Monitor}
use decentralised_interledge.Ethereum.Events
use decentralised_interledge.Ethereum.Events.{
  receive_signature, transfer_of, generate_transfer_id, generate_hash_id,
}
use decentralised_interledge.Ethereum.Bridge.{Side, Ledgers, Adapters, answer, environment}
use decentralised_interledge.Ethereum.Bridge.Deliveries.{execute_transfer_commits}
use decentralised_interledge.Ethereum.Bridge.Receipts.{
  IsAccepted, IsRefused, commit_rests_on_receipt, abort_rests_on_receipt,
}
use decentralised_interledge.Node.Calls.{send_data, commit_sending, abort_sending}
use decentralised_interledge.Node.Tasks.{
  process_initiator_event, execute_transfer, confirm_transfer, process_timeout, resume_transfer,
  acknowledge, get_responder_ack, ack_tx,
}
use decentralised_interledge.Node.System.{
  System, new_system, run, answered, turns, turn, resume, Log,
}
use decentralised_interledge.Node.Protocol.{IsKnown, Seen, here, there}
use decentralised_interledge.Node.Credits.{closings, reported}
use decentralised_interledge.Node.Credits.Rounds.{run_loop_closes_once}
use decentralised_interledge.Node.Loop.{
  Round, run_loop, iteration, process_initiator_events, process_verifications, process_timeouts,
  gather, outcome_of, found_transfers,
}
use decentralised_interledge.Timeout.{
  is_timed_out, is_my_duty, resolve_timeout_period, get_transfer_age, duty_of,
}
use decentralised_interledge.Register.{
  register_transfer, deregister_transfer, get_timed_out_transfers, due_among, is_due,
  find_transfer_by_initiator_id, first_with_initiator_id,
}
use decentralised_interledge.Tests.Bridge.{bridge, delivery}
use decentralised_interledge.Tests.Accounts.{account, accepted, rejected}
use decentralised_interledge.Tests.Transfers.{host, sending, round}

abbrev filters : List Event → Filters Bool
filters entries = record {
  Filter = Unit {0};
  is_true = λ _. true;
  get_new_entries = λ locked. (ok entries, locked);
  pause = λ locked. locked;
  accepted_filter = λ _ locked. (ok tt, locked);
  rejected_filter = λ _ locked. (ok tt, locked);
}

abbrev contract : Contract
contract = record {
  address = 1;
  decode_function_input =
      λ _. ok (record { function = receive_signature; arguments = ("nonce", number 7) ∷ [] });
}

-- A ledger whose blocks are of one time and hold the given transactions, and whose receipts are
-- the given one.
abbrev side : Result ℕ → Receipt → List Event → List Tx → Side Bool
side outcome receipt entries txs = record {
  api = account outcome receipt;
  filters = filters entries;
  credentials = by_password;
  contract = contract;
  fetch = λ _ n full. ok (record { timestamp = 100; transactions = txs });
  block_number = λ _. 1;
  transaction_function = λ _ _. err value_error;
}

abbrev two : Receipt → Ledgers Bool
two receipt = record {
  initiator = side (ok 50) accepted (sending ∷ []) [];
  responder = side (ok 40) receipt [] (record { to = some 1; hash = 40; input = [] } ∷ []);
  sha256 = λ _. 7;
  secret = 115 ∷ [];
  clock = λ locked. (102, locked);
}

abbrev start : Adapters Bool
start = record { world = true; monitor = record { cursor = 1; cache = [] }; cache = [] }

-- A round that looks for timed-out transfers when the transfer is 72 ticks old.
abbrev late_round : Round
late_round = record round {
  timeout_order = 0 ∷ 0 ∷ 0 ∷ 0 ∷ 0 ∷ 0 ∷ 0 ∷ [];
  readings = λ _. (172, 172);
}

abbrev log_after : Receipt → Log
log_after receipt =
    (run_loop (environment (two receipt)) host bridge (late_round ∷ []) (new_system start)).1.log

committed : Seen (answered (commit_sending 5) (ok true)) (log_after accepted)
unfolding run_loop iteration process_initiator_events process_verifications process_timeouts gather
    outcome_of found_transfers turns turn resume run process_initiator_event execute_transfer
    confirm_transfer is_my_duty resolve_timeout_period get_transfer_age duty_of register_transfer
    deregister_transfer get_timed_out_transfers due_among is_due is_timed_out
    find_transfer_by_initiator_id first_with_initiator_id environment answer
    Filters.listen_for_events Events.process_event transfer_of generate_transfer_id generate_hash_id
    get_block Delivery.send_data await_send handle_send send_response get_send_response submit
    needs_private_key submit_with_password submit_unlocked Sending.commit_sending
    Sending.abort_sending attempt handle await_receipt Watching.monitor_confirmations ids_in id_in
    is_confirmation process_timeout resume_transfer acknowledge get_responder_ack ack_tx
    check_response Events.get_interledger_receive_tx Events.get_interledger_commit_tx
    Events.get_interledger_abort_tx find_function_call search_blocks search_txs call_in is_match
    all_params
committed = there (here refl)

aborted : Seen (answered (abort_sending 5 application_reject) (ok true)) (log_after rejected)
unfolding run_loop iteration process_initiator_events process_verifications process_timeouts gather
    outcome_of found_transfers turns turn resume run process_initiator_event execute_transfer
    confirm_transfer is_my_duty resolve_timeout_period get_transfer_age duty_of register_transfer
    deregister_transfer get_timed_out_transfers due_among is_due is_timed_out
    find_transfer_by_initiator_id first_with_initiator_id environment answer
    Filters.listen_for_events Events.process_event transfer_of generate_transfer_id generate_hash_id
    get_block Delivery.send_data await_send handle_send send_response get_send_response submit
    needs_private_key submit_with_password submit_unlocked Sending.commit_sending
    Sending.abort_sending attempt handle await_receipt Watching.monitor_confirmations ids_in id_in
    is_confirmation process_timeout resume_transfer acknowledge get_responder_ack ack_tx
    check_response Events.get_interledger_receive_tx Events.get_interledger_commit_tx
    Events.get_interledger_abort_tx find_function_call search_blocks search_txs call_in is_match
    all_params
aborted = here refl

commit_rests_on_receipt_example :
    (t : Transfer) × (t.initiator_id ≡ 5)
    × IsKnown (log_after accepted) t
    × IsAccepted (two accepted).responder.api t.id
commit_rests_on_receipt_example =
    commit_rests_on_receipt (two accepted) host bridge (late_round ∷ []) start 5 (ok true) committed

abort_rests_on_receipt_example :
    (t : Transfer) × (t.initiator_id ≡ 5)
    × IsKnown (log_after rejected) t
    × IsRefused (two rejected).responder.api t.id application_reject
abort_rests_on_receipt_example =
    abort_rests_on_receipt (two rejected) host bridge (late_round ∷ []) start 5 application_reject
      (ok true) aborted

always_accepted : (check_response (filters []) 7 true).0 ≡ ok event_accepted
unfolding check_response
always_accepted = refl

check_response_accepts_example : event_accepted ≡ event_accepted
check_response_accepts_example =
    check_response_accepts (filters []) 7 true event_accepted (λ f. refl) always_accepted

-- The two calls on a registered transfer.
abbrev holding : System (Adapters Bool)
holding = record { register = (7, delivery) ∷ []; world = start; log = [] }

abbrev answer_of_40 : Response
answer_of_40 =
    with_details (success (some 40)) (record { arg_nonce = 7; entry_block = 4; entry_index = 0 }) 7

delivered :
    Delivery.send_data (account (ok 40) accepted) by_password 7 delivery.payload true
    ≡ (ok answer_of_40, true)
unfolding Delivery.send_data await_send handle_send get_send_response send_response submit
    needs_private_key submit_with_password submit_unlocked
delivered = refl

confirmed_50 :
    Sending.commit_sending (account (ok 50) accepted) by_password 5 none true
    ≡ (ok (confirmed 50 4), true)
unfolding Sending.commit_sending attempt handle await_receipt submit needs_private_key
    submit_with_password submit_unlocked
confirmed_50 = refl

execute_transfer_commits_example :
    run (environment (two accepted)) (execute_transfer bridge delivery) holding ≡ (
      ok tt,
      record {
        register = [];
        world = start;
        log =
            answered (commit_sending 5) (ok true)
            ∷ answered (send_data 7 (1 ∷ 2 ∷ [])) (ok answer_of_40)
            ∷ [];
      },
    )
execute_transfer_commits_example =
    execute_transfer_commits (two accepted) bridge delivery holding answer_of_40 (confirmed 50 4)
      true true refl delivered refl confirmed_50

run_loop_closes_once_example : closings 5 (log_after accepted) ≤ reported 5 (log_after accepted)
run_loop_closes_once_example =
    run_loop_closes_once (environment (two accepted)) 5 host bridge (late_round ∷ []) start
