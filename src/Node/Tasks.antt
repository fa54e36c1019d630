-- ===== src/Node/Tasks.antt =====
-- The coroutines of `DecentralizedInterledger`, one definition for each method.
use decentralised_interledge.Prelude.{
  ℕ, Bool, true, false, ◌&&◌, Option, none, some, if◌then◌else◌, Result, ok, err, key_error,
}
use decentralised_interledge.Interfaces.{
  Transfer, NodeConfig, Value, bytes, value_eq, param, ErrorCode, Event, FoundCall, Ack,
  event_accepted, event_rejected, no_event, Confirmation, interledger_commit, interledger_abort,
}
use decentralised_interledge.Timeout.{is_my_duty}
use decentralised_interledge.Node.Calls.{
  Coro, ret, raise, add, drop, time, call, ◌>>=◌, ◌>>◌, process_event, commit_sending,
  abort_sending, get_interledger_commit_tx, get_interledger_abort_tx, check_confirmation,
  initiator_report_error, responder_report_error, send_data, get_send_response, check_response,
  get_interledger_receive_tx,
}

-- What the interpreter and `hashlib` give: the room for nested calls, and the number
-- `int(md5(b'INVALID_TRANSFER').hexdigest(), 16)`.
pub record Host : Type 0 where
  pub depth : ℕ
  pub invalid_transfer : ℕ

abbrev pub or_raise : {A : Type 0} → Result A → Coro A
or_raise (ok a) = ret a
or_raise (err e) = raise e

-- The error code of the response decides; no code is 0, so a code is true.
unfoldable pub confirm_transfer : Transfer → Option ErrorCode → Coro (Unit {0})
confirm_transfer transfer (some error) = do
  call (abort_sending transfer.initiator_id error)
  drop transfer.id (ret tt)
confirm_transfer transfer none = do
  call (commit_sending transfer.initiator_id)
  drop transfer.id (ret tt)

unfoldable pub execute_transfer : NodeConfig → Transfer → Coro (Unit {0})
execute_transfer config transfer = do
  response ← call (send_data transfer.id transfer.payload)
  if config.confirm_transfer && response.status
      then confirm_transfer transfer response.error_code
      else ret tt

-- The transaction that goes with the event that the responder's ledger holds.
unfoldable pub ack_tx : Transfer → Ack → Coro (Ack × Option FoundCall)
ack_tx transfer event_accepted = do
  tx ← call (get_interledger_commit_tx transfer)
  ret (event_accepted, tx)
ack_tx transfer event_rejected = do
  tx ← call (get_interledger_abort_tx transfer)
  ret (event_rejected, tx)
ack_tx transfer no_event = ret (no_event, none)

unfoldable pub get_responder_ack : Transfer → Coro (Ack × Option FoundCall)
unfolding ack_tx
get_responder_ack transfer = do ack ← call (check_response transfer.id); ack_tx transfer ack

-- `responder_tx['txParams']['data']`: a key that is missing raises.
abbrev pub responder_data : Option FoundCall → Result Value
responder_data none = err key_error
responder_data (some tx) = elim (param "data" tx.tx_params) [ none ↦ err key_error | some v ↦ ok v ]

abbrev pub is_ack_match : Ack → Confirmation → Bool
is_ack_match event_accepted interledger_commit = true
is_ack_match event_rejected interledger_abort = true
is_ack_match _ _ = false

-- What `verify_transfer` does once it knows whether the transfer is valid.
unfoldable pub finish_verification : Host → Transfer → Bool → Coro (Unit {0})
finish_verification host transfer true = drop transfer.id (ret tt)
finish_verification host transfer false = do
  call (initiator_report_error transfer.initiator_id host.invalid_transfer)
  call (responder_report_error transfer.id host.invalid_transfer)
  drop transfer.id (ret tt)

unfoldable pub verify_transfer : Host → Transfer → Coro (Unit {0})
unfolding get_responder_ack finish_verification
verify_transfer host transfer = do
  responder_tx ← call (get_interledger_receive_tx transfer)
  sent ← or_raise (responder_data responder_tx)
  (responder_ack, final_tx) ← get_responder_ack transfer
  initiator_ack ← call (check_confirmation final_tx)
  finish_verification host transfer
      (value_eq (bytes transfer.payload) sent && is_ack_match responder_ack initiator_ack)

unfoldable pub process_initiator_event : Host → NodeConfig → Event → Coro (Unit {0})
unfolding execute_transfer
process_initiator_event host config event = do
  transfer ← call (process_event event)
  add transfer (ret tt)
  now ← time ret
  mine ← or_raise (is_my_duty host.depth config now transfer)
  if mine then execute_transfer config transfer else ret tt

-- What `process_timeout` does with an event that is there, `ack_tx` being found or not.
unfoldable pub acknowledge : Transfer → FoundCall → Ack → Option FoundCall → Coro (Unit {0})
unfolding confirm_transfer
acknowledge transfer send_tx no_event found = ret tt
acknowledge transfer send_tx ack none = do
  response ← call (get_send_response send_tx.tx_id transfer.id)
  confirm_transfer transfer response.error_code
acknowledge transfer send_tx ack (some _) = ret tt

unfoldable pub resume_transfer : NodeConfig → Transfer → Option FoundCall → Coro (Unit {0})
unfolding execute_transfer get_responder_ack acknowledge
resume_transfer config transfer none = execute_transfer config transfer
resume_transfer config transfer (some send_tx) = do
  (ack, found) ← get_responder_ack transfer
  acknowledge transfer send_tx ack found

unfoldable pub process_timeout : NodeConfig → Transfer → Coro (Unit {0})
unfolding resume_transfer
process_timeout config transfer = do
  send_tx ← call (get_interledger_receive_tx transfer)
  resume_transfer config transfer send_tx
