-- ===== src/Ethereum/Delivery.antt =====
-- `EthereumResponder` and `EthereumMultiResponder`: a delivery, its receipt, and the inquiry and
-- abort of the multi-ledger mode.
pub mod Status
use decentralised_interledge.Prelude.{
  ℕ, Bool, true, false, Option, none, some, List, [], ◌∷◌, ◌==◌, Result, ok, err, if◌then◌else◌,
  attribute_error, time_exhausted, value_error,
}
use decentralised_interledge.Interfaces.{
  Bytes, ErrorCode, timeout, transaction_failure, application_reject, inquiry_reject, Response,
}
use decentralised_interledge.Ethereum.Sending
use decentralised_interledge.Ethereum.Account.{
  Web3, Credentials, Submission, sent, not_unlocked, Invocation, interledger_receive,
  interledger_inquire, interledger_receive_abort, LogEntry, Receipt, Body, pure, ◌>>=◌, web3,
  submit,
}

-- A dictionary with no details of a transaction but its hash.
abbrev pub failure : ErrorCode → Option ℕ → Response
failure e hash = record {
  status = false;
  error_code = some e;
  tx_hash = hash;
  block_number = none;
  additional_data = none;
  nonce = none;
}

abbrev pub success : Option ℕ → Response
success hash = record {
  status = true;
  error_code = none;
  tx_hash = hash;
  block_number = none;
  additional_data = none;
  nonce = none;
}

-- The details of the event that decided.
abbrev pub with_details : Response → LogEntry → ℕ → Response
with_details r entry nonce = record r {
  block_number = some entry.entry_block;
  additional_data = some entry.entry_index;
  nonce = some nonce;
}

-- `len(logs) != 0 and logs[0]['args']['nonce'] == int(nonce)`: the first event, if it is for the
-- nonce.
abbrev pub first_for : ℕ → List LogEntry → Option LogEntry
first_for nonce [] = none
first_for nonce (entry ∷ entries) = if entry.arg_nonce == nonce then some entry else none

-- What a receipt means for the transfer with this nonce, in `get_send_response`.
unfoldable pub send_response : ℕ → ℕ → Receipt → Response
send_response tx_hash nonce receipt =
    if receipt.succeeded
    then elim (first_for nonce receipt.logs_reject) [
      | some entry ↦ with_details (failure application_reject (some tx_hash)) entry nonce
      | none ↦ elim (first_for nonce receipt.logs_accept) [
        | some entry ↦ with_details (success (some tx_hash)) entry nonce
        | none ↦ failure transaction_failure (some tx_hash)
      ]
    ]
    else failure transaction_failure (some tx_hash)

-- The same in `send_data_inquire` and `abort_send_data`, with the error code of a rejection.
unfoldable pub brief_response : ErrorCode → ℕ → ℕ → Receipt → Response
brief_response rejected tx_hash nonce receipt =
    if receipt.succeeded
    then elim (first_for nonce receipt.logs_reject) [
      | some _ ↦ failure rejected (some tx_hash)
      | none ↦ elim (first_for nonce receipt.logs_accept) [
        | some _ ↦ success (some tx_hash)
        | none ↦ failure transaction_failure (some tx_hash)
      ]
    ]
    else failure transaction_failure (some tx_hash)

-- The `except` clauses of `send_data`, where `tx_hash.hex()` is called on what may be None.
abbrev pub hex_failure : ErrorCode → Option ℕ → Result Response
hex_failure e none = err attribute_error
hex_failure e (some h) = ok (failure e (some h))

unfoldable pub handle_send : {W : Type 0} → Result Response × Option ℕ × W → Result Response × W
handle_send (ok reply, hash, w) = (ok reply, w)
handle_send (err time_exhausted, hash, w) = (hex_failure timeout hash, w)
handle_send (err value_error, hash, w) = (hex_failure transaction_failure hash, w)
handle_send (err e, hash, w) = (err e, w)

-- Those of the multi-ledger methods, which pass the variable on as it is.
unfoldable pub handle_multi : {W : Type 0} → Result Response × Option ℕ × W → Result Response × W
handle_multi (ok reply, hash, w) = (ok reply, w)
handle_multi (err time_exhausted, hash, w) = (ok (failure timeout hash), w)
handle_multi (err value_error, hash, w) = (ok (failure transaction_failure hash), w)
handle_multi (err e, hash, w) = (err e, w)

module _ {W : Type 0} (api : Web3 W) where
  open api use {wait_for_receipt}

  unfoldable pub get_send_response : ℕ → ℕ → Body W Response
  unfolding send_response
  get_send_response tx_hash nonce = do
    receipt ← web3 (wait_for_receipt tx_hash)
    pure (send_response tx_hash nonce receipt)

  -- What follows the sending in the `try` block of `send_data`.
  unfoldable pub await_send : ℕ → Submission → Body W Response
  unfolding get_send_response
  await_send nonce not_unlocked = pure (failure transaction_failure none)
  await_send nonce (sent h) = get_send_response h nonce

  -- And in those of the multi-ledger methods.
  unfoldable pub await_brief : ErrorCode → ℕ → Submission → Body W Response
  unfolding brief_response
  await_brief rejected nonce not_unlocked = pure (failure transaction_failure none)
  await_brief rejected nonce (sent h) = do
    receipt ← web3 (wait_for_receipt h)
    pure (brief_response rejected h nonce receipt)

  module _ (c : Credentials) where
    unfoldable pub send_data : ℕ → Bytes → W → Result Response × W
    unfolding await_send handle_send
    send_data nonce payload w =
        handle_send ((submit api c (interledger_receive nonce payload) >>= await_send nonce) none w)

    unfoldable pub send_data_inquire : ℕ → Bytes → W → Result Response × W
    unfolding await_brief handle_multi
    send_data_inquire nonce payload w = handle_multi (
        (submit api c (interledger_inquire nonce payload) >>= await_brief inquiry_reject nonce) none
          w)

    unfoldable pub abort_send_data : ℕ → ℕ → W → Result Response × W
    unfolding await_brief handle_multi
    abort_send_data nonce reason w = handle_multi (
        (submit api c (interledger_receive_abort nonce reason)
            >>= await_brief application_reject nonce)
          none w)

    -- `report_error`, whose statements are those of the initiator's.
    abbrev pub report_error : ℕ → ℕ → W → Result Receipt × W
    report_error nonce reason w = Sending.report_error api c nonce reason w
