-- ===== src/Ethereum/Sending.antt =====
-- `EthereumInitiator`: `commit_sending`, `abort_sending` and `report_error`.
pub mod Replies
use decentralised_interledge.Prelude.{
  ℕ, Bool, true, false, Option, none, some, [], ◌∷◌, Result, ok, err, Exception, if◌then◌else◌,
  attribute_error, time_exhausted, value_error, wrong_password,
}
use decentralised_interledge.Interfaces.{Bytes, ErrorCode, timeout, transaction_failure}
use decentralised_interledge.Ethereum.Account.{
  Web3, Credentials, Submission, sent, not_unlocked, Invocation, interledger_commit,
  interledger_abort, interledger_error, Receipt, Body, pure, ◌>>=◌, web3, submit,
}

-- The dictionary that `commit_sending` and `abort_sending` return: their `…_status` is true, with
-- the hash and the block; it is false, with the error code and the hash; or, after a wrong
-- password, the keys are `status` and `error_code`, and there is no `…_status`.
pub data Reply : Type 0 where
  confirmed : ℕ → ℕ → Reply
  refused : ErrorCode → ℕ → Reply
  no_access : ErrorCode → Reply

-- `if data:` takes an empty text for none.
abbrev pub commit_call : ℕ → Option Bytes → Invocation
commit_call id none = interledger_commit id none
commit_call id (some []) = interledger_commit id none
commit_call id (some (b ∷ bs)) = interledger_commit id (some (b ∷ bs))

-- `…_tx_hash.hex()`, of a variable that may still be None.
abbrev pub with_hash : Option ℕ → (ℕ → Reply) → Result Reply
with_hash none f = err attribute_error
with_hash (some h) f = ok (f h)

-- The two `except` clauses.
unfoldable pub handle : {W : Type 0} → Result Reply × Option ℕ × W → Result Reply × W
handle (ok reply, hash, w) = (ok reply, w)
handle (err time_exhausted, hash, w) = (with_hash hash (refused timeout), w)
handle (err value_error, hash, w) = (with_hash hash (refused transaction_failure), w)
handle (err e, hash, w) = (err e, w)

abbrev pub reply_of : ℕ → Receipt → Reply
reply_of h receipt =
    if receipt.succeeded then confirmed h receipt.receipt_block else refused transaction_failure h

module _ {W : Type 0} (api : Web3 W) (c : Credentials) where
  open api use {wait_for_receipt}

  -- What follows the sending in the `try` block.
  unfoldable pub await_receipt : Submission → Body W Reply
  await_receipt not_unlocked = pure (no_access transaction_failure)
  await_receipt (sent h) = do receipt ← web3 (wait_for_receipt h); pure (reply_of h receipt)

  -- The `try` block of both methods.
  unfoldable pub attempt : Invocation → Body W Reply
  unfolding await_receipt
  attempt invocation = do submission ← submit api c invocation; await_receipt submission

  unfoldable pub commit_sending : ℕ → Option Bytes → W → Result Reply × W
  unfolding attempt handle
  commit_sending id payload w = handle (attempt (commit_call id payload) none w)

  unfoldable pub abort_sending : ℕ → ℕ → W → Result Reply × W
  unfolding attempt handle
  abort_sending id reason w = handle (attempt (interledger_abort id reason) none w)

  -- `report_error` handles no exception, and raises one of its own after a wrong password.
  unfoldable pub await_report : Submission → Body W Receipt
  await_report not_unlocked hash w = (err wrong_password, hash, w)
  await_report (sent h) hash w = web3 (wait_for_receipt h) hash w

  unfoldable pub report_error : ℕ → ℕ → W → Result Receipt × W
  unfolding await_report
  report_error id reason w =
      let (r, _, w') = (submit api c (interledger_error id reason) >>= await_report) none w in
      (r, w')
