-- ===== src/Tests/Accounts.antt =====
-- A web3 whose state is whether the account is locked, and a contract that answers or raises.
use decentralised_interledge.Prelude.{
  ℕ, Bool, true, false, none, some, [], ◌∷◌, Result, ok, err, other_error, ◌≡◌, ◌≢◌, refl,
  if◌then◌else◌,
}
use decentralised_interledge.Interfaces.{Response}
use decentralised_interledge.Ethereum.Account.{
  Web3, sent, Receipt, interledger_commit, interledger_receive, submit, needs_private_key,
  submit_with_password, submit_unlocked,
}
use decentralised_interledge.Ethereum.Account.Locks.{Locking, by_password, submit_locks_again}
use decentralised_interledge.Ethereum.Sending.{
  confirmed, commit_call, attempt, handle, await_receipt, commit_sending,
}
use decentralised_interledge.Ethereum.Sending.Replies.{HasReceipt, commit_sending_confirmed}
use decentralised_interledge.Ethereum.Delivery.{
  first_for, send_response, with_details, success, handle_send, await_send, get_send_response,
  send_data,
}
use decentralised_interledge.Ethereum.Delivery.Status.{send_data_accepted}

abbrev pub accepted : Receipt
accepted = record {
  succeeded = true;
  receipt_block = 4;
  logs_accept = record { arg_nonce = 7; entry_block = 4; entry_index = 0 } ∷ [];
  logs_reject = [];
}

abbrev pub rejected : Receipt
rejected = record accepted { logs_accept = []; logs_reject = accepted.logs_accept }

-- The account, on a contract whose calls give `outcome` and then the receipt.
abbrev pub account : Result ℕ → Receipt → Web3 Bool
account outcome receipt = record {
  Transaction = Unit {0};
  Signed = Unit {0};
  sign = λ locked. (if locked then err other_error else ok tt, locked);
  build_transaction = λ _ locked. (ok tt, locked);
  get_transaction_count = λ locked. (ok 0, locked);
  sign_transaction = λ _ _ locked. (ok tt, locked);
  send_raw_transaction = λ _ locked. (outcome, locked);
  unlock_account = λ _. (ok true, false);
  lock_account = λ _. (ok tt, true);
  transact = λ _ locked. (outcome, locked);
  wait_for_receipt = λ _ locked. (ok receipt, locked);
}

account-Locking :
    (outcome : Result ℕ) (receipt : Receipt) → Locking (account outcome receipt) (λ locked. locked)
account-Locking outcome receipt = record {
  unlocks = λ w h. refl;
  refuses = λ w h. cc;
  locks = λ w h. refl;
  transact_keeps = λ i w. refl;
}

-- A submission that goes through.
sent_50 :
    (submit (account (ok 50) accepted) by_password (interledger_commit 5 none) none true).0
    ≡ ok (sent 50)
unfolding submit needs_private_key submit_with_password submit_unlocked
sent_50 = refl

confirmed_50 :
    (commit_sending (account (ok 50) accepted) by_password 5 none true).0 ≡ ok (confirmed 50 4)
unfolding commit_sending attempt handle await_receipt submit needs_private_key submit_with_password
    submit_unlocked
confirmed_50 = refl

submit_locks_again_example :
    (submit (account (ok 50) accepted) by_password (interledger_commit 5 none) none true).2 ≡ true
submit_locks_again_example =
    submit_locks_again (account (ok 50) accepted) (λ locked. locked)
      (account-Locking (ok 50) accepted) (interledger_commit 5 none) true (sent 50) refl sent_50

commit_sending_confirmed_example :
    (r : Receipt) × HasReceipt (account (ok 50) accepted) by_password 50 r
    × (r.succeeded ≡ true)
    × (r.receipt_block ≡ 4)
    × ((submit (account (ok 50) accepted) by_password (commit_call 5 none) none true).0
        ≡ ok (sent 50))
commit_sending_confirmed_example =
    commit_sending_confirmed (account (ok 50) accepted) by_password 5 none true 50 4 confirmed_50

-- What the deliveries of the example return.
abbrev done : Response
done =
    with_details (success (some 40)) (record { arg_nonce = 7; entry_block = 4; entry_index = 0 }) 7

delivered : (send_data (account (ok 40) accepted) by_password 7 [] true).0 ≡ ok done
unfolding send_data await_send handle_send get_send_response send_response submit needs_private_key
    submit_with_password submit_unlocked
delivered = refl

send_data_accepted_example :
    (h : ℕ) × (receipt : Receipt) × ((submit
        (account (ok 40) accepted)
        by_password
        (interledger_receive 7 [])
        none
        true).0
      ≡ ok (sent h))
    × ((v : Bool) × (((account (ok 40) accepted).wait_for_receipt h v).0 ≡ ok receipt))
    × (receipt.succeeded ≡ true)
    × (first_for 7 receipt.logs_reject ≡ none)
    × (first_for 7 receipt.logs_accept ≢ none)
    × (done.tx_hash ≡ some h)
send_data_accepted_example =
    send_data_accepted (account (ok 40) accepted) by_password 7 [] true done delivered refl
