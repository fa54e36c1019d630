-- ===== src/Ethereum/Delivery/Status.antt =====
-- What the replies of the responder mean.
use decentralised_interledge.Prelude.{
  ℕ, true, Option, none, some, Result, ok, err, value_error, attribute_error, Result-cases, ◌≡◌,
  ◌≢◌, ◌↔◌, inl, inr, refl, arith,
}
use decentralised_interledge.Interfaces.{Bytes, Response, transaction_failure}
use decentralised_interledge.Ethereum.Account.{
  Web3, Credentials, Submission, sent, not_unlocked, Receipt, submit, ◌>>=◌, interledger_receive,
  interledger_inquire,
}
use decentralised_interledge.Ethereum.Delivery.{
  first_for, send_response, handle_send, failure, await_send, send_data, send_data_inquire,
  abort_send_data,
}

-- A response is true exactly when it has no error code.
abbrev pub IsConsistent : Response → Type 0
IsConsistent r = (r.status ≡ true) ↔ (r.error_code ≡ none)

-- A receipt means success for a nonce exactly if the transaction succeeded, the first rejection of
-- the receipt, if any, is not for the nonce, and its first acceptance is.
pub send_response-status :
    (tx_hash nonce : ℕ) (r : Receipt)
    → ((send_response tx_hash nonce r).status ≡ true) ↔ (
        (r.succeeded ≡ true)
        × (first_for nonce r.logs_reject ≡ none)
        × (first_for nonce r.logs_accept ≢ none))
unfolding send_response
send_response-status tx_hash nonce r = ground arith

tx_hash-send_response :
    (h nonce : ℕ) (receipt : Receipt) → (send_response h nonce receipt).tx_hash ≡ some h
unfolding send_response
tx_hash-send_response h nonce receipt = ground arith

module _ {W : Type 0} (api : Web3 W) (c : Credentials) where
  -- What `send_data` returns is true exactly if it has no error code, on every path, those of the
  -- handled exceptions included.
  pub send_data-IsConsistent :
      (nonce : ℕ) (payload : Bytes) (w : W) (r : Response)
      → (send_data api c nonce payload w).0 ≡ ok r
      → IsConsistent r
  unfolding send_data
  send_data-IsConsistent nonce payload w r h = ground arith

  -- `send_data` raises, and returns no error reply, if the contract function raises a
  -- `ValueError` before a hash is known.
  pub send_data_raises :
      (nonce : ℕ) (payload : Bytes) (w : W)
      → (submit api c (interledger_receive nonce payload) none w).0 ≡ err value_error
      → (submit api c (interledger_receive nonce payload) none w).1 ≡ none
      → (send_data api c nonce payload w).0 ≡ err attribute_error
  unfolding send_data
  send_data_raises nonce payload w e h = ground arith

  accepted_from :
      (p : Result Submission × Option ℕ × W) (w : W) (nonce : ℕ) (r : Response)
      → (handle_send ((◌>>=◌ (λ _ _. p) (await_send api nonce)) none w)).0 ≡ ok r
      → r.status ≡ true
      → (h : ℕ) × (receipt : Receipt) × (p.0 ≡ ok (sent h))
        × ((v : W) × ((api.wait_for_receipt h v).0 ≡ ok receipt))
        × (receipt.succeeded ≡ true)
        × (first_for nonce receipt.logs_reject ≡ none)
        × (first_for nonce receipt.logs_accept ≢ none)
        × (r.tx_hash ≡ some h)
  unfolding handle_send await_send
  accepted_from (ok (sent h), hash, w') w nonce r e st =
      elim (Result-cases (api.wait_for_receipt h w').0) [
        | inl (receipt, er) ↦
            let same : send_response h nonce receipt ≡ r = ground arith in
            let (went, rejected, accepted) =
              (send_response-status h nonce receipt).0 (rw same st) in
            (
              h,
              receipt,
              refl,
              (w', er),
              went,
              rejected,
              accepted,
              rw (← same) (tx_hash-send_response h nonce receipt),
            )
        | inr (x, ex) ↦ absurd (ground arith)
      ]
  accepted_from (ok not_unlocked, hash, w') w nonce r e st = absurd (ground arith)
  accepted_from (err x, hash, w') w nonce r e st = absurd (ground arith)

  -- A delivery is reported as done only if the contract function was called, the receipt of that
  -- very transaction came in with a true status, its first acceptance is for the nonce, and its
  -- first rejection is not; and the reply names the transaction.
  pub send_data_accepted :
      (nonce : ℕ) (payload : Bytes) (w : W) (r : Response)
      → (send_data api c nonce payload w).0 ≡ ok r
      → r.status ≡ true
      → (h : ℕ) × (receipt : Receipt) × ((submit api c (interledger_receive nonce payload) none w).0
          ≡ ok (sent h))
        × ((v : W) × ((api.wait_for_receipt h v).0 ≡ ok receipt))
        × (receipt.succeeded ≡ true)
        × (first_for nonce receipt.logs_reject ≡ none)
        × (first_for nonce receipt.logs_accept ≢ none)
        × (r.tx_hash ≡ some h)
  unfolding send_data
  send_data_accepted nonce payload w r =
      accepted_from (submit api c (interledger_receive nonce payload) none w) w nonce r

  -- An inquiry, unlike a delivery, turns the same `ValueError` into a reply without a hash.
  pub send_data_inquire_returns :
      (nonce : ℕ) (payload : Bytes) (w : W)
      → (submit api c (interledger_inquire nonce payload) none w).0 ≡ err value_error
      → (submit api c (interledger_inquire nonce payload) none w).1 ≡ none
      → (send_data_inquire api c nonce payload w).0 ≡ ok (failure transaction_failure none)
  unfolding send_data_inquire
  send_data_inquire_returns nonce payload w e h = ground arith

  -- What `send_data_inquire` returns is true exactly if it has no error code.
  pub send_data_inquire-IsConsistent :
      (nonce : ℕ) (payload : Bytes) (w : W) (r : Response)
      → (send_data_inquire api c nonce payload w).0 ≡ ok r
      → IsConsistent r
  unfolding send_data_inquire
  send_data_inquire-IsConsistent nonce payload w r h = ground arith

  -- What `abort_send_data` returns is true exactly if it has no error code.
  pub abort_send_data-IsConsistent :
      (nonce reason : ℕ) (w : W) (r : Response)
      → (abort_send_data api c nonce reason w).0 ≡ ok r
      → IsConsistent r
  unfolding abort_send_data
  abort_send_data-IsConsistent nonce reason w r h = ground arith
