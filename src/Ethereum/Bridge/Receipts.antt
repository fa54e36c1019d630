-- ===== src/Ethereum/Bridge/Receipts.antt =====
-- What the commits and aborts of a node between two Ethereum ledgers rest on.
use decentralised_interledge.Prelude.{
  ℕ, Bool, true, false, none, some, List, Result, ok, Result-cases, Bool-cases, Option-cases, ◌⊎◌,
  ◌≡◌, ◌≢◌, inl, inr, arith, ◌∙◌, ap,
}
use decentralised_interledge.Interfaces.{
  Transfer, NodeConfig, ErrorCode, Response, application_reject, transaction_failure,
}
use decentralised_interledge.Ethereum.Account.{Receipt, Web3}
use decentralised_interledge.Ethereum.Delivery.{first_for, send_response}
use decentralised_interledge.Ethereum.Delivery
use decentralised_interledge.Ethereum.Delivery.Status.{
  send_data_accepted, send_data-IsConsistent, send_response-status, IsConsistent,
}
use decentralised_interledge.Ethereum.Bridge.{Ledgers, Adapters, answer, environment}
use decentralised_interledge.Node.Calls.{commit_sending, abort_sending}
use decentralised_interledge.Node.Tasks.{Host}
use decentralised_interledge.Node.System.{new_system, answered, Log}
use decentralised_interledge.Node.Protocol.{Seen, IsKnown, IsAnswered, on_delivery, on_query}
use decentralised_interledge.Node.Loop.{Round, run_loop}
use decentralised_interledge.Node.Guarantees.{run_loop-IsJustified}
use decentralised_interledge.Node.Trace.{IsFrom, run_loop-IsFrom, IsJustified-Seen}

-- The responder's ledger gave a receipt of a successful transaction whose first acceptance is for
-- the nonce, and whose first rejection is not.
pub record IsAccepted {W : Type 0} (api : Web3 W) (nonce : ℕ) : Type 0 where
  pub tx_hash : ℕ
  pub receipt : Receipt
  pub at : W
  pub given : (api.wait_for_receipt tx_hash at).0 ≡ ok receipt
  pub succeeded : receipt.succeeded ≡ true
  pub not_rejected : first_for nonce receipt.logs_reject ≡ none
  pub accepted : first_for nonce receipt.logs_accept ≢ none

-- What a receipt says of a nonce that it does not accept: the transaction succeeded and its first
-- rejection is for the nonce, which means a reject by the application; or the transaction failed,
-- or neither its first rejection nor its first acceptance is for the nonce, which means a failure.
abbrev pub Denies : ℕ → Receipt → ErrorCode → Type 0
Denies nonce receipt error =
    ((error ≡ application_reject)
      × (receipt.succeeded ≡ true)
      × (first_for nonce receipt.logs_reject ≢ none))
    ⊎ ((error ≡ transaction_failure)
        × ((receipt.succeeded ≡ false)
            ⊎ ((first_for nonce receipt.logs_reject ≡ none)
                × (first_for nonce receipt.logs_accept ≡ none))))

-- The responder's ledger gave a receipt that denies the nonce with the error code.
pub record IsRefused {W : Type 0} (api : Web3 W) (nonce : ℕ) (error : ErrorCode) : Type 0 where
  pub tx_hash : ℕ
  pub receipt : Receipt
  pub at : W
  pub given : (api.wait_for_receipt tx_hash at).0 ≡ ok receipt
  pub denies : Denies nonce receipt error

send_response-Denies :
    (h nonce : ℕ) (receipt : Receipt) (error : ErrorCode)
    → (send_response h nonce receipt).error_code ≡ some error
    → Denies nonce receipt error
unfolding send_response
send_response-Denies h nonce receipt error e = elim (Bool-cases receipt.succeeded) [
  | inr failed ↦ inr (ground (arith, e, failed), inl failed)
  | inl went ↦ elim (Option-cases (first_for nonce receipt.logs_reject)) [
    | inr (entry, found) ↦
        inl (ground (arith, e, went, found), went, λ none_there. ground (arith, found, none_there))
    | inl absent ↦ elim (Option-cases (first_for nonce receipt.logs_accept)) [
      | inl silent ↦ inr (ground (arith, e, went, absent, silent), inr (absent, silent))
      | inr (entry, accepted) ↦ absurd (ground (arith, e, went, absent, accepted))
    ]
  ]
]

send_response-IsConsistent : (h nonce : ℕ) (r : Receipt) → IsConsistent (send_response h nonce r)
unfolding send_response
send_response-IsConsistent h nonce r = ground arith

module _ {W : Type 0} (ledgers : Ledgers W) where
  open ledgers use {responder}

  -- A query that returned has seen a receipt, and says what the receipt means.
  queried :
      (tx_hash nonce : ℕ) (w : W) (r : Response)
      → (Delivery.get_send_response responder.api tx_hash nonce none w).0 ≡ ok r
      → (receipt : Receipt) × ((responder.api.wait_for_receipt tx_hash w).0 ≡ ok receipt)
        × (send_response tx_hash nonce receipt ≡ r)
  unfolding Delivery.get_send_response
  queried tx_hash nonce w r e = elim (Result-cases (responder.api.wait_for_receipt tx_hash w).0) [
    | inl (receipt, given) ↦ (receipt, given, ground arith)
    | inr (x, raised) ↦ absurd (ground arith)
  ]

  module _ (log : Log) (from : IsFrom (environment ledgers) log) (t : Transfer) where
    answered-IsAccepted : IsAnswered log t none → IsAccepted responder.api t.id
    unfolding environment answer
    answered-IsAccepted (on_delivery r st er seen) =
        let (s, e) = from _ seen in
        let (h, receipt, _, (v, given), went, rejected, accepted, _) =
          send_data_accepted responder.api responder.credentials t.id t.payload s.world r e st in
        record {
          tx_hash = h;
          receipt = receipt;
          at = v;
          given = given;
          succeeded = went;
          not_rejected = rejected;
          accepted = accepted;
        }
    answered-IsAccepted (on_query r tx_hash er seen) =
        let (s, e) = from _ seen in
        let (receipt, given, means) = queried tx_hash t.id s.world r e in
        let no_error = ap (λ (x : Response). x.error_code) means ∙ er in
        let st = (send_response-IsConsistent tx_hash t.id receipt).1 no_error in
        let (went, rejected, accepted) = (send_response-status tx_hash t.id receipt).0 st in
        record {
          tx_hash = tx_hash;
          receipt = receipt;
          at = s.world;
          given = given;
          succeeded = went;
          not_rejected = rejected;
          accepted = accepted;
        }

    answered-IsRefused :
        (error : ErrorCode) → IsAnswered log t (some error) → IsRefused responder.api t.id error
    unfolding environment answer
    answered-IsRefused error (on_delivery r st er seen) =
        let (s, e) = from _ seen in
        let no_error =
          (send_data-IsConsistent responder.api responder.credentials t.id t.payload s.world r e).0
            st in
        absurd (ground (arith, no_error, er))
    answered-IsRefused error (on_query r tx_hash er seen) =
        let (s, e) = from _ seen in
        let (receipt, given, means) = queried tx_hash t.id s.world r e in
        record {
          tx_hash = tx_hash;
          receipt = receipt;
          at = s.world;
          given = given;
          denies =
              send_response-Denies tx_hash t.id receipt error
                (ap (λ (x : Response). x.error_code) means ∙ er);
        }

  module _ (host : Host) (config : NodeConfig) (rounds : List Round) (start : Adapters W) where
    abbrev final_log : Log
    final_log = (run_loop (environment ledgers) host config rounds (new_system start)).1.log

    -- Between two Ethereum ledgers, a transfer is committed at the initiator only if it is one of an
    -- event that the initiator reported, and the responder's ledger gave a receipt of a successful
    -- transaction in which the first acceptance is for this transfer and the first rejection, if
    -- any, is not. This holds in any number of rounds of a node from an empty register, for any
    -- configuration and order of the tasks, and whatever web3 answers or raises.
    pub commit_rests_on_receipt :
        (id : ℕ) (r : Result Bool)
        → Seen (answered (commit_sending id) r) final_log
        → (t : Transfer) × (t.initiator_id ≡ id)
          × IsKnown final_log t
          × IsAccepted responder.api t.id
    commit_rests_on_receipt id r seen =
        let justified = run_loop-IsJustified (environment ledgers) host config rounds start in
        let (t, known, same, answer) =
          IsJustified-Seen final_log (commit_sending id) r justified seen in
        (
          t,
          same,
          known,
          answered-IsAccepted final_log
              (run_loop-IsFrom (environment ledgers) host config rounds start) t answer,
        )

    -- Between two Ethereum ledgers, a transfer is aborted with an error code, in any rounds of a
    -- node from an empty register, only if it is one of an event that the initiator reported, and
    -- the responder's ledger gave a receipt that denies it with this very code: the reject by the
    -- application, if the transaction succeeded and its first rejection is for this transfer; the
    -- failure, if the transaction failed or neither its first rejection nor its first acceptance is
    -- for it.
    pub abort_rests_on_receipt :
        (id : ℕ) (error : ErrorCode) (r : Result Bool)
        → Seen (answered (abort_sending id error) r) final_log
        → (t : Transfer) × (t.initiator_id ≡ id)
          × IsKnown final_log t
          × IsRefused responder.api t.id error
    abort_rests_on_receipt id error r seen =
        let justified = run_loop-IsJustified (environment ledgers) host config rounds start in
        let (t, known, same, answer) =
          IsJustified-Seen final_log (abort_sending id error) r justified seen in
        (
          t,
          same,
          known,
          answered-IsRefused final_log
              (run_loop-IsFrom (environment ledgers) host config rounds start) t error answer,
        )
