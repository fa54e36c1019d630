-- ===== src/Ethereum/Bridge.antt =====
-- A node between two Ethereum ledgers: what it asks is answered by the methods of
-- `EthereumInitiator` and `EthereumResponder`. Each adapter is an object with its own block cache.
pub mod Deliveries
pub mod Receipts
use Prim.Native.String.{String}
use decentralised_interledge.Prelude.{
  ℕ, Bool, true, false, Option, none, some, List, Result, ok, err,
}
use decentralised_interledge.Interfaces.{
  ErrorCode, timeout, transaction_failure, unsupported_ksi_hash, application_reject, inquiry_reject,
}
use decentralised_interledge.Ethereum.Chain.{Contract, Fetch, Cache}
use decentralised_interledge.Ethereum.Account.{Web3, Credentials, Receipt}
use decentralised_interledge.Ethereum.Filters.{Filters}
use decentralised_interledge.Ethereum.Filters
use decentralised_interledge.Ethereum.Sending
use decentralised_interledge.Ethereum.Sending.{confirmed, refused, no_access}
use decentralised_interledge.Ethereum.Delivery
use decentralised_interledge.Ethereum.Watching
use decentralised_interledge.Ethereum.Watching.{Monitor}
use decentralised_interledge.Ethereum.Events
use decentralised_interledge.Node.Calls.{
  Call, Reply, listen_for_events, monitor_confirmations, process_event, commit_sending,
  abort_sending, get_interledger_commit_tx, get_interledger_abort_tx, check_confirmation,
  initiator_report_error, responder_report_error, send_data, get_send_response, check_response,
  get_interledger_receive_tx,
}
use decentralised_interledge.Node.System.{Env}

-- One adapter with web3 and the ledger behind it. `fetch`, `block_number` and `transaction` are
-- what web3 reads of the ledger as it is at the time.
pub record Side (W : Type 0) : Type 1 where
  pub api : Web3 W
  pub filters : Filters W
  pub credentials : Credentials
  pub contract : Contract
  pub fetch : W → Fetch
  pub block_number : W → ℕ
  pub transaction_function : W → ℕ → Result String

-- The two adapters, with `hashlib` and the secret of the node.
pub record Ledgers (W : Type 0) : Type 1 where
  pub initiator : Side W
  pub responder : Side W
  pub sha256 : List ℕ → ℕ
  pub secret : List ℕ
  pub clock : W → ℕ × W

-- The world, with what the adapter objects keep: the initiator's cursor and cache, the
-- responder's cache.
pub record Adapters (W : Type 0) : Type 0 where
  pub world : W
  pub monitor : Monitor
  pub cache : Cache

-- The value of an `IntEnum` as an argument.
abbrev pub error_value : ErrorCode → ℕ
error_value timeout = 1
error_value transaction_failure = 2
error_value unsupported_ksi_hash = 3
error_value application_reject = 4
error_value inquiry_reject = 5

-- The `…_status` of a reply; after a wrong password the reply has none.
abbrev pub reply_status : Sending.Reply → Bool
reply_status (confirmed h b) = true
reply_status (refused e h) = false
reply_status (no_access e) = false

abbrev map_result : {A B : Type 0} → (A → B) → Result A → Result B
map_result f (ok a) = ok (f a)
map_result f (err e) = err e

module _ {W : Type 0} (ledgers : Ledgers W) where
  open ledgers use {initiator, responder}

  -- A call that changes the world only.
  abbrev in_world : {A : Type 0} → (W → Result A × W) → Adapters W → Result A × Adapters W
  in_world f s = let (r, w) = f s.world in (r, record s { world = w })

  -- A call that reads through the initiator's cache, and one through the responder's.
  abbrev in_monitor : {A : Type 0} → (Cache → Result A × Cache) → Adapters W → Result A × Adapters W
  in_monitor f s =
      let (r, cache') = f s.monitor.cache in
      (r, record s { monitor = record { cursor = s.monitor.cursor; cache = cache' } })

  abbrev in_cache : {A : Type 0} → (Cache → Result A × Cache) → Adapters W → Result A × Adapters W
  in_cache f s = let (r, cache') = f s.cache in (r, record s { cache = cache' })

  unfoldable pub answer : (c : Call) → Adapters W → Result (Reply c) × Adapters W
  answer listen_for_events s = in_world (Filters.listen_for_events initiator.filters) s
  answer monitor_confirmations s =
      let w = s.world in
      let (r, m) =
        Watching.monitor_confirmations initiator.contract (initiator.fetch w)
          (initiator.block_number w) s.monitor in
      (r, record s { monitor = m })
  answer (process_event e) s =
      in_monitor (Events.process_event ledgers.sha256 ledgers.secret (initiator.fetch s.world) e) s
  answer (commit_sending i) s =
      let (r, s') =
        in_world (Sending.commit_sending initiator.api initiator.credentials i none) s in
      (map_result reply_status r, s')
  answer (abort_sending i e) s =
      let (r, s') =
        in_world (Sending.abort_sending initiator.api initiator.credentials i (error_value e)) s in
      (map_result reply_status r, s')
  answer (get_interledger_commit_tx t) s =
      in_monitor
        (Events.get_interledger_commit_tx initiator.contract (initiator.fetch s.world)
          (initiator.block_number s.world) t)
        s
  answer (get_interledger_abort_tx t) s =
      in_monitor
        (Events.get_interledger_abort_tx initiator.contract (initiator.fetch s.world)
          (initiator.block_number s.world) t)
        s
  answer (check_confirmation tx) s =
      (Watching.check_confirmation (initiator.transaction_function s.world) tx, s)
  answer (initiator_report_error i reason) s =
      let (r, s') =
        in_world (Sending.report_error initiator.api initiator.credentials i reason) s in
      (map_result (λ _. tt) r, s')
  answer (responder_report_error i reason) s =
      let (r, s') =
        in_world (Delivery.report_error responder.api responder.credentials i reason) s in
      (map_result (λ _. tt) r, s')
  answer (send_data nonce payload) s =
      in_world (Delivery.send_data responder.api responder.credentials nonce payload) s
  answer (get_send_response tx_hash nonce) s =
      in_world
        (λ w.
          let (r, _, w') = Delivery.get_send_response responder.api tx_hash nonce none w in (r, w'))
        s
  answer (check_response i) s = in_world (Filters.check_response responder.filters i) s
  answer (get_interledger_receive_tx t) s =
      in_cache
        (Events.get_interledger_receive_tx responder.contract (responder.fetch s.world)
          (responder.block_number s.world) t)
        s

  unfoldable pub environment : Env (Adapters W)
  unfolding answer
  environment = record {
    answer = answer;
    clock = λ s. let (n, w) = ledgers.clock s.world in (n, record s { world = w });
  }
