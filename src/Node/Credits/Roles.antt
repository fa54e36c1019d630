-- ===== src/Node/Credits/Roles.antt =====
-- Each task of a node keeps to its stance.
use decentralised_interledge.Prelude.{
  Bool, true, false, ◌&&◌, Option, none, some, Result, ok, err, refl, if◌then◌else◌,
}
use decentralised_interledge.Interfaces.{
  Transfer, NodeConfig, Value, bytes, value_eq, ErrorCode, Event, FoundCall, Ack, event_accepted,
  event_rejected, no_event, Confirmation,
}
use decentralised_interledge.Timeout.{is_my_duty}
use decentralised_interledge.Node.Calls.{Coro, ret, ◌>>=◌, call, check_confirmation}
use decentralised_interledge.Node.Tasks.{
  Host, confirm_transfer, execute_transfer, ack_tx, get_responder_ack, finish_verification,
  verify_transfer, process_initiator_event, acknowledge, resume_transfer, process_timeout, or_raise,
  responder_data, is_ack_match,
}
use decentralised_interledge.Node.Credits.{Stance, idle, holding, dropping, spent, Plays, MayEnd}

confirm_transfer-Plays :
    (t : Transfer) (error : Option ErrorCode) → Plays (holding t) (confirm_transfer t error)
unfolding confirm_transfer
confirm_transfer-Plays t none = (refl, λ r. (refl, tt))
confirm_transfer-Plays t (some e) = (refl, λ r. (refl, tt))

module _ (config : NodeConfig) (t : Transfer) where
  if-Plays :
      (b : Bool) (m : Coro (Unit {0}))
      → Plays (holding t) m
      → Plays (holding t) (if b then m else ret tt)
  if-Plays true m p = p
  if-Plays false m p = tt

  execute_transfer-Plays : Plays (holding t) (execute_transfer config t)
  unfolding execute_transfer
  execute_transfer-Plays = (
    tt,
    λ r. if-Plays (config.confirm_transfer && r.status) _ (confirm_transfer-Plays t r.error_code),
  )

-- Behind the queries of `get_responder_ack`, which close nothing.
module _ (t : Transfer) (f : Ack × Option FoundCall → Coro (Unit {0})) where
  ack_tx-Plays :
      (σ : Stance) (ack : Ack)
      → MayEnd σ
      → ((a : Ack × Option FoundCall) → Plays σ (f a))
      → Plays σ (ack_tx t ack >>= f)
  unfolding ack_tx
  ack_tx-Plays idle ack calm h = absurd calm
  ack_tx-Plays (dropping u) ack calm h = absurd calm
  ack_tx-Plays (holding u) event_accepted calm h = (tt, λ tx. h (event_accepted, tx))
  ack_tx-Plays (holding u) event_rejected calm h = (tt, λ tx. h (event_rejected, tx))
  ack_tx-Plays (holding u) no_event calm h = h (no_event, none)
  ack_tx-Plays spent event_accepted calm h = (tt, λ tx. h (event_accepted, tx))
  ack_tx-Plays spent event_rejected calm h = (tt, λ tx. h (event_rejected, tx))
  ack_tx-Plays spent no_event calm h = h (no_event, none)

  get_responder_ack-Plays :
      (σ : Stance)
      → MayEnd σ
      → ((a : Ack × Option FoundCall) → Plays σ (f a))
      → Plays σ (get_responder_ack t >>= f)
  unfolding get_responder_ack
  get_responder_ack-Plays idle calm h = absurd calm
  get_responder_ack-Plays (dropping u) calm h = absurd calm
  get_responder_ack-Plays (holding u) calm h = (tt, λ ack. ack_tx-Plays (holding u) ack calm h)
  get_responder_ack-Plays spent calm h = (tt, λ ack. ack_tx-Plays spent ack calm h)

module _ (host : Host) (t : Transfer) where
  finish_verification-Plays : (valid : Bool) → Plays spent (finish_verification host t valid)
  unfolding finish_verification
  finish_verification-Plays true = (tt, tt)
  finish_verification-Plays false = (tt, λ _. (tt, λ _. (tt, tt)))

  checked-Plays :
      (found : Result Value) (is_valid : Value → Ack × Option FoundCall → Confirmation → Bool)
      → Plays spent (
          or_raise found >>= λ v. get_responder_ack t >>= λ a.
          call (check_confirmation a.1) >>= λ c. finish_verification host t (is_valid v a c))
  checked-Plays (err e) is_valid = tt
  checked-Plays (ok v) is_valid =
      get_responder_ack-Plays t _ spent tt
        λ a. (tt, λ c. finish_verification-Plays (is_valid v a c))

  -- A verification closes nothing.
  pub verify_transfer-Plays : Plays spent (verify_transfer host t)
  unfolding verify_transfer
  verify_transfer-Plays = (
    tt,
    λ tx.
        checked-Plays (responder_data tx)
          (λ v a c. value_eq (bytes t.payload) v && is_ack_match a.0 c),
  )

module _ (config : NodeConfig) (t : Transfer) where
  acknowledge-Plays :
      (send_tx : FoundCall) (ack : Ack) (found : Option FoundCall)
      → Plays (holding t) (acknowledge t send_tx ack found)
  unfolding acknowledge
  acknowledge-Plays send_tx no_event found = tt
  acknowledge-Plays send_tx ack none = (tt, λ r. confirm_transfer-Plays t r.error_code)
  acknowledge-Plays send_tx ack (some _) = tt

  resume_transfer-Plays :
      (send_tx : Option FoundCall) → Plays (holding t) (resume_transfer config t send_tx)
  unfolding resume_transfer
  resume_transfer-Plays none = execute_transfer-Plays config t
  resume_transfer-Plays (some tx) =
      get_responder_ack-Plays t _ (holding t) tt λ a. acknowledge-Plays tx a.0 a.1

  pub process_timeout-Plays : Plays (holding t) (process_timeout config t)
  unfolding process_timeout
  process_timeout-Plays = (tt, resume_transfer-Plays)

  decided-Plays :
      (mine : Result Bool)
      → Plays (holding t) (or_raise mine >>= λ b. if b then execute_transfer config t else ret tt)
  decided-Plays (err e) = tt
  decided-Plays (ok b) = if-Plays config t b _ (execute_transfer-Plays config t)

pub process_initiator_event-Plays :
    (host : Host) (config : NodeConfig) (event : Event)
    → Plays idle (process_initiator_event host config event)
unfolding process_initiator_event
process_initiator_event-Plays host config event =
    (tt, λ t. (refl, λ now. decided-Plays config t (is_my_duty host.depth config now t)))
