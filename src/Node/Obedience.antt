-- ===== src/Node/Obedience.antt =====
-- Each coroutine of a node keeps the protocol.
use decentralised_interledge.Prelude.{
  Bool, true, false, ◌&&◌, ◌≡◌, ◌∙◌, ap, sym, key_error, Option, none, some, ◌∷◌, Result, ok, err,
  inl, inr, refl, arith, Bool-cases, if◌then◌else◌,
}
use decentralised_interledge.Interfaces.{
  Transfer, NodeConfig, Value, bytes, value_eq, Response, ErrorCode, Event, FoundCall, Ack,
  event_accepted, event_rejected, no_event, Confirmation, interledger_commit, interledger_abort,
  no_confirmation, number, Bytes, bytes_eq_lem, param,
}
use decentralised_interledge.Timeout.{is_my_duty}
use decentralised_interledge.Node.Calls.{
  Coro, ret, process_event, ◌>>=◌, send_data, get_interledger_receive_tx, call, check_confirmation,
  check_response, responder_report_error,
}
use decentralised_interledge.Node.Tasks.{
  Host, confirm_transfer, execute_transfer, ack_tx, get_responder_ack, finish_verification,
  verify_transfer, process_initiator_event, acknowledge, process_timeout, or_raise, is_ack_match,
}
use decentralised_interledge.Node.System.{Observation, answered, Log}
use decentralised_interledge.Node.Protocol.{
  Seen, Extends, IsKnown, IsAnswered, on_delivery, on_query, committed, aborted, verified, Obeys,
  here, there, IsKnown-Extends, IsLookedUp, IsLookedUp-Extends, IsChecked, IsSettled, IsValid,
}

-- What a task has learnt stays true when its next reply comes in.
IsKnown-later :
    {o : Observation} {log log' : Log} {t : Transfer}
    → Extends log log'
    → IsKnown log t
    → IsKnown (o ∷ log') t
IsKnown-later x (e, s) = (e, there (x _ s))

module _ (log : Log) (t : Transfer) (known : IsKnown log t) where
  confirm_transfer-Obeys :
      (error : Option ErrorCode) → IsAnswered log t error → Obeys log (confirm_transfer t error)
  unfolding confirm_transfer
  confirm_transfer-Obeys none a = (
    (t, known, refl, a),
    λ log' x b. ((t, IsKnown-later x known, refl, committed b (here refl)), tt),
  )
  confirm_transfer-Obeys (some e) a = (
    (t, known, refl, a),
    λ log' x b. ((t, IsKnown-later x known, refl, aborted b e (here refl)), tt),
  )

module _ (config : NodeConfig) (t : Transfer) where
  -- The rest of `execute_transfer`, behind the reply to the delivery.
  delivered-Obeys :
      (log : Log) (r : Response)
      → IsKnown log t
      → Seen (answered (send_data t.id t.payload) (ok r)) log
      → Obeys log
          (if config.confirm_transfer && r.status then confirm_transfer t r.error_code else ret tt)
  delivered-Obeys log r known seen = elim (Bool-cases (config.confirm_transfer && r.status)) [
    | inl yes_ ↦
        rw yes_
          (confirm_transfer-Obeys log t known r.error_code (on_delivery r (ground arith) refl seen))
    | inr no_ ↦ rw no_ tt
  ]

  pub execute_transfer-Obeys : (log : Log) → IsKnown log t → Obeys log (execute_transfer config t)
  unfolding execute_transfer
  execute_transfer-Obeys log known =
      ((t, known, refl, refl), λ log' x r. delivered-Obeys _ r (IsKnown-later x known) (here refl))

module _ (t : Transfer) where
  -- The rest of a coroutine behind `get_responder_ack`, which asks for nothing that is guarded, and
  -- knows then what has been looked up.
  ack_tx-Obeys :
      {A : Type 0} (log : Log) (ack : Ack) (f : Ack × Option FoundCall → Coro A)
      → Seen (answered (check_response t.id) (ok ack)) log
      → ((log' : Log)
          → Extends log log'
          → (tx : Option FoundCall) → IsLookedUp log' t ack tx
          → Obeys log' (f (ack, tx)))
      → Obeys log (ack_tx t ack >>= f)
  unfolding ack_tx
  ack_tx-Obeys log event_accepted f seen h =
      (tt, λ log' x tx. h _ (λ o p. there (x o p)) tx (there (x _ seen), here refl))
  ack_tx-Obeys log event_rejected f seen h =
      (tt, λ log' x tx. h _ (λ o p. there (x o p)) tx (there (x _ seen), here refl))
  ack_tx-Obeys log no_event f seen h = h log (λ o s. s) none (seen, refl)

  get_responder_ack-Obeys :
      {A : Type 0} (log : Log) (f : Ack × Option FoundCall → Coro A)
      → ((log' : Log)
          → Extends log log'
          → (ack : Ack) (tx : Option FoundCall) → IsLookedUp log' t ack tx
          → Obeys log' (f (ack, tx)))
      → Obeys log (get_responder_ack t >>= f)
  unfolding get_responder_ack
  get_responder_ack-Obeys log f h = (
    tt,
    λ log' x ack.
        ack_tx-Obeys _ ack f (here refl)
          (λ log'' y tx found. h log'' (λ o p. y o (there (x o p))) ack tx found),
  )

-- The test of `verify_transfer` is the one that `IsValid` states.
ack_match-IsSettled : (ack : Ack) (c : Confirmation) → is_ack_match ack c ≡ true → IsSettled ack c
ack_match-IsSettled event_accepted interledger_commit e = tt
ack_match-IsSettled event_accepted interledger_abort e = cc
ack_match-IsSettled event_accepted no_confirmation e = cc
ack_match-IsSettled event_rejected interledger_commit e = cc
ack_match-IsSettled event_rejected interledger_abort e = tt
ack_match-IsSettled event_rejected no_confirmation e = cc
ack_match-IsSettled no_event c e = cc

value_eq-bytes :
    (payload : Bytes) (v : Value) → value_eq (bytes payload) v ≡ true → v ≡ bytes payload
value_eq-bytes payload (bytes other) e = ap bytes (sym (bytes_eq_lem payload other e))
value_eq-bytes payload (number n) e = cc

test-IsValid :
    (t : Transfer) (sent : FoundCall) (v : Value) (ack : Ack) (c : Confirmation)
    → param "data" sent.tx_params ≡ some v
    → (value_eq (bytes t.payload) v && is_ack_match ack c) ≡ true
    → IsValid t sent ack c
test-IsValid t sent v ack c e h = (
  e ∙ ap some (value_eq-bytes t.payload v (ground (arith, h))),
  ack_match-IsSettled ack c (ground (arith, h)),
)

module _ (host : Host) (t : Transfer) where
  finish_verification-Obeys :
      (log : Log) (valid : Bool) (sent : FoundCall) (ack : Ack) (tx : Option FoundCall)
      (c : Confirmation)
      → IsKnown log t
      → IsChecked log t sent ack tx c
      → (valid ≡ true → IsValid t sent ack c)
      → Obeys log (finish_verification host t valid)
  unfolding finish_verification
  finish_verification-Obeys log true sent ack tx c known checked valid =
      ((t, known, refl, verified sent ack tx c checked (inl (valid refl))), tt)
  finish_verification-Obeys log false sent ack tx c known (r, l, s) valid = (
    tt,
    λ log' x _. (
      tt,
      λ log'' y _.
          let z : Extends log
              (answered (responder_report_error t.id host.invalid_transfer) (ok tt) ∷ log'') =
            λ o p. there (y o (there (x o p))) in
          (
            (
              t,
              IsKnown-Extends log _ z t known,
              refl,
              verified sent ack tx c (z _ r, IsLookedUp-Extends log _ z t ack tx l, z _ s)
                  (inr (host.invalid_transfer, there (y _ (here refl)), here refl)),
            ),
            tt,
          ),
    ),
  )

  -- The rest of `verify_transfer`, behind the reply that finds the delivery.
  checked-Obeys :
      (log : Log) (sent : FoundCall) (found : Option Value)
      → param "data" sent.tx_params ≡ found
      → IsKnown log t
      → Seen (answered (get_interledger_receive_tx t) (ok (some sent))) log
      → Obeys log (
          or_raise (elim found [ none ↦ err key_error | some v ↦ ok v ]) >>= λ v.
          get_responder_ack t >>= λ a. call (check_confirmation a.1) >>= λ c.
          finish_verification host t (value_eq (bytes t.payload) v && is_ack_match a.0 c))
  checked-Obeys log sent none has_data known seen = tt
  checked-Obeys log sent (some v) has_data known seen =
      get_responder_ack-Obeys t log _ λ log' x ack tx looked. (
        tt,
        λ log'' y c.
            let z : Extends log' (answered (check_confirmation tx) (ok c) ∷ log'') =
              λ o p. there (y o p) in
            finish_verification-Obeys _ (value_eq (bytes t.payload) v && is_ack_match ack c) sent
              ack tx c (IsKnown-later (λ o p. y o (x o p)) known)
              (z _ (x _ seen), IsLookedUp-Extends log' _ z t ack tx looked, here refl)
              (test-IsValid t sent v ack c has_data),
      )

  pub verify_transfer-Obeys : (log : Log) → IsKnown log t → Obeys log (verify_transfer host t)
  unfolding verify_transfer
  verify_transfer-Obeys log known = (
    tt,
    λ log' x. elim [
      | none ↦ tt
      | some sent ↦
          checked-Obeys _ sent (param "data" sent.tx_params) refl (IsKnown-later x known)
            (here refl)
    ],
  )

module _ (config : NodeConfig) (t : Transfer) where
  acknowledge-Obeys :
      (log : Log) (send_tx : FoundCall) (ack : Ack) (found : Option FoundCall)
      → IsKnown log t
      → Obeys log (acknowledge t send_tx ack found)
  unfolding acknowledge
  acknowledge-Obeys log send_tx no_event found known = tt
  acknowledge-Obeys log send_tx ack none known = (
    tt,
    λ log' x r.
        confirm_transfer-Obeys _ t (IsKnown-later x known) r.error_code
          (on_query r send_tx.tx_id refl (here refl)),
  )
  acknowledge-Obeys log send_tx ack (some _) known = tt

  pub process_timeout-Obeys : (log : Log) → IsKnown log t → Obeys log (process_timeout config t)
  unfolding process_timeout
  process_timeout-Obeys log known = (
    tt,
    λ log' x. elim [
      | none ↦ execute_transfer-Obeys config t _ (IsKnown-later x known)
      | some send_tx ↦ get_responder_ack-Obeys t _ _ λ log'' y ack found _.
          acknowledge-Obeys log'' send_tx ack found
            (IsKnown-Extends _ _ y t (IsKnown-later x known))
    ],
  )

decided-Obeys :
    (config : NodeConfig) (t : Transfer) (log : Log) (mine : Result Bool)
    → IsKnown log t
    → Obeys log (or_raise mine >>= λ b. if b then execute_transfer config t else ret tt)
decided-Obeys config t log (err e) known = tt
decided-Obeys config t log (ok true) known = execute_transfer-Obeys config t log known
decided-Obeys config t log (ok false) known = tt

-- Every task that the arrival of an event starts keeps the protocol, from any log.
pub process_initiator_event-Obeys :
    (host : Host) (config : NodeConfig) (event : Event) (log : Log)
    → Obeys log (process_initiator_event host config event)
unfolding process_initiator_event
process_initiator_event-Obeys host config event log = (
  tt,
  λ log' x t.
      let known : IsKnown (answered (process_event event) (ok t) ∷ log') t = (event, here refl) in
      (known, λ now. decided-Obeys config t _ (is_my_duty host.depth config now t) known),
)
