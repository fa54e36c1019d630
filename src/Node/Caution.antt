-- ===== src/Node/Caution.antt =====
-- What `process_timeout` may ask of the ledgers, by what it has asked before.
use decentralised_interledge.Prelude.{
  ℕ, true, ◌&&◌, Option, none, some, [], ◌∷◌, Result, ok, err, ◌≡◌, ◌≢◌, refl, inl, inr, arith,
  Bool-cases,
}
use decentralised_interledge.Interfaces.{
  Transfer, NodeConfig, Response, ErrorCode, FoundCall, Ack, event_accepted, event_rejected,
  no_event,
}
use decentralised_interledge.Register.{Register, deregister_transfer, register_transfer}
use decentralised_interledge.Node.Calls.{
  Call, Reply, Coro, ret, raise, await, add, drop, registered, time, ◌>>=◌, check_response,
  commit_sending, abort_sending, send_data, get_send_response, get_interledger_receive_tx,
  initiator_report_error, responder_report_error,
}
use decentralised_interledge.Node.Tasks.{
  confirm_transfer, execute_transfer, acknowledge, get_responder_ack, ack_tx, resume_transfer,
  process_timeout,
}
use decentralised_interledge.Node.System.{Env, System, Log, answered, run}
use decentralised_interledge.Node.Protocol.{Seen, here, there, IsLookedUp}

module _ (t : Transfer) where
  -- The ledger of the responder has no delivery of the transfer.
  abbrev pub IsUnsent : Log → Type 0
  IsUnsent log = Seen (answered (get_interledger_receive_tx t) (ok none)) log

  -- The transfer is to be closed with this error code, or with a commit if there is none: a delivery
  -- that was missing has been made and was answered with a true status; or a delivery and an event
  -- were found, but no transaction that goes with it, and the receipt is that of this delivery.
  pub data IsDue (log : Log) (error : Option ErrorCode) : Type 0 where
    by_delivery :
        (r : Response)
        → IsUnsent log
        → r.status ≡ true
        → r.error_code ≡ error
        → Seen (answered (send_data t.id t.payload) (ok r)) log
        → IsDue log error
    by_receipt :
        (sent : FoundCall) (ack : Ack) (r : Response)
        → Seen (answered (get_interledger_receive_tx t) (ok (some sent))) log
        → ack ≢ no_event
        → IsLookedUp log t ack none
        → r.error_code ≡ error
        → Seen (answered (get_send_response sent.tx_id t.id) (ok r)) log
        → IsDue log error

  -- A call that is made for this transfer, after these answers.
  abbrev pub IsCareful : Log → Call → Type 0
  IsCareful log (send_data id payload) = (id ≡ t.id) × (payload ≡ t.payload) × IsUnsent log
  IsCareful log (commit_sending i) = (i ≡ t.initiator_id) × IsDue log none
  IsCareful log (abort_sending i e) = (i ≡ t.initiator_id) × IsDue log (some e)
  IsCareful log (initiator_report_error i reason) = ⊥
  IsCareful log (responder_report_error i reason) = ⊥
  IsCareful log _ = Unit

  abbrev pub AreCareful : Log → Type 0
  AreCareful [] = Unit
  AreCareful (answered c r ∷ log) = IsCareful log c × AreCareful log

  -- A coroutine makes careful calls only, whatever the replies are.
  abbrev StaysCareful : {A : Type 0} → Log → Coro A → Type 0
  StaysCareful log (ret a) = Unit
  StaysCareful log (raise e) = Unit
  StaysCareful log (await c k) =
      IsCareful log c × ((r : Reply c) → StaysCareful (answered c (ok r) ∷ log) (k r))
  StaysCareful log (add u k) = StaysCareful log k
  StaysCareful log (drop i k) = StaysCareful log k
  StaysCareful log (registered k) = (s : Register) → StaysCareful log (k s)
  StaysCareful log (time k) = (n : ℕ) → StaysCareful log (k n)

  -- What follows the answer to a call.
  abbrev run_answered :
      {W A : Type 0} (env : Env W) (c : Call)
      → (Reply c → Coro A)
      → System W
      → W
      → Result (Reply c)
      → Result A × System W
  run_answered env c k s w r =
      let s' = record s { world = w; log = answered c r ∷ s.log } in
      elim r [ ok x ↦ run env (k x) s' | err e ↦ (err e, s') ]

  run-AreCareful :
      {W A : Type 0} (env : Env W) (m : Coro A) (s : System W)
      → AreCareful s.log
      → StaysCareful s.log m
      → AreCareful (run env m s).1.log
  unfolding run
  run-AreCareful env (ret a) s h o = h
  run-AreCareful env (raise e) s h o = h
  run-AreCareful env (await c k) s h (careful, rest) =
      let w = (env.answer c s.world).1 in
      elim (env.answer c s.world).0 as (λ r. AreCareful (run_answered env c k s w r).1.log) [
        | ok x ↦
            run-AreCareful env (k x) (record s { world = w; log = answered c (ok x) ∷ s.log })
              (careful, h) (rest x)
        | err e ↦ (careful, h)
      ]
  run-AreCareful env (add u k) s h o =
      run-AreCareful env k (record s { register = register_transfer u s.register }) h o
  run-AreCareful env (drop i k) s h o =
      run-AreCareful env k (record s { register = (deregister_transfer i s.register).1 }) h o
  run-AreCareful env (registered k) s h o = run-AreCareful env (k s.register) s h (o s.register)
  run-AreCareful env (time k) s h o =
      let (n, w) = env.clock s.world in run-AreCareful env (k n) (record s { world = w }) h (o n)

  confirm_transfer-StaysCareful :
      (log : Log) (error : Option ErrorCode)
      → IsDue log error
      → StaysCareful log (confirm_transfer t error)
  unfolding confirm_transfer
  confirm_transfer-StaysCareful log none due = ((refl, due), λ r. tt)
  confirm_transfer-StaysCareful log (some e) due = ((refl, due), λ r. tt)

  execute_transfer-StaysCareful :
      (config : NodeConfig) (log : Log)
      → IsUnsent log
      → StaysCareful log (execute_transfer config t)
  unfolding execute_transfer
  execute_transfer-StaysCareful config log unsent = (
    (refl, refl, unsent),
    λ r. elim (Bool-cases (config.confirm_transfer && r.status)) [
      | inl yes_ ↦ rw yes_ (
          confirm_transfer-StaysCareful _ r.error_code
            (by_delivery r (there unsent) (ground (arith, yes_)) refl (here refl)))
      | inr no_ ↦ rw no_ tt
    ],
  )

  -- The receipt of the delivery that was found decides.
  acknowledge-StaysCareful :
      (log : Log) (sent : FoundCall) (ack : Ack) (found : Option FoundCall)
      → Seen (answered (get_interledger_receive_tx t) (ok (some sent))) log
      → IsLookedUp log t ack found
      → StaysCareful log (acknowledge t sent ack found)
  unfolding acknowledge
  acknowledge-StaysCareful log sent no_event found seen looked = tt
  acknowledge-StaysCareful log sent event_accepted (some tx) seen looked = tt
  acknowledge-StaysCareful log sent event_rejected (some tx) seen looked = tt
  acknowledge-StaysCareful log sent event_accepted none seen (c, f) = (
    tt,
    λ r. confirm_transfer-StaysCareful _ r.error_code (
        by_receipt sent event_accepted r (there seen) (λ h. cc) (there c, there f) refl
          (here refl)),
  )
  acknowledge-StaysCareful log sent event_rejected none seen (c, f) = (
    tt,
    λ r. confirm_transfer-StaysCareful _ r.error_code (
        by_receipt sent event_rejected r (there seen) (λ h. cc) (there c, there f) refl
          (here refl)),
  )

  ack_tx-StaysCareful :
      (log : Log) (sent : FoundCall) (ack : Ack)
      → Seen (answered (get_interledger_receive_tx t) (ok (some sent))) log
      → Seen (answered (check_response t.id) (ok ack)) log
      → StaysCareful log (ack_tx t ack >>= λ a. acknowledge t sent a.0 a.1)
  unfolding ack_tx
  ack_tx-StaysCareful log sent event_accepted seen told = (
    tt,
    λ tx. acknowledge-StaysCareful _ sent event_accepted tx (there seen) (there told, here refl),
  )
  ack_tx-StaysCareful log sent event_rejected seen told = (
    tt,
    λ tx. acknowledge-StaysCareful _ sent event_rejected tx (there seen) (there told, here refl),
  )
  ack_tx-StaysCareful log sent no_event seen told =
      acknowledge-StaysCareful log sent no_event none seen (told, refl)

  resume_transfer-StaysCareful :
      (config : NodeConfig) (log : Log) (found : Option FoundCall)
      → Seen (answered (get_interledger_receive_tx t) (ok found)) log
      → StaysCareful log (resume_transfer config t found)
  unfolding resume_transfer get_responder_ack
  resume_transfer-StaysCareful config log none seen = execute_transfer-StaysCareful config log seen
  resume_transfer-StaysCareful config log (some sent) seen =
      (tt, λ ack. ack_tx-StaysCareful _ sent ack (there seen) (here refl))

  -- Whatever the ledgers answer, `process_timeout` for a transfer, run alone from an empty log,
  -- makes careful calls only: it delivers only the transfer's own data, and only if the responder's ledger was found to
  -- hold no delivery of it; it closes only this transfer, with an error code or without, as a
  -- delivery with a true status said that it made then, or as the receipt of the delivery that it
  -- found says, and that only if the responder holds an event and the initiator no transaction that
  -- goes with it; and it reports nothing.
  pub process_timeout-AreCareful :
      {W : Type 0} (env : Env W) (config : NodeConfig) (s : System W)
      → s.log ≡ []
      → AreCareful (run env (process_timeout config t) s).1.log
  unfolding process_timeout
  process_timeout-AreCareful env config s empty =
      run-AreCareful env (process_timeout config t) s (rw empty tt)
        (tt, λ found. resume_transfer-StaysCareful config _ found (here refl))
