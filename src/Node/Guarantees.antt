-- ===== src/Node/Guarantees.antt =====
-- The loop of a node keeps what its tasks keep.
use decentralised_interledge.Prelude.{
  ℕ, none, List, [], ◌∷◌, Result, ok, err, ◌≡◌, ◌⊎◌, ◌≢◌, refl, true, false, if◌then◌else◌, Bool,
  arith,
}
use decentralised_interledge.Prelude.Dict.{lookup, values, HasUniqueKeys}
use decentralised_interledge.Interfaces.{Transfer, NodeConfig}
use decentralised_interledge.Register.{get_timed_out_transfers, due_among}
use decentralised_interledge.Register.Laws.{due_among-All}
use decentralised_interledge.Node.Calls.{Call, call, listen_for_events, monitor_confirmations}
use decentralised_interledge.Node.Tasks.{Host}
use decentralised_interledge.Node.System.{Env, System, new_system, answered, run}
use decentralised_interledge.Node.Protocol.{IsAllowed, IsKnown, IsJustified, AreKnown, MayDrop}
use decentralised_interledge.Node.Safety.{
  IsSound, Advances, Advances-refl, Advances-trans, answer-Advances,
}
use decentralised_interledge.Node.Loop.{
  Round, Outcome, finished, failed, pending, process_initiator_events, process_verifications,
  process_timeouts, next, proceed, iteration, run_loop,
}
use decentralised_interledge.Node.Gathering.{
  gather-Advances, events-AllObey, verifications-AllObey, timeouts-AllObey, values-AreKnown,
  found_transfers-AreKnown,
}

module _ {W : Type 0} (env : Env W) where
  -- A single call, run alone, is logged with its answer.
  pub run-call :
      (c : Call) (s : System W)
      → run env (call c) s ≡ (
        (env.answer c s.world).0,
        record s {
          world = (env.answer c s.world).1;
          log = answered c (env.answer c s.world).0 ∷ s.log;
        },
      )
  unfolding run
  run-call c s = ground arith

  call-Advances :
      (c : Call) (s : System W) → IsSound s → IsAllowed s.log c → Advances s (run env (call c) s).1
  call-Advances c s h allowed =
      rw (run-call c s)
        (answer-Advances c (env.answer c s.world).0 (env.answer c s.world).1 s h allowed)

module _ {W : Type 0} where
  next-Advances :
      (s : System W) (p : Outcome × System W) (f : System W → Outcome × System W)
      → Advances s p.1
      → ((s' : System W) → IsSound s' → Advances s' (f s').1)
      → Advances s (next p f).1
  next-Advances s (finished, s') f a h = Advances-trans a (h s' a.sound)
  next-Advances s (failed e, s') f a h = a
  next-Advances s (pending, s') f a h = a

  proceed-Advances :
      {A : Type 0} (s : System W) (p : Result A × System W) (f : A → System W → Outcome × System W)
      → Advances s p.1
      → ((a : A) → p.0 ≡ ok a → Advances p.1 (f a p.1).1)
      → Advances s (proceed p f).1
  proceed-Advances s (ok x, s') f a h = Advances-trans a (h x refl)
  proceed-Advances s (err e, s') f a h = a

  if-Advances :
      (b : Bool) (s : System W) (p q : Outcome × System W)
      → Advances s p.1
      → Advances s q.1
      → Advances s (if b then p else q).1
  if-Advances true s p q a b = a
  if-Advances false s p q a b = b

-- A node as `__init__` leaves it.
new_system-IsSound : {W : Type 0} (world : W) → IsSound (new_system world)
new_system-IsSound world = record { justified = tt; known = tt; unique = tt }

module _ {W : Type 0} (env : Env W) (host : Host) (config : NodeConfig) where
  events-Advances :
      (order : List ℕ) (s : System W)
      → IsSound s
      → Advances s (process_initiator_events env host config order s).1
  unfolding process_initiator_events
  events-Advances order s h =
      let a = call-Advances env listen_for_events s h tt in
      proceed-Advances s (run env (call listen_for_events) s) _ a
        λ es _. gather-Advances env order _ _ a.sound (events-AllObey host config _ es)

  verifications-Advances :
      (order : List ℕ) (s : System W)
      → IsSound s
      → Advances s (process_verifications env host config order s).1
  unfolding process_verifications
  verifications-Advances order s h =
      let a = call-Advances env monitor_confirmations s h tt in
      proceed-Advances s (run env (call monitor_confirmations) s) _ a λ ids _.
        gather-Advances env order _ _ a.sound
          (verifications-AllObey host _ _ (found_transfers-AreKnown _ ids _ a.sound.known))

  timeouts-Advances :
      (order : List ℕ) (readings : Transfer → ℕ × ℕ) (s : System W)
      → IsSound s
      → Advances s (process_timeouts env host config order readings s).1
  unfolding process_timeouts get_timed_out_transfers
  timeouts-Advances order readings s h =
      proceed-Advances s (due_among host.depth config readings (values s.register), s) _
        (Advances-refl s h)
        λ due e. gather-Advances env order _ s h (
          timeouts-AllObey config s.log due (
            due_among-All (IsKnown s.log) host.depth config readings (values s.register) due
              (values-AreKnown s.log s.register h.known) e))

  iteration-Advances :
      (round : Round) (s : System W) → IsSound s → Advances s (iteration env host config round s).1
  unfolding iteration
  iteration-Advances round s h =
      next-Advances s
        (next (process_initiator_events env host config round.event_order s) λ s'.
          if config.verification_enabled
          then process_verifications env host config round.verification_order s'
          else (finished, s'))
        _
        (next-Advances s (process_initiator_events env host config round.event_order s) _
          (events-Advances round.event_order s h)
          λ s' h'.
            if-Advances config.verification_enabled s' _ _
              (verifications-Advances round.verification_order s' h') (Advances-refl s' h'))
        λ s' h'.
          if-Advances config.timeout_enabled s' _ _
            (timeouts-Advances round.timeout_order round.readings s' h') (Advances-refl s' h')

  run_loop-Advances :
      (rounds : List Round) (s : System W)
      → IsSound s
      → Advances s (run_loop env host config rounds s).1
  unfolding run_loop
  run_loop-Advances [] s h = Advances-refl s h
  run_loop-Advances (round ∷ rounds) s h =
      next-Advances s (iteration env host config round s) (run_loop env host config rounds)
        (iteration-Advances round s h) (run_loop-Advances rounds)

  -- Whatever the ledgers answer, the clock shows and the orders of the tasks are, a node that
  -- starts with an empty register makes only calls that are justified: it delivers only the data
  -- of a transfer that the initiator reported, commits only a transfer for which the responder has
  -- answered without an error, and aborts one only with the error code of such an answer.
  pub run_loop-IsJustified :
      (rounds : List Round) (world : W)
      → IsJustified (run_loop env host config rounds (new_system world)).1.log
  run_loop-IsJustified rounds world =
      (run_loop-Advances rounds (new_system world) (new_system-IsSound world)).sound.justified

  -- How a transfer may leave: one that is registered in a sound system is, after any rounds, still
  -- registered, or for a transfer with its id that the initiator reported, one of these has been seen.
  -- The initiator has answered the commit or the abort of its initiator id, with a true or a false
  -- status. Or a delivery of it was found, the event at the responder and the transaction at the
  -- initiator that goes with it were looked up, and either the delivered data are its own and an
  -- acceptance has been committed or a rejection aborted, or both ledgers took a report of it with
  -- one reason.
  pub run_loop_keeps :
      (rounds : List Round) (s : System W) (id : ℕ)
      → IsSound s
      → lookup id s.register ≢ none
      → (lookup id (run_loop env host config rounds s).1.register ≢ none)
        ⊎ MayDrop (run_loop env host config rounds s).1.log id
  run_loop_keeps rounds s id h there = (run_loop-Advances rounds s h).kept id there

  -- In any number of rounds from an empty register the register holds transfers that the initiator
  -- reported, each under its own id, and no id twice.
  pub run_loop-IsSound :
      (rounds : List Round) (world : W)
      → let s = (run_loop env host config rounds (new_system world)).1 in
        AreKnown s.log s.register × HasUniqueKeys s.register
  run_loop-IsSound rounds world =
      let a = run_loop-Advances rounds (new_system world) (new_system-IsSound world) in
      (a.sound.known, a.sound.unique)
