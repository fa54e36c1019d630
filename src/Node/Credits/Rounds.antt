-- ===== src/Node/Credits/Rounds.antt =====
-- Nothing is closed more often than it was reported, over all rounds of the loop.
use decentralised_interledge.Prelude.{
  ℕ, ◌≤◌, false, List, [], ◌∷◌, map, Result, ◌≡◌, refl, if◌then◌else◌, arith,
}
use decentralised_interledge.Prelude.Dict.{values}
use decentralised_interledge.Interfaces.{Transfer, NodeConfig}
use decentralised_interledge.Register.{due_among, get_timed_out_transfers}
use decentralised_interledge.Node.Calls.{
  Call, Reply, Coro, call, listen_for_events, monitor_confirmations,
}
use decentralised_interledge.Node.Tasks.{Host}
use decentralised_interledge.Node.System.{Env, System, new_system, turns, run}
use decentralised_interledge.Node.Loop.{
  finished, outcome_of, gather, next, Round, found_transfers, process_initiator_events,
  process_verifications, process_timeouts, iteration, run_loop,
}
use decentralised_interledge.Node.Guarantees.{run-call}
use decentralised_interledge.Node.Credits.{
  closings, reported, Stance, idle, holding, spent, closes, reports,
}
use decentralised_interledge.Node.Credits.Gathers.{AllPlay, AreBalanced, turns-AllBalanced}
use decentralised_interledge.Node.Credits.Settling.{settled}
use decentralised_interledge.Node.Credits.Phases.{
  IsFair, IsFair-bounded, ended-IsFair, next-IsFair, proceed-IsFair, if-IsFair, idle_tasks,
  spent_tasks, events-AllPlay, verifications-AllPlay, timeouts-AllPlay, due_credits, bounded,
}

module _ {W : Type 0} (env : Env W) (i : ℕ) where
  gather-IsFair :
      (order : List ℕ) (stances : List Stance) (tasks : List (Coro (Unit {0}))) (s : System W)
      → AllPlay stances tasks
      → AreBalanced i stances s
      → IsFair i (gather env order tasks s)
  unfolding gather
  gather-IsFair order stances tasks s p b =
      let (stances', p', b') = turns-AllBalanced env i order stances tasks s p b in
      ended-IsFair i (outcome_of (turns env order tasks s).0) (turns env order tasks s).1
        (λ e. settled i stances' (turns env order tasks s).0 (turns env order tasks s).1 p' e b')
        (bounded i stances' (turns env order tasks s).1 b')

  -- A call that neither closes nor reports.
  call-AreBalanced :
      (c : Call) (s : System W)
      → closes i c ≡ false
      → ((r : Result (Reply c)) → reports i c r ≡ false)
      → AreBalanced i [] s
      → AreBalanced i [] (run env (call c) s).1
  call-AreBalanced c s closes_not reports_not b = rw (run-call env c s) (record {
    orderly = b.orderly;
    balance = ground (arith, b.balance, closes_not, reports_not (env.answer c s.world).0);
  })

  module _ (host : Host) (config : NodeConfig) where
    events-IsFair :
        (order : List ℕ) (s : System W)
        → AreBalanced i [] s
        → IsFair i (process_initiator_events env host config order s)
    unfolding process_initiator_events
    events-IsFair order s b =
        proceed-IsFair i (run env (call listen_for_events) s) _
          (call-AreBalanced listen_for_events s refl (λ r. refl) b)
          λ es e.
            gather-IsFair order (map (λ _. idle) es) _ _ (events-AllPlay host config es)
              (idle_tasks i es _ (call-AreBalanced listen_for_events s refl (λ r. refl) b))

    verifications-IsFair :
        (order : List ℕ) (s : System W)
        → AreBalanced i [] s
        → IsFair i (process_verifications env host config order s)
    unfolding process_verifications
    verifications-IsFair order s b =
        proceed-IsFair i (run env (call monitor_confirmations) s) _
          (call-AreBalanced monitor_confirmations s refl (λ r. refl) b)
          λ ids e.
            let s' = (run env (call monitor_confirmations) s).1 in
            gather-IsFair order (map (λ _. spent) (found_transfers ids s'.register)) _ s'
              (verifications-AllPlay host (found_transfers ids s'.register))
              (spent_tasks i (found_transfers ids s'.register) s'
                (call-AreBalanced monitor_confirmations s refl (λ r. refl) b))

    timeouts-IsFair :
        (order : List ℕ) (readings : Transfer → ℕ × ℕ) (s : System W)
        → AreBalanced i [] s
        → IsFair i (process_timeouts env host config order readings s)
    unfolding process_timeouts get_timed_out_transfers
    timeouts-IsFair order readings s b =
        proceed-IsFair i (due_among host.depth config readings (values s.register), s) _ b
          λ due e. gather-IsFair order (map holding due) _ s (timeouts-AllPlay config due) (record {
            orderly = b.orderly;
            balance = omega (
              arith,
              b.balance,
              due_credits i host.depth config readings s.register due b.orderly.1 e,
            );
          })

    iteration-IsFair :
        (round : Round) (s : System W)
        → AreBalanced i [] s
        → IsFair i (iteration env host config round s)
    unfolding iteration
    iteration-IsFair round s b =
        next-IsFair i
          (next (process_initiator_events env host config round.event_order s) λ s'.
            if config.verification_enabled
            then process_verifications env host config round.verification_order s'
            else (finished, s'))
          _
          (next-IsFair i (process_initiator_events env host config round.event_order s) _
            (events-IsFair round.event_order s b)
            λ s' b'.
              if-IsFair i config.verification_enabled _ _
                (verifications-IsFair round.verification_order s' b') b')
          λ s' b'.
            if-IsFair i config.timeout_enabled _ _
              (timeouts-IsFair round.timeout_order round.readings s' b') b'

    run_loop-IsFair :
        (rounds : List Round) (s : System W)
        → AreBalanced i [] s
        → IsFair i (run_loop env host config rounds s)
    unfolding run_loop
    run_loop-IsFair [] s b = b
    run_loop-IsFair (round ∷ rounds) s b =
        next-IsFair i (iteration env host config round s) (run_loop env host config rounds)
          (iteration-IsFair round s b) (run_loop-IsFair rounds)

    -- A node ends no transfer more often than it was reported: in any rounds from an empty
    -- register, whatever the ledgers answer, the clock shows and the orders of the tasks are,
    -- the commits and aborts that it asks for with an initiator id, those that raise among
    -- them, are no more than the transfers with this initiator id that were reported to it.
    pub run_loop_closes_once :
        (rounds : List Round) (world : W)
        → let log = (run_loop env host config rounds (new_system world)).1.log in
          closings i log ≤ reported i log
    run_loop_closes_once rounds world =
        IsFair-bounded i (run_loop env host config rounds (new_system world)) (
          run_loop-IsFair rounds (new_system world)
            (record { orderly = (tt, tt); balance = omega arith }))
