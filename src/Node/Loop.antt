-- ===== src/Node/Loop.antt =====
-- The main loop of a node, `_run`, with the `process_…` methods that it calls. What the
-- surroundings choose in a round is an argument: the orders in which the tasks of each `gather`
-- take their turns, and the readings of the clock. `stop` ends the list of rounds.
use decentralised_interledge.Prelude.{
  ℕ, if◌then◌else◌, none, some, List, [], ◌∷◌, map, Result, ok, err, Exception,
}
use decentralised_interledge.Interfaces.{Transfer, NodeConfig}
use decentralised_interledge.Register.{
  Register, find_transfer_by_initiator_id, get_timed_out_transfers,
}
use decentralised_interledge.Node.Calls.{
  Coro, ret, raise, call, listen_for_events, monitor_confirmations,
}
use decentralised_interledge.Node.Tasks.{
  Host, process_initiator_event, verify_transfer, process_timeout,
}
use decentralised_interledge.Node.System.{Env, System, turns, run}

pub record Round : Type 0 where
  pub event_order : List ℕ
  pub verification_order : List ℕ
  pub timeout_order : List ℕ
  pub readings : Transfer → ℕ × ℕ

-- How an `await` of the loop ends: it returns, it raises, or the schedule is over before it does.
pub data Outcome : Type 0 where
  finished : Outcome
  failed : Exception → Outcome
  pending : Outcome

-- `gather` raises the exception of a task that raised; it returns when all tasks have.
abbrev pub behind : Outcome → Outcome
behind (failed e) = failed e
behind _ = pending

unfoldable pub outcome_of : List (Coro (Unit {0})) → Outcome
outcome_of [] = finished
outcome_of (ret _ ∷ tasks) = outcome_of tasks
outcome_of (raise e ∷ tasks) = failed e
outcome_of (_ ∷ tasks) = behind (outcome_of tasks)

-- `find_transfer_by_initiator_id` for each id, where it finds one.
unfoldable pub found_transfers : List ℕ → Register → List Transfer
found_transfers [] register = []
found_transfers (id ∷ ids) register = elim (find_transfer_by_initiator_id id register) [
  | none ↦ found_transfers ids register
  | some t ↦ t ∷ found_transfers ids register
]

module _ {W : Type 0} where
  -- The next statement of the loop, if the one before has returned.
  abbrev pub next : Outcome × System W → (System W → Outcome × System W) → Outcome × System W
  next (finished, s) f = f s
  next (failed e, s) f = (failed e, s)
  next (pending, s) f = (pending, s)

  -- What is done with a value, if the call for it has returned.
  abbrev pub proceed :
      {A : Type 0} → Result A × System W → (A → System W → Outcome × System W) → Outcome × System W
  proceed (ok a, s) f = f a s
  proceed (err e, s) f = (failed e, s)

module _ {W : Type 0} (env : Env W) where
  unfoldable pub gather : List ℕ → List (Coro (Unit {0})) → System W → Outcome × System W
  gather order tasks s = let (tasks', s') = turns env order tasks s in (outcome_of tasks', s')

  module _ (host : Host) (config : NodeConfig) where
    unfoldable pub process_initiator_events : List ℕ → System W → Outcome × System W
    process_initiator_events order s =
        proceed (run env (call listen_for_events) s)
          λ events s'. gather order (map (process_initiator_event host config) events) s'

    unfoldable pub process_verifications : List ℕ → System W → Outcome × System W
    process_verifications order s =
        proceed (run env (call monitor_confirmations) s)
          λ ids s'. gather order (map (verify_transfer host) (found_transfers ids s'.register)) s'

    unfoldable pub process_timeouts : List ℕ → (Transfer → ℕ × ℕ) → System W → Outcome × System W
    process_timeouts order readings s =
        proceed (get_timed_out_transfers host.depth config readings s.register, s)
          λ transfers s'. gather order (map (process_timeout config) transfers) s'

    unfoldable pub iteration : Round → System W → Outcome × System W
    iteration round s =
        let events = process_initiator_events round.event_order s in
        let verifications = next events λ s'.
          if config.verification_enabled
          then process_verifications round.verification_order s'
          else (finished, s') in
        next verifications λ s'.
          if config.timeout_enabled
          then process_timeouts round.timeout_order round.readings s'
          else (finished, s')

    unfoldable pub run_loop : List Round → System W → Outcome × System W
    run_loop [] s = (finished, s)
    run_loop (round ∷ rounds) s = next (iteration round s) (run_loop rounds)
