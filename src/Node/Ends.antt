-- ===== src/Node/Ends.antt =====
-- Every `gather` comes to an end: its tasks can take their turns in an order in which all of them
-- return or raise.
pub mod Rounds
use decentralised_interledge.Prelude.{
  Bool, true, false, if◌then◌else◌, ℕ, zero, suc, List, [], ◌∷◌, ◌++◌, map, Result, ok, err, ◌≡◌,
  ◌≢◌, refl, arith, All, ap, ◌∙◌, sym, Option-cases, get_elem?, set, inl, inr,
}
use mathlib.Core.Path.{subst}
use decentralised_interledge.Node.Calls.{
  call, listen_for_events, monitor_confirmations, Call, Reply, Coro, ret, raise, await, add, drop,
  registered, time,
}
use decentralised_interledge.Node.System.{Env, System, turn, turns, run, resume}
use decentralised_interledge.Node.Loop.{
  Outcome, finished, failed, pending, behind, outcome_of, gather, proceed, next, Round,
  found_transfers, process_initiator_events, process_verifications, process_timeouts, iteration,
  run_loop,
}
use decentralised_interledge.Node.Tasks.{
  Host, process_initiator_event, verify_transfer, process_timeout,
}
use decentralised_interledge.Interfaces.{Transfer, NodeConfig}
use decentralised_interledge.Register.{get_timed_out_transfers}

abbrev IsOver : Coro (Unit {0}) → Type 0
IsOver (ret a) = Unit
IsOver (raise e) = Unit
IsOver _ = ⊥

outcome_of-ended : (tasks : List (Coro (Unit {0}))) → All IsOver tasks → outcome_of tasks ≢ pending
unfolding outcome_of
outcome_of-ended [] h = λ e. cc
outcome_of-ended (ret a ∷ tasks) (_, h) = outcome_of-ended tasks h
outcome_of-ended (raise x ∷ tasks) h = λ e. cc
outcome_of-ended (await c k ∷ tasks) (h, _) = absurd h
outcome_of-ended (add t k ∷ tasks) (h, _) = absurd h
outcome_of-ended (drop i k ∷ tasks) (h, _) = absurd h
outcome_of-ended (registered k ∷ tasks) (h, _) = absurd h
outcome_of-ended (time k ∷ tasks) (h, _) = absurd h

-- As many turns as the number, all of the first task.
abbrev first_turns : ℕ → List ℕ
first_turns zero = []
first_turns (suc n) = 0 ∷ first_turns n

module _ {W : Type 0} (env : Env W) where
  -- A task takes turns by itself.
  abbrev steps : ℕ → Coro (Unit {0}) → System W → Coro (Unit {0}) × System W
  steps zero c s = (c, s)
  steps (suc n) c s = let (c', s') = turn env c s in steps n c' s'

  resumed_ends :
      (c : Call) (k : Reply c → Coro (Unit {0})) (s : System W) (r : Result (Reply c) × W)
      → ((x : Reply c) (s' : System W) → (n : ℕ) × IsOver (steps (suc n) (k x) s').0)
      → (n : ℕ) × IsOver (steps n (resume c k s r).0 (resume c k s r).1).0
  unfolding resume
  resumed_ends c k s (ok x, w) h = let (n, over) = h x _ in (suc n, over)
  resumed_ends c k s (err e, w) h = (zero, tt)

  task_ends : (c : Coro (Unit {0})) (s : System W) → (n : ℕ) × IsOver (steps (suc n) c s).0
  unfolding turn
  task_ends (ret a) s = (zero, tt)
  task_ends (raise e) s = (zero, tt)
  task_ends (await c k) s = resumed_ends c k s (env.answer c s.world) λ x s'. task_ends (k x) s'
  task_ends (add t k) s = task_ends k _
  task_ends (drop i k) s = task_ends k _
  task_ends (registered k) s = task_ends (k s.register) s
  task_ends (time k) s = task_ends (k (env.clock s.world).0) _

  turns-append :
      (a b : List ℕ) (tasks : List (Coro (Unit {0}))) (s : System W)
      → turns env (a ++ b) tasks s
        ≡ (let (tasks', s') = turns env a tasks s in turns env b tasks' s')
  unfolding turns
  turns-append [] b tasks s = refl
  turns-append (i ∷ a) b tasks s = elim (Option-cases (get_elem? tasks i)) [
    | inl absent ↦ rw (absent, turns) (turns-append a b tasks s)
    | inr (task, found) ↦
        rw (found, turns) (turns-append a b (set tasks i (turn env task s).0) (turn env task s).1)
  ]

  turns-first :
      (n : ℕ) (c : Coro (Unit {0})) (tasks : List (Coro (Unit {0}))) (s : System W)
      → turns env (first_turns n) (c ∷ tasks) s ≡ ((steps n c s).0 ∷ tasks, (steps n c s).1)
  unfolding turns
  turns-first zero c tasks s = refl
  turns-first (suc n) c tasks s = turns-first n (turn env c s).0 tasks (turn env c s).1

  turns-others :
      (order : List ℕ) (c : Coro (Unit {0})) (tasks : List (Coro (Unit {0}))) (s : System W)
      → turns env (map suc order) (c ∷ tasks) s
        ≡ (c ∷ (turns env order tasks s).0, (turns env order tasks s).1)
  unfolding turns
  turns-others [] c tasks s = refl
  turns-others (i ∷ order) c tasks s = elim (Option-cases (get_elem? tasks i)) [
    | inl absent ↦ rw (absent, turns) (turns-others order c tasks s)
    | inr (task, found) ↦
        rw (found, turns)
          (turns-others order c (set tasks i (turn env task s).0) (turn env task s).1)
  ]

  tasks_end :
      (tasks : List (Coro (Unit {0}))) (s : System W)
      → (order : List ℕ) × All IsOver (turns env order tasks s).0
  unfolding turns
  tasks_end [] s = ([], tt)
  tasks_end (c ∷ tasks) s =
      let (n, over) = task_ends c s in
      let alone = steps (suc n) c s in
      let (order, others) = tasks_end tasks alone.1 in
      (
        first_turns (suc n) ++ map suc order,
        subst (λ p. All IsOver p.0)
            (sym (
              turns-append (first_turns (suc n)) (map suc order) (c ∷ tasks) s
              ∙ ap (λ p. turns env (map suc order) p.0 p.1) (turns-first (suc n) c tasks s)
              ∙ turns-others order alone.0 tasks alone.1))
            (over, others),
      )

  pub gather_ends :
      (tasks : List (Coro (Unit {0}))) (s : System W)
      → (order : List ℕ) × ((gather env order tasks s).0 ≢ pending)
  unfolding gather
  gather_ends tasks s =
      let (order, over) = tasks_end tasks s in
      (order, outcome_of-ended (turns env order tasks s).0 over)
