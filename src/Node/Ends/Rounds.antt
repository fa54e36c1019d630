-- ===== src/Node/Ends/Rounds.antt =====
-- Every round of the loop comes to an end.
use decentralised_interledge.Prelude.{
  Bool, true, false, if◌then◌else◌, ℕ, List, [], ◌∷◌, map, Result, ok, err, ◌≡◌, ◌≢◌, refl, arith,
}
use decentralised_interledge.Node.Calls.{call, listen_for_events, monitor_confirmations}
use decentralised_interledge.Node.System.{Env, System, run}
use decentralised_interledge.Node.Loop.{
  Outcome, finished, failed, pending, gather, proceed, next, Round, found_transfers,
  process_initiator_events, process_verifications, process_timeouts, iteration, run_loop,
}
use decentralised_interledge.Node.Tasks.{
  Host, process_initiator_event, verify_transfer, process_timeout,
}
use decentralised_interledge.Interfaces.{Transfer, NodeConfig}
use decentralised_interledge.Register.{get_timed_out_transfers}
use decentralised_interledge.Node.Ends.{gather_ends}

module _ {W : Type 0} (env : Env W) where
  -- What follows a call, or a phase, can end if it can end wherever it starts.
  proceed_ends :
      {A : Type 0} (p : Result A × System W) (f : List ℕ → A → System W → Outcome × System W)
      → ((a : A) (s : System W) → (order : List ℕ) × ((f order a s).0 ≢ pending))
      → (order : List ℕ) × ((proceed p (f order)).0 ≢ pending)
  proceed_ends (ok a, s) f h = h a s
  proceed_ends (err e, s) f h = ([], λ same. cc)

  next_ends :
      {X : Type 0} (x : X) (p : Outcome × System W) (f : X → System W → Outcome × System W)
      → p.0 ≢ pending
      → ((s : System W) → (x : X) × ((f x s).0 ≢ pending))
      → (x : X) × ((next p (f x)).0 ≢ pending)
  next_ends x (finished, s) f ended h = h s
  next_ends x (failed e, s) f ended h = (x, λ same. cc)
  next_ends x (pending, s) f ended h = absurd (ended refl)

  -- A phase that the options leave out ends at once.
  if_ends :
      (b : Bool) (f : List ℕ → System W → Outcome × System W) (s : System W)
      → (order : List ℕ) × ((f order s).0 ≢ pending)
      → (order : List ℕ) × ((if b then f order s else (finished, s)).0 ≢ pending)
  if_ends true f s h = h
  if_ends false f s h = ([], λ same. cc)

  module _ (host : Host) (config : NodeConfig) where
    initiator_events_end :
        (s : System W)
        → (order : List ℕ) × ((process_initiator_events env host config order s).0 ≢ pending)
    unfolding process_initiator_events
    initiator_events_end s =
        proceed_ends (run env (call listen_for_events) s)
          (λ order events s'.
            gather env order (map (process_initiator_event host config) events) s')
          λ events s'. gather_ends env (map (process_initiator_event host config) events) s'

    verifications_end :
        (s : System W)
        → (order : List ℕ) × ((process_verifications env host config order s).0 ≢ pending)
    unfolding process_verifications
    verifications_end s =
        proceed_ends (run env (call monitor_confirmations) s)
          (λ order ids s'.
            gather env order (map (verify_transfer host) (found_transfers ids s'.register)) s')
          λ ids s'.
            gather_ends env (map (verify_transfer host) (found_transfers ids s'.register)) s'

    timeouts_end :
        (readings : Transfer → ℕ × ℕ) (s : System W)
        → (order : List ℕ) × ((process_timeouts env host config order readings s).0 ≢ pending)
    unfolding process_timeouts
    timeouts_end readings s =
        proceed_ends (get_timed_out_transfers host.depth config readings s.register, s)
          (λ order transfers s'. gather env order (map (process_timeout config) transfers) s')
          λ transfers s'. gather_ends env (map (process_timeout config) transfers) s'

    iteration_ends :
        (readings : Transfer → ℕ × ℕ) (s : System W)
        → (round : Round) × (round.readings ≡ readings)
          × ((iteration env host config round s).0 ≢ pending)
    unfolding iteration
    iteration_ends readings s =
        let (e, e_ends) = initiator_events_end s in
        let events = process_initiator_events env host config e s in
        let verify =
          λ (order : List ℕ) (s' : System W). process_verifications env host config order s' in
        let settle =
          λ (order : List ℕ) (s' : System W). process_timeouts env host config order readings s' in
        let (v, v_ends) =
          next_ends [] events
            (λ order s'. if config.verification_enabled then verify order s' else (finished, s'))
            e_ends λ s'. if_ends config.verification_enabled verify s' (verifications_end s') in
        let verifications =
          next events λ s'. if config.verification_enabled then verify v s' else (finished, s') in
        let (t, t_ends) =
          next_ends [] verifications
            (λ order s'. if config.timeout_enabled then settle order s' else (finished, s')) v_ends
            λ s'. if_ends config.timeout_enabled settle s' (timeouts_end readings s') in
        (
          record {
            event_order = e;
            verification_order = v;
            timeout_order = t;
            readings = readings;
          },
          refl,
          t_ends,
        )

    -- The loop never has to wait for a task that cannot end: whatever the ledgers answer and the
    -- clock shows, for any number of rounds there are orders of the tasks in which every round
    -- comes to its end, so that the loop returns or raises.
    pub run_loop_ends :
        (clocks : List (Transfer → ℕ × ℕ)) (s : System W)
        → (rounds : List Round) × (map (λ (r : Round). r.readings) rounds ≡ clocks)
          × ((run_loop env host config rounds s).0 ≢ pending)
    unfolding run_loop
    run_loop_ends [] s = ([], refl, λ same. cc)
    run_loop_ends (readings ∷ clocks) s =
        let (round, same, ended) = iteration_ends readings s in
        let (others, others_same, _) = run_loop_ends clocks s in
        let ((rounds, all_same), all_ended) =
          next_ends {X = (rounds : List Round) × (map (λ (r : Round). r.readings) rounds ≡ clocks)}
            (others, others_same) (iteration env host config round s)
            (λ x. run_loop env host config x.0) ended
            λ s'. let (rounds, known, over) = run_loop_ends clocks s' in ((rounds, known), over) in
        (round ∷ rounds, ground (arith, same, all_same), all_ended)
