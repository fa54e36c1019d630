-- ===== src/Node/Trace.antt =====
-- What holds of a log and of every longer one that an environment answers, holds of the log of a
-- loop; so each answer in the log is one that the environment gave.
use mathlib.Core.Path.{subst}
use decentralised_interledge.Prelude.{
  ◌⊎◌, ℕ, List, [], ◌∷◌, Result, ok, err, ◌≡◌, refl, inl, inr, get_elem?, Option-cases, Bool, true,
  false, if◌then◌else◌,
}
use decentralised_interledge.Interfaces.{NodeConfig}
use decentralised_interledge.Register.{get_timed_out_transfers}
use decentralised_interledge.Node.Calls.{
  Call, Reply, Coro, ret, raise, await, add, drop, registered, time, call, listen_for_events,
  monitor_confirmations,
}
use decentralised_interledge.Node.Tasks.{Host}
use decentralised_interledge.Node.System.{
  Env, System, Log, Observation, answered, resume, turn, turns, run, new_system,
}
use decentralised_interledge.Node.Protocol.{
  Seen, here, there, IsAllowed, IsJustified, IsAllowed-Extends,
}
use decentralised_interledge.Node.Loop.{
  Round, Outcome, finished, failed, pending, next, proceed, gather, process_initiator_events,
  process_verifications, process_timeouts, iteration, run_loop,
}
use decentralised_interledge.Node.Guarantees.{run-call}

-- The predicate is kept by each answer of the environment.
abbrev pub IsKept {ℓ} : {W : Type 0} → Env W → (Log → Type ℓ) → Type ℓ
IsKept {W} env P = (c : Call) (w : W) (log : Log) → P log → P (answered c (env.answer c w).0 ∷ log)

module _ {ℓ} {W : Type 0} (env : Env W) (P : Log → Type ℓ) (kept : IsKept env P) where
  resume-Kept :
      {A : Type 0} (c : Call) (k : Reply c → Coro A) (s : System W) (a : Result (Reply c) × W)
      → P (answered c a.0 ∷ s.log)
      → P (resume c k s a).1.log
  unfolding resume
  resume-Kept c k s (ok x, w) p = p
  resume-Kept c k s (err e, w) p = p

  turn-Kept : {A : Type 0} (m : Coro A) (s : System W) → P s.log → P (turn env m s).1.log
  unfolding turn
  turn-Kept (ret a) s p = p
  turn-Kept (raise e) s p = p
  turn-Kept (await c k) s p = resume-Kept c k s (env.answer c s.world) (kept c s.world s.log p)
  turn-Kept (add t k) s p = turn-Kept k _ p
  turn-Kept (drop i k) s p = turn-Kept k _ p
  turn-Kept (registered k) s p = turn-Kept (k s.register) s p
  turn-Kept (time k) s p = turn-Kept (k (env.clock s.world).0) _ p

  turns-Kept :
      (order : List ℕ) (tasks : List (Coro (Unit {0}))) (s : System W)
      → P s.log
      → P (turns env order tasks s).1.log
  unfolding turns
  turns-Kept [] tasks s p = p
  turns-Kept (i ∷ order) tasks s p = elim (Option-cases (get_elem? tasks i)) [
    | inl absent ↦ rw (absent, turns) (turns-Kept order tasks s p)
    | inr (m, e) ↦ rw (e, turns) (turns-Kept order _ _ (turn-Kept m s p))
  ]

  call-Kept : (c : Call) (s : System W) → P s.log → P (run env (call c) s).1.log
  call-Kept c s p = rw (run-call env c s) (kept c s.world s.log p)

  next-Kept :
      (r : Outcome × System W) (f : System W → Outcome × System W)
      → P r.1.log
      → ((s : System W) → P s.log → P (f s).1.log)
      → P (next r f).1.log
  next-Kept (finished, s) f p h = h s p
  next-Kept (failed e, s) f p h = p
  next-Kept (pending, s) f p h = p

  proceed-Kept :
      {A : Type 0} (r : Result A × System W) (f : A → System W → Outcome × System W)
      → P r.1.log
      → ((a : A) → P (f a r.1).1.log)
      → P (proceed r f).1.log
  proceed-Kept (ok a, s) f p h = h a
  proceed-Kept (err e, s) f p h = p

  if-Kept :
      (b : Bool) (r q : Outcome × System W) → P r.1.log → P q.1.log → P (if b then r else q).1.log
  if-Kept true r q p p' = p
  if-Kept false r q p p' = p'

  module _ (host : Host) (config : NodeConfig) where
    iteration-Kept :
        (round : Round) (s : System W) → P s.log → P (iteration env host config round s).1.log
    unfolding iteration process_initiator_events process_verifications process_timeouts gather
    iteration-Kept round s p =
        next-Kept (next events _) _
          (next-Kept events _
            (proceed-Kept (run env (call listen_for_events) s) _ (call-Kept listen_for_events s p)
              λ es. turns-Kept round.event_order _ _ (call-Kept listen_for_events s p))
            λ s' p'.
              if-Kept config.verification_enabled _ _
                (proceed-Kept (run env (call monitor_confirmations) s') _
                  (call-Kept monitor_confirmations s' p')
                  λ ids.
                    turns-Kept round.verification_order _ _ (call-Kept monitor_confirmations s' p'))
                p')
          λ s' p'.
            if-Kept config.timeout_enabled _ _
              (proceed-Kept
                (get_timed_out_transfers host.depth config round.readings s'.register, s') _ p'
                λ ts. turns-Kept round.timeout_order _ _ p')
              p'
      where
        events : Outcome × System W
        events = process_initiator_events env host config round.event_order s

    pub run_loop-Kept :
        (rounds : List Round) (s : System W) → P s.log → P (run_loop env host config rounds s).1.log
    unfolding run_loop
    run_loop-Kept [] s p = p
    run_loop-Kept (round ∷ rounds) s p =
        next-Kept (iteration env host config round s) (run_loop env host config rounds)
          (iteration-Kept round s p) (run_loop-Kept rounds)

-- The environment gave this answer, in some state of the world.
abbrev pub IsGiven : {W : Type 0} → Env W → Observation → Type 0
IsGiven {W} env (answered c r) = (w : W) × ((env.answer c w).0 ≡ r)

abbrev pub IsFrom : {W : Type 0} → Env W → Log → Type 0
IsFrom {W} env log = (o : Observation) → Seen o log → IsGiven env o

Seen-inv : {o x : Observation} {log : Log} → Seen o (x ∷ log) → (x ≡ o) ⊎ Seen o log
Seen-inv (here e) = inl e
Seen-inv (there p) = inr p

IsFrom-IsKept : {W : Type 0} (env : Env W) → IsKept env (IsFrom env)
IsFrom-IsKept env c w log h o p = elim (Seen-inv p) [
  | inl e ↦ subst (IsGiven env) e (w, refl)
  | inr earlier ↦ h o earlier
]

pub run_loop-IsFrom :
    {W : Type 0} (env : Env W) (host : Host) (config : NodeConfig) (rounds : List Round) (world : W)
    → IsFrom env (run_loop env host config rounds (new_system world)).1.log
run_loop-IsFrom env host config rounds world =
    run_loop-Kept env (IsFrom env) (IsFrom-IsKept env) host config rounds (new_system world) empty
  where
    empty : IsFrom env []
    empty o p = elim p [ ]

abbrev IsAsked : Log → Observation → Type 0
IsAsked log (answered c r) = IsAllowed log c

-- What was asked for was allowed when it was, so it is allowed by the whole log.
pub IsJustified-Seen :
    (log : Log) (c : Call) (r : Result (Reply c))
    → IsJustified log
    → Seen (answered c r) log
    → IsAllowed log c
IsJustified-Seen [] c r h p = elim p [ ]
IsJustified-Seen (answered d q ∷ log) c r (allowed, h) p = elim (Seen-inv p) [
  | inl e ↦
      IsAllowed-Extends log (answered d q ∷ log) (λ o s. there s) c (subst (IsAsked log) e allowed)
  | inr earlier ↦
      IsAllowed-Extends log (answered d q ∷ log) (λ o s. there s) c
        (IsJustified-Seen log c r h earlier)
]
