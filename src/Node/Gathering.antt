-- ===== src/Node/Gathering.antt =====
-- The tasks that a phase of the loop gathers keep what one turn of a coroutine keeps.
use mathlib.Core.Path.{subst}
use decentralised_interledge.Prelude.{
  ℕ, zero, suc, some, List, [], ◌∷◌, map, ◌≡◌, inl, inr, All, get_elem?, set, Option-cases,
}
use decentralised_interledge.Prelude.Dict.{values}
use decentralised_interledge.Interfaces.{Transfer, NodeConfig, Event}
use decentralised_interledge.Register.{Register, find_transfer_by_initiator_id}
use decentralised_interledge.Register.Laws.{first_with_initiator_id-All}
use decentralised_interledge.Node.Calls.{Coro}
use decentralised_interledge.Node.Tasks.{
  Host, process_initiator_event, verify_transfer, process_timeout,
}
use decentralised_interledge.Node.System.{Env, System, Log, turn, turns}
use decentralised_interledge.Node.Protocol.{Extends, IsKnown, AreKnown, Obeys, Obeys-Extends}
use decentralised_interledge.Node.Obedience.{
  process_initiator_event-Obeys, verify_transfer-Obeys, process_timeout-Obeys,
}
use decentralised_interledge.Node.Safety.{
  IsSound, Advances, Advances-refl, Advances-trans, turn-Goes,
}
use decentralised_interledge.Node.Loop.{found_transfers, gather}

-- Every task that is left obeys, at the log as it is.
abbrev pub AllObey : Log → List (Coro (Unit {0})) → Type 0
AllObey log = All (λ m. Obeys log m)

AllObey-Extends :
    (log log' : Log) (tasks : List (Coro (Unit {0})))
    → Extends log log'
    → AllObey log tasks
    → AllObey log' tasks
AllObey-Extends log log' [] x h = tt
AllObey-Extends log log' (m ∷ tasks) x h =
    (Obeys-Extends log log' x m h.0, AllObey-Extends log log' tasks x h.1)

get_elem?-AllObey :
    (log : Log) (tasks : List (Coro (Unit {0}))) (i : ℕ) (m : Coro (Unit {0}))
    → AllObey log tasks
    → get_elem? tasks i ≡ some m
    → Obeys log m
get_elem?-AllObey log [] i m h e = cc
get_elem?-AllObey log (x ∷ tasks) zero m h e = let same : x ≡ m = cc in subst (Obeys log) same h.0
get_elem?-AllObey log (x ∷ tasks) (suc i) m h e = get_elem?-AllObey log tasks i m h.1 e

set-AllObey :
    (log : Log) (tasks : List (Coro (Unit {0}))) (i : ℕ) (m : Coro (Unit {0}))
    → AllObey log tasks
    → Obeys log m
    → AllObey log (set tasks i m)
set-AllObey log [] i m h o = tt
set-AllObey log (x ∷ tasks) zero m h o = (o, h.1)
set-AllObey log (x ∷ tasks) (suc i) m h o = (h.0, set-AllObey log tasks i m h.1 o)

module _ {W : Type 0} (env : Env W) where
  -- The tasks of a `gather`, in any order of turns, from a sound system.
  turns-Advances :
      (order : List ℕ) (tasks : List (Coro (Unit {0}))) (s : System W)
      → IsSound s
      → AllObey s.log tasks
      → Advances s (turns env order tasks s).1
  unfolding turns
  turns-Advances [] tasks s h o = Advances-refl s h
  turns-Advances (i ∷ order) tasks s h o = elim (Option-cases (get_elem? tasks i)) [
    | inl absent ↦ rw (absent, turns) (turns-Advances order tasks s h o)
    | inr (m, e) ↦
        let (a, om) = turn-Goes env m s h (get_elem?-AllObey s.log tasks i m o e) in
        let s' = (turn env m s).1 in
        let left =
          set-AllObey s'.log tasks i (turn env m s).0
            (AllObey-Extends s.log s'.log tasks a.extends o) om in
        rw (e, turns) (Advances-trans a (turns-Advances order _ s' a.sound left))
  ]

  pub gather-Advances :
      (order : List ℕ) (tasks : List (Coro (Unit {0}))) (s : System W)
      → IsSound s
      → AllObey s.log tasks
      → Advances s (gather env order tasks s).1
  unfolding gather
  gather-Advances order tasks s h o = turns-Advances order tasks s h o

-- The tasks that each phase starts obey.
pub events-AllObey :
    (host : Host) (config : NodeConfig) (log : Log) (es : List Event)
    → AllObey log (map (process_initiator_event host config) es)
events-AllObey host config log [] = tt
events-AllObey host config log (e ∷ es) =
    (process_initiator_event-Obeys host config e log, events-AllObey host config log es)

pub verifications-AllObey :
    (host : Host) (log : Log) (ts : List Transfer)
    → All (IsKnown log) ts
    → AllObey log (map (verify_transfer host) ts)
verifications-AllObey host log [] h = tt
verifications-AllObey host log (t ∷ ts) h =
    (verify_transfer-Obeys host t log h.0, verifications-AllObey host log ts h.1)

pub timeouts-AllObey :
    (config : NodeConfig) (log : Log) (ts : List Transfer)
    → All (IsKnown log) ts
    → AllObey log (map (process_timeout config) ts)
timeouts-AllObey config log [] h = tt
timeouts-AllObey config log (t ∷ ts) h =
    (process_timeout-Obeys config t log h.0, timeouts-AllObey config log ts h.1)

pub values-AreKnown : (log : Log) (s : Register) → AreKnown log s → All (IsKnown log) (values s)
values-AreKnown log [] h = tt
values-AreKnown log ((k, t) ∷ s) (i, known, rest) = (known, values-AreKnown log s rest)

pub found_transfers-AreKnown :
    (log : Log) (ids : List ℕ) (s : Register)
    → AreKnown log s
    → All (IsKnown log) (found_transfers ids s)
unfolding found_transfers find_transfer_by_initiator_id
found_transfers-AreKnown log [] s h = tt
found_transfers-AreKnown log (id ∷ ids) s h =
    elim (Option-cases (find_transfer_by_initiator_id id s)) [
      | inl absent ↦ rw (absent, found_transfers) (found_transfers-AreKnown log ids s h)
      | inr (t, e) ↦
          rw (e, found_transfers)
            (
              first_with_initiator_id-All (IsKnown log) id (values s) t (values-AreKnown log s h) e,
              found_transfers-AreKnown log ids s h,
            )
    ]
