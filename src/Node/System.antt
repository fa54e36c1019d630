-- ===== src/Node/System.antt =====
-- How coroutines run: one at a time, on one register, against an environment that answers each
-- call with a value or an exception. A turn of a task ends with the answer to its next call; the
-- tasks of `asyncio.gather` take their turns in any order, which a schedule gives.
use decentralised_interledge.Prelude.{ℕ, none, some, List, [], ◌∷◌, Result, ok, err, get_elem?, set}
use decentralised_interledge.Register.{Register, register_transfer, deregister_transfer}
use decentralised_interledge.Node.Calls.{
  Call, Reply, Coro, ret, raise, await, add, drop, registered, time,
}

pub record Env (W : Type 0) : Type 0 where
  pub answer : (c : Call) → W → Result (Reply c) × W
  pub clock : W → ℕ × W

-- A call with its answer.
pub data Observation : Type 0 where
  answered : (c : Call) → Result (Reply c) → Observation

-- Newest first.
abbrev pub Log : Type 0
Log = List Observation

pub record System (W : Type 0) : Type 0 where
  pub register : Register
  pub world : W
  pub log : Log

-- A node as `__init__` leaves it: nothing registered, nothing seen.
abbrev pub new_system : {W : Type 0} → W → System W
new_system world = record { register = []; world = world; log = [] }

-- What is left of a coroutine after the answer to its call.
unfoldable pub resume :
    {W A : Type 0} (c : Call)
    → (Reply c → Coro A)
    → System W
    → Result (Reply c) × W
    → Coro A × System W
resume c k s (ok x, w) = (k x, record s { world = w; log = answered c (ok x) ∷ s.log })
resume c k s (err e, w) = (raise e, record s { world = w; log = answered c (err e) ∷ s.log })

module _ {W : Type 0} (env : Env W) where
  -- One turn of a coroutine: it runs up to its next call and takes the answer.
  unfoldable pub turn : {A : Type 0} → Coro A → System W → Coro A × System W
  unfolding resume
  turn (ret a) s = (ret a, s)
  turn (raise e) s = (raise e, s)
  turn (await c k) s = resume c k s (env.answer c s.world)
  turn (add t k) s = turn k (record s { register = register_transfer t s.register })
  turn (drop i k) s = turn k (record s { register = (deregister_transfer i s.register).1 })
  turn (registered k) s = turn (k s.register) s
  turn (time k) s = let (n, w) = env.clock s.world in turn (k n) (record s { world = w })

  -- A coroutine that runs alone, to its end.
  unfoldable pub run : {A : Type 0} → Coro A → System W → Result A × System W
  run (ret a) s = (ok a, s)
  run (raise e) s = (err e, s)
  run (await c k) s =
      let (r, w) = env.answer c s.world in
      let s' = record s { world = w; log = answered c r ∷ s.log } in
      elim r [ ok x ↦ run (k x) s' | err e ↦ (err e, s') ]
  run (add t k) s = run k (record s { register = register_transfer t s.register })
  run (drop i k) s = run k (record s { register = (deregister_transfer i s.register).1 })
  run (registered k) s = run (k s.register) s
  run (time k) s = let (n, w) = env.clock s.world in run (k n) (record s { world = w })

  -- The tasks of a `gather` under a schedule; a turn of a task that is not there is none.
  unfoldable pub turns :
      List ℕ → List (Coro (Unit {0})) → System W → List (Coro (Unit {0})) × System W
  turns [] tasks s = (tasks, s)
  turns (i ∷ schedule) tasks s = elim (get_elem? tasks i) [
    | none ↦ turns schedule tasks s
    | some task ↦ let (task', s') = turn task s in turns schedule (set tasks i task') s'
  ]
