-- ===== src/Node/Running.antt =====
-- Runs of a single coroutine to its end, against ledgers that do not change meanwhile: what one
-- call and one drop add to a run.
use mathlib.Core.Path.{subst}
use decentralised_interledge.Prelude.{ℕ, Option, none, some, ◌∷◌, Result, ok, err, ◌≡◌, refl, sym}
use decentralised_interledge.Prelude.Dict.{erase}
use decentralised_interledge.Interfaces.{Transfer, ErrorCode}
use decentralised_interledge.Register.{deregister_transfer}
use decentralised_interledge.Node.Calls.{
  Call, Reply, Coro, await, drop, ret, commit_sending, abort_sending,
}
use decentralised_interledge.Node.System.{Env, System, Log, answered, run}

-- Ledgers that give one answer to each call.
abbrev pub steady : ((c : Call) → Result (Reply c)) → ℕ → Env (Unit {0})
steady reply now = record { answer = λ c w. (reply c, w); clock = λ w. (now, w) }

-- The log with one more call and its value.
abbrev pub note : (s : System (Unit {0})) (c : Call) → Reply c → System (Unit {0})
note s c x = record s { log = answered c (ok x) ∷ s.log }

module _ (reply : (c : Call) → Result (Reply c)) (now : ℕ) where
  -- What follows the answer to a call.
  abbrev run_answered :
      {A : Type 0} (c : Call)
      → (Reply c → Coro A)
      → System (Unit {0})
      → Result (Reply c)
      → Result A × System (Unit {0})
  run_answered c k s r =
      let s' = record s { log = answered c r ∷ s.log } in
      elim r [ ok x ↦ run (steady reply now) (k x) s' | err e ↦ (err e, s') ]

  -- A call that returns x: the run goes on with x. A call that raises ends it.
  pub run_then :
      {A : Type 0} {c : Call} (k : Reply c → Coro A) (s : System (Unit {0})) {x : Reply c}
      {out : Result A × System (Unit {0})}
      → reply c ≡ ok x
      → run (steady reply now) (k x) (note s c x) ≡ out
      → run (steady reply now) (await c k) s ≡ out
  unfolding run
  run_then {c} k s {out} e h = subst (λ r. run_answered c k s r ≡ out) (sym e) h

  pub run_ret :
      {A : Type 0} (a : A) (s : System (Unit {0})) → run (steady reply now) (ret a) s ≡ (ok a, s)
  unfolding run
  run_ret a s = refl

  pub run-drop :
      {A : Type 0} (i : ℕ) (k : Coro A) (s : System (Unit {0}))
      → run (steady reply now) (drop i k) s
        ≡ run (steady reply now) k (record s { register = erase i s.register })
  unfolding run deregister_transfer
  run-drop i k s = refl

-- A call has been made and has returned x.
abbrev pub noted : (c : Call) → Reply c → Log → Log
noted c x log = answered c (ok x) ∷ log

-- The call that ends a transfer at the initiator.
abbrev pub closing : Transfer → Option ErrorCode → Call
closing t none = commit_sending t.initiator_id
closing t (some e) = abort_sending t.initiator_id e
