-- ===== src/Node/Credits/Settling.antt =====
-- What the tasks of a phase held stands in the register where all of them have returned.
use mathlib.Core.Path.{subst}
use decentralised_interledge.Prelude.{
  ℕ, ◌+◌, ◌≤◌, Bool, ◌||◌, ◌==◌, List, [], ◌∷◌, ◌≡◌, refl, sym, ◌≢◌, arith, Bool-cases, inl, inr,
  ==_iff,
}
use decentralised_interledge.Prelude.Dict.{HasUniqueKeys, IsAbsent}
use decentralised_interledge.Interfaces.{Transfer}
use decentralised_interledge.Register.{Register}
use decentralised_interledge.Node.Calls.{Coro, ret, raise, await, add, drop, registered, time}
use decentralised_interledge.Node.System.{System}
use decentralised_interledge.Node.Loop.{Outcome, finished, failed, pending, behind, outcome_of}
use decentralised_interledge.Node.Credits.{
  one_if, uncovered, Stance, idle, holding, dropping, spent, covers,
}
use decentralised_interledge.Node.Credits.Gathers.{any_covers, AllPlay, AreBalanced}

module _ (i : ℕ) (C : ℕ → ℕ → Bool) (t : Transfer) where
  absent-uncovered :
      (s : Register)
      → IsAbsent t.id s
      → uncovered i C s ≡ uncovered i (λ k j. covers (holding t) k j || C k j) s
  absent-uncovered [] h = refl
  absent-uncovered ((k, u) ∷ s) (ne, h) = ground (arith, ne, absent-uncovered s h)

  -- A task that has ended holding a credit leaves at most one registered transfer to it.
  holding-uncovered :
      (s : Register)
      → HasUniqueKeys s
      → uncovered i C s
        ≤ one_if (t.initiator_id == i) + uncovered i (λ k j. covers (holding t) k j || C k j) s
  holding-uncovered [] h = omega arith
  holding-uncovered ((k, u) ∷ s) (absent, h) = elim (Bool-cases (t.id == k)) [
    | inl same ↦
        let key = (==_iff t.id k).0 same in
        ground (arith, same, absent-uncovered s (subst (λ j. IsAbsent j s) (sym key) absent))
    | inr other ↦ ground (arith, other, holding-uncovered s h)
  ]

  -- What a task covers besides is not less.
  pub covered_more :
      (s : Register) → uncovered i (λ k j. covers (holding t) k j || C k j) s ≤ uncovered i C s
  covered_more [] = omega arith
  covered_more ((k, u) ∷ s) = ground (arith, covered_more s)

behind-ne-finished : (o : Outcome) → behind o ≢ finished
behind-ne-finished finished e = cc
behind-ne-finished (failed x) e = cc
behind-ne-finished pending e = cc

module _ {W : Type 0} (i : ℕ) where
  -- Where all tasks have returned, what they hold stands in the register.
  pub settled :
      (stances : List Stance) (tasks : List (Coro (Unit {0}))) (s : System W)
      → AllPlay stances tasks
      → outcome_of tasks ≡ finished
      → AreBalanced i stances s
      → AreBalanced i [] s
  unfolding outcome_of
  settled [] [] s p e b = b
  settled [] (m ∷ tasks) s p e b = absurd p
  settled (σ ∷ stances) [] s p e b = absurd p
  settled (idle ∷ stances) (ret _ ∷ tasks) s p e b = absurd p.0
  settled (dropping t ∷ stances) (ret _ ∷ tasks) s p e b = absurd p.0
  settled (holding t ∷ stances) (ret _ ∷ tasks) s p e b = settled stances tasks s p.1 e (record {
    orderly = b.orderly;
    balance =
        omega (arith, b.balance, holding-uncovered i (any_covers stances) t s.register b.orderly.0);
  })
  settled (spent ∷ stances) (ret _ ∷ tasks) s p e b =
      settled stances tasks s p.1 e
        (record { orderly = b.orderly; balance = omega (arith, b.balance) })
  settled (σ ∷ stances) (raise x ∷ tasks) s p e b = cc
  settled (σ ∷ stances) (await c k ∷ tasks) s p e b =
      absurd (behind-ne-finished (outcome_of tasks) e)
  settled (σ ∷ stances) (add t k ∷ tasks) s p e b = absurd (behind-ne-finished (outcome_of tasks) e)
  settled (σ ∷ stances) (drop j k ∷ tasks) s p e b =
      absurd (behind-ne-finished (outcome_of tasks) e)
  settled (σ ∷ stances) (registered k ∷ tasks) s p e b =
      absurd (behind-ne-finished (outcome_of tasks) e)
  settled (σ ∷ stances) (time k ∷ tasks) s p e b = absurd (behind-ne-finished (outcome_of tasks) e)
