-- ===== src/Node/Credits/Phases.antt =====
-- The balance at the ends of a phase: what the tasks that it starts hold, and what it leaves.
use mathlib.Core.Path.{subst}
use decentralised_interledge.Prelude.{
  ℕ, ◌+◌, ◌≤◌, Bool, true, false, List, [], ◌∷◌, map, Result, ok, err, ◌≡◌, refl, >>=_inv,
  if◌then◌else◌, arith, Bool-cases, inl, inr,
}
use decentralised_interledge.Prelude.Dict.{values}
use decentralised_interledge.Interfaces.{Transfer, NodeConfig, Event}
use decentralised_interledge.Register.{Register, due_among, is_due}
use decentralised_interledge.Node.Tasks.{
  Host, process_initiator_event, verify_transfer, process_timeout,
}
use decentralised_interledge.Node.System.{System}
use decentralised_interledge.Node.Loop.{Outcome, finished, failed, pending, next, proceed}
use decentralised_interledge.Node.Credits.{
  AreKeyed, closings, reported, uncovered, Stance, idle, holding, spent,
}
use decentralised_interledge.Node.Credits.Gathers.{weights, any_covers, AllPlay, AreBalanced}
use decentralised_interledge.Node.Credits.Roles.{
  process_initiator_event-Plays, verify_transfer-Plays, process_timeout-Plays,
}
use decentralised_interledge.Node.Credits.Settling.{covered_more}

module _ {W : Type 0} (i : ℕ) where
  -- What holds at the end of a phase: nothing is closed more often than it was reported, and the
  -- credits are in the register if the phase has returned.
  abbrev pub IsFair : Outcome × System W → Type 0
  IsFair (finished, s) = AreBalanced i [] s
  IsFair (failed e, s) = closings i s.log ≤ reported i s.log
  IsFair (pending, s) = closings i s.log ≤ reported i s.log

  pub bounded :
      (stances : List Stance) (s : System W)
      → AreBalanced i stances s
      → closings i s.log ≤ reported i s.log
  bounded stances s b = omega (arith, b.balance)

  pub IsFair-bounded : (p : Outcome × System W) → IsFair p → closings i p.1.log ≤ reported i p.1.log
  IsFair-bounded (finished, s) h = bounded [] s h
  IsFair-bounded (failed e, s) h = h
  IsFair-bounded (pending, s) h = h

  pub ended-IsFair :
      (o : Outcome) (s : System W)
      → (o ≡ finished → AreBalanced i [] s)
      → closings i s.log ≤ reported i s.log
      → IsFair (o, s)
  ended-IsFair finished s h b = h refl
  ended-IsFair (failed e) s h b = b
  ended-IsFair pending s h b = b

  pub next-IsFair :
      (p : Outcome × System W) (f : System W → Outcome × System W)
      → IsFair p
      → ((s : System W) → AreBalanced i [] s → IsFair (f s))
      → IsFair (next p f)
  next-IsFair (finished, s) f b h = h s b
  next-IsFair (failed e, s) f b h = b
  next-IsFair (pending, s) f b h = b

  pub proceed-IsFair :
      {A : Type 0} (p : Result A × System W) (f : A → System W → Outcome × System W)
      → AreBalanced i [] p.1
      → ((a : A) → p.0 ≡ ok a → IsFair (f a p.1))
      → IsFair (proceed p f)
  proceed-IsFair (ok a, s) f b h = h a refl
  proceed-IsFair (err e, s) f b h = bounded [] s b

  pub if-IsFair :
      (b : Bool) (p q : Outcome × System W) → IsFair p → IsFair q → IsFair (if b then p else q)
  if-IsFair true p q x y = x
  if-IsFair false p q x y = y

  pub idle_tasks :
      {X : Type 0} (xs : List X) (s : System W)
      → AreBalanced i [] s
      → AreBalanced i (map (λ _. idle) xs) s
  idle_tasks [] s b = b
  idle_tasks (x ∷ xs) s b =
      let rest = idle_tasks xs s b in
      record { orderly = b.orderly; balance = omega (arith, rest.balance) }

  pub spent_tasks :
      {X : Type 0} (xs : List X) (s : System W)
      → AreBalanced i [] s
      → AreBalanced i (map (λ _. spent) xs) s
  spent_tasks [] s b = b
  spent_tasks (x ∷ xs) s b =
      let rest = spent_tasks xs s b in
      record { orderly = b.orderly; balance = omega (arith, rest.balance) }

pub events-AllPlay :
    (host : Host) (config : NodeConfig) (es : List Event)
    → AllPlay (map (λ _. idle) es) (map (process_initiator_event host config) es)
events-AllPlay host config [] = tt
events-AllPlay host config (e ∷ es) =
    (process_initiator_event-Plays host config e, events-AllPlay host config es)

pub verifications-AllPlay :
    (host : Host) (ts : List Transfer)
    → AllPlay (map (λ _. spent) ts) (map (verify_transfer host) ts)
verifications-AllPlay host [] = tt
verifications-AllPlay host (t ∷ ts) = (verify_transfer-Plays host t, verifications-AllPlay host ts)

pub timeouts-AllPlay :
    (config : NodeConfig) (ts : List Transfer)
    → AllPlay (map holding ts) (map (process_timeout config) ts)
timeouts-AllPlay config [] = tt
timeouts-AllPlay config (t ∷ ts) = (process_timeout-Plays config t, timeouts-AllPlay config ts)

-- The registered transfers that neither stand in the list nor are left out by it, with the list.
abbrev pub credits_of : ℕ → List Transfer → Register → ℕ
credits_of i due s = weights i (map holding due) + uncovered i (any_covers (map holding due)) s

-- The transfers that are due take their credits with them.
pub due_credits :
    (i depth : ℕ) (config : NodeConfig) (clock : Transfer → ℕ × ℕ) (s : Register)
    (due : List Transfer)
    → AreKeyed s
    → due_among depth config clock (values s) ≡ ok due
    → credits_of i due s ≤ uncovered i (λ k j. false) s
unfolding due_among
due_credits i depth config clock [] due keyed e =
    let none_due : [] ≡ due = cc in subst (λ d. credits_of i d [] ≤ 0) none_due (omega arith)
due_credits i depth config clock ((k, t) ∷ s) due (key, keyed) e =
    let (mine, e', _) = >>=_inv (is_due depth config clock t) _ e in
    let (rest, e'', er) = >>=_inv (due_among depth config clock (values s)) _ e' in
    let ih = due_credits i depth config clock s rest keyed er in
    elim (Bool-cases mine) [
      | inl m ↦
          let same : t ∷ rest ≡ due = ground arith in
          subst (λ d. credits_of i d ((k, t) ∷ s) ≤ uncovered i (λ k j. false) ((k, t) ∷ s)) same
            (ground (arith, ih, key, covered_more i (any_covers (map holding rest)) t s))
      | inr m ↦
          let same : rest ≡ due = ground arith in
          subst (λ d. credits_of i d ((k, t) ∷ s) ≤ uncovered i (λ k j. false) ((k, t) ∷ s)) same
            (ground (arith, ih))
    ]
