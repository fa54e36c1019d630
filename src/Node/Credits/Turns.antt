-- ===== src/Node/Credits/Turns.antt =====
-- A turn of a task keeps the balance.
use mathlib.Core.Path.{subst}
use decentralised_interledge.Prelude.{
  ℕ, ◌≤◌, Bool, true, false, ◌||◌, [], ◌∷◌, Result, ok, err, ◌≡◌, refl, arith,
}
use decentralised_interledge.Prelude.Dict.{
  HasUniqueKeys, IsAbsent, insert, erase, insert-HasUniqueKeys, erase-HasUniqueKeys,
}
use decentralised_interledge.Interfaces.{Transfer}
use decentralised_interledge.Register.{Register, register_transfer, deregister_transfer}
use decentralised_interledge.Node.Calls.{
  Call, Reply, Coro, ret, raise, await, add, drop, registered, time, process_event,
}
use decentralised_interledge.Node.System.{Env, System, answered, turn, resume}
use decentralised_interledge.Node.Credits.{
  AreKeyed, IsOrderly, uncovered, Stance, idle, holding, dropping, spent, covers, May, moved,
  MayLose, Plays, IsBalanced,
}

insert-AreKeyed : (t : Transfer) (s : Register) → AreKeyed s → AreKeyed (insert t.id t s)
insert-AreKeyed t [] h = (refl, tt)
insert-AreKeyed t (e ∷ s) h = ground (arith, h, insert-AreKeyed t s h.1)

erase-AreKeyed : (k : ℕ) (s : Register) → AreKeyed s → AreKeyed (erase k s)
erase-AreKeyed k [] h = tt
erase-AreKeyed k (e ∷ s) h = ground (arith, h, erase-AreKeyed k s h.1)

insert-IsOrderly : (t : Transfer) (s : Register) → IsOrderly s → IsOrderly (insert t.id t s)
insert-IsOrderly t s (unique, keyed) =
    (insert-HasUniqueKeys t.id t s unique, insert-AreKeyed t s keyed)

erase-IsOrderly : (k : ℕ) (s : Register) → IsOrderly s → IsOrderly (erase k s)
erase-IsOrderly k s (unique, keyed) = (erase-HasUniqueKeys k s unique, erase-AreKeyed k s keyed)

erase-IsAbsent_self : (k : ℕ) (s : Register) → HasUniqueKeys s → IsAbsent k (erase k s)
erase-IsAbsent_self k [] h = tt
erase-IsAbsent_self k ((j, u) ∷ s) (absent, h) = ground (arith, absent, erase-IsAbsent_self k s h)

module _ (i : ℕ) where
  -- A drop uncovers nothing.
  uncovered-erase :
      (covered : ℕ → ℕ → Bool) (k : ℕ) (s : Register)
      → uncovered i covered (erase k s) ≤ uncovered i covered s
  uncovered-erase covered k [] = omega arith
  uncovered-erase covered k (e ∷ s) = ground (arith, uncovered-erase covered k s)

  -- A transfer that is covered itself uncovers nothing where it is registered.
  uncovered-insert :
      (covered : ℕ → ℕ → Bool) (t : Transfer) (s : Register)
      → covered t.id t.initiator_id ≡ true
      → uncovered i covered (insert t.id t s) ≤ uncovered i covered s
  uncovered-insert covered t [] h = ground (arith, h)
  uncovered-insert covered t (e ∷ s) h = ground (arith, h, uncovered-insert covered t s h)

  -- What is about a key that is not there covers nothing.
  uncovered-IsAbsent :
      (C : ℕ → ℕ → Bool) (t : Transfer) (s : Register)
      → IsAbsent t.id s
      → uncovered i (λ k j. C k j || false) s
        ≡ uncovered i (λ k j. C k j || covers (holding t) k j) s
  uncovered-IsAbsent C t [] h = refl
  uncovered-IsAbsent C t ((k, u) ∷ s) (ne, h) = ground (arith, ne, uncovered-IsAbsent C t s h)

  -- To cover more uncovers nothing.
  uncovered_more :
      (C : ℕ → ℕ → Bool) (t : Transfer) (s : Register)
      → uncovered i (λ k j. C k j || covers (holding t) k j) s
        ≤ uncovered i (λ k j. C k j || false) s
  uncovered_more C t [] = omega arith
  uncovered_more C t ((k, u) ∷ s) = ground (arith, uncovered_more C t s)

-- What is left of a task behind a turn, with where it stands.
abbrev pub Balanced : {W : Type 0} → ℕ → ℕ → (ℕ → ℕ → Bool) → Coro (Unit {0}) × System W → Type 0
Balanced i n C (m, s) = (σ : Stance) × Plays σ m × IsBalanced i n C σ s

module _ {W : Type 0} (i n : ℕ) (C : ℕ → ℕ → Bool) where
  asked-IsBalanced :
      (σ : Stance) (c : Call) (r : Result (Reply c)) (w : W) (s : System W)
      → May σ c
      → IsBalanced i n C σ s
      → IsBalanced i n C (moved σ c r) (record s { world = w; log = answered c r ∷ s.log })
  asked-IsBalanced idle (process_event e) (ok t) w s may b = record {
    orderly = b.orderly;
    balance = omega (arith, b.balance, uncovered_more i C t s.register);
  }
  asked-IsBalanced idle (process_event e) (err x) w s may b = record {
    orderly = b.orderly;
    balance = omega (arith, b.balance);
  }
  asked-IsBalanced σ c r w s may b = record {
    orderly = b.orderly;
    balance = ground (arith, may, b.balance);
  }

  resume-Balanced :
      (σ : Stance) (c : Call) (k : Reply c → Coro (Unit {0})) (s : System W)
      (a : Result (Reply c) × W)
      → Plays σ (await c k)
      → IsBalanced i n C σ s
      → Balanced i n C (resume c k s a)
  unfolding resume
  resume-Balanced σ c k s (ok x, w) (may, rest) b =
      (moved σ c (ok x), rest x, asked-IsBalanced σ c (ok x) w s may b)
  resume-Balanced σ c k s (err x, w) (may, rest) b =
      (moved σ c (err x), tt, asked-IsBalanced σ c (err x) w s may b)

  register_transfer-IsBalanced :
      (t : Transfer) (s : System W)
      → IsBalanced i n C (holding t) s
      → IsBalanced i n C (holding t) (record s { register = register_transfer t s.register })
  unfolding register_transfer
  register_transfer-IsBalanced t s b = record {
    orderly = insert-IsOrderly t s.register b.orderly;
    balance = omega (
      arith,
      b.balance,
      uncovered-insert i (λ k j. C k j || covers (holding t) k j) t s.register (ground arith),
    );
  }

  deregister_transfer-IsBalanced :
      (σ : Stance) (id : ℕ) (s : System W)
      → MayLose σ id
      → IsBalanced i n C σ s
      → IsBalanced i n C spent (record s { register = (deregister_transfer id s.register).1 })
  unfolding deregister_transfer
  deregister_transfer-IsBalanced idle id s may b = absurd may
  deregister_transfer-IsBalanced (holding t) id s may b = absurd may
  deregister_transfer-IsBalanced (dropping t) id s may b = record {
    orderly = erase-IsOrderly id s.register b.orderly;
    balance =
        let gone : IsAbsent t.id (erase id s.register) =
          subst (λ j. IsAbsent j (erase id s.register)) may
            (erase-IsAbsent_self id s.register b.orderly.0) in
        omega (
          arith,
          b.balance,
          uncovered-IsAbsent i C t (erase id s.register) gone,
          uncovered-erase i (λ k j. C k j || covers (dropping t) k j) id s.register,
        );
  }
  deregister_transfer-IsBalanced spent id s may b = record {
    orderly = erase-IsOrderly id s.register b.orderly;
    balance =
        omega
          (arith, b.balance, uncovered-erase i (λ k j. C k j || covers spent k j) id s.register);
  }

  module _ (env : Env W) where
    pub turn-Balanced :
        (m : Coro (Unit {0})) (σ : Stance) (s : System W)
        → Plays σ m
        → IsBalanced i n C σ s
        → Balanced i n C (turn env m s)
    unfolding turn
    turn-Balanced (ret a) σ s p b = (σ, p, b)
    turn-Balanced (raise e) σ s p b = (σ, p, b)
    turn-Balanced (await c k) σ s p b = resume-Balanced σ c k s (env.answer c s.world) p b
    turn-Balanced (add t k) σ s (e, p) b =
        turn-Balanced k (holding t) _ (subst (λ τ. Plays τ k) e p)
          (register_transfer-IsBalanced t s (subst (λ τ. IsBalanced i n C τ s) e b))
    turn-Balanced (drop id k) σ s (may, p) b =
        turn-Balanced k spent _ p (deregister_transfer-IsBalanced σ id s may b)
    turn-Balanced (registered k) σ s p b = turn-Balanced (k s.register) σ s (p s.register) b
    turn-Balanced (time k) σ s p b =
        turn-Balanced (k (env.clock s.world).0) σ _ (p (env.clock s.world).0)
          (record { orderly = b.orderly; balance = b.balance })
