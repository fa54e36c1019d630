-- ===== src/Node/Credits/Gathers.antt =====
-- The tasks of a `gather` keep the balance, in any order of turns.
use mathlib.Core.Path.{fun_ext, subst}
use decentralised_interledge.Prelude.{
  ℕ, zero, suc, ◌+◌, ◌≤◌, Bool, false, ◌||◌, some, List, [], ◌∷◌, ◌≡◌, refl, ap, arith,
  Option-cases, inl, inr, get_elem?, set,
}
use decentralised_interledge.Register.{Register}
use decentralised_interledge.Node.Calls.{Coro}
use decentralised_interledge.Node.System.{Env, System, turn, turns}
use decentralised_interledge.Node.Credits.{
  closings, reported, uncovered, IsOrderly, Stance, spent, weight, covers, Plays, IsBalanced,
}
use decentralised_interledge.Node.Credits.Turns.{turn-Balanced}

-- The credits of all tasks, and what they are about.
abbrev pub weights : ℕ → List Stance → ℕ
weights i [] = 0
weights i (σ ∷ stances) = weight i σ + weights i stances

abbrev pub any_covers : List Stance → ℕ → ℕ → Bool
any_covers [] k j = false
any_covers (σ ∷ stances) k j = covers σ k j || any_covers stances k j

abbrev pub AllPlay : List Stance → List (Coro (Unit {0})) → Type 0
AllPlay [] [] = Unit
AllPlay (σ ∷ stances) (m ∷ tasks) = Plays σ m × AllPlay stances tasks
AllPlay _ _ = ⊥

pub record AreBalanced {W : Type 0} (i : ℕ) (stances : List Stance) (s : System W) : Type 0 where
  pub orderly : IsOrderly s.register
  pub balance :
      closings i s.log + weights i stances + uncovered i (any_covers stances) s.register
      ≤ reported i s.log

-- The stance of one task, among those of the others.
module _ (σ : Stance) where
  weights-set :
      (i : ℕ) (stances : List Stance) (j : ℕ) (τ : Stance)
      → get_elem? stances j ≡ some τ
      → weights i (set stances j σ) ≡ weights i (set stances j spent) + weight i σ
  weights-set i [] j τ e = cc
  weights-set i (x ∷ stances) zero τ e = omega arith
  weights-set i (x ∷ stances) (suc j) τ e = omega (arith, weights-set i stances j τ e)

  any_covers-set :
      (stances : List Stance) (j : ℕ) (τ : Stance) (k x : ℕ)
      → get_elem? stances j ≡ some τ
      → any_covers (set stances j σ) k x ≡ (any_covers (set stances j spent) k x || covers σ k x)
  any_covers-set [] j τ k x e = cc
  any_covers-set (y ∷ stances) zero τ k x e = ground arith
  any_covers-set (y ∷ stances) (suc j) τ k x e = ground (arith, any_covers-set stances j τ k x e)

set_same :
    (stances : List Stance) (j : ℕ) (τ : Stance)
    → get_elem? stances j ≡ some τ
    → set stances j τ ≡ stances
set_same [] j τ e = cc
set_same (x ∷ stances) zero τ e = ground arith
set_same (x ∷ stances) (suc j) τ e = ap (λ l. x ∷ l) (set_same stances j τ e)

get_elem?-AllPlay :
    (stances : List Stance) (tasks : List (Coro (Unit {0}))) (j : ℕ) (m : Coro (Unit {0}))
    → AllPlay stances tasks
    → get_elem? tasks j ≡ some m
    → (σ : Stance) × (get_elem? stances j ≡ some σ) × Plays σ m
get_elem?-AllPlay [] [] j m p e = cc
get_elem?-AllPlay [] (x ∷ tasks) j m p e = absurd p
get_elem?-AllPlay (σ ∷ stances) [] j m p e = absurd p
get_elem?-AllPlay (σ ∷ stances) (x ∷ tasks) zero m p e =
    let same : x ≡ m = cc in (σ, refl, subst (Plays σ) same p.0)
get_elem?-AllPlay (σ ∷ stances) (x ∷ tasks) (suc j) m p e =
    get_elem?-AllPlay stances tasks j m p.1 e

set-AllPlay :
    (stances : List Stance) (tasks : List (Coro (Unit {0}))) (j : ℕ) (σ : Stance)
    (m : Coro (Unit {0}))
    → AllPlay stances tasks
    → Plays σ m
    → AllPlay (set stances j σ) (set tasks j m)
set-AllPlay [] [] j σ m p q = tt
set-AllPlay [] (x ∷ tasks) j σ m p q = absurd p
set-AllPlay (y ∷ stances) [] j σ m p q = absurd p
set-AllPlay (y ∷ stances) (x ∷ tasks) zero σ m p q = (q, p.1)
set-AllPlay (y ∷ stances) (x ∷ tasks) (suc j) σ m p q = (p.0, set-AllPlay stances tasks j σ m p.1 q)

module _ (i : ℕ) (stances : List Stance) (j : ℕ) (σ : Stance)
    (found : get_elem? stances j ≡ some σ) where
  uncovered-set :
      (τ : Stance) (register : Register)
      → uncovered i (any_covers (set stances j τ)) register
        ≡ uncovered i (λ k x. any_covers (set stances j spent) k x || covers τ k x) register
  uncovered-set τ register =
      ap (λ f. uncovered i f register)
        (fun_ext λ k. fun_ext λ x. any_covers-set τ stances j σ k x found)

  -- The balance of all tasks is that of one of them, with the others around it.
  AreBalanced-set :
      {W : Type 0} (τ : Stance) (s : System W)
      → IsBalanced i (weights i (set stances j spent)) (any_covers (set stances j spent)) τ s
      → AreBalanced i (set stances j τ) s
  AreBalanced-set τ s b = record {
    orderly = b.orderly;
    balance =
        omega (arith, b.balance, weights-set τ i stances j σ found, uncovered-set τ s.register);
  }

  IsBalanced-get :
      {W : Type 0} (s : System W)
      → AreBalanced i stances s
      → IsBalanced i (weights i (set stances j spent)) (any_covers (set stances j spent)) σ s
  IsBalanced-get s b = record {
    orderly = b.orderly;
    balance =
        let same = set_same stances j σ found in
        omega (
          arith,
          b.balance,
          weights-set σ i stances j σ found,
          uncovered-set σ s.register,
          ap (λ l. weights i l) same,
          ap (λ l. uncovered i (any_covers l) s.register) same,
        );
  }

module _ {W : Type 0} (env : Env W) (i : ℕ) where
  -- The tasks and the state behind some turns, with where each task stands.
  abbrev pub AllBalanced : List (Coro (Unit {0})) × System W → Type 0
  AllBalanced (tasks, s) = (stances : List Stance) × AllPlay stances tasks × AreBalanced i stances s

  pub turns-AllBalanced :
      (order : List ℕ) (stances : List Stance) (tasks : List (Coro (Unit {0}))) (s : System W)
      → AllPlay stances tasks
      → AreBalanced i stances s
      → AllBalanced (turns env order tasks s)
  unfolding turns
  turns-AllBalanced [] stances tasks s p b = (stances, p, b)
  turns-AllBalanced (j ∷ order) stances tasks s p b = elim (Option-cases (get_elem? tasks j)) [
    | inl absent ↦ rw (absent, turns) (turns-AllBalanced order stances tasks s p b)
    | inr (m, e) ↦
        let (σ, found, q) = get_elem?-AllPlay stances tasks j m p e in
        let (τ, q', b') =
          turn-Balanced i (weights i (set stances j spent)) (any_covers (set stances j spent)) env m
            σ s q (IsBalanced-get i stances j σ found s b) in
        rw (e, turns)
          (turns-AllBalanced order (set stances j τ) _ _
            (set-AllPlay stances tasks j τ (turn env m s).0 p q')
            (AreBalanced-set i stances j σ found τ _ b'))
  ]
