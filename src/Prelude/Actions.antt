-- ===== src/Prelude/Actions.antt =====
-- Calls over a world that may raise: the state goes through an exception, as Python objects do.
use mathlib.Core.Path.{◌≡◌, refl}
use mathlib.Core.Logic.{inl, inr}
use native.Mathlib.Omega.{arith}
use decentralised_interledge.Prelude.Exceptions.{Exception, Result, ok, err, Result-cases}

-- A call over the world that may raise.
abbrev pub Action : Type 0 → Type 0 → Type 0
Action W A = W → Result A × W

module _ {W : Type 0} where
  abbrev pub pure : {A : Type 0} → A → Action W A
  pure a w = (ok a, w)

  abbrev pub throw : {A : Type 0} → Exception → Action W A
  throw e w = (err e, w)

  -- What follows a call, if it has returned.
  abbrev pub continue : {A B : Type 0} → Result A × W → (A → Action W B) → Result B × W
  continue (err e, w) f = (err e, w)
  continue (ok a, w) f = f a w

  infixl 5 ◌>>=◌ ◌>>◌
  abbrev pub ◌>>=◌ : {A B : Type 0} → Action W A → (A → Action W B) → Action W B
  ◌>>=◌ m f w = continue (m w) f

  abbrev pub ◌>>◌ : {A B : Type 0} → Action W A → Action W B → Action W B
  m >> k = m >>= λ _. k

  -- `try: body finally: last`: an exception of `last` takes the place of what the body gave.
  abbrev pub finally : {A : Type 0} → Action W A → Action W (Unit {0}) → Action W A
  finally body last w =
      let (r, w') = body w in
      let (q, w'') = last w' in elim q [ err e ↦ (err e, w'') | ok _ ↦ (r, w'') ]

abbrev pub lift : {W A : Type 0} → Result A → Action W A
lift r w = (r, w)

module _ {W A B : Type 0} where
  -- Where a call and what follows have returned, so has the call.
  pub continue_inv :
      {out : B} (p : Result A × W) (f : A → Action W B)
      → (continue p f).0 ≡ ok out
      → (a : A) × (p.0 ≡ ok a) × ((f a p.1).0 ≡ ok out)
  continue_inv (ok a, w) f e = (a, refl, e)
  continue_inv (err x, w) f e = cc

  -- The same, with the state that the call leaves.
  pub continue_step :
      {out : B} (p : Result A × W) (f : A → Action W B)
      → (continue p f).0 ≡ ok out
      → (a : A) × (p ≡ (ok a, p.1)) × ((f a p.1).0 ≡ ok out)
  continue_step (ok a, w) f e = (a, refl, e)
  continue_step (err x, w) f e = cc

  -- The same, with the states.
  pub continue_run :
      {out : B} {w' : W} (p : Result A × W) (f : A → Action W B)
      → continue p f ≡ (ok out, w')
      → (a : A) × (w : W) × (p ≡ (ok a, w)) × (f a w ≡ (ok out, w'))
  continue_run (ok a, w) f e = (a, w, refl, e)
  continue_run (err x, w) f e = absurd (cc)

pub finally_inv :
    {W A : Type 0} (body : Action W A) (last : Action W (Unit {0})) (w : W) {a : A}
    → (finally body last w).0 ≡ ok a
    → ((body w).0 ≡ ok a) × ((last (body w).1).0 ≡ ok tt)
finally_inv body last w e = elim (Result-cases (last (body w).1).0) [
  | inl (_, returned) ↦ (ground (arith, returned), returned)
  | inr (x, raised) ↦ absurd (ground (arith, raised))
]
