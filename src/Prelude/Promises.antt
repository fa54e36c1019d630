-- ===== src/Prelude/Promises.antt =====
-- What holds behind a call that returns, and what a call keeps whether it returns or raises.
use decentralised_interledge.Prelude.Exceptions.{Exception, Result, ok, err}
use mathlib.Core.Path.{◌≡◌, ap, subst}
use decentralised_interledge.Prelude.Actions.{
  Action, pure, throw, lift, continue, continue_run, ◌>>=◌,
}

pub no_value : {A : Type 0} (x : Exception) (a : A) → ¬ (err x ≡ ok a)
no_value x a e = cc

module _ {S : Type 0} where
  -- If the call returns, its value and the state then are so.
  unfoldable pub Ensures : {A : Type 0} → Action S A → (A → S → Type 0) → Type 0
  Ensures {A} m Q = (s s' : S) (a : A) → m s ≡ (ok a, s') → Q a s'

  pub Ensures-continue :
      {A B : Type 0} (Q : B → S → Type 0) (m : Action S A) (f : A → Action S B)
      → ((a : A) → Ensures (f a) Q)
      → Ensures (m >>= f) Q
  unfolding Ensures
  Ensures-continue Q m f promise s s' b e =
      let (a, w, _, rest) = continue_run (m s) f e in promise a w s' b rest

  -- The same for a value, which is known then.
  pub Ensures-lift :
      {A B : Type 0} (Q : B → S → Type 0) (r : Result A) (f : A → Action S B)
      → ((a : A) → r ≡ ok a → Ensures (f a) Q)
      → Ensures (lift r >>= f) Q
  unfolding Ensures
  Ensures-lift Q r f promise s s' b e =
      let (a, w, first, rest) = continue_run (lift r s) f e in
      promise a (ap (λ q. q.0) first) w s' b rest

  -- The same for a value of which the call says something by itself.
  pub Ensures-known :
      {A B : Type 0} (Q : B → S → Type 0) (R : A → Type 0) (m : Action S A) (f : A → Action S B)
      → Ensures m (λ a _. R a)
      → ((a : A) → R a → Ensures (f a) Q)
      → Ensures (m >>= f) Q
  unfolding Ensures
  Ensures-known Q R m f known promise s s' b e =
      let (a, w, first, rest) = continue_run (m s) f e in promise a (known s w a first) w s' b rest

  -- The call has returned.
  abbrev pub Returned : {A : Type 0} → Action S A → A → Type 0
  Returned m a = (s : S) × (s' : S) × (m s ≡ (ok a, s'))

  pub Ensures-Returned : {A : Type 0} (m : Action S A) → Ensures m (λ a _. Returned m a)
  unfolding Ensures
  Ensures-Returned m s s' a e = (s, s', e)

  pub Ensures-pure :
      {A : Type 0} (Q : A → S → Type 0) (a : A) → ((s : S) → Q a s) → Ensures (pure a) Q
  unfolding Ensures
  Ensures-pure Q a holds s s' b e = cast Q (ap (λ q. q.0) e) (holds s')
    where
      cast : {A : Type 0} (Q : A → S → Type 0) {s : S} {a b : A} → ok a ≡ ok b → Q a s → Q b s
      cast Q {s} {a} {b} e q = let same : a ≡ b = cc in subst (λ x. Q x s) same q

  pub Ensures-throw : {A : Type 0} (Q : A → S → Type 0) (x : Exception) → Ensures (throw x) Q
  unfolding Ensures
  Ensures-throw Q x s s' b e = absurd (no_value x b (ap (λ q. q.0) e))

  pub Ensures-weaken :
      {A : Type 0} (Q R : A → S → Type 0) (m : Action S A)
      → ((a : A) (s : S) → Q a s → R a s)
      → Ensures m Q
      → Ensures m R
  unfolding Ensures
  Ensures-weaken Q R m weaker promise s s' a e = weaker a s' (promise s s' a e)

  -- What holds of the state is not lost.
  unfoldable pub Keeps : (S → Type 0) → {A : Type 0} → Action S A → Type 0
  Keeps P m = (s : S) → P s → P (m s).1

  module _ (P : S → Type 0) where
    keeps_continued :
        {A B : Type 0} (p : Result A × S) (f : A → Action S B)
        → ((a : A) → Keeps P (f a))
        → P p.1
        → P (continue p f).1
    unfolding Keeps
    keeps_continued (ok a, s) f keeps h = keeps a s h
    keeps_continued (err x, s) f keeps h = h

    pub Keeps-continue :
        {A B : Type 0} (m : Action S A) (f : A → Action S B)
        → Keeps P m
        → ((a : A) → Keeps P (f a))
        → Keeps P (m >>= f)
    unfolding Keeps
    Keeps-continue m f first then s h = keeps_continued (m s) f then (first s h)

    pub Keeps-lift : {A : Type 0} (r : Result A) → Keeps P (lift r)
    unfolding Keeps
    Keeps-lift r s h = h

    pub Keeps-pure : {A : Type 0} (a : A) → Keeps P (pure a)
    unfolding Keeps
    Keeps-pure a s h = h
