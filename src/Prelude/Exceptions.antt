-- ===== src/Prelude/Exceptions.antt =====
-- What a Python call gives: a value, or the exception that it raises.
use mathlib.Core.Path.{◌≡◌, refl}
use mathlib.Core.Logic.{◌⊎◌, inl, inr}

-- The exception classes that the modelled code raises or catches; `other_error` is any other.
pub data Exception : Type 0 where
  recursion_error zero_division_error key_error attribute_error value_error type_error : Exception
  time_exhausted wrong_password system_exit other_error name_error index_error : Exception
  timeout_error assertion_error indy_error unreachable_peer no_section_error no_option_error :
      Exception

pub data Result {ℓ} (V : Type ℓ) : Type ℓ where
  err : Exception → Result V  -- the call raises
  ok : V → Result V  -- the call returns

module _ {ℓ κ} {V : Type ℓ} {R : Type κ} where
  -- The statements behind a call run if the call returns.
  infixl 5 ◌>>=◌
  abbrev pub ◌>>=◌ : Result V → (V → Result R) → Result R
  err e >>= rest = err e
  ok v >>= rest = rest v

  -- Where a call and the rest have returned, so has the call.
  pub >>=_inv :
      {out : R} (first : Result V) (rest : V → Result R)
      → (first >>= rest) ≡ ok out
      → (v : V) × (rest v ≡ ok out) × (first ≡ ok v)
  >>=_inv (err e) rest returned = cc
  >>=_inv (ok v) rest returned = (v, returned, refl)

pub Result-cases {ℓ} :
    {A : Type ℓ} (r : Result A) → ((a : A) × (r ≡ ok a)) ⊎ ((e : Exception) × (r ≡ err e))
Result-cases (ok a) = inl (a, refl)
Result-cases (err e) = inr (e, refl)
