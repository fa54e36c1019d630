-- ===== src/Prelude/Dict.antt =====
-- A Python dict keyed by numbers, in insertion order.
use decentralised_interledge.Prelude.Tests.{◌==◌, if◌then◌else◌}
use Prim.Native.Nat.{ℕ}
use mathlib.Core.Path.{◌≡◌, refl}
use mathlib.Core.Logic.{◌≢◌}
use mathlib.Core.Option.{Option, none, some}
use mathlib.Core.List.{List, [], ◌∷◌}
use native.Mathlib.Omega.{arith}

abbrev pub Dict {ℓ} : Type ℓ → Type ℓ
Dict V = List (ℕ × V)

module _ {ℓ} {V : Type ℓ} where
  -- `d.values()`
  abbrev pub values : Dict V → List V
  values [] = []
  values ((_, old) ∷ rest) = old ∷ values rest

  -- The dict that `d.pop(key, None)` leaves.
  abbrev pub erase : ℕ → Dict V → Dict V
  erase key [] = []
  erase key ((other, old) ∷ rest) = if key == other then rest else (other, old) ∷ erase key rest

  -- `d[key] = new`: the value of a key that is there is replaced in its place.
  abbrev pub insert : ℕ → V → Dict V → Dict V
  insert key new [] = (key, new) ∷ []
  insert key new ((other, old) ∷ rest) =
      if key == other then (key, new) ∷ rest else (other, old) ∷ insert key new rest

  -- `d.get(key)`
  abbrev pub lookup : ℕ → Dict V → Option V
  lookup key [] = none
  lookup key ((other, old) ∷ rest) = if key == other then some old else lookup key rest

  pub lookup-erase_ne :
      (key gone : ℕ) (dict : Dict V) → key ≢ gone → lookup key (erase gone dict) ≡ lookup key dict
  lookup-erase_ne key gone [] ne = refl
  lookup-erase_ne key gone (item ∷ rest) ne = ground (arith, lookup-erase_ne key gone rest ne)

  pub lookup-insert :
      (key written : ℕ) (new : V) (dict : Dict V)
      → lookup key (insert written new dict)
        ≡ (if written == key then some new else lookup key dict)
  lookup-insert key written new [] = ground arith
  lookup-insert key written new (item ∷ rest) = ground (arith, lookup-insert key written new rest)

  -- The key k does not occur.
  abbrev pub IsAbsent : ℕ → Dict V → Type 0
  IsAbsent k [] = Unit
  IsAbsent k ((j, _) ∷ d) = (k ≢ j) × IsAbsent k d

  -- No key stands twice.
  abbrev pub HasUniqueKeys : Dict V → Type 0
  HasUniqueKeys [] = Unit
  HasUniqueKeys ((j, _) ∷ d) = IsAbsent j d × HasUniqueKeys d

  pub lookup-IsAbsent : (k : ℕ) (d : Dict V) → IsAbsent k d → lookup k d ≡ none
  lookup-IsAbsent k [] h = refl
  lookup-IsAbsent k (e ∷ d) h = ground (arith, lookup-IsAbsent k d h.1)

  insert-IsAbsent :
      (j k : ℕ) (v : V) (d : Dict V) → j ≢ k → IsAbsent j d → IsAbsent j (insert k v d)
  insert-IsAbsent j k v [] ne h = (ne, tt)
  insert-IsAbsent j k v (e ∷ d) ne h = ground (arith, insert-IsAbsent j k v d ne h.1)

  erase-IsAbsent : (j k : ℕ) (d : Dict V) → IsAbsent j d → IsAbsent j (erase k d)
  erase-IsAbsent j k [] h = tt
  erase-IsAbsent j k (e ∷ d) h = ground (arith, erase-IsAbsent j k d h.1)

  pub insert-HasUniqueKeys :
      (k : ℕ) (v : V) (d : Dict V) → HasUniqueKeys d → HasUniqueKeys (insert k v d)
  insert-HasUniqueKeys k v [] h = (tt, tt)
  insert-HasUniqueKeys k v (e ∷ d) h =
      ground (arith, insert-HasUniqueKeys k v d h.1, insert-IsAbsent e.0 k v d)

  pub erase-HasUniqueKeys : (k : ℕ) (d : Dict V) → HasUniqueKeys d → HasUniqueKeys (erase k d)
  erase-HasUniqueKeys k [] h = tt
  erase-HasUniqueKeys k (e ∷ d) h =
      ground (arith, erase-HasUniqueKeys k d h.1, erase-IsAbsent e.0 k d)

  pub lookup-erase_self : (k : ℕ) (d : Dict V) → HasUniqueKeys d → lookup k (erase k d) ≡ none
  lookup-erase_self k [] h = refl
  lookup-erase_self k (e ∷ d) h = ground (arith, lookup-erase_self k d h.1, lookup-IsAbsent k d)
