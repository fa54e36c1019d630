-- ===== src/Demo/Found.antt =====
-- `rfind` finds a text's end, and what is put in for a token is the token without it.
use decentralised_interledge.Prelude.{
  ℕ, zero, suc, ◌-◌, ◌<◌, true, false, none, some, [], ◌∷◌, ◌++◌, length, ◌≡◌, refl, sym, ap, ◌∙◌,
  ◌⊎◌, inl, inr, Bool-cases, arith,
}
use decentralised_interledge.Interfaces.{bytes_eq_lem}
use decentralised_interledge.Config.Texts.{Text}
use decentralised_interledge.Demo.Lines.{take, drop, starts_with, ends_with, rfind}
use decentralised_interledge.Demo.Completion.{value_for}

take-drop : (n : ℕ) (t : Text) → take n t ++ drop n t ≡ t
take-drop zero [] = refl
take-drop (suc n) [] = refl
take-drop zero (c ∷ t) = refl
take-drop (suc n) (c ∷ t) = ap (λ l. c ∷ l) (take-drop n t)

take-append : (p r : Text) → take (length p) (p ++ r) ≡ p
take-append [] [] = refl
take-append [] (c ∷ r) = refl
take-append (c ∷ p) r = ap (λ l. c ∷ l) (take-append p r)

starts_with_self : (t : Text) → starts_with t t ≡ true
starts_with_self [] = refl
starts_with_self (c ∷ t) = ground (arith, starts_with_self t)

starts_with_short : (t part : Text) → length t < length part → starts_with t part ≡ false
starts_with_short t [] h = absurd (omega arith)
starts_with_short [] (c ∷ part) h = refl
starts_with_short (x ∷ t) (c ∷ part) h = ground (arith, starts_with_short t part)

rfind_short : (t part : Text) → length t < length part → rfind t part ≡ none
unfolding rfind
rfind_short [] [] h = absurd (omega arith)
rfind_short [] (c ∷ part) h = refl
rfind_short (x ∷ t) part h =
    let e : rfind t part ≡ none = rfind_short t part (omega arith) in
    rw e (rw (starts_with_short (x ∷ t) part h) refl)

rfind_self : (t : Text) → rfind t t ≡ some 0
unfolding rfind
rfind_self [] = refl
rfind_self (c ∷ t) =
    let e : rfind t (c ∷ t) ≡ none = rfind_short t (c ∷ t) (omega arith) in
    rw e (rw (starts_with_self (c ∷ t)) refl)

-- A part that ends a text is found at the end.
rfind-append : (p r : Text) → rfind (p ++ r) r ≡ some (length p)
unfolding rfind
rfind-append [] r = rfind_self r
rfind-append (c ∷ p) r = rw (rfind-append p r) (ap some (omega arith))

pub value_for_lem : (rest t : Text) → (value_for rest t ≡ t) ⊎ (value_for rest t ++ rest ≡ t)
unfolding value_for
value_for_lem rest t = elim (Bool-cases (ends_with t rest)) [
  | inl ends ↦
      let n = length t - length rest in
      let tail : drop n t ≡ rest = bytes_eq_lem (drop n t) rest ends in
      let whole : take n t ++ rest ≡ t = ap (λ l. take n t ++ l) (sym tail) ∙ take-drop n t in
      let found : rfind t rest ≡ some (length (take n t)) =
        ap (λ x. rfind x rest) (sym whole) ∙ rfind-append (take n t) rest in
      let cut : take (length (take n t)) t ≡ take n t =
        ap (take (length (take n t))) (sym whole) ∙ take-append (take n t) rest in
      inr (rw ends (rw found (rw cut whole)))
  | inr apart ↦ inl (rw apart refl)
]
