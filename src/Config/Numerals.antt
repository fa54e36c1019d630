-- ===== src/Config/Numerals.antt =====
-- Numerals in decimal digits, and what `int` reads of them.
use decentralised_interledge.Prelude.{
  ℕ, zero, suc, ◌+◌, ◌-◌, ◌*◌, ◌/◌, ◌%◌, ◌<◌, true, some, [], ◌∷◌, ◌++◌, ok, ◌≡◌, ◌≢◌, refl, arith,
  All, sym, ◌∙◌, ap,
}
use mathlib.Core.Path.{subst}
use native.Mathlib.Decide.{dec_lt}
use decentralised_interledge.Prelude.Int.{pos, negsuc}
use decentralised_interledge.Ethereum.Events.{digits, decimal}
use decentralised_interledge.Ethereum.Events.Seed.{value, value-decimal}
use decentralised_interledge.Config.Texts.{
  Text, is_digit, skip_spaces, read_digits, read_number, read_signed, int,
}

-- Every character is a digit.
abbrev pub IsNumeral : Text → Type 0
IsNumeral = All (λ c. is_digit c ≡ true)

IsNumeral-append : (a b : Text) → IsNumeral a → IsNumeral b → IsNumeral (a ++ b)
IsNumeral-append [] b ha hb = hb
IsNumeral-append (x ∷ a) b (d, ha) hb = (d, IsNumeral-append a b ha hb)

digit_lem : (d : ℕ) → d < 10 → is_digit (48 + d) ≡ true
digit_lem d h = ground arith

digits-IsNumeral : (more n : ℕ) → IsNumeral (digits more n)
unfolding digits
digits-IsNumeral zero n = (digit_lem (n % 10) (omega arith), tt)
digits-IsNumeral (suc more) n = elim (dec_lt n 10) [
  | yes small ↦ ground (arith, digit_lem n small)
  | no large ↦ ground (
    arith,
    digit_lem (n % 10),
    IsNumeral-append (digits more (n / 10)) ((48 + n % 10) ∷ []) (digits-IsNumeral more (n / 10)),
  )
]

read_digits-IsNumeral : (n : ℕ) (a : Text) → IsNumeral a → read_digits n a ≡ some (value n a)
unfolding read_digits
read_digits-IsNumeral n [] h = refl
read_digits-IsNumeral n (c ∷ a) (d, h) =
    ground (arith, read_digits-IsNumeral (n * 10 + (c - 48)) a h)

pub int-IsNumeral :
    (c : ℕ) (a : Text) → IsNumeral (c ∷ a) → int (c ∷ a) ≡ ok (pos (value 0 (c ∷ a)))
unfolding int skip_spaces read_signed read_number
int-IsNumeral c a (d, h) = ground (arith, read_digits-IsNumeral (c - 48) a h)

pub decimal-IsNumeral : (n : ℕ) → IsNumeral (decimal n)
unfolding decimal
decimal-IsNumeral n = digits-IsNumeral n n

append-ne-nil : (a : Text) (c : ℕ) → (a ++ (c ∷ [])) ≢ []
append-ne-nil [] c e = cc
append-ne-nil (x ∷ a) c e = cc

digits-ne-nil : (more n : ℕ) → digits more n ≢ []
unfolding digits
digits-ne-nil zero n e = cc
digits-ne-nil (suc more) n e = ground (arith, e, append-ne-nil (digits more (n / 10)) (48 + n % 10))

pub decimal-ne-nil : (n : ℕ) → decimal n ≢ []
unfolding decimal
decimal-ne-nil n = digits-ne-nil n n

-- The text that `str` gives of a number is read back by `int`.
pub int_of_decimal : (n : ℕ) → int (decimal n) ≡ ok (pos n)
int_of_decimal n = numeral (decimal n) refl
  where
    numeral : (a : Text) → decimal n ≡ a → int (decimal n) ≡ ok (pos n)
    numeral [] e = absurd (decimal-ne-nil n e)
    numeral (c ∷ a) e =
        let digits_only = subst IsNumeral e (decimal-IsNumeral n) in
        let number = ap (value 0) (sym e) ∙ value-decimal n in
        ap int e ∙ int-IsNumeral c a digits_only ∙ ap (λ k. ok (pos k)) number

read_number-IsNumeral :
    (c : ℕ) (a : Text) → IsNumeral (c ∷ a) → read_number (c ∷ a) ≡ some (value 0 (c ∷ a))
unfolding read_number
read_number-IsNumeral c a (d, h) = ground (arith, read_digits-IsNumeral (c - 48) a h)

read_number-decimal : (n : ℕ) → read_number (decimal n) ≡ some n
read_number-decimal n = numeral (decimal n) refl
  where
    numeral : (a : Text) → decimal n ≡ a → read_number (decimal n) ≡ some n
    numeral [] e = absurd (decimal-ne-nil n e)
    numeral (c ∷ a) e =
        let digits_only = subst IsNumeral e (decimal-IsNumeral n) in
        let number = ap (value 0) (sym e) ∙ value-decimal n in
        ap read_number e ∙ read_number-IsNumeral c a digits_only ∙ ap some number

-- With a minus sign in front, the number below zero.
pub int_of_negative : (n : ℕ) → int (45 ∷ decimal (suc n)) ≡ ok (negsuc n)
unfolding int skip_spaces read_signed
int_of_negative n = rw (read_number-decimal (suc n), int) (ground arith)
