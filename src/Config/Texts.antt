-- ===== src/Config/Texts.antt =====
-- Python's `int` and `str.split` on texts, as lists of character codes, for ASCII texts.
use Prim.Native.Char.{code}
use Prim.Native.String.{String}
use decentralised_interledge.Prelude.{
  ℕ, ◌+◌, ◌-◌, ◌*◌, Bool, true, false, ◌&&◌, ◌||◌, ◌==◌, leb, Option, none, some, List, [], ◌∷◌,
  Result, ok, err, value_error, if◌then◌else◌,
}
use decentralised_interledge.Prelude.Int.{ℤ, pos, sub_ℕ}

abbrev pub Text : Type 0
Text = List ℕ

-- The character codes of a text.
abbrev pub codes : String → Text
codes String.[] = []
codes (String.◌∷◌ c rest) = code c ∷ codes rest

abbrev pub is_digit : ℕ → Bool
is_digit c = leb 48 c && leb c 57

abbrev pub is_space : ℕ → Bool
is_space c = (leb 28 c && leb c 32) || (leb 9 c && leb c 13)

unfoldable pub skip_spaces : Text → Text
skip_spaces [] = []
skip_spaces (c ∷ cs) = let rest = skip_spaces cs in if is_space c then rest else c ∷ cs

unfoldable pub all_spaces : Text → Bool
all_spaces [] = true
all_spaces (c ∷ cs) = is_space c && all_spaces cs

abbrev pub starts_digit : Text → Bool
starts_digit [] = false
starts_digit (c ∷ cs) = is_digit c

-- Digits behind a number that is read, with single underscores between digits; spaces may end it.
unfoldable pub read_digits : ℕ → Text → Option ℕ
unfolding all_spaces
read_digits n [] = some n
read_digits n (c ∷ cs) =
    let next = if is_digit c then n * 10 + (c - 48) else n in
    let rest = read_digits next cs in
    if is_digit c
    then rest
    else if c == 95
    then (if starts_digit cs then rest else none)
    else if all_spaces (c ∷ cs)
    then some n
    else none

unfoldable pub read_number : Text → Option ℕ
unfolding read_digits
read_number [] = none
read_number (c ∷ cs) = if is_digit c then read_digits (c - 48) cs else none

abbrev pub negated : Option ℕ → Option ℤ
negated none = none
negated (some n) = some (sub_ℕ 0 n)

abbrev pub as_pos : Option ℕ → Option ℤ
as_pos none = none
as_pos (some n) = some (pos n)

unfoldable pub read_signed : Text → Option ℤ
unfolding read_number
read_signed [] = none
read_signed (c ∷ cs) =
    if c == 45
    then negated (read_number cs)
    else if c == 43
    then as_pos (read_number cs)
    else as_pos (read_number (c ∷ cs))

-- `int(text)`
unfoldable pub int : Text → Result ℤ
unfolding skip_spaces read_signed
int text = elim (read_signed (skip_spaces text)) [ none ↦ err value_error | some n ↦ ok n ]

-- `text.split(c)`: the first part, and the others.
unfoldable pub split : ℕ → Text → Text × List Text
split c [] = ([], [])
split c (x ∷ xs) =
    let (first, rest) = split c xs in if x == c then ([], first ∷ rest) else (x ∷ first, rest)

-- `a, b = parts`
abbrev pub two_of : Text × List Text → Result (Text × Text)
two_of (a, b ∷ []) = ok (a, b)
two_of _ = err value_error

-- `text.lower()`
abbrev pub lower : Text → Text
lower [] = []
lower (c ∷ cs) = (if leb b'A' c && leb c b'Z' then c + 32 else c) ∷ lower cs
