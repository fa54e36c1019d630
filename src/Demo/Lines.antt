-- ===== src/Demo/Lines.antt =====
-- What the commands use of Python's texts besides Config/Texts.
use decentralised_interledge.Prelude.{
  ℕ, zero, suc, ◌+◌, ◌-◌, Bool, true, false, ◌||◌, ◌==◌, Option, none, some, List, [], ◌∷◌, length,
  if◌then◌else◌,
}
use decentralised_interledge.Interfaces.{bytes_eq}
use decentralised_interledge.Config.Texts.{Text, is_space}

-- `text[:n]` and `text[n:]`
abbrev pub take : ℕ → Text → Text
take n [] = []
take zero (c ∷ cs) = []
take (suc n) (c ∷ cs) = c ∷ take n cs

abbrev pub drop : ℕ → Text → Text
drop n [] = []
drop zero (c ∷ cs) = c ∷ cs
drop (suc n) (c ∷ cs) = drop n cs

-- A word in front of the others, if it is one.
abbrev pub push : Text → List Text → List Text
push [] words = words
push (c ∷ cs) words = (c ∷ cs) ∷ words

-- The word that the text starts with, which is empty in front of a space, and the others.
unfoldable pub scan : Text → Text × List Text
scan [] = ([], [])
scan (c ∷ cs) =
    let (word, words) = scan cs in if is_space c then ([], push word words) else (c ∷ word, words)

-- `text.split()`
unfoldable pub words_of : Text → List Text
unfolding scan
words_of text = let (word, words) = scan text in push word words

abbrev pub starts_with : Text → Text → Bool
starts_with text [] = true
starts_with [] (c ∷ cs) = false
starts_with (x ∷ text) (c ∷ cs) = if x == c then starts_with text cs else false

abbrev pub ends_with : Text → Text → Bool
ends_with text suffix = bytes_eq (drop (length text - length suffix) text) suffix

-- `text.rfind(part)`: the last place of the part, if it occurs.
unfoldable pub rfind : Text → Text → Option ℕ
rfind [] [] = some 0
rfind [] (c ∷ cs) = none
rfind (x ∷ text) part = elim (rfind text part) [
  | some n ↦ some (n + 1)
  | none ↦ if starts_with (x ∷ text) part then some 0 else none
]

-- `text[:place]`, where -1 stands for no place and leaves the last character out.
abbrev pub slice_to : Text → Option ℕ → Text
slice_to text (some n) = take n text
slice_to text none = take (length text - 1) text

-- `text in texts`
abbrev pub is_in : Text → List Text → Bool
is_in text [] = false
is_in text (t ∷ texts) = bytes_eq text t || is_in text texts
