-- ===== src/Demo/Completion.antt =====
-- `complete_transfer_out` and `complete_state_of`. The set of the ledgers' names is a list in any
-- order, and the dict of tokens the list of its keys.
use decentralised_interledge.Prelude.{
  ℕ, ◌+◌, ◌&&◌, ◌==◌, Option, none, some, List, [], ◌∷◌, ◌++◌, length, Result, ok, err, ◌>>=◌,
  index_error, if◌then◌else◌,
}
use decentralised_interledge.Config.Texts.{Text, codes, int}
use decentralised_interledge.Demo.Lines.{
  take, drop, words_of, starts_with, ends_with, rfind, slice_to, is_in,
}

-- The word at the cursor, `""` if there is none.
abbrev pub first_of : List Text → Text
first_of [] = []
first_of (word ∷ words) = word

abbrev pub second_of : List Text → Result Text
second_of (a ∷ b ∷ words) = ok b
second_of _ = err index_error

-- The ledgers' names that start with the word; a name that is the word itself has been found
-- before.
unfoldable pub ledgers_from : Text → List Text → List Text
ledgers_from word [] = []
ledgers_from word (i ∷ allowed) =
    let rest = ledgers_from word allowed in
    if starts_with i word then (i ++ codes " ") ∷ rest else rest

-- What is put in for a token, where the rest of the line may be its end already.
unfoldable pub value_for : (rest_of_line : Text) → Text → Text
unfolding rfind
value_for rest_of_line t = if ends_with t rest_of_line then slice_to t (rfind t rest_of_line) else t

unfoldable pub tokens_from : (current_word rest_of_line : Text) → List Text → List Text
unfolding value_for
tokens_from current_word rest_of_line [] = []
tokens_from current_word rest_of_line (t ∷ tokens) =
    let rest = tokens_from current_word rest_of_line tokens in
    if starts_with t current_word then value_for rest_of_line t ∷ rest else rest

module _ (tokens : List Text) (line : Text) (start_index end_index : ℕ) where
  -- The result is `None` where no `return` gives a list.
  unfoldable pub complete_transfer_out : (allowed_ledgers : List Text) → Result (Option (List Text))
  unfolding words_of ledgers_from tokens_from
  complete_transfer_out allowed =
      let current_word = first_of (words_of (drop start_index line)) in
      if length (words_of (take end_index line)) == 1
      then ok (some allowed)
      else if is_in current_word allowed
      then ok none
      else if start_index == length (codes "transfer_out") + 1
      then ok (some (ledgers_from current_word allowed))
      else (do
        first_arg ← second_of (words_of line)
        ok (
            if (length line == start_index) && (length (words_of line) == 2)
            then some tokens
            else if start_index == length (codes "transfer_out") + length first_arg + 2
            then some (tokens_from current_word (drop end_index line) tokens)
            else none))

  -- The keys of `tokens` are texts, and `int(current_word)` is a number: it is never one of them.
  unfoldable pub complete_state_of : Result (Option (List Text))
  unfolding words_of tokens_from int
  complete_state_of =
      let current_word = first_of (words_of (drop start_index line)) in
      if (length line == start_index) && (length (words_of line) == 1)
      then ok (some tokens)
      else (do
        number ← int current_word
        ok (
            if start_index == length (codes "state_of") + 1
            then some (tokens_from current_word (drop end_index line) tokens)
            else none))
