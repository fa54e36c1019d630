-- ===== src/Demo/Completed.antt =====
-- What the commands offer for a token: a token that is known, where the rest of the line is counted.
use mathlib.Core.List.{Memᴰ}
use decentralised_interledge.Prelude.{
  ℕ, zero, suc, ◌+◌, true, ◌&&◌, ◌==◌, none, some, List, [], ◌∷◌, ◌++◌, length, All, ok, ◌>>=◌,
  >>=_inv, if◌then◌else◌, ◌≡◌, refl, sym, ◌⊎◌, inl, inr, Bool-cases, arith,
}
use decentralised_interledge.Config.Texts.{Text, codes, int}
use decentralised_interledge.Demo.Lines.{take, drop, scan, words_of, starts_with, is_in}
use decentralised_interledge.Demo.Found.{value_for_lem}
use decentralised_interledge.Demo.Completion.{
  first_of, second_of, ledgers_from, tokens_from, complete_state_of, complete_transfer_out,
}

-- The value is a known token that starts with the word, or is one with the rest of the line behind
-- it.
abbrev pub IsOffer : (tokens : List Text) (current_word rest_of_line value : Text) → Type 0
IsOffer tokens current_word rest_of_line value =
    (t : Text) × Memᴰ t tokens
    × (starts_with t current_word ≡ true)
    × ((value ≡ t) ⊎ (value ++ rest_of_line ≡ t))

tokens_from_offers :
    (known : List Text) (word rest : Text) (tokens : List Text)
    → ((t : Text) → Memᴰ t tokens → Memᴰ t known)
    → All (IsOffer known word rest) (tokens_from word rest tokens)
unfolding tokens_from
tokens_from_offers known word rest [] all = tt
tokens_from_offers known word rest (t ∷ tokens) all =
    let offers = tokens_from_offers known word rest tokens (λ s m. all s (Memᴰ.tail m)) in
    elim (Bool-cases (starts_with t word)) [
      | inl hit ↦ rw hit ((t, all t (Memᴰ.head refl), hit, value_for_lem rest t), offers)
      | inr miss ↦ rw miss offers
    ]

drop_all : (n : ℕ) (t : Text) → length t ≡ n → drop n t ≡ []
drop_all n [] e = refl
drop_all zero (c ∷ t) e = absurd (omega arith)
drop_all (suc n) (c ∷ t) e = drop_all n t (omega arith)

-- At the end of the line there is no word.
no_word : (n : ℕ) (line : Text) → length line ≡ n → first_of (words_of (drop n line)) ≡ []
unfolding words_of scan
no_word n line e = rw (drop_all n line e) refl

whole_offers :
    (known : List Text) (word rest : Text)
    → word ≡ []
    → (tokens : List Text) → ((t : Text) → Memᴰ t tokens → Memᴰ t known)
    → All (IsOffer known word rest) tokens
whole_offers known word rest e [] all = tt
whole_offers known word rest e (t ∷ tokens) all = (
  (t, all t (Memᴰ.head refl), rw e refl, inl refl),
  whole_offers known word rest e tokens (λ s m. all s (Memᴰ.tail m)),
)

-- All that completing `state_of` offers are known tokens that start with the word at the cursor, or
-- such tokens without the rest of the line behind the cursor, which is their end.
pub complete_state_of_offers :
    (tokens : List Text) (line : Text) (start_index end_index : ℕ) (offered : List Text)
    → complete_state_of tokens line start_index end_index ≡ ok (some offered)
    → All
        (IsOffer tokens (first_of (words_of (drop start_index line))) (drop end_index line))
        offered
unfolding complete_state_of
complete_state_of_offers tokens line start_index end_index offered e =
    let word = first_of (words_of (drop start_index line)) in
    elim (Bool-cases ((length line == start_index) && (length (words_of line) == 1))) [
      | inl fresh ↦
          let same : tokens ≡ offered = ground (arith, rw fresh at e) in
          rw (sym same) (
            whole_offers tokens word _ (no_word start_index line (ground (arith, fresh))) tokens
              (λ _ m. m))
      | inr begun ↦
          let (number, returned, _) = >>=_inv (int word) _ (rw begun at e) in
          elim (Bool-cases (start_index == length (codes "state_of") + 1)) [
            | inl placed ↦
                let same : tokens_from word (drop end_index line) tokens ≡ offered =
                  ground (arith, rw placed at returned) in
                rw (sym same) (tokens_from_offers tokens word _ tokens (λ _ m. m))
            | inr elsewhere ↦ absurd (ground (arith, rw elsewhere at returned))
          ]
    ]

-- The value is the name of an allowed ledger, which starts with the word where a space is put to it.
abbrev pub IsLedgerOffer : (allowed : List Text) (current_word value : Text) → Type 0
IsLedgerOffer allowed word value =
    (i : Text) × Memᴰ i allowed
    × ((value ≡ i) ⊎ ((value ≡ i ++ codes " ") × (starts_with i word ≡ true)))

ledgers_offers :
    (known : List Text) (word : Text) (allowed : List Text)
    → ((i : Text) → Memᴰ i allowed → Memᴰ i known)
    → All (IsLedgerOffer known word) allowed
      × All (IsLedgerOffer known word) (ledgers_from word allowed)
unfolding ledgers_from
ledgers_offers known word [] all = (tt, tt)
ledgers_offers known word (i ∷ allowed) all =
    let known_i = all i (Memᴰ.head refl) in
    let (names, spaced) = ledgers_offers known word allowed (λ s m. all s (Memᴰ.tail m)) in
    (
      ((i, known_i, inl refl), names),
      elim (Bool-cases (starts_with i word)) [
        | inl hit ↦ rw hit ((i, known_i, inr (refl, hit)), spaced)
        | inr miss ↦ rw miss spaced
      ],
    )

-- Behind the first argument.
second_offers :
    (tokens : List Text) (line : Text) (start_index end_index : ℕ) (offered : List Text)
    → (second_of (words_of line) >>= λ first_arg. ok (
        if (length line == start_index) && (length (words_of line) == 2)
        then some tokens
        else if start_index == length (codes "transfer_out") + length first_arg + 2
        then some
            (tokens_from (first_of (words_of (drop start_index line))) (drop end_index line) tokens)
        else none))
      ≡ ok (some offered)
    → All
        (IsOffer tokens (first_of (words_of (drop start_index line))) (drop end_index line))
        offered
second_offers tokens line start_index end_index offered e =
    let word = first_of (words_of (drop start_index line)) in
    let (first_arg, returned, _) = >>=_inv (second_of (words_of line)) _ e in
    elim (Bool-cases ((length line == start_index) && (length (words_of line) == 2))) [
      | inl fresh ↦
          let same : tokens ≡ offered = ground (arith, rw fresh at returned) in
          rw (sym same) (
            whole_offers tokens word _ (no_word start_index line (ground (arith, fresh))) tokens
              (λ _ m. m))
      | inr begun ↦
          let left = rw begun at returned in
          elim (Bool-cases (start_index == length (codes "transfer_out") + length first_arg + 2)) [
            | inl placed ↦
                let same : tokens_from word (drop end_index line) tokens ≡ offered =
                  ground (arith, rw placed at left) in
                rw (sym same) (tokens_from_offers tokens word _ tokens (λ _ m. m))
            | inr elsewhere ↦ absurd (ground (arith, rw elsewhere at left))
          ]
    ]

-- Completing `transfer_out` offers either the names of allowed ledgers, with a space or without one,
-- or known tokens that start with the word at the cursor, or such tokens without the rest of the line
-- behind the cursor, which is their end.
pub complete_transfer_out_offers :
    (tokens : List Text) (line : Text) (start_index end_index : ℕ) (allowed offered : List Text)
    → complete_transfer_out tokens line start_index end_index allowed ≡ ok (some offered)
    → All (IsLedgerOffer allowed (first_of (words_of (drop start_index line)))) offered
      ⊎ All
          (IsOffer tokens (first_of (words_of (drop start_index line))) (drop end_index line))
          offered
unfolding complete_transfer_out
complete_transfer_out_offers tokens line start_index end_index allowed offered e =
    let word = first_of (words_of (drop start_index line)) in
    let (names, spaced) = ledgers_offers allowed word allowed (λ _ m. m) in
    elim (Bool-cases (length (words_of (take end_index line)) == 1)) [
      | inl one ↦
          let same : allowed ≡ offered = ground (arith, rw one at e) in inl (rw (sym same) names)
      | inr more ↦ elim (Bool-cases (is_in word allowed)) [
        | inl chosen ↦ absurd (ground (arith, rw chosen at (rw more at e)))
        | inr missing ↦
            let rest = rw missing at (rw more at e) in
            elim (Bool-cases (start_index == length (codes "transfer_out") + 1)) [
              | inl first ↦
                  let same : ledgers_from word allowed ≡ offered =
                    ground (arith, rw first at rest) in
                  inl (rw (sym same) spaced)
              | inr second ↦
                  inr (second_offers tokens line start_index end_index offered (rw second at rest))
            ]
      ]
    ]
