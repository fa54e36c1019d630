-- ===== src/Demo/Known.antt =====
-- What the session keeps from line to line: the tokens that it knows; and which lines end it.
use decentralised_interledge.Prelude.{
  Bool, true, false, ◌||◌, Option, none, some, List, [], ◌∷◌, ◌++◌, Result, ok, err, Bool-cases,
  if◌then◌else◌, ◌≡◌, ◌↔◌, refl, inl, inr, arith,
}
use decentralised_interledge.Prelude.Int.{ℤ, pos, negsuc}
use decentralised_interledge.Prelude.Actions.{Action, pure, continue}
use decentralised_interledge.Interfaces.{bytes_eq}
use decentralised_interledge.Config.Texts.{Text, codes, int}
use decentralised_interledge.Config.Numerals.{int_of_decimal, int_of_negative}
use decentralised_interledge.Demo.Lines.{words_of, is_in}
use decentralised_interledge.Demo.Ledgers.{Sdk, LedgerPair}
use decentralised_interledge.Prelude.Promises.{Keeps, Keeps-continue, Keeps-pure}
use decentralised_interledge.Demo.Commands.{
  Session, str_of, with_token, on_world, do_mint, do_transfer_out, do_state_of, do_example_run,
}
use decentralised_interledge.Demo.Session.{
  Command, mint, transfer_out, state_of, other, help, exit, example_run, none_of, method, caught,
  onecmd,
}
use decentralised_interledge.Demo.Kept.{
  IsKept, Keeps-on_world, Keeps-mint_args, Keeps-transfer_args, Keeps-state_args,
  Keeps-do_example_run,
}

module _ {W : Type 0} (sdk : Sdk W) (ledgers : LedgerPair sdk.Web3 sdk.Contract)
    (library_help : Text → Action W (Unit {0})) where
  module _ (P : Session W → Type 0) (kept : IsKept P) where
    behind_none :
        (body : Action (Session W) (Unit {0}))
        → Keeps P body
        → Keeps P (none_of sdk ledgers library_help body)
    behind_none body keeps = Keeps-continue P body _ keeps λ _. Keeps-pure P (some false)

    Keeps-method : (command : Command) → Keeps P (method sdk ledgers library_help command)
    unfolding method do_mint do_transfer_out do_state_of
    Keeps-method (mint line) = behind_none _ (Keeps-mint_args sdk ledgers P kept (words_of line))
    Keeps-method (transfer_out line) =
        behind_none _ (Keeps-transfer_args sdk ledgers P kept (words_of line))
    Keeps-method (state_of line) =
        behind_none _ (Keeps-state_args sdk ledgers P kept (words_of line))
    Keeps-method (other line) =
        elim (bytes_eq line (codes "q"))
          as (λ b. Keeps P (if b then pure (some true) else pure (some false))) [
            | true ↦ Keeps-pure P (some true)
            | false ↦ Keeps-pure P (some false)
          ]
    Keeps-method (help line) = behind_none _ (Keeps-on_world sdk ledgers P kept (library_help line))
    Keeps-method (exit line) = Keeps-pure P (some true)
    Keeps-method (example_run polls id) =
        Keeps-continue P (do_example_run sdk ledgers polls id) _
          (Keeps-do_example_run sdk ledgers P kept polls id)
          λ ended. Keeps-pure P (if ended then some false else none)

    caught_keeps :
        (p : Result (Option Bool) × Session W) → P p.1 → P (caught sdk ledgers library_help p).1
    caught_keeps (ok stop, s) h = h
    caught_keeps (err e, s) h = h

    onecmd_keeps :
        (command : Command) (s : Session W) → P s → P (onecmd sdk ledgers library_help command s).1
    unfolding onecmd Keeps
    onecmd_keeps command s h =
        caught_keeps (method sdk ledgers library_help command s) (Keeps-method command s h)

-- The text is the decimal one of a number, by which the commands find the token again.
abbrev pub IsId : Text → Type 0
IsId t = (id : ℤ) × (t ≡ str_of id) × (int t ≡ ok id)

-- The tokens are such texts, and none is there twice.
abbrev pub AreIds : List Text → Type 0
AreIds [] = Unit
AreIds (t ∷ tokens) = IsId t × (is_in t tokens ≡ false) × AreIds tokens

str_of-IsId : (id : ℤ) → IsId (str_of id)
str_of-IsId (pos n) = (pos n, refl, int_of_decimal n)
str_of-IsId (negsuc n) = (negsuc n, refl, int_of_negative n)

bytes_eq_comm : (a b : Text) → bytes_eq a b ≡ bytes_eq b a
bytes_eq_comm [] [] = refl
bytes_eq_comm [] (y ∷ b) = refl
bytes_eq_comm (x ∷ a) [] = refl
bytes_eq_comm (x ∷ a) (y ∷ b) = ground (arith, bytes_eq_comm a b)

is_in-append :
    (t u : Text) (tokens : List Text)
    → is_in t (tokens ++ (u ∷ [])) ≡ (is_in t tokens || bytes_eq t u)
is_in-append t u [] = ground arith
is_in-append t u (x ∷ tokens) = ground (arith, is_in-append t u tokens)

append-AreIds :
    (u : Text) (tokens : List Text)
    → IsId u
    → is_in u tokens ≡ false
    → AreIds tokens
    → AreIds (tokens ++ (u ∷ []))
append-AreIds u [] ids absent h = (ids, refl, tt)
append-AreIds u (t ∷ tokens) ids absent (id, single, rest) = (
  id,
  ground (arith, is_in-append t u tokens, bytes_eq_comm u t, absent, single),
  append-AreIds u tokens ids (ground (arith, absent)) rest,
)

with_token-AreIds :
    (id : ℤ) (tokens : List Text) → AreIds tokens → AreIds (with_token (str_of id) tokens)
with_token-AreIds id tokens h = elim (Bool-cases (is_in (str_of id) tokens)) [
  | inl old ↦ rw old h
  | inr new ↦ rw new (append-AreIds (str_of id) tokens (str_of-IsId id) new h)
]

with_token_in :
    (t u : Text) (tokens : List Text) → is_in t tokens ≡ true → is_in t (with_token u tokens) ≡ true
with_token_in t u tokens h = elim (Bool-cases (is_in u tokens)) [
  | inl old ↦ rw old h
  | inr new ↦ rw new (rw (is_in-append t u tokens) (rw h refl))
]

module _ {W : Type 0} (sdk : Sdk W) (ledgers : LedgerPair sdk.Web3 sdk.Contract)
    (library_help : Text → Action W (Unit {0})) where
  -- Whatever a line does, and also where it raises: the tokens that are known are texts of numbers,
  -- which `int` reads back, and none is there twice, if this was so; and a token that was known is
  -- known.
  pub onecmd_knows :
      (command : Command) (s : Session W)
      → AreIds s.tokens
      → AreIds (onecmd sdk ledgers library_help command s).1.tokens
        × ((t : Text)
            → is_in t s.tokens ≡ true
            → is_in t (onecmd sdk ledgers library_help command s).1.tokens ≡ true)
  onecmd_knows command s h = (
    onecmd_keeps sdk ledgers library_help (λ s. AreIds s.tokens)
        (record {
          in_world = λ s w h. h;
          in_shown = λ s shown h. h;
          in_tokens = λ s id h. with_token-AreIds id s.tokens h;
        })
        command s h,
    λ t known.
        onecmd_keeps sdk ledgers library_help (λ s. is_in t s.tokens ≡ true)
          (record {
            in_world = λ s w h. h;
            in_shown = λ s shown h. h;
            in_tokens = λ s id h. with_token_in t (str_of id) s.tokens h;
          })
          command s known,
  )

  -- The lines that end the session.
  abbrev pub Ends : Command → Type 0
  Ends (exit line) = Unit
  Ends (other line) = bytes_eq line (codes "q") ≡ true
  Ends _ = ⊥

  none_goes_on :
      (p : Result (Unit {0}) × Session W)
      → ¬ ((caught sdk ledgers library_help (continue p (λ _. pure (some false)))).0 ≡ some true)
  none_goes_on (ok _, s) e = cc
  none_goes_on (err x, s) e = cc

  run_goes_on :
      (p : Result Bool × Session W)
      → ¬ (
          (caught sdk ledgers library_help
            (continue p (λ ended. pure (if ended then some false else none)))).0
          ≡ some true)
  run_goes_on (ok true, s) e = cc
  run_goes_on (ok false, s) e = cc
  run_goes_on (err x, s) e = cc

  -- The session ends with the commands for it and the line `q` only, whatever the ledgers do and
  -- whatever is raised.
  pub onecmd_ends :
      (command : Command) (s : Session W)
      → ((onecmd sdk ledgers library_help command s).0 ≡ some true) ↔ Ends command
  unfolding onecmd method
  onecmd_ends (mint line) s = (λ e. none_goes_on (do_mint sdk ledgers line s) e, λ h. absurd h)
  onecmd_ends (transfer_out line) s =
      (λ e. none_goes_on (do_transfer_out sdk ledgers line s) e, λ h. absurd h)
  onecmd_ends (state_of line) s =
      (λ e. none_goes_on (do_state_of sdk ledgers line s) e, λ h. absurd h)
  onecmd_ends (help line) s = (λ e. none_goes_on (on_world (library_help line) s) e, λ h. absurd h)
  onecmd_ends (example_run polls id) s =
      (λ e. run_goes_on (do_example_run sdk ledgers polls id s) e, λ h. absurd h)
  onecmd_ends (exit line) s = (λ _. tt, λ _. refl)
  onecmd_ends (other line) s = elim (Bool-cases (bytes_eq line (codes "q"))) [
    | inl quits ↦ (λ _. quits, λ _. rw quits refl)
    | inr goes ↦ (λ e. ground (arith, goes, e), λ h. ground (arith, goes, h))
  ]
