-- ===== src/Tests/Demos.antt =====
-- A session of the demo with two ledgers, between which a token goes over while the demo sleeps.

use Prim.Native.String.{String}
use text.Mathlib.Text.{◌==◌ as str_eq}
use decentralised_interledge.Prelude.{
  ℕ, zero, suc, Bool, true, false, some, [], ◌∷◌, ok, All, ◌<◌, ◌≡◌, ◌≢◌, ◌⊎◌, refl, if◌then◌else◌,
  arith,
}
use decentralised_interledge.Prelude.Int.{ℤ, pos}
use decentralised_interledge.Prelude.Actions.{Action}
use decentralised_interledge.Config.Texts.{
  Text, codes, int, skip_spaces, read_signed, read_number, read_digits, all_spaces,
}
use decentralised_interledge.Ethereum.Events.{decimal, digits}
use decentralised_interledge.Demo.Lines.{drop, is_in, words_of, scan, rfind}
use decentralised_interledge.Demo.Completion.{
  first_of, complete_transfer_out, value_for, tokens_from,
}
use decentralised_interledge.Demo.Completed.{IsOffer, IsLedgerOffer, complete_transfer_out_offers}
use decentralised_interledge.Demo.Ledgers.{Sdk, Ledger, LedgerPair, send_transaction, send}
use decentralised_interledge.Demo.Commands.{
  Session, call, mint_at, mint_token, do_mint, show_states, wait_for_left, do_example_run,
}
use decentralised_interledge.Demo.Session.{mint, onecmd}
use decentralised_interledge.Demo.Seen.{ToldLast, do_mint_activates}
use decentralised_interledge.Demo.Handover.{EndsAsTold, do_example_run_ends_as_told}
use decentralised_interledge.Demo.Waiting.{after_sleeps, wait_for_left_ends}
use decentralised_interledge.Demo.Known.{AreIds, onecmd_knows}

-- The states of the token in the ledgers, of which the left one is `true`.
abbrev World : Type 0
World = ℕ × ℕ

abbrev state_at : Bool → World → ℕ
state_at true w = w.0
state_at false w = w.1

-- The left ledger activates the token and gives it out.
abbrev after_call : String → World → World
after_call name w =
    if str_eq name "interledgerReceive"
    then (2, w.1)
    else if str_eq name "transferOut"
    then (1, w.1)
    else w

-- The transfer is done while the demo sleeps.
abbrev after_sleep : World → World
after_sleep (suc zero, right) = (0, 2)
after_sleep w = w

abbrev sdk : Sdk World
sdk = record {
  Web3 = Bool;
  Abi = Unit {0};
  Contract = Bool;
  connect = λ _ w. (ok true, w);
  inject_poa = λ _ w. (ok tt, w);
  is_connected = λ _ w. (ok true, w);
  read_contract_abi = λ _ w. (ok tt, w);
  contract = λ web3 _ _ w. (ok web3, w);
  accounts = λ _ w. (ok (codes "a" ∷ []), w);
  to_bytes = λ _ text. ok text;
  encode_uint256 = λ _. ok [];
  decode_uint256 = λ _. ok (pos 7);
  call_state = λ side _ w. (ok (state_at side w), w);
  transact = λ _ name _ _ w. (ok 1, after_call name w);
  wait_for_receipt = λ _ _ w. (ok tt, w);
  explain = λ w. (ok tt, w);
  sleep = λ w. (ok tt, after_sleep w);
}

abbrev ledger : Bool → Ledger Bool Bool
ledger side = record {
  web3 = side;
  endpoint = codes "http://localhost:7545";
  minter = codes "m";
  contract_address = codes "c";
  contract = side;
  user = some (codes "a");
}

abbrev ledgers : LedgerPair Bool Bool
ledgers = record { left = ledger true; right = ledger false }

abbrev fresh : Session World
fresh = record { world = (0, 0); tokens = []; shown = [] }

abbrev line : Text
line = codes "7 weapons/ Sword"

line_words : words_of line ≡ codes "7" ∷ codes "weapons/" ∷ codes "Sword" ∷ []
unfolding words_of scan
line_words = refl

abbrev minted : Session World
minted = record { world = (2, 0); tokens = codes "7" ∷ []; shown = [] }

mints : do_mint sdk ledgers line fresh ≡ (ok tt, minted)
unfolding do_mint words_of scan mint_token mint_at call send_transaction send int skip_spaces
    read_signed read_number read_digits all_spaces decimal digits
mints = refl

do_mint_activates_example :
    (id : ℤ) × (int (codes "7") ≡ ok id) × ToldLast sdk ledgers (ledger true) id 2 minted
do_mint_activates_example =
    do_mint_activates sdk ledgers line (codes "7") (codes "weapons/") (codes "Sword") fresh minted
      line_words mints

abbrev ended : Session World
ended = (do_example_run sdk ledgers 3 (pos 7) fresh).1

runs : do_example_run sdk ledgers 3 (pos 7) fresh ≡ (ok true, ended)
unfolding do_example_run mint_at show_states wait_for_left call send_transaction send decimal digits
runs = refl

do_example_run_ends_as_told_example : EndsAsTold sdk ledgers (pos 7) ended
do_example_run_ends_as_told_example =
    do_example_run_ends_as_told sdk ledgers 3 (pos 7) fresh ended runs

-- A token that is on its way.
abbrev leaving : Session World
leaving = record { world = (1, 0); tokens = []; shown = [] }

before_the_sleep : (j : ℕ) → j < 1 → (after_sleeps after_sleep j (1, 0)).0 ≢ 0
unfolding after_sleeps
before_the_sleep zero less = λ h. cc
before_the_sleep (suc j) less = absurd (omega arith)

wait_for_left_ends_example :
    wait_for_left sdk ledgers 2 (pos 7) leaving
    ≡ (ok true, record leaving { world = after_sleeps after_sleep 1 (1, 0) })
unfolding after_sleeps
wait_for_left_ends_example =
    wait_for_left_ends sdk ledgers (pos 7) (λ w. w.0) after_sleep (λ w. refl) (λ w. refl) 1 2
      leaving before_the_sleep refl (omega arith)

abbrev no_help : Text → Action World (Unit {0})
no_help topic w = (ok tt, w)

onecmd_knows_example :
    AreIds (onecmd sdk ledgers no_help (mint line) fresh).1.tokens
    × ((t : Text)
        → is_in t [] ≡ true
        → is_in t (onecmd sdk ledgers no_help (mint line) fresh).1.tokens ≡ true)
onecmd_knows_example = onecmd_knows sdk ledgers no_help (mint line) fresh tt

-- The cursor stands behind the 1 of a token 12, of which the rest is there.
abbrev typed : Text
typed = codes "transfer_out left 12"

offers :
    complete_transfer_out
      (codes "12" ∷ codes "25" ∷ [])
      typed
      18
      19
      (codes "left" ∷ codes "right" ∷ [])
    ≡ ok (some (codes "1" ∷ []))
unfolding complete_transfer_out words_of scan tokens_from value_for rfind
offers = refl

complete_transfer_out_offers_example :
    All
      (IsLedgerOffer (codes "left" ∷ codes "right" ∷ []) (first_of (words_of (drop 18 typed))))
      (codes "1" ∷ [])
    ⊎ All
        (IsOffer
          (codes "12" ∷ codes "25" ∷ [])
          (first_of (words_of (drop 18 typed)))
          (drop 19 typed))
        (codes "1" ∷ [])
complete_transfer_out_offers_example =
    complete_transfer_out_offers (codes "12" ∷ codes "25" ∷ []) typed 18 19
      (codes "left" ∷ codes "right" ∷ []) (codes "1" ∷ []) offers
