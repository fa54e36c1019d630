-- ===== src/Demo/Kept.antt =====
-- What every command leaves alone: a predicate that the ledgers, the printing and a token that is
-- remembered keep.
use Prim.Native.String.{String}
use decentralised_interledge.Prelude.{
  ℕ, zero, suc, Bool, true, false, Option, none, some, List, [], ◌∷◌, Result, if◌then◌else◌,
}
use decentralised_interledge.Prelude.Int.{ℤ, pos}
use decentralised_interledge.Prelude.Actions.{Action, lift, pure, ◌>>=◌}
use decentralised_interledge.Interfaces.{Bytes}
use decentralised_interledge.Config.Texts.{Text, codes, int}
use decentralised_interledge.Demo.Ledgers.{
  Argument, address, uri, bytes, integer, Sdk, LedgerPair, DemoLedger, user_of, send_transaction,
}
use decentralised_interledge.Prelude.Promises.{Keeps, Keeps-continue, Keeps-lift, Keeps-pure}
use decentralised_interledge.Demo.Commands.{
  Session, Status, str_of, with_token, is_state, state_name, on_world, remember, print_state,
  assert_that, call, query, mint_at, activate, mint_token, mint_args, ledger_of, transfer_token,
  transfer_args, show_states, state_args, wait_for_left, finish, do_example_run,
}

-- A predicate that the ledgers and the printing leave alone, and each token that is remembered.
pub record IsKept {W : Type 0} (P : Session W → Type 0) : Type 0 where
  pub in_world : (s : Session W) (w : W) → P s → P (record s { world = w })
  pub in_shown : (s : Session W) (shown : List Status) → P s → P (record s { shown = shown })
  pub in_tokens :
      (s : Session W) (id : ℤ) → P s → P (record s { tokens = with_token (str_of id) s.tokens })

module _ {W : Type 0} (sdk : Sdk W) (ledgers : LedgerPair sdk.Web3 sdk.Contract)
    (P : Session W → Type 0) (kept : IsKept P) where
  pub Keeps-on_world : {A : Type 0} (body : Action W A) → Keeps P (on_world body)
  unfolding Keeps
  Keeps-on_world body s h = kept.in_world s (body s.world).1 h

  Keeps-print_state :
      (ledger : String) (id : ℤ) (name : String) → Keeps P (print_state ledger id name)
  unfolding Keeps
  Keeps-print_state ledger id name s h = kept.in_shown s _ h

  Keeps-remember : (id : ℤ) → Keeps P (remember id)
  unfolding Keeps
  Keeps-remember id s h = kept.in_tokens s id h

  Keeps-assert_that : (b : Bool) → Keeps P (assert_that b)
  unfolding Keeps
  Keeps-assert_that true s h = h
  Keeps-assert_that false s h = h

  Keeps-call :
      (ledger : DemoLedger sdk) (from_address : Text) (name : String) (arguments : List Argument)
      → Keeps P (call sdk ledgers ledger from_address name arguments)
  unfolding call
  Keeps-call ledger from_address name arguments =
      Keeps-on_world (send_transaction sdk ledger from_address name arguments)

  -- What follows a value, which changes nothing.
  behind_lift :
      {A B : Type 0} (r : Result A) (f : A → Action (Session W) B)
      → ((a : A) → Keeps P (f a))
      → Keeps P (lift r >>= f)
  behind_lift r f = Keeps-continue P (lift r) f (Keeps-lift P r)

  behind_call :
      {B : Type 0} (ledger : DemoLedger sdk) (from_address : Text) (name : String)
      (arguments : List Argument) (f : Option ℕ → Action (Session W) B)
      → ((a : Option ℕ) → Keeps P (f a))
      → Keeps P (call sdk ledgers ledger from_address name arguments >>= f)
  behind_call ledger from_address name arguments f =
      Keeps-continue P (call sdk ledgers ledger from_address name arguments) f
        (Keeps-call ledger from_address name arguments)

  behind_query :
      {B : Type 0} (ledger : DemoLedger sdk) (id : ℤ) (f : Option ℕ → Action (Session W) B)
      → ((a : Option ℕ) → Keeps P (f a))
      → Keeps P (query sdk ledgers ledger id >>= f)
  behind_query ledger id f = behind_call ledger ledger.minter "getStateOfToken" (integer id ∷ []) f

  behind_activate :
      {B : Type 0} (token_data : Bytes) (f : Option ℕ → Action (Session W) B)
      → ((a : Option ℕ) → Keeps P (f a))
      → Keeps P (activate sdk ledgers token_data >>= f)
  behind_activate token_data f = Keeps-continue P (activate sdk ledgers token_data) f (
      Keeps-call ledgers.left ledgers.left.minter "interledgerReceive"
        (integer (pos 1) ∷ bytes token_data ∷ []))

  Keeps-mint_at :
      (ledger : DemoLedger sdk) (id : ℤ) (token_uri : Text) (name : Bytes)
      → Keeps P (mint_at sdk ledgers ledger id token_uri name)
  unfolding mint_at
  Keeps-mint_at ledger id token_uri name = behind_lift (user_of ledger) _ λ user.
      behind_call ledger ledger.minter "mint"
        (address user ∷ integer id ∷ uri token_uri ∷ bytes name ∷ []) _ λ _. Keeps-pure P tt

  behind_mint :
      {B : Type 0} (ledger : DemoLedger sdk) (id : ℤ) (token_uri : Text) (name : Bytes)
      (f : Unit {0} → Action (Session W) B)
      → ((a : Unit {0}) → Keeps P (f a))
      → Keeps P (mint_at sdk ledgers ledger id token_uri name >>= f)
  behind_mint ledger id token_uri name f =
      Keeps-continue P (mint_at sdk ledgers ledger id token_uri name) f
        (Keeps-mint_at ledger id token_uri name)

  Keeps-mint_token : (a b c : Text) → Keeps P (mint_token sdk ledgers a b c)
  unfolding mint_token
  Keeps-mint_token a b c = behind_lift (int a) _ λ id.
      behind_lift (sdk.encode_uint256 id) _ λ token_data.
        Keeps-continue P (remember id) _ (Keeps-remember id) λ _.
          behind_lift (sdk.to_bytes ledgers.left.web3 c) _ λ name.
            behind_mint ledgers.left id b name _ λ _. behind_mint ledgers.right id b name _ λ _.
              behind_activate token_data _
                λ _. behind_query ledgers.left id _ λ state. Keeps-assert_that (is_state 2 state)

  pub Keeps-mint_args : (words : List Text) → Keeps P (mint_args sdk ledgers words)
  Keeps-mint_args (a ∷ b ∷ c ∷ []) = Keeps-mint_token a b c
  Keeps-mint_args _ = Keeps-pure P tt

  pub Keeps-transfer_args : (words : List Text) → Keeps P (transfer_args sdk ledgers words)
  Keeps-transfer_args (a ∷ b ∷ []) =
      elim (ledger_of sdk ledgers a) as (λ l. Keeps P (transfer_token sdk ledgers l b)) [
        | none ↦ Keeps-pure P tt
        | some ledger ↦ behind_lift (int b) _ λ id.
            Keeps-continue P (remember id) _ (Keeps-remember id) λ _.
              behind_lift (user_of ledger) _ λ user.
                behind_call ledger user "transferOut" (integer id ∷ []) _ λ _. Keeps-pure P tt
      ]
  Keeps-transfer_args _ = Keeps-pure P tt

  behind_print :
      {B : Type 0} (ledger : String) (id : ℤ) (name : String) (f : Unit {0} → Action (Session W) B)
      → ((a : Unit {0}) → Keeps P (f a))
      → Keeps P (print_state ledger id name >>= f)
  behind_print ledger id name f =
      Keeps-continue P (print_state ledger id name) f (Keeps-print_state ledger id name)

  Keeps-show_states : (id : ℤ) → Keeps P (show_states sdk ledgers id)
  unfolding show_states
  Keeps-show_states id = behind_query ledgers.left id _ λ left.
      behind_query ledgers.right id _ λ right. behind_lift (state_name left) _ λ left_name.
        behind_print "left" id left_name _ λ _.
          behind_lift (state_name right) _ λ right_name. Keeps-print_state "right" id right_name

  pub Keeps-state_args : (words : List Text) → Keeps P (state_args sdk ledgers words)
  Keeps-state_args (a ∷ []) =
      behind_lift (int a) _
        λ id. Keeps-continue P (remember id) _ (Keeps-remember id) λ _. Keeps-show_states id
  Keeps-state_args _ = Keeps-pure P tt

  Keeps-wait_for_left : (polls : ℕ) (id : ℤ) → Keeps P (wait_for_left sdk ledgers polls id)
  unfolding wait_for_left
  Keeps-wait_for_left zero id = Keeps-pure P false
  Keeps-wait_for_left (suc polls) id = behind_query ledgers.left id _ λ state.
      elim (is_state 0 state)
        as (λ b. Keeps P (
          if b
          then pure true
          else (on_world sdk.sleep >>= λ _. wait_for_left sdk ledgers polls id))) [
            | true ↦ Keeps-pure P true
            | false ↦
                Keeps-continue P (on_world sdk.sleep) _ (Keeps-on_world sdk.sleep)
                  λ _. Keeps-wait_for_left polls id
          ]

  Keeps-finish : (id : ℤ) (ended : Bool) → Keeps P (finish sdk ledgers id ended)
  Keeps-finish id false = Keeps-pure P false
  Keeps-finish id true = behind_query ledgers.right id _ λ right.
      behind_lift (state_name (some 0)) _ λ left_name. behind_print "left" id left_name _ λ _.
        behind_lift (state_name right) _
          λ right_name. behind_print "right" id right_name _ λ _. Keeps-pure P true

  behind_sleep :
      {B : Type 0} (f : Unit {0} → Action (Session W) B)
      → ((a : Unit {0}) → Keeps P (f a))
      → Keeps P (on_world sdk.sleep >>= f)
  behind_sleep f = Keeps-continue P (on_world sdk.sleep) f (Keeps-on_world sdk.sleep)

  behind_show :
      {B : Type 0} (id : ℤ) (f : Unit {0} → Action (Session W) B)
      → ((a : Unit {0}) → Keeps P (f a))
      → Keeps P (show_states sdk ledgers id >>= f)
  behind_show id f = Keeps-continue P (show_states sdk ledgers id) f (Keeps-show_states id)

  pub Keeps-do_example_run : (polls : ℕ) (id : ℤ) → Keeps P (do_example_run sdk ledgers polls id)
  unfolding do_example_run
  Keeps-do_example_run polls id = behind_lift (sdk.encode_uint256 id) _ λ token_data.
      Keeps-continue P (remember id) _ (Keeps-remember id) λ _.
        behind_lift (sdk.to_bytes ledgers.left.web3 (codes "Sword")) _ λ name.
          behind_mint ledgers.left id (codes "weapons/") name _ λ _.
            behind_mint ledgers.right id (codes "weapons/") name _ λ _. behind_sleep _ λ _.
              behind_show id _ λ _. behind_activate token_data _ λ _. behind_sleep _ λ _.
                behind_show id _ λ _. behind_lift (user_of ledgers.left) _ λ user.
                  behind_call ledgers.left user "transferOut" (integer id ∷ []) _ λ _.
                    behind_show id _ λ _.
                      Keeps-continue P (wait_for_left sdk ledgers polls id) _
                        (Keeps-wait_for_left polls id) λ ended. Keeps-finish id ended
