-- ===== src/Demo/Seen.antt =====
-- What a command that returns has been told by the ledgers: failures of transactions are swallowed,
-- but a state that is asked for is the ledger's.
use decentralised_interledge.Prelude.{
  ℕ, Bool, true, false, ==_iff, Option, none, some, [], ◌∷◌, Result, ok, err, Exception,
  value_error, assertion_error, ◌≡◌, refl, sym, ap,
}
use decentralised_interledge.Prelude.Int.{ℤ}
use decentralised_interledge.Prelude.Actions.{pure, lift, ◌>>=◌, continue, continue_run}
use decentralised_interledge.Config.Texts.{Text, int}
use decentralised_interledge.Prelude.Promises.{
  no_value, Ensures, Ensures-lift, Ensures-continue, Ensures-weaken,
}
use decentralised_interledge.Demo.Lines.{words_of}
use decentralised_interledge.Demo.Ledgers.{
  integer, Sdk, LedgerPair, DemoLedger, send, recover, send_transaction,
}
use decentralised_interledge.Demo.Commands.{
  Session, on_world, is_state, query, mint_at, mint_token, call, do_mint, activate, remember,
  assert_that,
}

module _ {W : Type 0} (sdk : Sdk W) (ledgers : LedgerPair sdk.Web3 sdk.Contract) where
  explained_none :
      (p : Result (Unit {0}) × W) (n : ℕ) → ¬ ((continue p (λ _. pure none)).0 ≡ ok (some n))
  explained_none (ok _, w) n e = cc
  explained_none (err x, w) n e = cc

  recover_none : (x : Exception) (w : W) (n : ℕ) → ¬ ((recover sdk (err x, w)).0 ≡ ok (some n))
  recover_none value_error w n e = explained_none (sdk.explain w) n e
  recover_none x w n e = cc

  told :
      (p : Result ℕ × W) (s s' : Session W) (n : ℕ)
      → on_world (λ _. recover sdk (continue p (λ state. pure (some state)))) s ≡ (ok (some n), s')
      → p ≡ (ok n, s'.world)
  told (ok m, w) s s' n e =
      let same : m ≡ n = cc in
      let there : w ≡ s'.world = ap (λ q. q.1.world) e in rw (same, there) refl
  told (err x, w) s s' n e = absurd (recover_none x w n (ap (λ q. q.0) e))

  pub query_told :
      (ledger : DemoLedger sdk) (id : ℤ) (s s' : Session W) (n : ℕ)
      → query sdk ledgers ledger id s ≡ (ok (some n), s')
      → sdk.call_state ledger.contract (integer id) s.world ≡ (ok n, s'.world)
  unfolding call send_transaction send
  query_told ledger id s s' n e =
      told (sdk.call_state ledger.contract (integer id) s.world) s s' n e

  pub is_state_told :
      (wanted : ℕ) (state : Option ℕ) → is_state wanted state ≡ true → state ≡ some wanted
  is_state_told wanted none e = cc
  is_state_told wanted (some n) e = ap some ((==_iff n wanted).0 e)

  assert_holds :
      (b : Bool) (s s' : Session W) → assert_that b s ≡ (ok tt, s') → (b ≡ true) × (s ≡ s')
  assert_holds true s s' e = (refl, ap (λ q. q.1) e)
  assert_holds false s s' e = absurd (no_value assertion_error tt (ap (λ q. q.0) e))

  -- The left ledger has told that it has the state, right before.
  abbrev pub ToldLast : (ledger : DemoLedger sdk) → ℤ → ℕ → Session W → Type 0
  ToldLast ledger id n s =
      (w : W) × (sdk.call_state ledger.contract (integer id) w ≡ (ok n, s.world))

  check_ensures :
      (ledger : DemoLedger sdk) (id : ℤ) (wanted : ℕ)
      → Ensures
          (query sdk ledgers ledger id >>= λ state. assert_that (is_state wanted state))
          (λ _ s'. ToldLast ledger id wanted s')
  unfolding Ensures
  check_ensures ledger id wanted s s' _ e =
      let (state, s1, asked, required) =
        continue_run (query sdk ledgers ledger id s) (λ state. assert_that (is_state wanted state))
          e in
      let (holds, same) = assert_holds (is_state wanted state) s1 s' required in
      let told_wanted = rw (is_state_told wanted state holds) at asked in
      (s.world, rw (sym same) (query_told ledger id s s1 wanted told_wanted))

  minted :
      (a b c : Text)
      → Ensures
          (mint_token sdk ledgers a b c)
          (λ _ s'. (id : ℤ) × (int a ≡ ok id) × ToldLast ledgers.left id 2 s')
  unfolding mint_token
  minted a b c = Ensures-lift _ (int a) _ λ id read.
      Ensures-continue _ (lift (sdk.encode_uint256 id)) _ λ token_data.
        Ensures-continue _ (remember id) _ λ _.
          Ensures-continue _ (lift (sdk.to_bytes ledgers.left.web3 c)) _ λ name.
            Ensures-continue _ (mint_at sdk ledgers ledgers.left id b name) _ λ _.
              Ensures-continue _ (mint_at sdk ledgers ledgers.right id b name) _ λ _.
                Ensures-continue _ (activate sdk ledgers token_data) _ λ _.
                  Ensures-weaken _ _ _ (λ _ s' told_here. (id, read, told_here))
                    (check_ensures ledgers.left id 2)

  -- A mint with its three parameters that returns leaves the demo right behind an answer of the left
  -- ledger that the state of the token with this id is 2, whatever became of the transactions
  -- before, whose failures are swallowed.
  pub do_mint_activates :
      (line a b c : Text) (s s' : Session W)
      → words_of line ≡ a ∷ b ∷ c ∷ []
      → do_mint sdk ledgers line s ≡ (ok tt, s')
      → (id : ℤ) × (int a ≡ ok id) × ToldLast ledgers.left id 2 s'
  unfolding do_mint Ensures
  do_mint_activates line a b c s s' words e = minted a b c s s' tt (rw words at e)
