-- ===== src/Demo/Handover.antt =====
-- What `example_run` has been told when it returns.
use Prim.Native.String.{String}
use decentralised_interledge.Prelude.{
  ℕ, zero, suc, Bool, true, false, Option, none, some, List, [], ◌∷◌, ok, key_error, Bool-cases,
  ◌≡◌, refl, sym, ap, ◌∙◌, inl, inr,
}
use decentralised_interledge.Prelude.Int.{ℤ}
use decentralised_interledge.Prelude.Actions.{pure, lift, ◌>>=◌, continue_run}
use decentralised_interledge.Config.Texts.{codes}
use decentralised_interledge.Demo.Seen.{ToldLast, query_told, is_state_told}
use decentralised_interledge.Prelude.Promises.{no_value, Ensures, Ensures-continue}
use decentralised_interledge.Demo.Ledgers.{integer, user_of, Sdk, LedgerPair}
use decentralised_interledge.Demo.Commands.{
  Session, Status, on_world, is_state, state_name, query, mint_at, finish, print_state, show_states,
  do_example_run, call, activate, remember, wait_for_left,
}

module _ {W : Type 0} (sdk : Sdk W) (ledgers : LedgerPair sdk.Web3 sdk.Contract) where
  -- The end of a run: the left ledger has told state 0 of the token, the right one was asked for its
  -- state directly behind that, and the two states have been printed.
  abbrev pub EndsAsTold : ℤ → Session W → Type 0
  EndsAsTold id s =
      (w : W) × (w' : W) × (n : ℕ) × (name : String) × (earlier : List Status) × (sdk.call_state
          ledgers.left.contract (integer id) w
        ≡ (ok 0, w'))
      × (sdk.call_state ledgers.right.contract (integer id) w' ≡ (ok n, s.world))
      × (state_name (some n) ≡ ok name)
      × (s.shown
          ≡ record { ledger = "right"; token = id; state = name }
            ∷ record { ledger = "left"; token = id; state = "Not Here" }
            ∷ earlier)

  not_ended : {ended : Bool} → ended ≡ true → ¬ (ok false ≡ ok ended)
  not_ended stopped e = cc

  wait_for_left_told :
      (polls : ℕ) (id : ℤ)
      → Ensures
          (wait_for_left sdk ledgers polls id)
          (λ ended s'. ended ≡ true → ToldLast sdk ledgers ledgers.left id 0 s')
  unfolding Ensures wait_for_left
  wait_for_left_told zero id s s' ended e stopped = absurd (not_ended stopped (ap (λ q. q.0) e))
  wait_for_left_told (suc polls) id s s' ended e stopped =
      let (state, s1, asked, rest) = continue_run (query sdk ledgers ledgers.left id s) _ e in
      elim (Bool-cases (is_state 0 state)) [
        | inl gone ↦
            let same : s1 ≡ s' = ap (λ q. q.1) (rw gone at rest) in
            let told_gone = rw (is_state_told sdk ledgers 0 state gone) at asked in
            (s.world, rw (sym same) (query_told sdk ledgers ledgers.left id s s1 0 told_gone))
        | inr there ↦
            let later = rw there at rest in
            let (_, s2, _, again) = continue_run (on_world sdk.sleep s1) _ later in
            wait_for_left_told polls id s2 s' ended again stopped
      ]

  state_named :
      (state : Option ℕ) (name : String)
      → state_name state ≡ ok name
      → (n : ℕ) × (state ≡ some n) × (state_name (some n) ≡ ok name)
  state_named none name e = absurd (no_value key_error name e)
  state_named (some n) name e = (n, refl, e)

  finish_told :
      (id : ℤ) (ended : Bool) (s s' : Session W)
      → (ended ≡ true → ToldLast sdk ledgers ledgers.left id 0 s)
      → finish sdk ledgers id ended s ≡ (ok true, s')
      → EndsAsTold id s'
  finish_told id false s s' told_left e = absurd (not_ended refl (ap (λ q. q.0) e))
  finish_told id true s s' told_left e =
      let (state, s1, asked, rest) = continue_run (query sdk ledgers ledgers.right id s) _ e in
      let (w, left_told) = told_left refl in
      let s2 : Session W = record s1 {
        shown = record { ledger = "left"; token = id; state = "Not Here" } ∷ s1.shown;
      } in
      let (name, s3, named, last) =
        continue_run (lift (state_name state) s2)
          (λ right_name. print_state "right" id right_name >>= λ _. pure true) rest in
      let (n, some_n, named_n) = state_named state name (ap (λ q. q.0) named) in
      let right_told = query_told sdk ledgers ledgers.right id s s1 n (rw some_n at asked) in
      let same : s2 ≡ s3 = ap (λ q. q.1) named in
      let end : record s3 {
        shown = record { ledger = "right"; token = id; state = name } ∷ s3.shown;
      }
          ≡ s' =
        ap (λ q. q.1) last in
      (
        w,
        s.world,
        n,
        name,
        s1.shown,
        left_told,
        right_told ∙ ap (λ q. (ok n, q.world)) same ∙ ap (λ q. (ok n, q.world)) end,
        named_n,
        sym (ap (λ q. q.shown) end)
            ∙ ap (λ q. record { ledger = "right"; token = id; state = name } ∷ q.shown) (sym same),
      )

  tail :
      (polls : ℕ) (id : ℤ)
      → Ensures
          (wait_for_left sdk ledgers polls id >>= finish sdk ledgers id)
          (λ ended s'. ended ≡ true → EndsAsTold id s')
  unfolding Ensures
  tail polls id s s' ended e stopped =
      let (b, s1, waited, rest) =
        continue_run (wait_for_left sdk ledgers polls id s) (finish sdk ledgers id) e in
      finish_told id b s1 s' (wait_for_left_told polls id s s1 b waited) (rw stopped at rest)

  run :
      (polls : ℕ) (id : ℤ)
      → Ensures (do_example_run sdk ledgers polls id) (λ ended s'. ended ≡ true → EndsAsTold id s')
  unfolding do_example_run
  run polls id = Ensures-continue _ (lift (sdk.encode_uint256 id)) _ λ token_data.
      Ensures-continue _ (remember id) _ λ _.
        Ensures-continue _ (lift (sdk.to_bytes ledgers.left.web3 (codes "Sword"))) _ λ name.
          Ensures-continue _ (mint_at sdk ledgers ledgers.left id (codes "weapons/") name) _ λ _.
            Ensures-continue _ (mint_at sdk ledgers ledgers.right id (codes "weapons/") name) _ λ _.
              Ensures-continue _ (on_world sdk.sleep) _ λ _.
                Ensures-continue _ (show_states sdk ledgers id) _ λ _.
                  Ensures-continue _ (activate sdk ledgers token_data) _ λ _.
                    Ensures-continue _ (on_world sdk.sleep) _ λ _.
                      Ensures-continue _ (show_states sdk ledgers id) _ λ _.
                        Ensures-continue _ (lift (user_of ledgers.left)) _ λ user.
                          Ensures-continue _
                            (call sdk ledgers ledgers.left user "transferOut" (integer id ∷ [])) _
                            λ _.
                              Ensures-continue _ (show_states sdk ledgers id) _ λ _. tail polls id

  -- Where a run of the example returns, the left ledger has told state 0 of the token, the right
  -- ledger has been asked for its state directly behind that, with whatever answer, and what is
  -- printed last are the names of these two states, "Not Here" for the left ledger.
  pub do_example_run_ends_as_told :
      (polls : ℕ) (id : ℤ) (s s' : Session W)
      → do_example_run sdk ledgers polls id s ≡ (ok true, s')
      → EndsAsTold id s'
  unfolding Ensures
  do_example_run_ends_as_told polls id s s' e = run polls id s s' true e refl
