-- ===== src/Demo/Ready.antt =====
-- What the start of the demo has made sure of.
use Prim.Native.String.{String}
use mathlib.Core.List.{Memᴰ}
use decentralised_interledge.Prelude.{
  zero, suc, Bool, true, false, some, List, [], ◌∷◌, Result, ok, index_error, other_error,
  system_exit, ◌++◌, Result-cases, Option-cases, ◌≡◌, refl, sym, ap, ◌∙◌, inl, inr, arith,
}
use decentralised_interledge.Prelude.Int.{ℤ, pos, negsuc}
use decentralised_interledge.Prelude.Actions.{pure, lift, continue_run, ◌>>=◌}
use decentralised_interledge.Config.Parsers.{Parser, read, optional}
use decentralised_interledge.Config.LedgerOptions.{is_poa}
use decentralised_interledge.Config.Texts.{Text, codes, int}
use decentralised_interledge.Demo.Ledgers.{
  Sdk, LedgerPair, DemoLedger, item, item_at, select_account_from, inject_if, is_injected,
  connected_ledger, init_web3, select_account, setup_ledgers,
}
use decentralised_interledge.Prelude.Promises.{
  no_value, Ensures, Ensures-known, Ensures-lift, Ensures-continue, Ensures-pure, Ensures-throw,
}

item_first :
    (accounts : List Text) (user : Text)
    → item accounts 0 ≡ ok user
    → (others : List Text) × (accounts ≡ user ∷ others)
item_first [] user e = absurd (no_value index_error user e)
item_first (a ∷ accounts) user e = (accounts, ground (arith, e))

item_at-Memᴰ :
    (accounts : List Text) (i : ℤ) (account : Text)
    → item_at accounts i ≡ some account
    → Memᴰ account accounts
item_at-Memᴰ [] (pos i) account e = cc
item_at-Memᴰ (a ∷ accounts) (pos zero) account e = Memᴰ.head (ground (arith, e))
item_at-Memᴰ (a ∷ accounts) (pos (suc i)) account e =
    Memᴰ.tail (item_at-Memᴰ accounts (pos i) account e)
item_at-Memᴰ accounts (negsuc i) account e = cc

-- An account that is selected is one of the accounts.
pub select_account_from-Memᴰ :
    (accounts lines : List Text) (account : Text) (rest : List Text)
    → select_account_from accounts lines ≡ ok (account, rest)
    → Memᴰ account accounts
unfolding select_account_from
select_account_from-Memᴰ accounts [] account rest e =
    absurd (no_value other_error (account, rest) e)
select_account_from-Memᴰ accounts (line ∷ lines) account rest e = elim (Result-cases (int line)) [
  | inr (x, unread) ↦ absurd (no_value x (account, rest) (rw (unread, select_account_from) at e))
  | inl (i, number) ↦
      let e1 = rw (number, select_account_from) at e in
      elim (Option-cases (item_at accounts i)) [
        | inr (found, at_i) ↦
            let same : found ≡ account = ground (arith, rw at_i at e1) in
            item_at-Memᴰ accounts i account (at_i ∙ ap some same)
        | inl wrong ↦ select_account_from-Memᴰ accounts lines account rest (rw wrong at e1)
      ]
]

module _ {W : Type 0} (sdk : Sdk W) where
  -- It has answered that it is connected.
  abbrev pub IsConnected : sdk.Web3 → Type 0
  IsConnected web3 = (w : W) × (w' : W) × (sdk.is_connected web3 w ≡ (ok true, w'))

  -- The user is the first of its accounts.
  abbrev pub HasUser : DemoLedger sdk → Type 0
  HasUser ledger =
      (w : W) × (w' : W) × (user : Text) × (others : List Text) × (sdk.accounts ledger.web3 w
        ≡ (ok (user ∷ others), w'))
      × (ledger.user ≡ some user)

  ledger_ensures :
      (parser : Parser) (section : String) (endpoint : Text) (web3 : sdk.Web3) (connected : Bool)
      → Ensures
          (connected_ledger sdk parser section endpoint web3 connected)
          (λ ledger _. (connected ≡ true) × (ledger.web3 ≡ web3))
  unfolding connected_ledger
  ledger_ensures parser section endpoint web3 false = Ensures-throw _ system_exit
  ledger_ensures parser section endpoint web3 true =
      Ensures-lift _ (read parser section "contract_abi") _ λ abi_file _.
        Ensures-continue _ (sdk.read_contract_abi (codes abi_file)) _ λ abi.
          Ensures-lift _ (read parser section "minter") _ λ minter _.
            Ensures-lift _ (read parser section "contract") _ λ contract_address _.
              Ensures-continue _ (sdk.contract web3 abi (codes contract_address)) _
                λ contract. Ensures-pure _ _ (λ _. (refl, refl))

  asked_ensures :
      (parser : Parser) (section : String) (endpoint : Text) (web3 : sdk.Web3)
      → Ensures
          (sdk.is_connected web3 >>= connected_ledger sdk parser section endpoint web3)
          (λ ledger _. IsConnected ledger.web3)
  unfolding Ensures
  asked_ensures parser section endpoint web3 w w' ledger e =
      let (connected, w1, asked, rest) =
        continue_run (sdk.is_connected web3 w) (connected_ledger sdk parser section endpoint web3)
          e in
      let (yes_connected, same) =
        ledger_ensures parser section endpoint web3 connected w1 w' ledger rest in
      rw same (w, w1, rw yes_connected at asked)

  init_web3_ensures :
      (parser : Parser) (section : String)
      → Ensures (init_web3 sdk parser section) (λ ledger _. IsConnected ledger.web3)
  unfolding init_web3
  init_web3_ensures parser section = Ensures-lift _ (read parser section "url") _ λ url _.
      Ensures-lift _ (read parser section "port") _ λ port _.
        Ensures-continue _ (sdk.connect (codes url ++ (b':' ∷ codes port))) _ λ web3.
          Ensures-continue _
            (inject_if sdk (is_injected sdk (is_poa (optional parser section "poa"))) web3) _
            λ _. asked_ensures parser section _ web3

  select_account_ensures :
      (ledger : DemoLedger sdk)
      → Ensures
          (select_account sdk ledger)
          (λ chosen _. (chosen.web3 ≡ ledger.web3) × HasUser chosen)
  unfolding Ensures select_account
  select_account_ensures ledger w w' chosen e =
      let (accounts, w1, asked, rest) =
        continue_run (sdk.accounts ledger.web3 w)
          (λ accounts. lift (item accounts 0) >>= λ user. pure (record ledger { user = some user }))
          e in
      let (user, w2, first, last) =
        continue_run (lift (item accounts 0) w1) (λ user. pure (record ledger { user = some user }))
          rest in
      let (others, whole) = item_first accounts user (ap (λ q. q.0) first) in
      let same : record ledger { user = some user } ≡ chosen = ground (arith, ap (λ q. q.0) last) in
      rw (sym same) (refl, (w, w1, user, others, asked ∙ ap (λ a. (ok a, w1)) whole, refl))

  abbrev pub IsReady : DemoLedger sdk → Type 0
  IsReady ledger = IsConnected ledger.web3 × HasUser ledger

  setup_ensures :
      (parse : Text → Result Parser) (config_file : Text)
      → Ensures
          (setup_ledgers sdk parse config_file)
          (λ ledgers _. IsReady ledgers.left × IsReady ledgers.right)
  unfolding setup_ledgers
  setup_ensures parse config_file = Ensures-lift _ (parse config_file) _ λ parser _.
      Ensures-lift _ (read parser "service" "left") _ λ left_section _.
        Ensures-lift _ (read parser "service" "right") _ λ right_section _.
          Ensures-known _ _ (init_web3 sdk parser left_section) _
            (init_web3_ensures parser left_section)
            λ left connected.
              Ensures-known _ _ (init_web3 sdk parser right_section) _
                (init_web3_ensures parser right_section)
                λ right too.
                  Ensures-known _ _ (select_account sdk left) _ (select_account_ensures left)
                    λ left_ledger l.
                      Ensures-known _ _ (select_account sdk right) _ (select_account_ensures right)
                        λ right_ledger r.
                          Ensures-pure _ _ λ _. ((rw l.0 connected, l.1), (rw r.0 too, r.1))

  -- If the ledgers are set up, each has answered that it is connected, and has a user, which is the
  -- first account that it gave.
  pub setup_ledgers-IsReady :
      (parse : Text → Result Parser) (config_file : Text) (w w' : W)
      (ledgers : LedgerPair sdk.Web3 sdk.Contract)
      → setup_ledgers sdk parse config_file w ≡ (ok ledgers, w')
      → IsReady ledgers.left × IsReady ledgers.right
  unfolding Ensures
  setup_ledgers-IsReady parse config_file w w' ledgers e =
      setup_ensures parse config_file w w' ledgers e
