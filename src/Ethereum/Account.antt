-- ===== src/Ethereum/Account.antt =====
-- The part that every sending method of the adapters begins with: a contract function is called
-- from the minter's account, which is unlocked by a private key or by a password where it has to
-- be. The state is the local variable that holds the transaction's hash, and web3's own.
pub mod Locks
use decentralised_interledge.Prelude.{
  ℕ, Bool, true, false, not, Option, none, some, List, Result, ok, err, if◌then◌else◌,
}
use decentralised_interledge.Interfaces.{Bytes}

-- A call of a function of the contract.
pub data Invocation : Type 0 where
  interledger_commit : ℕ → Option Bytes → Invocation
  interledger_abort : ℕ → ℕ → Invocation
  interledger_error : ℕ → ℕ → Invocation
  interledger_receive interledger_inquire : ℕ → Bytes → Invocation
  interledger_receive_abort : ℕ → ℕ → Invocation

-- An event of a receipt, as `processReceipt` gives it.
pub record LogEntry : Type 0 where
  pub arg_nonce : ℕ
  pub entry_block : ℕ
  pub entry_index : ℕ

-- A receipt, with what `processReceipt` gives of it for the events that are asked for.
pub record Receipt : Type 0 where
  pub succeeded : Bool  -- `status`
  pub receipt_block : ℕ
  pub logs_accept : List LogEntry
  pub logs_reject : List LogEntry

-- The functions of web3 that the methods call. Every one may raise.
pub record Web3 (W : Type 0) : Type 1 where
  pub Transaction : Type 0
  pub Signed : Type 0
  pub sign : W → Result (Unit {0}) × W
  pub build_transaction : Invocation → W → Result Transaction × W
  pub get_transaction_count : W → Result ℕ × W
  pub sign_transaction : Transaction → ℕ → W → Result Signed × W
  pub send_raw_transaction : Signed → W → Result ℕ × W
  pub unlock_account : W → Result Bool × W
  pub lock_account : W → Result (Unit {0}) × W
  pub transact : Invocation → W → Result ℕ × W
  pub wait_for_receipt : ℕ → W → Result Receipt × W

-- `bool(self.private_key)` and `self.password is not None`.
pub record Credentials : Type 0 where
  pub has_private_key : Bool
  pub has_password : Bool

-- What has become of the sending: the hash is known, or the password was wrong.
pub data Submission : Type 0 where
  sent : ℕ → Submission
  not_unlocked : Submission

-- A body of statements over the hash variable and the world; both survive an exception.
abbrev pub Body : Type 0 → Type 0 → Type 0
Body W A = Option ℕ → W → Result A × Option ℕ × W

module _ {W : Type 0} where
  abbrev pub pure : {A : Type 0} → A → Body W A
  pure a hash w = (ok a, hash, w)

  infixl 5 ◌>>=◌ ◌>>◌
  abbrev pub ◌>>=◌ : {A B : Type 0} → Body W A → (A → Body W B) → Body W B
  ◌>>=◌ m f hash w =
      let (r, hash', w') = m hash w in elim r [ ok a ↦ f a hash' w' | err e ↦ (err e, hash', w') ]

  abbrev pub ◌>>◌ : {A B : Type 0} → Body W A → Body W B → Body W B
  m >> k = m >>= λ _. k

  -- A call of web3.
  abbrev pub web3 : {A : Type 0} → (W → Result A × W) → Body W A
  web3 f hash w = let (r, w') = f w in (r, hash, w')

  -- The assignment to the hash variable.
  abbrev pub set_hash : ℕ → Body W (Unit {0})
  set_hash h hash w = (ok tt, some h, w)

module _ {W : Type 0} (api : Web3 W) where
  open api use {
    sign, build_transaction, get_transaction_count, sign_transaction, send_raw_transaction,
    unlock_account, lock_account, transact,
  }

  -- `isUnlocked`: a trial signature, whose exception means that the account is locked.
  unfoldable pub is_unlocked : Body W Bool
  is_unlocked hash w =
      let (r, w') = sign w in elim r [ ok _ ↦ (ok true, hash, w') | err _ ↦ (ok false, hash, w') ]

  -- `self.private_key and not self.isUnlocked(self.minter)`
  unfoldable pub needs_private_key : Credentials → Body W Bool
  unfolding is_unlocked
  needs_private_key c = if c.has_private_key then (do u ← is_unlocked; pure (not u)) else pure false

  unfoldable pub submit_signed : Invocation → Body W Submission
  submit_signed invocation = do
    transaction ← web3 (build_transaction invocation)
    nonce ← web3 get_transaction_count
    signed ← web3 (sign_transaction transaction nonce)
    h ← web3 (send_raw_transaction signed)
    set_hash h
    pure (sent h)

  unfoldable pub submit_unlocked : Invocation → Body W Submission
  submit_unlocked invocation = do
    h ← web3 (transact invocation)
    set_hash h
    web3 lock_account
    pure (sent h)

  unfoldable pub submit_with_password : Invocation → Body W Submission
  unfolding submit_unlocked
  submit_with_password invocation = do
    unlocked ← web3 unlock_account
    if unlocked then submit_unlocked invocation else pure not_unlocked

  unfoldable pub submit_plain : Invocation → Body W Submission
  submit_plain invocation = do h ← web3 (transact invocation); set_hash h; pure (sent h)

  unfoldable pub submit : Credentials → Invocation → Body W Submission
  unfolding needs_private_key submit_signed submit_with_password submit_plain
  submit c invocation = do
    by_key ← needs_private_key c
    if by_key
        then submit_signed invocation
        else if c.has_password
        then submit_with_password invocation
        else submit_plain invocation
