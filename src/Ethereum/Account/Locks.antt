-- ===== src/Ethereum/Account/Locks.antt =====
-- Whether the minter's account is locked again after a sending with a password.
use decentralised_interledge.Prelude.{Bool, true, false, none, ok, err, Exception, ◌≡◌, arith}
use decentralised_interledge.Ethereum.Account.{Web3, Credentials, Submission, Invocation, submit}

-- The credentials of an account that is unlocked by a password.
abbrev pub by_password : Credentials
by_password = record { has_private_key = false; has_password = true }

-- What geth documents of its personal account functions: unlocking by the right password and
-- locking do so, an unlocking that is refused changes nothing, and a transaction leaves the account
-- as it is.
pub record Locking {W : Type 0} (api : Web3 W) (is_locked : W → Bool) : Type 0 where
  pub unlocks :
      (w : W) → (api.unlock_account w).0 ≡ ok true → is_locked (api.unlock_account w).1 ≡ false
  pub refuses :
      (w : W)
      → (api.unlock_account w).0 ≡ ok false
      → is_locked (api.unlock_account w).1 ≡ is_locked w
  pub locks : (w : W) → (api.lock_account w).0 ≡ ok tt → is_locked (api.lock_account w).1 ≡ true
  pub transact_keeps : (i : Invocation) (w : W) → is_locked (api.transact i w).1 ≡ is_locked w

module _ {W : Type 0} (api : Web3 W) (is_locked : W → Bool) (laws : Locking api is_locked) where
  -- A sending by password from a locked account ends with the account locked, whether the sending
  -- went through or the password was wrong.
  pub submit_locks_again :
      (invocation : Invocation) (w : W) (s : Submission)
      → is_locked w ≡ true
      → (submit api by_password invocation none w).0 ≡ ok s
      → is_locked (submit api by_password invocation none w).2 ≡ true
  unfolding submit
  submit_locks_again invocation w s locked h =
      grind (arith, laws.unlocks w, laws.refuses w, laws.locks)

  -- If the password unlocks the account and the contract function raises, the sending raises the
  -- same exception with no hash known, and the account is left unlocked.
  pub submit_leaves_unlocked :
      (invocation : Invocation) (w : W) (e : Exception)
      → (api.unlock_account w).0 ≡ ok true
      → (api.transact invocation (api.unlock_account w).1).0 ≡ err e
      → ((submit api by_password invocation none w).0 ≡ err e)
        × ((submit api by_password invocation none w).1 ≡ none)
        × (is_locked (submit api by_password invocation none w).2 ≡ false)
  unfolding submit
  submit_leaves_unlocked invocation w e u t =
      ground (arith, laws.unlocks w, laws.transact_keeps invocation (api.unlock_account w).1)
