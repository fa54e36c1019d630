-- ===== src/Demo/Waiting.antt =====
-- The end of the wait of `example_run`.
use decentralised_interledge.Prelude.{
  ℕ, zero, suc, ◌<◌, ◌==◌, true, false, some, ok, ◌≡◌, ◌≢◌, refl, arith,
}
use decentralised_interledge.Prelude.Int.{ℤ}
use decentralised_interledge.Demo.Ledgers.{integer, Sdk, LedgerPair, send, send_transaction}
use decentralised_interledge.Demo.Commands.{Session, call, query, wait_for_left}

-- The world behind a number of sleeps.
unfoldable pub after_sleeps : {W : Type 0} → (W → W) → ℕ → W → W
after_sleeps step zero w = w
after_sleeps step (suc k) w = after_sleeps step k (step w)

-- A left ledger that answers the query of the token's state, without changing by it, and a sleep
-- that returns.
module _ {W : Type 0} (sdk : Sdk W) (ledgers : LedgerPair sdk.Web3 sdk.Contract) (id : ℤ)
    (state_in : W → ℕ) (step : W → W)
    (told : (w : W) → sdk.call_state ledgers.left.contract (integer id) w ≡ (ok (state_in w), w))
    (slept : (w : W) → sdk.sleep w ≡ (ok tt, step w)) where
  query_lem :
      (s : Session W) → query sdk ledgers ledgers.left id s ≡ (ok (some (state_in s.world)), s)
  unfolding call send_transaction send
  query_lem s = rw (told s.world) refl

  -- The wait ends in the world of the first poll at which the left ledger does not have the token:
  -- if the query of its state always returns and changes nothing, and every sleep returns, then the
  -- wait returns, behind exactly as many sleeps as there are polls that tell a state other than 0
  -- before the first that tells 0, for any larger bound on the polls; and nothing but the world
  -- has changed.
  pub wait_for_left_ends :
      (k polls : ℕ) (s : Session W)
      → ((j : ℕ) → j < k → state_in (after_sleeps step j s.world) ≢ 0)
      → state_in (after_sleeps step k s.world) ≡ 0
      → k < polls
      → wait_for_left sdk ledgers polls id s
        ≡ (ok true, record s { world = after_sleeps step k s.world })
  unfolding wait_for_left after_sleeps
  wait_for_left_ends k zero s there gone h = absurd (omega arith)
  wait_for_left_ends zero (suc polls) s there gone h = rw (query_lem s) (rw gone refl)
  wait_for_left_ends (suc k) (suc polls) s there gone h =
      let here : (state_in s.world == 0) ≡ false = ground (arith, there 0 (omega arith)) in
      rw (query_lem s) (
        rw here (
          rw (slept s.world) (
            wait_for_left_ends k polls (record s { world = step s.world })
              (λ j less. there (suc j) (omega arith)) gone (omega arith))))
