-- ===== src/Ethereum/Sending/Replies.antt =====
-- What the replies of `commit_sending` and `abort_sending` mean.
use decentralised_interledge.Prelude.{
  ℕ, true, Option, none, Result, ok, err, Result-cases, ◌≡◌, inl, inr, arith,
}
use decentralised_interledge.Interfaces.{Bytes}
use decentralised_interledge.Ethereum.Account.{
  Web3, Credentials, Submission, sent, not_unlocked, Receipt, submit, ◌>>=◌,
}
use decentralised_interledge.Ethereum.Sending.{
  confirmed, commit_call, handle, await_receipt, commit_sending,
}

module _ {W : Type 0} (api : Web3 W) (c : Credentials) where
  -- A receipt for the hash h came in, in some state of the world.
  abbrev pub HasReceipt : ℕ → Receipt → Type 0
  HasReceipt h r = (w : W) × ((api.wait_for_receipt h w).0 ≡ ok r)

  confirmed_from :
      (p : Result Submission × Option ℕ × W) (w : W) (h block : ℕ)
      → (handle ((◌>>=◌ (λ _ _. p) (await_receipt api c)) none w)).0 ≡ ok (confirmed h block)
      → (r : Receipt) × HasReceipt h r
        × (r.succeeded ≡ true)
        × (r.receipt_block ≡ block)
        × (p.0 ≡ ok (sent h))
  unfolding handle await_receipt
  confirmed_from (ok (sent k), hash, w') w h block e =
      elim (Result-cases (api.wait_for_receipt k w').0) [
        | inl (r, er) ↦ (r, (w', ground arith), ground arith, ground arith, ground arith)
        | inr (x, ex) ↦ absurd (ground arith)
      ]
  confirmed_from (ok not_unlocked, hash, w') w h block e = cc
  confirmed_from (err x, hash, w') w h block e = absurd (ground arith)

  -- `commit_sending` confirms a hash only if the sending gave this hash, and its receipt came in,
  -- with a true status and the block that is returned.
  pub commit_sending_confirmed :
      (id : ℕ) (payload : Option Bytes) (w : W) (h block : ℕ)
      → (commit_sending api c id payload w).0 ≡ ok (confirmed h block)
      → (r : Receipt) × HasReceipt h r
        × (r.succeeded ≡ true)
        × (r.receipt_block ≡ block)
        × ((submit api c (commit_call id payload) none w).0 ≡ ok (sent h))
  unfolding commit_sending
  commit_sending_confirmed id payload w h block e =
      confirmed_from (submit api c (commit_call id payload) none w) w h block e
