-- ===== src/Ethereum/Filters.antt =====
-- The event filters of the adapters: `listen_for_events` of the initiator and `check_response` of
-- the responder. web3's filters are parameters.
use decentralised_interledge.Prelude.{
  ℕ, Bool, true, false, List, [], ◌∷◌, Result, ok, err, ◌≡◌, arith,
}
use decentralised_interledge.Interfaces.{Event, Ack, event_accepted, event_rejected, no_event}

-- web3's filters. `is_true` is the truth of a filter object as a condition; `pause` is what happens
-- to the world while the adapter sleeps.
pub record Filters (W : Type 0) : Type 1 where
  pub Filter : Type 0
  pub is_true : Filter → Bool
  pub get_new_entries : W → Result (List Event) × W
  pub pause : W → W
  pub accepted_filter : ℕ → W → Result Filter × W
  pub rejected_filter : ℕ → W → Result Filter × W

module _ {W : Type 0} (api : Filters W) where
  -- The second reading, behind a pause, if the first gave nothing.
  abbrev read_again : Result (List Event) × W → Result (List Event) × W
  read_again (ok [], w) = api.get_new_entries (api.pause w)
  read_again (ok (e ∷ es), w) = (ok (e ∷ es), w)
  read_again (err x, w) = (err x, w)

  unfoldable pub listen_for_events : W → Result (List Event) × W
  listen_for_events w = read_again (api.get_new_entries w)

  abbrev if_rejected : Result api.Filter × W → Result Ack × W
  if_rejected (err x, w) = (err x, w)
  if_rejected (ok filter, w) = elim (api.is_true filter) [
    | true ↦ (ok event_rejected, w)
    | false ↦ (ok no_event, w)
  ]

  abbrev if_accepted : ℕ → Result api.Filter × W → Result Ack × W
  if_accepted transfer_id (err x, w) = (err x, w)
  if_accepted transfer_id (ok filter, w) = elim (api.is_true filter) [
    | true ↦ (ok event_accepted, w)
    | false ↦ if_rejected (api.rejected_filter transfer_id w)
  ]

  unfoldable pub check_response : ℕ → W → Result Ack × W
  check_response transfer_id w = if_accepted transfer_id (api.accepted_filter transfer_id w)

  if_accepted_lem :
      (transfer_id : ℕ) (r : Result api.Filter × W) (ack : Ack)
      → ((f : api.Filter) → api.is_true f ≡ true)
      → (if_accepted transfer_id r).0 ≡ ok ack
      → ack ≡ event_accepted
  if_accepted_lem transfer_id (err x, w) ack h e = cc
  if_accepted_lem transfer_id (ok f, w) ack h e = let always = h f in ground arith

  -- Where every filter object counts as true, as a Python object without a test of its own does,
  -- `check_response` answers only that the transfer was accepted, whatever events there are.
  pub check_response_accepts :
      (transfer_id : ℕ) (w : W) (ack : Ack)
      → ((f : api.Filter) → api.is_true f ≡ true)
      → (check_response transfer_id w).0 ≡ ok ack
      → ack ≡ event_accepted
  unfolding check_response
  check_response_accepts transfer_id w ack h e =
      if_accepted_lem transfer_id (api.accepted_filter transfer_id w) ack h e
