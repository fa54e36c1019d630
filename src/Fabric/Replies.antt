-- ===== src/Fabric/Replies.antt =====
-- What the replies of the Fabric adapters mean.
use decentralised_interledge.Prelude.{ℕ, List, [], ◌∷◌, Result, ok, err, ◌≡◌, ◌≢◌, refl, arith}
use decentralised_interledge.Prelude.Actions.{Action, pure, continue, ◌>>◌}
use decentralised_interledge.Interfaces.{Bytes}
use decentralised_interledge.Fabric.Client.{PeerRef, peer, endorsement, Hfc, chaincode_invoke}
use decentralised_interledge.Fabric.Adapters.{
  Function, success, failure, commit_sending, send_data, Channel, State, in_world, start_height,
  wait_for_blocks, buffer_data, listen_for_events, ChaincodeEvent, set_height, clear,
}

module _ {W : Type 0} (hfc : Hfc W) (request : Function → hfc.Request) (peers : List PeerRef) where
  -- Every delivery of the Fabric responder fails, and none reaches the ledger: the call names an
  -- argument that `chaincode_invoke` does not have.
  pub send_data_fails :
      (nonce payload : Bytes) (w : W)
      → send_data hfc request peers nonce payload w ≡ (ok failure, w)
  unfolding send_data
  send_data_fails nonce payload w = refl

module _ {W : Type 0} (hfc : Hfc W) (request : Function → hfc.Request) where
  -- If the only peer refuses the proposal of a commit, with a status other than 200, nothing is
  -- sent to the orderer, and `commit_sending` returns a true status.
  pub commit_sending_refused :
      (p : ℕ) (id : Bytes) (w : W) (context : hfc.Context) (status : ℕ) (message payload : Bytes)
      → let f : Function = record { name = "InterledgerCommit"; arguments = id ∷ [] } in
        let prepared = hfc.prepare (request f) w in
        let proposed = hfc.send_tx_proposal context (peer p ∷ []) prepared.1 in
        prepared.0 ≡ ok context
        → proposed.0 ≡ ok (endorsement status message payload ∷ [])
        → status ≢ 200
        → commit_sending hfc request (peer p ∷ []) id w ≡ (ok success, proposed.1)
  unfolding commit_sending chaincode_invoke
  commit_sending_refused p id w context status message payload e1 e2 bad = ground arith

-- The list is empty, if the call returned one.
abbrev IsEmpty : Result (List (Unit {0})) → Type 0
IsEmpty (ok ts) = ts ≡ []
IsEmpty (err e) = Unit

continue-IsEmpty :
    {W A : Type 0} (p : Result A × W) (f : A → Action W (List (Unit {0})))
    → ((a : A) (w : W) → IsEmpty (f a w).0)
    → IsEmpty (continue p f).0
continue-IsEmpty (ok a, w) f h = h a w
continue-IsEmpty (err e, w) f h = tt

module _ {W : Type 0} (channel : Channel W) where
  -- Behind `_buffer_data`, an event of which raises.
  finished-IsEmpty :
      (events : List ChaincodeEvent) (s : State W)
      → IsEmpty
          (continue
            (buffer_data events, s)
            λ ts. in_world channel channel.disconnect >> (clear channel >> pure {W = State W} ts)).0
  unfolding buffer_data
  finished-IsEmpty [] s = continue-IsEmpty (in_world channel channel.disconnect s) _ λ _ s'. refl
  finished-IsEmpty (event ∷ events) s = tt

  listen-IsEmpty : (s : State W) → IsEmpty (listen_for_events channel s).0
  unfolding listen_for_events
  listen-IsEmpty s = continue-IsEmpty (in_world channel channel.open_hub s) _ λ _ s1.
      continue-IsEmpty (start_height channel s1) _ λ n s2.
        continue-IsEmpty (wait_for_blocks channel n s2) _ λ _ s3.
          continue-IsEmpty (in_world channel channel.get_height s3) _
            λ h s4. finished-IsEmpty s4.listener.entries (set_height channel h s4).1

  -- The Fabric initiator never gives a transfer: whenever `listen_for_events` returns, its list is
  -- empty.
  pub listen_for_events_empty :
      (s : State W) (ts : List (Unit {0})) → (listen_for_events channel s).0 ≡ ok ts → ts ≡ []
  listen_for_events_empty s ts e = rw e at (listen-IsEmpty s)
