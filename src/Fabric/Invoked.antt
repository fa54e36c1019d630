-- ===== src/Fabric/Invoked.antt =====
-- What a result of `chaincode_invoke` means.
use decentralised_interledge.Prelude.{ℕ, Bool, true, some, List, [], ok, ◌≡◌, ◌≢◌, All}
use decentralised_interledge.Interfaces.{Bytes}
use decentralised_interledge.Fabric.Client.{
  PeerRef, Endorsement, in_time, Broadcast, Hfc, is_good, usable, first_payload, target_peers,
  each_hub, register_all,
}

module _ {W : Type 0} (hfc : Hfc W) where
  open hfc use {
    Request, Context, Transaction, Hub, send_tx_proposal, send_transaction, wait_for,
    decode_payload, disconnect, unregister,
  }

  -- All events of the transaction came in time and say that it is valid, and every hub was
  -- disconnected.
  pub record HasValidEvents (hubs : List Hub) (w : W) : Type 0 where
    pub statuses : List Bool
    pub came : (wait_for hubs w).0 ≡ in_time (some statuses)
    pub valid : All (λ x. x ≡ true) statuses
    pub disconnected : (each_hub hfc disconnect hubs (wait_for hubs w).1).0 ≡ ok tt

  -- The transaction of these answers was sent to the orderer, behind the registration of an event
  -- hub for each of the peers, and every answer to it has the status 200; the events came, and the
  -- payload of the first of the peers' answers decodes to the text.
  pub record IsSubmitted (context : Context) (targets : List PeerRef) (res : List Endorsement)
      (w : W) (text : Bytes) : Type 0 where
    pub transaction : Transaction
    pub hubs : List Hub
    pub broadcasts : List Broadcast
    pub with_transaction : W
    pub with_hubs : W
    pub with_broadcasts : W
    pub built : hfc.build_transaction context res w ≡ (ok transaction, with_transaction)
    pub registered : register_all hfc context targets with_transaction ≡ (ok hubs, with_hubs)
    pub sent : send_transaction transaction with_hubs ≡ (ok broadcasts, with_broadcasts)
    pub taken : All (λ v. v.status ≡ 200) broadcasts
    pub events : HasValidEvents hubs with_broadcasts
    pub payload : Bytes
    pub first : first_payload res ≡ ok payload
    pub decoded : decode_payload payload ≡ ok text

  -- The ledger has taken the transaction of this request.
  pub record IsCommitted (request : Request) (peers : List PeerRef) (retry : ℕ) (start : W)
      (text : Bytes) : Type 0 where
    pub targets : List PeerRef
    pub context : Context
    pub answers : List Endorsement
    pub res : List Endorsement
    pub with_peers : W
    pub with_context : W
    pub with_answers : W
    pub found : target_peers hfc peers start ≡ (ok targets, with_peers)
    pub has_peer : targets ≢ []
    pub prepared : hfc.prepare request with_peers ≡ (ok context, with_context)
    pub proposed : send_tx_proposal context targets with_context ≡ (ok answers, with_answers)
    pub used : usable retry answers ≡ ok res
    pub endorsed : All (λ x. is_good x ≡ true) res
    pub submitted : IsSubmitted context targets res with_answers text
