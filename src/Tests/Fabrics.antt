-- ===== src/Tests/Fabrics.antt =====
-- A Fabric network that takes every transaction, and one whose peer refuses.
use decentralised_interledge.Prelude.{ℕ, true, none, some, List, [], ◌∷◌, ok, ◌≡◌, refl, arith}
use decentralised_interledge.Fabric.Client.{PeerRef, peer, no_peer, endorsement, in_time, Hfc}
use decentralised_interledge.Fabric.Adapters.{
  Function, success, commit_sending, Channel, State, listen_for_events, start_height,
  wait_for_blocks, buffer_data,
}
use decentralised_interledge.Fabric.Initializer.{Sdk, Options, FabricAdapter, new_adapter}
use decentralised_interledge.Fabric.Replies.{commit_sending_refused, listen_for_events_empty}

-- The world does not change. The peer answers a proposal with a status.
abbrev network : ℕ → Hfc (Unit {0})
network status = record {
  Request = Function;
  Context = Function;
  Transaction = Unit {0};
  Hub = PeerRef;
  get_peer = λ p w. (ok (peer p), w);
  prepare = λ request w. (ok request, w);
  send_tx_proposal = λ _ _ w. (ok (endorsement status (1 ∷ []) (2 ∷ []) ∷ []), w);
  build_transaction = λ _ _ w. (ok tt, w);
  register = λ _ p w. (ok p, w);
  send_transaction = λ _ w. (ok (record { status = 200; message = [] } ∷ []), w);
  wait_for = λ _ w. (in_time (some (true ∷ [])), w);
  unregister = λ _ w. (ok tt, w);
  disconnect = λ _ w. (ok tt, w);
  decode_payload = ok;
}

abbrev commit : Function
commit = record { name = "InterledgerCommit"; arguments = (53 ∷ []) ∷ [] }

commit_sending_refused_example :
    commit_sending (network 500) (λ f. f) (peer 0 ∷ []) (53 ∷ []) tt ≡ (ok success, tt)
commit_sending_refused_example =
    commit_sending_refused (network 500) (λ f. f) 0 (53 ∷ []) tt commit 500 (1 ∷ []) (2 ∷ []) refl
      refl (λ e. omega arith)

-- A channel on which no block comes.
abbrev channel : Channel (Unit {0})
channel = record {
  get_height = λ w. (ok 3, w);
  open_hub = λ w. (ok tt, w);
  listen = λ handler n entries w. (ok tt, entries, w);
  disconnect = λ w. (ok tt, w);
}

abbrev listening : State (Unit {0})
listening = record { world = tt; listener = record { height = none; entries = [] } }

heard : (listen_for_events channel listening).0 ≡ ok []
unfolding listen_for_events start_height wait_for_blocks buffer_data
heard = refl

abbrev no_transfers : List (Unit {0})
no_transfers = []

listen_for_events_empty_example : no_transfers ≡ []
listen_for_events_empty_example = listen_for_events_empty channel listening [] heard

-- An hfc that knows no peer.
abbrev sdk : Sdk (Unit {0})
sdk = record {
  SdkClient = Unit {0};
  SdkChannel = Unit {0};
  User = Unit {0};
  is_client = λ _. true;
  is_channel = λ _. true;
  is_user = λ _. true;
  new_client = λ _ w. (ok tt, w);
  new_channel = λ _ _ w. (ok tt, w);
  look_up_channel = λ _ _ w. (ok tt, w);
  get_user = λ _ _ _ w. (ok tt, w);
  find_peer = λ _ _ w. (ok no_peer, w);
  query_info = λ _ _ _ _ w. (ok 3, w);
}

abbrev options : Options
options = record {
  net_profile = "network.json";
  channel_name = "mychannel";
  cc_name = "data_sender";
  cc_version = "1.0";
  org_name = "org1";
  user_name = "Admin";
  peer_name = "no such peer";
}

abbrev adapter : FabricAdapter sdk
adapter = record { client = tt; channel = tt; user = tt; peers = no_peer ∷ []; options = options }

made : (new_adapter sdk options tt).0 ≡ ok adapter
unfolding new_adapter
made = refl
