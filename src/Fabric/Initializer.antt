-- ===== src/Fabric/Initializer.antt =====
-- `FabricInitializer`: the client, the channel, the user and the peer that an adapter is made with.
use Prim.Native.String.{String}
use decentralised_interledge.Prelude.{
  ℕ, Bool, true, false, List, [], ◌∷◌, Result, ok, assertion_error, ◌≡◌, arith, ap,
}
use decentralised_interledge.Prelude.Actions.{Action, pure, throw, ◌>>=◌, ◌>>◌, continue_inv}
use decentralised_interledge.Interfaces.{Bytes}
use decentralised_interledge.Fabric.Client.{PeerRef, no_peer, Hfc, chaincode_invoke, target_peers}
use decentralised_interledge.Fabric.Adapters.{Function, failure, invoke, reply_to, commit_sending}

-- hfc, as far as an adapter is made with it. `is_…` is the truth of an object in an `assert`;
-- `look_up_channel` is what the printing asks for.
pub record Sdk (W : Type 0) : Type 1 where
  pub SdkClient : Type 0
  pub SdkChannel : Type 0
  pub User : Type 0
  pub is_client : SdkClient → Bool
  pub is_channel : SdkChannel → Bool
  pub is_user : User → Bool
  pub new_client : String → W → Result SdkClient × W
  pub new_channel : SdkClient → String → W → Result SdkChannel × W
  pub look_up_channel : SdkClient → String → W → Result (Unit {0}) × W
  pub get_user : SdkClient → String → String → W → Result User × W
  pub find_peer : SdkClient → String → W → Result PeerRef × W
  pub query_info : SdkClient → User → String → List PeerRef → W → Result ℕ × W  -- the height

pub record Options : Type 0 where
  pub net_profile : String
  pub channel_name : String
  pub cc_name : String
  pub cc_version : String
  pub org_name : String
  pub user_name : String
  pub peer_name : String

-- `assert`
abbrev require : {W : Type 0} → Bool → Action W (Unit {0})
require true = pure tt
require false = throw assertion_error

module _ {W : Type 0} (sdk : Sdk W) where
  open sdk use {
    SdkClient, SdkChannel, User, is_client, is_channel, is_user, new_client, new_channel,
    look_up_channel, get_user, find_peer, query_info,
  }

  pub record FabricAdapter : Type 0 where
    pub client : SdkClient
    pub channel : SdkChannel
    pub user : User
    pub peers : List PeerRef
    pub options : Options

  -- The last `assert` is on the list of one peer, which counts as true whatever is in it.
  unfoldable pub new_adapter : Options → Action W FabricAdapter
  new_adapter options = do
    client ← new_client options.net_profile
    require (is_client client)
    channel ← new_channel client options.channel_name
    look_up_channel client options.channel_name
    require (is_channel channel)
    user ← get_user client options.org_name options.user_name
    require (is_user user)
    found ← find_peer client options.peer_name
    pure (record {
      client = client;
      channel = channel;
      user = user;
      peers = found ∷ [];
      options = options;
    })

  unfoldable pub get_height : FabricAdapter → Action W ℕ
  get_height a = query_info a.client a.user a.options.channel_name a.peers

  -- What is known of a peer that is looked up is known of the one in the adapter.
  peers_found :
      (options : Options) (w : W) (a : FabricAdapter)
      → ((client : SdkClient) (v : W) (p : PeerRef)
          → (find_peer client options.peer_name v).0 ≡ ok p
          → p ≡ no_peer)
      → (new_adapter options w).0 ≡ ok a
      → a.peers ≡ no_peer ∷ []
  unfolding new_adapter
  peers_found options w a unknown e =
      let (client, _, e1) = continue_inv (new_client options.net_profile w) _ e in
      let (_, _, e2) = continue_inv (require (is_client client) _) _ e1 in
      let (channel, _, e3) = continue_inv (new_channel client options.channel_name _) _ e2 in
      let (_, _, e4) = continue_inv (look_up_channel client options.channel_name _) _ e3 in
      let (_, _, e5) = continue_inv (require (is_channel channel) _) _ e4 in
      let (user, _, e6) =
        continue_inv (get_user client options.org_name options.user_name _) _ e5 in
      let (_, _, e7) = continue_inv (require (is_user user) _) _ e6 in
      let (p, found, e8) = continue_inv (find_peer client options.peer_name _) _ e7 in
      ground (arith, e8, unknown client _ p found)

  -- A wrong name of the peer goes unnoticed until it is too late: if hfc finds no peer by the name
  -- of the options, the adapter that is made is not refused by the last `assert`, and each of its
  -- commits fails, with nothing sent.
  pub unknown_peer_fails :
      (hfc : Hfc W) (request : Function → hfc.Request) (options : Options) (w : W)
      (a : FabricAdapter)
      → ((client : SdkClient) (v : W) (p : PeerRef)
          → (find_peer client options.peer_name v).0 ≡ ok p
          → p ≡ no_peer)
      → (new_adapter options w).0 ≡ ok a
      → (id : Bytes) (later : W) → commit_sending hfc request a.peers id later ≡ (ok failure, later)
  unfolding commit_sending invoke chaincode_invoke target_peers reply_to
  unknown_peer_fails hfc request options w a unknown e id later =
      ap (λ peers. commit_sending hfc request peers id later) (peers_found options w a unknown e)
