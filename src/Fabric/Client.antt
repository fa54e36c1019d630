-- ===== src/Fabric/Client.antt =====
-- `FabricClient.chaincode_invoke`. The module has no `_logger`, so each use of that name raises a
-- NameError; what follows such a use is not reached. The broker is retried only behind one.
use decentralised_interledge.Prelude.{
  ℕ, Bool, true, false, ◌&&◌, ◌||◌, ◌==◌, Option, none, some, List, [], ◌∷◌, Result, ok, err,
  Exception, if◌then◌else◌, name_error, index_error, attribute_error, key_error, timeout_error,
  unreachable_peer, other_error,
}
use decentralised_interledge.Prelude.Actions.{Action, pure, throw, ◌>>=◌, ◌>>◌, finally, lift}
use decentralised_interledge.Interfaces.{Bytes}

-- An item of `peers`: a Peer, a name of one, or anything else, as None.
pub data PeerRef : Type 0 where
  peer named : ℕ → PeerRef
  no_peer : PeerRef

-- What a peer answers to a proposal. `gather` returns an exception in the place of an answer;
-- `unreachable_peer` stands for `_MultiThreadedRendezvous`.
pub data Endorsement : Type 0 where
  endorsement : (status : ℕ) → (message payload : Bytes) → Endorsement
  no_answer : Exception → Endorsement

-- How the wait for the events of a transaction ends: in time, with the statuses of the events, if
-- the key for them is there; by a timeout; or by an exception.
pub data Wait : Type 0 where
  in_time : Option (List Bool) → Wait  -- each status: is it VALID?
  timed_out : Wait
  failed_with : Exception → Wait

-- An answer of the orderer in the stream of a broadcast.
pub record Broadcast : Type 0 where
  pub status : ℕ
  pub message : Bytes

-- hfc, as far as the method calls it. `prepare` makes the request and its context, and gets the
-- channel; `register` makes an event hub of a peer, connects it and registers the transaction.
pub record Hfc (W : Type 0) : Type 1 where
  pub Request : Type 0
  pub Context : Type 0
  pub Transaction : Type 0
  pub Hub : Type 0
  pub get_peer : ℕ → W → Result PeerRef × W
  pub prepare : Request → W → Result Context × W
  pub send_tx_proposal : Context → List PeerRef → W → Result (List Endorsement) × W
  pub build_transaction : Context → List Endorsement → W → Result Transaction × W
  pub register : Context → PeerRef → W → Result Hub × W
  pub send_transaction : Transaction → W → Result (List Broadcast) × W
  pub wait_for : List Hub → W → Wait × W
  pub unregister : Hub → W → Result (Unit {0}) × W
  pub disconnect : Hub → W → Result (Unit {0}) × W
  pub decode_payload : Bytes → Result Bytes

-- What `chaincode_invoke` returns. All three are texts to the caller: the messages of the peers
-- that refused the proposal, the message of the orderer, or the payload of the chaincode.
pub data Invoked : Type 0 where
  proposal_refused : List Bytes → Invoked
  broadcast_refused : Bytes → Invoked
  done : Bytes → Invoked

abbrev pub is_unreachable : Endorsement → Bool
is_unreachable (no_answer unreachable_peer) = true
is_unreachable _ = false

-- `hasattr(x, 'response') and x.response.status == 200`
abbrev pub is_good : Endorsement → Bool
is_good (endorsement status _ _) = status == 200
is_good (no_answer _) = false

unfoldable pub any_unreachable : List Endorsement → Bool
any_unreachable [] = false
any_unreachable (x ∷ xs) = is_unreachable x || any_unreachable xs

unfoldable pub keep_good : List Endorsement → List Endorsement
keep_good [] = []
keep_good (x ∷ xs) = let rest = keep_good xs in if is_good x then x ∷ rest else rest

-- The messages of the answers whose status is not 200; an exception has no `response`.
unfoldable pub refusals : List Endorsement → Result (List Bytes)
refusals [] = ok []
refusals (no_answer e ∷ xs) = err attribute_error
refusals (endorsement status message _ ∷ xs) = elim (refusals xs) [
  | err e ↦ err e
  | ok messages ↦ ok (if status == 200 then messages else message ∷ messages)
]

-- The first message of an orderer that did not take the transaction.
unfoldable pub refused_broadcast : List Broadcast → Option Bytes
refused_broadcast [] = none
refused_broadcast (v ∷ vs) =
    let rest = refused_broadcast vs in if v.status == 200 then rest else some v.message

unfoldable pub all_valid : List Bool → Bool
all_valid [] = true
all_valid (x ∷ xs) = x && all_valid xs

-- `res[0].payload`
abbrev pub first_payload : List Endorsement → Result Bytes
first_payload [] = err index_error
first_payload (endorsement _ _ payload ∷ _) = ok payload
first_payload (no_answer _ ∷ _) = err attribute_error

-- The answers to go on with; where a peer was not reached and a retry is asked for, a log line
-- stands in front of the retries.
unfoldable pub usable : (retry : ℕ) → List Endorsement → Result (List Endorsement)
unfolding any_unreachable keep_good
usable retry res =
    if any_unreachable res
    then (if retry == 0 then ok (keep_good res) else err name_error)
    else ok res

-- An empty list of peers is logged first.
abbrev pub require_peers : List PeerRef → Result (List PeerRef)
require_peers [] = err name_error
require_peers (p ∷ ps) = ok (p ∷ ps)

module _ {W : Type 0} (hfc : Hfc W) where
  open hfc use {
    Request, Context, Transaction, Hub, get_peer, prepare, send_tx_proposal, build_transaction,
    register, send_transaction, wait_for, unregister, disconnect, decode_payload,
  }

  unfoldable pub target_peers : List PeerRef → Action W (List PeerRef)
  target_peers [] = pure []
  target_peers (peer p ∷ ps) = do rest ← target_peers ps; pure (peer p ∷ rest)
  target_peers (named n ∷ ps) = do p ← get_peer n; rest ← target_peers ps; pure (p ∷ rest)
  target_peers (no_peer ∷ ps) = throw name_error

  unfoldable pub each_hub : (Hub → Action W (Unit {0})) → List Hub → Action W (Unit {0})
  each_hub f [] = pure tt
  each_hub f (h ∷ hs) = do f h; each_hub f hs

  unfoldable pub register_all : Context → List PeerRef → Action W (List Hub)
  register_all context [] = pure []
  register_all context (p ∷ ps) = do
    hub ← register context p
    hubs ← register_all context ps
    pure (hub ∷ hubs)

  abbrev pub if_wait : Bool → Action W (List Hub) → Action W (List Hub)
  if_wait true m = m
  if_wait false m = pure []

  -- The `try` with its clauses, but for its `finally`.
  abbrev pub check_wait : List Hub → Wait → Action W (Unit {0})
  check_wait hubs timed_out = do each_hub unregister hubs; throw timeout_error
  check_wait hubs (failed_with e) = throw e
  check_wait hubs (in_time none) = throw key_error
  check_wait hubs (in_time (some statuses)) =
      if all_valid statuses then pure tt else throw other_error

  abbrev pub checked_wait : List Hub → Action W (Unit {0})
  checked_wait hubs w = let (r, w') = wait_for hubs w in check_wait hubs r w'

  unfoldable pub await_events : Bool → List Hub → Action W (Unit {0})
  unfolding each_hub all_valid
  await_events false hubs = pure tt
  await_events true hubs = finally (checked_wait hubs) (each_hub disconnect hubs)

  -- From the answers of the orderer on.
  unfoldable pub conclude : Bool → List Hub → List Endorsement → Option Bytes → Action W Invoked
  unfolding await_events
  conclude wait_for_event hubs res (some message) = pure (broadcast_refused message)
  conclude wait_for_event hubs res none = do
    await_events wait_for_event hubs
    payload ← lift (first_payload res)
    text ← lift (decode_payload payload)
    pure (done text)

  -- From the check of the answers of the peers on.
  unfoldable pub submit_transaction :
      Bool → Context → List PeerRef → List Endorsement → List Bytes → Action W Invoked
  unfolding register_all refused_broadcast conclude
  submit_transaction wait_for_event context targets res (m ∷ ms) = pure (proposal_refused (m ∷ ms))
  submit_transaction wait_for_event context targets res [] = do
    transaction ← build_transaction context res
    hubs ← if_wait wait_for_event (register_all context targets)
    answers ← send_transaction transaction
    conclude wait_for_event hubs res (refused_broadcast answers)

  unfoldable pub chaincode_invoke :
      Request → List PeerRef → (wait_for_event : Bool) → (retry : ℕ) → Action W Invoked
  unfolding target_peers usable refusals submit_transaction
  chaincode_invoke request peers wait_for_event retry = do
    found ← target_peers peers
    targets ← lift (require_peers found)
    context ← prepare request
    answers ← send_tx_proposal context targets
    res ← lift (usable retry answers)
    messages ← lift (refusals res)
    submit_transaction wait_for_event context targets res messages
