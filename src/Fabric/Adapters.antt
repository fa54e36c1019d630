-- ===== src/Fabric/Adapters.antt =====
-- `FabricInitiator` and `FabricResponder`. The printing is left out. `Transfer()` is called without
-- the arguments that the dataclass needs, which raises a TypeError.
use Prim.Native.String.{String}
use text.Mathlib.Text.{◌==◌ as str_eq}
use decentralised_interledge.Prelude.{
  ℕ, Bool, true, false, ◌||◌, ◌==◌, Option, none, some, List, [], ◌∷◌, ◌++◌, Result, ok, err,
  if◌then◌else◌, type_error, index_error, timeout_error,
}
use decentralised_interledge.Prelude.Actions.{Action, pure, ◌>>=◌, ◌>>◌, lift}
use decentralised_interledge.Interfaces.{Bytes, ErrorCode, transaction_failure}
use decentralised_interledge.Fabric.Client.{PeerRef, Hfc, Invoked, chaincode_invoke}

-- A function of the chaincode, with its arguments.
pub record Function : Type 0 where
  pub name : String
  pub arguments : List Bytes

-- What `commit_sending` and `abort_sending` return: the `…_status`, and the `…_error_code` if it is
-- there. The hash is always the text 0xfake_tx_hash.
pub record Reply : Type 0 where
  pub status : Bool
  pub error_code : Option ErrorCode

abbrev pub success : Reply
success = record { status = true; error_code = none }

abbrev pub failure : Reply
failure = record { status = false; error_code = some transaction_failure }

-- The `except Exception` clause: any exception gives a failure, and any result a success.
unfoldable pub reply_to : {W : Type 0} → Result Invoked × W → Result Reply × W
reply_to (ok result, w) = (ok success, w)
reply_to (err e, w) = (ok failure, w)

-- The keyword arguments that `chaincode_invoke` has.
abbrev pub parameters : List String
parameters =
    "requestor" ∷ "channel_name" ∷ "peers" ∷ "args" ∷ "cc_name" ∷ "cc_type" ∷ "fcn"
    ∷ "transient_map" ∷ "wait_for_event" ∷ "wait_for_event_timeout"
    ∷ "grpc_broker_unavailable_retry" ∷ "grpc_broker_unavailable_retry_delay"
    ∷ "raise_broker_unavailable" ∷ []

abbrev pub is_among : String → List String → Bool
is_among name [] = false
is_among name (other ∷ others) = str_eq name other || is_among name others

-- A call binds its keyword arguments first; one that the function does not have raises.
unfoldable pub bind_keywords : List String → Result (Unit {0})
bind_keywords [] = ok tt
bind_keywords (k ∷ ks) =
    let rest = bind_keywords ks in if is_among k parameters then rest else err type_error

abbrev pub initiator_keywords : List String
initiator_keywords =
    "requestor" ∷ "peers" ∷ "channel_name" ∷ "cc_name" ∷ "fcn" ∷ "args" ∷ "wait_for_event" ∷ []

abbrev pub responder_keywords : List String
responder_keywords =
    "requestor" ∷ "peers" ∷ "channel_name" ∷ "cc_name" ∷ "cc_version" ∷ "fcn" ∷ "args"
    ∷ "wait_for_event" ∷ []

-- An event of the chaincode, as the block event carries it: its name and its payload.
pub record ChaincodeEvent : Type 0 where
  pub event_name : String
  pub payload : Bytes

-- A block: its transactions, each with its actions, each with its event.
abbrev pub BlockEvent : Type 0
BlockEvent = List (List ChaincodeEvent)

-- `event_handler` reads the first action of the first transaction.
unfoldable pub event_handler : BlockEvent → List ChaincodeEvent → Result (List ChaincodeEvent)
event_handler [] entries = err index_error
event_handler ([] ∷ _) entries = err index_error
event_handler ((event ∷ _) ∷ _) entries =
    ok (
      if str_eq event.event_name "InterledgerEventSending"
      then entries ++ (event ∷ [])
      else entries)

-- `_buffer_data`: the first event already raises at `Transfer()`. An empty list gives no transfers.
unfoldable pub buffer_data : List ChaincodeEvent → Result (List (Unit {0}))
buffer_data [] = ok []
buffer_data (event ∷ events) = err type_error

-- What the initiator keeps between two calls of `listen_for_events`.
pub record Listener : Type 0 where
  pub height : Option ℕ
  pub entries : List ChaincodeEvent

-- hfc, as far as `listen_for_events` calls it: the height of the ledger, a hub that is made and
-- registered, the wait for its stream from a height on, in which hfc calls the handler on what it
-- likes, and the end of the hub.
pub record Channel (W : Type 0) : Type 0 where
  pub get_height : W → Result ℕ × W
  pub open_hub : W → Result (Unit {0}) × W
  pub listen :
      (handler : BlockEvent → List ChaincodeEvent → Result (List ChaincodeEvent))
      → ℕ
      → List ChaincodeEvent
      → W
      → Result (Unit {0}) × List ChaincodeEvent × W
  pub disconnect : W → Result (Unit {0}) × W

-- The world, with what the initiator keeps.
pub record State (W : Type 0) : Type 0 where
  pub world : W
  pub listener : Listener

module _ {W : Type 0} (channel : Channel W) where
  abbrev pub in_world : {A : Type 0} → (W → Result A × W) → Action (State W) A
  in_world f s = let (r, w) = f s.world in (r, record s { world = w })

  abbrev pub set_height : ℕ → Action (State W) (Unit {0})
  set_height n s =
      (ok tt, record s { listener = record { height = some n; entries = s.listener.entries } })

  abbrev pub clear : Action (State W) (Unit {0})
  clear s = (ok tt, record s { listener = record { height = s.listener.height; entries = [] } })

  abbrev pub find_height : Option ℕ → Action (State W) ℕ
  find_height none = in_world channel.get_height
  find_height (some n) = if n == 0 then in_world channel.get_height else pure n

  -- `if not self.height: self.height = await self.get_height()`
  unfoldable pub start_height : Action (State W) ℕ
  start_height = do n ← λ s. find_height s.listener.height s; set_height n; pure n

  -- The end of the wait by its timeout is not an error.
  abbrev pub passed : Result (Unit {0}) → Result (Unit {0})
  passed (err timeout_error) = ok tt
  passed r = r

  unfoldable pub wait_for_blocks : ℕ → Action (State W) (Unit {0})
  wait_for_blocks n s =
      let (r, entries, w) = channel.listen event_handler n s.listener.entries s.world in
      (
        passed r,
        record { world = w; listener = record { height = s.listener.height; entries = entries } },
      )

  unfoldable pub listen_for_events : Action (State W) (List (Unit {0}))
  unfolding start_height wait_for_blocks buffer_data
  listen_for_events = do
    in_world channel.open_hub
    n ← start_height
    wait_for_blocks n
    height ← in_world channel.get_height
    set_height height
    transfers ← λ s. (buffer_data s.listener.entries, s)
    in_world channel.disconnect
    clear
    pure transfers

module _ {W : Type 0} (hfc : Hfc W) (request : Function → hfc.Request) (peers : List PeerRef) where
  -- `chaincode_invoke` with the keywords of a call, in which the retries keep their default of 0.
  unfoldable pub invoke : List String → Function → Action W Invoked
  unfolding bind_keywords
  invoke keywords f = do
    lift (bind_keywords keywords)
    chaincode_invoke hfc (request f) peers true 0

  unfoldable pub commit_sending : Bytes → Action W Reply
  unfolding invoke reply_to
  commit_sending id w =
      reply_to
        (invoke initiator_keywords (record { name = "InterledgerCommit"; arguments = id ∷ [] }) w)

  -- The arguments are numbers: `int(id)`, whose exception is caught with the others, and the code.
  unfoldable pub abort_sending : Result Bytes → Bytes → Action W Reply
  unfolding invoke reply_to
  abort_sending id reason w = reply_to (
      (do
        i ← lift id
        invoke initiator_keywords
            (record { name = "interledgerAbort"; arguments = i ∷ reason ∷ [] }))
        w)

  unfoldable pub send_data : Bytes → Bytes → Action W Reply
  unfolding invoke reply_to
  send_data nonce payload w = reply_to (
      invoke responder_keywords
        (record { name = "interledgerReceive"; arguments = nonce ∷ payload ∷ [] }) w)
