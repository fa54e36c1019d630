-- ===== src/Indy.antt =====
-- src/interledger/adapter/indy.py: the Indy initiator. The indy library is a parameter; the printing
-- is left out. A key of the ledger and a handle are what the library gives.
pub mod Handlers
pub mod Listening
use Prim.Native.String.{String}
use text.Mathlib.Text.{◌==◌ as str_eq}
use decentralised_interledge.Prelude.{
  ℕ, Bool, true, false, Option, none, some, List, [], ◌∷◌, Result, ok, err, Exception, type_error,
  indy_error, if◌then◌else◌,
}
use decentralised_interledge.Prelude.Actions.{Action, pure, throw, continue, ◌>>=◌, ◌>>◌, lift}

-- The functions of the library that the adapter awaits. `get_nym` builds, submits and decodes a
-- GET_NYM request, and gives the verkey of the answer.
pub record Library (W : Type 0) : Type 0 where
  pub set_protocol_version : W → Result (Unit {0}) × W
  pub create_pool_ledger_config : W → Result (Unit {0}) × W
  pub delete_pool_ledger_config : W → Result (Unit {0}) × W
  pub open_pool_ledger : W → Result ℕ × W
  pub create_wallet : W → Result (Unit {0}) × W
  pub delete_wallet : W → Result (Unit {0}) × W
  pub open_wallet : W → Result ℕ × W
  pub create_and_store_my_did : ℕ → W → Result (String × String) × W
  pub get_nym : Option String → Option ℕ → W → Result String × W

-- What the object keeps.
pub record Handles : Type 0 where
  pub ready : Bool
  pub pool_handle : Option ℕ
  pub wallet_handle : Option ℕ
  pub client_did : Option String
  pub client_verkey : Option String
  pub verkey : Option String
  pub entries : List String  -- the key of each entry

-- `__init__`
abbrev pub new_handles : Handles
new_handles = record {
  ready = false;
  pool_handle = none;
  wallet_handle = none;
  client_did = none;
  client_verkey = none;
  verkey = none;
  entries = [];
}

pub record State (W : Type 0) : Type 0 where
  pub world : W
  pub handles : Handles

-- `_buffer_data`: `Transfer()` without the arguments of the dataclass raises.
unfoldable pub buffer_data : List String → Result (List (Unit {0}))
buffer_data [] = ok []
buffer_data (entry ∷ entries) = err type_error

-- `verkey_from_ledger != self.verkey`
abbrev pub is_same_key : String → Option String → Bool
is_same_key k none = false
is_same_key k (some old) = str_eq k old

-- The comparison with the key that is kept, and the entries that it makes.
abbrev pub note_key : String → Handles → Handles
note_key key h =
    if is_same_key key h.verkey
    then record h { entries = [] }
    else record h { verkey = some key; entries = key ∷ [] }

-- `except IndyError`
abbrev pub is_indy_error : Exception → Bool
is_indy_error indy_error = true
is_indy_error e = false

module _ {W : Type 0} (library : Library W) where
  open library use {
    set_protocol_version, create_pool_ledger_config, delete_pool_ledger_config, open_pool_ledger,
    create_wallet, delete_wallet, open_wallet, create_and_store_my_did, get_nym,
  }

  abbrev pub in_world : {A : Type 0} → (W → Result A × W) → Action (State W) A
  in_world f s = let (r, w) = f s.world in (r, record s { world = w })

  -- An assignment to a field.
  abbrev pub assign : (Handles → Handles) → Action (State W) (Unit {0})
  assign f s = (ok tt, record s { handles = f s.handles })

  -- `try: create` with `except IndyError: delete; create`
  abbrev pub again :
      Action (State W) (Unit {0}) → Result (Unit {0}) × State W → Result (Unit {0}) × State W
  again retry (ok _, s) = (ok tt, s)
  again retry (err e, s) = if is_indy_error e then retry s else (err e, s)

  unfoldable pub create_pool : Action (State W) (Unit {0})
  create_pool s =
      again (in_world delete_pool_ledger_config >> in_world create_pool_ledger_config)
        (in_world create_pool_ledger_config s)

  unfoldable pub create_new_wallet : Action (State W) (Unit {0})
  create_new_wallet s =
      again (in_world delete_wallet >> in_world create_wallet) (in_world create_wallet s)

  -- The outer `try` block.
  unfoldable pub set_up : Action (State W) (Unit {0})
  unfolding create_pool create_new_wallet
  set_up = do
    in_world set_protocol_version
    create_pool
    pool ← in_world open_pool_ledger
    assign (λ h. record h { pool_handle = some pool })
    create_new_wallet
    wallet ← in_world open_wallet
    assign (λ h. record h { wallet_handle = some wallet })
    (did, key) ← in_world (create_and_store_my_did wallet)
    assign (λ h. record h { client_did = some did; client_verkey = some key })
    assign (λ h. record h { ready = true })

  -- Its `except IndyError`, and `return self.ready`.
  unfoldable pub ready_after : Result (Unit {0}) × State W → Result Bool × State W
  ready_after (ok _, s) = (ok s.handles.ready, s)
  ready_after (err e, s) =
      if is_indy_error e
      then (ok false, record s { handles = record s.handles { ready = false } })
      else (err e, s)

  unfoldable pub create_handlers : Action (State W) Bool
  unfolding set_up ready_after
  create_handlers s = ready_after (set_up s)

  -- `if not self.ready`: `IndyInitializer.create_handlers()` is called without its object.
  abbrev pub require_ready : Bool → Action (State W) (Unit {0})
  require_ready true = pure tt
  require_ready false = throw type_error

  unfoldable pub listen_for_events : Action (State W) (List (Unit {0}))
  unfolding buffer_data
  listen_for_events = do
    λ s. require_ready s.handles.ready s
    key ← λ s. in_world (get_nym s.handles.client_did s.handles.pool_handle) s
    assign (note_key key)
    λ s. (buffer_data s.handles.entries, s)

-- `commit_sending` and `abort_sending` do nothing: the status that each returns.
unfoldable pub commit_sending : ℕ → Bool
commit_sending id = true

unfoldable pub abort_sending : ℕ → ℕ → Bool
abort_sending id reason = true
