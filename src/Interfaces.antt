-- ===== src/Interfaces.antt =====
-- src/interledger/adapter/interfaces.py, src/interledger/transfer.py and the node's options in
-- src/interledger/configs.py: the data that the core and the adapters exchange.
use Prim.Native.String.{String}
use text.Mathlib.Text.{◌==◌ as str_eq}
use decentralised_interledge.Prelude.{
  ℕ, Bool, true, false, ◌&&◌, ◌==◌, Option, none, some, List, [], ◌∷◌, if◌then◌else◌, ◌≡◌, refl,
  arith,
}

-- `ErrorCode`; its values are 1 to 5, so every code is true as a condition.
pub data ErrorCode : Type 0 where
  timeout transaction_failure unsupported_ksi_hash application_reject inquiry_reject : ErrorCode

abbrev pub Bytes : Type 0
Bytes = List ℕ

-- `initiator_tx_key` of a transfer.
pub record TxKey : Type 0 where
  pub tx_id : List ℕ  -- the text of the hash
  pub block_id : ℕ

-- A transfer. `id` and `initiator_id` are decimal texts of numbers, and are kept as the numbers.
pub record Transfer : Type 0 where
  pub id : ℕ
  pub payload : Bytes  -- the field `data`
  pub initiator_id : ℕ
  pub initiation_timestamp : ℕ
  pub initiator_tx_key : TxKey

pub record NodeConfig : Type 0 where
  pub node_count : ℕ
  pub node_id : ℕ
  pub secret : List ℕ
  pub timeout_initial : ℕ
  pub timeout_backoff : ℕ
  pub timeout_enabled : Bool
  pub confirm_transfer : Bool
  pub verification_enabled : Bool
  pub route_to_first_node : Bool

-- The dictionary that `send_data` and its kin return. A key that is absent is `none`.
pub record Response : Type 0 where
  pub status : Bool
  pub error_code : Option ErrorCode
  pub tx_hash : Option ℕ
  pub block_number : Option ℕ
  pub additional_data : Option ℕ
  pub nonce : Option ℕ

-- An `InterledgerEventSending` log entry, with the fields that the code reads.
pub record Event : Type 0 where
  pub event_block : ℕ  -- `blockNumber`
  pub transaction_hash : List ℕ
  pub log_index : ℕ
  pub arg_id : ℕ  -- `args.id`
  pub arg_data : Bytes  -- `args.data`

-- A decoded argument of a contract function, and the arguments by their names.
pub data Value : Type 0 where
  number : ℕ → Value
  bytes : Bytes → Value

abbrev pub Params : Type 0
Params = List (String × Value)

abbrev pub param : String → Params → Option Value
param name [] = none
param name ((other, v) ∷ params) = if str_eq other name then some v else param name params

-- `a == b` on bytes and on arguments.
abbrev pub bytes_eq : Bytes → Bytes → Bool
bytes_eq [] [] = true
bytes_eq (x ∷ xs) (y ∷ ys) = x == y && bytes_eq xs ys
bytes_eq _ _ = false

pub bytes_eq_lem : (a b : Bytes) → bytes_eq a b ≡ true → a ≡ b
bytes_eq_lem [] [] e = refl
bytes_eq_lem [] (y ∷ b) e = cc
bytes_eq_lem (x ∷ a) [] e = cc
bytes_eq_lem (x ∷ a) (y ∷ b) e = grind (arith, bytes_eq_lem a b)

abbrev pub value_eq : Value → Value → Bool
value_eq (number a) (number b) = a == b
value_eq (bytes a) (bytes b) = bytes_eq a b
value_eq _ _ = false

-- The dictionary that `find_function_call` returns of a transaction.
pub record FoundCall : Type 0 where
  pub block_id : ℕ
  pub tx_id : ℕ
  pub tx_func : String
  pub tx_params : Params

-- The texts that `check_response` and `check_confirmation` return, and the empty text.
pub data Ack : Type 0 where
  event_accepted event_rejected no_event : Ack

pub data Confirmation : Type 0 where
  interledger_commit interledger_abort no_confirmation : Confirmation
