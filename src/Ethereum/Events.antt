-- ===== src/Ethereum/Events.antt =====
-- From an event of the initiator's ledger to the transfer, with `generate_hash_id` of
-- src/interledger/utils.py, and the searches for what became of a transfer. A text is the list of
-- its character codes; `sha256` gives the number of the digest.
pub mod Found
pub mod Seed
use Prim.Native.String.{String}
use decentralised_interledge.Prelude.{
  ℕ, zero, suc, ◌+◌, ◌/◌, ◌%◌, Bool, true, false, Option, none, some, List, [], ◌∷◌, ◌++◌, ltb,
  Result, ok, err, if◌then◌else◌,
}
use decentralised_interledge.Interfaces.{Bytes, Event, Transfer, Params, number, FoundCall}
use decentralised_interledge.Ethereum.Chain.{
  Block, Contract, Fetch, Cache, get_block, find_function_call,
}
use decentralised_interledge.Ethereum.Watching.{commit_signature, abort_signature}

-- `str` of a number; the first argument is a bound on the number of digits less one.
unfoldable pub digits : ℕ → ℕ → List ℕ
digits zero n = (48 + n % 10) ∷ []
digits (suc more) n =
    let front = digits more (n / 10) in
    if ltb n 10 then (48 + n) ∷ [] else front ++ (48 + n % 10) ∷ []

unfoldable pub decimal : ℕ → List ℕ
unfolding digits
decimal n = digits n n

abbrev pub hex_digit : ℕ → ℕ
hex_digit d = if ltb d 10 then 48 + d else 87 + d

-- `HexBytes.hex()` behind its prefix 0x.
unfoldable pub hex : Bytes → List ℕ
hex [] = []
hex (b ∷ bs) = hex_digit (b / 16) ∷ hex_digit (b % 16) ∷ hex bs

abbrev pub hash_text : Bytes → List ℕ
hash_text h = 48 ∷ 120 ∷ hex h

unfoldable pub generate_hash_id : (sha256 : List ℕ → ℕ) → List ℕ → List ℕ → ℕ
generate_hash_id sha256 seed salt = sha256 (seed ++ salt)

-- `seed`
unfoldable pub seed_of : Event → List ℕ
unfolding decimal hex
seed_of event =
    decimal event.event_block ++ (hash_text event.transaction_hash ++ decimal event.log_index)

unfoldable pub generate_transfer_id : (sha256 : List ℕ → ℕ) → List ℕ → Event → ℕ
unfolding generate_hash_id seed_of
generate_transfer_id sha256 secret event = generate_hash_id sha256 (seed_of event) secret

-- The transfer that an event asks for, at the time of the event's block.
unfoldable pub transfer_of : (sha256 : List ℕ → ℕ) → List ℕ → Event → Block → Transfer
unfolding generate_transfer_id
transfer_of sha256 secret event block = record {
  id = generate_transfer_id sha256 secret event;
  payload = event.arg_data;
  initiator_id = event.arg_id;
  initiation_timestamp = block.timestamp;
  initiator_tx_key = record {
    tx_id = hash_text event.transaction_hash;
    block_id = event.event_block;
  };
}

unfoldable pub process_event :
    (sha256 : List ℕ → ℕ) → List ℕ → Fetch → Event → Cache → Result Transfer × Cache
unfolding transfer_of get_block
process_event sha256 secret fetch event cache =
    let (r, cache') = get_block fetch event.event_block false cache in
    elim r [
      | err e ↦ (err e, cache')
      | ok block ↦ (ok (transfer_of sha256 secret event block), cache')
    ]

abbrev pub receive_signature : String
receive_signature = "interledgerReceive(uint256,bytes)"

module _ (contract : Contract) (fetch : Fetch) (start_block : ℕ) (transfer : Transfer) where
  unfoldable pub get_interledger_commit_tx : Cache → Result (Option FoundCall) × Cache
  get_interledger_commit_tx =
      find_function_call contract commit_signature (("id", number transfer.initiator_id) ∷ []) fetch
        start_block (some transfer.initiation_timestamp)

  unfoldable pub get_interledger_abort_tx : Cache → Result (Option FoundCall) × Cache
  get_interledger_abort_tx =
      find_function_call contract abort_signature (("id", number transfer.initiator_id) ∷ []) fetch
        start_block (some transfer.initiation_timestamp)

  unfoldable pub get_interledger_receive_tx : Cache → Result (Option FoundCall) × Cache
  get_interledger_receive_tx =
      find_function_call contract receive_signature (("nonce", number transfer.id) ∷ []) fetch
        start_block (some transfer.initiation_timestamp)
