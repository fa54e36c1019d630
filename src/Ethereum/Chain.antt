-- ===== src/Ethereum/Chain.antt =====
-- `EthereumCommonMixin`: blocks with their cache, and the search for a function call in them.
pub mod Cache
pub mod Search
pub mod Complete
use Prim.Native.String.{String}
use text.Mathlib.Text.{◌==◌ as str_eq}
use decentralised_interledge.Prelude.{
  ℕ, zero, suc, ◌+◌, ◌*◌, Bool, true, false, ◌&&◌, ◌==◌, ltb, Option, none, some, List, [], ◌∷◌,
  if◌then◌else◌, Result, ok, err,
}
use decentralised_interledge.Prelude.Dict.{Dict, lookup, insert}
use decentralised_interledge.Interfaces.{Bytes, Value, Params, param, value_eq, FoundCall}

pub record Tx : Type 0 where
  pub to : Option ℕ  -- none for the creation of a contract
  pub hash : ℕ
  pub input : Bytes

pub record Block : Type 0 where
  pub timestamp : ℕ
  pub transactions : List Tx

-- What `decode_function_input` returns: the function, by its signature, and its arguments.
pub record Decoded : Type 0 where
  pub function : String
  pub arguments : Params

abbrev pub is_to : Option ℕ → ℕ → Bool
is_to none address = false
is_to (some a) address = a == address

-- web3's view of the contract.
pub record Contract : Type 0 where
  pub address : ℕ
  pub decode_function_input : Bytes → Result Decoded

-- web3's `get_block`, with the flag `full_transactions`.
abbrev pub Fetch : Type 0
Fetch = ℕ → Bool → Result Block

abbrev pub Cache : Type 0
Cache = Dict Block

-- The key (block_number, full_transactions), as one number.
abbrev pub cache_key : ℕ → Bool → ℕ
cache_key block_number full = block_number * 2 + (if full then 1 else 0)

-- A block that is fetched is kept; one that is not is not.
abbrev pub keep : ℕ → Result Block → Cache → Result Block × Cache
keep key (ok block) cache = (ok block, insert key block cache)
keep key (err e) cache = (err e, cache)

unfoldable pub get_block : Fetch → ℕ → Bool → Cache → Result Block × Cache
get_block fetch block_number full cache =
    let key = cache_key block_number full in
    elim (lookup key cache) [
      | some block ↦ (ok block, cache)
      | none ↦ keep key (fetch block_number full) cache
    ]

-- `all(k in tx_parameters and tx_parameters[k] == v for k, v in function_params.items())`
abbrev pub has_value : Option Value → Value → Bool
has_value none v = false
has_value (some w) v = value_eq w v

unfoldable pub all_params : Params → Params → Bool
all_params [] arguments = true
all_params ((k, v) ∷ wanted) arguments =
    has_value (param k arguments) v && all_params wanted arguments

unfoldable pub is_match : String → Params → Decoded → Bool
unfolding all_params
is_match signature wanted d = str_eq d.function signature && all_params wanted d.arguments

-- `until is not None and block['timestamp'] < until`
abbrev pub is_before : Option ℕ → Block → Bool
is_before none block = false
is_before (some until) block = ltb block.timestamp until

module _ (contract : Contract) (signature : String) (wanted : Params) where
  -- What one transaction gives: nothing, the call that it makes, or the error of its decoding.
  unfoldable pub call_in : ℕ → Tx → Result (Option FoundCall)
  unfolding is_match
  call_in block_number tx =
      if is_to tx.to contract.address
      then elim (contract.decode_function_input tx.input) [
        | err e ↦ err e
        | ok d ↦
            if is_match signature wanted d
            then ok (
                some (record {
                  block_id = block_number;
                  tx_id = tx.hash;
                  tx_func = d.function;
                  tx_params = d.arguments;
                }))
            else ok none
      ]
      else ok none

  -- The inner loop, which returns at the first match.
  unfoldable pub search_txs : ℕ → List Tx → Result (Option FoundCall)
  unfolding call_in
  search_txs block_number [] = ok none
  search_txs block_number (tx ∷ txs) =
      let rest = search_txs block_number txs in
      elim (call_in block_number tx) [
        | err e ↦ err e
        | ok (some found) ↦ ok (some found)
        | ok none ↦ rest
      ]

  -- The outer loop from a block down to block 0, with the block in hand.
  unfoldable pub search_blocks : Fetch → Option ℕ → ℕ → Cache → Result (Option FoundCall) × Cache
  unfolding get_block search_txs
  search_blocks fetch until zero cache =
      let (r, cache') = get_block fetch zero true cache in
      elim r [
        | err e ↦ (err e, cache')
        | ok block ↦
            if is_before until block
            then (ok none, cache')
            else (search_txs zero block.transactions, cache')
      ]
  search_blocks fetch until (suc n) cache =
      let (r, cache') = get_block fetch (suc n) true cache in
      let rest = search_blocks fetch until n cache' in
      elim r [
        | err e ↦ (err e, cache')
        | ok block ↦
            if is_before until block
            then (ok none, cache')
            else elim (search_txs (suc n) block.transactions) [
              | err e ↦ (err e, cache')
              | ok (some found) ↦ (ok (some found), cache')
              | ok none ↦ rest
            ]
      ]

  -- The search starts at the newest block, `start_block`.
  unfoldable pub find_function_call :
      Fetch → (start_block : ℕ) → (until : Option ℕ) → Cache → Result (Option FoundCall) × Cache
  unfolding search_blocks
  find_function_call fetch start_block until cache = search_blocks fetch until start_block cache
