-- ===== src/Ethereum/Watching.antt =====
-- `EthereumInitiator`: what it reads of its ledger. The monitor of confirmations goes through the
-- blocks one by one; `check_confirmation` looks at one transaction.
pub mod Cursor
use Prim.Native.String.{String}
use text.Mathlib.Text.{◌==◌ as str_eq}
use decentralised_interledge.Prelude.{
  ℕ, ◌+◌, min, Bool, true, false, ◌||◌, Option, none, some, List, [], ◌∷◌, Result, ok, err,
  key_error, type_error, if◌then◌else◌,
}
use decentralised_interledge.Interfaces.{
  Params, Value, number, bytes, param, FoundCall, Confirmation, interledger_commit,
  interledger_abort, no_confirmation,
}
use decentralised_interledge.Ethereum.Chain.{
  Tx, Block, Decoded, Contract, Fetch, Cache, get_block, is_to,
}

abbrev pub commit_signature : String
commit_signature = "interledgerCommit(uint256)"

abbrev pub abort_signature : String
abort_signature = "interledgerAbort(uint256,uint256)"

unfoldable pub is_confirmation : Decoded → Bool
is_confirmation d = str_eq d.function commit_signature || str_eq d.function abort_signature

-- `tx_parameters['id']`, a number in both functions.
abbrev pub id_argument : Option Value → Result ℕ
id_argument none = err key_error
id_argument (some (number n)) = ok n
id_argument (some (bytes b)) = err type_error

module _ (contract : Contract) where
  -- The id that one transaction adds, if it is a confirmation.
  unfoldable pub id_in : Tx → Result (Option ℕ)
  unfolding is_confirmation
  id_in tx =
      if is_to tx.to contract.address
      then elim (contract.decode_function_input tx.input) [
        | err e ↦ err e
        | ok d ↦
            if is_confirmation d
            then elim (id_argument (param "id" d.arguments)) [ err e ↦ err e | ok n ↦ ok (some n) ]
            else ok none
      ]
      else ok none

  unfoldable pub ids_in : List Tx → Result (List ℕ)
  unfolding id_in
  ids_in [] = ok []
  ids_in (tx ∷ txs) =
      let rest = ids_in txs in
      elim (id_in tx) [
        | err e ↦ err e
        | ok none ↦ rest
        | ok (some n) ↦ elim rest [ err e ↦ err e | ok ns ↦ ok (n ∷ ns) ]
      ]

-- `monitor_confirmations_cursor` and the block cache.
pub record Monitor : Type 0 where
  pub cursor : ℕ
  pub cache : Cache

-- `head` is the `blockNumber` that is read behind the block. The cursor has moved when a
-- transaction is decoded, also if that raises.
unfoldable pub monitor_confirmations :
    Contract → Fetch → (head : ℕ) → Monitor → Result (List ℕ) × Monitor
unfolding ids_in
monitor_confirmations contract fetch head m =
    let (r, cache') = get_block fetch m.cursor true m.cache in
    elim r [
      | err e ↦ (err e, record m { cache = cache' })
      | ok block ↦ (
        ids_in contract block.transactions,
        record { cursor = min (m.cursor + 1) head; cache = cache' },
      )
    ]

-- The transaction of the given id, which web3 looks up and whose input it decodes; the id of an
-- empty dict is a missing key.
unfoldable pub check_confirmation :
    (transaction_function : ℕ → Result String) → Option FoundCall → Result Confirmation
check_confirmation transaction_function none = err key_error
check_confirmation transaction_function (some tx) = elim (transaction_function tx.tx_id) [
  | err e ↦ err e
  | ok f ↦ ok (
      if str_eq f commit_signature
      then interledger_commit
      else if str_eq f abort_signature
      then interledger_abort
      else no_confirmation)
]
