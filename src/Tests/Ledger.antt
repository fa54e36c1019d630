-- ===== src/Tests/Ledger.antt =====
-- A small chain with a contract, and a web3 that answers for it.
use mathlib.Core.List.{Memᴰ, head?}
use decentralised_interledge.Prelude.{
  ℕ, zero, ◌*◌, ◌<◌, some, List, [], ◌∷◌, ok, ◌≡◌, arith, length, ◌==◌, if◌then◌else◌,
}
use decentralised_interledge.Interfaces.{Bytes, Event, number}
use decentralised_interledge.Ethereum.Chain.{Tx, Block, Decoded, find_function_call}
use decentralised_interledge.Ethereum.Chain.Cache.{IsFaithful, IsFaithful-empty}
use decentralised_interledge.Ethereum.Chain.Search.{
  decoding, fixed, recent_calls, find_function_call-calls,
}
use decentralised_interledge.Ethereum.Watching.{commit_signature, abort_signature, ids_in, Monitor}
use decentralised_interledge.Ethereum.Watching.Cursor.{
  poll, monitor_skips_nothing, monitor_advances,
}

-- Block n is of time 10 n. In block 4 transfer 5 is committed, in block 5 transfer 6 is aborted.
abbrev commit_of_5 : Tx
commit_of_5 = record { to = some 1; hash = 50; input = 0 ∷ [] }

abbrev abort_of_6 : Tx
abort_of_6 = record { to = some 1; hash = 51; input = 1 ∷ [] }

abbrev transactions_of : ℕ → List Tx
transactions_of n = if n == 4 then commit_of_5 ∷ [] else if n == 5 then abort_of_6 ∷ [] else []

abbrev chain : ℕ → Block
chain n = record { timestamp = n * 10; transactions = transactions_of n }

abbrev decode : Bytes → Decoded
decode (zero ∷ _) = record { function = commit_signature; arguments = ("id", number 5) ∷ [] }
decode _ = record {
  function = abort_signature;
  arguments = ("id", number 6) ∷ ("reason", number 4) ∷ [];
}

abbrev sending : ℕ → Event
sending id = record {
  event_block = 3;
  transaction_hash = 17 ∷ [];
  log_index = 0;
  arg_id = id;
  arg_data = 1 ∷ [];
}

abbrev digest : List ℕ → ℕ
digest = length

empty : IsFaithful (fixed chain) []
empty = IsFaithful-empty (fixed chain)

find_function_call-calls_example :
    let (r, cache') =
      find_function_call
        (decoding 1 decode)
        commit_signature
        (("id", number 5) ∷ [])
        (fixed chain)
        8
        (some 30)
        [] in
    (r
      ≡ ok (
          head? (recent_calls 1 decode commit_signature (("id", number 5) ∷ []) chain (some 30) 8)))
    × IsFaithful (fixed chain) cache'
find_function_call-calls_example =
    find_function_call-calls 1 decode commit_signature (("id", number 5) ∷ []) chain 8 (some 30) []
      empty

abbrev monitor : Monitor
monitor = record { cursor = 4; cache = [] }

monitor_skips_nothing_example :
    Memᴰ
      (ids_in (decoding 1 decode) (chain 4).transactions)
      (poll (decoding 1 decode) chain (8 ∷ 9 ∷ []) monitor).0
monitor_skips_nothing_example =
    monitor_skips_nothing (decoding 1 decode) chain (8 ∷ 9 ∷ []) monitor 4 empty
      (omega arith, (omega arith, tt)) (omega arith) moved
  where
    moved : 4 < (poll (decoding 1 decode) chain (8 ∷ 9 ∷ []) monitor).1.cursor
    moved = omega (
      arith,
      monitor_advances (decoding 1 decode) chain (8 ∷ 9 ∷ []) monitor empty
          (omega arith, (omega arith, tt)),
    )
