-- ===== src/Ethereum/Events/Found.antt =====
-- The commit or abort of a transfer is found on the ledger that its event came from.
use Prim.Native.String.{String}
use text.Mathlib.TextEquality.{eq_iff}
use mathlib.Core.List.{Memᴰ}
use decentralised_interledge.Prelude.{
  ℕ, ◌≤◌, true, false, ==_iff, Option, none, some, List, [], ◌∷◌, ok, ◌≡◌, refl, ap, ◌∙◌, arith,
}
use decentralised_interledge.Interfaces.{
  Bytes, Event, Transfer, Value, number, bytes, param, FoundCall,
}
use decentralised_interledge.Ethereum.Chain.{
  Tx, Block, Decoded, Cache, is_to, has_value, all_params, is_match, find_function_call,
}
use decentralised_interledge.Ethereum.Chain.Cache.{IsFaithful, get_block-eq-fetch}
use decentralised_interledge.Ethereum.Chain.Search.{decoding, fixed, is_call, found_call}
use decentralised_interledge.Ethereum.Chain.Complete.{IsTimed, find_function_call_complete}
use decentralised_interledge.Ethereum.Watching.{abort_signature}
use decentralised_interledge.Ethereum.Events.{transfer_of, process_event, get_interledger_abort_tx}

module _ (sha256 : List ℕ → ℕ) (secret : List ℕ) (chain : ℕ → Block) where
  -- On a chain that does not change an event gives the transfer at the time of its own block,
  -- whatever the cache holds of the chain.
  process_event-transfer_of :
      (event : Event) (cache : Cache)
      → IsFaithful (fixed chain) cache
      → let (r, cache') = process_event sha256 secret (fixed chain) event cache in
        (r ≡ ok (transfer_of sha256 secret event (chain event.event_block)))
        × IsFaithful (fixed chain) cache'
  unfolding process_event
  process_event-transfer_of event cache h =
      let (e, h') = get_block-eq-fetch (fixed chain) event.event_block false cache h in
      rw (e, process_event) (refl, h')

  module _ (address : ℕ) (decode : Bytes → Decoded) where
    -- The transaction is to the contract and calls the function of this signature for this id.
    abbrev pub IsCallFor : String → ℕ → Tx → Type 0
    IsCallFor signature id tx =
        (tx.to ≡ some address)
        × ((decode tx.input).function ≡ signature)
        × (param "id" (decode tx.input).arguments ≡ some (number id))

    -- What was found is such a call, of a block from the first number to the second.
    abbrev pub IsFoundFor : String → ℕ → ℕ → ℕ → FoundCall → Type 0
    IsFoundFor signature id first last f =
        (n : ℕ) × (tx : Tx) × (first ≤ n)
        × (n ≤ last)
        × Memᴰ tx (chain n).transactions
        × IsCallFor signature id tx
        × (f ≡ record {
          block_id = n;
          tx_id = tx.hash;
          tx_func = signature;
          tx_params = (decode tx.input).arguments;
        })

    has_value_lem :
        (found : Option Value) (id : ℕ)
        → has_value found (number id) ≡ true
        → found ≡ some (number id)
    has_value_lem none id e = absurd (ground (arith, e))
    has_value_lem (some (number n)) id e = ap (λ k. some (number k)) ((==_iff n id).0 e)
    has_value_lem (some (bytes a)) id e = absurd (ground (arith, e))

    is_to_lem : (to : Option ℕ) → is_to to address ≡ true → to ≡ some address
    is_to_lem none e = absurd (ground (arith, e))
    is_to_lem (some a) e = ap some ((==_iff a address).0 e)

    IsCallFor-is_call :
        (signature : String) (id : ℕ) (tx : Tx)
        → IsCallFor signature id tx
        → is_call address decode signature (("id", number id) ∷ []) tx ≡ true
    unfolding is_call is_match all_params
    IsCallFor-is_call signature id tx (to, function, argument) =
        let to_it : is_to tx.to address ≡ true = rw to ((==_iff address address).1 refl) in
        let has_id : has_value (param "id" (decode tx.input).arguments) (number id) ≡ true =
          rw argument ((==_iff id id).1 refl) in
        ground (arith, to_it, (eq_iff (decode tx.input).function signature).1 function, has_id)

    is_call-IsCallFor :
        (signature : String) (id : ℕ) (tx : Tx)
        → is_call address decode signature (("id", number id) ∷ []) tx ≡ true
        → IsCallFor signature id tx
    unfolding is_call is_match all_params
    is_call-IsCallFor signature id tx e = (
      is_to_lem tx.to (ground (arith, e)),
      (eq_iff (decode tx.input).function signature).0 (ground (arith, e)),
      has_value_lem (param "id" (decode tx.input).arguments) id (ground (arith, e)),
    )

    found_call_as :
        (signature : String) (id n : ℕ) (tx : Tx)
        → IsCallFor signature id tx
        → (f : FoundCall) → f ≡ found_call address decode signature (("id", number id) ∷ []) n tx
        → f ≡ record {
          block_id = n;
          tx_id = tx.hash;
          tx_func = signature;
          tx_params = (decode tx.input).arguments;
        }
    unfolding found_call
    found_call_as signature id n tx (_, function, _) f made =
        made
        ∙ ap
            (λ s. record {
              block_id = n;
              tx_id = tx.hash;
              tx_func = s;
              tx_params = (decode tx.input).arguments;
            })
            function

    found_for :
        (signature : String) (id m start_block until : ℕ) (tx : Tx) (cache : Cache)
        → IsFaithful (fixed chain) cache
        → IsTimed chain
        → until ≤ m
        → m ≤ start_block
        → Memᴰ tx (chain m).transactions
        → IsCallFor signature id tx
        → (f : FoundCall) × ((find_function_call
              (decoding address decode)
              signature
              (("id", number id) ∷ [])
              (fixed chain)
              start_block
              (some (chain until).timestamp)
              cache).0
            ≡ ok (some f))
          × IsFoundFor signature id until start_block f
    found_for signature id m start_block until tx cache h timed late le mem call =
        let (f, found, n, (tx', mem', call', made), low, high) =
          find_function_call_complete address decode signature (("id", number id) ∷ []) chain
            (chain until).timestamp m start_block tx cache h timed (timed until m late) le mem
            (IsCallFor-is_call signature id tx call) in
        let call_for = is_call-IsCallFor signature id tx' call' in
        (
          f,
          found,
          (
            n,
            tx',
            omega arith,
            high,
            mem',
            call_for,
            found_call_as signature id n tx' call_for f made,
          ),
        )

    -- An abort, in the block of the event or a later one, is never missed: under the same conditions
    -- on the chain `get_interledgerAbort_tx`, for the transfer that `process_event` gives, returns a
    -- call of interledgerAbort with the id of the event, if the chain up to the block where the
    -- search starts holds one.
    pub abort_found :
        (event : Event) (m start_block : ℕ) (tx : Tx) (cache : Cache)
        → IsFaithful (fixed chain) cache
        → IsTimed chain
        → event.event_block ≤ m
        → m ≤ start_block
        → Memᴰ tx (chain m).transactions
        → IsCallFor abort_signature event.arg_id tx
        → let (r, cache') = process_event sha256 secret (fixed chain) event cache in
          (t : Transfer) × (f : FoundCall) × (r ≡ ok t)
          × ((get_interledger_abort_tx
                (decoding address decode)
                (fixed chain)
                start_block
                t
                cache').0
              ≡ ok (some f))
          × IsFoundFor abort_signature event.arg_id event.event_block start_block f
    unfolding get_interledger_abort_tx transfer_of
    abort_found event m start_block tx cache h timed late le mem call =
        let (e, h') = process_event-transfer_of event cache h in
        let (f, found, which) =
          found_for abort_signature event.arg_id m start_block event.event_block tx _ h' timed late
            le mem call in
        (transfer_of sha256 secret event (chain event.event_block), f, e, found, which)
