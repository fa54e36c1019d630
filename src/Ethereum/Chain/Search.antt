-- ===== src/Ethereum/Chain/Search.antt =====
-- What `find_function_call` finds on a chain that does not change and whose inputs decode.
use Prim.Native.String.{String}
use mathlib.Core.List.{head?}
use decentralised_interledge.Prelude.{
  ℕ, zero, suc, Bool, true, false, Option, none, some, List, [], ◌∷◌, ◌++◌, ok, ◌≡◌, refl, arith,
  if◌then◌else◌,
}
use decentralised_interledge.Interfaces.{Bytes, Params, FoundCall}
use decentralised_interledge.Ethereum.Chain.{
  Tx, Block, Decoded, Contract, Fetch, Cache, is_to, is_match, search_txs, is_before, search_blocks,
  get_block, find_function_call,
}
use decentralised_interledge.Ethereum.Chain.Cache.{IsFaithful, get_block-eq-fetch}

-- The contract at an address, whose inputs all decode.
abbrev pub decoding : ℕ → (Bytes → Decoded) → Contract
decoding address decode = record { address = address; decode_function_input = λ i. ok (decode i) }

-- A block as it comes without full transactions; their hashes, which no caller reads, are left out.
abbrev pub without_transactions : Block → Block
without_transactions block = record { timestamp = block.timestamp; transactions = [] }

-- A chain that does not change, with full transactions or without.
abbrev pub fixed : (ℕ → Block) → Fetch
fixed chain n true = ok (chain n)
fixed chain n false = ok (without_transactions (chain n))

pub head?-append {ℓ} :
    {A : Type ℓ} (xs ys : List A)
    → head? (xs ++ ys) ≡ elim (head? xs) [ none ↦ head? ys | some x ↦ some x ]
head?-append [] ys = refl
head?-append (x ∷ xs) ys = refl

module _ (address : ℕ) (decode : Bytes → Decoded) (signature : String) (wanted : Params) where
  -- The transaction calls the function with the wanted arguments.
  unfoldable pub is_call : Tx → Bool
  is_call tx = if is_to tx.to address then is_match signature wanted (decode tx.input) else false

  unfoldable pub found_call : ℕ → Tx → FoundCall
  found_call n tx = record {
    block_id = n;
    tx_id = tx.hash;
    tx_func = (decode tx.input).function;
    tx_params = (decode tx.input).arguments;
  }

  -- The calls of a block, in its order, and of the chain from block n down to where a block is
  -- too old.
  unfoldable pub calls : ℕ → List Tx → List FoundCall
  calls n [] = []
  calls n (tx ∷ txs) = if is_call tx then found_call n tx ∷ calls n txs else calls n txs

  unfoldable pub recent_calls : (ℕ → Block) → Option ℕ → ℕ → List FoundCall
  recent_calls chain until zero =
      if is_before until (chain zero) then [] else calls zero (chain zero).transactions
  recent_calls chain until (suc n) =
      let rest = recent_calls chain until n in
      if is_before until (chain (suc n))
      then []
      else calls (suc n) (chain (suc n)).transactions ++ rest

  search_txs-calls :
      (n : ℕ) (txs : List Tx)
      → search_txs (decoding address decode) signature wanted n txs ≡ ok (head? (calls n txs))
  unfolding search_txs calls is_call found_call is_match
  search_txs-calls n [] = refl
  search_txs-calls n (tx ∷ txs) = ground (arith, search_txs-calls n txs)

  -- The loop, from any block down: the first of the recent calls, and a faithful cache.
  search_blocks-calls :
      (chain : ℕ → Block) (until : Option ℕ) (n : ℕ) (cache : Cache)
      → IsFaithful (fixed chain) cache
      → let (r, cache') =
          search_blocks (decoding address decode) signature wanted (fixed chain) until n cache in
        (r ≡ ok (head? (recent_calls chain until n))) × IsFaithful (fixed chain) cache'
  unfolding search_blocks recent_calls
  search_blocks-calls chain until zero cache h =
      let (e, h') = get_block-eq-fetch (fixed chain) zero true cache h in
      ground (arith, e, h', search_txs-calls zero (chain zero).transactions)
  search_blocks-calls chain until (suc n) cache h =
      let (e, h') = get_block-eq-fetch (fixed chain) (suc n) true cache h in
      let ih =
        search_blocks-calls chain until n (get_block (fixed chain) (suc n) true cache).1 h' in
      ground (
        arith,
        e,
        h',
        search_txs-calls (suc n) (chain (suc n)).transactions,
        ih.0,
        head?-append (calls (suc n) (chain (suc n)).transactions) (recent_calls chain until n),
      )

  -- On a chain that does not change and whose inputs all decode, from a cache that is faithful to
  -- it, the search returns the first of the matching calls in the recent blocks, newest block
  -- first, or an empty result if there is none; and the cache that it leaves is faithful.
  pub find_function_call-calls :
      (chain : ℕ → Block) (start_block : ℕ) (until : Option ℕ) (cache : Cache)
      → IsFaithful (fixed chain) cache
      → let (r, cache') =
          find_function_call
            (decoding address decode)
            signature
            wanted
            (fixed chain)
            start_block
            until
            cache in
        (r ≡ ok (head? (recent_calls chain until start_block))) × IsFaithful (fixed chain) cache'
  unfolding find_function_call
  find_function_call-calls chain start_block until cache h =
      search_blocks-calls chain until start_block cache h
