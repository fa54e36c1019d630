-- ===== src/Ethereum/Chain/Complete.antt =====
-- `find_function_call` misses no call, on a chain whose timestamps do not fall.
use Prim.Native.String.{String}
use mathlib.Core.List.{head?, Memᴰ}
use mathlib.Core.Path.{subst}
use mathlib.Core.Option.{some-injective}
use native.Mathlib.Decide.{ℕ_discrete}
use decentralised_interledge.Prelude.{
  ℕ, zero, suc, ◌≤◌, true, false, Option, none, some, List, [], ◌∷◌, ok, ◌≡◌, refl, sym, inl, inr,
  arith, Option-cases, Bool-cases,
}
use decentralised_interledge.Interfaces.{Bytes, Params, FoundCall}
use decentralised_interledge.Ethereum.Chain.{
  Tx, Block, Decoded, Cache, is_before, find_function_call,
}
use decentralised_interledge.Ethereum.Chain.Cache.{IsFaithful}
use decentralised_interledge.Ethereum.Chain.Search.{
  decoding, fixed, is_call, found_call, calls, recent_calls, head?-append, find_function_call-calls,
}

-- The chain's timestamps do not fall.
abbrev pub IsTimed : (ℕ → Block) → Type 0
IsTimed chain = (m n : ℕ) → m ≤ n → (chain m).timestamp ≤ (chain n).timestamp

module _ (address : ℕ) (decode : Bytes → Decoded) (signature : String) (wanted : Params) where
  abbrev calls_of : ℕ → List Tx → List FoundCall
  calls_of = calls address decode signature wanted

  abbrev recent_of : (ℕ → Block) → Option ℕ → ℕ → List FoundCall
  recent_of = recent_calls address decode signature wanted

  -- The search's answer is made of one of these transactions of block n, which is a call.
  abbrev pub IsFoundIn : ℕ → List Tx → FoundCall → Type 0
  IsFoundIn n txs f =
      (tx : Tx) × Memᴰ tx txs
      × (is_call address decode signature wanted tx ≡ true)
      × (f ≡ found_call address decode signature wanted n tx)

  later_found :
      (n : ℕ) (x : Tx) (txs : List Tx) (f : FoundCall) → IsFoundIn n txs f → IsFoundIn n (x ∷ txs) f
  later_found n x txs f (tx, m, hit, same) = (tx, Memᴰ.tail m, hit, same)

  head?-calls :
      (n : ℕ) (txs : List Tx) (f : FoundCall) → head? (calls_of n txs) ≡ some f → IsFoundIn n txs f
  unfolding calls
  head?-calls n [] f h = absurd (cc)
  head?-calls n (tx ∷ txs) f h = elim (Bool-cases (is_call address decode signature wanted tx)) [
    | inl hit ↦ (tx, Memᴰ.head refl, hit, sym (some-injective _ _ (rw hit at h)))
    | inr miss ↦ later_found n tx txs f (head?-calls n txs f (rw miss at h))
  ]

  calls-Memᴰ :
      (n : ℕ) (txs : List Tx) (tx : Tx)
      → Memᴰ tx txs
      → is_call address decode signature wanted tx ≡ true
      → (f : FoundCall) × (head? (calls_of n txs) ≡ some f)
  unfolding calls
  calls-Memᴰ n [] tx m c = elim m [ ]
  calls-Memᴰ n (x ∷ txs) tx (Memᴰ.head e) c =
      (found_call address decode signature wanted n x, rw (rw e at c) refl)
  calls-Memᴰ n (x ∷ txs) tx (Memᴰ.tail m) c =
      let (f, e) = calls-Memᴰ n txs tx m c in
      elim (Bool-cases (is_call address decode signature wanted x)) [
        | inl hit ↦ (found_call address decode signature wanted n x, rw hit refl)
        | inr miss ↦ (f, rw miss e)
      ]

  module _ (chain : ℕ → Block) (until m : ℕ) (late : until ≤ (chain m).timestamp)
      (timed : IsTimed chain) where
    not_before : (n : ℕ) → m ≤ n → is_before (some until) (chain n) ≡ false
    not_before n le = ground (arith, timed m n le)

    -- A call in block m, or one in a newer block, is the first.
    abbrev Found : ℕ → Type 0
    Found n =
        (f : FoundCall) × (head? (recent_of chain (some until) n) ≡ some f)
        × (k : ℕ) × IsFoundIn k (chain k).transactions f
        × (m ≤ k)
        × (k ≤ n)

    Found-here :
        (n : ℕ) (f : FoundCall)
        → m ≤ n
        → head? (calls_of n (chain n).transactions) ≡ some f
        → Found n
    unfolding recent_calls
    Found-here zero f le e =
        let at = head?-calls zero (chain zero).transactions f e in
        (f, rw (not_before zero le) e, zero, at, le, omega arith)
    Found-here (suc n) f le e =
        let at = head?-calls (suc n) (chain (suc n)).transactions f e in
        (
          f,
          rw
              (
                not_before (suc n) le,
                head?-append (calls_of (suc n) (chain (suc n)).transactions)
                    (recent_of chain (some until) n),
                e,
              )
              refl,
          suc n,
          at,
          le,
          omega arith,
        )

    Found-below :
        (n : ℕ)
        → m ≤ n
        → head? (calls_of (suc n) (chain (suc n)).transactions) ≡ none
        → Found n
        → Found (suc n)
    unfolding recent_calls
    Found-below n le e (f, first, k, at, low, high) = (
      f,
      rw
          (
            not_before (suc n) (omega arith),
            head?-append (calls_of (suc n) (chain (suc n)).transactions)
                (recent_of chain (some until) n),
            e,
          )
          first,
      k,
      at,
      low,
      omega arith,
    )

    Found-from :
        (f₀ : FoundCall)
        → head? (calls_of m (chain m).transactions) ≡ some f₀
        → (n : ℕ) → m ≤ n
        → Found n
    Found-from f₀ e₀ zero le =
        let same : m ≡ 0 = omega arith in
        Found-here zero f₀ le
          (subst (λ k. head? (calls_of k (chain k).transactions) ≡ some f₀) same e₀)
    Found-from f₀ e₀ (suc n) le = elim (ℕ_discrete m (suc n)) [
      | yes same ↦
          Found-here (suc n) f₀ le
            (subst (λ k. head? (calls_of k (chain k).transactions) ≡ some f₀) same e₀)
      | no older ↦ elim (Option-cases (head? (calls_of (suc n) (chain (suc n)).transactions))) [
        | inl empty ↦ Found-below n (omega arith) empty (Found-from f₀ e₀ n (omega arith))
        | inr (f, e) ↦ Found-here (suc n) f le e
      ]
    ]

  -- On a chain that does not change, whose timestamps do not fall and whose inputs decode, a call
  -- with the wanted arguments in block m, at or behind the time `until`, is never missed: the
  -- search from any block at or above m returns such a call, of block m or of a newer one.
  pub find_function_call_complete :
      (chain : ℕ → Block) (until m start_block : ℕ) (tx : Tx) (cache : Cache)
      → IsFaithful (fixed chain) cache
      → IsTimed chain
      → until ≤ (chain m).timestamp
      → m ≤ start_block
      → Memᴰ tx (chain m).transactions
      → is_call address decode signature wanted tx ≡ true
      → (f : FoundCall) × ((find_function_call
            (decoding address decode)
            signature
            wanted
            (fixed chain)
            start_block
            (some until)
            cache).0
          ≡ ok (some f))
        × (n : ℕ) × IsFoundIn n (chain n).transactions f
        × (m ≤ n)
        × (n ≤ start_block)
  find_function_call_complete chain until m start_block tx cache h timed late le mem c =
      let (f₀, e₀) = calls-Memᴰ m (chain m).transactions tx mem c in
      let (f, first, n, at, low, high) = Found-from chain until m late timed f₀ e₀ start_block le in
      let (r, _) =
        find_function_call-calls address decode signature wanted chain start_block (some until)
          cache h in
      (f, rw first at r, n, at, low, high)
