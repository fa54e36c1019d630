-- ===== src/Ethereum/Watching/Cursor.antt =====
-- The monitor of confirmations skips no block.
use mathlib.Core.List.{Memᴰ}
use mathlib.Core.Path.{subst}
use native.Mathlib.Decide.{ℕ_discrete}
use decentralised_interledge.Prelude.{
  ℕ, suc, ◌+◌, ◌≤◌, ◌<◌, min, true, List, [], ◌∷◌, Result, ◌≡◌, refl, arith, sym, ◌∙◌, All, length,
}
use decentralised_interledge.Ethereum.Chain.{Block, Contract}
use decentralised_interledge.Ethereum.Chain.Cache.{IsFaithful, get_block-eq-fetch}
use decentralised_interledge.Ethereum.Chain.Search.{fixed}
use decentralised_interledge.Ethereum.Watching.{ids_in, Monitor, monitor_confirmations}

-- Each head is at or above the one before it.
abbrev pub IsRising : ℕ → List ℕ → Type 0
IsRising low [] = Unit
IsRising low (head ∷ heads) = (low ≤ head) × IsRising head heads

IsRising-le :
    (low low' : ℕ) (heads : List ℕ) → low' ≤ low → IsRising low heads → IsRising low' heads
IsRising-le low low' [] le h = tt
IsRising-le low low' (head ∷ heads) le h = (omega arith, h.1)

module _ (contract : Contract) (chain : ℕ → Block) where
  -- One call after the other, each with the head of its time: what they return, oldest first, and
  -- the monitor behind them.
  pub poll : List ℕ → Monitor → List (Result (List ℕ)) × Monitor
  poll [] m = ([], m)
  poll (head ∷ heads) m =
      let (r, m') = monitor_confirmations contract (fixed chain) head m in
      let (rs, m'') = poll heads m' in (r ∷ rs, m'')

  monitor_step :
      (head : ℕ) (m : Monitor)
      → IsFaithful (fixed chain) m.cache
      → let (r, m') = monitor_confirmations contract (fixed chain) head m in
        (r ≡ ids_in contract (chain m.cursor).transactions)
        × (m'.cursor ≡ min (m.cursor + 1) head)
        × IsFaithful (fixed chain) m'.cache
  unfolding monitor_confirmations
  monitor_step head m h =
      let (e, h') = get_block-eq-fetch (fixed chain) m.cursor true m.cache h in
      rw (e, monitor_confirmations) (refl, refl, h')

  -- On a chain that does not change and whose head does not fall, every block from the first
  -- cursor up to the last one has been read: what the monitor has to say of it, its ids or the
  -- error of its decoding, was returned by one of the calls. The cursor passes no block over.
  pub monitor_skips_nothing :
      (heads : List ℕ) (m : Monitor) (n : ℕ)
      → IsFaithful (fixed chain) m.cache
      → IsRising m.cursor heads
      → m.cursor ≤ n
      → n < (poll heads m).1.cursor
      → Memᴰ (ids_in contract (chain n).transactions) (poll heads m).0
  unfolding poll
  monitor_skips_nothing [] m n h rising low high = absurd (omega arith)
  monitor_skips_nothing (head ∷ heads) m n h (le, rising) low high =
      let (e, moved, h') = monitor_step head m h in
      let m' = (monitor_confirmations contract (fixed chain) head m).1 in
      elim (ℕ_discrete n m.cursor) [
        | yes same ↦ Memᴰ.head (rw same (sym e))
        | no other ↦ Memᴰ.tail (
            monitor_skips_nothing heads m' n h'
              (IsRising-le head m'.cursor heads (omega (arith, moved)) rising)
              (omega (arith, moved)) high)
      ]

  -- Where the head stays ahead of it, each call moves the cursor on by one block.
  pub monitor_advances :
      (heads : List ℕ) (m : Monitor)
      → IsFaithful (fixed chain) m.cache
      → All (λ head. m.cursor + length heads ≤ head) heads
      → (poll heads m).1.cursor ≡ m.cursor + length heads
  unfolding poll
  monitor_advances [] m h a = omega arith
  monitor_advances (head ∷ heads) m h (le, a) =
      let (e, moved, h') = monitor_step head m h in
      let m' = (monitor_confirmations contract (fixed chain) head m).1 in
      let next : m'.cursor ≡ m.cursor + 1 = omega (arith, moved) in
      let same : m.cursor + suc (length heads) ≡ m'.cursor + length heads = omega (arith, next) in
      monitor_advances heads m' h' (subst (λ k. All (λ head. k ≤ head) heads) same a) ∙ sym same
