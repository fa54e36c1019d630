-- ===== src/Timeout/Duty.antt =====
-- `is_my_duty`: who acts on a transfer, and when.
use decentralised_interledge.Prelude.{
  ℕ, zero, suc, ◌+◌, ◌-◌, ◌*◌, ◌≤◌, ◌<◌, ◌≡◌, ◌≢◌, ◌⊎◌, refl, ap, true, false, ok, arith, inl, inr,
  Bool-cases, >>=_inv,
}
use decentralised_interledge.Prelude.Int.{pos, negsuc}
use native.Mathlib.Decide.{dec_lt}
use native.Mathlib.Nat.{one-le-pow}
use decentralised_interledge.Interfaces.{NodeConfig, Transfer}
use decentralised_interledge.Timeout.{
  Period, resolve_timeout_period, get_transfer_age, duty_of, is_my_duty, in_second_half,
}
use decentralised_interledge.Timeout.Periods.{
  duration, start, Holds, resolve-Holds, period_idx_negative,
}
use decentralised_interledge.Timeout.Depth.{start_lt}

-- The node number i of the bridge that the configuration describes.
abbrev pub as_node : NodeConfig → ℕ → NodeConfig
as_node config i = record config { node_id = i }

-- The transfer t is in the first half of its idx-th period at the time `now`. An age that is
-- negative counts as the first period.
pub record InFirstHalf (config : NodeConfig) (now : ℕ) (t : Transfer) (idx : ℕ) : Type 0 where
  pub begun : (start config idx + t.initiation_timestamp ≤ now) ⊎ (idx ≡ 0)
  pub half : 2 * now ≤ 2 * (start config idx + t.initiation_timestamp) + duration config idx

age_cases :
    (now : ℕ) (t : Transfer)
    → ((t.initiation_timestamp ≤ now)
        × (get_transfer_age now t ≡ pos (now - t.initiation_timestamp)))
      ⊎ ((now < t.initiation_timestamp)
          × (get_transfer_age now t ≡ negsuc (t.initiation_timestamp - now - 1)))
unfolding get_transfer_age
age_cases now t = ground arith

-- A period that holds the age of the transfer, in its first half.
Holds-InFirstHalf :
    (config : NodeConfig) (now : ℕ) (t : Transfer) (p : Period)
    → t.initiation_timestamp ≤ now
    → Holds config (now - t.initiation_timestamp) p
    → in_second_half p ≡ false
    → InFirstHalf config now t p.period_idx
Holds-InFirstHalf config now t p past h half = ground arith

negative-InFirstHalf :
    (config : NodeConfig) (now : ℕ) (t : Transfer)
    → now < t.initiation_timestamp
    → InFirstHalf config now t 0
negative-InFirstHalf config now t early = ground arith

module _ (depth : ℕ) (config : NodeConfig) (now : ℕ) (t : Transfer) where
  -- What the resolved period says of the time, where it is not in its second half.
  resolve-InFirstHalf :
      (p : Period)
      → resolve_timeout_period depth config (get_transfer_age now t) 0 ≡ ok p
      → in_second_half p ≡ false
      → InFirstHalf config now t p.period_idx
  resolve-InFirstHalf p h half = elim (age_cases now t) [
    | inl (past, e) ↦
        let held = resolve-Holds config depth (now - t.initiation_timestamp) p (rw e at h) in
        Holds-InFirstHalf config now t p past held half
    | inr (early, e) ↦
        let first =
          period_idx_negative config depth (t.initiation_timestamp - now - 1) p (rw e at h) in
        rw first (negative-InFirstHalf config now t early)
  ]

  -- A node that has the duty is in the first half of a period, and that period's turn is its own.
  pub is_my_duty_inv :
      is_my_duty depth config now t ≡ ok true
      → (idx : ℕ) × InFirstHalf config now t idx × (duty_of config t idx ≡ ok true)
  unfolding is_my_duty
  is_my_duty_inv h =
      let (p, rest, e) =
        >>=_inv (resolve_timeout_period depth config (get_transfer_age now t) 0) _ h in
      elim (Bool-cases (in_second_half p)) [
        | inl late ↦ absurd (ground arith)
        | inr first ↦ (p.period_idx, resolve-InFirstHalf p e first, ground arith)
      ]

-- The schedule of periods is the same for every node of the bridge.
pub start-as_node : (config : NodeConfig) (i n : ℕ) → start (as_node config i) n ≡ start config n
start-as_node config i zero = refl
start-as_node config i (suc n) = ap (λ s. s + duration config n) (start-as_node config i n)

-- In one period, at most one node has its turn.
duty_of_unique :
    (config : NodeConfig) (t : Transfer) (idx i j : ℕ)
    → duty_of (as_node config i) t idx ≡ ok true
    → duty_of (as_node config j) t idx ≡ ok true
    → i ≡ j
unfolding duty_of
duty_of_unique config t idx i j hi hj = ground arith

module _ (config : NodeConfig) (t : Transfer) (i j now_i now_j : ℕ) where
  -- From the first half of a period to a later period, half of the earlier one has to pass.
  apart :
      (k l : ℕ)
      → 0 < config.timeout_backoff
      → InFirstHalf (as_node config i) now_i t k
      → InFirstHalf (as_node config j) now_j t l
      → k < l
      → config.timeout_initial + 2 * now_i ≤ 2 * now_j
  apart k l b hk hl lt = grind (
    arith,
    hk.half,
    hl.begun,
    start-as_node config i k,
    start-as_node config j l,
    start_lt config k l lt,
    one-le-pow k config.timeout_backoff b,
  )

module _ (depth : ℕ) (config : NodeConfig) (t : Transfer) (i j now_i now_j : ℕ) where
  -- If two different nodes of a bridge each find, by its own clock, that a transfer is theirs,
  -- then their clocks are at least half of the initial timeout apart, for any positive backoff.
  -- So no transfer has two nodes on duty while the clocks agree up to half of the initial timeout.
  pub is_my_duty_exclusive :
      0 < config.timeout_backoff
      → i ≢ j
      → is_my_duty depth (as_node config i) now_i t ≡ ok true
      → is_my_duty depth (as_node config j) now_j t ≡ ok true
      → (config.timeout_initial + 2 * now_i ≤ 2 * now_j)
        ⊎ (config.timeout_initial + 2 * now_j ≤ 2 * now_i)
  is_my_duty_exclusive b ne hi hj =
      let (k, wk, dk) = is_my_duty_inv depth (as_node config i) now_i t hi in
      let (l, wl, dl) = is_my_duty_inv depth (as_node config j) now_j t hj in
      elim (dec_lt k l) [
        | yes lt ↦ inl (apart config t i j now_i now_j k l b wk wl lt)
        | no ge ↦ elim (dec_lt l k) [
          | yes gt ↦ inr (apart config t j i now_j now_i l k b wl wk gt)
          | no le ↦
              let same : k ≡ l = omega arith in
              absurd (ne (duty_of_unique config t l i j (rw same at dk) dl))
        ]
      ]
