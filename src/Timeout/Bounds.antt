-- ===== src/Timeout/Bounds.antt =====
-- How large the results of `resolve_timeout_period` get.
use decentralised_interledge.Prelude.{ℕ, suc, ◌+◌, ◌-◌, ◌^◌, ◌≤◌, ◌<◌, ◌≡◌, ok, arith}
use decentralised_interledge.Prelude.Int.{pos}
use decentralised_interledge.Interfaces.{NodeConfig}
use decentralised_interledge.Timeout.{Period, resolve_timeout_period}
use decentralised_interledge.Timeout.Periods.{start, resolve-Holds}
use decentralised_interledge.Timeout.Depth.{pow-le-start}

module _ (config : NodeConfig) where
  -- With a positive first timeout and a backoff of 2 or more, the number of the period of an age
  -- of a ticks is at most the binary logarithm of a + 1, and the time that is left in it is
  -- positive, and no longer than the period.
  pub resolve_bounds :
      (depth a : ℕ) (p : Period)
      → 0 < config.timeout_initial
      → 2 ≤ config.timeout_backoff
      → resolve_timeout_period depth config (pos a) 0 ≡ ok p
      → (2 ^ p.period_idx ≤ a + 1)
        × ((n : ℕ) × (p.time_left ≡ pos n) × (0 < n) × (n ≤ p.period_duration))
  resolve_bounds depth a p i h e =
      let holds = resolve-Holds config depth a p e in
      let small : 2 ^ p.period_idx ≤ a + 1 =
        omega (arith, pow-le-start config p.period_idx i h, holds.started) in
      (
        small,
        (
          start config (suc p.period_idx) - a,
          holds.left_eq,
          omega (arith, holds.not_over),
          omega (arith, holds.started, holds.duration_eq),
        ),
      )
