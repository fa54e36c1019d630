-- ===== src/Timeout.antt =====
-- src/interledger/interledger.py: the age of a transfer, the period that it is in, and which node
-- is to act on it. `time()` is a float: a time is a whole number of clock ticks, and
-- `timeout_initial` counts the same ticks.
pub mod Periods
pub mod Depth
pub mod Bounds
pub mod Duty
pub mod Turns
use decentralised_interledge.Prelude.{
  ℕ, zero, suc, ◌+◌, ◌*◌, ◌^◌, ◌%◌, Bool, true, false, ◌==◌, ltb, if◌then◌else◌, Result, ok, err,
  ◌>>=◌, recursion_error, zero_division_error,
}
use decentralised_interledge.Prelude.Int.{ℤ, pos, ◌-ℤ◌, sub_ℕ, ltb_ℤ, pos_part, neg_part}
use decentralised_interledge.Interfaces.{Transfer, NodeConfig}

-- The triple that `resolve_timeout_period` returns.
pub record Period : Type 0 where
  pub period_idx : ℕ
  pub period_duration : ℕ
  pub time_left : ℤ

unfoldable pub get_transfer_age : (now : ℕ) → Transfer → ℤ
get_transfer_age now transfer = sub_ℕ now transfer.initiation_timestamp

-- The first argument is the number of nested calls that the interpreter has room for.
unfoldable pub resolve_timeout_period : ℕ → NodeConfig → ℤ → ℕ → Result Period
resolve_timeout_period zero config target_time period_idx = err recursion_error
resolve_timeout_period (suc depth) config target_time period_idx =
    let backoff_factor = config.timeout_backoff ^ period_idx in
    let period_duration = config.timeout_initial * backoff_factor in
    let rest =
      resolve_timeout_period depth config (target_time -ℤ pos period_duration) (period_idx + 1) in
    if ltb_ℤ target_time (pos period_duration)
    then ok (record {
      period_idx = period_idx;
      period_duration = period_duration;
      time_left = pos period_duration -ℤ target_time;
    })
    else rest

-- `time_left < (period_duration / 2)`, with both sides doubled.
abbrev pub in_second_half : Period → Bool
in_second_half p = ltb (2 * pos_part p.time_left) (p.period_duration + 2 * neg_part p.time_left)

-- `period_idx % node_count` and what follows it.
unfoldable pub duty_of : NodeConfig → Transfer → ℕ → Result Bool
duty_of config transfer period_idx =
    if config.node_count == 0
    then err zero_division_error
    else (let increment = period_idx % config.node_count in
        let transfer_id = if config.route_to_first_node then 0 else transfer.id in
        let node_id = (transfer_id + increment) % config.node_count + 1 in
        ok (node_id == config.node_id))

unfoldable pub is_my_duty : ℕ → NodeConfig → ℕ → Transfer → Result Bool
is_my_duty depth config now transfer = do
  p ← resolve_timeout_period depth config (get_transfer_age now transfer) 0
  if in_second_half p then ok false else duty_of config transfer p.period_idx

unfoldable pub is_timed_out : ℕ → NodeConfig → ℕ → Transfer → Result Bool
is_timed_out depth config now transfer = do
  p ← resolve_timeout_period depth config (get_transfer_age now transfer) 0
  ok (ltb 0 p.period_idx)
