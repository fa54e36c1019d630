-- ===== src/Tests/Times.antt =====
-- Periods and duties of the example bridge.
use decentralised_interledge.Prelude.{
  ℕ, ◌+◌, ◌-◌, ◌*◌, ◌^◌, ◌≤◌, ◌<◌, ◌==◌, ltb, leb, ok, err, ◌≡◌, ◌⊎◌, ◌↔◌, refl, arith,
  recursion_error, true, false, if◌then◌else◌,
}
use decentralised_interledge.Prelude.Int.{pos}
use decentralised_interledge.Timeout.{
  Period, resolve_timeout_period, is_my_duty, is_timed_out, get_transfer_age, duty_of,
}
use decentralised_interledge.Timeout.Periods.{start, duration, Holds}
use decentralised_interledge.Timeout.Depth.{resolve_depth_exact, resolve_total}
use decentralised_interledge.Timeout.Bounds.{resolve_bounds}
use decentralised_interledge.Timeout.Duty.{as_node, is_my_duty_exclusive}
use decentralised_interledge.Timeout.Turns.{turn, IsUsable, is_my_duty_exact, is_my_duty_rotates}
use decentralised_interledge.Tests.Bridge.{bridge, delivery}

-- At age 2 the second node is on duty, at age 15, in the next period, the third.
second_on_duty : is_my_duty 10 (as_node bridge 2) 102 delivery ≡ ok true
unfolding is_my_duty resolve_timeout_period get_transfer_age duty_of
second_on_duty = refl

third_on_duty : is_my_duty 10 (as_node bridge 3) 115 delivery ≡ ok true
unfolding is_my_duty resolve_timeout_period get_transfer_age duty_of
third_on_duty = refl

is_my_duty_exclusive_example :
    (bridge.timeout_initial + 2 * 102 ≤ 2 * 115) ⊎ (bridge.timeout_initial + 2 * 115 ≤ 2 * 102)
is_my_duty_exclusive_example =
    is_my_duty_exclusive 10 bridge delivery 2 3 102 115 (omega arith) (λ h. omega arith)
      second_on_duty third_on_duty

resolve_depth_exact_example :
    (resolve_timeout_period 2 bridge (pos 35) 0 ≡ err recursion_error) ↔ (start bridge 2 ≤ 35)
resolve_depth_exact_example = resolve_depth_exact bridge 2 35

resolve_total_example :
    (p : Period) × (resolve_timeout_period 10 bridge (pos 35) 0 ≡ ok p) × Holds bridge 35 p
resolve_total_example = resolve_total bridge 10 35 (omega arith) (omega arith) (omega arith)

usable : IsUsable 10 bridge 115 delivery
usable = record {
  positive = omega arith;
  doubles = omega arith;
  nodes = omega arith;
  past = omega arith;
  shallow = omega arith;
}

is_my_duty_exact_example :
    (p : Period) × Holds bridge (115 - delivery.initiation_timestamp) p
    × (is_my_duty 10 bridge 115 delivery
        ≡ ok (
            if leb
              (2 * (115 - delivery.initiation_timestamp))
              (2 * start bridge p.period_idx + duration bridge p.period_idx)
            then turn bridge delivery p.period_idx == bridge.node_id
            else false))
    × (is_timed_out 10 bridge 115 delivery ≡ ok (ltb 0 p.period_idx))
is_my_duty_exact_example = is_my_duty_exact 10 bridge 115 delivery usable

is_my_duty_rotates_example :
    (idx : ℕ) × (1 ≤ idx)
    × (idx < 1 + bridge.node_count)
    × (is_my_duty 10 (as_node bridge 1) (start bridge idx + delivery.initiation_timestamp) delivery
        ≡ ok true)
is_my_duty_rotates_example =
    is_my_duty_rotates 10 bridge delivery 1 1 (omega arith) (omega arith) (omega arith)
      (omega arith) (omega arith)

resolved :
    resolve_timeout_period 10 bridge (pos 35) 0
    ≡ ok (record { period_idx = 2; period_duration = 40; time_left = pos 35 })
unfolding resolve_timeout_period
resolved = refl

resolve_bounds_example : (2 ^ 2 ≤ 35 + 1) × ((n : ℕ) × (pos 35 ≡ pos n) × (0 < n) × (n ≤ 40))
resolve_bounds_example =
    resolve_bounds bridge 10 35
      (record { period_idx = 2; period_duration = 40; time_left = pos 35 }) (omega arith)
      (omega arith) resolved
