-- ===== src/Timeout/Turns.antt =====
-- `is_my_duty` and `is_timed_out` as the exact answer for a period, and the rotation of the duty.
use decentralised_interledge.Prelude.{
  ℕ, suc, ◌+◌, ◌-◌, ◌*◌, ◌^◌, ◌%◌, ◌≤◌, ◌<◌, ◌≡◌, true, false, ok, arith, ltb, leb, ◌==◌,
  if◌then◌else◌, refl, sym, ap, ◌∙◌,
}
use decentralised_interledge.Prelude.Int.{pos}
use mathlib.Core.Path.{◌≡⟨◌⟩◌, ◌∎}
use native.Mathlib.Nat.{mod-lt, mod-add-mod, mod-eq_of_lt, one-le-pow, add-mod-mod, add-mod_right}
use decentralised_interledge.Interfaces.{NodeConfig, Transfer}
use decentralised_interledge.Timeout.{Period, get_transfer_age, duty_of, is_my_duty, is_timed_out}
use decentralised_interledge.Timeout.Periods.{duration, start, Holds}
use decentralised_interledge.Timeout.Depth.{resolve_total, Holds-unique, start-le-start}
use decentralised_interledge.Timeout.Duty.{as_node, start-as_node}

-- What the theorems ask of a configuration and of the interpreter: a positive first timeout that
-- at least doubles, some node, and an age that the recursion limit resolves.
pub record IsUsable (depth : ℕ) (config : NodeConfig) (now : ℕ) (t : Transfer) : Type 0 where
  pub positive : 0 < config.timeout_initial
  pub doubles : 2 ≤ config.timeout_backoff
  pub nodes : 0 < config.node_count
  pub past : t.initiation_timestamp ≤ now
  pub shallow : now - t.initiation_timestamp + 1 < 2 ^ depth

-- The number of the node whose turn the idx-th period is.
pub turn : NodeConfig → Transfer → ℕ → ℕ
turn config t idx =
    ((if config.route_to_first_node then 0 else t.id) + idx % config.node_count) % config.node_count
    + 1

turn_bounds :
    (config : NodeConfig) (t : Transfer) (idx : ℕ)
    → 0 < config.node_count
    → (1 ≤ turn config t idx) × (turn config t idx ≤ config.node_count)
unfolding turn
turn_bounds config t idx h = grind (arith, mod-lt)

duty_of-turn :
    (config : NodeConfig) (t : Transfer) (idx : ℕ)
    → 0 < config.node_count
    → duty_of config t idx ≡ ok (turn config t idx == config.node_id)
unfolding turn duty_of
duty_of-turn config t idx h = ground arith

age_past :
    (now : ℕ) (t : Transfer)
    → t.initiation_timestamp ≤ now
    → get_transfer_age now t ≡ pos (now - t.initiation_timestamp)
unfolding get_transfer_age
age_past now t h = ground arith

module _ (depth : ℕ) (config : NodeConfig) (now : ℕ) (t : Transfer)
    (u : IsUsable depth config now t) where
  -- With a positive first timeout, a backoff of 2 or more and at least one node, a transfer that is
  -- not of the future and whose age the interpreter resolves is in one period. In its first half a
  -- node has the duty exactly if it is the node whose turn it is, in its second half it has not. The
  -- transfer is timed out from the second period on.
  pub is_my_duty_exact :
      (p : Period) × Holds config (now - t.initiation_timestamp) p
      × (is_my_duty depth config now t
          ≡ ok (
              if leb
                (2 * (now - t.initiation_timestamp))
                (2 * start config p.period_idx + duration config p.period_idx)
              then turn config t p.period_idx == config.node_id
              else false))
      × (is_timed_out depth config now t ≡ ok (ltb 0 p.period_idx))
  unfolding is_my_duty is_timed_out
  is_my_duty_exact =
      let (p, e, h) =
        resolve_total config depth (now - t.initiation_timestamp) u.positive u.doubles u.shallow in
      (
        p,
        h,
        rw (age_past now t u.past, e, duty_of-turn config t p.period_idx u.nodes) (ground arith),
        rw (age_past now t u.past, e) refl,
      )

-- Counting on from m, each remainder x comes up within n steps.
abbrev steps_to : ℕ → ℕ → ℕ → ℕ
steps_to n m x = (x + (n - m % n)) % n

steps_to-mod : (n m x : ℕ) → x < n → (m + steps_to n m x) % n ≡ x
steps_to-mod n m x h =
    (m + steps_to n m x) % n
    ≡⟨ add-mod-mod m (x + (n - m % n)) n ⟩ (m + (x + (n - m % n))) % n
    ≡⟨ sym (mod-add-mod m n (x + (n - m % n))) ⟩ (m % n + (x + (n - m % n))) % n
    ≡⟨ ap (λ s. s % n) (regroup (m % n) (mod-lt m (omega arith))) ⟩ (x + n) % n
    ≡⟨ add-mod_right x n ⟩ x % n
    ≡⟨ mod-eq_of_lt h ⟩ x ∎
  where
    regroup : (r : ℕ) → r < n → r + (x + (n - r)) ≡ x + n
    regroup r lt = omega arith

turn-as_node :
    (config : NodeConfig) (i : ℕ) (t : Transfer) (idx : ℕ)
    → turn (as_node config i) t idx ≡ turn config t idx
unfolding turn
turn-as_node config i t idx = refl

-- The node i has its turn in one of any `node_count` periods in a row.
next_turn :
    (config : NodeConfig) (t : Transfer) (i k : ℕ)
    → 1 ≤ i
    → i ≤ config.node_count
    → (idx : ℕ) × (k ≤ idx) × (idx < k + config.node_count) × (turn config t idx ≡ i)
unfolding turn
next_turn config t i k low high =
    let first : ℕ = if config.route_to_first_node then 0 else t.id in
    let n : ℕ = config.node_count in
    let d : ℕ = steps_to n (first + k) (i - 1) in
    let short : d < n = mod-lt _ (omega arith) in
    let hit : (first + k + d) % n ≡ i - 1 = steps_to-mod n (first + k) (i - 1) (omega arith) in
    let assoc : first + (k + d) ≡ first + k + d = omega arith in
    (k + d, omega arith, omega arith, rw (add-mod-mod first (k + d) n, assoc, hit) (omega arith))

-- The moment at which a period starts is held by that period.
start-Holds :
    (config : NodeConfig) (idx : ℕ)
    → 0 < config.timeout_initial
    → 2 ≤ config.timeout_backoff
    → (p : Period) × (p.period_idx ≡ idx) × Holds config (start config idx) p
start-Holds config idx pos_initial b =
    let longer = one-le-pow idx config.timeout_backoff (omega arith) in
    let q : Period = record {
      period_idx = idx;
      period_duration = duration config idx;
      time_left = pos (start config (suc idx) - start config idx);
    } in
    (
      q,
      refl,
      record {
        started = omega arith;
        not_over = grind (arith, longer);
        duration_eq = refl;
        left_eq = refl;
      },
    )

duty_at_start :
    (depth : ℕ) (config : NodeConfig) (t : Transfer) (idx : ℕ)
    → IsUsable depth config (start config idx + t.initiation_timestamp) t
    → is_my_duty depth config (start config idx + t.initiation_timestamp) t
      ≡ ok (turn config t idx == config.node_id)
duty_at_start depth config t idx u =
    let age : start config idx + t.initiation_timestamp - t.initiation_timestamp
        ≡ start config idx =
      omega arith in
    let (p, h, duty, _) =
      is_my_duty_exact depth config (start config idx + t.initiation_timestamp) t u in
    let (q, qi, hq) = start-Holds config idx u.positive u.doubles in
    let same = Holds-unique config (start config idx) p q (rw age at h) hq in
    let at_idx : p.period_idx ≡ idx = ap (λ (r : Period). r.period_idx) same ∙ qi in
    duty ∙ rw (at_idx, age) (ground arith)

-- In any `node_count` periods in a row there is one for every node number from 1 to `node_count`
-- in which that node has the duty: it has it when the period starts. The interpreter has to
-- resolve the ages up to the end of these periods.
pub is_my_duty_rotates :
    (depth : ℕ) (config : NodeConfig) (t : Transfer) (i k : ℕ)
    → 0 < config.timeout_initial
    → 2 ≤ config.timeout_backoff
    → 1 ≤ i
    → i ≤ config.node_count
    → start config (k + config.node_count) + 1 < 2 ^ depth
    → (idx : ℕ) × (k ≤ idx)
      × (idx < k + config.node_count)
      × (is_my_duty depth (as_node config i) (start config idx + t.initiation_timestamp) t
          ≡ ok true)
is_my_duty_rotates depth config t i k p b low high deep =
    let (idx, from, to, mine) = next_turn config t i k low high in
    let as_start = start-as_node config i idx in
    let before = start-le-start config idx (k + config.node_count) (omega arith) in
    let usable : IsUsable depth (as_node config i)
        (start (as_node config i) idx + t.initiation_timestamp) t =
      record {
        positive = p;
        doubles = b;
        nodes = omega arith;
        past = omega arith;
        shallow = omega (arith, as_start);
      } in
    (
      idx,
      from,
      to,
      rw as_start at (duty_at_start depth (as_node config i) t idx usable)
          ∙ rw (turn-as_node config i t idx, mine) (ground arith),
    )
