-- ===== src/Timeout/Periods.antt =====
-- What `resolve_timeout_period` computes: the period of the backoff schedule that an age lies in.
use decentralised_interledge.Prelude.{
  ℕ, zero, suc, ◌+◌, ◌-◌, ◌*◌, ◌^◌, ◌≤◌, ◌<◌, ◌≡◌, ap, ok, arith,
}
use decentralised_interledge.Prelude.Int.{pos, negsuc, pos-sub}
use native.Mathlib.Decide.{dec_lt}
use native.Mathlib.Numerals.{add-one}
use decentralised_interledge.Interfaces.{NodeConfig}
use decentralised_interledge.Timeout.{Period, resolve_timeout_period}

-- The length of the i-th period, and the age at which it starts.
abbrev pub duration : NodeConfig → ℕ → ℕ
duration config i = config.timeout_initial * config.timeout_backoff ^ i

abbrev pub start : NodeConfig → ℕ → ℕ
start config zero = 0
start config (suc i) = start config i + duration config i

module _ (config : NodeConfig) where
  -- The period p is the i-th, it holds the age a, and what is left of it is exact.
  pub record Holds (a : ℕ) (p : Period) : Type 0 where
    pub started : start config p.period_idx ≤ a
    pub not_over : a < start config (suc p.period_idx)
    pub duration_eq : p.period_duration ≡ duration config p.period_idx
    pub left_eq : p.time_left ≡ pos (start config (suc p.period_idx) - a)

  -- The period in which the age falls `a` ticks after the start of the idx-th.
  abbrev pub period_at : ℕ → ℕ → Period
  period_at idx a = record {
    period_idx = idx;
    period_duration = duration config idx;
    time_left = pos (duration config idx - a);
  }

  pub resolve_within :
      (depth idx a : ℕ)
      → a < duration config idx
      → resolve_timeout_period (suc depth) config (pos a) idx ≡ ok (period_at idx a)
  unfolding resolve_timeout_period
  resolve_within depth idx a h = ground arith

  pub resolve_beyond :
      (depth idx a : ℕ)
      → duration config idx ≤ a
      → resolve_timeout_period (suc depth) config (pos a) idx
        ≡ resolve_timeout_period depth config (pos (a - duration config idx)) (suc idx)
  unfolding resolve_timeout_period
  resolve_beyond depth idx a h = ground (
    arith,
    ap (λ t. resolve_timeout_period depth config t (idx + 1)) (pos-sub a (duration config idx) h),
    ap (resolve_timeout_period depth config (pos (a - duration config idx))) (add-one idx),
  )

  -- A negative age, of a block whose clock runs ahead, lies in the first period.
  resolve_negative :
      (depth n : ℕ)
      → resolve_timeout_period (suc depth) config (negsuc n) 0
        ≡ ok (record {
          period_idx = 0;
          period_duration = duration config 0;
          time_left = pos (duration config 0 + suc n);
        })
  unfolding resolve_timeout_period
  resolve_negative depth n = ground arith

  resolve-Holds_from :
      (depth idx a : ℕ) (p : Period)
      → resolve_timeout_period depth config (pos a) idx ≡ ok p
      → Holds (start config idx + a) p
  resolve-Holds_from zero idx a p h = unfold resolve_timeout_period in cc
  resolve-Holds_from (suc depth) idx a p h = elim (dec_lt a (duration config idx)) [
    | yes now ↦ ground (arith, resolve_within depth idx a now)
    | no later ↦
        let shorter = resolve_beyond depth idx a (omega arith) in
        let same : start config idx + a ≡ start config (suc idx) + (a - duration config idx) =
          omega arith in
        rw same (resolve-Holds_from depth (suc idx) (a - duration config idx) p (rw shorter at h))
  ]

  pub resolve-Holds :
      (depth a : ℕ) (p : Period) → resolve_timeout_period depth config (pos a) 0 ≡ ok p → Holds a p
  resolve-Holds depth a p h =
      let same : 0 + a ≡ a = omega arith in rw same at (resolve-Holds_from depth 0 a p h)

  pub period_idx_negative :
      (depth n : ℕ) (p : Period)
      → resolve_timeout_period depth config (negsuc n) 0 ≡ ok p
      → p.period_idx ≡ 0
  period_idx_negative zero n p h = unfold resolve_timeout_period in cc
  period_idx_negative (suc depth) n p h = ground (arith, resolve_negative depth n)
