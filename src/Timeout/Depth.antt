-- ===== src/Timeout/Depth.antt =====
-- How deep the recursion of `resolve_timeout_period` goes, and that its answer is the only one.
use decentralised_interledge.Prelude.{
  ℕ, ◌∙◌, zero, suc, ◌+◌, ◌-◌, ◌^◌, ◌≤◌, ◌<◌, ◌≡◌, ◌↔◌, refl, ap, ok, err, arith, recursion_error,
}
use decentralised_interledge.Prelude.Int.{pos}
use native.Mathlib.Decide.{dec_lt, dec_le}
use native.Mathlib.Nat.{pow-suc, pow-le-pow_left}
use decentralised_interledge.Interfaces.{NodeConfig}
use decentralised_interledge.Timeout.{Period, resolve_timeout_period}
use decentralised_interledge.Timeout.Periods.{
  duration, start, Holds, period_at, resolve_within, resolve_beyond, resolve-Holds,
}

module _ (config : NodeConfig) where
  -- The start of the period that lies n periods behind the idx-th.
  abbrev later : ℕ → ℕ → ℕ
  later idx zero = start config idx
  later idx (suc n) = later (suc idx) n

  start-le-later : (n idx : ℕ) → start config idx ≤ later idx n
  start-le-later zero idx = omega arith
  start-le-later (suc n) idx = omega (arith, start-le-later n (suc idx))

  resolve_deep :
      (depth idx a : ℕ)
      → later idx depth ≤ start config idx + a
      → resolve_timeout_period depth config (pos a) idx ≡ err recursion_error
  resolve_deep zero idx a h = unfold resolve_timeout_period in refl
  resolve_deep (suc depth) idx a h =
      let over : duration config idx ≤ a = omega (arith, start-le-later depth (suc idx)) in
      rw (resolve_beyond config depth idx a over)
        (resolve_deep depth (suc idx) (a - duration config idx) (omega arith))

  resolve_shallow :
      (depth idx a : ℕ)
      → start config idx + a < later idx depth
      → (p : Period) × (resolve_timeout_period depth config (pos a) idx ≡ ok p)
  resolve_shallow zero idx a h = absurd (omega arith)
  resolve_shallow (suc depth) idx a h = elim (dec_lt a (duration config idx)) [
    | yes now ↦ (period_at config idx a, resolve_within config depth idx a now)
    | no over ↦
        rw (resolve_beyond config depth idx a (omega arith))
          (resolve_shallow depth (suc idx) (a - duration config idx) (omega arith))
  ]

  later-eq : (n idx : ℕ) → later idx n ≡ start config (n + idx)
  later-eq zero idx = ap (start config) (omega arith)
  later-eq (suc n) idx = later-eq n (suc idx) ∙ ap (start config) (omega arith)

  later-zero : (n : ℕ) → later zero n ≡ start config n
  later-zero n = later-eq n zero ∙ ap (start config) (omega arith)

  -- For an age of a ticks the recursion runs out of `depth` nested calls exactly when the age
  -- lies at or behind the start of period number `depth`.
  pub resolve_depth_exact :
      (depth a : ℕ)
      → (resolve_timeout_period depth config (pos a) 0 ≡ err recursion_error)
        ↔ (start config depth ≤ a)
  resolve_depth_exact depth a = elim (dec_le (start config depth) a) [
    | yes deep ↦ (λ _. deep, λ _. resolve_deep depth 0 a (omega (arith, later-zero depth)))
    | no short ↦
        let (p, e) = resolve_shallow depth 0 a (omega (arith, later-zero depth)) in
        (λ h. cc, λ h. absurd (short h))
  ]

  pub pow-le-start :
      (n : ℕ) → 0 < config.timeout_initial → 2 ≤ config.timeout_backoff → 2 ^ n ≤ start config n + 1
  pow-le-start zero i h = omega arith
  pow-le-start (suc n) i h = grind (arith, pow-le-start n i h, pow-le-pow_left h n, pow-suc 2 n)

  -- With a positive first timeout and a backoff of 2 or more, an age of a ticks with
  -- a + 1 < 2 ^ depth is resolved within `depth` nested calls: the period that is returned starts
  -- at or before the age, ends after it, has its own length, and its time left is exact.
  pub resolve_total :
      (depth a : ℕ)
      → 0 < config.timeout_initial
      → 2 ≤ config.timeout_backoff
      → a + 1 < 2 ^ depth
      → (p : Period) × (resolve_timeout_period depth config (pos a) 0 ≡ ok p) × Holds config a p
  resolve_total depth a i h small =
      let shallow : start config 0 + a < later 0 depth =
        omega (arith, pow-le-start depth i h, later-zero depth) in
      let (p, e) = resolve_shallow depth 0 a shallow in (p, e, resolve-Holds config depth a p e)

  start_mono : (i n : ℕ) → start config i ≤ start config (n + i)
  start_mono i n = omega (arith, start-le-later n i, later-eq n i)

  pub start-le-start : (i j : ℕ) → i ≤ j → start config i ≤ start config j
  start-le-start i j h =
      let behind : j - i + i ≡ j = omega arith in
      omega (arith, start_mono i (j - i), ap (start config) behind)

  pub start_lt : (i j : ℕ) → i < j → start config (suc i) ≤ start config j
  start_lt i j h = start-le-start (suc i) j h

  Holds-idx :
      {a : ℕ} {p q : Period} → Holds config a p → Holds config a q → ¬ (p.period_idx < q.period_idx)
  Holds-idx {p} {q} hp hq lt =
      omega (arith, start_lt p.period_idx q.period_idx lt, hp.not_over, hq.started)

  -- Two periods that hold the same age are the same period.
  pub Holds-unique : (a : ℕ) (p q : Period) → Holds config a p → Holds config a q → p ≡ q
  Holds-unique a p q hp hq =
      let same : p.period_idx ≡ q.period_idx = omega (arith, Holds-idx hp hq, Holds-idx hq hp) in
      ground arith
