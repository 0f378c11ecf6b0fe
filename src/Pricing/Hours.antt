-- ===== src/Pricing/Hours.antt =====
-- A rate that is looked at once an hour.
use mathlib.Core.Path.{subst}
use cline_pass_bridge.Base.{
  ℕ, zero, suc, ◌+◌, ◌-◌, ◌*◌, ◌/◌, ◌%◌, ◌≤◌, ◌<◌, ◌≡◌, refl, ap, ◌∙◌, sym, inl, inr, Bool, true,
  false, Option, none, some, arith, ltb, leb, Bool-cases,
}
use cline_pass_bridge.Pricing.{
  Calendar, one_hour, deepseek_peak_at, has_rate, check_hours, checked, rate_from, rate_over,
}

-- The fields of a date do not change within an hour of the clock.
pub record IsHourly (cal : Calendar) : Type 0 where
  pub weekday :
      (q t : ℕ)
      → q * one_hour ≤ t
      → t < q * one_hour + one_hour
      → cal.weekday t ≡ cal.weekday (q * one_hour)
  pub hour :
      (q t : ℕ)
      → q * one_hour ≤ t
      → t < q * one_hour + one_hour
      → cal.hour t ≡ cal.hour (q * one_hour)
  pub year :
      (q t : ℕ)
      → q * one_hour ≤ t
      → t < q * one_hour + one_hour
      → cal.year t ≡ cal.year (q * one_hour)
  pub month :
      (q t : ℕ)
      → q * one_hour ≤ t
      → t < q * one_hour + one_hour
      → cal.month t ≡ cal.month (q * one_hour)
  pub day :
      (q t : ℕ)
      → q * one_hour ≤ t
      → t < q * one_hour + one_hour
      → cal.day t ≡ cal.day (q * one_hour)

-- The rate from a time to another, both included.
abbrev pub IsRate : Calendar → ℕ → ℕ → Bool → Type 0
IsRate cal start last peak = (t : ℕ) → start ≤ t → t ≤ last → deepseek_peak_at cal t ≡ (peak, true)

-- What an answer says: this is the rate, or no rate holds throughout.
abbrev pub IsAnswer : Calendar → ℕ → ℕ → Option Bool → Type 0
IsAnswer cal start last (some peak) = IsRate cal start last peak
IsAnswer cal start last none = (peak : Bool) → IsRate cal start last peak → ⊥

abbrev Checks : Calendar → ℕ → ℕ → Bool → Option Bool → Type 0
Checks cal at last peak none = ⊥
Checks cal at last peak (some true) = IsRate cal at last peak
Checks cal at last peak (some false) = IsRate cal at last peak → ⊥

module _ (cal : Calendar) (hourly : IsHourly cal) where
  same_hour :
      (q t : ℕ)
      → q * one_hour ≤ t
      → t < q * one_hour + one_hour
      → deepseek_peak_at cal t ≡ deepseek_peak_at cal (q * one_hour)
  unfolding deepseek_peak_at
  same_hour q t low high =
      rw
        (
          hourly.weekday q t low high,
          hourly.hour q t low high,
          hourly.year q t low high,
          hourly.month q t low high,
          hourly.day q t low high,
        )
        refl

  has_rate-true : (peak : Bool) (p : Bool × Bool) → has_rate peak p ≡ true → p ≡ (peak, true)
  unfolding has_rate
  has_rate-true true (true, true) h = refl
  has_rate-true false (false, true) h = refl
  has_rate-true true (false, true) h = absurd (ground (arith, h))
  has_rate-true false (true, true) h = absurd (ground (arith, h))
  has_rate-true peak (next, false) h = absurd (ground (arith, h))

  has_rate-false : (peak : Bool) (p : Bool × Bool) → has_rate peak p ≡ false → p ≡ (peak, true) → ⊥
  unfolding has_rate
  has_rate-false true p h same = ground (arith, ap (has_rate true) (sym same) ∙ h)
  has_rate-false false p h same = ground (arith, ap (has_rate false) (sym same) ∙ h)

  -- The hour before the rest of the hours.
  Checks-hour :
      (q last : ℕ) (peak : Bool) (o : Option Bool)
      → deepseek_peak_at cal (q * one_hour) ≡ (peak, true)
      → Checks cal (q * one_hour + one_hour) last peak o
      → Checks cal (q * one_hour) last peak o
  Checks-hour q last peak none here h = h
  Checks-hour q last peak (some false) here h = λ r. h (λ t low high. r t (omega (arith, low)) high)
  Checks-hour q last peak (some true) here h = λ t low high.
      elim (Bool-cases (leb (q * one_hour + one_hour) t)) [
        | inl later ↦ h t (ground (arith, later)) high
        | inr within ↦ same_hour q t low (ground (arith, within)) ∙ here
      ]

  check_hours-Checks :
      (fuel q last : ℕ) (peak : Bool)
      → q * one_hour ≤ last + one_hour
      → last + one_hour < q * one_hour + fuel * one_hour
      → Checks cal (q * one_hour) last peak (check_hours cal fuel (q * one_hour) last peak)
  unfolding check_hours
  check_hours-Checks zero q last peak low high = absurd (omega (arith, low, high))
  check_hours-Checks (suc fuel) q last peak low high = elim (Bool-cases (ltb last (q * one_hour))) [
    | inl over ↦ rw over (λ t from to. absurd (ground (arith, over, from, to)))
    | inr inside ↦ elim (Bool-cases (has_rate peak (deepseek_peak_at cal (q * one_hour)))) [
      | inr differs ↦
          rw (inside, differs)
            (λ r.
              has_rate-false peak (deepseek_peak_at cal (q * one_hour)) differs
                (r (q * one_hour) (omega arith) (ground (arith, inside))))
      | inl same ↦
          let shift : suc q * one_hour ≡ q * one_hour + one_hour = omega arith in
          let rest =
            check_hours-Checks fuel (suc q) last peak (ground (arith, inside))
              (omega (arith, high)) in
          rw (inside, same)
            (Checks-hour q last peak (check_hours cal fuel (q * one_hour + one_hour) last peak)
              (has_rate-true peak (deepseek_peak_at cal (q * one_hour)) same)
              (subst (λ x. Checks cal x last peak (check_hours cal fuel x last peak)) shift rest))
    ]
  ]

  -- From the loop's answer to the rate's.
  checked-IsAnswer :
      (q start last : ℕ) (peak : Bool) (o : Option Bool)
      → deepseek_peak_at cal start ≡ (peak, true)
      → q * one_hour ≤ start
      → start < q * one_hour + one_hour
      → start ≤ last
      → Checks cal (q * one_hour + one_hour) last peak o
      → IsAnswer cal start last (checked peak o)
  checked-IsAnswer q start last peak none first low high ordered h = absurd h
  checked-IsAnswer q start last peak (some true) first low high ordered h = λ t from to.
      elim (Bool-cases (leb (q * one_hour + one_hour) t)) [
        | inl later ↦ h t (ground (arith, later)) to
        | inr within ↦
            same_hour q t (omega (arith, low, from)) (ground (arith, within))
            ∙ sym (same_hour q start low high)
            ∙ first
      ]
  checked-IsAnswer q start last peak (some false) first low high ordered h = λ rate r.
      let same : rate ≡ peak = ap (λ p. p.0) (sym (r start (omega arith) ordered) ∙ first) in
      h (λ t from to. r t (omega (arith, high, from)) to ∙ ap (λ b. (b, true)) same)

  rate_from-IsAnswer :
      (start last : ℕ) (p : Bool × Bool)
      → deepseek_peak_at cal start ≡ p
      → start ≤ last
      → last ≤ start + 24 * one_hour
      → IsAnswer cal start last (rate_from cal start last p)
  unfolding rate_from
  rate_from-IsAnswer start last (peak, false) first ordered short = λ rate r.
      let known : true ≡ false = ap (λ p. p.1) (sym (r start (omega arith) ordered) ∙ first) in
      ground (arith, known)
  rate_from-IsAnswer start last (peak, true) first ordered short =
      let q = start / one_hour in
      let next : start - start % one_hour + one_hour ≡ suc q * one_hour = omega arith in
      let shift : suc q * one_hour ≡ q * one_hour + one_hour = omega arith in
      let hours =
        check_hours-Checks 25 (suc q) last peak (omega (arith, ordered)) (omega (arith, short)) in
      rw next (
        checked-IsAnswer q start last peak (check_hours cal 25 (suc q * one_hour) last peak) first
          (omega arith) (omega arith) ordered
          (subst (λ x. Checks cal x last peak (check_hours cal 25 (suc q * one_hour) last peak))
            shift hours))

  -- For a request of at most a day, by a calendar whose fields do not change within an hour of
  -- the clock, the loop ends, and it finds the one rate from the start to the end, both included,
  -- if there is one, although it looks only at the start and at each full hour.
  pub rate_over-IsAnswer :
      (start last : ℕ)
      → start ≤ last
      → last ≤ start + 24 * one_hour
      → IsAnswer cal start last (rate_over cal start last)
  unfolding rate_over
  rate_over-IsAnswer start last ordered short =
      rate_from-IsAnswer start last (deepseek_peak_at cal start) refl ordered short
