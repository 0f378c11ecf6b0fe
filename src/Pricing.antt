-- ===== src/Pricing.antt =====
-- The reference price of a request by the time of day (internal/bridge/pricing_schedule.go). Times are
-- nanoseconds after Go's zero time, in UTC; the calendar's fields are the time package's. A cost is of
-- any type with a half.
pub mod Hours
pub mod Tests
use cline_pass_bridge.Base.{
  ℕ, zero, suc, ◌+◌, ◌-◌, ◌*◌, ◌%◌, Bool, true, false, ◌&&◌, ◌||◌, not, Option, none, some, ltb,
  leb, ◌==◌, nat_eq, if◌then◌else◌,
}
use cline_pass_bridge.Base.Int.{ℤ, pos, negsuc}
use cline_pass_bridge.RequestLog.{LogEntry}

-- Sunday is 0, January is 1.
pub record Calendar : Type 0 where
  pub weekday : ℕ → ℕ
  pub hour : ℕ → ℕ
  pub year : ℕ → ℕ
  pub month : ℕ → ℕ
  pub day : ℕ → ℕ

abbrev pub one_hour : ℕ
one_hour = 3_600_000_000_000

abbrev pub between : ℕ → ℕ → ℕ → Bool
between low high n = leb low n && leb n high

abbrev pub is_holiday : ℕ → Bool
is_holiday day =
    between 101 103 day
    || between 215 223 day
    || between 404 406 day
    || between 501 505 day
    || between 619 621 day
    || between 925 927 day
    || between 1001 1007 day

-- Peak or not, and whether that is known.
unfoldable pub deepseek_peak_at : Calendar → ℕ → Bool × Bool
deepseek_peak_at cal at =
    let hour = cal.hour at in
    if (cal.weekday at == 6)
      || (cal.weekday at == 0)
      || not ((leb 1 hour && ltb hour 4) || (leb 6 hour && ltb hour 10))
    then (false, true)
    else if not (cal.year at == 2026)
    then (false, false)
    else (not (is_holiday (cal.month at * 100 + cal.day at)), true)

abbrev pub same_flag : Bool → Bool → Bool
same_flag true b = b
same_flag false b = not b

-- Known, and the same rate.
unfoldable pub has_rate : Bool → Bool × Bool → Bool
has_rate peak (next_peak, next_known) = next_known && same_flag next_peak peak

-- The loop over the hours up to the end; `none` is a loop that has not ended.
unfoldable pub check_hours : Calendar → ℕ → ℕ → ℕ → Bool → Option Bool
check_hours cal zero at last peak = none
check_hours cal (suc fuel) at last peak =
    let rest = check_hours cal fuel (at + one_hour) last peak in
    if ltb last at
    then some true
    else if has_rate peak (deepseek_peak_at cal at)
    then rest
    else some false

abbrev pub checked : Bool → Option Bool → Option Bool
checked peak none = none
checked peak (some true) = some peak
checked peak (some false) = none

-- 24 hours have at most 24 further full hours in them.
unfoldable pub rate_from : Calendar → ℕ → ℕ → Bool × Bool → Option Bool
rate_from cal start last (peak, false) = none
rate_from cal start last (peak, true) =
    checked peak (check_hours cal 25 (start - start % one_hour + one_hour) last peak)

-- The one rate from start to end, if there is one.
unfoldable pub rate_over : Calendar → ℕ → ℕ → Option Bool
rate_over cal start last = rate_from cal start last (deepseek_peak_at cal start)

pub record PriceRange (C : Type 0) : Type 0 where
  pub low : C
  pub high : C

module _ {C : Type 0} (half : C → C) where
  unfoldable pub priced : C → Option Bool → PriceRange C
  priced peak_cost none = record { low = half peak_cost; high = peak_cost }
  priced peak_cost (some true) = record { low = peak_cost; high = peak_cost }
  priced peak_cost (some false) = record { low = half peak_cost; high = half peak_cost }

  abbrev pub end_of : Option ℕ → ℕ → ℕ → ℕ
  end_of none start duration = start + duration * 1_000_000
  end_of (some t) start duration = t

  -- From the end of the request on, for a start that is known and a duration within a day.
  unfoldable pub cost_between : Calendar → ℕ → ℕ → C → PriceRange C
  cost_between cal start last peak_cost =
      if ltb last start || ltb (24 * one_hour) (last - start)
      then priced peak_cost none
      else priced peak_cost (rate_over cal start last)

  -- `e.DurationMS < 0 || e.DurationMS > int64((24*time.Hour)/time.Millisecond)`
  unfoldable pub cost_for : Calendar → LogEntry → C → ℤ → PriceRange C
  cost_for cal e peak_cost (negsuc n) = priced peak_cost none
  cost_for cal e peak_cost (pos duration) =
      if (e.time == 0) || ltb 86_400_000 duration
      then priced peak_cost none
      else cost_between cal e.time (end_of e.completed_at e.time duration) peak_cost

  unfoldable pub deepseek_reference_cost : Calendar → LogEntry → C → PriceRange C
  deepseek_reference_cost cal e peak_cost = cost_for cal e peak_cost e.duration_ms
