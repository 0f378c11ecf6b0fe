-- ===== src/Pricing/Tests.antt =====
-- Prices of requests, by a calendar whose days are counted from a Sunday in March.
use cline_pass_bridge.Base.{ℕ, ◌+◌, ◌*◌, ◌/◌, ◌%◌, ◌≤◌, ◌<◌, ◌≡◌, refl, ap, true, none, some, arith}
use cline_pass_bridge.Pricing.{
  Calendar, one_hour, deepseek_peak_at, has_rate, check_hours, rate_from, rate_over,
}
use cline_pass_bridge.Pricing.Hours.{IsHourly, IsAnswer, rate_over-IsAnswer}

abbrev march : Calendar
march = record {
  weekday = λ t. (t / one_hour) / 24 % 7;
  hour = λ t. t / one_hour % 24;
  year = λ t. 2026;
  month = λ t. 3;
  day = λ t. (t / one_hour) / 24 + 1;
}

same_count :
    (q t : ℕ)
    → q * one_hour ≤ t
    → t < q * one_hour + one_hour
    → t / one_hour ≡ (q * one_hour) / one_hour
same_count q t low high = omega (arith, low, high)

march-IsHourly : IsHourly march
march-IsHourly = record {
  weekday = λ q t low high. ap (λ n. n / 24 % 7) (same_count q t low high);
  hour = λ q t low high. ap (λ n. n % 24) (same_count q t low high);
  year = λ q t low high. refl;
  month = λ q t low high. refl;
  day = λ q t low high. ap (λ n. n / 24 + 1) (same_count q t low high);
}

-- Monday from 02:30 to 03:30 is peak; from 03:30 to 04:30 the rate changes.
at_peak :
    rate_over march (26 * one_hour + 1_800_000_000_000) (27 * one_hour + 1_800_000_000_000)
    ≡ some true
unfolding rate_over rate_from check_hours deepseek_peak_at has_rate
at_peak = refl

over_the_end :
    rate_over march (27 * one_hour + 1_800_000_000_000) (28 * one_hour + 1_800_000_000_000) ≡ none
unfolding rate_over rate_from check_hours deepseek_peak_at has_rate
over_the_end = refl

rate_over-IsAnswer_example :
    IsAnswer march
      (26 * one_hour + 1_800_000_000_000)
      (27 * one_hour + 1_800_000_000_000)
      (rate_over march (26 * one_hour + 1_800_000_000_000) (27 * one_hour + 1_800_000_000_000))
rate_over-IsAnswer_example =
    rate_over-IsAnswer march march-IsHourly (26 * one_hour + 1_800_000_000_000)
      (27 * one_hour + 1_800_000_000_000) (omega arith) (omega arith)
