-- ===== src/Jalali/Tests.antt =====
-- Dates that can be looked up.
use garnet_trader.Prelude.{ℕ, ◌≡◌, refl, Bool, arith}
use garnet_trader.Prelude.Int.{pos, ◌+ℤ◌, ◌-ℤ◌, ◌*ℤ◌}
use garnet_trader.Prelude.Result.{ok}
use garnet_trader.Jalali.{
  jalali_to_gregorian, gregorian_to_jalali, is_jalali_leap, jalali_leap_and_offset, year_start,
  march_date, days_before_year, is_leap, days_before_month, add_days, year_of, climb, of_day,
}
use garnet_trader.Jalali.RoundTrip.{IsDay, jalali_to_gregorian-gregorian_to_jalali}

-- 1404/01/01 is 2025-03-21, whose ordinal is 739331.
nowruz : jalali_to_gregorian (pos 1404) (pos 1) (pos 1) ≡ ok 739331
unfolding jalali_to_gregorian jalali_leap_and_offset year_start march_date days_before_year is_leap
    days_before_month add_days ◌+ℤ◌ ◌-ℤ◌ ◌*ℤ◌
nowruz = refl

back : gregorian_to_jalali 739331 ≡ ok (record { year = pos 1404; month = 1; day = 1 })
unfolding gregorian_to_jalali jalali_leap_and_offset year_start march_date days_before_year is_leap
    year_of climb of_day ◌-ℤ◌
back = refl

jalali_to_gregorian-gregorian_to_jalali_example :
    (y m d : ℕ) × (leap : Bool) × (gregorian_to_jalali 739331
      ≡ ok (record { year = pos y; month = m; day = d }))
    × (is_jalali_leap (pos y) ≡ ok leap)
    × IsDay leap m d
    × (jalali_to_gregorian (pos y) (pos m) (pos d) ≡ ok 739331)
jalali_to_gregorian-gregorian_to_jalali_example =
    jalali_to_gregorian-gregorian_to_jalali 739331 (omega arith) (omega arith)
