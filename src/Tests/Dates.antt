-- ===== src/Tests/Dates.antt =====
-- Dates: `add_time` and `verf_time`.
use mashroom.Common.{inl, ℕ, ◌≡◌, refl, arith}
use mashroom.Common.Int.{pos, negsuc, ◌+ℤ◌, ◌-ℤ◌, scale_ℤ, tdiv, tmod}
use mashroom.Grib.TimeFrame
use mashroom.Grib.AddTime.{
  Moment, done, leap, year_back, year_forward, month_scan, month_and_day, add_days, add_hours,
  add_months_from, add_months, add_time,
}
use mashroom.Grib.AddTime.Calendar.{IsDate, day_number, before_year}
use mashroom.Grib.AddTime.Days.{hour_number, LandsAt}
use mashroom.Grib.AddTime.Months.{LandsIn}
use mashroom.Grib.AddTime.Units.{add_time-LandsAt, add_time-LandsIn}
use mashroom.Grib.Product.{
  reference, validity_offset, verf_time, period1, period2, time_range_code, year4,
}
use mashroom.Grib.Product.Validity.{single, verf_time-LandsAt}
use mashroom.Tests.Inputs.{reader, reader-IsBigEndian, section_1}

abbrev moment : ℕ → ℕ → ℕ → ℕ → Moment
moment y m d h = record { year = pos y; month = m; day = d; hour = h }

abbrev eve : Moment
eve = moment 2023 12 31 18

eve-IsDate : IsDate eve
unfolding leap
eve-IsDate = record { year_in = omega arith; month_in = ground arith; day_in = ground arith }

abbrev leap_day : Moment
leap_day = moment 2024 2 29 0

leap_day-IsDate : IsDate leap_day
unfolding leap
leap_day-IsDate = record { year_in = omega arith; month_in = ground arith; day_in = ground arith }

-- 6 hours after the last evening of 2023, and 18 before its first morning.
run_hours :
    (add_time eve (pos 2) TimeFrame.hours_3 ≡ done (moment 2024 1 1 0))
    × (add_time (moment 2023 1 1 6) (negsuc 23) TimeFrame.hour ≡ done (moment 2022 12 31 6))
    × (add_time leap_day (pos 366) TimeFrame.day ≡ done (moment 2025 3 1 0))
unfolding add_time add_hours add_days add_months add_months_from year_back year_forward month_scan
    month_and_day leap ◌+ℤ◌ ◌-ℤ◌ scale_ℤ tdiv tmod
run_hours = (refl, refl, refl)

run_months :
    (add_time (moment 2024 1 31 0) (pos 1) TimeFrame.month ≡ done leap_day)
    × (add_time (moment 2023 3 31 0) (negsuc 12) TimeFrame.month ≡ done (moment 2022 2 28 0))
unfolding add_time add_hours add_days add_months add_months_from year_back year_forward month_scan
    month_and_day leap ◌+ℤ◌ ◌-ℤ◌ scale_ℤ tdiv tmod
run_months = (refl, refl)

add_time-LandsAt_example : LandsAt 17733246 (add_time eve (negsuc 0) TimeFrame.hours_12)
unfolding hour_number day_number before_year leap
add_time-LandsAt_example =
    add_time-LandsAt eve (negsuc 0) TimeFrame.hours_12 17733246 eve-IsDate (omega arith)
      (omega arith) (omega arith) refl

add_time-LandsIn_example : LandsIn eve 24289 (add_time eve (pos 2) TimeFrame.month)
add_time-LandsIn_example = add_time-LandsIn eve (pos 2) 24289 eve-IsDate (omega arith) refl

reference-IsDate : IsDate (reference section_1)
unfolding year4 leap ◌+ℤ◌ scale_ℤ ◌-ℤ◌
reference-IsDate = record { year_in = omega arith; month_in = ground arith; day_in = ground arith }

run_verf_time : verf_time reader section_1 ≡ done (moment 2024 2 29 6)
unfolding add_time add_hours add_days add_months add_months_from year_back year_forward month_scan
    month_and_day leap ◌+ℤ◌ ◌-ℤ◌ scale_ℤ tdiv tmod verf_time validity_offset year4 period1 period2
    time_range_code
run_verf_time = refl

verf_time-LandsAt_example : LandsAt 17734686 (verf_time reader section_1)
unfolding hour_number day_number before_year leap validity_offset year4 period1 period2
    time_range_code ◌+ℤ◌ scale_ℤ ◌-ℤ◌
verf_time-LandsAt_example =
    verf_time-LandsAt reader reader-IsBigEndian section_1 17734686 (pos 12)
      (single (inl (omega arith))) reference-IsDate (omega arith) (omega arith) (omega arith) refl
