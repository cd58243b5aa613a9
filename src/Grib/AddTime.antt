-- ===== src/Grib/AddTime.antt =====
-- `leap` and `add_time` of API/grib1/src/sections/section_1.cpp, which move a date by a number of
-- time units. `int` is an unbounded integer: years and increments of a message are far below 2 ^ 31.
-- The month, day and hour are bytes of the message, so they start as natural numbers, and the
-- function only writes natural numbers to them.
pub mod Calendar
pub mod Loops
pub mod Days
pub mod Months
pub mod Units
use mashroom.Common.{
  ℕ, zero, suc, ◌+◌, ◌-◌, ◌%◌, not, ◌&&◌, Option, none, some, List, [], ◌∷◌, get_elem?, ltb, leb,
  ◌==◌, if◌then◌else◌,
}
use mashroom.Common.Int.{ℤ, pos, pos_part, neg_part, ◌+ℤ◌, ◌-ℤ◌, neg_ℤ, scale_ℤ, tdiv, tmod, ltb_ℤ}
use mashroom.Grib.TimeFrame

-- The four `int`s that are passed by pointer.
pub record Moment : Type 0 where
  pub year : ℤ
  pub month : ℕ
  pub day : ℕ
  pub hour : ℕ

-- What the call does: it returns 0 or 1 with the date that it leaves behind, or it reads
-- `monthjday` out of its bounds (`fault`). `stuck` is a loop of the model out of fuel.
pub data Outcome : Type 0 where
  done : Moment → Outcome
  unsupported : Moment → Outcome
  fault stuck : Outcome

-- `year % 4 != 0` holds of `year` when it holds of its absolute value.
unfoldable pub leap : ℤ → ℕ
leap year =
    let y = pos_part year + neg_part year in
    if not (y % 4 == 0) then 0 else if not (y % 100 == 0) then 1 else if y % 400 == 0 then 1 else 0

-- Days before each month of a common year, and the end of the year.
abbrev pub monthjday : List ℕ
monthjday = 0 ∷ 31 ∷ 59 ∷ 90 ∷ 120 ∷ 151 ∷ 181 ∷ 212 ∷ 243 ∷ 273 ∷ 304 ∷ 334 ∷ 365 ∷ []

abbrev pub feb29 : ℕ
feb29 = 31 + 29

-- The index `m - 1` of a read `monthjday[m-1]`; for month 0 it is -1.
abbrev pub monthjday_before : ℕ → Option ℕ
monthjday_before zero = none
monthjday_before (suc m) = get_elem? monthjday m

-- `while (dtime < 1) { y--; dtime += 365 + leap(y); }`. What follows runs with `dtime` positive.
unfoldable pub year_back : ℕ → ℤ → ℤ → Option (ℤ × ℕ)
year_back zero y dtime = none
year_back (suc fuel) y dtime =
    let y' = y -ℤ pos 1 in
    let rest = year_back fuel y' (dtime +ℤ pos (365 + leap y')) in
    if ltb_ℤ dtime (pos 1) then rest else some (y, pos_part dtime)

-- `while (dtime > 365 + leap(y)) { dtime -= (365 + leap(y)); y++; }`
unfoldable pub year_forward : ℕ → ℤ → ℕ → Option (ℤ × ℕ)
year_forward zero y dtime = none
year_forward (suc fuel) y dtime =
    let rest = year_forward fuel (y +ℤ pos 1) (dtime - (365 + leap y)) in
    if ltb (365 + leap y) dtime then rest else some (y, dtime)

-- `for (i = 11; monthjday[i] >= dtime; --i);`, at index `i`: the index at which it stops.
unfoldable pub month_scan : ℕ → ℕ → Option ℕ
month_scan zero dtime = if leb dtime 0 then none else some 0
month_scan (suc i) dtime =
    let lower = month_scan i dtime in
    elim (get_elem? monthjday (suc i)) [
      | none ↦ none
      | some start ↦ if leb dtime start then lower else some (suc i)
    ]

-- The end of the `DAY` branch: month and day of the `dtime`-th day of year `y`.
unfoldable pub month_and_day : ℤ → ℕ → Option (ℕ × ℕ)
month_and_day y dtime =
    if (leap y == 1) && (dtime == feb29)
    then some (2, 29)
    else let d = if (leap y == 1) && ltb feb29 dtime then dtime - 1 else dtime in
      elim (month_scan 11 d) [
        | none ↦ none
        | some i ↦ elim (get_elem? monthjday i) [
          | none ↦ none
          | some start ↦ some (i + 1, d - start)
        ]
      ]

abbrev pub finish_day : Moment → ℤ → Option (ℕ × ℕ) → Outcome
finish_day t y none = fault
finish_day t y (some (m, d)) = done (record t { year = y; month = m; day = d })

abbrev pub forward_then : Moment → Option (ℤ × ℕ) → Outcome
forward_then t none = stuck
forward_then t (some (y, dtime)) = finish_day t y (month_and_day y dtime)

abbrev pub back_then : Moment → Option (ℤ × ℕ) → Outcome
back_then t none = stuck
back_then t (some (y, dtime)) = forward_then t (year_forward (dtime + 1) y dtime)

-- The `DAY` branch. `jday` is the day of the year, and the first loop counts from January 0th.
abbrev pub jday_then : Moment → ℤ → Option ℕ → Outcome
jday_then t dtime none = fault
jday_then t dtime (some start) =
    let jday = t.day + start + (if (leap t.year == 1) && ltb 2 t.month then 1 else 0) in
    let first = dtime +ℤ pos jday in back_then t (year_back (neg_part first + 2) t.year first)

unfoldable pub add_days : Moment → ℤ → Outcome
unfolding year_back year_forward month_scan month_and_day
add_days t dtime = jday_then t dtime (monthjday_before t.month)

-- The `HOUR` branch, which goes on to the `DAY` branch.
unfoldable pub add_hours : Moment → ℤ → Outcome
add_hours t dtime =
    let total = dtime +ℤ pos t.hour in
    let h = tmod total 24 in
    let days = tdiv total 24 in
    if ltb_ℤ h (pos 0)
    then add_days (record t { hour = pos_part (h +ℤ pos 24) }) (days -ℤ pos 1)
    else add_days (record t { hour = pos_part h }) days

-- The end of the `MONTH` branch: the day is cut to the length of the month, which is the
-- difference of two entries of `monthjday`.
abbrev pub month_then : Moment → ℤ → ℕ → Option ℕ → Option ℕ → Outcome
month_then t y m none _ = fault
month_then t y m (some start) none = fault
month_then t y m (some start) (some end) =
    let length = end - start + (if (m == 2) && (leap y == 1) then 1 else 0) in
    done (record t { year = y; month = m; day = if ltb length t.day then length else t.day })

-- The `MONTH` branch, past the year borrow: `dtime` counts months from January of year `y`.
unfoldable pub add_months_from : Moment → ℤ → ℤ → Outcome
add_months_from t y dtime =
    let month = pos 1 +ℤ tmod dtime 12 in
    let m = pos_part month in
    if ltb_ℤ month (pos 1)
    then fault
    else month_then t (y +ℤ tdiv dtime 12) m (monthjday_before m) (get_elem? monthjday m)

unfoldable pub add_months : Moment → ℤ → Outcome
add_months t dtime =
    let i = tdiv (neg_ℤ dtime) 12 +ℤ pos 1 in
    let base = pos t.month -ℤ pos 1 in
    if ltb_ℤ dtime (pos 0)
    then add_months_from t (t.year -ℤ i) (dtime +ℤ scale_ℤ 12 i +ℤ base)
    else add_months_from t t.year (dtime +ℤ base)

-- The chain of tests on `unit`. A unit that it does not know leaves the date alone and returns 1.
unfoldable pub add_time : Moment → ℤ → ℕ → Outcome
add_time t dtime unit =
    if unit == TimeFrame.year
    then done (record t { year = t.year +ℤ dtime })
    else if unit == TimeFrame.decade
    then done (record t { year = t.year +ℤ scale_ℤ 10 dtime })
    else if unit == TimeFrame.century
    then done (record t { year = t.year +ℤ scale_ℤ 100 dtime })
    else if unit == TimeFrame.normal
    then done (record t { year = t.year +ℤ scale_ℤ 30 dtime })
    else if unit == TimeFrame.month
    then add_months t dtime
    else if unit == TimeFrame.second
    then add_hours t (tdiv (tdiv dtime 60) 60)
    else if unit == TimeFrame.minute
    then add_hours t (tdiv dtime 60)
    else if unit == TimeFrame.hours_3
    then add_hours t (scale_ℤ 3 dtime)
    else if unit == TimeFrame.hours_6
    then add_hours t (scale_ℤ 6 dtime)
    else if unit == TimeFrame.hours_12
    then add_hours t (scale_ℤ 12 dtime)
    else if unit == TimeFrame.hour
    then add_hours t dtime
    else if unit == TimeFrame.day
    then add_days t dtime
    else unsupported t
