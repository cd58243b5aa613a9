-- ===== src/Grib/AddTime/Units.antt =====
-- `add_time` as a whole: which unit does what.
use mashroom.Common.{
  ◌⊎◌, ◌/◌, ℕ, ◌+◌, ◌*◌, ◌/◌, ◌≤◌, ◌<◌, ◌≡◌, ◌↔◌, refl, arith, ◌==◌, if◌then◌else◌,
}
use mashroom.Common.Int.{tdiv, ℤ, pos, pos_part, neg_part, ◌≤ℤ◌, ◌+ℤ◌, scale_ℤ, scale_ℤ_parts}
use mashroom.Grib.TimeFrame
use mashroom.Grib.AddTime.{Moment, done, leap, add_hours, add_days, add_time}
use mashroom.Grib.AddTime.Calendar.{IsDate, leap-le-one}
use mashroom.Grib.AddTime.Days.{
  hour_number, LandsAt, LandsOn-LandsAt, add_days-LandsOn, add_hours-LandsAt,
}
use mashroom.Grib.AddTime.Months.{month_index, LandsIn, add_months-LandsIn}

-- Hours in a unit that is a whole number of hours, and 0 for the others.
abbrev pub hours_in : ℕ → ℕ
hours_in unit =
    if unit == TimeFrame.hour
    then 1
    else if unit == TimeFrame.hours_3
    then 3
    else if unit == TimeFrame.hours_6
    then 6
    else if unit == TimeFrame.hours_12
    then 12
    else if unit == TimeFrame.day
    then 24
    else 0

add_scaled-LandsAt :
    (t : Moment) (dtime : ℤ) (k total : ℕ)
    → IsDate t
    → 24 ≤ total
    → hour_number t + k * pos_part dtime ≡ total + k * neg_part dtime
    → LandsAt total (add_hours t (scale_ℤ k dtime))
add_scaled-LandsAt t dtime k total v ht e =
    add_hours-LandsAt t (scale_ℤ k dtime) total v ht (omega (arith, scale_ℤ_parts k dtime))

add_whole_days-LandsAt :
    (t : Moment) (dtime : ℤ) (total : ℕ)
    → IsDate t
    → t.hour < 24
    → 24 ≤ total
    → hour_number t + 24 * pos_part dtime ≡ total + 24 * neg_part dtime
    → LandsAt total (add_days t dtime)
unfolding hour_number
add_whole_days-LandsAt t dtime total v hh ht e =
    let split : total ≡ 24 * (total / 24) + t.hour = omega arith in
    rw split (
      LandsOn-LandsAt (total / 24) t.hour _ hh
        (add_days-LandsOn t dtime (total / 24) v (omega arith) (omega arith)))

-- For a unit of whole hours, `add_time` moves a valid date and hour by that many times `dtime`
-- hours, forward or back, and returns 0, provided that the result is not before year 1.
pub add_time-LandsAt :
    (t : Moment) (dtime : ℤ) (unit total : ℕ)
    → IsDate t
    → t.hour < 24
    → 1 ≤ hours_in unit
    → 24 ≤ total
    → hour_number t + hours_in unit * pos_part dtime ≡ total + hours_in unit * neg_part dtime
    → LandsAt total (add_time t dtime unit)
unfolding add_time
add_time-LandsAt t dtime unit total v hh hu ht e = ground (
  arith,
  add_hours-LandsAt t dtime total v ht,
  add_scaled-LandsAt t dtime 3 total v ht,
  add_scaled-LandsAt t dtime 6 total v ht,
  add_scaled-LandsAt t dtime 12 total v ht,
  add_whole_days-LandsAt t dtime total v hh ht,
)

-- Units in an hour, for the units below the hour.
abbrev pub per_hour : ℕ → ℕ
per_hour unit = if unit == TimeFrame.minute then 60 else 3600

tdiv_parts_60 :
    (a : ℤ) → (pos_part (tdiv a 60) ≡ pos_part a / 60) × (neg_part (tdiv a 60) ≡ neg_part a / 60)
unfolding tdiv
tdiv_parts_60 a = ground arith

-- For minutes and seconds, `add_time` moves a valid date by the whole hours that `dtime` holds,
-- forward or back, and returns 0, provided that the result is not before year 1: a rest of less
-- than an hour is dropped on either side.
pub add_time-whole_hours :
    (t : Moment) (dtime : ℤ) (unit total : ℕ)
    → IsDate t
    → (unit ≡ TimeFrame.minute) ⊎ (unit ≡ TimeFrame.second)
    → 24 ≤ total
    → hour_number t + pos_part dtime / per_hour unit ≡ total + neg_part dtime / per_hour unit
    → LandsAt total (add_time t dtime unit)
unfolding add_time
add_time-whole_hours t dtime unit total v hu ht e =
    let minutes = tdiv_parts_60 dtime in
    let seconds = tdiv_parts_60 (tdiv dtime 60) in
    let by_minutes = add_hours-LandsAt t (tdiv dtime 60) total v ht in
    let by_seconds = add_hours-LandsAt t (tdiv (tdiv dtime 60) 60) total v ht in
    ground (arith, minutes, seconds, by_minutes, by_seconds)

-- `add_time` by months moves a valid date by `dtime` months and cuts the day to the length of the
-- month that it reaches, provided that this month is not before year 1.
pub add_time-LandsIn :
    (t : Moment) (dtime : ℤ) (total : ℕ)
    → IsDate t
    → 12 ≤ total
    → month_index t + pos_part dtime ≡ total + neg_part dtime
    → LandsIn t total (add_time t dtime TimeFrame.month)
unfolding add_time
add_time-LandsIn t dtime total v ht e = add_months-LandsIn t dtime total v ht e

-- Years in a unit of whole years, and 0 for the others.
abbrev pub years_in : ℕ → ℕ
years_in unit =
    if unit == TimeFrame.year
    then 1
    else if unit == TimeFrame.decade
    then 10
    else if unit == TimeFrame.normal
    then 30
    else if unit == TimeFrame.century
    then 100
    else 0

scale_ℤ-one : (a : ℤ) → scale_ℤ 1 a ≡ a
unfolding scale_ℤ
scale_ℤ-one a = ground arith

-- February 29th moved into a common year.
abbrev pub IsLost : Moment → Type 0
IsLost u = (u.month ≡ 2) × (u.day ≡ 29) × (leap u.year ≡ 0)

IsLost-iff :
    (t : Moment) (y : ℤ)
    → IsDate t
    → pos 1 ≤ℤ y
    → let u : Moment = record t { year = y } in (¬ IsLost u) ↔ IsDate u
IsLost-iff t y v hy = (
  λ ok. record {
    year_in = hy;
    month_in = v.month_in;
    day_in = ground (arith, leap-le-one y, leap-le-one t.year);
  },
  λ w lost. ground (arith, w.day_in),
)

-- `add_time` by a unit of whole years adds that many times `dtime` to the year and changes nothing
-- else. If the year reached is not before year 1, then the result of a valid date is valid exactly
-- if it is not February 29th of a common year: the day is not cut.
pub add_time-years :
    (t : Moment) (dtime : ℤ) (unit : ℕ)
    → IsDate t
    → 1 ≤ years_in unit
    → pos 1 ≤ℤ t.year +ℤ scale_ℤ (years_in unit) dtime
    → (u : Moment) × (add_time t dtime unit ≡ done u)
      × (u ≡ record t { year = t.year +ℤ scale_ℤ (years_in unit) dtime })
      × ((¬ IsLost u) ↔ IsDate u)
unfolding add_time
add_time-years t dtime unit v hu hy =
    let y = t.year +ℤ scale_ℤ (years_in unit) dtime in
    (record t { year = y }, ground (arith, scale_ℤ-one dtime), refl, IsLost-iff t y v hy)
