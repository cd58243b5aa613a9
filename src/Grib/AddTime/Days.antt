-- ===== src/Grib/AddTime/Days.antt =====
-- The `DAY` and `HOUR` branches of `add_time` move by days and hours of the calendar.
use mashroom.Common.{
  ℕ, zero, suc, ◌+◌, ◌-◌, ◌*◌, ◌/◌, ◌≤◌, ◌<◌, ◌≡◌, refl, inl, inr, ap, Option, none, some, arith,
  ltb, ltb→lt, ◌==◌, Bool-cases, if◌then◌else◌, ◌&&◌,
}
use mashroom.Common.Int.{
  ℤ, pos, negsuc, pos_part, neg_part, ◌+ℤ◌, ◌-ℤ◌, ◌≤ℤ◌, +ℤ_parts, -ℤ_parts, part_zero,
  tdiv_parts_24, tmod_parts_24, tdiv, tmod, ltb_ℤ,
}
use mashroom.Grib.AddTime.{
  Moment, Outcome, done, unsupported, fault, stuck, leap, monthjday_before, year_back, year_forward,
  month_and_day, finish_day, forward_then, back_then, jday_then, add_days, add_hours,
}
use mashroom.Grib.AddTime.Calendar.{before_month, before_year, day_number, IsDate, leap-le-one}
use mashroom.Grib.AddTime.Loops.{
  IsAt, IsYearDay, IsMonthDay, year_forward-IsYearDay, year_back-IsAt, month_and_day-IsMonthDay,
}

-- The call returns 0 with the valid date of day number `total`, its hour set to `hour`.
abbrev pub LandsOn : ℕ → ℕ → Outcome → Type 0
LandsOn total hour (done u) = IsDate u × (day_number u ≡ total) × (u.hour ≡ hour)
LandsOn total hour (unsupported u) = ⊥
LandsOn total hour fault = ⊥
LandsOn total hour stuck = ⊥

finish_day-LandsOn :
    (t : Moment) (total n : ℕ) (y : ℤ) (r : Option (ℕ × ℕ))
    → pos 1 ≤ℤ y
    → before_year (pos_part y) + n ≡ total
    → IsMonthDay y n r
    → LandsOn total t.hour (finish_day t y r)
unfolding day_number
finish_day-LandsOn t total n y none hy e h = absurd h
finish_day-LandsOn t total n y (some (m, d)) hy e h =
    (record { year_in = hy; month_in = (h.0, h.1); day_in = (h.2, h.3) }, omega arith, refl)

forward_then-LandsOn :
    (t : Moment) (total : ℕ) (r : Option (ℤ × ℕ))
    → IsYearDay total r
    → LandsOn total t.hour (forward_then t r)
forward_then-LandsOn t total none h = absurd h
forward_then-LandsOn t total (some (y, n)) h =
    finish_day-LandsOn t total n y (month_and_day y n) h.0 h.3
      (month_and_day-IsMonthDay y n h.1 h.2)

back_then-LandsOn :
    (t : Moment) (total : ℕ) (r : Option (ℤ × ℕ))
    → IsAt total r
    → LandsOn total t.hour (back_then t r)
back_then-LandsOn t total none h = absurd h
back_then-LandsOn t total (some (pos y, n)) h =
    forward_then-LandsOn t total (year_forward (n + 1) (pos y) n)
      (year_forward-IsYearDay (n + 1) y n total (omega arith) (omega arith) h.1 h.2)
back_then-LandsOn t total (some (negsuc y, n)) h = absurd (omega arith)

-- What the code reads from `monthjday`, with its leap correction: the days before the month.
abbrev IsStart : ℤ → ℕ → Option ℕ → Type 0
IsStart y m none = ⊥
IsStart y m (some start) =
    start + (if (leap y == 1) && ltb 2 m then 1 else 0) ≡ before_month y (m - 1)

monthjday_before-IsStart : (y : ℤ) (m : ℕ) → 1 ≤ m → m ≤ 12 → IsStart y m (monthjday_before m)
monthjday_before-IsStart y zero lo hi = absurd (omega arith)
monthjday_before-IsStart y (suc m) lo hi = ground (arith, leap-le-one y)

from_jday-LandsOn :
    (t : Moment) (y total jday : ℕ) (dtime : ℤ)
    → t.year ≡ pos y
    → 1 ≤ y
    → 1 ≤ total
    → before_year y + jday + pos_part dtime ≡ total + neg_part dtime
    → let first = dtime +ℤ pos jday in
      LandsOn total t.hour (back_then t (year_back (neg_part first + 2) t.year first))
from_jday-LandsOn t y total jday dtime ey hy ht e =
    let first = dtime +ℤ pos jday in
    let start : IsAt total (year_back (neg_part first + 2) (pos y) first) =
      year_back-IsAt (neg_part first + 2) y total first hy (omega arith) ht
        (omega (arith, +ℤ_parts dtime (pos jday))) in
    back_then-LandsOn t total (year_back (neg_part first + 2) t.year first) (rw ey start)

jday_then-LandsOn :
    (t : Moment) (y total : ℕ) (dtime : ℤ) (r : Option ℕ)
    → t.year ≡ pos y
    → 1 ≤ y
    → 1 ≤ total
    → day_number t + pos_part dtime ≡ total + neg_part dtime
    → IsStart t.year t.month r
    → LandsOn total t.hour (jday_then t dtime r)
unfolding day_number
jday_then-LandsOn t y total dtime none ey hy ht e h = absurd h
jday_then-LandsOn t y total dtime (some start) ey hy ht e h =
    from_jday-LandsOn t y total _ dtime ey hy ht (omega (arith, h, ap before_year (ap pos_part ey)))

year_eq : (t : Moment) → IsDate t → t.year ≡ pos (pos_part t.year)
year_eq t v = ground arith

-- A valid date moved by `dtime` days lands on the day that lies `dtime` days on, if that is not
-- before year 1: both loops end, and no read of `monthjday` is out of bounds.
pub add_days-LandsOn :
    (t : Moment) (dtime : ℤ) (total : ℕ)
    → IsDate t
    → 1 ≤ total
    → day_number t + pos_part dtime ≡ total + neg_part dtime
    → LandsOn total t.hour (add_days t dtime)
unfolding add_days
add_days-LandsOn t dtime total v ht e =
    jday_then-LandsOn t (pos_part t.year) total dtime (monthjday_before t.month) (year_eq t v)
      (omega arith) ht e (monthjday_before-IsStart t.year t.month v.month_in.0 v.month_in.1)

-- Hours since the start of year 1.
unfoldable pub hour_number : Moment → ℕ
hour_number t = 24 * day_number t + t.hour

-- The call returns 0 with the valid date and hour of hour number `total`.
abbrev pub LandsAt : ℕ → Outcome → Type 0
LandsAt total (done u) = IsDate u × (u.hour < 24) × (hour_number u ≡ total)
LandsAt total (unsupported u) = ⊥
LandsAt total fault = ⊥
LandsAt total stuck = ⊥

pub LandsOn-LandsAt :
    (total hour : ℕ) (r : Outcome)
    → hour < 24
    → LandsOn total hour r
    → LandsAt (24 * total + hour) r
unfolding hour_number
LandsOn-LandsAt total hour (done u) h l = (l.0, omega (arith, l.2), omega (arith, l.1, l.2))
LandsOn-LandsAt total hour (unsupported u) h l = absurd l
LandsOn-LandsAt total hour fault h l = absurd l
LandsOn-LandsAt total hour stuck h l = absurd l

day_carry :
    (t : Moment) (days : ℤ) (h total : ℕ)
    → IsDate t
    → h < 24
    → 24 ≤ total
    → 24 * day_number t + h + 24 * pos_part days ≡ total + 24 * neg_part days
    → LandsAt total (add_days (record t { hour = h }) days)
unfolding day_number
day_carry t days h total v hh ht e =
    let split : total ≡ 24 * (total / 24) + h = omega arith in
    let moved = record t { hour = h } in
    rw split (
      LandsOn-LandsAt (total / 24) h _ hh (
        add_days-LandsOn moved days (total / 24)
          (record { year_in = v.year_in; month_in = v.month_in; day_in = v.day_in }) (omega arith)
          (omega arith)))

-- A valid date and hour moved by `dtime` hours lands on the hour that lies `dtime` on, if that is
-- not before year 1: hours past midnight, on either side, are carried into the date.
pub add_hours-LandsAt :
    (t : Moment) (dtime : ℤ) (total : ℕ)
    → IsDate t
    → 24 ≤ total
    → hour_number t + pos_part dtime ≡ total + neg_part dtime
    → LandsAt total (add_hours t dtime)
unfolding add_hours hour_number
add_hours-LandsAt t dtime total v ht e =
    let sum = dtime +ℤ pos t.hour in
    let h = tmod sum 24 in
    elim (Bool-cases (ltb_ℤ h (pos 0))) [
      | inl neg ↦ rw neg (
          day_carry t (tdiv sum 24 -ℤ pos 1) (pos_part (h +ℤ pos 24)) total v
            (omega (
              arith,
              +ℤ_parts dtime (pos t.hour),
              part_zero sum,
              tmod_parts_24 sum,
              tdiv_parts_24 sum,
              ltb→lt,
              +ℤ_parts h (pos 24),
              part_zero (h +ℤ pos 24),
            ))
            ht
            (omega (
              arith,
              +ℤ_parts dtime (pos t.hour),
              part_zero sum,
              tmod_parts_24 sum,
              tdiv_parts_24 sum,
              ltb→lt,
              +ℤ_parts h (pos 24),
              part_zero (h +ℤ pos 24),
              -ℤ_parts (tdiv sum 24) (pos 1),
            )))
      | inr nonneg ↦ rw nonneg (
          day_carry t (tdiv sum 24) (pos_part h) total v
            (omega (
              arith,
              +ℤ_parts dtime (pos t.hour),
              part_zero sum,
              tmod_parts_24 sum,
              tdiv_parts_24 sum,
              ltb→lt,
            ))
            ht
            (ground (
              arith,
              +ℤ_parts dtime (pos t.hour),
              part_zero sum,
              tmod_parts_24 sum,
              tdiv_parts_24 sum,
            )))
    ]
