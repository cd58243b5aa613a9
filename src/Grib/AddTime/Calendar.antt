-- ===== src/Grib/AddTime/Calendar.antt =====
-- The Gregorian calendar from year 1, against which `add_time` is stated: month lengths by the
-- usual table, days before a year by the closed formula, and the number of a day.
use mashroom.Common.{
  ℕ, zero, suc, ◌+◌, ◌-◌, ◌*◌, ◌/◌, ◌≤◌, ◌≡◌, refl, ◌||◌, arith, ◌==◌, if◌then◌else◌,
}
use mashroom.Common.Int.{ℤ, pos, pos_part, ◌≤ℤ◌}
use mashroom.Grib.AddTime.{Moment, leap}

abbrev pub month_length : ℤ → ℕ → ℕ
month_length y m =
    if m == 2 then 28 + leap y else if (m == 4) || (m == 6) || (m == 9) || (m == 11) then 30 else 31

-- Days in the first `k` months.
abbrev pub before_month : ℤ → ℕ → ℕ
before_month y zero = 0
before_month y (suc k) = before_month y k + month_length y (suc k)

-- Days before year `y`, for 1 ≤ y.
unfoldable pub before_year : ℕ → ℕ
before_year y = let p = y - 1 in p * 365 + p / 4 - p / 100 + p / 400

-- 0001-01-01 is day 1.
unfoldable pub day_number : Moment → ℕ
day_number t = before_year (pos_part t.year) + before_month t.year (t.month - 1) + t.day

pub record IsDate (t : Moment) : Type 0 where
  pub year_in : pos 1 ≤ℤ t.year
  pub month_in : (1 ≤ t.month) × (t.month ≤ 12)
  pub day_in : (1 ≤ t.day) × (t.day ≤ month_length t.year t.month)

pub leap-le-one : (y : ℤ) → leap y ≤ 1
unfolding leap
leap-le-one y = ground arith

-- The leap rule of the code and the closed formula agree.
pub before_year-suc : (y : ℕ) → 1 ≤ y → before_year (suc y) ≡ before_year y + (365 + leap (pos y))
unfolding before_year leap
before_year-suc y h = ground arith

pub before_year-one : before_year 1 ≡ 0
unfolding before_year
before_year-one = refl

pub year_length : (y : ℤ) → before_month y 12 ≡ 365 + leap y
year_length y = omega arith
