-- ===== src/Grib/AddTime/Loops.antt =====
-- The loops of the `DAY` branch end, and keep the number of the day.
use mashroom.Common.{ℕ, zero, suc, ◌+◌, ◌-◌, ◌≤◌, ◌<◌, ◌≡◌, Option, none, some, arith}
use mashroom.Common.Int.{ℤ, pos, pos_part, neg_part, ◌+ℤ◌, ◌-ℤ◌, ◌≤ℤ◌}
use mashroom.Grib.AddTime.{leap, year_back, year_forward, month_scan, month_and_day}
use mashroom.Grib.AddTime.Calendar.{
  month_length, before_month, before_year, leap-le-one, before_year-suc, before_year-one,
}

-- Year and day of the year, possibly past its end, with the given day number.
abbrev pub IsAt : ℕ → Option (ℤ × ℕ) → Type 0
IsAt total none = ⊥
IsAt total (some (y, n)) = (pos 1 ≤ℤ y) × (1 ≤ n) × (before_year (pos_part y) + n ≡ total)

-- The same, within the year.
abbrev pub IsYearDay : ℕ → Option (ℤ × ℕ) → Type 0
IsYearDay total none = ⊥
IsYearDay total (some (y, n)) =
    (pos 1 ≤ℤ y) × (1 ≤ n) × (n ≤ 365 + leap y) × (before_year (pos_part y) + n ≡ total)

pos-add-one : (y : ℕ) → pos y +ℤ pos 1 ≡ pos (suc y)
unfolding ◌+ℤ◌
pos-add-one y = ground arith

pos-sub-one : (y : ℕ) → pos (suc y) -ℤ pos 1 ≡ pos y
unfolding ◌-ℤ◌
pos-sub-one y = ground arith

pub year_forward-IsYearDay :
    (fuel y n total : ℕ)
    → 1 ≤ y
    → n < fuel
    → 1 ≤ n
    → before_year y + n ≡ total
    → IsYearDay total (year_forward fuel (pos y) n)
unfolding year_forward
year_forward-IsYearDay zero y n total hy hf hn e = absurd (omega arith)
year_forward-IsYearDay (suc fuel) y n total hy hf hn e = ground (
  arith,
  pos-add-one y,
  before_year-suc y hy,
  year_forward-IsYearDay fuel (suc y) (n - (365 + leap (pos y))) total,
)

pub year_back-IsAt :
    (fuel y total : ℕ) (dtime : ℤ)
    → 1 ≤ y
    → neg_part dtime + (1 - pos_part dtime) < fuel
    → 1 ≤ total
    → before_year y + pos_part dtime ≡ total + neg_part dtime
    → IsAt total (year_back fuel (pos y) dtime)
unfolding year_back ◌+ℤ◌
year_back-IsAt zero y total dtime hy hf ht e = absurd (omega arith)
year_back-IsAt (suc fuel) zero total dtime hy hf ht e = absurd (omega arith)
year_back-IsAt (suc fuel) (suc zero) total dtime hy hf ht e = ground (arith, before_year-one)
year_back-IsAt (suc fuel) (suc (suc p)) total dtime hy hf ht e = ground (
  arith,
  pos-sub-one (suc p),
  before_year-suc (suc p),
  year_back-IsAt fuel (suc p) total (dtime +ℤ pos (365 + leap (pos (suc p)))),
)

-- Month and day of the n-th day of a year.
abbrev pub IsMonthDay : ℤ → ℕ → Option (ℕ × ℕ) → Type 0
IsMonthDay y n none = ⊥
IsMonthDay y n (some (m, d)) =
    (1 ≤ m) × (m ≤ 12) × (1 ≤ d) × (d ≤ month_length y m) × (before_month y (m - 1) + d ≡ n)

pub month_and_day-IsMonthDay :
    (y : ℤ) (n : ℕ) → 1 ≤ n → n ≤ 365 + leap y → IsMonthDay y n (month_and_day y n)
unfolding month_and_day month_scan
month_and_day-IsMonthDay y n lo hi = ground (arith, leap-le-one y)
