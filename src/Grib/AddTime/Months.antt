-- ===== src/Grib/AddTime/Months.antt =====
-- The `MONTH` branch of `add_time`.
use Prim.Native.Nat.{min}
use mashroom.Common.{
  ℕ, zero, suc, ◌+◌, ◌-◌, ◌*◌, ◌/◌, ◌%◌, ◌≤◌, ◌≡◌, Option, none, some, arith, ltb, ◌==◌,
  if◌then◌else◌, ◌&&◌, get_elem?, true, false,
}
use mashroom.Common.Int.{
  ℤ, pos, negsuc, pos_part, neg_part, ◌+ℤ◌, ◌-ℤ◌, ◌≤ℤ◌, neg_ℤ, scale_ℤ, ltb_ℤ, +ℤ_parts, -ℤ_parts,
  part_zero, tdiv-pos, tmod-pos,
}
use mashroom.Grib.AddTime.{
  Moment, Outcome, done, unsupported, fault, stuck, leap, monthjday, monthjday_before, month_then,
  add_months_from, add_months,
}
use mashroom.Grib.AddTime.Calendar.{month_length, IsDate, leap-le-one}

-- Months since January of year 0, for a year from 1 on.
abbrev pub month_index : Moment → ℕ
month_index t = 12 * pos_part t.year + (t.month - 1)

-- The call returns 0 with a valid date of month number `total`, on the day of `t` or, where that
-- month is shorter, on its last day.
abbrev pub LandsIn : Moment → ℕ → Outcome → Type 0
LandsIn t total (done u) =
    IsDate u
    × (month_index u ≡ total)
    × (u.day ≡ min t.day (month_length u.year u.month))
    × (u.hour ≡ t.hour)
LandsIn t total (unsupported u) = ⊥
LandsIn t total fault = ⊥
LandsIn t total stuck = ⊥

abbrev IsSpan : ℤ → ℕ → Option ℕ → Option ℕ → Type 0
IsSpan y m none _ = ⊥
IsSpan y m (some start) none = ⊥
IsSpan y m (some start) (some end) =
    end - start + (if (m == 2) && (leap y == 1) then 1 else 0) ≡ month_length y m

monthjday-IsSpan :
    (y : ℤ) (m : ℕ) → 1 ≤ m → m ≤ 12 → IsSpan y m (monthjday_before m) (get_elem? monthjday m)
monthjday-IsSpan y zero lo hi = absurd (omega arith)
monthjday-IsSpan y (suc m) lo hi = ground (arith, leap-le-one y)

month_then-LandsIn :
    (t : Moment) (y : ℤ) (m total : ℕ) (start end : Option ℕ)
    → IsDate t
    → pos 1 ≤ℤ y
    → 1 ≤ m
    → m ≤ 12
    → 12 * pos_part y + (m - 1) ≡ total
    → IsSpan y m start end
    → LandsIn t total (month_then t y m start end)
month_then-LandsIn t y m total none end v hy lo hi e s = absurd s
month_then-LandsIn t y m total (some start) none v hy lo hi e s = absurd s
month_then-LandsIn t y m total (some start) (some end) v hy lo hi e s = ground arith

add_months_from-LandsIn :
    (t : Moment) (y : ℤ) (k total : ℕ)
    → IsDate t
    → 12 ≤ total
    → 12 * pos_part y + k ≡ total + 12 * neg_part y
    → LandsIn t total (add_months_from t y (pos k))
unfolding add_months_from
add_months_from-LandsIn t y k total v ht e =
    let first : pos 1 +ℤ pos (k % 12) ≡ pos (1 + k % 12) = unfold ◌+ℤ◌ in ground arith in
    let y' = y +ℤ pos (k / 12) in
    let inside : ltb (1 + k % 12 + 0) 1 ≡ false = ground arith in
    rw (tmod-pos k, tdiv-pos k, first)
      (rw inside (
        month_then-LandsIn t y' (1 + k % 12) total _ _ v
          (omega (arith, +ℤ_parts y (pos (k / 12)), part_zero y')) (omega arith) (omega arith)
          (omega (arith, +ℤ_parts y (pos (k / 12)), part_zero y'))
          (monthjday-IsSpan y' (1 + k % 12) (omega arith) (omega arith))))

pos_sum : (a b : ℕ) → pos a +ℤ pos b ≡ pos (a + b)
unfolding ◌+ℤ◌
pos_sum a b = ground arith

pos_pred : (m : ℕ) → 1 ≤ m → pos m -ℤ pos 1 ≡ pos (m - 1)
unfolding ◌-ℤ◌
pos_pred m h = ground arith

-- After the year borrow the months are not negative.
borrow : (n q : ℕ) → suc n ≤ 12 * q → negsuc n +ℤ scale_ℤ 12 (pos q) ≡ pos (12 * q - suc n)
unfolding ◌+ℤ◌ scale_ℤ
borrow n q h = ground arith

-- A valid date moved by `dtime` months lands in the month that lies `dtime` on, if that is not
-- before year 1, on the same day or the last one of the month.
pub add_months-LandsIn :
    (t : Moment) (dtime : ℤ) (total : ℕ)
    → IsDate t
    → 12 ≤ total
    → month_index t + pos_part dtime ≡ total + neg_part dtime
    → LandsIn t total (add_months t dtime)
unfolding add_months
add_months-LandsIn t (negsuc n) total v ht e =
    let back : neg_ℤ (negsuc n) ≡ pos (suc n) = ground arith in
    let past : ltb_ℤ (negsuc n) (pos 0) ≡ true = ground arith in
    let q = suc n / 12 + 1 in
    let y = t.year -ℤ pos q in
    let k = 12 * q - suc n + (t.month - 1) in
    rw
      (
        past,
        back,
        tdiv-pos (suc n),
        pos_sum (suc n / 12) 1,
        borrow n q (omega arith),
        pos_pred t.month v.month_in.0,
        pos_sum (12 * q - suc n) (t.month - 1),
      )
      (add_months_from-LandsIn t y k total v ht
        (omega (arith, -ℤ_parts t.year (pos q), part_zero y, part_zero t.year)))
add_months-LandsIn t (pos n) total v ht e =
    let forward : ltb_ℤ (pos n) (pos 0) ≡ false = ground arith in
    rw (forward, pos_pred t.month v.month_in.0, pos_sum n (t.month - 1))
      (add_months_from-LandsIn t t.year (n + (t.month - 1)) total v ht
        (omega (arith, part_zero t.year)))
