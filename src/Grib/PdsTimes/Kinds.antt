-- ===== src/Grib/PdsTimes/Kinds.antt =====
-- What `PDStimes` prints against the increment that `verf_time` adds, and its units.
use mashroom.Common.{ℕ, ◌*◌, ◌<◌, ◌≤◌, ◌≡◌, ◌↔◌, ◌⊎◌, arith, none}
use mashroom.Common.Int.{pos}
use mashroom.Grib.Bytes.{Buffer, ByteReader}
use mashroom.Grib.Product.{validity_offset, period1, period2, time_range_code}
use mashroom.Grib.AddTime.Units.{hours_in}
use mashroom.Grib.PdsTimes.{scaled_periods, units, unit_name, anal, fcst, kind, pds_times}

-- For a time unit of one byte the function prints a line, except for unit 255, with which it reads
-- past the table of unit names.
pub pds_times-none : (tr p1 p2 u : ℕ) → u < 256 → pds_times tr p1 p2 u ≡ none ↔ (u ≡ 255)
unfolding pds_times unit_name units scaled_periods
pds_times-none tr p1 p2 u h = ground arith

-- The time ranges of which octet 19, or octets 19 and 20, give the one time of the product.
abbrev pub IsOneTime : ℕ → Type 0
IsOneTime tr = (tr ≡ 0) ⊎ (tr ≡ 1) ⊎ (tr ≡ 10)

-- For the time ranges of one time, the product is printed as an analysis exactly if `verf_time`
-- adds nothing to the reference time, and as a forecast of exactly the increment that it adds
-- otherwise.
pub kind-validity :
    (R : ByteReader) (p : Buffer) (n : ℕ)
    → 1 ≤ n
    → IsOneTime (time_range_code R p)
    → let k = kind (time_range_code R p) (period1 R p) (period2 R p) in
      ((k ≡ anal) ↔ (validity_offset R p ≡ pos 0)) × ((k ≡ fcst n) ↔ (validity_offset R p ≡ pos n))
unfolding kind validity_offset
kind-validity R p n hn h = ground arith

-- The scaling keeps a period of whole hours the same number of hours.
pub scaled-hours :
    (p1 p2 u : ℕ)
    → 1 ≤ hours_in u
    → let s = scaled_periods p1 p2 u in
      (hours_in s.time_unit * s.p1 ≡ hours_in u * p1)
      × (hours_in s.time_unit * s.p2 ≡ hours_in u * p2)
unfolding scaled_periods
scaled-hours p1 p2 u h = ground arith
