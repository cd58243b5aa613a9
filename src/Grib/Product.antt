-- ===== src/Grib/Product.antt =====
-- `ProductDefinitionSection` of API/grib1/src/sections/section_1.cpp, over the accessors of
-- API/grib1/include/sections/product/def.h, and `verf_time`, the time for which a field is valid.
-- `reference_time`, `parameter_name` and `param_comment` call the library's calendar and the
-- generated parameter tables, and are left out.
pub mod Flags
pub mod Validity
use Prim.Native.Nat.{bit_and}
use mashroom.Common.{
  ℕ, ◌+◌, ◌*◌, ◌%◌, Bool, not, ◌&&◌, ◌||◌, Option, none, some, ltb, ◌==◌, if◌then◌else◌,
}
use mashroom.Common.Int.{ℤ, pos, negsuc, ◌+ℤ◌, ◌-ℤ◌, neg_ℤ, scale_ℤ, pos_part, neg_part}
use mashroom.Grib.Bytes.{Buffer, shift, ByteReader}
use mashroom.Grib.AddTime.{Moment, Outcome, done, add_time}
use mashroom.Grib.TimeRange.{of_code}
use mashroom.Grib.Level.{Level, level}
use mashroom.Grib.TimeForecast.{TimeForecast, time_forecast}

-- Which of sections 2 and 3 the message includes.
pub record Section23Flag : Type 0 where
  pub sec2_inc : Bool
  pub sec3_inc : Bool

module _ (R : ByteReader) where
  -- `section_length` of sections 1, 2, 3 and 4: a null pointer has length 0.
  unfoldable pub section_length : Option Buffer → ℕ
  section_length none = 0
  section_length (some p) = R.unsigned 3 p

  unfoldable pub period1 : Buffer → ℕ
  period1 p = R.unsigned 1 (shift 18 p)

  unfoldable pub period2 : Buffer → ℕ
  period2 p = R.unsigned 1 (shift 19 p)

  unfoldable pub time_range_code : Buffer → ℕ
  time_range_code p = R.unsigned 1 (shift 20 p)

  -- `read_bytes<2,true>`, narrowed to `unsigned char`.
  pub number_included_in_average : Buffer → ℕ
  number_included_in_average p =
      let n = R.signed 2 (shift 21 p) in (pos_part n + 255 * neg_part n) % 256

  pub number_missing : Buffer → ℕ
  number_missing p = R.unsigned 1 (shift 23 p)

  pub century : Buffer → ℕ
  century p = R.unsigned 1 (shift 24 p)

  pub subcenter : Buffer → ℕ
  subcenter p = R.unsigned 1 (shift 25 p)

-- The accessors that read one byte.
pub table_version : Buffer → ℕ
table_version p = p 3

pub center : Buffer → ℕ
center p = p 4

pub generating_process_identifier : Buffer → ℕ
generating_process_identifier p = p 5

pub grid_definition : Buffer → ℕ
grid_definition p = p 6

unfoldable pub parameter_number : Buffer → ℕ
parameter_number p = p 8

pub unit_time_range : Buffer → ℕ
unit_time_range p = p 17

-- Bits 1 and 2 of octet 8.
unfoldable pub section1_flags : Buffer → Section23Flag
section1_flags p = record {
  sec2_inc = not (bit_and (p 7) 128 == 0);
  sec3_inc = not (bit_and (p 7) 64 == 0);
}

pub level_data : Buffer → Level
level_data p = level (p 9) (p 10) (p 11)

-- `PDS_Year4`, as an `int`: the year of the century and the century, which starts with year 1.
unfoldable pub year4 : Buffer → ℤ
year4 p = pos (p 12) +ℤ scale_ℤ 100 (pos (p 24) -ℤ pos 1)

-- `year()` narrows it to `unsigned short`.
pub year : Buffer → ℕ
year p = let y = year4 p in (pos_part y + 65535 * neg_part y) % 65536

-- The reference time, as `verf_time` reads it.
abbrev pub reference : Buffer → Moment
reference p = record { year = year4 p; month = p 13; day = p 14; hour = p 15 }

module _ (R : ByteReader) where
  pub forecast : Buffer → TimeForecast
  forecast p =
      time_forecast (unit_time_range p) (of_code (time_range_code R p)) (period1 R p) (period2 R p)

  -- `dtime`, after the three tests on the time range.
  unfoldable pub validity_offset : Buffer → ℤ
  validity_offset p =
      let tr = time_range_code R p in
      let p1 = period1 R p in
      let p2 = period2 R p in
      if tr == 10
      then pos (p1 * 256 + p2)
      else if ltb 1 tr && ltb tr 6
      then pos p2
      else if (tr == 6) || (tr == 7)
      then neg_ℤ (pos p1)
      else pos p1

  -- `verf_time`: the pointers receive the reference time, and `add_time` moves it.
  unfoldable pub verf_time : Buffer → Outcome
  verf_time p =
      let dtime = validity_offset p in
      if (pos_part dtime == 0) && (neg_part dtime == 0)
      then done (reference p)
      else add_time (reference p) dtime (p 17)
