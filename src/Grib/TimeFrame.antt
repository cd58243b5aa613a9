-- ===== src/Grib/TimeFrame.antt =====
-- API/grib1/include/code_tables/table_4.h: the codes of the forecast time unit. The enumeration
-- has `uint8_t` for its underlying type, and the reader casts any byte to it, so a time frame is
-- the byte itself and an enumerator is a number.
use mashroom.Common.{ℕ}

abbrev pub minute : ℕ
minute = 0

abbrev pub hour : ℕ
hour = 1

abbrev pub day : ℕ
day = 2

abbrev pub month : ℕ
month = 3

abbrev pub year : ℕ
year = 4

abbrev pub decade : ℕ
decade = 5

abbrev pub normal : ℕ
normal = 6

abbrev pub century : ℕ
century = 7

abbrev pub hours_3 : ℕ
hours_3 = 10

abbrev pub hours_6 : ℕ
hours_6 = 11

abbrev pub hours_12 : ℕ
hours_12 = 12

abbrev pub quarter_hour : ℕ
quarter_hour = 13

abbrev pub half_hour : ℕ
half_hour = 14

abbrev pub second : ℕ
second = 254

abbrev pub indifferent : ℕ
indifferent = 255
