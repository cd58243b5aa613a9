-- ===== src/Grib/GridSection.antt =====
-- `GridDescriptionSection` of API/grib1/src/sections/section_2.cpp, the macros that it uses of
-- API/grib1/include/sections/grid/def.h, and `is_representation` of
-- API/grib1/include/code_tables/table_6.h. `define_grid` is left out:
-- the step from a section to the grids of Grib/Grid is not modelled.
pub mod Size
use mashroom.Common.{
  ℕ, zero, suc, ◌+◌, ◌-◌, ◌*◌, ◌%◌, ◌^◌, ◌||◌, Bool, true, false, Option, none, some, leb, ◌==◌,
  if◌then◌else◌,
}
use mashroom.Common.Int.{ℤ, pos, negsuc, pos_part, neg_part, ◌+ℤ◌, ◌-ℤ◌}
use mashroom.Grib.Bytes.{Buffer, shift, ByteReader}

-- `RepresentationType`: as it is cast from a byte, a number.
abbrev lat_lon : ℕ
lat_lon = 0

abbrev gaussian : ℕ
gaussian = 4

-- The entries of `is_representation` that are set; its 255 entries leave out index 255.
unfoldable pub is_representation : ℕ → Option Bool
is_representation t =
    if leb 255 t
    then none
    else some (
        leb t 10
        || (t == 13)
        || (t == 14)
        || (t == 20)
        || (t == 24)
        || (t == 30)
        || (t == 34)
        || (t == 50)
        || (t == 60)
        || (t == 70)
        || (t == 80)
        || (t == 90))

-- What a call comes to: a value, the end of the process by `exit(1)`, or a read out of bounds.
pub data Answer : Type 0 where
  value : ℕ → Answer
  exits : Answer
  outside : Answer

unfoldable pub representation_type : Buffer → ℕ
representation_type p = p 5

-- The cases of the `switch` that end the process, among the types that the table knows: all but
-- the two grids of latitudes and longitudes.
unfoldable pub not_available : ℕ → Bool
not_available t =
    (t == 8)
    || (t == 14)
    || (t == 24)
    || (t == 34)
    || (t == 10)
    || (t == 20)
    || (t == 30)
    || (t == 3)
    || (t == 1)
    || (t == 9)
    || (t == 13)
    || (t == 5)
    || (t == 7)
    || (t == 2)
    || (t == 60)
    || (t == 6)
    || (t == 70)
    || (t == 90)
    || (t == 80)
    || (t == 50)

-- The `switch` that `nxny`, `nx` and `ny` share, with what they do for the two grids.
unfoldable pub switch_type : ℕ → Answer → Answer
switch_type t grid = elim (is_representation t) [
  | none ↦ outside
  | some false ↦ exits
  | some true ↦
      if not_available t then exits else if (t == lat_lon) || (t == gaussian) then grid else exits
]

-- `GDS_PV` and `GDS_PL`, as an `int`.
abbrev gds_pv : Buffer → ℤ
gds_pv p = if p 3 == 0 then negsuc 0 else pos (p 4) -ℤ pos 1

abbrev gds_pl : Buffer → ℤ
gds_pl p = if p 4 == 255 then negsuc 0 else pos (p 3 * 4 + p 4) -ℤ pos 1

-- An `int` that is returned as an `unsigned long`.
abbrev pub to_unsigned : ℤ → ℕ
to_unsigned a = (pos_part a + (18446744073709551616 - neg_part a)) % 18446744073709551616

unfoldable pub get_number_vertical_coord_values : Buffer → ℕ
get_number_vertical_coord_values p = p 3

unfoldable pub get_pv : Buffer → ℕ
get_pv p = to_unsigned (gds_pv p)

unfoldable pub get_pl : Buffer → ℕ
get_pl p = to_unsigned (gds_pl p)

-- The loop over the `iy` rows from row `i` on, with `isum` for its result; `start` is `pl`.
unfoldable pub sum_rows : Buffer → ℕ → ℕ → ℕ → ℕ → ℕ
sum_rows p start i zero isum = isum
sum_rows p start i (suc rows) isum =
    sum_rows p start (suc i) rows (isum + (p (start + i * 2) * 256 + p (start + i * 2 + 1)))

-- The loop reads before the buffer if `pl` is negative and there is a row.
abbrev rows_from : Buffer → ℤ → ℕ → Answer
rows_from p (pos start) iy = value (sum_rows p start 0 iy 0)
rows_from p (negsuc n) zero = value 0
rows_from p (negsuc n) (suc iy) = outside

module _ (R : ByteReader) where
  unfoldable pub lat_lon_nx : Buffer → ℕ
  lat_lon_nx p = R.unsigned 2 (shift 6 p)

  unfoldable pub lat_lon_ny : Buffer → ℕ
  lat_lon_ny p = R.unsigned 2 (shift 8 p)

  -- The product of the two dimensions is computed and not used.
  unfoldable pub nxny : Buffer → Answer
  unfolding sum_rows
  nxny p =
      let ix = lat_lon_nx p in
      let iy = lat_lon_ny p in
      switch_type (p 5) (
        if (p 5 == gaussian) || (p 5 == lat_lon)
        then if ix == 65535 then rows_from p (gds_pl p) iy else value 0
        else exits)

  unfoldable pub nx : Buffer → Answer
  nx p = switch_type (p 5) (value (lat_lon_nx p))

  unfoldable pub ny : Buffer → Answer
  ny p = switch_type (p 5) (value (lat_lon_ny p))
