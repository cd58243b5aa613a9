-- ===== src/Grib/Grid/Reading.antt =====
-- How a section becomes a grid, and a place on the grid the number of a value:
-- `GridDescriptionSection::define_grid` of API/grib1/src/sections/section_2.cpp, the constructor of
-- GridBase in sections/grid/grid_base.h with its macros of sections/grid/def.h, and `value_by_raw`
-- of sections/grid/lat_lon.h and API/grib1/src/sections/grid/grid.cpp. Floats, INT2 and INT3, and
-- is_correct_pos of types/coord.h, which are not in the repository, are the parameter `GridOps`.
use mashroom.Common.{ℕ, ◌+◌, Bool, true, some, ◌==◌, if◌then◌else◌}
use mashroom.Common.Int.{ℤ, pos, negsuc}
use mashroom.Grib.Bytes.{Buffer, shift, ByteReader}
use mashroom.Grib.GridSection.{representation_type, is_representation}
use mashroom.Grib.Grid.{
  FloatOrder, GridBase, Coord, GridInfo, monostate, lat_lon, other_grid, scan_mode,
  resolution_component_flags,
}

pub record GridOps : Type 1 where
  pub order : FloatOrder
  pub of_int : ℤ → order.Float
  pub thousandth : order.Float → order.Float
  pub add : order.Float → order.Float → order.Float
  pub sub : order.Float → order.Float → order.Float
  pub mul : order.Float → order.Float → order.Float
  pub div : order.Float → order.Float → order.Float
  pub to_int : order.Float → ℤ  -- the conversion of a float that is returned as an int
  pub int2 : ℕ → ℕ → ℤ
  pub int3 : ℕ → ℕ → ℕ → ℤ
  pub is_correct_pos : Coord order.Float → Bool
  pub undefined : ℤ  -- UNDEFINED, returned as an int

module _ (R : ByteReader) (O : GridOps) where
  -- float(INT3(...)) / 1000
  abbrev degrees : ℤ → O.order.Float
  degrees v = O.thousandth (O.of_int v)

  unfoldable pub increment : Buffer → ℕ → ℤ
  increment p at = if p 16 == 0 then pos 0 else O.int2 (p at) (p (at + 1))

  -- The constructor of the grid of latitudes and longitudes.
  unfoldable pub grid_base : Buffer → GridBase O.order.Float
  grid_base p = record {
    nx = R.unsigned 2 (shift 6 p);
    ny = R.unsigned 2 (shift 8 p);
    y1 = degrees (O.int3 (p 10) (p 11) (p 12));
    x1 = degrees (O.int3 (p 13) (p 14) (p 15));
    flags = resolution_component_flags (p 16);
    y2 = degrees (O.int3 (p 17) (p 18) (p 19));
    x2 = degrees (O.int3 (p 20) (p 21) (p 22));
    dy = degrees (increment p 25);
    dx = degrees (increment p 23);
    scan = scan_mode (p 27);
  }

  -- `emplace_by_id`: the kinds that `enum_to_index` lists are those of `is_representation`.
  unfoldable pub define_grid : Buffer → GridInfo O.order.Float
  define_grid p =
      let t = representation_type p in
      elim (is_representation t) [
        | some true ↦ if t == 0 then lat_lon (grid_base p) else other_grid t
        | _ ↦ monostate
      ]

module _ (O : GridOps) where
  open O use {order, of_int, add, sub, mul, div, to_int, is_correct_pos, undefined}

  -- The expression of `value_by_raw`, before it becomes an int.
  unfoldable pub raw : GridBase order.Float → Coord order.Float → order.Float
  raw g p =
      let across = if order.lt g.x2 g.x1 then sub p.lon g.x2 else sub p.lon g.x1 in
      let down = if order.lt g.y2 g.y1 then sub g.y1 p.lat else sub p.lat g.y1 in
      add (add (div across g.dx) (of_int (pos 1))) (div (mul (of_int (pos g.nx)) down) g.dy)

  -- The kinds without `value_by_raw` give the smallest int.
  unfoldable pub value_by_raw : Coord order.Float → GridInfo order.Float → ℤ
  value_by_raw p grid =
      if is_correct_pos p
      then elim grid [ lat_lon g ↦ to_int (raw g p) | _ ↦ negsuc 2147483647 ]
      else undefined
