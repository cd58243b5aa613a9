-- ===== src/Grib/Grid.antt =====
-- Grids of latitudes and longitudes: GridBase of API/grib1/include/sections/grid/grid_base.h, the
-- rectangle operations of lat_lon.h, and GridInfo of grid.h with the two operations that use them.
-- Floats are a parameter, with `<` and `!=` as the code uses them.
pub mod Extent
pub mod Reading
use mashroom.Common.{ℕ, ◌/◌, ◌%◌, ◌==◌, ◌≡◌, ◌≢◌, Bool, true, false, not, ◌&&◌, ◌||◌, if◌then◌else◌}

pub record FloatOrder : Type 1 where
  pub Float : Type 0
  pub lt : Float → Float → Bool
  pub ne : Float → Float → Bool

-- The order of floats that are not NaN.
pub record IsLinear (o : FloatOrder) : Type 0 where
  pub refl_le : (a : o.Float) → o.lt a a ≡ false
  pub lt_le : (a b : o.Float) → o.lt a b ≡ true → o.lt b a ≡ false
  pub trans_le : (a b c : o.Float) → o.lt b a ≡ false → o.lt c b ≡ false → o.lt c a ≡ false

pub record ScanMode : Type 0 where
  pub points_sub_i_dir : Bool
  pub points_sub_j_dir : Bool
  pub adj_points_j_dir : Bool

-- (buf & (1 << k)) != 0
abbrev bit : ℕ → ℕ → Bool
bit buf weight = buf / weight % 2 == 1

unfoldable pub scan_mode : ℕ → ScanMode
scan_mode buf = record {
  points_sub_i_dir = bit buf 1;
  points_sub_j_dir = bit buf 2;
  adj_points_j_dir = bit buf 4;
}

pub record ResolutionComponentFlags : Type 0 where
  pub given_direction : Bool
  pub earth_spheroidal : Bool
  pub grid_direction_uv_comp : Bool

unfoldable pub resolution_component_flags : ℕ → ResolutionComponentFlags
resolution_component_flags buf = record {
  given_direction = bit buf 1;
  earth_spheroidal = bit buf 2;
  grid_direction_uv_comp = bit buf 16;
}

pub record GridBase (F : Type 0) : Type 0 where
  pub y1 : F
  pub x1 : F
  pub y2 : F
  pub x2 : F
  pub dy : F
  pub dx : F
  pub ny : ℕ
  pub nx : ℕ
  pub scan : ScanMode
  pub flags : ResolutionComponentFlags

pub record Coord (F : Type 0) : Type 0 where
  pub lat : F
  pub lon : F

-- `other_grid` is a definition without `extendable`, by its representation type.
pub data GridInfo (F : Type 0) : Type 0 where
  monostate : GridInfo F
  lat_lon : GridBase F → GridInfo F
  other_grid : ℕ → GridInfo F

module _ (o : FloatOrder) where
  unfoldable pub extendable : GridBase o.Float → GridBase o.Float → Bool
  extendable g other =
      if o.ne g.dx other.dx || o.ne g.dy other.dy
      then false
      else not
          (o.lt other.x2 g.x1 || o.lt g.x2 other.x1 || o.lt other.y2 g.y1 || o.lt g.y2 other.y1)

  -- The assignments of `extend`, in their order.
  unfoldable pub extend : GridBase o.Float → GridBase o.Float → GridBase o.Float
  extend g other = record g {
    x1 = if o.lt other.x1 g.x1 then other.x1 else g.x1;
    y2 = if o.lt other.y2 g.y2 then other.y2 else g.y2;
    x2 = if o.lt g.x2 other.x2 then other.x2 else g.x2;
    y1 = if o.lt g.y1 other.y1 then other.y1 else g.y1;
  }

  unfoldable pub pos_in_grid : GridBase o.Float → Coord o.Float → Bool
  pos_in_grid g pos =
      if o.lt pos.lat g.y2 || o.lt g.y1 pos.lat || o.lt pos.lon g.x1 || o.lt g.x2 pos.lon
      then false
      else true

  unfoldable pub extendable_by : GridInfo o.Float → GridInfo o.Float → Bool
  extendable_by (lat_lon g) (lat_lon other) = extendable g other
  extendable_by g other = false

  -- GridInfo::extend: what it returns, and the grid after it.
  unfoldable pub extend_info : GridInfo o.Float → GridInfo o.Float → Bool × GridInfo o.Float
  extend_info (lat_lon g) (lat_lon other) =
      if not (extendable_by (lat_lon g) (lat_lon other))
      then (false, lat_lon g)
      else (true, lat_lon (extend g other))
  extend_info g other = (false, g)
