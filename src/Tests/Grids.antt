-- ===== src/Tests/Grids.antt =====
-- The grid section.
use mashroom.Common.{ℕ, ◌≡◌, refl, not, ◌==◌, ltb}
use mashroom.Common.Int.{◌-ℤ◌}
use mashroom.Grib.Grid.{FloatOrder, GridBase, scan_mode, resolution_component_flags}
use mashroom.Grib.GridSection.{
  value, nxny, lat_lon_nx, lat_lon_ny, switch_type, is_representation, not_available,
}
use mashroom.Tests.Inputs.{reader, reduced_grid}

run_reduced : nxny reader reduced_grid ≡ value 63
unfolding nxny switch_type is_representation not_available lat_lon_nx lat_lon_ny ◌-ℤ◌
run_reduced = refl

-- Coordinates that are whole numbers.
abbrev whole : FloatOrder
whole = record { Float = ℕ; lt = ltb; ne = λ a b. not (a == b) }

-- From north to south, `top` to 10, and from `left` to 50.
abbrev grid_at : ℕ → ℕ → GridBase ℕ
grid_at top left = record {
  y1 = top;
  x1 = left;
  y2 = 10;
  x2 = 50;
  dy = 1;
  dx = 1;
  ny = 11;
  nx = 11;
  scan = scan_mode 0;
  flags = resolution_component_flags 128;
}
