-- ===== src/Grib/Level/Octets.antt =====
-- The accessors of a level against the tables of octets.
use mashroom.Common.{ℕ, ◌<◌, ◌≡◌, ◌≢◌, ◌↔◌, true, some, arith}
use mashroom.Common.Int.{ℤ}
use mashroom.Grib.Level.{
  Level, FloatOps, nothing, levels_11_octets, levels_12_octets, convert_11, convert_12, ok,
  logic_error, is_bounded, get_top_bound, get_bottom_bound,
}

module _ (O : FloatOps) where
  -- Octet 12 converts to a value exactly for the tags that the table lists for octet 12.
  pub convert_12_iff :
      (tag : ℕ) (v : ℤ)
      → tag < 255
      → (convert_12 O tag v ≢ nothing) ↔ (levels_12_octets tag ≡ some 1)
  unfolding convert_12 levels_12_octets
  convert_12_iff tag v h = ground arith

  -- For a layer of any kind but 141 both octets convert alike.
  pub layer_bounds_agree :
      (tag : ℕ) (v : ℤ)
      → levels_12_octets tag ≡ some 1
      → tag ≢ 141
      → convert_11 O tag v ≡ convert_12 O tag v
  unfolding convert_11 convert_12 levels_12_octets
  layer_bounds_agree tag v h ne = ground arith

  -- A level that `is_bounded` reports to have bounds is one whose two octets are a single number:
  -- its bottom bound is always the empty value.
  pub bounded_bottom : (l : Level) → is_bounded l ≡ ok true → get_bottom_bound O l ≡ ok nothing
  unfolding is_bounded get_bottom_bound convert_12 levels_11_octets
  bounded_bottom l h = ground arith

  -- A layer, whose octets 11 and 12 are its bounds, has no bounds for the accessors: both throw.
  pub layer_throws :
      (l : Level)
      → levels_12_octets l.level_type ≡ some 1
      → (get_top_bound O l ≡ logic_error) × (get_bottom_bound O l ≡ logic_error)
  unfolding is_bounded get_top_bound get_bottom_bound levels_11_octets levels_12_octets
  layer_throws l h = ground arith
