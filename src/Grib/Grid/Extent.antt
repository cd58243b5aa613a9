-- ===== src/Grib/Grid/Extent.antt =====
-- The rectangle that a grid covers.
use mashroom.Common.{◌≡◌, arith, true, false}
use mashroom.Grib.Grid.{
  FloatOrder, IsLinear, GridBase, lat_lon, extendable, extendable_by, extend_info,
}

module _ (o : FloatOrder) (l : IsLinear o) where
  abbrev Le : o.Float → o.Float → Type 0
  Le a b = o.lt b a ≡ false

  -- The rectangle of `g` contains that of `other`; y1 is the northern edge and y2 the southern one, as in
  -- `pos_in_grid`.
  abbrev pub Covers : GridBase o.Float → GridBase o.Float → Type 0
  Covers g other = Le g.x1 other.x1 × Le g.y2 other.y2 × Le other.x2 g.x2 × Le other.y1 g.y1

  -- A grid from north to south is extendable by none of its kind, not even by itself: GridInfo::extend
  -- then returns false and changes nothing.
  pub extend_info-refused :
      (g other : GridBase o.Float)
      → o.lt g.y2 g.y1 ≡ true
      → Le other.y2 other.y1
      → extend_info o (lat_lon g) (lat_lon other) ≡ (false, lat_lon g)
  unfolding extend_info extendable_by extendable
  extend_info-refused g other south there =
      ground (arith, l.trans_le g.y1 other.y2 other.y1, l.trans_le g.y1 other.y1 g.y2)
