-- ===== src/Grib/GridSection/Size.antt =====
-- The size of a grid: for which grids it is known, and what it is for reduced and regular grids.
use native.Mathlib.Numerals.{unary_clauses}
use mashroom.Common.{ℕ, zero, suc, ◌+◌, ◌-◌, ◌*◌, ◌<◌, ◌≤◌, ◌≡◌, ◌≢◌, ◌⊎◌, arith, List, [], ◌∷◌}
use mashroom.Common.Int.{◌-ℤ◌}
use mashroom.Grib.Bytes.{Buffer, IsBytes, ByteReader, IsBigEndian, shift}
use mashroom.Grib.GridSection.{
  Answer, value, exits, outside, is_representation, not_available, switch_type, get_pv, get_pl,
  sum_rows, nxny, nx, ny, lat_lon_nx, lat_lon_ny, get_number_vertical_coord_values,
}

-- The words of two bytes from `start` on.
pub row_lengths : ByteReader → Buffer → ℕ → ℕ → List ℕ
row_lengths R p start zero = []
row_lengths R p start (suc rows) = R.unsigned 2 (shift start p) ∷ row_lengths R p (start + 2) rows

pub total : List ℕ → ℕ
total [] = 0
total (n ∷ ns) = n + total ns

-- The types with two dimensions of points.
abbrev pub IsGridOfPoints : Buffer → Type 0
IsGridOfPoints p = (p 5 ≡ 0) ⊎ (p 5 ≡ 4)

module _ (R : ByteReader) (p : Buffer) where
  -- What the three accessors of the size come to when they all fail alike.
  abbrev pub AllAre : Answer → Type 0
  AllAre a = (nx R p ≡ a) × (ny R p ≡ a) × (nxny R p ≡ a)

module _ (R : ByteReader) (big : IsBigEndian R) (p : Buffer) where
  -- The dimensions are known for grids of type 0 and 4. Any other type ends the process, except
  -- 255, with which the table of types is read out of its bounds.
  pub size_known :
      p 5 < 256
      → (IsGridOfPoints p × (nx R p ≡ value (p 6 * 256 + p 7)) × (ny R p ≡ value (p 8 * 256 + p 9)))
        ⊎ ((¬ IsGridOfPoints p) × (p 5 ≢ 255) × AllAre R p exits)
        ⊎ ((p 5 ≡ 255) × AllAre R p outside)
  unfolding nx ny nxny switch_type is_representation not_available lat_lon_nx lat_lon_ny
  size_known h = ground (arith, big.two (shift 6 p), big.two (shift 8 p))

  sum_rows-total :
      (start i rows isum : ℕ)
      → sum_rows p start i rows isum ≡ isum + total (row_lengths R p (start + i * 2) rows)
  unfolding sum_rows row_lengths total
  sum_rows-total start i zero isum = omega arith
  sum_rows-total start i (suc rows) isum =
      let word = p (start + i * 2) * 256 + p (start + i * 2 + 1) in
      let here : start + suc i * 2 ≡ start + i * 2 + 2 = omega arith in
      let rest : sum_rows p start (suc i) rows (isum + word)
          ≡ isum + word + total (row_lengths R p (start + i * 2 + 2) rows) =
        rw (← here) (sum_rows-total start (suc i) rows (isum + word)) in
      let read : R.unsigned 2 (shift (start + i * 2) p) ≡ word =
        simp unary_clauses (simp unary_clauses at (big.two (shift (start + i * 2) p))) in
      omega (arith, rest, read)

  -- The number of points of a reduced grid (the points along a parallel are 65535) is the sum of
  -- the row lengths that the section lists. The list starts at the octet that octet 5 names, past
  -- the vertical coordinates of four octets each.
  pub nxny-reduced :
      IsGridOfPoints p
      → nx R p ≡ value 65535
      → 1 ≤ p 4
      → p 4 < 255
      → nxny R p ≡ value (total (row_lengths R p (p 3 * 4 + p 4 - 1) (lat_lon_ny R p)))
  unfolding nxny nx switch_type is_representation not_available ◌-ℤ◌
  nxny-reduced h hx lo hi = ground (arith, sum_rows-total (p 3 * 4 + p 4 - 1) 0 (lat_lon_ny R p) 0)

  -- For a regular grid the number of points comes out as 0, whatever the two dimensions are.
  pub nxny-regular :
      (n m : ℕ) → nx R p ≡ value n → ny R p ≡ value m → n ≢ 65535 → nxny R p ≡ value 0
  unfolding nxny nx ny switch_type is_representation not_available
  nxny-regular n m hx hy h = ground arith

-- The list of row lengths starts where the vertical coordinates of four octets each end, if there
-- are vertical coordinates and such a list.
pub get_pl-after :
    (p : Buffer)
    → 1 ≤ p 3
    → 1 ≤ p 4
    → p 4 < 255
    → IsBytes p
    → get_pl p ≡ get_pv p + 4 * get_number_vertical_coord_values p
unfolding get_pl get_pv get_number_vertical_coord_values ◌-ℤ◌
get_pl-after p h lo hi b = ground (arith, b 3, b 4)
