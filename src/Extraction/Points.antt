-- ===== src/Extraction/Points.antt =====
-- The value that `extract` reads for a node of a grid of latitudes and longitudes.
use mashroom.Common.{ℕ, ◌+◌, ◌*◌, ◌/◌, ◌%◌, ◌<◌, ◌≡◌, refl, ap, ◌∙◌, arith, true, false}
use mashroom.Common.Int.{pos}
use mashroom.Grib.Bytes.{Buffer, shift, ByteReader, IsBytes}
use mashroom.Grib.Product.{section1_flags}
use mashroom.Grib.Message.{Message, pointer}
use mashroom.Grib.Values.{Decoding, value, bit_per_value, ref_val, scale}
use mashroom.Grib.Values.Packing.{extract_value-words}
use mashroom.Grib.Grid.{GridBase, Coord, lat_lon}
use mashroom.Grib.Grid.Reading.{GridOps, value_by_raw, raw}
use mashroom.Extraction.{extract_int, grid_of, value_at, or_null}

-- Floats hold the whole numbers below 2 ^ 24.
pub record IsExactInt (O : GridOps) : Type 0 where
  pub add_int :
      (a b : ℕ)
      → a + b < 16777216
      → O.add (O.of_int (pos a)) (O.of_int (pos b)) ≡ O.of_int (pos (a + b))
  pub to_int_of : (a : ℕ) → a < 16777216 → O.to_int (O.of_int (pos a)) ≡ pos a

-- The place is the node in column `i` and row `j`, both counted from 0, of a grid from west to east
-- and from north to south, and the quotients of floats that say so are exact.
pub record IsNode (O : GridOps) (g : GridBase O.order.Float) (p : Coord O.order.Float) (i j : ℕ)
    : Type 0 where
  pub eastward : O.order.lt g.x2 g.x1 ≡ false
  pub southward : O.order.lt g.y2 g.y1 ≡ true
  pub column : O.div (O.sub p.lon g.x1) g.dx ≡ O.of_int (pos i)
  pub row : O.div (O.mul (O.of_int (pos g.nx)) (O.sub g.y1 p.lat)) g.dy ≡ O.of_int (pos (g.nx * j))

value_by_raw-node :
    (O : GridOps) (exact : IsExactInt O) (g : GridBase O.order.Float) (p : Coord O.order.Float)
    (i j : ℕ)
    → O.is_correct_pos p ≡ true
    → IsNode O g p i j
    → i + 1 + g.nx * j < 16777216
    → value_by_raw O p (lat_lon g) ≡ pos (i + 1 + g.nx * j)
unfolding value_by_raw raw
value_by_raw-node O exact g p i j correct node small = ground (
  arith,
  correct,
  node.eastward,
  node.southward,
  node.column,
  node.row,
  exact.add_int i 1,
  exact.add_int (i + 1) (g.nx * j),
  exact.to_int_of (i + 1 + g.nx * j),
)

module _ (R : ByteReader) (O : GridOps) (D : Decoding) (f : Buffer)
    (place : Coord O.order.Float) where
  -- In a message with a grid of latitudes and longitudes from west to east and from north to south,
  -- without a bitmap and with simple packing in 16 bits, the value for the node in column `i` and
  -- row `j` is the reference value plus the scaled word `i + nx * j`, counted from 0 behind octet
  -- 11, if that is below 2 ^ 24 - 1.
  pub value_at-node :
      (m : Message) (g : GridBase O.order.Float) (i j : ℕ)
      → IsExactInt O
      → IsBytes f
      → grid_of R O f m ≡ lat_lon g
      → O.is_correct_pos place ≡ true
      → IsNode O g place i j
      → i + 1 + g.nx * j < 16777216
      → let p1 = shift m.section_1 f in
        let p4 = shift m.section_4 f in
        p4 3 / 64 % 2 ≡ 0
        → bit_per_value p4 ≡ 16
        → (section1_flags p1).sec3_inc ≡ false
        → let at = 11 + 2 * (i + g.nx * j) in
          value_at R O D f place m
          ≡ value (
              D.add
                (ref_val D p1 p4)
                (D.mul (scale D p1 p4) (D.of_bits (p4 at * 256 + p4 (at + 1)))))
  unfolding value_at extract_int
  value_at-node m g i j exact bytes grid correct node small simple wide plain =
      let p1 = shift m.section_1 f in
      let p3 = or_null (pointer f m.section_3) in
      let p4 = shift m.section_4 f in
      let n = i + 1 + g.nx * j in
      let first : 9 + 2 * n ≡ 11 + 2 * (i + g.nx * j) = omega arith in
      let second : 10 + 2 * n ≡ 11 + 2 * (i + g.nx * j) + 1 = omega arith in
      ap (λ grid. extract_int D p1 p3 p4 (value_by_raw O place grid)) grid
      ∙ ap (extract_int D p1 p3 p4) (value_by_raw-node O exact g place i j correct node small)
      ∙ extract_value-words D p1 p3 p4 n (λ k. bytes (m.section_4 + k)) simple wide plain
          (omega arith)
      ∙ ap (λ word. value (D.add (ref_val D p1 p4) (D.mul (scale D p1 p4) (D.of_bits word))))
          (rw (first, second) refl)
