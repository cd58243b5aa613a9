-- ===== src/Tests/Extractions.antt =====
-- From the bytes of a file to the values of a point.
use mashroom.Common.{
  ℕ, ◌+◌, ◌*◌, ◌%◌, ◌≡◌, refl, inr, arith, true, false, not, some, List, [], ◌∷◌, ◌++◌, map, ◌==◌,
}
use mashroom.Common.Int.{ℤ, pos, negsuc, ltb_ℤ, eq_ℤ, ◌+ℤ◌, ◌-ℤ◌, tdiv, pos_part}
use mashroom.Common.Table.{Equality, IsEquality}
use mashroom.Grib.Bytes.{Buffer, IsBytes, of_bytes, shift}
use mashroom.Grib.Product.{section1_flags, section_length}
use mashroom.Grib.Message.{
  Message, Code, none_err, msg_info, read_message, message_length, length_at, MsgInfo, process_file,
}
use mashroom.Grib.Message.Walk.{info_at, handle}
use mashroom.Grib.Values.{bit_per_value, value, ref_val, scale}
use mashroom.Grib.GridSection.{representation_type, is_representation}
use mashroom.Grib.Grid.{Coord}
use mashroom.Grib.Grid.Reading.{GridOps, grid_base, increment, define_grid}
use mashroom.Catalogue.{CommonDataProperties, common_of, accepted, add_data, empty, file_path}
use mashroom.Catalogue.Rounds.{in_file}
use mashroom.Extraction.{Extract, done, extract, grid_of, value_at}
use mashroom.Extraction.Positions.{values_of, values_at, extract-values, code_before}
use mashroom.Extraction.Points.{IsExactInt, value_at-node}
use mashroom.Extraction.Whole.{with_grid, extract-indexed}
use mashroom.Tests.Inputs.{reader, reader-IsBigEndian}
use mashroom.Tests.Values.{product, whole}

-- Two rows of three points, from 60 to 40 and from 10 to 30, and a value of 16 bits for each.
abbrev pub grid_message : List ℕ
grid_message =
    71 ∷ 82 ∷ 73 ∷ 66 ∷ 0 ∷ 0 ∷ 96 ∷ 1 ∷ []
    ++ 0 ∷ 0 ∷ 28 ∷ 3 ∷ 7 ∷ 80 ∷ 255 ∷ 128 ∷ 11 ∷ 100 ∷ 1 ∷ 244 ∷ 24 ∷ 2 ∷ 28 ∷ 18 ∷ 0 ∷ 1 ∷ 12 ∷ 0
      ∷ 0 ∷ 0 ∷ 0 ∷ 0 ∷ 21 ∷ 0 ∷ 0 ∷ 0 ∷ []
    ++ 0 ∷ 0 ∷ 32 ∷ 0 ∷ 255 ∷ 0 ∷ 0 ∷ 3 ∷ 0 ∷ 2 ∷ 0 ∷ 0 ∷ 60 ∷ 0 ∷ 0 ∷ 10 ∷ 128 ∷ 0 ∷ 0 ∷ 40 ∷ 0 ∷ 0
      ∷ 30 ∷ 0 ∷ 10 ∷ 0 ∷ 20 ∷ 0 ∷ 0 ∷ 0 ∷ 0 ∷ 0 ∷ []
    ++ 0 ∷ 0 ∷ 24 ∷ 0 ∷ 0 ∷ 0 ∷ 64 ∷ 0 ∷ 0 ∷ 0 ∷ 16 ∷ 0 ∷ 1 ∷ 0 ∷ 2 ∷ 0 ∷ 3 ∷ 0 ∷ 4 ∷ 0 ∷ 5 ∷ 0 ∷ 6
      ∷ 0 ∷ []
    ++ 55 ∷ 55 ∷ 55 ∷ 55 ∷ []

abbrev pub file : Buffer
file = of_bytes (grid_message ++ grid_message)

-- Thousandths of degrees in place of floats.
abbrev pub millis : GridOps
millis = record {
  order = record { Float = ℤ; lt = ltb_ℤ; ne = λ a b. not (eq_ℤ a b) };
  of_int = λ v. v;
  thousandth = λ v. v;
  add = λ a b. a +ℤ b;
  sub = λ a b. a -ℤ b;
  mul = product;
  div = λ a b. tdiv a (pos_part b);
  to_int = λ v. v;
  int2 = λ a b. pos (a * 256 + b);
  int3 = λ a b c. pos (a * 65536 + b * 256 + c);
  is_correct_pos = λ p. true;
  undefined = negsuc 0;
}

abbrev pub place : Coord ℤ
place = record { lat = pos 40; lon = pos 20 }

abbrev numbers : Equality ℕ
numbers = record { same = λ a b. a == b }

numbers-IsEquality : IsEquality numbers
numbers-IsEquality = record {
  same_refl = λ a. ground arith;
  same_sym = λ a b. ground arith;
  same_trans = λ a b c e. ground arith;
}

abbrev properties : CommonDataProperties
properties = common_of (info_at reader file 0)

extract-values_example :
    (after : Extract ℤ) × (extract reader millis whole file place
        (λ k. k == 1)
        (pos 96 ∷ pos 0 ∷ [])
        0
        (handle reader file 192 0)
        []
      ≡ some (code_before (0 ∷ []), after))
    × ((c : CommonDataProperties)
        → values_of c after
          ≡ values_of c [] ++ values_at reader millis whole file place c (96 ∷ []))
unfolding message_length
extract-values_example =
    extract-values reader millis whole file place (λ k. k == 1) (96 ∷ []) (0 ∷ []) 0
      (handle reader file 192 0) [] (omega arith)
      (omega arith, omega arith, (omega arith, omega arith, tt)) (λ i h. ground arith) (inr refl)

abbrev always : ℕ → Code
always p = none_err

extract-indexed_example :
    let h = handle reader file 192 0 in
    (infos : List MsgInfo) × (process_file reader file 2 h ≡ some infos)
    × (let d = add_data {T = ℕ} numbers always "a.grib" 5 (map (with_grid (λ p. p)) infos) empty in
        let kept = in_file (file_path "a.grib" 5) d.positions in
        (after : Extract ℤ) × (extract reader millis whole file place
            (λ k. false)
            (map pos kept)
            0
            h
            []
          ≡ some (done, after))
        × ((c : CommonDataProperties)
            → values_of c after ≡ values_at reader millis whole file place c (0 ∷ 96 ∷ [])))
unfolding accepted msg_info section1_flags read_message length_at message_length section_length
extract-indexed_example =
    extract-indexed reader millis whole place ℕ numbers numbers-IsEquality always reader-IsBigEndian
      grid_message (grid_message ∷ []) ((omega arith, refl), ((omega arith, refl), tt))
      ((omega arith, refl), ((omega arith, refl), tt)) (omega arith) (λ p. p) (refl, (refl, tt))
      "a.grib" 5

-- The same bytes, with zeros above.
abbrev bytes : Buffer
bytes i = file i % 256

bytes-IsBytes : IsBytes bytes
bytes-IsBytes i = omega arith

abbrev message : Message
message = read_message reader bytes 0

millis-IsExactInt : IsExactInt millis
unfolding ◌+ℤ◌
millis-IsExactInt = record { add_int = λ a b h. ground arith; to_int_of = λ a h. refl }

-- The second point of the second row.
value_at-node_example :
    let p1 = shift message.section_1 bytes in
    let p4 = shift message.section_4 bytes in
    value_at reader millis whole bytes place message
    ≡ value (ref_val whole p1 p4 +ℤ product (scale whole p1 p4) (pos 5))
unfolding read_message length_at message_length section_length section1_flags grid_of define_grid
    representation_type is_representation bit_per_value grid_base increment ◌-ℤ◌ tdiv
value_at-node_example =
    value_at-node reader millis whole bytes place message (grid_base reader millis (shift 36 bytes))
      1 1 millis-IsExactInt bytes-IsBytes refl refl
      (record { eastward = refl; southward = refl; column = refl; row = refl }) (omega arith) refl
      refl refl
