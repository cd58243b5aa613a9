-- ===== src/Extraction.antt =====
-- Extraction at the positions that the catalogue gives for a file: the second `__extract__` of
-- src/proc/extract.cpp. The time of a value is left out. The answers of the stop token are an
-- argument, by the number of the question.
pub mod Positions
pub mod Points
pub mod Whole
pub mod Search
pub mod Finding
pub mod Agreement
use mashroom.Common.{
  ℕ, suc, ◌+◌, not, ◌&&◌, ◌||◌, ◌==◌, Bool, true, false, Option, none, some, List, [], ◌∷◌, ◌++◌,
  if◌then◌else◌,
}
use mashroom.Common.Int.{ℤ, pos, negsuc, ltb_ℤ}
use mashroom.Common.Table.{update}
use mashroom.Grib.Bytes.{Buffer, shift, ByteReader}
use mashroom.Grib.Product.{section1_flags}
use mashroom.Grib.Message.{
  HGrib1, Message, message_length, next_message, set_message, msg_info, pointer,
}
use mashroom.Grib.Values.{
  Decoding, Extracted, value, outside, get_data_flag, bit_per_value, ref_val, extract_value,
}
use mashroom.Grib.Grid.{Coord, GridInfo, monostate, lat_lon, other_grid}
use mashroom.Grib.Grid.Reading.{GridOps, define_grid, value_by_raw}
use mashroom.Catalogue.{CommonDataProperties, commons, common_of}

-- `done` is NONE.
pub data ErrorCode : Type 0 where
  done interrupted : ErrorCode

-- `extract_value` of an int. Below 0, the reads before the values are `outside`.
unfoldable pub extract_int :
    (D : Decoding) → Buffer → Buffer → Buffer → ℤ → Extracted (Decoding.Float D)
extract_int D p1 p3 p4 (pos n) = extract_value D p1 p3 p4 n
extract_int D p1 p3 p4 (negsuc n) =
    let flags = get_data_flag p4 in
    if flags.complex_pack || flags.spherical_harm_coefs
    then value (Decoding.undefined D)
    else if bit_per_value p4 == 0
    then value (ref_val D p1 p4)
    else outside

-- A section that is not there is not read.
abbrev pub or_null : Option Buffer → Buffer
or_null none = λ i. 0
or_null (some p) = p

-- The values by the common properties of their messages.
abbrev pub Extract : Type 0 → Type 0
Extract F = List (CommonDataProperties × List (Extracted F))

abbrev pub emplace_back :
    {F : Type 0} → Extracted F → Option (List (Extracted F)) → List (Extracted F)
emplace_back v none = v ∷ []
emplace_back v (some vs) = vs ++ v ∷ []

abbrev pub has_grid : {F : Type 0} → GridInfo F → Bool
has_grid monostate = false
has_grid (lat_lon g) = true
has_grid (other_grid t) = true

-- The grid of section 2, none if that is not there.
unfoldable pub grid_of : ByteReader → (O : GridOps) → Buffer → Message → GridInfo O.order.Float
grid_of R O f m = elim (pointer f m.section_2) [ none ↦ monostate | some p ↦ define_grid R O p ]

module _ (R : ByteReader) (O : GridOps) (D : Decoding) (f : Buffer)
    (place : Coord O.order.Float) where
  unfoldable pub value_at : Message → Extracted D.Float
  value_at m =
      extract_int D (shift m.section_1 f) (or_null (pointer f m.section_3)) (shift m.section_4 f)
        (value_by_raw O place (grid_of R O f m))

  unfoldable pub add_value : Message → Extract D.Float → Extract D.Float
  add_value m r =
      if has_grid (grid_of R O f m)
      then update commons (common_of (msg_info R f m.section_0 m)) (emplace_back (value_at m)) r
      else r

  module _ (stop : ℕ → Bool) where
    -- The rounds for the positions from the handle `h` on, after `k` questions to the stop token.
    -- `none` is an exception without a message, or a use of the message after `next_message` has
    -- replaced it.
    unfoldable pub extract :
        List ℤ → ℕ → HGrib1 → Extract D.Float → Option (ErrorCode × Extract D.Float)
    extract [] k h r = some (done, r)
    extract (q ∷ qs) k h r =
        let rest = extract qs in
        let set = set_message R f q h in
        if ltb_ℤ q (pos 0) || not set.0 then rest k h r else elim (set.1.msg) [
          | none ↦ none
          | some m ↦
              if (message_length R f m.section_0 == 0) && (next_message R f set.1).0
              then none
              else if stop k
              then some (interrupted, r)
              else rest (suc k) set.1 (add_value m r)
        ]
