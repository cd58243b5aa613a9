-- ===== src/Integrity.antt =====
-- The test of the data for gaps: src/proc/integrity.cpp. A file that opens is walked through, and what
-- is kept of the messages that the conditions of the search let through is collected. The entries of a
-- directory are arguments.
pub mod Agreement
pub mod Files
pub mod Report
use Prim.Native.String.{String}
use text.Mathlib.Text.{◌==◌ as str_eq}
use mashroom.Common.{
  ℕ, zero, suc, not, ◌&&◌, ◌||◌, ◌==◌, Bool, true, false, Option, none, some, List, [], ◌∷◌, ◌++◌,
  map, if◌then◌else◌,
}
use mashroom.Common.Int.{ltb_ℤ}
use mashroom.Grib.Bytes.{Buffer, shift, ByteReader}
use mashroom.Grib.Message.{
  HGrib1, Message, Code, none_err, has_section_2, Host, msg_info, next_message, open_grib,
}
use mashroom.Grib.Grid.{GridInfo}
use mashroom.Grib.Grid.Reading.{GridOps}
use mashroom.Catalogue.{GribMsgDataInfo, is_none_err}
use mashroom.Extraction.{grid_of, has_grid, or_null}
use mashroom.Extraction.Search.{
  Ticks, SearchProperties, reference_time, is_product_of, grid_type_of, pos_in_grid_info,
}

-- A directory entry: `is_regular_file` and the extension of its path.
pub record Entry : Type 0 where
  pub path : String
  pub is_regular_file : Bool
  pub extension : String

unfoldable pub is_grib_file : Entry → Bool
is_grib_file e = e.is_regular_file && (str_eq e.extension ".grib" || str_eq e.extension ".grb")

module _ (R : ByteReader) (O : GridOps) (ticks : Ticks) where
  abbrev pub Props : Type 0
  Props = SearchProperties O.order.Float

  abbrev pub Info : Type 0
  Info = GribMsgDataInfo (GridInfo O.order.Float)

  -- `file_errors_` and `data_`.
  pub record Collected : Type 0 where
    pub file_errors : List (String × Code)
    pub data_ : List (String × Info)

  module _ (f : Buffer) where
    -- No constructor takes the nine arguments of the call, which lack `err_`: the member has its
    -- default, NONE_ERR. The message has a section 2.
    unfoldable pub data_info : ℕ → Message → Info
    data_info position m = record {
      msg = record (msg_info R f position m) { err = some none_err };
      grid_data = grid_of R O f m;
    }

    -- Whether no condition skips the message.
    unfoldable pub is_kept : Props → Message → Bool
    is_kept s m =
        let grid = grid_of R O f m in
        let date = reference_time ticks (shift m.section_1 f) in
        is_product_of R s (shift m.section_1 f)
        && elim s.grid_type [
          | none ↦ true
          | some t ↦ not (not (has_grid grid) || not (t == grid_type_of grid))
        ]
        && elim s.position [
          | none ↦ true
          | some place ↦ has_grid grid && pos_in_grid_info O place grid
        ]
        && not (ltb_ℤ s.to_date date || ltb_ℤ date s.from_date)

    -- One round, without `next_message`; `none` is the read of `define_grid` through a null pointer, for
    -- a message without section 2.
    unfoldable pub collect : Props → ℕ → Option Message → List Info → Option (List Info)
    collect s position none ds = some ds
    collect s position (some m) ds =
        if not (has_section_2 R f m)
        then none
        else some (if is_kept s m then ds ++ data_info position m ∷ [] else ds)

    -- The rounds of `do ... while (next_message())`, with fuel; `none` is a loop that is out of it, or
    -- a read through a null pointer.
    unfoldable pub walk : ℕ → Props → HGrib1 → List Info → Option (List Info)
    walk zero s h ds = none
    walk (suc fuel) s h ds =
        let rest = walk fuel s in
        let next = next_message R f h in
        elim (collect s h.current h.msg ds) [
          | none ↦ none
          | some after ↦ if next.0 then rest next.1 after else some after
        ]

  abbrev pub add_error : String → Code → Collected → Collected
  add_error path err c = record c { file_errors = c.file_errors ++ (path, err) ∷ [] }

  abbrev pub add_infos : String → List Info → Collected → Collected
  add_infos path ds c = record c { data_ = c.data_ ++ map (λ d. (path, d)) ds }

  -- One round of `__process_core__`. `none` is a walk that is out of fuel, a read before the file at
  -- its opening, or one through a null pointer.
  unfoldable pub visit_entry : Host → ℕ → Props → Entry → Collected → Option Collected
  visit_entry host fuel s e c =
      let opened = open_grib R host e.path in
      let found = walk (or_null (host.mmap e.path)) fuel s opened.1 [] in
      if not (is_grib_file e) then some c else elim opened.0 [
        | none ↦ none
        | some err ↦
            if not (is_none_err err)
            then some (add_error e.path err c)
            else elim found [ none ↦ none | some ds ↦ some (add_infos e.path ds c) ]
      ]

  unfoldable pub process_core : Host → ℕ → Props → List Entry → Collected → Option Collected
  process_core host fuel s [] c = some c
  process_core host fuel s (e ∷ es) c =
      let rest = process_core host fuel s es in
      elim (visit_entry host fuel s e c) [ none ↦ none | some c' ↦ rest c' ]
