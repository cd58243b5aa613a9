-- ===== src/Extraction/Search.antt =====
-- The extraction of a file from its start to its end, with the conditions of a search: the first
-- `__extract__` of src/proc/extract.cpp, behind the opening of the file, and SearchProperties of
-- API/grib1/include/properties.h. A time is the number of its clock ticks, and the calendar of the
-- C++ library, by which `reference_time` of sections/section_1.h counts them, is the parameter `ticks`.
use mashroom.Common.{
  ℕ, zero, suc, not, ◌&&◌, ◌||◌, ◌==◌, Bool, true, false, Option, none, some, List, [], ◌∷◌,
  if◌then◌else◌,
}
use mashroom.Common.Int.{ℤ, ltb_ℤ}
use mashroom.Grib.Bytes.{Buffer, shift, ByteReader}
use mashroom.Grib.TimeForecast.{TimeForecast}
use mashroom.Grib.Product.{year, center, table_version, parameter_number, forecast}
use mashroom.Grib.Message.{HGrib1, Message, message_length, next_message}
use mashroom.Grib.Values.{Decoding}
use mashroom.Grib.Grid.{Coord, GridInfo, monostate, lat_lon, other_grid, pos_in_grid}
use mashroom.Grib.Grid.Reading.{GridOps}
use mashroom.Catalogue.{same_forecast}
use mashroom.Extraction.{Extract, grid_of, has_grid, add_value}

-- SearchParamTableVersion: a parameter, and the version of its table.
abbrev pub SearchParameter : Type 0
SearchParameter = ℕ × ℕ

-- The level of a search is not used here.
pub record SearchProperties (F : Type 0) : Type 0 where
  pub parameters : List SearchParameter
  pub from_date : ℤ
  pub to_date : ℤ
  pub position : Option (Coord F)
  pub grid_type : Option ℕ
  pub center : Option ℕ
  pub fcst_unit : Option TimeForecast

-- Year, month, day, hour and minute.
abbrev pub Ticks : Type 0
Ticks = ℕ → ℕ → ℕ → ℕ → ℕ → ℤ

unfoldable pub reference_time : Ticks → Buffer → ℤ
reference_time ticks p = ticks (year p) (p 13) (p 14) (p 15) (p 16)

-- `parameters_.contains(...)`
abbrev pub in_parameters : ℕ → ℕ → List SearchParameter → Bool
in_parameters parameter version [] = false
in_parameters parameter version ((a, v) ∷ ps) =
    let rest = in_parameters parameter version ps in ((a == parameter) && (v == version)) || rest

abbrev pub has_parameters : List SearchParameter → Bool
has_parameters [] = false
has_parameters (p ∷ ps) = true

-- `type` of the class of a kind, which is that of its base: the rotated and stretched kinds give the
-- kind that they modify, and the oblique Lambert grid the kind of the Lambert grid.
unfoldable pub base_type : ℕ → ℕ
base_type t =
    if (t == 10) || (t == 20) || (t == 30)
    then 0
    else if (t == 14) || (t == 24) || (t == 34)
    then 4
    else if t == 13
    then 3
    else if (t == 60) || (t == 70) || (t == 80)
    then 50
    else t

-- `GridInfo::type`
abbrev pub grid_type_of : {F : Type 0} → GridInfo F → ℕ
grid_type_of monostate = 255
grid_type_of (lat_lon g) = base_type 0
grid_type_of (other_grid t) = base_type t

-- The three conditions that come first: the center, the parameters and the forecast.
unfoldable pub is_product_of : {F : Type 0} → ByteReader → SearchProperties F → Buffer → Bool
is_product_of R s p =
    not (elim s.center [ none ↦ false | some c ↦ not (center p == c) ])
    && not (
        has_parameters s.parameters
        && not (in_parameters (parameter_number p) (table_version p) s.parameters))
    && not (elim s.fcst_unit [ none ↦ false | some t ↦ not (same_forecast (forecast R p) t) ])

-- What a search returns, or how it fails to: by an exception, or by a use of the message after
-- `next_message` has replaced it.
pub data Searched (F : Type 0) : Type 0 where
  returned not_found : Extract F → Searched F
  bad_optional_access dangling : Searched F

-- `pos_in_grid` of API/grib1/src/sections/grid/grid.cpp: a call on a constant grid, for which only
-- that of latitudes and longitudes has the member.
unfoldable pub pos_in_grid_info :
    (O : GridOps) → Coord O.order.Float → GridInfo O.order.Float → Bool
pos_in_grid_info O place monostate = false
pos_in_grid_info O place (lat_lon g) = pos_in_grid O.order g place
pos_in_grid_info O place (other_grid t) = false

module _ (R : ByteReader) (O : GridOps) (D : Decoding) (f : Buffer) (ticks : Ticks) where
  abbrev pub Search : Type 0
  Search = SearchProperties O.order.Float

  -- The value is taken if there is a grid, and then the position is asked for.
  unfoldable pub keep : Search → Message → Extract D.Float → Option (Extract D.Float)
  keep s m r =
      if has_grid (grid_of R O f m)
      then elim s.position [ none ↦ none | some place ↦ some (add_value R O D f place m r) ]
      else some r

  -- The conditions that are only asked for with a kind of grid: the kind, the time and the position.
  unfoldable pub keep_on_grid : Search → ℕ → Message → Extract D.Float → Option (Extract D.Float)
  keep_on_grid s t m r =
      let grid = grid_of R O f m in
      let date = reference_time ticks (shift m.section_1 f) in
      if not (has_grid grid)
      then some r
      else if not (t == grid_type_of grid)
      then some r
      else if ltb_ℤ s.to_date date || ltb_ℤ date s.from_date
      then some r
      else elim s.position [
        | none ↦ none
        | some place ↦ if not (pos_in_grid_info O place grid) then some r else keep s m r
      ]

  -- What is done with a message; `none` is the exception of a position that is not there.
  unfoldable pub visit : Search → Message → Extract D.Float → Option (Extract D.Float)
  visit s m r =
      if not (is_product_of R s (shift m.section_1 f))
      then some r
      else elim s.grid_type [ none ↦ keep s m r | some t ↦ keep_on_grid s t m r ]

  module _ (stop : ℕ → Bool) where
    -- The rounds of `do ... while (next_message())`, with fuel; `none` is a loop that is out of it.
    unfoldable pub search : ℕ → Search → ℕ → HGrib1 → Extract D.Float → Option (Searched D.Float)
    search zero s k h r = none
    search (suc fuel) s k h r =
        let rest = search fuel in
        let next = next_message R f h in
        elim h.msg [
          | none ↦ some (not_found r)
          | some m ↦
              if (message_length R f m.section_0 == 0) && next.0
              then some dangling
              else if stop k
              then some (returned r)
              else elim (visit s m r) [
                | none ↦ some bad_optional_access
                | some after ↦ if next.0 then rest s (suc k) next.1 after else some (returned after)
              ]
        ]
