-- ===== src/Grib/PdsTimes.antt =====
-- `PDStimes` of API/grib1/src/sections/section_1.cpp, which prints what the time octets of
-- section 1 say, and the unit names of API/grib1/include/code_tables/table_4.h. A line that is
-- printed is the list of its pieces, texts and numbers.
pub mod Kinds
use Prim.Native.String.{String}
use mashroom.Common.{
  ℕ, ◌+◌, ◌*◌, not, ◌&&◌, ◌||◌, Option, none, some, List, [], ◌∷◌, ◌++◌, ltb, leb, ◌==◌,
  if◌then◌else◌,
}
use mashroom.Common.Int.{ℤ, pos, ◌-ℤ◌}
use mashroom.Grib.TimeFrame

pub data Piece : Type 0 where
  words : String → Piece
  number : ℤ → Piece

-- `units`, of 255 entries: the last is `SECOND`, and index 255 is out of bounds.
unfoldable pub units : ℕ → Option String
units i =
    if leb 255 i
    then none
    else if i == 0
    then some "min"
    else if i == 1
    then some "hr"
    else if i == 2
    then some "d"
    else if i == 3
    then some "mon"
    else if i == 4
    then some "yr"
    else if i == 5
    then some "decade"
    else if i == 6
    then some "normal"
    else if i == 7
    then some "century"
    else if i == 10
    then some " x3 hours"
    else if i == 11
    then some " x6 hours"
    else if i == 12
    then some " x12 hours"
    else if i == 13
    then some "x15 min"
    else if i == 14
    then some "x30 min"
    else if i == 254
    then some " sec"
    else some "??"

-- `p1`, `p2` and `time_unit` after the tests on 3, 6 and 12 hours and on half and quarter hours.
pub record Periods : Type 0 where
  pub p1 : ℕ
  pub p2 : ℕ
  pub time_unit : ℕ

unfoldable pub scaled_periods : ℕ → ℕ → ℕ → Periods
scaled_periods p1 p2 u =
    if u == TimeFrame.hours_3
    then record { p1 = p1 * 3; p2 = p2 * 3; time_unit = TimeFrame.hour }
    else if u == TimeFrame.hours_6
    then record { p1 = p1 * 6; p2 = p2 * 6; time_unit = TimeFrame.hour }
    else if u == TimeFrame.hours_12
    then record { p1 = p1 * 12; p2 = p2 * 12; time_unit = TimeFrame.hour }
    else if u == TimeFrame.half_hour
    then record { p1 = p1 * 30; p2 = p2 * 30; time_unit = TimeFrame.minute }
    else if u == TimeFrame.quarter_hour
    then record { p1 = p1 * 15; p2 = p2 * 15; time_unit = TimeFrame.minute }
    else record { p1 = p1; p2 = p2; time_unit = u }

-- `unit`: the test admits index 255. `none` is the read out of bounds.
unfoldable pub unit_name : ℕ → Option String
unit_name u = if leb u 255 then units u else some ""

-- `type`, with `fcst_len`.
pub data Kind : Type 0 where
  anal unknown : Kind
  fcst : ℕ → Kind

-- The first `switch`.
unfoldable pub kind : ℕ → ℕ → ℕ → Kind
kind tr p1 p2 =
    if (tr == 0) || (tr == 1) || (tr == 113) || (tr == 114) || (tr == 118)
    then if p1 == 0 then anal else fcst p1
    else if tr == 10
    then if p1 * 256 + p2 == 0 then anal else fcst (p1 * 256 + p2)
    else if tr == 51
    then unknown
    else if (tr == 123) || (tr == 124)
    then anal
    else if tr == 135
    then anal
    else unknown

unfoldable pub kind_text : Kind → String → List Piece
kind_text anal unit = words "anl:" ∷ []
kind_text unknown unit = []
kind_text (fcst n) unit = number (pos n) ∷ words unit ∷ words " fcst:" ∷ []

-- The start of the ranges 123 and 124.
unfoldable pub start_text : ℕ → ℕ → String → List Piece
start_text tr p1 unit =
    if ((tr == 123) || (tr == 124)) && not (p1 == 0)
    then words "start@" ∷ number (pos p1) ∷ words unit ∷ words ":" ∷ []
    else []

-- `%d-%d%s` and a text.
abbrev from_to : ℕ → ℕ → String → String → List Piece
from_to p1 p2 unit what =
    number (pos p1) ∷ words "-" ∷ number (pos p2) ∷ words unit ∷ words what ∷ []

-- A text, `%d%s` and a text.
abbrev one_period : String → ℕ → String → String → List Piece
one_period before p unit after = words before ∷ number (pos p) ∷ words unit ∷ words after ∷ []

-- `%d-%d%s`, a text, and the difference of the periods as `%d%s:`.
abbrev from_to_every : ℕ → ℕ → String → String → List Piece
from_to_every p1 p2 unit what =
    number (pos p1)
    ∷ words "-"
    ∷ number (pos p2)
    ∷ words unit
    ∷ words what
    ∷ number (pos p2 -ℤ pos p1)
    ∷ words unit
    ∷ words ":"
    ∷ []

-- The second `switch`.
pub range_text : ℕ → ℕ → ℕ → String → List Piece
range_text tr p1 p2 unit =
    if (tr == 0) || (tr == 1) || (tr == 10)
    then []
    else if tr == 2
    then words "valid " ∷ from_to p1 p2 unit ":"
    else if tr == 3
    then from_to p1 p2 unit " ave:"
    else if tr == 4
    then from_to p1 p2 unit " acc:"
    else if tr == 5
    then from_to p1 p2 unit " diff:"
    else if tr == 6
    then words "-"
      ∷ number (pos p1)
      ∷ words " to -"
      ∷ number (pos p2)
      ∷ words " "
      ∷ words unit
      ∷ words " ave:"
      ∷ []
    else if tr == 7
    then words "-"
      ∷ number (pos p1)
      ∷ words " to "
      ∷ number (pos p2)
      ∷ words " "
      ∷ words unit
      ∷ words " ave:"
      ∷ []
    else if tr == 11
    then if ltb 0 p1 then one_period "init fcst " p1 unit ":" else words "time?:" ∷ []
    else if tr == 13
    then one_period "nudge ana " p1 unit ":"
    else if tr == 14
    then one_period "rel. fcst " p1 unit ":"
    else if tr == 51
    then (if p1 == 0
        then one_period "0-" p2 unit " product:ave@1yr:"
        else if p1 == 1
        then one_period "0-" p2 unit " product:same-hour,ave@1yr:"
        else words "clim? p1=" ∷ number (pos p1) ∷ one_period "? " p2 unit "?:")
    else if (tr == 113) || (tr == 123)
    then one_period "ave@" p2 unit ":"
    else if (tr == 114) || (tr == 124)
    then one_period "acc@" p2 unit ":"
    else if tr == 115
    then words "ave of fcst:" ∷ number (pos p1) ∷ one_period " to " p2 unit ":"
    else if tr == 116
    then words "acc of fcst:" ∷ number (pos p1) ∷ one_period " to " p2 unit ":"
    else if tr == 118
    then one_period "var@" p2 unit ":"
    else if tr == 128
    then from_to p1 p2 unit " fcst acc:ave@24hr:"
    else if tr == 129
    then from_to_every p1 p2 unit " fcst acc:ave@"
    else if tr == 130
    then from_to p1 p2 unit " fcst ave:ave@24hr:"
    else if tr == 131
    then from_to_every p1 p2 unit " fcst ave:ave@"
    else if tr == 132
    then from_to p1 p2 unit " anl:ave@1yr:"
    else if tr == 133
    then from_to p1 p2 unit " fcst:ave@1yr:"
    else if tr == 134
    then from_to p1 p2 unit " fcst-anl:rms@1yr:"
    else if tr == 135
    then from_to p1 p2 unit " fcst-fcst_mean:rms@1yr:"
    else if tr == 136
    then from_to p1 p2 unit " anl-anl_mean:rms@1yr:"
    else if tr == 137
    then from_to p1 p2 unit " fcst acc:ave@6hr:"
    else if tr == 138
    then from_to p1 p2 unit " fcst ave:ave@6hr:"
    else if tr == 139
    then from_to p1 p2 unit " fcst acc:ave@12hr:"
    else if tr == 140
    then from_to p1 p2 unit " fcst ave:ave@12hr:"
    else words "time?:" ∷ []

-- Everything that is printed, once the unit has a name.
abbrev print_all : ℕ → Periods → Option String → Option (List Piece)
print_all tr s none = none
print_all tr s (some unit) =
    some (
      kind_text (kind tr s.p1 s.p2) unit ++ start_text tr s.p1 unit ++ range_text tr s.p1 s.p2 unit)

-- The whole function. The name that the unit has before the scaling is read too, and replaced by
-- the one that it has after it.
abbrev scaled_then : ℕ → Periods → Option String → Option (List Piece)
scaled_then tr s none = none
scaled_then tr s (some _) = print_all tr s (unit_name s.time_unit)

unfoldable pub pds_times : ℕ → ℕ → ℕ → ℕ → Option (List Piece)
unfolding range_text
pds_times tr p1 p2 u = scaled_then tr (scaled_periods p1 p2 u) (unit_name u)
