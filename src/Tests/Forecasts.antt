-- ===== src/Tests/Forecasts.antt =====
-- Forecasts, levels and printed times.
use Prim.Native.String.{String}
use text.Mathlib.Text.{◌==◌ as str_eq}
use mashroom.Common.{ℕ, ◌≡◌, refl, arith, Option, none, some, [], ◌∷◌, if◌then◌else◌}
use mashroom.Common.Int.{pos}
use mashroom.Grib.TimeFrame
use mashroom.Grib.TimeRange.{TimeRangeIndicator, code, range_ref_time}
use mashroom.Grib.TimeForecast.{
  TimeForecast, time_forecast, is_intervaled, is_unique_value, intervaled_kind, octet_doubled,
  doubled_kind, unique_kind,
}
use mashroom.Grib.TimeForecast.Json.{
  JsonLib, IsJsonLib, to_json, from_json, reread, IsInRange, from_json-to_json,
}
use mashroom.Grib.PdsTimes.{
  words, number, units, unit_name, kind, kind_text, start_text, scaled_periods, pds_times,
}

-- A range from 6 to 12 hours.
abbrev range : TimeForecast
range = time_forecast TimeFrame.hour range_ref_time 6 12

-- JSON values as trees.
mutual
  data Json : Type 0 where
    natural : ℕ → Json
    frame : ℕ → Json
    indicator : TimeRangeIndicator → Json
    object : Members → Json

  data Members : Type 0 where
    no_members : Members
    member : String → Json → Members → Members

abbrev at : String → Members → Option Json
at k no_members = none
at k (member j v o) = if str_eq j k then some v else at k o

abbrev as_object : Json → Option Members
as_object (object o) = some o
as_object (natural n) = none
as_object (frame n) = none
as_object (indicator t) = none

abbrev as_number : Json → Option ℕ
as_number (natural n) = some n
as_number (frame n) = none
as_number (indicator t) = none
as_number (object o) = none

abbrev as_frame : Json → Option ℕ
as_frame (frame n) = some n
as_frame (natural n) = none
as_frame (indicator t) = none
as_frame (object o) = none

abbrev as_indicator : Json → Option TimeRangeIndicator
as_indicator (indicator t) = some t
as_indicator (natural n) = none
as_indicator (frame n) = none
as_indicator (object o) = none

abbrev trees : JsonLib
trees = record {
  Value = Json;
  Object = Members;
  empty = no_members;
  put = member;
  at = at;
  of_object = object;
  as_object = as_object;
  of_number = natural;
  to_uint8 = as_number;
  to_uint16 = as_number;
  of_time_frame = frame;
  to_time_frame = as_frame;
  of_time_range = indicator;
  to_time_range = as_indicator;
}

trees-IsJsonLib : IsJsonLib trees
trees-IsJsonLib = record {
  as_of_object = λ o. refl;
  at_put = λ k j v o. refl;
  uint8 = λ n h. refl;
  uint16 = λ n h. refl;
  time_frame = λ n h. refl;
  time_range = λ t. refl;
}

range-IsInRange : IsInRange range
range-IsInRange = record {
  n_in = omega arith;
  n_missed_in = omega arith;
  p1_in = omega arith;
  p2_in = omega arith;
  tf_in = omega arith;
}

from_json-to_json_example : from_json trees (to_json trees range) ≡ some (reread range)
from_json-to_json_example = from_json-to_json trees trees-IsJsonLib range range-IsInRange

-- The range from 6 to 12 hours comes back as one from 6 to 6.
run_reread : reread range ≡ time_forecast TimeFrame.hour range_ref_time 6 6
unfolding is_intervaled is_unique_value intervaled_kind octet_doubled doubled_kind code unique_kind
run_reread = refl

run_times :
    (pds_times 0 2 0 TimeFrame.hours_6 ≡ some (number (pos 12) ∷ words "hr" ∷ words " fcst:" ∷ []))
    × (pds_times 3 0 12 TimeFrame.hour
        ≡ some (number (pos 0) ∷ words "-" ∷ number (pos 12) ∷ words "hr" ∷ words " ave:" ∷ []))
unfolding pds_times unit_name units scaled_periods kind_text kind start_text
run_times = (refl, refl)
