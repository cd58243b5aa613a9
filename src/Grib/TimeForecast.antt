-- ===== src/Grib/TimeForecast.antt =====
-- The class `TimeForecast` of API/grib1/include/sections/product/time_forecast.h and .cpp. The
-- assignment operators copy all fields, which is what a record does; the hash and the binary
-- serialization call libraries that are not in the repository.
pub mod Kinds
pub mod Json
use mashroom.Common.{
  ℕ, ◌≡◌, Bool, true, false, not, ◌&&◌, ◌||◌, Option, none, some, ltb, ◌==◌, if◌then◌else◌,
}
use Prim.Native.String.{String}
use mashroom.Grib.TimeFrame
use mashroom.Grib.TimeRange.{
  TimeRangeIndicator, code, uninit_ref_time, init_ref_time, range_ref_time, avg_range_ref_time,
  accum_range_ref_time, diff_range_ref_time, avg_range_m_p1_m_p2, avg_range_m_p1_p_p2,
  p1_double_octets, climat_mean_value_avg, avg_n_forecast_period_p1_refs_p2,
  accum_n_forecast_period_p1_refs_p2, avg_n_forecast_first_period_p1_interval_p2,
  accum_n_forecast_first_period_p1_interval_p2, avg_n_forecast_first_period_p1_interval_reduced_p2,
  temp_var_covar_n_refs_at_p2, std_dev_first_period_p1_interval_p2, avg_n_uninit_interval_p2,
  accum_n_uninit_interval_p2, std_dev_n_forecast_period_p1_interval_p2, missing, unlisted,
}

pub record TimeForecast : Type 0 where
  pub n : ℕ  -- uint16_t N_
  pub n_missed : ℕ  -- uint8_t N_avg_acc_missed_
  pub p1 : ℕ  -- uint8_t
  pub p2 : ℕ  -- uint8_t
  pub tf : ℕ  -- TimeFrame
  pub tri : TimeRangeIndicator

-- The constructor: `N_` starts as `uint16_t(-1)`.
abbrev pub time_forecast : ℕ → TimeRangeIndicator → ℕ → ℕ → TimeForecast
time_forecast tf tri p1 p2 = record {
  n = 65535;
  n_missed = 0;
  p1 = p1;
  p2 = p2;
  tf = tf;
  tri = tri;
}

-- The format of a period; `none` is the failed assertion of the default case.
unfoldable pub time_frame_to_fmt : TimeForecast → Option String
time_frame_to_fmt f =
    if f.tf == TimeFrame.normal
    then some "%d 30Y"
    else if f.tf == TimeFrame.century
    then some "%d 100Y"
    else if f.tf == TimeFrame.day
    then some "%d D"
    else if f.tf == TimeFrame.decade
    then some "%d 10Y"
    else if f.tf == TimeFrame.half_hour
    then some "%d 30min"
    else if f.tf == TimeFrame.hour
    then some "%d h"
    else if f.tf == TimeFrame.hours_12
    then some "%d 12h"
    else if f.tf == TimeFrame.hours_3
    then some "%d 3h"
    else if f.tf == TimeFrame.hours_6
    then some "%d 6h"
    else if f.tf == TimeFrame.minute
    then some "%d min"
    else if f.tf == TimeFrame.month
    then some "%d M"
    else if f.tf == TimeFrame.quarter_hour
    then some "%d 15min"
    else if f.tf == TimeFrame.second
    then some "%d s"
    else if f.tf == TimeFrame.year
    then some "%d Y"
    else if f.tf == TimeFrame.indifferent
    then some ""
    else none

-- The `switch` of `is_forecast`, with `P1` and `P2`.
abbrev forecast_kind : TimeRangeIndicator → ℕ → ℕ → Bool
forecast_kind uninit_ref_time p1 p2 = ltb 0 p1
forecast_kind range_ref_time p1 p2 = ltb p1 p2
forecast_kind avg_range_m_p1_m_p2 p1 p2 = ltb p1 p2
forecast_kind avg_range_m_p1_p_p2 p1 p2 = ltb p1 p2
forecast_kind avg_range_ref_time p1 p2 = ltb p1 p2
forecast_kind diff_range_ref_time p1 p2 = ltb p1 p2
forecast_kind accum_range_ref_time p1 p2 = ltb p1 p2
forecast_kind accum_n_forecast_first_period_p1_interval_p2 p1 p2 = true
forecast_kind accum_n_forecast_period_p1_refs_p2 p1 p2 = true
forecast_kind avg_n_forecast_period_p1_refs_p2 p1 p2 = true
forecast_kind avg_n_forecast_first_period_p1_interval_p2 p1 p2 = true
forecast_kind avg_n_forecast_first_period_p1_interval_reduced_p2 p1 p2 = true
forecast_kind std_dev_n_forecast_period_p1_interval_p2 p1 p2 = true
forecast_kind std_dev_first_period_p1_interval_p2 p1 p2 = true
forecast_kind temp_var_covar_n_refs_at_p2 p1 p2 = true
forecast_kind _ p1 p2 = false

unfoldable pub is_forecast : TimeForecast → Bool
is_forecast f = forecast_kind f.tri f.p1 f.p2

abbrev analysis_kind : TimeRangeIndicator → ℕ → Bool
analysis_kind uninit_ref_time p1 = p1 == 0
analysis_kind init_ref_time p1 = p1 == 0
analysis_kind avg_n_forecast_period_p1_refs_p2 p1 = p1 == 0
analysis_kind accum_n_forecast_period_p1_refs_p2 p1 = p1 == 0
analysis_kind _ p1 = false

unfoldable pub is_analysis : TimeForecast → Bool
is_analysis f = analysis_kind f.tri f.p1

abbrev range_kind : TimeRangeIndicator → Bool
range_kind range_ref_time = true
range_kind avg_range_m_p1_m_p2 = true
range_kind avg_range_m_p1_p_p2 = true
range_kind avg_range_ref_time = true
range_kind diff_range_ref_time = true
range_kind accum_range_ref_time = true
range_kind _ = false

unfoldable pub is_range : TimeForecast → Bool
is_range f = range_kind f.tri

unfoldable pub intervaled_kind : TimeRangeIndicator → Bool
intervaled_kind avg_n_uninit_interval_p2 = true
intervaled_kind accum_n_uninit_interval_p2 = true
intervaled_kind std_dev_first_period_p1_interval_p2 = true
intervaled_kind std_dev_n_forecast_period_p1_interval_p2 = true
intervaled_kind avg_n_forecast_first_period_p1_interval_p2 = true
intervaled_kind accum_n_forecast_first_period_p1_interval_p2 = true
intervaled_kind avg_n_forecast_first_period_p1_interval_reduced_p2 = true
intervaled_kind _ = false

unfoldable pub is_intervaled : TimeForecast → Bool
is_intervaled f = intervaled_kind f.tri

-- `tri_ == P1_DOUBLE_OCTETS`
unfoldable pub doubled_kind : TimeRangeIndicator → Bool
doubled_kind tri = code tri == 10

unfoldable pub octet_doubled : TimeForecast → Bool
octet_doubled f = doubled_kind f.tri

unfoldable pub is_missed : TimeForecast → Bool
is_missed f = code f.tri == 255

unfoldable pub unique_kind : TimeRangeIndicator → Bool
unique_kind tri = (code tri == 0) || (code tri == 1) || (code tri == 10)

unfoldable pub is_unique_value : TimeForecast → Bool
is_unique_value f = unique_kind f.tri
