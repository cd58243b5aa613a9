-- ===== src/Grib/TimeRange.antt =====
-- API/grib1/include/code_tables/table_5.h: the time range indicator. A byte that is no code of the
-- table can be cast to the enumeration too, and is `unlisted`.
use mashroom.Common.{ℕ, ◌==◌, if◌then◌else◌}

pub data TimeRangeIndicator : Type 0 where
  uninit_ref_time init_ref_time range_ref_time avg_range_ref_time : TimeRangeIndicator
  accum_range_ref_time diff_range_ref_time avg_range_m_p1_m_p2 : TimeRangeIndicator
  avg_range_m_p1_p_p2 p1_double_octets climat_mean_value_avg : TimeRangeIndicator
  avg_n_forecast_period_p1_refs_p2 accum_n_forecast_period_p1_refs_p2 : TimeRangeIndicator
  avg_n_forecast_first_period_p1_interval_p2 : TimeRangeIndicator
  accum_n_forecast_first_period_p1_interval_p2 : TimeRangeIndicator
  avg_n_forecast_first_period_p1_interval_reduced_p2 : TimeRangeIndicator
  temp_var_covar_n_refs_at_p2 std_dev_first_period_p1_interval_p2 : TimeRangeIndicator
  avg_n_uninit_interval_p2 accum_n_uninit_interval_p2 : TimeRangeIndicator
  std_dev_n_forecast_period_p1_interval_p2 missing : TimeRangeIndicator
  unlisted : ℕ → TimeRangeIndicator

-- `static_cast<TimeRangeIndicator>` of a byte.
unfoldable pub of_code : ℕ → TimeRangeIndicator
of_code c =
    if c == 0
    then uninit_ref_time
    else if c == 1
    then init_ref_time
    else if c == 2
    then range_ref_time
    else if c == 3
    then avg_range_ref_time
    else if c == 4
    then accum_range_ref_time
    else if c == 5
    then diff_range_ref_time
    else if c == 6
    then avg_range_m_p1_m_p2
    else if c == 7
    then avg_range_m_p1_p_p2
    else if c == 10
    then p1_double_octets
    else if c == 51
    then climat_mean_value_avg
    else if c == 113
    then avg_n_forecast_period_p1_refs_p2
    else if c == 114
    then accum_n_forecast_period_p1_refs_p2
    else if c == 115
    then avg_n_forecast_first_period_p1_interval_p2
    else if c == 116
    then accum_n_forecast_first_period_p1_interval_p2
    else if c == 117
    then avg_n_forecast_first_period_p1_interval_reduced_p2
    else if c == 118
    then temp_var_covar_n_refs_at_p2
    else if c == 119
    then std_dev_first_period_p1_interval_p2
    else if c == 123
    then avg_n_uninit_interval_p2
    else if c == 124
    then accum_n_uninit_interval_p2
    else if c == 125
    then std_dev_n_forecast_period_p1_interval_p2
    else if c == 255
    then missing
    else unlisted c

-- The value of an enumerator.
unfoldable pub code : TimeRangeIndicator → ℕ
code uninit_ref_time = 0
code init_ref_time = 1
code range_ref_time = 2
code avg_range_ref_time = 3
code accum_range_ref_time = 4
code diff_range_ref_time = 5
code avg_range_m_p1_m_p2 = 6
code avg_range_m_p1_p_p2 = 7
code p1_double_octets = 10
code climat_mean_value_avg = 51
code avg_n_forecast_period_p1_refs_p2 = 113
code accum_n_forecast_period_p1_refs_p2 = 114
code avg_n_forecast_first_period_p1_interval_p2 = 115
code accum_n_forecast_first_period_p1_interval_p2 = 116
code avg_n_forecast_first_period_p1_interval_reduced_p2 = 117
code temp_var_covar_n_refs_at_p2 = 118
code std_dev_first_period_p1_interval_p2 = 119
code avg_n_uninit_interval_p2 = 123
code accum_n_uninit_interval_p2 = 124
code std_dev_n_forecast_period_p1_interval_p2 = 125
code missing = 255
code (unlisted c) = c
