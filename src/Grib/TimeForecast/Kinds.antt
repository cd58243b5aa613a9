-- ===== src/Grib/TimeForecast/Kinds.antt =====
-- How the predicates of a forecast relate.
use mashroom.Common.{◌<◌, ◌≡◌, ◌↔◌, ◌⊎◌, true, false, arith}
use mashroom.Grib.TimeRange.{
  code, avg_n_forecast_period_p1_refs_p2, accum_n_forecast_period_p1_refs_p2,
}
use mashroom.Grib.TimeForecast.{
  TimeForecast, is_forecast, is_analysis, is_range, is_intervaled, intervaled_kind, unique_kind,
  is_unique_value,
}

-- The two kinds for which a forecast period of 0 is an analysis, and which still count as forecasts.
abbrev pub IsMeanOfAnalyses : TimeForecast → Type 0
IsMeanOfAnalyses f =
    (f.p1 ≡ 0)
    × ((f.tri ≡ avg_n_forecast_period_p1_refs_p2) ⊎ (f.tri ≡ accum_n_forecast_period_p1_refs_p2))

-- A forecast is an analysis at the same time exactly if it is a mean or a sum of N products whose
-- forecast period is 0.
pub forecast_and_analysis :
    (f : TimeForecast) → ((is_forecast f ≡ true) × (is_analysis f ≡ true)) ↔ IsMeanOfAnalyses f
unfolding is_forecast is_analysis
forecast_and_analysis f = ground arith

-- A product over a range is neither an analysis nor intervaled nor of one time, and it is a
-- forecast exactly if its range is not empty.
pub range_kinds :
    (f : TimeForecast)
    → is_range f ≡ true
    → (is_analysis f ≡ false)
      × (is_intervaled f ≡ false)
      × (is_unique_value f ≡ false)
      × ((is_forecast f ≡ true) ↔ (f.p1 < f.p2))
unfolding is_forecast is_analysis is_range is_intervaled is_unique_value intervaled_kind unique_kind
    code
range_kinds f h = ground arith
