-- ===== src/Output/Header.antt =====
-- The forecast and the level of a series in the header of a text file: the end of `get_file_header` of
-- src/proc/extract/write.cpp, and `get_additional_data_properties` of src/proc/extract/read.cpp with the
-- two forms of `get_txt_structure` that it calls. What is written as the bounds or the height of a level
-- is not read: it is the parameter `print`.
use Prim.Native.String.{String}
use mashroom.Common.{
  ℕ, ◌+◌, ◌*◌, ◌/◌, ◌%◌, true, false, Option, none, some, List, [], ◌∷◌, ◌++◌, if◌then◌else◌,
}
use mashroom.Index.Names.{bytes}
use mashroom.Grib.TimeRange.{code, of_code}
use mashroom.Grib.TimeForecast.{
  TimeForecast, time_forecast, is_intervaled, octet_doubled, is_unique_value,
}
use mashroom.Grib.Level.{
  Level, level, FloatOps, LevelValue, Answer, ok, logic_error, fault, is_bounded, get_top_bound,
  get_bottom_bound, get_level_height,
}
use mashroom.Output.Tokens.{
  Line, Reader, outside, ◌>>=◌, ◌>>◌, pure, show, write_parameter, get_number, skip_line,
}

abbrev pub numbered : ℕ → String → ℕ → Line
numbered indent token n = write_parameter indent (bytes token) (show n)

unfoldable pub write_averages : TimeForecast → List Line
write_averages f =
    if is_intervaled f
    then numbered 1 "N avg/acc" f.n ∷ numbered 1 "N missed" f.n_missed ∷ []
    else []

unfoldable pub write_octets : TimeForecast → List Line
write_octets f =
    if octet_doubled f
    then numbered 1 "P1" (f.p1 * 256 + f.p2) ∷ []
    else if is_unique_value f
    then numbered 1 "P1" f.p1 ∷ []
    else numbered 1 "P1" f.p1 ∷ numbered 1 "P2" f.p2 ∷ []

-- The structure of a forecast, from the line of its name on.
unfoldable pub write_forecast : TimeForecast → List Line
write_forecast f =
    write_parameter 0 (bytes "forecast data") []
    ∷ numbered 1 "time frame" f.tf
    ∷ numbered 1 "time range indicator" (code f.tri)
    ∷ (write_averages f ++ write_octets f)

-- `set_N` and `set_N_missed`.
unfoldable pub read_averages : TimeForecast → Reader TimeForecast
read_averages f =
    let counted = do
      n ← get_number 65535 (bytes "N avg/acc")
      m ← get_number 255 (bytes "N missed")
      pure (record f { n = n; n_missed = m })
    in if is_intervaled f then counted else pure f

-- A doubled octet is put_line to `P1` twice, and to `P2` never.
unfoldable pub read_doubled : TimeForecast → Reader TimeForecast
read_doubled f = do
  t ← get_number 65535 (bytes "P1")
  pure (record (record f { p1 = t / 256 % 128 }) { p1 = t % 128 })

unfoldable pub read_single : TimeForecast → Reader TimeForecast
read_single f = do p ← get_number 255 (bytes "P1"); pure (record f { p1 = p })

unfoldable pub read_pair : TimeForecast → Reader TimeForecast
read_pair f = do
  p ← get_number 255 (bytes "P1")
  q ← get_number 255 (bytes "P2")
  pure (record f { p1 = p; p2 = q })

unfoldable pub read_periods : TimeForecast → Reader TimeForecast
read_periods f =
    if octet_doubled f
    then read_doubled f
    else if is_unique_value f
    then read_single f
    else read_pair f

-- The default constructor leaves the time frame and the range without a value; both are then set.
unfoldable pub read_forecast : Reader TimeForecast
read_forecast = do
  skip_line
  tf ← get_number 255 (bytes "time frame")
  tri ← get_number 4294967295 (bytes "time range indicator")
  f ← read_averages (time_forecast tf (of_code tri) 0 0)
  read_periods f

-- The bounds or the height are skipped. The tag 255 is behind the end of the table.
unfoldable pub read_bounds : Level → Reader Level
read_bounds l = elim (is_bounded l) [
  | ok true ↦ do skip_line; skip_line; pure l
  | ok false ↦ do skip_line; pure l
  | logic_error ↦ λ ls. outside
  | fault ↦ λ ls. outside
]

unfoldable pub read_level : Reader Level
read_level = do
  skip_line
  tag ← get_number 255 (bytes "tag")
  o11 ← get_number 255 (bytes "o11")
  o12 ← get_number 255 (bytes "o12")
  read_bounds (level tag o11 o12)

-- `get_additional_data_properties`
unfoldable pub read_additional : Reader (TimeForecast × Level)
read_additional = do f ← read_forecast; l ← read_level; pure (f, l)

module _ (O : FloatOps) (print : LevelValue O.Float → Line) where
  abbrev pub value_line : String → Answer (LevelValue O.Float) → List Line
  value_line token (ok v) = write_parameter 1 (bytes token) (print v) ∷ []
  value_line token logic_error = []
  value_line token fault = []

  -- The bounds or the height; `none` is a tag behind the end of the table.
  unfoldable pub write_bounds : Level → Option (List Line)
  write_bounds l = elim (is_bounded l) [
    | ok true ↦ some (
        value_line "top bound" (get_top_bound O l)
        ++ value_line "bottom bound" (get_bottom_bound O l))
    | ok false ↦ some (value_line "height" (get_level_height O l))
    | logic_error ↦ none
    | fault ↦ none
  ]

  -- The structure of a level, from the line of its name on.
  unfoldable pub write_level : Level → Option (List Line)
  write_level l = elim (write_bounds l) [
    | none ↦ none
    | some ls ↦ some (
        write_parameter 0 (bytes "level") []
        ∷ numbered 1 "tag" l.level_type
        ∷ numbered 1 "o11" l.octet_11
        ∷ numbered 1 "o12" l.octet_12
        ∷ ls)
  ]

  unfoldable pub write_additional : TimeForecast → Level → Option (List Line)
  write_additional f l = elim (write_level l) [
    | none ↦ none
    | some ls ↦ some (write_forecast f ++ ls)
  ]
