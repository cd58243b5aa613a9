-- ===== src/Tests/Catalogues.antt =====
-- A catalogue of two files.
use mashroom.Common.{ℕ, ◌≡◌, refl, arith, Option, none, some, List, [], ◌∷◌, ◌==◌, if◌then◌else◌}
use mashroom.Common.Table.{Equality, IsEquality, IsTable, lookup, update}
use mashroom.Grib.TimeForecast.{time_forecast}
use mashroom.Grib.TimeRange.{init_ref_time, code}
use mashroom.Grib.Level.{level}
use mashroom.Grib.Message.{Code, none_err, len_unconsist_x1}
use mashroom.Catalogue.{
  GribMsgDataInfo, DataStruct, StoredPath, file_path, paths, same_path, CommonDataProperties,
  commons, forecasts, levels, same_common, same_forecast, same_level, accepted, add_message,
  add_messages, add_data, add_position, merged, merge, empty, has_index, has_paths,
}
use mashroom.Catalogue.Rounds.{in_file, entry, picked}
use mashroom.Catalogue.Indexing.{add_data-positions}
use mashroom.Catalogue.Merging.{or_else, Overrides, IsIndex, IsUnique, merge-Overrides}
use mashroom.Catalogue.Closed.{IsClosed, add_data-IsClosed, merge-IsClosed}

abbrev numbers : Equality ℕ
numbers = record { same = λ a b. a == b }

numbers-IsEquality : IsEquality numbers
numbers-IsEquality = record {
  same_refl = λ a. ground arith;
  same_sym = λ a b. ground arith;
  same_trans = λ a b c e. ground arith;
}

abbrev always : ℕ → Code
always p = none_err

-- A temperature at 500 hPa, kept from that position.
abbrev sample : ℕ → Option Code → GribMsgDataInfo ℕ
sample p err = record {
  msg = record {
    position = p;
    length = 52;
    parameter = 11;
    time = time_forecast 1 init_ref_time 0 0;
    centre = 7;
    version = 3;
    height = level 100 1 244;
    err = err;
  };
  grid_data = 0;
}

-- The second message is not as long as its sections.
abbrev messages : List (GribMsgDataInfo ℕ)
messages = sample 0 none ∷ sample 52 (some len_unconsist_x1) ∷ sample 104 none ∷ []

abbrev temperature : CommonDataProperties
temperature = record { center = some 7; table_version = some 3; parameter = some 11 }

abbrev once : DataStruct ℕ ℕ
once = add_data numbers always "a.grib" 5 messages empty

run_positions : in_file (file_path "a.grib" 9) once.positions ≡ 0 ∷ 104 ∷ []
unfolding add_data add_messages add_message accepted empty lookup update same_path
run_positions = refl

run_entry : entry commons temperature (file_path "a.grib" 9) once.by_common ≡ 0 ∷ 104 ∷ []
unfolding add_data add_messages add_message accepted empty lookup update same_path same_common entry
    add_position
run_entry = refl

add_data-positions_example :
    in_file (file_path "a.grib" 9) (add_data numbers always "a.grib" 5 messages once).positions ≡ (
      if same_path (file_path "a.grib" 5) (file_path "a.grib" 9)
      then picked (accepted always) messages
      else in_file (file_path "a.grib" 9) once.positions)
add_data-positions_example =
    add_data-positions numbers always "a.grib" 5 messages once (file_path "a.grib" 9)

empty-IsClosed : IsClosed {G = ℕ} {T = ℕ} empty
unfolding empty has_paths has_index
empty-IsClosed = refl

once-IsClosed : IsClosed once
once-IsClosed = add_data-IsClosed numbers always "a.grib" 5 messages empty empty-IsClosed

abbrev other : DataStruct ℕ ℕ
other = add_data numbers always "b.grib" 6 (sample 7 none ∷ []) once

merge-IsClosed_example :
    (merge numbers numbers once other ≡ some (merged numbers numbers once other))
    × (IsClosed other → IsClosed (merged numbers numbers once other))
merge-IsClosed_example =
    merge-IsClosed numbers numbers once other
      (add_data-IsClosed numbers always "a.grib" 5 messages empty empty-IsClosed)

once-IsUnique : IsUnique numbers numbers once
unfolding add_data add_messages add_message accepted empty lookup update same_path same_common
    same_forecast same_level add_position IsTable IsIndex code
once-IsUnique = record {
  of_positions = (refl, tt);
  of_common = (refl, (refl, tt), tt);
  of_date = tt;
  of_grid = (refl, (refl, tt), tt);
  of_forecast = (refl, (refl, tt), tt);
  of_level = (refl, (refl, tt), tt);
}

merge-Overrides_example :
    let r = merged numbers numbers once other in
    ((g : StoredPath)
      → lookup paths g r.positions
        ≡ or_else (lookup paths g once.positions) (lookup paths g other.positions))
    × Overrides commons once.by_common other.by_common r.by_common
    × Overrides numbers once.by_date other.by_date r.by_date
    × Overrides numbers once.by_grid other.by_grid r.by_grid
    × Overrides forecasts once.by_forecast other.by_forecast r.by_forecast
    × Overrides levels once.by_level other.by_level r.by_level
merge-Overrides_example =
    merge-Overrides numbers numbers once other (merged numbers numbers once other)
      numbers-IsEquality numbers-IsEquality once-IsUnique
      (merge-IsClosed numbers numbers once other once-IsClosed).0
