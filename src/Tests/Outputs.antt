-- ===== src/Tests/Outputs.antt =====
-- Files of small extractions.
use mashroom.Common.{
  ℕ, ◌+◌, ◌≡◌, refl, arith, ◌&&◌, true, false, none, some, List, [], ◌∷◌, ◌++◌, map, leb, get_elem?,
  if◌then◌else◌,
}
use mashroom.Common.Int.{ℤ}
use mashroom.Grib.TimeRange.{of_code, code, uninit_ref_time}
use mashroom.Grib.TimeForecast.{TimeForecast, time_forecast}
use mashroom.Grib.Level.{Level, level, FloatOps, LevelValue}
use mashroom.Output.{
  ExtractedValue, ExtractedValues, Disk, returned_paths, make_and_open_file, sort_all, bounds,
  write_json_file, write_bin_file,
}
use mashroom.Output.Periods.{IsPeriods, periods_at, starting, last_end}
use mashroom.Output.Coverage.{exact_file, strip_end, write_json_file-covers, write_bin_file-json}
use mashroom.Output.Rows.{
  columns, current_time, cell, advance, row_cells, advance_all, max_length, open_next, write_row,
  write_rows, write_txt_file,
}
use mashroom.Output.Columns.{column_of}
use mashroom.Output.Filed.{before, rows_of, IsFiled}
use mashroom.Output.Complete.{write_txt_file-prefix, write_txt_file_complete}
use mashroom.Output.Tokens.{Line, got}
use mashroom.Output.Header.{write_additional, read_additional}
use mashroom.Output.Reading.{IsStored, kept, read_additional-write_additional}
use mashroom.Tests.Sorting.{insert, insertion_sort, insertion_sort-IsSorted}

abbrev disk : Disk
disk = record {
  parent_exists = λ t. true;
  makes_parent = λ t. true;
  opens = λ t. true;
  is_denied = λ t. false;
  writes = λ t. true;
}

-- Periods of 10 ticks.
abbrev next : ℕ → ℕ
next t = t + 10

abbrev at : ℕ → ℕ → ExtractedValue ℕ
at t v = record { time_date = t; value = v }

abbrev two_series : ExtractedValues ℕ ℕ
two_series = (0, at 12 2 ∷ at 5 1 ∷ []) ∷ (1, at 8 3 ∷ []) ∷ []

write_json_file-covers_example :
    (ps : List (ℕ × ℕ)) × IsPeriods next 8 15 25 ps
    × (write_json_file disk next insertion_sort 6 two_series
        ≡ some
            (returned_paths (map (exact_file disk next insertion_sort two_series) ((5, 15) ∷ ps))))
    × ((t : ℕ)
        → periods_at t ((5, 15) ∷ ps)
          ≡ (if leb 5 t && leb t (last_end 15 ps) then 1 else 0) + starting t ps)
unfolding insertion_sort insert sort_all bounds make_and_open_file
write_json_file-covers_example =
    write_json_file-covers disk next insertion_sort 6 two_series insertion_sort-IsSorted
      (λ t. omega arith) (λ t. refl) (λ t. refl) (omega arith) (omega arith)

write_bin_file-json_example :
    write_bin_file disk next insertion_sort 6 two_series
    ≡ strip_end disk next insertion_sort (write_json_file disk next insertion_sort 6 two_series)
write_bin_file-json_example =
    write_bin_file-json disk next insertion_sort 6 two_series (omega arith)

write_txt_file-prefix_example :
    let es = (write_txt_file disk next true (λ k. false) insertion_sort two_series).events in
    IsFiled next before es
    × ((left : List (ExtractedValue ℕ)) × (column_of 1 (rows_of es) ++ left ≡ at 8 3 ∷ []))
unfolding insertion_sort insert sort_all columns make_and_open_file
write_txt_file-prefix_example =
    write_txt_file-prefix disk next insertion_sort true (λ k. false) two_series 1 (at 8 3 ∷ [])
      (λ t. refl) refl

-- Two series with the same two times.
abbrev aligned : ExtractedValues ℕ ℕ
aligned = (0, at 12 2 ∷ at 5 1 ∷ []) ∷ (1, at 5 3 ∷ at 12 4 ∷ []) ∷ []

write_txt_file_complete_example :
    let r = write_txt_file disk next true (λ k. false) insertion_sort aligned in
    (r.exception ≡ none)
    × IsFiled next before (r.events)
    × (map (λ x. x.time) (rows_of (r.events)) ≡ 5 ∷ 12 ∷ [])
    × ((j : ℕ) (c : List (ExtractedValue ℕ))
        → get_elem? ((at 5 1 ∷ at 12 2 ∷ []) ∷ (at 5 3 ∷ at 12 4 ∷ []) ∷ []) j ≡ some c
        → column_of j (rows_of (r.events)) ≡ c)
unfolding insertion_sort insert sort_all columns make_and_open_file
write_txt_file_complete_example =
    write_txt_file_complete disk next insertion_sort (λ k. false) aligned (5 ∷ 12 ∷ [])
      (at 5 1 ∷ at 12 2 ∷ []) ((at 5 3 ∷ at 12 4 ∷ []) ∷ []) (λ t. refl) (λ k. refl) refl
      (refl, (refl, tt)) (omega arith)

abbrev floats : FloatOps
floats = record {
  Float = ℤ;
  of_int = λ x. x;
  ratio = λ a b. ℤ.pos a;
  mul = λ a b. a;
  sub = λ a b. a;
}

-- 12 hours at 500 hPa.
abbrev twelve_hours : TimeForecast
twelve_hours = time_forecast 1 uninit_ref_time 12 0

abbrev isobaric : Level
isobaric = level 100 1 244

twelve_hours-IsStored : IsStored twelve_hours
unfolding of_code code
twelve_hours-IsStored = record {
  small_n = omega arith;
  small_n_missed = omega arith;
  small_p1 = omega arith;
  small_p2 = omega arith;
  small_tf = omega arith;
  small_tri = omega arith;
  read_tri = refl;
}

abbrev print : LevelValue ℤ → Line
print v = 55 ∷ []

read_additional-write_additional_example :
    (ws : List Line) × (write_additional floats print twelve_hours isobaric ≡ some ws)
    × (read_additional (ws ++ []) ≡ got (kept twelve_hours, isobaric) [])
read_additional-write_additional_example =
    read_additional-write_additional floats print twelve_hours isobaric [] twelve_hours-IsStored
      (record { small_type = omega arith; small_11 = omega arith; small_12 = omega arith })

-- Of two series with different times, the longer one has one value: one row is written, and the second
-- series is lost.
abbrev disjoint : ExtractedValues ℕ ℕ
disjoint = (0, at 5 1 ∷ []) ∷ (1, at 8 3 ∷ []) ∷ []

run_disjoint :
    let rs =
      rows_of ((write_txt_file disk next true (λ k. false) insertion_sort disjoint).events) in
    (column_of 0 rs ≡ at 5 1 ∷ []) × (column_of 1 rs ≡ [])
unfolding write_txt_file write_rows write_row open_next make_and_open_file max_length columns
    sort_all insertion_sort insert rows_of column_of current_time cell advance row_cells advance_all
run_disjoint = (refl, refl)
