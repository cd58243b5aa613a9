-- ===== src/Output/Rows.antt =====
-- The rows of a text file: write_txt_file of src/proc/extract/write.cpp. A column is what is left of a
-- series behind its index in `rows`. What is written where is a list of events: the opening of a file,
-- with its headers, and a row. The answers of the stop token are an argument, by the number of the row;
-- `header` says whether the headers can be made, with the names of all parameters.
use mashroom.Common.{
  ℕ, zero, suc, ◌||◌, Bool, true, false, Option, none, some, List, [], ◌∷◌, ◌++◌, length, ltb, leb,
  ◌==◌, if◌then◌else◌,
}
use mashroom.Output.{
  ExtractedValue, ExtractedValues, ErrorCode, interrupted, internal_error, opened, stays_closed,
  refused, Disk, make_and_open_file, Sort, time_max, sort_all, std_min,
}

abbrev pub Columns : Type 0 → Type 0
Columns V = List (List (ExtractedValue V))

-- The cells of a row; `none` is NaN.
pub record Row (V : Type 0) : Type 0 where
  pub time : ℕ
  pub cells : List (Option V)

-- Rows that are put_line to a stream that is closed are `lost`.
pub data TxtEvent (V : Type 0) : Type 0 where
  open_file : ℕ → TxtEvent V
  put_line lost : Row V → TxtEvent V

-- What has been written, and an exception that has ended it.
pub record TxtResult (V : Type 0) : Type 0 where
  pub events : List (TxtEvent V)
  pub exception : Option ErrorCode

-- How a round ends: by an exception, or with the state of the stream and the end of its period. Both
-- keep what the round has written.
pub data RowRound (V : Type 0) : Type 0 where
  ends : List (TxtEvent V) → ErrorCode → RowRound V
  goes_on : List (TxtEvent V) → Bool → ℕ → RowRound V

module _ {V : Type 0} where
  -- `get_columns` is empty; the series with values are pushed.
  unfoldable pub columns : {K : Type 0} → ExtractedValues K V → Columns V
  columns [] = []
  columns ((k, []) ∷ s) = columns s
  columns ((k, v ∷ vs) ∷ s) = (v ∷ vs) ∷ columns s

  unfoldable pub max_length : Columns V → ℕ
  max_length [] = 0
  max_length (c ∷ cs) = let rest = max_length cs in if ltb rest (length c) then length c else rest

  -- The least of the times that come next, `utc_tp::max()` if there is none.
  unfoldable pub current_time : Columns V → ℕ
  current_time [] = time_max
  current_time ([] ∷ cs) = current_time cs
  current_time ((v ∷ vs) ∷ cs) = std_min v.time_date (current_time cs)

  unfoldable pub cell : ℕ → List (ExtractedValue V) → Option V
  cell t [] = none
  cell t (v ∷ vs) = if v.time_date == t then some v.value else none

  -- `++rows[col]` where the value is printed.
  unfoldable pub advance : ℕ → List (ExtractedValue V) → List (ExtractedValue V)
  advance t [] = []
  advance t (v ∷ vs) = if v.time_date == t then vs else v ∷ vs

  unfoldable pub row_cells : ℕ → Columns V → List (Option V)
  row_cells t [] = []
  row_cells t (c ∷ cs) = cell t c ∷ row_cells t cs

  unfoldable pub advance_all : ℕ → Columns V → Columns V
  advance_all t [] = []
  advance_all t (c ∷ cs) = advance t c ∷ advance_all t cs

  abbrev pub push_events : List (TxtEvent V) → TxtResult V → TxtResult V
  push_events es r = record r { events = es ++ r.events }

  module _ (disk : Disk) (next : ℕ → ℕ) (header : Bool) (stop : ℕ → Bool) where
    -- A new file, with its headers and its first row.
    unfoldable pub open_next : Row V → RowRound V
    open_next r = elim (make_and_open_file disk r.time) [
      | refused e ↦ ends [] e
      | stays_closed ↦
          if header then goes_on (lost r ∷ []) false (next r.time) else ends [] internal_error
      | opened ↦
          if header
          then goes_on (open_file r.time ∷ put_line r ∷ []) true (next r.time)
          else ends (open_file r.time ∷ []) internal_error
    ]

    -- The round of the row number `row`; `is_open` is the state of the stream, `file_end` the end of the
    -- period of its file.
    unfoldable pub write_row : ℕ → Bool → ℕ → Row V → RowRound V
    write_row row is_open file_end r =
        if stop row
        then ends [] interrupted
        else if leb file_end r.time || row == 0
        then open_next r
        else goes_on ((if is_open then put_line r else lost r) ∷ []) is_open file_end

    -- `left` rows from the row `row` on.
    unfoldable pub write_rows : ℕ → ℕ → Bool → ℕ → Columns V → TxtResult V
    write_rows zero row is_open file_end cs = record { events = []; exception = none }
    write_rows (suc left) row is_open file_end cs =
        let t = current_time cs in
        elim (write_row row is_open file_end (record { time = t; cells = row_cells t cs })) [
          | ends es e ↦ record { events = es; exception = some e }
          | goes_on es is_open' file_end' ↦
              push_events es (write_rows left (suc row) is_open' file_end' (advance_all t cs))
        ]

    unfoldable pub write_txt_file : {K : Type 0} → Sort V → ExtractedValues K V → TxtResult V
    write_txt_file sort result =
        let cs = columns (sort_all sort result) in
        write_rows (max_length cs) 0 false (next (current_time cs)) cs
