-- ===== src/Output/Columns.antt =====
-- What the rows of a text file hold of each series.
use mathlib.Core.List.{append_assoc}
use mashroom.Common.{
  ℕ, zero, suc, ◌≡◌, refl, ap, ◌∙◌, arith, Bool, Option, none, some, List, [], ◌∷◌, ◌++◌, get_elem?,
}
use mashroom.Output.{ExtractedValue, Disk}
use mashroom.Output.Rows.{
  Columns, Row, TxtEvent, open_file, put_line, lost, TxtResult, current_time, cell, advance,
  row_cells, advance_all, RowRound, ends, goes_on, push_events, open_next, write_row, write_rows,
}

module _ {V : Type 0} where
  -- The rows that the loop has come to, written or lost.
  unfoldable pub tried_rows : List (TxtEvent V) → List (Row V)
  tried_rows [] = []
  tried_rows (open_file t ∷ es) = tried_rows es
  tried_rows (put_line r ∷ es) = r ∷ tried_rows es
  tried_rows (lost r ∷ es) = r ∷ tried_rows es

  abbrev pub cell_values : ℕ → Option (Option V) → List (ExtractedValue V)
  cell_values t none = []
  cell_values t (some none) = []
  cell_values t (some (some v)) = record { time_date = t; value = v } ∷ []

  -- The values that the rows hold of the column `j`, with the times of the rows.
  unfoldable pub column_of : ℕ → List (Row V) → List (ExtractedValue V)
  column_of j [] = []
  column_of j (r ∷ rs) = cell_values r.time (get_elem? r.cells j) ++ column_of j rs

  pub get_elem?-row_cells :
      (t j : ℕ) (cs : Columns V) (c : List (ExtractedValue V))
      → get_elem? cs j ≡ some c
      → get_elem? (row_cells t cs) j ≡ some (cell t c)
  unfolding row_cells
  get_elem?-row_cells t j [] c e = cc
  get_elem?-row_cells t zero (d ∷ cs) c e = ground (arith, e)
  get_elem?-row_cells t (suc j) (d ∷ cs) c e = get_elem?-row_cells t j cs c e

  pub get_elem?-advance_all :
      (t j : ℕ) (cs : Columns V) (c : List (ExtractedValue V))
      → get_elem? cs j ≡ some c
      → get_elem? (advance_all t cs) j ≡ some (advance t c)
  unfolding advance_all
  get_elem?-advance_all t j [] c e = cc
  get_elem?-advance_all t zero (d ∷ cs) c e = ground (arith, e)
  get_elem?-advance_all t (suc j) (d ∷ cs) c e = get_elem?-advance_all t j cs c e

  pub cell-advance :
      (t : ℕ) (c : List (ExtractedValue V)) → cell_values t (some (cell t c)) ++ advance t c ≡ c
  unfolding cell advance
  cell-advance t [] = refl
  cell-advance t (v ∷ vs) = ground arith

  unfoldable pub first_rows : ℕ → Columns V → List (Row V)
  first_rows zero cs = []
  first_rows (suc n) cs =
      let t = current_time cs in
      record { time = t; cells = row_cells t cs } ∷ first_rows n (advance_all t cs)

  -- What rows hold of a column and what they leave of it.
  first_rows-prefix :
      (n j : ℕ) (cs : Columns V) (c : List (ExtractedValue V))
      → get_elem? cs j ≡ some c
      → (left : List (ExtractedValue V)) × (column_of j (first_rows n cs) ++ left ≡ c)
  unfolding first_rows column_of
  first_rows-prefix zero j cs c e = (c, refl)
  first_rows-prefix (suc n) j cs c e =
      let t = current_time cs in
      let (left, whole) =
        first_rows-prefix n j (advance_all t cs) (advance t c) (get_elem?-advance_all t j cs c e) in
      let here = cell_values t (some (cell t c)) in
      let later = column_of j (first_rows n (advance_all t cs)) in
      (
        left,
        rw (get_elem?-row_cells t j cs c e)
            (append_assoc here later left ∙ ap (λ l. here ++ l) whole ∙ cell-advance t c),
      )

  pub tried_rows-append :
      (es fs : List (TxtEvent V)) → tried_rows (es ++ fs) ≡ tried_rows es ++ tried_rows fs
  unfolding tried_rows
  tried_rows-append [] fs = refl
  tried_rows-append (open_file t ∷ es) fs = tried_rows-append es fs
  tried_rows-append (put_line r ∷ es) fs = ap (λ l. r ∷ l) (tried_rows-append es fs)
  tried_rows-append (lost r ∷ es) fs = ap (λ l. r ∷ l) (tried_rows-append es fs)

  abbrev pub round_rows : RowRound V → List (Row V)
  round_rows (ends es e) = tried_rows es
  round_rows (goes_on es is_open file_end) = tried_rows es

  -- A round that goes on writes its row.
  abbrev pub row_if_on : Row V → RowRound V → List (Row V)
  row_if_on r (ends es e) = []
  row_if_on r (goes_on es is_open file_end) = r ∷ []

  abbrev pub row_at : Columns V → Row V
  row_at cs = record { time = current_time cs; cells = row_cells (current_time cs) cs }

  tried_rows-round :
      (cs : Columns V) (k : Bool → ℕ → TxtResult V)
      → ((b : Bool) (e : ℕ)
          → (n : ℕ) × (tried_rows ((k b e).events)
              ≡ first_rows n (advance_all (current_time cs) cs)))
      → (x : RowRound V) → round_rows x ≡ row_if_on (row_at cs) x
      → let after : TxtResult V = elim x [
        | ends es e ↦ record { events = es; exception = some e }
        | goes_on es b e ↦ push_events es (k b e)
      ] in
        (n : ℕ) × (tried_rows (after.events) ≡ first_rows n cs)
  unfolding first_rows
  tried_rows-round cs k ih (ends es e) h = (0, h)
  tried_rows-round cs k ih (goes_on es b e) h =
      let (n, rows) = ih b e in (suc n, tried_rows-append es ((k b e).events) ∙ rw (h, rows) refl)

  module _ (disk : Disk) (next : ℕ → ℕ) (header : Bool) (stop : ℕ → Bool) where
    pub write_row-rows :
        (row : ℕ) (is_open : Bool) (file_end : ℕ) (r : Row V)
        → let x = write_row disk next header stop row is_open file_end r in
          round_rows x ≡ row_if_on r x
    unfolding write_row open_next tried_rows
    write_row-rows row is_open file_end r = ground arith

    -- However the loop ends, its rows are the first of those that the columns give.
    tried_rows-write_rows :
        (left row : ℕ) (is_open : Bool) (file_end : ℕ) (cs : Columns V)
        → (n : ℕ) × (tried_rows
              ((write_rows disk next header stop left row is_open file_end cs).events)
            ≡ first_rows n cs)
    unfolding write_rows tried_rows first_rows
    tried_rows-write_rows zero row is_open file_end cs = (0, refl)
    tried_rows-write_rows (suc left) row is_open file_end cs =
        tried_rows-round cs
          (λ b e.
            write_rows disk next header stop left (suc row) b e (advance_all (current_time cs) cs))
          (λ b e. tried_rows-write_rows left (suc row) b e (advance_all (current_time cs) cs))
          (write_row disk next header stop row is_open file_end (row_at cs))
          (write_row-rows row is_open file_end (row_at cs))

    pub write_rows-prefix :
        (left row j : ℕ) (is_open : Bool) (file_end : ℕ) (cs : Columns V)
        (c : List (ExtractedValue V))
        → get_elem? cs j ≡ some c
        → let rs =
            tried_rows ((write_rows disk next header stop left row is_open file_end cs).events) in
          (rest : List (ExtractedValue V)) × (column_of j rs ++ rest ≡ c)
    write_rows-prefix left row j is_open file_end cs c e =
        let (n, rows) = tried_rows-write_rows left row is_open file_end cs in
        let (rest, whole) = first_rows-prefix n j cs c e in (rest, rw rows whole)
