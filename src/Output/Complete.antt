-- ===== src/Output/Complete.antt =====
-- Which series a text file holds as a whole.
use mashroom.Common.{
  ℕ, zero, suc, ◌≤◌, ◌≡◌, refl, ap, sym, subst, ◌∙◌, arith, Bool, true, false, none, some, List, [],
  ◌∷◌, ◌++◌, map, length, get_elem?,
}
use mashroom.Output.{
  ExtractedValue, ExtractedValues, Sort, Disk, opened, make_and_open_file, sort_all, time_max,
}
use mashroom.Output.Rows.{
  Columns, Row, TxtResult, RowRound, ends, goes_on, push_events, columns, max_length, current_time,
  advance, row_cells, advance_all, open_next, write_row, write_rows, write_txt_file,
}
use mashroom.Output.Filed.{before, rows_of, IsFiled, rows_of-tried_rows, write_rows-IsFiled}
use mashroom.Output.Columns.{
  tried_rows, column_of, first_rows, round_rows, row_if_on, row_at, tried_rows-append,
  get_elem?-row_cells, get_elem?-advance_all, cell-advance, write_row-rows, write_rows-prefix,
}

abbrev pub AllUpTo : ℕ → List ℕ → Type 0
AllUpTo n [] = Unit
AllUpTo n (t ∷ ts) = (t ≤ n) × AllUpTo n ts

module _ {V : Type 0} where
  abbrev pub times_of : List (ExtractedValue V) → List ℕ
  times_of [] = []
  times_of (v ∷ vs) = v.time_date ∷ times_of vs

  -- All columns have these times.
  abbrev pub AllAt : List ℕ → Columns V → Type 0
  AllAt ts [] = Unit
  AllAt ts (c ∷ cs) = (times_of c ≡ ts) × AllAt ts cs

  AllAt-at :
      (ts : List ℕ) (j : ℕ) (cs : Columns V) (c : List (ExtractedValue V))
      → AllAt ts cs
      → get_elem? cs j ≡ some c
      → times_of c ≡ ts
  AllAt-at ts j [] c all e = cc
  AllAt-at ts zero (d ∷ cs) c (h, all) e = cc
  AllAt-at ts (suc j) (d ∷ cs) c (h, all) e = AllAt-at ts j cs c all e

  time_eq :
      (v : ExtractedValue V) (vs : List (ExtractedValue V)) (t : ℕ) (ts : List ℕ)
      → times_of (v ∷ vs) ≡ t ∷ ts
      → (v.time_date ≡ t) × (times_of vs ≡ ts)
  time_eq v vs t ts h = (cc, cc)

  current_time-ge :
      (t : ℕ) (ts : List ℕ) (cs : Columns V)
      → t ≤ time_max
      → AllAt (t ∷ ts) cs
      → t ≤ current_time cs
  unfolding current_time
  current_time-ge t ts [] small all = small
  current_time-ge t ts ([] ∷ cs) small (h, all) = cc
  current_time-ge t ts ((v ∷ vs) ∷ cs) small (h, all) =
      ground (arith, time_eq v vs t ts h, current_time-ge t ts cs small all)

  current_time-first :
      (t : ℕ) (ts : List ℕ) (c : List (ExtractedValue V)) (cs : Columns V)
      → t ≤ time_max
      → AllAt (t ∷ ts) (c ∷ cs)
      → current_time (c ∷ cs) ≡ t
  unfolding current_time
  current_time-first t ts [] cs small (h, all) = cc
  current_time-first t ts (v ∷ vs) cs small (h, all) =
      ground (arith, time_eq v vs t ts h, current_time-ge t ts cs small all)

  AllAt-advance :
      (t : ℕ) (ts : List ℕ) (cs : Columns V) → AllAt (t ∷ ts) cs → AllAt ts (advance_all t cs)
  unfolding advance_all advance
  AllAt-advance t ts [] all = tt
  AllAt-advance t ts ([] ∷ cs) (h, all) = cc
  AllAt-advance t ts ((v ∷ vs) ∷ cs) (h, all) =
      (ground (arith, time_eq v vs t ts h), AllAt-advance t ts cs all)

  first_rows-first :
      (n t : ℕ) (cs : Columns V)
      → current_time cs ≡ t
      → first_rows (suc n) cs
        ≡ record { time = t; cells = row_cells t cs } ∷ first_rows n (advance_all t cs)
  unfolding first_rows
  first_rows-first n t cs e =
      ap (λ u. record { time = u; cells = row_cells u cs } ∷ first_rows n (advance_all u cs)) e

  -- The rows of columns with the same times.
  first_rows-times :
      (ts : List ℕ) (c : List (ExtractedValue V)) (cs : Columns V)
      → AllAt ts (c ∷ cs)
      → AllUpTo time_max ts
      → map (λ r. r.time) (first_rows (length ts) (c ∷ cs)) ≡ ts
  unfolding first_rows advance_all
  first_rows-times [] c cs all small = refl
  first_rows-times (t ∷ ts) c cs all (here, small) =
      ap (map (λ r. r.time))
        (first_rows-first (length ts) t (c ∷ cs) (current_time-first t ts c cs here all))
      ∙ ap (◌∷◌ t) (
          first_rows-times ts (advance t c) (advance_all t cs) (AllAt-advance t ts (c ∷ cs) all)
            small)

  no_times : (c : List (ExtractedValue V)) → times_of c ≡ [] → [] ≡ c
  no_times [] h = refl
  no_times (v ∷ vs) h = cc

  first_rows-column :
      (ts : List ℕ) (j : ℕ) (d : List (ExtractedValue V)) (cs : Columns V)
      (c : List (ExtractedValue V))
      → AllAt ts (d ∷ cs)
      → AllUpTo time_max ts
      → get_elem? (d ∷ cs) j ≡ some c
      → column_of j (first_rows (length ts) (d ∷ cs)) ≡ c
  unfolding first_rows column_of advance_all
  first_rows-column [] j d cs c all small e = no_times c (AllAt-at [] j (d ∷ cs) c all e)
  first_rows-column (t ∷ ts) j d cs c all (here, small) e =
      let rest =
        first_rows-column ts j (advance t d) (advance_all t cs) (advance t c)
          (AllAt-advance t ts (d ∷ cs) all) small (get_elem?-advance_all t j (d ∷ cs) c e) in
      ap (column_of j)
        (first_rows-first (length ts) t (d ∷ cs) (current_time-first t ts d cs here all))
      ∙ rw (get_elem?-row_cells t j (d ∷ cs) c e, rest) (cell-advance t c)

  length-times : (c : List (ExtractedValue V)) → length (times_of c) ≡ length c
  length-times [] = refl
  length-times (v ∷ vs) = ap suc (length-times vs)

  max_length-le : (ts : List ℕ) (cs : Columns V) → AllAt ts cs → max_length cs ≤ length ts
  unfolding max_length
  max_length-le ts [] all = omega arith
  max_length-le ts (c ∷ cs) (h, all) =
      ground (arith, max_length-le ts cs all, length-times c, ap length h)

  max_length-AllAt :
      (ts : List ℕ) (c : List (ExtractedValue V)) (cs : Columns V)
      → AllAt ts (c ∷ cs)
      → max_length (c ∷ cs) ≡ length ts
  unfolding max_length
  max_length-AllAt ts c cs (h, all) =
      ground (arith, max_length-le ts cs all, length-times c, ap length h)

  abbrev is_on : RowRound V → Bool
  is_on (ends es e) = false
  is_on (goes_on es b e) = true

  tried_rows-all :
      (cs : Columns V) (n : ℕ) (k : Bool → ℕ → TxtResult V)
      → ((b : Bool) (e : ℕ)
          → (tried_rows ((k b e).events) ≡ first_rows n (advance_all (current_time cs) cs))
            × ((k b e).exception ≡ none))
      → (x : RowRound V) → round_rows x ≡ row_if_on (row_at cs) x
      → is_on x ≡ true
      → let after : TxtResult V = elim x [
        | ends es e ↦ record { events = es; exception = some e }
        | goes_on es b e ↦ push_events es (k b e)
      ] in
        (tried_rows (after.events) ≡ first_rows (suc n) cs) × (after.exception ≡ none)
  unfolding first_rows
  tried_rows-all cs n k ih (ends es e) h on = cc
  tried_rows-all cs n k ih (goes_on es b e) h on =
      let (rows, fine) = ih b e in (tried_rows-append es ((k b e).events) ∙ rw (h, rows) refl, fine)

  module _ (disk : Disk) (next : ℕ → ℕ) (stop : ℕ → Bool)
      (open_all : (t : ℕ) → make_and_open_file disk t ≡ opened)
      (go : (k : ℕ) → stop k ≡ false) where
    write_row-on :
        (row : ℕ) (is_open : Bool) (file_end : ℕ) (r : Row V)
        → is_on (write_row disk next true stop row is_open file_end r) ≡ true
    unfolding write_row open_next
    write_row-on row is_open file_end r = ground (arith, open_all r.time, go row)

    write_rows-all :
        (left row : ℕ) (is_open : Bool) (file_end : ℕ) (cs : Columns V)
        → let r = write_rows disk next true stop left row is_open file_end cs in
          (tried_rows (r.events) ≡ first_rows left cs) × (r.exception ≡ none)
    unfolding write_rows first_rows tried_rows
    write_rows-all zero row is_open file_end cs = (refl, refl)
    write_rows-all (suc left) row is_open file_end cs =
        let after = advance_all (current_time cs) cs in
        tried_rows-all cs left (λ b e. write_rows disk next true stop left (suc row) b e after)
          (λ b e. write_rows-all left (suc row) b e after)
          (write_row disk next true stop row is_open file_end (row_at cs))
          (write_row-rows disk next true stop row is_open file_end (row_at cs))
          (write_row-on row is_open file_end (row_at cs))

module _ {K V : Type 0} (disk : Disk) (next : ℕ → ℕ) (sort : Sort V) where
  -- The events of a text file are filed, where files open.
  filed :
      (header : Bool) (stop : ℕ → Bool) (result : ExtractedValues K V)
      → ((t : ℕ) → make_and_open_file disk t ≡ opened)
      → IsFiled next before ((write_txt_file disk next header stop sort result).events)
  unfolding write_txt_file
  filed header stop result open_all =
      let cs = columns (sort_all sort result) in
      write_rows-IsFiled disk next header stop open_all (max_length cs) false
        (next (current_time cs)) cs

  -- Where files open, whatever the headers and the stop token answer: no row is lost, every row stands
  -- in a file of its own period, and the rows of all files, in their order, hold of each series that
  -- has values the first of its sorted values, with their times, and none out of order or twice.
  pub write_txt_file-prefix :
      (header : Bool) (stop : ℕ → Bool) (result : ExtractedValues K V) (j : ℕ)
      (c : List (ExtractedValue V))
      → ((t : ℕ) → make_and_open_file disk t ≡ opened)
      → get_elem? (columns (sort_all sort result)) j ≡ some c
      → let es = (write_txt_file disk next header stop sort result).events in
        IsFiled next before es
        × ((left : List (ExtractedValue V)) × (column_of j (rows_of es) ++ left ≡ c))
  unfolding write_txt_file
  write_txt_file-prefix header stop result j c open_all e =
      let cs = columns (sort_all sort result) in
      let (left, whole) =
        write_rows-prefix disk next header stop (max_length cs) 0 j false (next (current_time cs))
          cs c e in
      let es = (write_txt_file disk next header stop sort result).events in
      let is = filed header stop result open_all in
      let same : tried_rows es ≡ rows_of es = rows_of-tried_rows next before es is in
      (is, (left, subst (λ rs. column_of j rs ++ left ≡ c) same whole))

  -- Where all series that have values have the same times, files open and headers can be made, and
  -- nothing stops the loop: no row is lost, every row stands in a file of its own period, and the rows of
  -- all files, in their order, are one for each time and hold each of these series as a whole.
  pub write_txt_file_complete :
      (stop : ℕ → Bool) (result : ExtractedValues K V) (ts : List ℕ) (d : List (ExtractedValue V))
      (cs : Columns V)
      → ((t : ℕ) → make_and_open_file disk t ≡ opened)
      → ((k : ℕ) → stop k ≡ false)
      → columns (sort_all sort result) ≡ d ∷ cs
      → AllAt ts (d ∷ cs)
      → AllUpTo time_max ts
      → let r = write_txt_file disk next true stop sort result in
        (r.exception ≡ none)
        × IsFiled next before (r.events)
        × (map (λ x. x.time) (rows_of (r.events)) ≡ ts)
        × ((j : ℕ) (c : List (ExtractedValue V))
            → get_elem? (d ∷ cs) j ≡ some c
            → column_of j (rows_of (r.events)) ≡ c)
  unfolding write_txt_file
  write_txt_file_complete stop result ts d cs open_all go shape all small =
      let whole = columns (sort_all sort result) in
      let (rows, fine) =
        write_rows-all disk next stop open_all go (max_length whole) 0 false
          (next (current_time whole)) whole in
      let es = (write_txt_file disk next true stop sort result).events in
      let is = filed true stop result open_all in
      let rows' : rows_of es ≡ first_rows (length ts) (d ∷ cs) =
        sym (rows_of-tried_rows next before es is)
        ∙ rows
        ∙ ap (λ l. first_rows (max_length l) l) shape
        ∙ ap (λ n. first_rows n (d ∷ cs)) (max_length-AllAt ts d cs all) in
      (
        fine,
        is,
        ap (map (λ x. x.time)) rows' ∙ first_rows-times ts d cs all small,
        λ j c e. ap (column_of j) rows' ∙ first_rows-column ts j d cs c all small e,
      )
