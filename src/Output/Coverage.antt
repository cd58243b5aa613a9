-- ===== src/Output/Coverage.antt =====
-- Which values are written, and the binary files against those of JSON.
use mathlib.Core.Path.{fun_ext}
use mashroom.Common.{
  ℕ, zero, suc, ◌+◌, ◌<◌, ◌≤◌, ◌≡◌, refl, ap, ◌∙◌, arith, ◌&&◌, Bool, true, false, Option, none,
  some, List, [], ◌∷◌, map, leb, if◌then◌else◌,
}
use mashroom.Output.{
  ExtractedValues, Sort, time_max, Disk, File, Written, returned_paths, thrown, opened,
  make_and_open_file, sort_all, bounds, json_entries, bin_entries, push_period, write_periods,
  write_json_file, write_bin_file,
}
use mashroom.Output.Periods.{
  IsPeriods, periods_inv, periods_at, starting, last_end, periods_at-periods, file_of,
  write_periods-IsPeriods,
}
use mashroom.Output.Exact.{Sorts, all_between, with_values, json_entries-exact, bin_entries-json}

module _ {K V : Type 0} (disk : Disk) (next : ℕ → ℕ) (sort : Sort V) where
  -- The first and the greatest of the first times of the series.
  abbrev pub least : ExtractedValues K V → ℕ
  least result = (bounds (sort_all sort result) (time_max, 0)).0

  abbrev pub greatest : ExtractedValues K V → ℕ
  greatest result = (bounds (sort_all sort result) (time_max, 0)).1

  -- The file of a period, with the values whose times lie in it, its bounds included.
  abbrev pub exact_file : ExtractedValues K V → ℕ × ℕ → File K V
  exact_file result (lo, hi) = record {
    name_time = lo;
    entries = all_between lo hi (sort_all sort result);
  }

  json_files :
      (result : ExtractedValues K V) (ps : List (ℕ × ℕ))
      → Sorts sort
      → map (file_of (λ lo hi. json_entries lo hi (sort_all sort result))) ps
        ≡ map (exact_file result) ps
  json_files result [] sorts = refl
  json_files result ((lo, hi) ∷ ps) sorts =
      rw (json_entries-exact sort lo hi result sorts, json_files result ps sorts) refl

  -- write_json_file ends, where all can be opened and written and a period ends after it starts. It
  -- writes a file for each period from the least time on, as long as one starts by the greatest of the
  -- first times of the series, with the values of the period. A time between the first period and the
  -- last is in one file, and in one more for each later period that it starts; a later time is in none.
  pub write_json_file-covers :
      (fuel : ℕ) (result : ExtractedValues K V)
      → Sorts sort
      → ((t : ℕ) → t < next t)
      → ((t : ℕ) → make_and_open_file disk t ≡ opened)
      → ((t : ℕ) → disk.writes t ≡ true)
      → least result ≤ greatest result
      → suc (greatest result) < least result + fuel
      → let lo = least result in
        let hi = next lo in
        (ps : List (ℕ × ℕ)) × IsPeriods next (greatest result) hi (next hi) ps
        × (write_json_file disk next sort fuel result
            ≡ some (returned_paths (map (exact_file result) ((lo, hi) ∷ ps))))
        × ((t : ℕ)
            → periods_at t ((lo, hi) ∷ ps)
              ≡ (if leb lo t && leb t (last_end hi ps) then 1 else 0) + starting t ps)
  unfolding write_json_file
  write_json_file-covers fuel result sorts moves o w some_time enough =
      let lo = least result in
      let hi = next lo in
      let entries = λ (a b : ℕ). json_entries a b (sort_all sort result) in
      let (qs, periods, e) =
        write_periods-IsPeriods next (greatest result) disk entries fuel lo hi moves o w (moves lo)
          (omega arith) enough in
      let (ps, shape, rest) = periods_inv next (greatest result) lo hi qs periods some_time in
      (
        ps,
        rest,
        e
            ∙ ap (λ l. some (returned_paths (map (file_of entries) l))) shape
            ∙ ap (λ l. some (returned_paths l)) (json_files result ((lo, hi) ∷ ps) sorts),
        λ t. periods_at-periods next (greatest result) moves t lo hi ps (moves lo) some_time rest,
      )

  -- The values of a file without the entries that hold none.
  abbrev strip : File K V → File K V
  strip f = record f { entries = with_values f.entries }

  abbrev pub strip_all : Written K V → Written K V
  strip_all (returned_paths fs) = returned_paths (map strip fs)
  strip_all (thrown e) = thrown e

  abbrev pub strip_end : Option (Written K V) → Option (Written K V)
  strip_end none = none
  strip_end (some w) = some (strip_all w)

  strip_end-push :
      (b : Bool) (f : File K V) (r : Option (Written K V))
      → strip_end (push_period b f r) ≡ push_period b (strip f) (strip_end r)
  strip_end-push b f none = refl
  strip_end-push true f (some (returned_paths fs)) = refl
  strip_end-push false f (some (returned_paths fs)) = refl
  strip_end-push b f (some (thrown e)) = refl

  write_periods-strip :
      (fuel lower upper max_time : ℕ) (e : ℕ → ℕ → ExtractedValues K V)
      → write_periods disk next (λ lo hi. with_values (e lo hi)) fuel lower upper max_time
        ≡ strip_end (write_periods disk next e fuel lower upper max_time)
  unfolding write_periods
  write_periods-strip zero lower upper max_time e = refl
  write_periods-strip (suc fuel) lower upper max_time e = ground (
    arith,
    write_periods-strip fuel upper (next upper) max_time e,
    strip_end-push (disk.writes lower) (record { name_time = lower; entries = e lower upper })
        (write_periods disk next e fuel upper (next upper) max_time),
  )

  -- Whatever the disk answers, write_bin_file writes the files of write_json_file, without the entries
  -- that hold no value, and fails where that fails.
  pub write_bin_file-json :
      (fuel : ℕ) (result : ExtractedValues K V)
      → 1 ≤ fuel
      → write_bin_file disk next sort fuel result
        ≡ strip_end (write_json_file disk next sort fuel result)
  unfolding write_bin_file write_json_file bounds sort_all write_periods
  write_bin_file-json zero [] h = absurd (omega arith)
  write_bin_file-json (suc fuel) [] h = refl
  write_bin_file-json fuel (x ∷ xs) h =
      let s = sort_all sort (x ∷ xs) in
      let e = λ (lo hi : ℕ). json_entries lo hi s in
      let same : (λ lo hi. bin_entries lo hi s) ≡ (λ lo hi. with_values (e lo hi)) =
        fun_ext (λ lo. fun_ext (λ hi. bin_entries-json lo hi s)) in
      let lo = least (x ∷ xs) in
      ap (λ e'. write_periods disk next e' fuel lo (next lo) (greatest (x ∷ xs))) same
      ∙ write_periods-strip fuel lo (next lo) (greatest (x ∷ xs)) e
