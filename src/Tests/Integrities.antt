-- ===== src/Tests/Integrities.antt =====
-- The test of the data for gaps, on a directory of three files.
use Prim.Native.String.{String}
use text.Mathlib.Text.{◌==◌ as str_eq}
use mashroom.Common.{◌≡◌, refl, arith, true, false, not, some, [], ◌∷◌, map}
use mashroom.Common.Int.{pos}
use mashroom.Grib.Product.{section1_flags}
use mashroom.Grib.Message.{Host}
use mashroom.Grib.Message.Walk.{handle}
use mashroom.Extraction.Positions.{chosen, add_values}
use mashroom.Extraction.Search.{search, returned}
use mashroom.Integrity.{Entry, walk}
use mashroom.Integrity.Agreement.{kept_at, info_of, walk-search}
use mashroom.Integrity.Report.{
  Series, report, integrity_violated, all_end_early, ends_early, report-reversed,
}
use mashroom.Tests.Inputs.{reader, reader-IsBigEndian}
use mashroom.Tests.Values.{whole}
use mashroom.Tests.Extractions.{grid_message, file, millis, place}
use mashroom.Tests.Searches.{ticks, narrow}

walk-search_example :
    let bs = chosen (kept_at reader millis ticks file narrow) (0 ∷ 96 ∷ []) in
    (walk reader millis ticks file 2 narrow (handle reader file 192 0) []
      ≡ some (map (info_of reader millis ticks file narrow) bs))
    × (search reader millis whole file ticks (λ k. false) 2 narrow 0 (handle reader file 192 0) []
        ≡ some (returned (add_values reader millis whole file place bs [])))
unfolding section1_flags
walk-search_example =
    walk-search reader millis whole ticks narrow 0 place grid_message (grid_message ∷ [])
      reader-IsBigEndian ((omega arith, refl), ((omega arith, refl), tt))
      ((omega arith, refl), ((omega arith, refl), tt)) refl refl

-- A host without the file "b.grib".
abbrev host : Host
host = record {
  opens = λ name. not (str_eq name "b.grib");
  size = λ name. 192;
  mmap = λ name. some file;
}

abbrev entry : String → Entry
entry name = record { path = name; is_regular_file = true; extension = ".grib" }

-- A month that is there from its first day to its last, and one that ends on the 20th day.
abbrev full : Series
full = record { from = pos 1; to = pos 31; beg_period = pos 1; end_period = pos 31 }

abbrev cut : Series
cut = record full { to = pos 20 }

report-reversed_example : (report (cut ∷ full ∷ [])).0 ≡ integrity_violated
unfolding all_end_early ends_early
report-reversed_example = report-reversed (cut ∷ full ∷ [])
