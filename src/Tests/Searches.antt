-- ===== src/Tests/Searches.antt =====
-- Searches in a file of two messages.
use mashroom.Common.{◌+◌, ◌*◌, ◌≡◌, refl, arith, false, none, some, [], ◌∷◌}
use mashroom.Common.Int.{ℤ, pos}
use mashroom.Grib.Message.{read_message}
use mashroom.Grib.Message.Walk.{handle}
use mashroom.Catalogue.{CommonDataProperties}
use mashroom.Extraction.{Extract, extract, done}
use mashroom.Extraction.Positions.{values_of, values_at, chosen}
use mashroom.Extraction.Search.{Ticks, SearchProperties, search, returned}
use mashroom.Extraction.Finding.{is_wanted, search-finds}
use mashroom.Extraction.Agreement.{search-extract}
use mashroom.Tests.Inputs.{reader, reader-IsBigEndian}
use mashroom.Tests.Values.{whole}
use mashroom.Tests.Extractions.{grid_message, file, millis, place}

-- Months of 31 days, for the tests.
abbrev pub ticks : Ticks
ticks y m d h n = pos ((((y * 12 + m) * 31 + d) * 24 + h) * 60 + n)

-- Everything at a place.
abbrev everything : SearchProperties ℤ
everything = record {
  parameters = [];
  from_date = pos 0;
  to_date = pos 0;
  position = some place;
  grid_type = none;
  center = none;
  fcst_unit = none;
}

-- One parameter of a center, on grids of latitudes and longitudes.
abbrev pub narrow : SearchProperties ℤ
narrow = record everything {
  parameters = (11, 3) ∷ [];
  to_date = pos 1000000000;
  grid_type = some 0;
  center = some 7;
}

search-finds_example :
    (r : Extract ℤ) × (search reader millis whole file ticks
        (λ k. false)
        2
        narrow
        0
        (handle reader file 192 0)
        []
      ≡ some (returned r))
    × ((c : CommonDataProperties)
        → values_of c r
          ≡ values_at reader millis whole file place c (
              chosen
                (λ b. is_wanted reader millis file ticks narrow place (read_message reader file b))
                (0 ∷ 96 ∷ [])))
search-finds_example =
    search-finds reader millis whole ticks narrow place grid_message (grid_message ∷ [])
      reader-IsBigEndian ((omega arith, refl), ((omega arith, refl), tt)) refl

search-extract_example :
    (r : Extract ℤ) × (search reader millis whole file ticks
        (λ k. false)
        2
        everything
        0
        (handle reader file 192 0)
        []
      ≡ some (returned r))
    × (extract reader millis whole file place
          (λ k. false)
          (pos 0 ∷ pos 96 ∷ [])
          0
          (handle reader file 192 0)
          []
        ≡ some (done, r))
search-extract_example =
    search-extract reader millis whole ticks everything place grid_message (grid_message ∷ [])
      reader-IsBigEndian ((omega arith, refl), ((omega arith, refl), tt)) (refl, refl, refl, refl)
      refl (omega arith)
