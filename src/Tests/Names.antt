-- ===== src/Tests/Names.antt =====
-- The names of the index: the inputs of the program's own tests, and examples.
use mashroom.Common.{◌≡◌, refl, true, false, [], ◌∷◌}
use mashroom.Index.Names.{
  year, month, day, latitude, longitude, bytes, cut, txt_to_token, tokens, invalid_argument,
  parse_loop, input_to_token_sequence, check_from, check_format, format, append_formats,
  generate_filename_format,
}
use mashroom.Index.Names.Parsing.{Spells, last, more, input_to_token_sequence-Spells}

run_parser :
    (input_to_token_sequence (bytes "/year/month/day/lat/lon")
      ≡ tokens (year ∷ month ∷ day ∷ latitude ∷ longitude ∷ []))
    × (input_to_token_sequence (bytes "/") ≡ tokens [])
    × (input_to_token_sequence (bytes "//") ≡ invalid_argument [])
    × (input_to_token_sequence (bytes "/long/latit") ≡ invalid_argument (bytes "long"))
unfolding input_to_token_sequence parse_loop cut txt_to_token
run_parser = (refl, refl, refl, refl)

run_check :
    (check_format (year ∷ month ∷ day ∷ latitude ∷ longitude ∷ []) ≡ true)
    × (check_format (year ∷ month ∷ latitude ∷ latitude ∷ []) ≡ false)
unfolding check_format check_from
run_check = (refl, refl)

run_filename : generate_filename_format (year ∷ day ∷ []) ≡ bytes "{:%Y}_{:%d}"
unfolding generate_filename_format append_formats format
run_filename = refl

years_and_day : Spells (year ∷ day ∷ []) (bytes "years/day")
unfolding cut txt_to_token
years_and_day =
    more {c = b'y'} {w = bytes "ears"} {s = bytes "day"} refl refl
      (last {c = b'd'} {w = bytes "ay"} refl refl)

input_to_token_sequence-Spells_example :
    (input_to_token_sequence (bytes "/years/day") ≡ tokens (year ∷ day ∷ []))
    × (input_to_token_sequence (bytes "years/day") ≡ tokens (year ∷ day ∷ []))
input_to_token_sequence-Spells_example = input_to_token_sequence-Spells years_and_day
