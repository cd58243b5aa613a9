-- ===== src/Storage/Names.antt =====
-- The names of formats and of kinds of data: the other tables of src/data/def.cpp. A table by name is
-- built by a loop over the table by token; its names differ, so that the order of the loop, which
-- the C++ library chooses, does not matter.
use Prim.Native.String.{String}
use mashroom.Common.{ℕ, ◌≡◌, Option, some, List, [], ◌∷◌, length}
use mashroom.Common.Table.{lookup, update}
use mashroom.Storage.{DataFormat, grib_v1, texts}

pub data DataType : Type 0 where
  time_series grid polygone isolines : DataType

unfoldable to_data_format_name : DataFormat → String
to_data_format_name grib_v1 = "Grib1"

unfoldable to_data_type_name : DataType → String
to_data_type_name time_series = "meteo"
to_data_type_name polygone = "polygone"
to_data_type_name grid = "grid"
to_data_type_name isolines = "isolines"

abbrev data_format_token : List (DataFormat × String)
data_format_token = (grib_v1, "Grib1") ∷ []

abbrev data_type_token : List (DataType × String)
data_type_token =
    (time_series, "meteo") ∷ (polygone, "polygone") ∷ (grid, "grid") ∷ (isolines, "isolines") ∷ []

unfoldable number_of_formats : ℕ
number_of_formats = length data_format_token

unfoldable number_of_types : ℕ
number_of_types = length data_type_token

-- The loop that builds a table by name.
unfoldable put_names : {T : Type 0} → List (T × String) → List (String × T) → List (String × T)
put_names [] names = names
put_names ((token, text) ∷ tokens) names = put_names tokens (update texts text (λ old. token) names)

unfoldable to_data_format_token : String → Option DataFormat
to_data_format_token text = lookup texts text (put_names data_format_token [])

unfoldable to_data_type_token : String → Option DataType
to_data_type_token text = lookup texts text (put_names data_type_token [])

-- Reading a name gives a token exactly if the text is the name of the token.
abbrev IsInverse : {T : Type 0} → (T → String) → (String → Option T) → Type 0
IsInverse {T} name token =
    ((t : T) → token (name t) ≡ some t)
    × ((text : String) (t : T) → token text ≡ some t → text ≡ name t)
