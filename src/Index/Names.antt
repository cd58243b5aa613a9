-- ===== src/Index/Names.antt =====
-- src/proc/index/gen.cpp: the tokens of which a path of the index is made (DIR_TREE_TOKEN of
-- include/proc/index/name_tokens.h), their texts, and the formats of file and directory names. A
-- `std::string` is the list of its bytes, and the separator of paths is that of POSIX.
pub mod Parsing
pub mod Formats
use Prim.Native.Char.{code}
use Prim.Native.String.{String}
use mashroom.Common.{
  ℕ, zero, suc, ◌+◌, Bool, true, false, ◌&&◌, Option, none, some, List, [], ◌∷◌, ◌++◌, ltb, ◌==◌,
  if◌then◌else◌,
}

-- The bytes of a literal.
abbrev pub bytes : String → List ℕ
bytes String.[] = []
bytes (String.◌∷◌ c s) = code c ∷ bytes s

pub data DirTreeToken : Type 0 where
  hour day month year latitude longitude latlon grid : DirTreeToken

-- The value of the enumerator.
abbrev pub token_value : DirTreeToken → ℕ
token_value hour = 1
token_value day = 2
token_value month = 4
token_value year = 8
token_value latitude = 16
token_value longitude = 32
token_value latlon = 48
token_value grid = 128

abbrev pub same_token : DirTreeToken → DirTreeToken → Bool
same_token t u = token_value t == token_value u

-- `token_to_txt_`, text by text: `txt_to_token_` is the same table read backwards.
abbrev pub token_texts : List (DirTreeToken × List ℕ)
token_texts =
    (hour, bytes "hour")
    ∷ (hour, bytes "hours")
    ∷ (day, bytes "day")
    ∷ (day, bytes "days")
    ∷ (month, bytes "month")
    ∷ (month, bytes "months")
    ∷ (year, bytes "year")
    ∷ (year, bytes "years")
    ∷ (latitude, bytes "lat")
    ∷ (latitude, bytes "latitude")
    ∷ (longitude, bytes "lon")
    ∷ (longitude, bytes "longitude")
    ∷ (latlon, bytes "latlon")
    ∷ (grid, bytes "grid")
    ∷ []

abbrev pub same_text : List ℕ → List ℕ → Bool
same_text [] [] = true
same_text [] (d ∷ ds) = false
same_text (c ∷ cs) [] = false
same_text (c ∷ cs) (d ∷ ds) = (c == d) && same_text cs ds

-- `txt_to_token_.find`
abbrev pub find_text : List ℕ → List (DirTreeToken × List ℕ) → Option DirTreeToken
find_text text [] = none
find_text text ((token, known) ∷ rest) =
    let later = find_text text rest in if same_text text known then some token else later

unfoldable pub txt_to_token : List ℕ → Option DirTreeToken
txt_to_token text = find_text text token_texts

abbrev pub separator : ℕ
separator = 47

-- What stands before the first separator, and what stands behind it, if there is one.
unfoldable pub cut : List ℕ → List ℕ × Option (List ℕ)
cut [] = ([], none)
cut (c ∷ cs) = let rest = cut cs in if c == separator then ([], some cs) else (c ∷ rest.0, rest.1)

-- The result of the parser. `invalid_argument` carries the token that the exception names, and
-- `stuck` is a loop of the model out of fuel.
pub data Parsed : Type 0 where
  tokens : List DirTreeToken → Parsed
  invalid_argument : List ℕ → Parsed
  stuck : Parsed

-- `result.push_back` before what the rest of the loop pushes.
abbrev pub push_front : DirTreeToken → Parsed → Parsed
push_front t (tokens ts) = tokens (t ∷ ts)
push_front t (invalid_argument text) = invalid_argument text
push_front t stuck = stuck

abbrev pub after : (List ℕ → Parsed) → Option (List ℕ) → Parsed
after loop none = tokens []
after loop (some rest) = loop rest

-- The `while` loop.
unfoldable pub parse_loop : ℕ → List ℕ → Parsed
parse_loop zero sequence = stuck
parse_loop (suc fuel) [] = tokens []
parse_loop (suc fuel) (c ∷ cs) =
    let pieces = cut (c ∷ cs) in
    elim (txt_to_token pieces.0) [
      | none ↦ invalid_argument pieces.0
      | some token ↦ push_front token (after (parse_loop fuel) pieces.1)
    ]

abbrev pub drop_separator : List ℕ → List ℕ
drop_separator [] = []
drop_separator (c ∷ cs) = if c == separator then cs else c ∷ cs

abbrev pub size : List ℕ → ℕ
size [] = 0
size (c ∷ cs) = suc (size cs)

unfoldable pub input_to_token_sequence : List ℕ → Parsed
input_to_token_sequence text =
    let sequence = drop_separator text in parse_loop (size sequence + 1) sequence

-- `++counter[token]`
abbrev pub count_up : DirTreeToken → (DirTreeToken → ℕ) → DirTreeToken → ℕ
count_up t counter u = counter u + (if same_token t u then 1 else 0)

unfoldable pub check_from : (DirTreeToken → ℕ) → List DirTreeToken → Bool
check_from counter [] = true
check_from counter (t ∷ ts) =
    let next = count_up t counter in
    let rest = check_from next ts in if ltb 1 (next t) then false else rest

-- `check_format` on tokens.
unfoldable pub check_format : List DirTreeToken → Bool
check_format ts = check_from (λ t. 0) ts

-- `token_to_format_.at`
unfoldable pub format : DirTreeToken → List ℕ
format hour = bytes "{:%H}"
format day = bytes "{:%d}"
format month = bytes "{:%m}"
format year = bytes "{:%Y}"
format latitude = bytes "{}"
format longitude = bytes "{}"
format latlon = bytes "{}_{}"
format grid = bytes "{}"

-- The two loops that append a format and a separator, from what is there already.
unfoldable pub append_formats : ℕ → List ℕ → List DirTreeToken → List ℕ
append_formats mark text [] = text
append_formats mark text (t ∷ ts) = append_formats mark (text ++ (format t ++ mark ∷ [])) ts

abbrev pub pop_back : List ℕ → List ℕ
pop_back [] = []
pop_back (c ∷ []) = []
pop_back (c ∷ d ∷ cs) = c ∷ pop_back (d ∷ cs)

unfoldable pub generate_filename_format : List DirTreeToken → List ℕ
generate_filename_format ts = pop_back (append_formats 95 [] ts)

unfoldable pub generate_directory_format : List DirTreeToken → List ℕ
generate_directory_format ts = append_formats separator [] ts
