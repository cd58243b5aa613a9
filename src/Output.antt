-- ===== src/Output.antt =====
-- The files that an extraction writes: src/proc/extract/write.cpp, with the values of
-- include/proc/extract/extracted_value.h and extracted_data.h. A time is the number of clock ticks
-- since `utc_tp::min()`. `TimePeriod::get_next_tp` is the parameter `next`, `std::sort` the parameter
-- `sort`. A file is named by the time that its name and directory are made of.
pub mod Periods
pub mod Exact
pub mod Coverage
pub mod Rows
pub mod Columns
pub mod Complete
pub mod Filed
pub mod Tokens
pub mod Numbers
pub mod Header
pub mod Reading
use mashroom.Common.{
  ℕ, zero, suc, ◌-◌, ◌^◌, not, ◌||◌, Bool, true, false, Option, none, some, List, [], ◌∷◌, ◌++◌,
  map, ltb, if◌then◌else◌,
}

pub record ExtractedValue (V : Type 0) : Type 0 where
  pub time_date : ℕ
  pub value : V

-- The map of an extraction, its entries in the order of the keys.
abbrev pub ExtractedValues : Type 0 → Type 0 → Type 0
ExtractedValues K V = List (K × List (ExtractedValue V))

-- `utc_tp::max()`
abbrev pub time_max : ℕ
time_max = 2 ^ 64 - 1

pub data ErrorCode : Type 0 where
  interrupted internal_error : ErrorCode
  cannot_access_path_x1 file_x1_perm_denied cannot_open_file_x1 : ErrorCode

-- What the system answers for the file of a time: whether its directory is there, or is made; whether
-- it opens; whether one that does not open is a file with permissions; and whether all is written. An
-- exception of the file system's is not represented.
pub record Disk : Type 0 where
  pub parent_exists : ℕ → Bool
  pub makes_parent : ℕ → Bool
  pub opens : ℕ → Bool
  pub is_denied : ℕ → Bool
  pub writes : ℕ → Bool

-- A stream that `make_and_open_file` leaves closed is `stays_closed`.
pub data Opening : Type 0 where
  opened stays_closed : Opening
  refused : ErrorCode → Opening

unfoldable pub make_dir : Disk → ℕ → Bool
make_dir disk t = disk.parent_exists t || disk.makes_parent t

-- `make_and_open_file` of src/proc/common/fs.cpp.
unfoldable pub make_and_open_file : Disk → ℕ → Opening
unfolding make_dir
make_and_open_file disk t =
    if not (make_dir disk t)
    then refused cannot_access_path_x1
    else if disk.opens t
    then opened
    else if disk.is_denied t
    then refused file_x1_perm_denied
    else stays_closed

abbrev pub Sort : Type 0 → Type 0
Sort V = List (ExtractedValue V) → List (ExtractedValue V)

abbrev pub std_min : ℕ → ℕ → ℕ
std_min a b = if ltb b a then b else a

abbrev pub std_max : ℕ → ℕ → ℕ
std_max a b = if ltb a b then b else a

module _ {V : Type 0} where
  -- `std::lower_bound`, on sorted values: from the first that is not before `lo` on.
  unfoldable pub from_lower : ℕ → List (ExtractedValue V) → List (ExtractedValue V)
  from_lower lo [] = []
  from_lower lo (v ∷ vs) =
      let rest = from_lower lo vs in if ltb v.time_date lo then rest else v ∷ vs

  -- `std::upper_bound`, on sorted values: up to the first that is after `hi`.
  unfoldable pub to_upper : ℕ → List (ExtractedValue V) → List (ExtractedValue V)
  to_upper hi [] = []
  to_upper hi (v ∷ vs) = let rest = to_upper hi vs in if ltb hi v.time_date then [] else v ∷ rest

  -- The values of the span from the one bound to the other.
  unfoldable pub span : ℕ → ℕ → List (ExtractedValue V) → List (ExtractedValue V)
  span lo hi vs = to_upper hi (from_lower lo vs)

pub record File (K V : Type 0) : Type 0 where
  pub name_time : ℕ
  pub entries : ExtractedValues K V

-- The files that are returned, or an exception.
pub data Written (K V : Type 0) : Type 0 where
  returned_paths : List (File K V) → Written K V
  thrown : ErrorCode → Written K V

module _ {K V : Type 0} where
  unfoldable pub sort_all : Sort V → ExtractedValues K V → ExtractedValues K V
  sort_all sort [] = []
  sort_all sort ((k, vs) ∷ s) = (k, sort vs) ∷ sort_all sort s

  -- `min_time` and `max_time`: both take the first value of each series.
  unfoldable pub bounds : ExtractedValues K V → ℕ × ℕ → ℕ × ℕ
  bounds [] b = b
  bounds ((k, []) ∷ s) b = bounds s b
  bounds ((k, v ∷ vs) ∷ s) (least, greatest) =
      bounds s (std_min v.time_date least, std_max v.time_date greatest)

  unfoldable pub json_entries : ℕ → ℕ → ExtractedValues K V → ExtractedValues K V
  json_entries lo hi [] = []
  json_entries lo hi ((k, vs) ∷ s) = (k, span lo hi vs) ∷ json_entries lo hi s

  -- Empty spans are left out.
  abbrev pub push_span : K → List (ExtractedValue V) → ExtractedValues K V → ExtractedValues K V
  push_span k [] s = s
  push_span k (v ∷ vs) s = (k, v ∷ vs) ∷ s

  unfoldable pub bin_entries : ℕ → ℕ → ExtractedValues K V → ExtractedValues K V
  bin_entries lo hi [] = []
  bin_entries lo hi ((k, vs) ∷ s) = push_span k (span lo hi vs) (bin_entries lo hi s)

  -- A file that is not written whole is not returned.
  abbrev pub push_file : Bool → File K V → Written K V → Written K V
  push_file written f (returned_paths fs) =
      if written then returned_paths (f ∷ fs) else returned_paths fs
  push_file written f (thrown e) = thrown e

  abbrev pub push_period : Bool → File K V → Option (Written K V) → Option (Written K V)
  push_period written f none = none
  push_period written f (some w) = some (push_file written f w)

  module _ (disk : Disk) (next : ℕ → ℕ) (entries : ℕ → ℕ → ExtractedValues K V) where
    -- The rounds of `while (true)`, with fuel; `none` is a loop that is out of it.
    unfoldable pub write_periods : ℕ → ℕ → ℕ → ℕ → Option (Written K V)
    write_periods zero lower upper max_time = none
    write_periods (suc fuel) lower upper max_time =
        let rest = write_periods fuel upper (next upper) max_time in
        if ltb max_time lower
        then some (returned_paths [])
        else elim (make_and_open_file disk lower) [
          | refused e ↦ some (thrown e)
          | stays_closed ↦ some (thrown cannot_open_file_x1)
          | opened ↦
              push_period (disk.writes lower)
                (record { name_time = lower; entries = entries lower upper }) rest
        ]

  module _ (disk : Disk) (next : ℕ → ℕ) (sort : Sort V) where
    unfoldable pub write_json_file : ℕ → ExtractedValues K V → Option (Written K V)
    write_json_file fuel result =
        let s = sort_all sort result in
        let (min_time, max_time) = bounds s (time_max, 0) in
        write_periods disk next (λ lo hi. json_entries lo hi s) fuel min_time (next min_time)
          max_time

    unfoldable pub write_bin_file : ℕ → ExtractedValues K V → Option (Written K V)
    write_bin_file fuel [] = some (returned_paths [])
    write_bin_file fuel (e ∷ es) =
        let s = sort_all sort (e ∷ es) in
        let (min_time, max_time) = bounds s (time_max, 0) in
        write_periods disk next (λ lo hi. bin_entries lo hi s) fuel min_time (next min_time)
          max_time
