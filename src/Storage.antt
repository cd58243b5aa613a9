-- ===== src/Storage.antt =====
-- The files that catalogues are kept in: Data of include/program/data.h and src/program/data.cpp, and
-- the tables of formats of src/data/def.cpp. The file system, paths and serialization are libraries:
-- they are the parameter `System`, whose calls take and give its state.
pub mod Saving
pub mod Names
use Prim.Native.String.{String}
use text.Mathlib.Text.{◌==◌ as str_eq}
use mashroom.Common.{
  ℕ, not, ◌&&◌, Bool, true, false, Option, none, some, List, [], ◌∷◌, ◌++◌, if◌then◌else◌,
}
use mashroom.Common.Table.{Equality, lookup, update}

pub data DataFormat : Type 0 where
  grib_v1 : DataFormat

unfoldable pub token_to_extensions : DataFormat → List String
token_to_extensions grib_v1 = ".grib1" ∷ ".grib" ∷ ".gb" ∷ ".grb" ∷ []

abbrev pub texts : Equality String
texts = record { same = str_eq }

abbrev push_format : DataFormat → Option (List DataFormat) → List DataFormat
push_format f none = f ∷ []
push_format f (some fs) = fs ++ f ∷ []

-- The loops that build `extension_name`.
unfoldable pub put_extensions :
    DataFormat → List String → List (String × List DataFormat) → List (String × List DataFormat)
put_extensions f [] names = names
put_extensions f (text ∷ ts) names = put_extensions f ts (update texts text (push_format f) names)

unfoldable pub extension_to_tokens : String → Option (List DataFormat)
extension_to_tokens extension =
    lookup texts extension (put_extensions grib_v1 (token_to_extensions grib_v1) [])

unfoldable pub utility_extension : DataFormat → String
utility_extension grib_v1 = ".g1bd"

unfoldable pub utility_token : String → Option DataFormat
utility_token extension =
    if str_eq (utility_extension grib_v1) extension then some grib_v1 else none

-- `front()` of the extensions, none of which lists is empty.
unfoldable pub preferred_extension : DataFormat → String
preferred_extension grib_v1 = ".grib1"

-- The texts that are joined.
unfoldable pub filename_by_format : DataFormat → String × String
filename_by_format f = ("data", preferred_extension f)

pub data ErrorCode : Type 0 where
  no_error unknown_x1_format_file create_dir_x1_denied cannot_open_file_x1 : ErrorCode
  x1_is_not_directory file_x1_dont_exists serialization_error : ErrorCode

-- A call returns, ends the process with a code (`print_error` with ABORT), throws, or ends the process
-- by an exception that leaves a function that is noexcept.
pub data CallEnd : Type 0 where
  returned : ErrorCode → CallEnd
  exits : ErrorCode → CallEnd
  terminates throws_error : CallEnd

-- create_directories gives a Boolean, or throws.
pub data Created : Type 0 where
  created : Bool → Created
  throws : Created

pub record System : Type 1 where
  pub FilePath : Type 0
  pub State : Type 0
  pub Content : Type 0  -- of a DataStruct
  pub extension : FilePath → String
  pub has_extension : FilePath → Bool
  pub parent_path : FilePath → FilePath
  pub join : FilePath → String → String → FilePath  -- dir / (name + extension)
  pub exists : FilePath → State → Bool
  pub is_directory : FilePath → State → Bool
  pub create_directories : FilePath → State → Created × State
  pub truncate : FilePath → State → Bool × State  -- open with trunc and out, is_open
  pub open_in : FilePath → State → Bool
  pub open_out : FilePath → State → State
  pub serialize : Content → FilePath → State → Bool × State
  pub deserialize : FilePath → State → Content → Content

-- The one kind of catalogue, which is empty until it is asked for, `unsaved_` and `files_` for its
-- format, and `data_directory_`.
pub record Data (S : System) : Type 0 where
  pub content : S.Content
  pub unsaved : Bool
  pub file : Option S.FilePath
  pub directory : S.FilePath

abbrev pub noexcept : CallEnd → CallEnd
noexcept throws_error = terminates
noexcept (returned e) = returned e
noexcept (exits e) = exits e
noexcept terminates = terminates

module _ (S : System) where
  -- `__read__`: what reading the content fails with is not looked at.
  unfoldable pub read_format : S.FilePath → Data S → S.State → CallEnd × Data S
  read_format p d s =
      if not (S.open_in p s)
      then (exits cannot_open_file_x1, d)
      else (returned no_error, record d { content = S.deserialize p s d.content })

  unfoldable pub read : S.FilePath → Data S → S.State → CallEnd × Data S
  read p d s =
      if S.exists p s
      then elim (utility_token (S.extension p)) [
        | none ↦ (returned unknown_x1_format_file, d)
        | some f ↦ read_format p d s
      ]
      else (returned file_x1_dont_exists, d)

  -- The end of `__write__`, with the directory there.
  unfoldable pub write_file : S.FilePath → Data S → S.State → CallEnd × Data S × S.State
  write_file dir d s =
      let name = filename_by_format grib_v1 in
      let p = S.join dir name.0 name.1 in
      let (ok, after) = S.serialize d.content p (S.open_out p s) in
      if ok
      then (returned no_error, record d { file = some p }, after)
      else (returned serialization_error, d, after)

  -- `__write__`, on what create_directories came to.
  unfoldable pub write_created :
      S.FilePath → Data S → Created × S.State → CallEnd × Data S × S.State
  write_created dir d (throws, s) = (throws_error, d, s)
  write_created dir d (created made, s) =
      if not made && not (S.is_directory dir s)
      then (exits x1_is_not_directory, d, s)
      else write_file dir d s

  unfoldable pub write_format : S.FilePath → Data S → S.State → CallEnd × Data S × S.State
  write_format dir d s = write_created dir d (S.create_directories dir s)

  -- `unsaved_.erase(fmt)`, if the call returns.
  abbrev pub erase_unsaved : CallEnd × Data S × S.State → CallEnd × Data S × S.State
  erase_unsaved (returned e, d, s) = (returned e, record d { unsaved = false }, s)
  erase_unsaved (exits e, d, s) = (exits e, d, s)
  erase_unsaved (terminates, d, s) = (terminates, d, s)
  erase_unsaved (throws_error, d, s) = (throws_error, d, s)

  -- `save`, with the code that `__write__` returns and nothing looks at.
  unfoldable pub save : Data S → S.State → CallEnd × Data S × S.State
  save d s =
      if d.unsaved then erase_unsaved (write_format d.directory d s) else (returned no_error, d, s)

  -- The code of `__write__` gives way to NONE.
  abbrev pub then_none : CallEnd × Data S × S.State → CallEnd × Data S × S.State
  then_none (returned e, d, s) = (returned no_error, record d { unsaved = false }, s)
  then_none (exits e, d, s) = (exits e, d, s)
  then_none (terminates, d, s) = (terminates, d, s)
  then_none (throws_error, d, s) = (terminates, d, s)

  -- From the opening of the file on; the loop returns in its first round.
  unfoldable pub write_opened :
      S.FilePath → List DataFormat → Data S → S.State → CallEnd × Data S × S.State
  write_opened p fmts d s =
      let (is_open, opened) = S.truncate p s in
      if not is_open then (returned cannot_open_file_x1, d, opened) else elim fmts [
        | [] ↦ (returned no_error, d, opened)
        | ◌∷◌ f fs ↦ then_none (write_format p d opened)
      ]

  abbrev pub write_parent :
      S.FilePath → List DataFormat → Data S → Created × S.State → CallEnd × Data S × S.State
  write_parent p fmts d (throws, s) = (terminates, d, s)
  write_parent p fmts d (created made, s) =
      if not made then (returned create_dir_x1_denied, d, s) else write_opened p fmts d s

  unfoldable pub write : S.FilePath → Data S → S.State → CallEnd × Data S × S.State
  write p d s =
      if not (S.has_extension p)
      then (returned unknown_x1_format_file, d, s)
      else elim (extension_to_tokens (S.extension p)) [
        | none ↦ (returned unknown_x1_format_file, d, s)
        | some fmts ↦
            if not (S.exists p s) && not (S.exists (S.parent_path p) s)
            then write_parent p fmts d (S.create_directories (S.parent_path p) s)
            else write_opened p fmts d s
      ]
