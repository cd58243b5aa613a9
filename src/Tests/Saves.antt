-- ===== src/Tests/Saves.antt =====
-- A catalogue that is saved and written in a small file system.
use Prim.Native.String.{String}
use mashroom.Common.{ℕ, ◌≢◌, refl, Bool, true, false, not, none, arith}
use mashroom.Storage.{preferred_extension, no_error, returned, created, System, Data, write}
use mashroom.Storage.Saving.{IsFileSystem, write-fails}

-- The directory, the name and the extension.
abbrev Name : Type 0
Name = String × String × String

-- Everything is a directory until a file is opened, and a file from then on.
abbrev one_file : System
one_file = record {
  FilePath = Name;
  State = Bool;
  Content = ℕ;
  extension = λ p. p.2;
  has_extension = λ p. true;
  parent_path = λ p. (p.0, "", "");
  join = λ dir name ext. (dir.0, name, ext);
  exists = λ p s. true;
  is_directory = λ p s. not s;
  create_directories = λ p s. (created false, s);
  truncate = λ p s. (true, true);
  open_in = λ p s. s;
  open_out = λ p s. true;
  serialize = λ c p s. (true, s);
  deserialize = λ p s c. c;
}

one_file-IsFileSystem : IsFileSystem one_file
unfolding preferred_extension
one_file-IsFileSystem = record {
  opened_is_file = λ p s h. (λ e. ground (arith, e), refl);
  extension_of = λ dir f. refl;
}

abbrev data_dir : Name
data_dir = ("/srv", "", "")

abbrev unsaved_data : Data one_file
unsaved_data = record { content = 5; unsaved = true; file = none; directory = data_dir }

write-fails_example :
    (write one_file ("/srv", "data", ".grib") unsaved_data false).0 ≢ returned no_error
write-fails_example =
    write-fails one_file ("/srv", "data", ".grib") unsaved_data false one_file-IsFileSystem
