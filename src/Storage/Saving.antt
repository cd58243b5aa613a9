-- ===== src/Storage/Saving.antt =====
-- What becomes of a catalogue that is saved, written or read.
use Prim.Native.String.{String}
use mashroom.Common.{
  ◌≡◌, ◌≢◌, ◌⊎◌, inl, inr, ◌∙◌, ap, arith, true, false, none, some, [], ◌∷◌, Bool-cases,
}
use mashroom.Common.Table.{lookup, update}
use mashroom.Storage.{
  DataFormat, grib_v1, token_to_extensions, extension_to_tokens, put_extensions, utility_extension,
  utility_token, preferred_extension, filename_by_format, ErrorCode, no_error,
  unknown_x1_format_file, file_x1_dont_exists, serialization_error, returned, created, System, Data,
  read, save, write, write_opened, write_format, write_created, write_file,
}

-- A file that was opened to be written is no directory, and none is made in its place; the extension
-- of a name is what stands from its dot on.
pub record IsFileSystem (S : System) : Type 0 where
  pub opened_is_file :
      (p : S.FilePath) (s : S.State)
      → (S.truncate p s).0 ≡ true
      → let made = S.create_directories p (S.truncate p s).1 in
        (made.0 ≢ created true) × (S.is_directory p made.1 ≡ false)
  pub extension_of :
      (dir : S.FilePath) (f : DataFormat)
      → S.extension (S.join dir "data" (preferred_extension f)) ≡ preferred_extension f

extension_to_tokens_cases :
    (e : String) → (extension_to_tokens e ≡ none) ⊎ (extension_to_tokens e ≡ some (grib_v1 ∷ []))
unfolding extension_to_tokens put_extensions token_to_extensions lookup update
extension_to_tokens_cases e = ground arith

module _ (S : System) where
  opened_fails :
      (p : S.FilePath) (d : Data S) (s : S.State)
      → IsFileSystem S
      → (write_opened S p (grib_v1 ∷ []) d s).0 ≢ returned no_error
  unfolding write_opened write_format write_created
  opened_fails p d s is = elim (Bool-cases (S.truncate p s).0) [
    | inl opened ↦
        let (not_made, no_directory) = is.opened_is_file p s opened in
        ground (arith, opened, not_made, no_directory)
    | inr closed ↦ ground (arith, closed)
  ]

  -- `write` never returns NONE: it opens the file and then asks for a directory in its place.
  pub write-fails :
      (p : S.FilePath) (d : Data S) (s : S.State)
      → IsFileSystem S
      → (write S p d s).0 ≢ returned no_error
  unfolding write
  write-fails p d s is = elim (extension_to_tokens_cases (S.extension p)) [
    | inl e ↦ ground (arith, e)
    | inr e ↦ ground (
      arith,
      e,
      opened_fails p d s is,
      opened_fails p d (S.create_directories (S.parent_path p) s).1 is,
    )
  ]

  -- `save` takes the mark of unsaved data away whenever it returns, though with an error of the
  -- serialization it has kept no file.
  pub save-unmarks :
      (d : Data S) (s : S.State) (e : ErrorCode)
      → d.unsaved ≡ true
      → (save S d s).0 ≡ returned e
      → let after = (save S d s).1 in
        (after.unsaved ≡ false)
        × ((e ≡ no_error) ⊎ ((e ≡ serialization_error) × (after.file ≡ d.file)))
  unfolding save write_format write_created write_file
  save-unmarks d s e marked ends = ground (arith, marked, ends)

  -- The file that `save` records.
  saved_file :
      (d : Data S) (s : S.State)
      → d.unsaved ≡ true
      → (save S d s).0 ≡ returned no_error
      → (save S d s).1.file ≡ some (S.join d.directory "data" (preferred_extension grib_v1))
  unfolding save write_format write_created write_file filename_by_format
  saved_file d s marked ends = ground (arith, marked, ends)

  -- What `save` has written, `read` does not take: it knows another extension.
  pub read-save :
      (d : Data S) (s now : S.State) (p : S.FilePath)
      → IsFileSystem S
      → d.unsaved ≡ true
      → (save S d s).0 ≡ returned no_error
      → let after = (save S d s).1 in
        after.file ≡ some p
        → (read S p after now ≡ (returned unknown_x1_format_file, after))
          ⊎ (read S p after now ≡ (returned file_x1_dont_exists, after))
  unfolding read utility_token utility_extension preferred_extension
  read-save d s now p is marked ends written =
      let place = S.join d.directory "data" (preferred_extension grib_v1) in
      let same : p ≡ place = ground (arith, written, saved_file d s marked ends) in
      let other : S.extension p ≡ preferred_extension grib_v1 =
        ap S.extension same ∙ is.extension_of d.directory grib_v1 in
      let unknown : utility_token (S.extension p) ≡ none = ap utility_token other in
      ground (arith, unknown)
