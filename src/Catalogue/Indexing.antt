-- ===== src/Catalogue/Indexing.antt =====
-- What `add_data` of the messages of a file leaves in the catalogue.
use Prim.Native.String.{String}
use mashroom.Common.{ℕ, ◌≡◌, refl, ◌∙◌, arith, ◌&&◌, true, List, [], ◌++◌, if◌then◌else◌}
use mashroom.Common.Table.{
  Equality, IsEquality, update, has_key, keys, lookup-update, keys-update, has_key-same,
}
use mashroom.Grib.Message.{Code}
use mashroom.Catalogue.{
  StoredPath, same_path, paths, file_path, Index, GribMsgDataInfo, DataStruct, accepted, add_data,
  common_of, commons, forecasts, levels, same_common, CommonDataProperties,
}
use mashroom.Catalogue.Keys.{
  paths-IsEquality, commons-IsEquality, forecasts-IsEquality, levels-IsEquality,
}
use mashroom.Catalogue.Rounds.{
  in_file, entry, picked, entry-add_keyed, in_file-push_all, add_messages-parts, keys-push_all,
}

module _ {G : Type 0} (left : ℕ → Code) where
  -- Under `j`, the positions of the accepted messages with this key come behind those that the
  -- index had for the file, and no other file's change.
  abbrev pub Grows :
      {K : Type 0}
      → Equality K
      → (GribMsgDataInfo G → K)
      → StoredPath
      → List (GribMsgDataInfo G)
      → Index K
      → Index K
      → Type 0
  Grows {K} E key path ms before after =
      (j : K) (g : StoredPath)
      → entry E j g after ≡ (
          if same_path path g
          then entry E j g before ++ picked (λ m. accepted left m && E.same (key m) j) ms
          else entry E j g before)

module _ {G T : Type 0} (grids : Equality G) (left : ℕ → Code) where
  -- Each index of properties, forecasts, grids and levels gets the positions of the accepted
  -- messages under their own key, behind those that it had for the file, and nothing else changes in
  -- it; the index of times stays as it is.
  pub add_data-Grows :
      (name : String) (now : ℕ) (ms : List (GribMsgDataInfo G)) (d : DataStruct G T)
      → IsEquality grids
      → let path = file_path name now in
        let r = add_data grids left name now ms d in
        Grows left commons (λ m. common_of m.msg) path ms d.by_common r.by_common
        × Grows left forecasts (λ m. m.msg.time) path ms d.by_forecast r.by_forecast
        × Grows left grids (λ m. m.grid_data) path ms d.by_grid r.by_grid
        × Grows left levels (λ m. m.msg.height) path ms d.by_level r.by_level
        × (r.by_date ≡ d.by_date)
  unfolding add_data
  add_data-Grows name now ms d is =
      let path = file_path name now in
      rw (add_messages-parts grids left path ms _) (
        (λ j g. entry-add_keyed left commons commons-IsEquality _ path g j ms d.by_common),
        (λ j g. entry-add_keyed left forecasts forecasts-IsEquality _ path g j ms d.by_forecast),
        (λ j g. entry-add_keyed left grids is _ path g j ms d.by_grid),
        (λ j g. entry-add_keyed left levels levels-IsEquality _ path g j ms d.by_level),
        refl,
      )

  -- Adding a file makes its own positions those of the accepted messages, in order, in place of those
  -- that it had, and changes those of no other file.
  pub add_data-positions :
      (name : String) (now : ℕ) (ms : List (GribMsgDataInfo G)) (d : DataStruct G T)
      (g : StoredPath)
      → in_file g (add_data grids left name now ms d).positions ≡ (
          if same_path (file_path name now) g
          then picked (accepted left) ms
          else in_file g d.positions)
  unfolding add_data
  add_data-positions name now ms d g =
      let path = file_path name now in
      let cleared = update paths path (λ old. []) d.positions in
      rw (add_messages-parts grids left path ms (record d { positions = cleared })) (
        ground (
          arith,
          in_file-push_all left path g ms cleared,
          lookup-update paths paths-IsEquality g path (λ old. []) d.positions,
        ))

  -- The file is there afterwards, and if it was there before, then no key changes.
  add_data-keys :
      (name : String) (now : ℕ) (ms : List (GribMsgDataInfo G)) (d : DataStruct G T)
      → let path = file_path name now in
        let r = add_data grids left name now ms d in
        (has_key paths path r.positions ≡ true)
        × (has_key paths path d.positions ≡ true → keys paths r.positions ≡ keys paths d.positions)
  unfolding add_data
  add_data-keys name now ms d =
      let path = file_path name now in
      let cleared = update paths path (λ old. []) d.positions in
      let there : has_key paths path cleared ≡ true = ground (
        arith,
        lookup-update paths paths-IsEquality path path (λ old. []) d.positions,
        paths-IsEquality.same_refl path,
      ) in
      let (kept, still) = keys-push_all left path ms cleared there in
      rw (add_messages-parts grids left path ms (record d { positions = cleared }))
        (still, λ before. kept ∙ keys-update paths path (λ old. []) d.positions before)

  -- Indexing a file again keeps its positions and its key, with the time of the first check, but
  -- every position comes once more under its common properties.
  pub add_data-again :
      (name : String) (now later : ℕ) (ms : List (GribMsgDataInfo G)) (d : DataStruct G T)
      → IsEquality grids
      → let path = file_path name now in
        let once = add_data grids left name now ms d in
        let twice = add_data grids left name later ms once in
        (in_file path twice.positions ≡ in_file path once.positions)
        × (keys paths twice.positions ≡ keys paths once.positions)
        × ((c : CommonDataProperties)
            → entry commons c path twice.by_common
              ≡ entry commons c path once.by_common
                ++ picked (λ m. accepted left m && same_common (common_of m.msg) c) ms)
  unfolding same_path
  add_data-again name now later ms d is =
      let path = file_path name now in
      let once = add_data grids left name now ms d in
      let same : same_path (file_path name later) path ≡ true = paths-IsEquality.same_refl path in
      (
        ground (
          arith,
          same,
          add_data-positions name now ms d path,
          add_data-positions name later ms once path,
        ),
        (add_data-keys name later ms once).1 (
            has_key-same paths paths-IsEquality path (file_path name later) once.positions same
              (add_data-keys name now ms d).0),
        λ c. ground (arith, same, (add_data-Grows name later ms once is).0 c path),
      )
