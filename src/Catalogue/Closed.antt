-- ===== src/Catalogue/Closed.antt =====
-- Every file that an index lists is one of the catalogue.
use Prim.Native.String.{String}
use mashroom.Common.{
  ℕ, ◌≡◌, refl, arith, true, Option, none, some, List, [], ◌∷◌, Bool-cases, inl, inr,
}
use mashroom.Common.Table.{Equality, lookup, update, has_key, put_all, has_key-update}
use mashroom.Grib.Message.{Code}
use mashroom.Catalogue.{
  StoredPath, paths, Files, Index, DataStruct, GribMsgDataInfo, push, push_in, add_position,
  accepted, add_message, add_messages, add_data, or_empty, put_index, has_files, has_index,
  has_paths, merged, merge, file_path, commons, forecasts, levels, common_of,
}
use mashroom.Catalogue.Keys.{paths-IsEquality}

abbrev pub IsClosed : {G T : Type 0} → DataStruct G T → Type 0
IsClosed d = has_paths d.positions d ≡ true

-- All paths that `a` has, `b` has.
abbrev Within : Files → Files → Type 0
Within a b = (g : StoredPath) → has_key paths g a ≡ true → has_key paths g b ≡ true

Within-update :
    (k : StoredPath) (f : Option (List ℕ) → List ℕ) (m : Files) → Within m (update paths k f m)
Within-update k f m g h = ground (arith, has_key-update paths paths-IsEquality g k f m)

Within-put_all : (other m : Files) → Within m (put_all paths other m)
unfolding put_all
Within-put_all [] m g h = h
Within-put_all ((k, v) ∷ other) m g h =
    Within-put_all other (update paths k (λ old. v) m) g (Within-update k (λ old. v) m g h)

Within-put_other : (other m : Files) → Within other (put_all paths other m)
unfolding put_all lookup
Within-put_other [] m g h = ground arith
Within-put_other ((k, v) ∷ other) m g h = ground (
  arith,
  Within-put_other other (update paths k (λ old. v) m) g,
  Within-put_all other (update paths k (λ old. v) m) g,
  has_key-update paths paths-IsEquality g k (λ old. v) m,
)

has_files-Within :
    (a b : Files) (files : Files) → Within a b → has_files a files ≡ true → has_files b files ≡ true
unfolding has_files
has_files-Within a b [] w h = refl
has_files-Within a b ((g, ps) ∷ files) w h = ground (arith, w g, has_files-Within a b files w)

has_index-Within :
    {K : Type 0} (a b : Files) (m : Index K)
    → Within a b
    → has_index a m ≡ true
    → has_index b m ≡ true
unfolding has_index
has_index-Within a b [] w h = refl
has_index-Within a b ((k, files) ∷ m) w h =
    ground (arith, has_files-Within a b files w, has_index-Within a b m w)

has_files-update :
    (all : Files) (k : StoredPath) (f : Option (List ℕ) → List ℕ) (files : Files)
    → has_key paths k all ≡ true
    → has_files all files ≡ true
    → has_files all (update paths k f files) ≡ true
unfolding has_files update
has_files-update all k f [] there h = ground (arith, there)
has_files-update all k f ((g, ps) ∷ files) there h =
    ground (arith, has_files-update all k f files there)

has_files-put_all :
    (all files m : Files)
    → has_files all files ≡ true
    → has_files all m ≡ true
    → has_files all (put_all paths files m) ≡ true
unfolding has_files put_all
has_files-put_all all [] m h hm = hm
has_files-put_all all ((k, v) ∷ files) m h hm = ground (
  arith,
  has_files-put_all all files (update paths k (λ old. v) m),
  has_files-update all k (λ old. v) m,
)

has_index-update :
    {K : Type 0} (E : Equality K) (all : Files) (k : K) (f : Option Files → Files) (m : Index K)
    → ((old : Option Files) → has_files all (or_empty old) ≡ true → has_files all (f old) ≡ true)
    → has_index all m ≡ true
    → has_index all (update E k f m) ≡ true
unfolding has_index update has_files
has_index-update E all k f [] keeps h = ground (arith, keeps none)
has_index-update E all k f ((a, files) ∷ m) keeps h =
    ground (arith, keeps (some files), has_index-update E all k f m keeps)

has_index-put_index :
    {K : Type 0} (E : Equality K) (all : Files) (other m : Index K)
    → has_index all other ≡ true
    → has_index all m ≡ true
    → has_index all (put_index E other m) ≡ true
unfolding has_index put_index
has_index-put_index E all [] m h hm = hm
has_index-put_index E all ((k, files) ∷ other) m h hm =
    let put = λ (old : Option Files). put_all paths files (or_empty old) in
    ground (
      arith,
      has_index-put_index E all other (update E k put m),
      has_index-update E all k put m
          (λ old ho. has_files-put_all all files (or_empty old) (ground arith) ho),
    )

has_files-push_in :
    (all : Files) (path : StoredPath) (p : ℕ) (old : Option Files)
    → has_key paths path all ≡ true
    → has_files all (or_empty old) ≡ true
    → has_files all (push_in path p old) ≡ true
unfolding has_files
has_files-push_in all path p none there h = ground (arith, there)
has_files-push_in all path p (some files) there h = has_files-update all path (push p) files there h

has_index-add_position :
    {K : Type 0} (E : Equality K) (all : Files) (k : K) (path : StoredPath) (p : ℕ) (m : Index K)
    → has_key paths path all ≡ true
    → has_index all m ≡ true
    → has_index all (add_position E k path p m) ≡ true
unfolding add_position
has_index-add_position E all k path p m there h =
    has_index-update E all k (push_in path p) m
      (λ old ho. has_files-push_in all path p old there ho) h

has_paths-Within :
    {G T : Type 0} (a b : Files) (d : DataStruct G T)
    → Within a b
    → has_paths a d ≡ true
    → has_paths b d ≡ true
unfolding has_paths
has_paths-Within a b d w h = ground (
  arith,
  has_index-Within a b d.by_common w,
  has_index-Within a b d.by_date w,
  has_index-Within a b d.by_grid w,
  has_index-Within a b d.by_forecast w,
  has_index-Within a b d.by_level w,
)

module _ {G T : Type 0} (grids : Equality G) (left : ℕ → Code) where
  add_message-IsClosed :
      (path : StoredPath) (m : GribMsgDataInfo G) (d : DataStruct G T)
      → has_key paths path d.positions ≡ true
      → IsClosed d
      → (has_key paths path (add_message grids left path m d).positions ≡ true)
        × IsClosed (add_message grids left path m d)
  unfolding add_message has_paths
  add_message-IsClosed path m d there h =
      let p = m.msg.position in
      let all = update paths path (push p) d.positions in
      let still : has_key paths path all ≡ true =
        Within-update path (push p) d.positions path there in
      let h' = has_paths-Within d.positions all d (Within-update path (push p) d.positions) h in
      elim (Bool-cases (accepted left m)) [
        | inl e ↦ ground (
          arith,
          still,
          h',
          has_index-add_position commons all (common_of m.msg) path p d.by_common still,
          has_index-add_position forecasts all m.msg.time path p d.by_forecast still,
          has_index-add_position grids all m.grid_data path p d.by_grid still,
          has_index-add_position levels all m.msg.height path p d.by_level still,
        )
        | inr e ↦ ground (arith, there, h)
      ]

  add_messages-IsClosed :
      (path : StoredPath) (ms : List (GribMsgDataInfo G)) (d : DataStruct G T)
      → has_key paths path d.positions ≡ true
      → IsClosed d
      → IsClosed (add_messages grids left path ms d)
  unfolding add_messages
  add_messages-IsClosed path [] d there h = h
  add_messages-IsClosed path (m ∷ ms) d there h =
      let (there', h') = add_message-IsClosed path m d there h in
      add_messages-IsClosed path ms (add_message grids left path m d) there' h'

  -- Adding a file keeps every path of the indices among those of the catalogue.
  pub add_data-IsClosed :
      (name : String) (now : ℕ) (ms : List (GribMsgDataInfo G)) (d : DataStruct G T)
      → IsClosed d
      → IsClosed (add_data grids left name now ms d)
  unfolding add_data has_paths
  add_data-IsClosed name now ms d h =
      let path = file_path name now in
      let all = update paths path (λ old. []) d.positions in
      add_messages-IsClosed path ms (record d { positions = all })
        (ground (
          arith,
          has_key-update paths paths-IsEquality path path (λ old. []) d.positions,
          paths-IsEquality.same_refl path,
        ))
        (has_paths-Within d.positions all d (Within-update path (λ old. []) d.positions) h)

module _ {G T : Type 0} (grids : Equality G) (times : Equality T) where
  has_paths-merged :
      (other d : DataStruct G T)
      → has_paths (put_all paths other.positions d.positions) other ≡ true
      → has_paths (put_all paths other.positions d.positions) d ≡ true
      → IsClosed (merged grids times other d)
  unfolding merged has_paths
  has_paths-merged other d ho hd =
      let all = put_all paths other.positions d.positions in
      ground (
        arith,
        has_index-put_index commons all other.by_common d.by_common,
        has_index-put_index times all other.by_date d.by_date,
        has_index-put_index grids all other.by_grid d.by_grid,
        has_index-put_index forecasts all other.by_forecast d.by_forecast,
        has_index-put_index levels all other.by_level d.by_level,
      )

  -- A catalogue whose indices list only its own files can be added to any other: no path is missing
  -- when it is looked up. If the other one is such a catalogue too, so is the result.
  pub merge-IsClosed :
      (other d : DataStruct G T)
      → IsClosed other
      → (merge grids times other d ≡ some (merged grids times other d))
        × (IsClosed d → IsClosed (merged grids times other d))
  unfolding merge merged
  merge-IsClosed other d h =
      let all = put_all paths other.positions d.positions in
      let whole : has_paths all other ≡ true =
        has_paths-Within other.positions all other (Within-put_other other.positions d.positions)
          h in
      (
        rw whole refl,
        λ hd.
            has_paths-merged other d whole
              (has_paths-Within d.positions all d (Within-put_all other.positions d.positions) hd),
      )
