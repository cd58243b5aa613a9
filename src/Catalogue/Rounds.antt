-- ===== src/Catalogue/Rounds.antt =====
-- The loop of `add_data` over the messages of a file, seen in each part of the catalogue.
use mathlib.Core.List.{append_assoc, append-nil}
use mashroom.Common.{
  ℕ, ◌≡◌, refl, arith, ◌&&◌, Bool, true, Option, none, some, List, [], ◌∷◌, ◌++◌, if◌then◌else◌,
  Bool-cases, inl, inr,
}
use mashroom.Common.Table.{
  Equality, IsEquality, lookup, update, has_key, keys, keys-update, lookup-update, lookup-same,
}
use mashroom.Grib.Message.{Code}
use mashroom.Catalogue.{
  StoredPath, same_path, paths, Files, Index, GribMsgDataInfo, DataStruct, push, push_in, or_empty,
  add_position, accepted, add_message, add_messages, common_of, commons, forecasts, levels,
}
use mashroom.Catalogue.Keys.{paths-IsEquality}

-- The positions that are kept for a file, none if it is not there.
abbrev pub in_file : StoredPath → Files → List ℕ
in_file path files = elim (lookup paths path files) [ none ↦ [] | some ps ↦ ps ]

-- The positions that an index keeps under a key for a file.
unfoldable pub entry : {K : Type 0} → Equality K → K → StoredPath → Index K → List ℕ
entry E k path m = in_file path (or_empty (lookup E k m))

-- The positions of the messages that pass a test, in their order.
unfoldable pub picked :
    {G : Type 0} → (GribMsgDataInfo G → Bool) → List (GribMsgDataInfo G) → List ℕ
picked test [] = []
picked test (m ∷ ms) = let rest = picked test ms in if test m then m.msg.position ∷ rest else rest

in_file-push :
    (path g : StoredPath) (p : ℕ) (files : Files)
    → in_file g (update paths path (push p) files)
      ≡ (if same_path path g then in_file g files ++ p ∷ [] else in_file g files)
in_file-push path g p files = ground (
  arith,
  lookup-update paths paths-IsEquality g path (push p) files,
  lookup-same paths paths-IsEquality path g files,
)

in_file-push_in :
    (path g : StoredPath) (p : ℕ) (old : Option Files)
    → in_file g (push_in path p old)
      ≡ (if same_path path g then in_file g (or_empty old) ++ p ∷ [] else in_file g (or_empty old))
unfolding lookup
in_file-push_in path g p none = ground arith
in_file-push_in path g p (some files) = in_file-push path g p files

entry-add_position :
    {K : Type 0} (E : Equality K) (is : IsEquality E) (j k : K) (path g : StoredPath) (p : ℕ)
    (m : Index K)
    → entry E j g (add_position E k path p m)
      ≡ (if E.same k j && same_path path g then entry E j g m ++ p ∷ [] else entry E j g m)
unfolding entry add_position
entry-add_position E is j k path g p m = ground (
  arith,
  lookup-update E is j k (push_in path p) m,
  lookup-same E is k j m,
  in_file-push_in path g p (lookup E k m),
)

module _ {G : Type 0} (left : ℕ → Code) where
  -- The rounds of the loop, on one of the indices.
  unfoldable pub add_keyed :
      {K : Type 0}
      → Equality K
      → (GribMsgDataInfo G → K)
      → StoredPath
      → List (GribMsgDataInfo G)
      → Index K
      → Index K
  add_keyed E key path [] idx = idx
  add_keyed E key path (m ∷ ms) idx =
      add_keyed E key path ms
        (if accepted left m then add_position E (key m) path m.msg.position idx else idx)

  pub entry-add_keyed :
      {K : Type 0} (E : Equality K) (is : IsEquality E) (key : GribMsgDataInfo G → K)
      (path g : StoredPath) (j : K) (ms : List (GribMsgDataInfo G)) (idx : Index K)
      → entry E j g (add_keyed E key path ms idx) ≡ (
          if same_path path g
          then entry E j g idx ++ picked (λ m. accepted left m && E.same (key m) j) ms
          else entry E j g idx)
  unfolding add_keyed picked
  entry-add_keyed E is key path g j [] idx = ground (arith, append-nil (entry E j g idx))
  entry-add_keyed E is key path g j (m ∷ ms) idx =
      let p = m.msg.position in
      let next = if accepted left m then add_position E (key m) path p idx else idx in
      ground (
        arith,
        entry-add_keyed E is key path g j ms next,
        entry-add_position E is j (key m) path g p idx,
        append_assoc (entry E j g idx) (p ∷ [])
            (picked (λ m. accepted left m && E.same (key m) j) ms),
      )

  unfoldable pub push_all : StoredPath → List (GribMsgDataInfo G) → Files → Files
  push_all path [] files = files
  push_all path (m ∷ ms) files =
      push_all path ms
        (if accepted left m then update paths path (push m.msg.position) files else files)

  pub in_file-push_all :
      (path g : StoredPath) (ms : List (GribMsgDataInfo G)) (files : Files)
      → in_file g (push_all path ms files) ≡ (
          if same_path path g
          then in_file g files ++ picked (accepted left) ms
          else in_file g files)
  unfolding push_all picked
  in_file-push_all path g [] files = ground (arith, append-nil (in_file g files))
  in_file-push_all path g (m ∷ ms) files =
      let p = m.msg.position in
      ground (
        arith,
        in_file-push_all path g ms
            (if accepted left m then update paths path (push p) files else files),
        in_file-push path g p files,
        append_assoc (in_file g files) (p ∷ []) (picked (accepted left) ms),
      )

  -- A file that is there keeps its key, with the time of its first check.
  pub keys-push_all :
      (path : StoredPath) (ms : List (GribMsgDataInfo G)) (files : Files)
      → has_key paths path files ≡ true
      → (keys paths (push_all path ms files) ≡ keys paths files)
        × (has_key paths path (push_all path ms files) ≡ true)
  unfolding push_all
  keys-push_all path [] files h = (refl, h)
  keys-push_all path (m ∷ ms) files h =
      let next = if accepted left m then update paths path (push m.msg.position) files else files in
      let there : has_key paths path next ≡ true = ground (
        arith,
        lookup-update paths paths-IsEquality path path (push m.msg.position) files,
        paths-IsEquality.same_refl path,
      ) in
      ground (
        arith,
        keys-push_all path ms next there,
        keys-update paths path (push m.msg.position) files h,
      )

module _ {G T : Type 0} (grids : Equality G) (left : ℕ → Code) where
  -- The loop as a whole changes each part of the catalogue by itself.
  pub add_messages-parts :
      (path : StoredPath) (ms : List (GribMsgDataInfo G)) (d : DataStruct G T)
      → add_messages grids left path ms d ≡ record d {
        positions = push_all left path ms d.positions;
        by_common = add_keyed left commons (λ m. common_of m.msg) path ms d.by_common;
        by_forecast = add_keyed left forecasts (λ m. m.msg.time) path ms d.by_forecast;
        by_grid = add_keyed left grids (λ m. m.grid_data) path ms d.by_grid;
        by_level = add_keyed left levels (λ m. m.msg.height) path ms d.by_level;
      }
  unfolding add_messages add_message push_all add_keyed
  add_messages-parts path [] d = refl
  add_messages-parts path (m ∷ ms) d = elim (Bool-cases (accepted left m)) [
    | inl e ↦ rw (add_messages-parts path ms (add_message grids left path m d), e) refl
    | inr e ↦ rw (add_messages-parts path ms (add_message grids left path m d), e) refl
  ]
