-- ===== src/Catalogue/Merging.antt =====
-- `add_data` of another catalogue: what is found afterwards.
use mashroom.Common.{ℕ, ◌≡◌, refl, arith, true, false, Option, none, some, List, [], ◌∷◌}
use mashroom.Common.Table.{
  Equality, IsEquality, lookup, update, has_key, put_all, IsTable, lookup-update, lookup-same,
  lookup-put_all,
}
use mashroom.Catalogue.{
  StoredPath, paths, Files, Index, or_empty, DataStruct, put_index, merged, merge, commons,
  forecasts, levels,
}
use mashroom.Catalogue.Keys.{
  paths-IsEquality, commons-IsEquality, forecasts-IsEquality, levels-IsEquality,
}

-- What an index keeps under a key for a file.
abbrev pub found : {K : Type 0} → Equality K → K → StoredPath → Index K → Option (List ℕ)
found E j g m = lookup paths g (or_empty (lookup E j m))

-- Neither a key nor a file under a key occurs twice.
unfoldable pub IsIndex : {K : Type 0} → Equality K → Index K → Type 0
IsIndex E [] = Unit
IsIndex E ((k, files) ∷ m) = (has_key E k m ≡ false) × IsTable paths files × IsIndex E m

abbrev pub or_else : Option (List ℕ) → Option (List ℕ) → Option (List ℕ)
or_else none b = b
or_else (some a) b = some a

lookup-put_files :
    (g : StoredPath) (files m : Files)
    → IsTable paths files
    → lookup paths g (put_all paths files m) ≡ or_else (lookup paths g files) (lookup paths g m)
lookup-put_files g files m h = ground (arith, lookup-put_all paths paths-IsEquality g files m h)

-- No file is kept under a key that is not there.
found-absent :
    {K : Type 0} (E : Equality K) (is : IsEquality E) (j k : K) (g : StoredPath) (m : Index K)
    → has_key E k m ≡ false
    → E.same k j ≡ true
    → found E j g m ≡ none
unfolding lookup
found-absent E is j k g m h e = ground (arith, lookup-same E is k j m e)

found-put_index :
    {K : Type 0} (E : Equality K) (is : IsEquality E) (j : K) (g : StoredPath) (other m : Index K)
    → IsIndex E other
    → found E j g (put_index E other m) ≡ or_else (found E j g other) (found E j g m)
unfolding lookup put_index IsIndex
found-put_index E is j g [] m h = refl
found-put_index E is j g ((k, files) ∷ other) m h =
    let put = λ (old : Option Files). put_all paths files (or_empty old) in
    ground (
      arith,
      found-put_index E is j g other (update E k put m) h.2,
      lookup-update E is j k put m,
      lookup-same E is k j m,
      found-absent E is j k g other h.0,
      lookup-put_files g files (or_empty (lookup E k m)) h.1,
    )

abbrev pub Overrides : {K : Type 0} → Equality K → Index K → Index K → Index K → Type 0
Overrides {K} E other before after =
    (j : K) (g : StoredPath) → found E j g after ≡ or_else (found E j g other) (found E j g before)

module _ {G T : Type 0} (grids : Equality G) (times : Equality T) where
  -- No key, and no file under a key, occurs twice.
  pub record IsUnique (d : DataStruct G T) : Type 0 where
    pub of_positions : IsTable paths d.positions
    pub of_common : IsIndex commons d.by_common
    pub of_date : IsIndex times d.by_date
    pub of_grid : IsIndex grids d.by_grid
    pub of_forecast : IsIndex forecasts d.by_forecast
    pub of_level : IsIndex levels d.by_level

  merge-merged :
      (other d r : DataStruct G T)
      → merge grids times other d ≡ some r
      → r ≡ merged grids times other d
  unfolding merge
  merge-merged other d r e = ground arith

  -- After another catalogue was added, every file has the positions, as a whole and under every key
  -- of every index, that the other catalogue has for it, and where that has none, those of before.
  pub merge-Overrides :
      (other d r : DataStruct G T)
      → IsEquality grids
      → IsEquality times
      → IsUnique other
      → merge grids times other d ≡ some r
      → ((g : StoredPath)
          → lookup paths g r.positions
            ≡ or_else (lookup paths g other.positions) (lookup paths g d.positions))
        × Overrides commons other.by_common d.by_common r.by_common
        × Overrides times other.by_date d.by_date r.by_date
        × Overrides grids other.by_grid d.by_grid r.by_grid
        × Overrides forecasts other.by_forecast d.by_forecast r.by_forecast
        × Overrides levels other.by_level d.by_level r.by_level
  unfolding merged
  merge-Overrides other d r is_grids is_times u e = rw (merge-merged other d r e) (
    (λ g. lookup-put_files g other.positions d.positions u.of_positions),
    (λ j g. found-put_index commons commons-IsEquality j g _ _ u.of_common),
    (λ j g. found-put_index times is_times j g _ _ u.of_date),
    (λ j g. found-put_index grids is_grids j g _ _ u.of_grid),
    (λ j g. found-put_index forecasts forecasts-IsEquality j g _ _ u.of_forecast),
    (λ j g. found-put_index levels levels-IsEquality j g _ _ u.of_level),
  )
