-- ===== src/Output/Periods.antt =====
-- The periods that the loop over the files goes through.
use mashroom.Common.{
  ℕ, zero, suc, ◌+◌, ◌<◌, ◌≤◌, ◌≡◌, refl, arith, ◌&&◌, true, some, List, [], ◌∷◌, map, ltb, leb,
  ltb→lt, Bool-cases, inl, inr, ◌==◌, if◌then◌else◌,
}
use mashroom.Output.{
  ExtractedValues, Disk, File, returned_paths, opened, make_and_open_file, write_periods,
}

-- The periods from `lower` on, the first of which ends at `upper`, as long as they start by `max_time`.
pub data IsPeriods (next : ℕ → ℕ) (max_time : ℕ) : ℕ → ℕ → List (ℕ × ℕ) → Type 0 where
  ended : {lower upper : ℕ} → max_time < lower → IsPeriods next max_time lower upper []
  more :
      {lower upper : ℕ} {ps : List (ℕ × ℕ)}
      → lower ≤ max_time
      → IsPeriods next max_time upper (next upper) ps
      → IsPeriods next max_time lower upper ((lower, upper) ∷ ps)

-- In how many periods a time lies, their bounds included.
unfoldable pub periods_at : ℕ → List (ℕ × ℕ) → ℕ
periods_at t [] = 0
periods_at t ((lo, hi) ∷ ps) = (if leb lo t && leb t hi then 1 else 0) + periods_at t ps

-- How many periods start at a time.
unfoldable pub starting : ℕ → List (ℕ × ℕ) → ℕ
starting t [] = 0
starting t ((lo, hi) ∷ ps) = (if lo == t then 1 else 0) + starting t ps

-- The end of the last period, behind one that ends at `h`.
unfoldable pub last_end : ℕ → List (ℕ × ℕ) → ℕ
last_end h [] = h
last_end h ((lo, hi) ∷ ps) = last_end hi ps

module _ (next : ℕ → ℕ) (max_time : ℕ) (moves : (t : ℕ) → t < next t) where
  last_end-ge :
      (h lo hi : ℕ) (ps : List (ℕ × ℕ))
      → lo < hi
      → h ≤ hi
      → IsPeriods next max_time lo hi ps
      → h ≤ last_end h ps
  unfolding last_end
  last_end-ge h lo hi [] l k (ended e) = omega arith
  last_end-ge h lo hi ((a, b) ∷ ps) l k (more s rest) =
      omega (arith, last_end-ge hi hi (next hi) ps (moves hi) (omega (arith, moves hi)) rest)

  -- A time from the start of the first period to the end of the last lies in one period, and in one
  -- more for each later period that starts at it; other times lie in none.
  pub periods_at-periods :
      (t lo hi : ℕ) (ps : List (ℕ × ℕ))
      → lo < hi
      → lo ≤ max_time
      → IsPeriods next max_time hi (next hi) ps
      → periods_at t ((lo, hi) ∷ ps)
        ≡ (if leb lo t && leb t (last_end hi ps) then 1 else 0) + starting t ps
  unfolding periods_at starting last_end
  periods_at-periods t lo hi [] l s (ended e) = ground arith
  periods_at-periods t lo hi ((a, b) ∷ ps) l s (more s' rest) = ground (
    arith,
    periods_at-periods t hi (next hi) ps (moves hi) s' rest,
    last_end-ge b b (next b) ps (moves b) (omega (arith, moves b)) rest,
    moves hi,
  )

abbrev pub file_of : {K V : Type 0} → (ℕ → ℕ → ExtractedValues K V) → ℕ × ℕ → File K V
file_of entries (lo, hi) = record { name_time = lo; entries = entries lo hi }

pub periods_inv :
    (next : ℕ → ℕ) (max_time lo hi : ℕ) (qs : List (ℕ × ℕ))
    → IsPeriods next max_time lo hi qs
    → lo ≤ max_time
    → (ps : List (ℕ × ℕ)) × (qs ≡ (lo, hi) ∷ ps) × IsPeriods next max_time hi (next hi) ps
periods_inv next max_time lo hi [] (ended e) h = absurd (omega arith)
periods_inv next max_time lo hi (q ∷ ps) (more s rest) h = (ps, refl, rest)

module _ {K V : Type 0} (next : ℕ → ℕ) (max_time : ℕ) (disk : Disk)
    (entries : ℕ → ℕ → ExtractedValues K V) where
  pub write_periods-IsPeriods :
      (fuel lower upper : ℕ)
      → ((t : ℕ) → t < next t)
      → ((t : ℕ) → make_and_open_file disk t ≡ opened)
      → ((t : ℕ) → disk.writes t ≡ true)
      → lower < upper
      → 1 ≤ fuel
      → suc max_time < lower + fuel
      → (ps : List (ℕ × ℕ)) × IsPeriods next max_time lower upper ps
        × (write_periods disk next entries fuel lower upper max_time
            ≡ some (returned_paths (map (file_of entries) ps)))
  unfolding write_periods
  write_periods-IsPeriods zero lower upper moves o w l one enough = absurd (omega arith)
  write_periods-IsPeriods (suc fuel) lower upper moves o w l one enough =
      elim (Bool-cases (ltb max_time lower)) [
        | inl over ↦ ([], ended (ltb→lt max_time lower over), ground (arith, over))
        | inr on ↦
            let s : lower ≤ max_time = ground (arith, on) in
            let (ps, periods, e) =
              write_periods-IsPeriods fuel upper (next upper) moves o w (moves upper) (omega arith)
                (omega arith) in
            ((lower, upper) ∷ ps, more s periods, ground (arith, on, e, o lower, w lower))
      ]
