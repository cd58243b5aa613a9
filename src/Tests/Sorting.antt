-- ===== src/Tests/Sorting.antt =====
-- Insertion into a sorted list, as an instance of `std::sort`.
use mashroom.Common.{ℕ, ◌≤◌, arith, List, [], ◌∷◌, leb, Bool-cases, inl, inr, if◌then◌else◌}
use mashroom.Output.{ExtractedValue}
use mashroom.Output.Exact.{AllFrom, IsSorted}

module _ {V : Type 0} where
  unfoldable pub insert : ExtractedValue V → List (ExtractedValue V) → List (ExtractedValue V)
  insert v [] = v ∷ []
  insert v (w ∷ ws) =
      let rest = insert v ws in if leb v.time_date w.time_date then v ∷ w ∷ ws else w ∷ rest

  unfoldable pub insertion_sort : List (ExtractedValue V) → List (ExtractedValue V)
  insertion_sort [] = []
  insertion_sort (v ∷ vs) = insert v (insertion_sort vs)

  insert-AllFrom :
      (t : ℕ) (v : ExtractedValue V) (ws : List (ExtractedValue V))
      → t ≤ v.time_date
      → AllFrom t ws
      → AllFrom t (insert v ws)
  unfolding insert
  insert-AllFrom t v [] h all = (h, tt)
  insert-AllFrom t v (w ∷ ws) h (here, all) = elim (Bool-cases (leb v.time_date w.time_date)) [
    | inl le ↦ rw le (h, (here, all))
    | inr gt ↦ rw gt (here, insert-AllFrom t v ws h all)
  ]

  AllFrom-le : (a b : ℕ) (vs : List (ExtractedValue V)) → a ≤ b → AllFrom b vs → AllFrom a vs
  AllFrom-le a b [] h all = tt
  AllFrom-le a b (v ∷ vs) h (here, all) = (omega arith, AllFrom-le a b vs h all)

  insert-IsSorted :
      (v : ExtractedValue V) (ws : List (ExtractedValue V)) → IsSorted ws → IsSorted (insert v ws)
  unfolding insert
  insert-IsSorted v [] s = (tt, tt)
  insert-IsSorted v (w ∷ ws) (from, s) = elim (Bool-cases (leb v.time_date w.time_date)) [
    | inl le ↦
        let h : v.time_date ≤ w.time_date = ground (arith, le) in
        rw le ((h, AllFrom-le v.time_date w.time_date ws h from), (from, s))
    | inr gt ↦
        let h : w.time_date ≤ v.time_date = ground (arith, gt) in
        rw gt (insert-AllFrom w.time_date v ws h from, insert-IsSorted v ws s)
  ]

  pub insertion_sort-IsSorted : (vs : List (ExtractedValue V)) → IsSorted (insertion_sort vs)
  unfolding insertion_sort
  insertion_sort-IsSorted [] = tt
  insertion_sort-IsSorted (v ∷ vs) =
      insert-IsSorted v (insertion_sort vs) (insertion_sort-IsSorted vs)
