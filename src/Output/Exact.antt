-- ===== src/Output/Exact.antt =====
-- What the files of write_json_file and write_bin_file hold.
use mashroom.Common.{
  ℕ, ◌<◌, ◌≤◌, ◌≡◌, refl, ap, ◌∙◌, arith, ◌&&◌, List, [], ◌∷◌, ltb, leb, Bool-cases, inl, inr,
  if◌then◌else◌,
}
use mashroom.Output.{
  ExtractedValue, ExtractedValues, Sort, sort_all, from_lower, to_upper, span, json_entries,
  bin_entries, push_span,
}

module _ {V : Type 0} where
  -- No value is before the time.
  abbrev pub AllFrom : ℕ → List (ExtractedValue V) → Type 0
  AllFrom t [] = Unit
  AllFrom t (v ∷ vs) = (t ≤ v.time_date) × AllFrom t vs

  abbrev pub IsSorted : List (ExtractedValue V) → Type 0
  IsSorted [] = Unit
  IsSorted (v ∷ vs) = AllFrom v.time_date vs × IsSorted vs

  -- The values with a time from `lo` to `hi`, both included.
  unfoldable pub between : ℕ → ℕ → List (ExtractedValue V) → List (ExtractedValue V)
  between lo hi [] = []
  between lo hi (v ∷ vs) =
      let rest = between lo hi vs in
      if leb lo v.time_date && leb v.time_date hi then v ∷ rest else rest

  AllFrom-trans : (a b : ℕ) (vs : List (ExtractedValue V)) → a ≤ b → AllFrom b vs → AllFrom a vs
  AllFrom-trans a b [] h all = tt
  AllFrom-trans a b (v ∷ vs) h (here, all) = (omega arith, AllFrom-trans a b vs h all)

  between_late :
      (lo hi t : ℕ) (vs : List (ExtractedValue V)) → hi < t → AllFrom t vs → between lo hi vs ≡ []
  unfolding between
  between_late lo hi t [] h all = refl
  between_late lo hi t (v ∷ vs) h (here, all) = ground (arith, between_late lo hi t vs h all)

  to_upper-between :
      (lo hi t : ℕ) (vs : List (ExtractedValue V))
      → lo ≤ t
      → AllFrom t vs
      → IsSorted vs
      → to_upper hi vs ≡ between lo hi vs
  unfolding to_upper between
  to_upper-between lo hi t [] h all s = refl
  to_upper-between lo hi t (v ∷ vs) h (here, all) (from, s) = ground (
    arith,
    to_upper-between lo hi t vs h all s,
    λ (p : hi < v.time_date). between_late lo hi v.time_date vs p from,
  )

  -- On sorted values, the span is that of the times between the bounds.
  pub span-between :
      (lo hi : ℕ) (vs : List (ExtractedValue V)) → IsSorted vs → span lo hi vs ≡ between lo hi vs
  unfolding span from_lower between to_upper
  span-between lo hi [] s = refl
  span-between lo hi (v ∷ vs) (from, s) = elim (Bool-cases (ltb v.time_date lo)) [
    | inl early ↦ ground (arith, early, span-between lo hi vs s)
    | inr on ↦
        let h : lo ≤ v.time_date = ground (arith, on) in
        let all : AllFrom v.time_date (v ∷ vs) = (omega arith, from) in
        rw on (to_upper-between lo hi v.time_date (v ∷ vs) h all (from, s))
  ]

-- `sort` gives sorted values.
abbrev pub Sorts : {V : Type 0} → Sort V → Type 0
Sorts {V} sort = (vs : List (ExtractedValue V)) → IsSorted (sort vs)

module _ {K V : Type 0} where
  unfoldable pub all_between : ℕ → ℕ → ExtractedValues K V → ExtractedValues K V
  all_between lo hi [] = []
  all_between lo hi ((k, vs) ∷ s) = (k, between lo hi vs) ∷ all_between lo hi s

  -- The entries that hold a value.
  unfoldable pub with_values : ExtractedValues K V → ExtractedValues K V
  with_values [] = []
  with_values ((k, []) ∷ s) = with_values s
  with_values ((k, v ∷ vs) ∷ s) = (k, v ∷ vs) ∷ with_values s

  pub json_entries-exact :
      (sort : Sort V) (lo hi : ℕ) (s : ExtractedValues K V)
      → Sorts sort
      → json_entries lo hi (sort_all sort s) ≡ all_between lo hi (sort_all sort s)
  unfolding json_entries sort_all all_between
  json_entries-exact sort lo hi [] sorts = refl
  json_entries-exact sort lo hi ((k, vs) ∷ s) sorts =
      rw (span-between lo hi (sort vs) (sorts vs), json_entries-exact sort lo hi s sorts) refl

  push_span-with_values :
      (k : K) (xs : List (ExtractedValue V)) (s : ExtractedValues K V)
      → push_span k xs (with_values s) ≡ with_values ((k, xs) ∷ s)
  unfolding with_values
  push_span-with_values k [] s = refl
  push_span-with_values k (x ∷ xs) s = refl

  pub bin_entries-json :
      (lo hi : ℕ) (s : ExtractedValues K V)
      → bin_entries lo hi s ≡ with_values (json_entries lo hi s)
  unfolding bin_entries json_entries with_values
  bin_entries-json lo hi [] = refl
  bin_entries-json lo hi ((k, vs) ∷ s) =
      ap (push_span k (span lo hi vs)) (bin_entries-json lo hi s)
      ∙ push_span-with_values k (span lo hi vs) (json_entries lo hi s)
