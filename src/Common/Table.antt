-- ===== src/Common/Table.antt =====
-- Unordered maps of the C++ library, as lists of keys with values. Two keys are one entry where the
-- map's equality says so; what is assigned to a key that is there keeps the key of before.
use mashroom.Common.{
  ◌≡◌, refl, arith, Bool, true, false, Option, none, some, List, [], ◌∷◌, if◌then◌else◌, ◌||◌,
}

pub record Equality {ℓ} (K : Type ℓ) : Type ℓ where
  pub same : K → K → Bool

pub record IsEquality {ℓ} {K : Type ℓ} (E : Equality K) : Type ℓ where
  pub same_refl : (a : K) → E.same a a ≡ true
  pub same_sym : (a b : K) → E.same a b ≡ E.same b a
  pub same_trans : (a b c : K) → E.same a b ≡ true → E.same a c ≡ E.same b c

module _ {ℓ κ} {K : Type ℓ} {V : Type κ} (E : Equality K) where
  unfoldable pub lookup : K → List (K × V) → Option V
  lookup k [] = none
  lookup k ((a, v) ∷ m) = let rest = lookup k m in if E.same a k then some v else rest

  -- `m[k] = f(m[k])`, where `f` gets `none` for a key that is not there.
  unfoldable pub update : K → (Option V → V) → List (K × V) → List (K × V)
  update k f [] = (k, f none) ∷ []
  update k f ((a, v) ∷ m) =
      let rest = update k f m in if E.same a k then (a, f (some v)) ∷ m else (a, v) ∷ rest

  -- `m[k] = v` for every entry of another map.
  unfoldable pub put_all : List (K × V) → List (K × V) → List (K × V)
  put_all [] m = m
  put_all ((k, v) ∷ other) m = put_all other (update k (λ old. v) m)

  abbrev pub has_key : K → List (K × V) → Bool
  has_key k m = elim (lookup k m) [ none ↦ false | some v ↦ true ]

  -- The keys as they were first put.
  abbrev pub keys : List (K × V) → List K
  keys [] = []
  keys ((k, v) ∷ m) = k ∷ keys m

  pub keys-update :
      (k : K) (f : Option V → V) (m : List (K × V))
      → has_key k m ≡ true
      → keys (update k f m) ≡ keys m
  unfolding lookup update
  keys-update k f [] h = ground arith
  keys-update k f ((a, v) ∷ m) h = ground (arith, keys-update k f m)

  -- No key occurs twice.
  unfoldable pub IsTable : List (K × V) → Type 0
  IsTable [] = Unit
  IsTable ((k, v) ∷ m) = (has_key k m ≡ false) × IsTable m

  module _ (is : IsEquality E) where
    pub lookup-same : (j k : K) (m : List (K × V)) → E.same j k ≡ true → lookup j m ≡ lookup k m
    unfolding lookup
    lookup-same j k [] e = refl
    lookup-same j k ((a, v) ∷ m) e =
        ground (arith, lookup-same j k m e, is.same_sym a j, is.same_sym a k, is.same_trans j k a e)

    pub has_key-same :
        (j k : K) (m : List (K × V)) → E.same j k ≡ true → has_key j m ≡ true → has_key k m ≡ true
    has_key-same j k m e h = ground (arith, lookup-same j k m e, h)

    pub lookup-update :
        (j k : K) (f : Option V → V) (m : List (K × V))
        → lookup j (update k f m) ≡ (if E.same k j then some (f (lookup k m)) else lookup j m)
    unfolding lookup update
    lookup-update j k f [] = refl
    lookup-update j k f ((a, v) ∷ m) = ground (
      arith,
      lookup-update j k f m,
      is.same_trans a k j,
      is.same_trans k j a,
      is.same_sym a j,
      is.same_sym a k,
      is.same_sym k j,
    )

    -- What another map has for a key takes the place of what was there.
    pub lookup-put_all :
        (j : K) (other m : List (K × V))
        → IsTable other
        → lookup j (put_all other m) ≡ elim (lookup j other) [ none ↦ lookup j m | some v ↦ some v ]
    unfolding lookup put_all IsTable
    lookup-put_all j [] m h = refl
    lookup-put_all j ((k, v) ∷ other) m h = ground (
      arith,
      lookup-put_all j other (update k (λ old. v) m) h.1,
      lookup-update j k (λ old. v) m,
      lookup-same k j other,
    )

    pub has_key-update :
        (j k : K) (f : Option V → V) (m : List (K × V))
        → has_key j (update k f m) ≡ (E.same k j || has_key j m)
    has_key-update j k f m = ground (arith, lookup-update j k f m)
