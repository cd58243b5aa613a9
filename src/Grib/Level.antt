-- ===== src/Grib/Level.antt =====
-- The class `Level` of API/grib1/include/sections/product/levels.h, with the tables and the
-- conversions of API/grib1/include/code_tables/table_3.h. Floats and the units of Boost are a
-- parameter, `FloatOps`; a quantity keeps its dimension as a constructor of `LevelValue`.
pub mod Octets
use mashroom.Common.{
  ℕ, ◌+◌, ◌-◌, ◌*◌, ◌%◌, Bool, true, false, ◌||◌, Option, none, some, List, [], ◌∷◌, ltb, ◌==◌,
  if◌then◌else◌,
}
use mashroom.Common.Int.{ℤ, pos, negsuc}

pub record Level : Type 0 where
  pub octet_11 : ℕ  -- uint8_t
  pub octet_12 : ℕ  -- uint8_t
  pub level_type : ℕ  -- LevelsTags, a byte

abbrev pub level : ℕ → ℕ → ℕ → Level
level tag o11 o12 = record { octet_11 = o11; octet_12 = o12; level_type = tag }

-- `ratio a b` is the literal a / b.
pub record FloatOps : Type 1 where
  pub Float : Type 0
  pub of_int : ℤ → Float
  pub ratio : ℕ → ℕ → Float
  pub mul : Float → Float → Float
  pub sub : Float → Float → Float

-- `level_value_t`; `nothing` is `std::monostate`.
pub data LevelValue (F : Type 0) : Type 0 where
  nothing : LevelValue F
  integer : ℤ → LevelValue F
  real length pressure temperature vorticity : F → LevelValue F

abbrev pub one_of : ℕ → List ℕ → Bool
one_of tag [] = false
one_of tag (c ∷ cs) = (tag == c) || one_of tag cs

-- The octets that hold the value: 0 none, 1 octet 11 alone, 2 both. A tag of 255 reads behind
-- the end of the table.
unfoldable pub levels_11_octets : ℕ → Option ℕ
levels_11_octets tag =
    if ltb tag 255
    then some (
        if one_of tag
          (20 ∷ 101 ∷ 104 ∷ 106 ∷ 108 ∷ 110 ∷ 112 ∷ 114 ∷ 116 ∷ 117 ∷ 120 ∷ 121 ∷ 128 ∷ 141 ∷ [])
        then 1
        else if one_of tag
            (100 ∷ 103 ∷ 105 ∷ 107 ∷ 109 ∷ 111 ∷ 113 ∷ 115 ∷ 119 ∷ 125 ∷ 127 ∷ 160 ∷ 210 ∷ [])
        then 2
        else 0)
    else none

-- 1 for the layers, whose second bound is octet 12.
unfoldable pub levels_12_octets : ℕ → Option ℕ
levels_12_octets tag =
    if ltb tag 255
    then some (
        if one_of tag (101 ∷ 104 ∷ 106 ∷ 108 ∷ 110 ∷ 112 ∷ 114 ∷ 116 ∷ 120 ∷ 121 ∷ 128 ∷ 141 ∷ [])
        then 1
        else 0)
    else none

module _ (O : FloatOps) where
  open O use {Float, of_int, ratio, mul, sub}

  abbrev pub times : ℤ → ℕ → Float
  times v k = mul (of_int v) (ratio k 1)

  -- `convert_level<11>`
  unfoldable pub convert_11 : ℕ → ℤ → LevelValue Float
  convert_11 tag v =
      if one_of tag (1 ∷ 2 ∷ 3 ∷ 4 ∷ 5 ∷ 6 ∷ 7 ∷ 8 ∷ 9 ∷ 102 ∷ 200 ∷ 201 ∷ [])
      then nothing
      else if tag == 100
      then pressure (times v 100)
      else if tag == 101
      then pressure (times v 1000)
      else if one_of tag (103 ∷ 105 ∷ 160 ∷ [])
      then length (of_int v)
      else if one_of tag (104 ∷ 106 ∷ [])
      then length (times v 100)
      else if one_of tag (107 ∷ 119 ∷ [])
      then real (mul (ratio 10000 1) (of_int v))
      else if one_of tag (108 ∷ 120 ∷ [])
      then real (mul (ratio 100 1) (of_int v))
      else if one_of tag (109 ∷ 110 ∷ [])
      then integer v
      else if one_of tag (111 ∷ 112 ∷ 125 ∷ [])
      then length (mul (of_int v) (ratio 1 100))
      else if tag == 113
      then temperature (of_int v)
      else if tag == 114
      then temperature (sub (ratio 475 1) (of_int v))
      else if one_of tag (115 ∷ 116 ∷ [])
      then pressure (times v 100)
      else if tag == 117
      then vorticity (ratio 1 1000000000)
      else if tag == 121
      then pressure (mul (sub (ratio 1100 1) (of_int v)) (ratio 100 1))
      else if tag == 127
      then real (of_int v)
      else if tag == 128
      then real (mul (ratio 1000 1) (sub (ratio 11 10) (of_int v)))
      else if tag == 141
      then pressure (mul (ratio 1000 1) (of_int v))
      else if tag == 20
      then temperature (mul (ratio 100 1) (of_int v))
      else if tag == 210
      then pressure (of_int v)
      else nothing

  -- `convert_level<12>`
  unfoldable pub convert_12 : ℕ → ℤ → LevelValue Float
  convert_12 tag v =
      if one_of tag (1 ∷ 2 ∷ 3 ∷ 4 ∷ 5 ∷ 6 ∷ 7 ∷ 8 ∷ 9 ∷ 100 ∷ 102 ∷ 103 ∷ [])
      then nothing
      else if tag == 101
      then pressure (times v 1000)
      else if one_of tag (104 ∷ 106 ∷ [])
      then length (times v 100)
      else if one_of tag (108 ∷ 120 ∷ [])
      then real (mul (ratio 100 1) (of_int v))
      else if tag == 110
      then integer v
      else if tag == 112
      then length (mul (of_int v) (ratio 1 100))
      else if tag == 114
      then temperature (sub (ratio 475 1) (of_int v))
      else if tag == 116
      then pressure (times v 100)
      else if one_of tag (121 ∷ 141 ∷ [])
      then pressure (mul (sub (ratio 1100 1) (of_int v)) (ratio 100 1))
      else if tag == 128
      then real (mul (ratio 1000 1) (sub (ratio 11 10) (of_int v)))
      else nothing

-- A value, `std::logic_error`, or a read behind the end of a table.
pub data Answer {ℓ} (A : Type ℓ) : Type ℓ where
  ok : A → Answer A
  logic_error fault : Answer A

-- The conversion to the parameter type `int16_t`.
abbrev pub to_int16 : ℕ → ℤ
to_int16 x = let w = x % 65536 in if ltb w 32768 then pos w else negsuc (65535 - w)

unfoldable pub is_bounded : Level → Answer Bool
is_bounded l = elim (levels_11_octets l.level_type) [ none ↦ fault | some k ↦ ok (k == 2) ]

-- `if (is_bounded()) … else throw`, and the other way round.
abbrev pub when_bounded {ℓ} : {A : Type ℓ} → Answer Bool → A → Answer A
when_bounded (ok true) a = ok a
when_bounded (ok false) a = logic_error
when_bounded logic_error a = logic_error
when_bounded fault a = fault

abbrev pub unless_bounded {ℓ} : {A : Type ℓ} → Answer Bool → A → Answer A
unless_bounded (ok true) a = logic_error
unless_bounded (ok false) a = ok a
unless_bounded logic_error a = logic_error
unless_bounded fault a = fault

abbrev pub both_octets : Option ℕ → Bool
both_octets none = false
both_octets (some k) = k == 2

module _ (O : FloatOps) where
  unfoldable pub get_top_bound : Level → Answer (LevelValue O.Float)
  get_top_bound l = when_bounded (is_bounded l) (convert_11 O l.level_type (to_int16 l.octet_11))

  unfoldable pub get_bottom_bound : Level → Answer (LevelValue O.Float)
  get_bottom_bound l = when_bounded (is_bounded l) (convert_12 O l.level_type (to_int16 l.octet_12))

  unfoldable pub get_level_height : Level → Answer (LevelValue O.Float)
  get_level_height l = unless_bounded (is_bounded l) (
      if both_octets (levels_11_octets l.level_type)
      then convert_11 O l.level_type (to_int16 (l.octet_11 * 256 + l.octet_12))
      else convert_11 O l.level_type (to_int16 l.octet_11))
