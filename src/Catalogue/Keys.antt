-- ===== src/Catalogue/Keys.antt =====
-- The equalities of the keys are equivalences.
use Prim.Native.String.{String}
use text.Mathlib.Text.{◌==◌ as str_eq}
use text.Mathlib.TextEquality.{eq_iff}
use mashroom.Common.{ℕ, ◌≡◌, refl, arith, true, Option}
use mashroom.Common.Table.{IsEquality}
use mashroom.Catalogue.{
  PathType, directory, file, host, same_kind, same_path, same_option, same_common, same_forecast,
  same_level, paths, commons, forecasts, levels,
}

kind_refl : (a : PathType) → same_kind a a ≡ true
kind_refl directory = refl
kind_refl file = refl
kind_refl host = refl

kind_sym : (a b : PathType) → same_kind a b ≡ same_kind b a
kind_sym a b = ground arith

kind_trans : (a b c : PathType) → same_kind a b ≡ true → same_kind a c ≡ same_kind b c
kind_trans a b c e = ground arith

name_sym : (a b : String) → str_eq a b ≡ str_eq b a
name_sym a b = ground (arith, eq_iff a b, eq_iff b a)

name_trans : (a b c : String) → str_eq a b ≡ true → str_eq a c ≡ str_eq b c
name_trans a b c e = ground (arith, eq_iff a b)

pub paths-IsEquality : IsEquality paths
unfolding same_path
paths-IsEquality = record {
  same_refl = λ a. ground (arith, eq_iff a.name a.name, kind_refl a.kind);
  same_sym = λ a b. ground (arith, name_sym a.name b.name, kind_sym a.kind b.kind);
  same_trans =
      λ a b c e. ground (arith, name_trans a.name b.name c.name, kind_trans a.kind b.kind c.kind);
}

option_refl : (a : Option ℕ) → same_option a a ≡ true
option_refl a = ground arith

option_sym : (a b : Option ℕ) → same_option a b ≡ same_option b a
option_sym a b = ground arith

option_trans : (a b c : Option ℕ) → same_option a b ≡ true → same_option a c ≡ same_option b c
option_trans a b c e = ground arith

pub commons-IsEquality : IsEquality commons
unfolding same_common
commons-IsEquality = record {
  same_refl = λ a.
      ground (arith, option_refl a.center, option_refl a.table_version, option_refl a.parameter);
  same_sym = λ a b. ground (
    arith,
    option_sym a.center b.center,
    option_sym a.table_version b.table_version,
    option_sym a.parameter b.parameter,
  );
  same_trans = λ a b c e. ground (
    arith,
    option_trans a.center b.center c.center,
    option_trans a.table_version b.table_version c.table_version,
    option_trans a.parameter b.parameter c.parameter,
  );
}

pub forecasts-IsEquality : IsEquality forecasts
unfolding same_forecast
forecasts-IsEquality = record {
  same_refl = λ a. ground arith;
  same_sym = λ a b. ground arith;
  same_trans = λ a b c e. ground arith;
}

pub levels-IsEquality : IsEquality levels
unfolding same_level
levels-IsEquality = record {
  same_refl = λ a. ground arith;
  same_sym = λ a b. ground arith;
  same_trans = λ a b c e. ground arith;
}
