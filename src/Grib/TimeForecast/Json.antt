-- ===== src/Grib/TimeForecast/Json.antt =====
-- `to_json` and `from_json` of a forecast, in API/grib1/src/sections/product/time_forecast.cpp.
-- Boost's JSON values and the conversions of numbers and enumerations are libraries: they are the
-- parameter `JsonLib`, and what is relied on of them is `IsJsonLib`.
use Prim.Native.String.{String}
use text.Mathlib.Text.{◌==◌ as str_eq}
use mashroom.Common.{
  ℕ, ◌<◌, ◌≡◌, refl, Bool, true, false, not, ◌&&◌, ◌||◌, Option, none, some, if◌then◌else◌,
}
use mashroom.Grib.TimeRange.{TimeRangeIndicator}
use mashroom.Grib.TimeForecast.{
  TimeForecast, is_intervaled, octet_doubled, is_unique_value, intervaled_kind, doubled_kind,
  unique_kind,
}

infixl 5 ◌>>=◌
abbrev ◌>>=◌ {ℓ κ} : {A : Type ℓ} {B : Type κ} → Option A → (A → Option B) → Option B
none >>= f = none
some a >>= f = f a

-- `Object` is `boost::json::object`; `at` is `contains` together with `at`.
pub record JsonLib : Type 1 where
  pub Value : Type 0
  pub Object : Type 0
  pub empty : Object
  pub put : String → Value → Object → Object
  pub at : String → Object → Option Value
  pub of_object : Object → Value
  pub as_object : Value → Option Object
  pub of_number : ℕ → Value
  pub to_uint8 : Value → Option ℕ
  pub to_uint16 : Value → Option ℕ
  pub of_time_frame : ℕ → Value
  pub to_time_frame : Value → Option ℕ
  pub of_time_range : TimeRangeIndicator → Value
  pub to_time_range : Value → Option TimeRangeIndicator

-- Objects hold what was put last, and each conversion reads back what it wrote.
pub record IsJsonLib (L : JsonLib) : Type 0 where
  pub as_of_object : (o : L.Object) → L.as_object (L.of_object o) ≡ some o
  pub at_put :
      (k j : String) (v : L.Value) (o : L.Object)
      → L.at k (L.put j v o) ≡ (if str_eq j k then some v else L.at k o)
  pub uint8 : (n : ℕ) → n < 256 → L.to_uint8 (L.of_number n) ≡ some n
  pub uint16 : (n : ℕ) → n < 65536 → L.to_uint16 (L.of_number n) ≡ some n
  pub time_frame : (n : ℕ) → n < 256 → L.to_time_frame (L.of_time_frame n) ≡ some n
  pub time_range : (t : TimeRangeIndicator) → L.to_time_range (L.of_time_range t) ≡ some t

module _ (L : JsonLib) where
  open L use {
    Value, Object, empty, put, at, of_object, as_object, of_number, to_uint8, to_uint16,
    of_time_frame, to_time_frame, of_time_range, to_time_range,
  }

  -- The counts of an intervaled product.
  put_counts : TimeForecast → Object → Object
  put_counts f o =
      if is_intervaled f
      then put "N missed" (of_number f.n_missed) (put "N avg/acc" (of_number f.n) o)
      else o

  pub to_json : TimeForecast → Value
  unfolding put_counts
  to_json f =
      let o =
        put "time range indicator" (of_time_range f.tri)
          (put "time frame" (of_time_frame f.tf) empty) in
      let counted = put_counts f o in
      if octet_doubled f && is_unique_value f
      then of_object (put "P1" (of_number f.p1) counted)
      else of_object (put "P2" (of_number f.p2) (put "P1" (of_number f.p1) counted))

  -- `fcst.set_N` and `set_N_missed`: read if the product is intervaled and both members are there.
  read_counts : Object → TimeForecast → Option TimeForecast
  read_counts o f =
      if is_intervaled f
      then elim (at "N avg/acc" o) [
        | none ↦ some f
        | some vn ↦ elim (at "N missed" o) [
          | none ↦ some f
          | some vm ↦
              to_uint16 vn >>= λ n. to_uint8 vm >>= λ m. some (record f { n = n; n_missed = m })
        ]
      ]
      else some f

  -- `P2` must be there for the other kinds, but the number is read from the member `P1`.
  read_p2 : Object → TimeForecast → Option TimeForecast
  read_p2 o f =
      if not (octet_doubled f) && not (is_unique_value f)
      then (at "P2" o >>= λ _. at "P1" o >>= λ v. to_uint8 v >>= λ p. some (record f { p2 = p }))
      else some f

  read_p1 : Object → TimeForecast → Option TimeForecast
  read_p1 o f = at "P1" o >>= λ v. to_uint8 v >>= λ p. some (record f { p1 = p })

  -- `TimeForecast fcst;` leaves `tf_` and `tri_` without a value until they are set below.
  start : ℕ → TimeRangeIndicator → TimeForecast
  start tf tri = record { n = 65535; n_missed = 0; p1 = 0; p2 = 0; tf = tf; tri = tri }

  from_object : Object → Option TimeForecast
  unfolding start
  from_object o = at "time frame" o >>= λ vf. at "time range indicator" o >>= λ vr.
      to_time_frame vf >>= λ tf. to_time_range vr >>= λ tri.
      read_counts o (start tf tri) >>= λ f. read_p1 o f >>= λ g. read_p2 o g

  pub from_json : Value → Option TimeForecast
  unfolding from_object read_counts read_p1 read_p2
  from_json v = as_object v >>= from_object

-- What reading back gives: the counts of a product that is not intervaled are the defaults, and
-- `P2` is 0 for a product of one time and the value of `P1` for every other.
abbrev pub reread : TimeForecast → TimeForecast
reread f = record f {
  n = if is_intervaled f then f.n else 65535;
  n_missed = if is_intervaled f then f.n_missed else 0;
  p2 = if octet_doubled f || is_unique_value f then 0 else f.p1;
}

pub record IsInRange (f : TimeForecast) : Type 0 where
  pub n_in : f.n < 65536
  pub n_missed_in : f.n_missed < 256
  pub p1_in : f.p1 < 256
  pub p2_in : f.p2 < 256
  pub tf_in : f.tf < 256

module _ (L : JsonLib) (ok : IsJsonLib L) (f : TimeForecast) (r : IsInRange f) where
  object_back : (o : L.Object) → L.as_object (L.of_object o) ≡ some o
  object_back = ok.as_of_object

  member_back :
      (k j : String) (v : L.Value) (o : L.Object)
      → L.at k (L.put j v o) ≡ (if str_eq j k then some v else L.at k o)
  member_back = ok.at_put

  tf_back : L.to_time_frame (L.of_time_frame f.tf) ≡ some f.tf
  tf_back = ok.time_frame f.tf r.tf_in

  tri_back : L.to_time_range (L.of_time_range f.tri) ≡ some f.tri
  tri_back = ok.time_range f.tri

  p1_back : L.to_uint8 (L.of_number f.p1) ≡ some f.p1
  p1_back = ok.uint8 f.p1 r.p1_in

  n_missed_back : L.to_uint8 (L.of_number f.n_missed) ≡ some f.n_missed
  n_missed_back = ok.uint8 f.n_missed r.n_missed_in

  n_back : L.to_uint16 (L.of_number f.n) ≡ some f.n
  n_back = ok.uint16 f.n r.n_in

  ruleset written = (object_back, member_back, tf_back, tri_back, p1_back, n_missed_back, n_back)

  reread_case :
      (i d u : Bool)
      → intervaled_kind f.tri ≡ i
      → doubled_kind f.tri ≡ d
      → unique_kind f.tri ≡ u
      → from_json L (to_json L f) ≡ some (reread f)
  unfolding from_json to_json octet_doubled is_unique_value is_intervaled
  reread_case true true true hi hd hu = simp (hi, hd, hu, written)
  reread_case true true false hi hd hu = simp (hi, hd, hu, written)
  reread_case true false true hi hd hu = simp (hi, hd, hu, written)
  reread_case true false false hi hd hu = simp (hi, hd, hu, written)
  reread_case false true true hi hd hu = simp (hi, hd, hu, written)
  reread_case false true false hi hd hu = simp (hi, hd, hu, written)
  reread_case false false true hi hd hu = simp (hi, hd, hu, written)
  reread_case false false false hi hd hu = simp (hi, hd, hu, written)

  -- Reading what was written gives `reread f`: every field that the kind of product uses, but for
  -- `P2`, which comes back as `P1`.
  pub from_json-to_json : from_json L (to_json L f) ≡ some (reread f)
  from_json-to_json = reread_case _ _ _ refl refl refl
