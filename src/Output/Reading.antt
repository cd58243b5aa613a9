-- ===== src/Output/Reading.antt =====
-- What is read back of the forecast and the level of a series.
use Prim.Native.String.{String}
use mathlib.Core.List.{append_assoc}
use mashroom.Common.{
  ℕ, ◌+◌, ◌*◌, ◌%◌, ◌<◌, ◌≤◌, ◌≡◌, refl, arith, Bool, true, false, some, List, [], ◌∷◌, ◌++◌,
  Option-cases, inl, inr, ◌==◌, if◌then◌else◌,
}
use mashroom.Index.Names.{bytes}
use mashroom.Grib.TimeRange.{code, of_code}
use mashroom.Grib.TimeForecast.{
  TimeForecast, time_forecast, is_intervaled, octet_doubled, is_unique_value,
}
use mashroom.Grib.Level.{
  Level, FloatOps, LevelValue, ok, is_bounded, levels_11_octets, get_top_bound, get_bottom_bound,
  get_level_height,
}
use mashroom.Output.Tokens.{Line, got, write_parameter, get_number, skip_line}
use mashroom.Output.Numbers.{starts_plain, get_number-write_parameter}
use mashroom.Output.Header.{
  numbered, write_averages, write_octets, write_forecast, read_averages, read_doubled, read_single,
  read_pair, read_periods, read_forecast, write_bounds, value_line, write_level, read_bounds,
  read_level, write_additional, read_additional,
}

-- The members are of the types that they have in the source, and the range is one that its code gives.
pub record IsStored (f : TimeForecast) : Type 0 where
  pub small_n : f.n < 65536
  pub small_n_missed : f.n_missed < 256
  pub small_p1 : f.p1 < 256
  pub small_p2 : f.p2 < 256
  pub small_tf : f.tf < 256
  pub small_tri : code f.tri < 4294967296
  pub read_tri : of_code (code f.tri) ≡ f.tri

-- What is kept: the counts of an intervaled product, and of a doubled octet the last seven bits, as P1.
unfoldable pub kept : TimeForecast → TimeForecast
kept f = record {
  n = if is_intervaled f then f.n else 65535;
  n_missed = if is_intervaled f then f.n_missed else 0;
  p1 = if octet_doubled f then f.p2 % 128 else f.p1;
  p2 = if octet_doubled f then 0 else if is_unique_value f then 0 else f.p2;
  tf = f.tf;
  tri = f.tri;
}

get-numbered :
    (greatest n : ℕ) (token : String) (ls : List Line)
    → starts_plain (bytes token) ≡ true
    → n ≤ greatest
    → get_number greatest (bytes token) (numbered 1 token n ∷ ls) ≡ got n ls
get-numbered greatest n token ls plain small =
    get_number-write_parameter greatest 1 n (bytes token) ls plain small

abbrev counted : TimeForecast → TimeForecast
counted f = record (time_forecast f.tf f.tri 0 0) {
  n = if is_intervaled f then f.n else 65535;
  n_missed = if is_intervaled f then f.n_missed else 0;
}

read-write_counts :
    (f : TimeForecast) (ls : List Line)
    → IsStored f
    → read_averages (time_forecast f.tf f.tri 0 0) (write_averages f ++ ls) ≡ got (counted f) ls
unfolding read_averages write_averages is_intervaled
read-write_counts f ls is = ground (
  arith,
  get-numbered 65535 f.n "N avg/acc" (numbered 1 "N missed" f.n_missed ∷ ls) refl
      (omega (arith, is.small_n)),
  get-numbered 255 f.n_missed "N missed" ls refl (omega (arith, is.small_n_missed)),
)

read-write_octets :
    (f : TimeForecast) (ls : List Line)
    → IsStored f
    → read_periods (counted f) (write_octets f ++ ls) ≡ got (kept f) ls
unfolding read_periods read_doubled read_single read_pair write_octets kept octet_doubled
    is_unique_value
read-write_octets f ls is = ground (
  arith,
  get-numbered 65535 (f.p1 * 256 + f.p2) "P1" ls refl (omega (arith, is.small_p1, is.small_p2)),
  get-numbered 255 f.p1 "P1" ls refl (omega (arith, is.small_p1)),
  get-numbered 255 f.p1 "P1" (numbered 1 "P2" f.p2 ∷ ls) refl (omega (arith, is.small_p1)),
  get-numbered 255 f.p2 "P2" ls refl (omega (arith, is.small_p2)),
)

read-write_forecast :
    (f : TimeForecast) (ls : List Line)
    → IsStored f
    → read_forecast (write_forecast f ++ ls) ≡ got (kept f) ls
unfolding read_forecast write_forecast skip_line
read-write_forecast f ls is =
    let body = write_averages f ++ (write_octets f ++ ls) in
    ground (
      arith,
      append_assoc (write_averages f) (write_octets f) ls,
      get-numbered 255 f.tf "time frame" (numbered 1 "time range indicator" (code f.tri) ∷ body)
          refl (omega (arith, is.small_tf)),
      get-numbered 4294967295 (code f.tri) "time range indicator" body refl
          (omega (arith, is.small_tri)),
      is.read_tri,
      read-write_counts f (write_octets f ++ ls) is,
      read-write_octets f ls is,
    )

-- The members are bytes, and the tag is in the table.
pub record IsLevel (l : Level) : Type 0 where
  pub small_type : l.level_type < 255
  pub small_11 : l.octet_11 < 256
  pub small_12 : l.octet_12 < 256

octets_known : (t : ℕ) → t < 255 → (k : ℕ) × (levels_11_octets t ≡ some k)
unfolding levels_11_octets
octets_known t h = elim (Option-cases (levels_11_octets t)) [
  | inl out ↦ absurd (ground (arith, out))
  | inr (k, e) ↦ (k, e)
]

bounded_known : (l : Level) → l.level_type < 255 → (b : Bool) × (is_bounded l ≡ ok b)
unfolding is_bounded
bounded_known l h = let (k, e) = octets_known l.level_type h in (k == 2, ground (arith, e))

module _ (O : FloatOps) (print : LevelValue O.Float → Line) where
  -- The lines of the bounds or of the height are written, and skipped.
  read_bounds-write_bounds :
      (l : Level) (ls : List Line) (b : Bool)
      → is_bounded l ≡ ok b
      → (ws : List Line) × (write_bounds O print l ≡ some ws)
        × (read_bounds l (ws ++ ls) ≡ got l ls)
  unfolding read_bounds write_bounds skip_line get_top_bound get_bottom_bound get_level_height
  read_bounds-write_bounds l ls true e = (
    value_line O print "top bound" (get_top_bound O l)
        ++ value_line O print "bottom bound" (get_bottom_bound O l),
    ground (arith, e),
    ground (arith, e),
  )
  read_bounds-write_bounds l ls false e =
      (value_line O print "height" (get_level_height O l), ground (arith, e), ground (arith, e))

  read_level-write_level :
      (l : Level) (ls : List Line)
      → IsLevel l
      → (ws : List Line) × (write_level O print l ≡ some ws) × (read_level (ws ++ ls) ≡ got l ls)
  unfolding read_level write_level skip_line
  read_level-write_level l ls is =
      let (b, e) = bounded_known l is.small_type in
      let (ws, written, back) = read_bounds-write_bounds l ls b e in
      let o12 = numbered 1 "o12" l.octet_12 ∷ (ws ++ ls) in
      let o11 = numbered 1 "o11" l.octet_11 ∷ o12 in
      (
        write_parameter 0 (bytes "level") []
            ∷ numbered 1 "tag" l.level_type
            ∷ numbered 1 "o11" l.octet_11
            ∷ numbered 1 "o12" l.octet_12
            ∷ ws,
        ground (arith, written),
        ground (
          arith,
          get-numbered 255 l.level_type "tag" o11 refl (omega (arith, is.small_type)),
          get-numbered 255 l.octet_11 "o11" o12 refl (omega (arith, is.small_11)),
          get-numbered 255 l.octet_12 "o12" (ws ++ ls) refl (omega (arith, is.small_12)),
          back,
        ),
      )

  -- A forecast and a level whose members are in their ranges are written, and whatever follows, reading
  -- gives the level as it was, and of the forecast what `kept` says: the counts of an intervaled
  -- product alone, P2 only where there are two periods, and of a doubled octet the last seven bits.
  pub read_additional-write_additional :
      (f : TimeForecast) (l : Level) (ls : List Line)
      → IsStored f
      → IsLevel l
      → (ws : List Line) × (write_additional O print f l ≡ some ws)
        × (read_additional (ws ++ ls) ≡ got (kept f, l) ls)
  unfolding read_additional write_additional
  read_additional-write_additional f l ls is_f is_l =
      let (ws, written, back) = read_level-write_level l ls is_l in
      (
        write_forecast f ++ ws,
        ground (arith, written),
        ground (
          arith,
          append_assoc (write_forecast f) ws ls,
          read-write_forecast f (ws ++ ls) is_f,
          back,
        ),
      )
