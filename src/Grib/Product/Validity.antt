-- ===== src/Grib/Product/Validity.antt =====
-- `verf_time` gives the time for which a field is valid.
use mashroom.Common.{
  ℕ, ◌+◌, ◌*◌, ◌≤◌, ◌<◌, ◌≡◌, ◌⊎◌, subst, arith, ltb, ◌==◌, ◌&&◌, ◌||◌, if◌then◌else◌,
}
use mashroom.Common.Int.{ℤ, pos, pos_part, neg_part, neg_ℤ}
use mashroom.Grib.Bytes.{Buffer, ByteReader, IsBigEndian, shift}
use mashroom.Grib.AddTime.Calendar.{IsDate}
use mashroom.Grib.AddTime.Days.{hour_number, LandsAt}
use mashroom.Grib.AddTime.Units.{hours_in, add_time-LandsAt}
use mashroom.Grib.Product.{reference, validity_offset, verf_time, period1, period2, time_range_code}

-- The increment by time range, in units of octet 18: P1 for the products of one time, P2 for the
-- end of a range from P1 to P2, both octets as one number for range 10, and P1 before the reference
-- time for the averages that start there.
pub data ValidAfter (p1 p2 : ℕ) : ℕ → ℤ → Type 0 where
  end_of_range : {tr : ℕ} → (2 ≤ tr) × (tr ≤ 5) → ValidAfter p1 p2 tr (pos p2)
  back : {tr : ℕ} → (6 ≤ tr) × (tr ≤ 7) → ValidAfter p1 p2 tr (neg_ℤ (pos p1))
  doubled : {tr : ℕ} → tr ≡ 10 → ValidAfter p1 p2 tr (pos (p1 * 256 + p2))
  single : {tr : ℕ} → (tr ≤ 1) ⊎ ((8 ≤ tr) × (tr ≤ 9)) ⊎ (11 ≤ tr) → ValidAfter p1 p2 tr (pos p1)

module _ (R : ByteReader) (big : IsBigEndian R) (p : Buffer) where
  offset_cases :
      (tr p1 p2 : ℕ)
      → ValidAfter p1 p2 tr (
          if tr == 10
          then pos (p1 * 256 + p2)
          else if ltb 1 tr && ltb tr 6
          then pos p2
          else if (tr == 6) || (tr == 7)
          then neg_ℤ (pos p1)
          else pos p1)
  offset_cases tr p1 p2 = grind (arith, end_of_range, back, doubled, single)

  -- The increment that `verf_time` adds follows from octets 19 (P1), 20 (P2) and 21 (time range): P2
  -- for ranges 2 to 5, -P1 for 6 and 7, P1 * 256 + P2 for 10, and P1 for every other range.
  pub validity_offset-ValidAfter : ValidAfter (p 18) (p 19) (p 20) (validity_offset R p)
  unfolding validity_offset period1 period2 time_range_code
  validity_offset-ValidAfter =
      rw (big.one (shift 18 p), big.one (shift 19 p), big.one (shift 20 p))
        (offset_cases (p 20) (p 18) (p 19))

  increment_unique :
      (tr p1 p2 : ℕ) (increment : ℤ)
      → ValidAfter p1 p2 tr increment
      → increment ≡ (
          if tr == 10
          then pos (p1 * 256 + p2)
          else if ltb 1 tr && ltb tr 6
          then pos p2
          else if (tr == 6) || (tr == 7)
          then neg_ℤ (pos p1)
          else pos p1)
  increment_unique tr p1 p2 _ (end_of_range h) = ground (arith, h)
  increment_unique tr p1 p2 _ (back h) = ground (arith, h)
  increment_unique tr p1 p2 _ (doubled h) = ground (arith, h)
  increment_unique tr p1 p2 _ (single h) = ground (arith, h)

  validity_offset_unique :
      (increment : ℤ) → ValidAfter (p 18) (p 19) (p 20) increment → increment ≡ validity_offset R p
  unfolding validity_offset period1 period2 time_range_code
  validity_offset_unique increment after =
      rw (big.one (shift 18 p), big.one (shift 19 p), big.one (shift 20 p))
        (increment_unique (p 20) (p 18) (p 19) increment after)

  -- For a valid reference time and a time unit of whole hours, `verf_time` returns 0 with the
  -- calendar date and hour that lie the increment after the reference time, provided that this is
  -- not before year 1. The increment is P2 for the time ranges 2 to 5, -P1 for 6 and 7,
  -- P1 * 256 + P2 for 10, and P1 for every other range.
  pub verf_time-LandsAt :
      (total : ℕ) (increment : ℤ)
      → ValidAfter (p 18) (p 19) (p 20) increment
      → IsDate (reference p)
      → p 15 < 24
      → 1 ≤ hours_in (p 17)
      → 24 ≤ total
      → hour_number (reference p) + hours_in (p 17) * pos_part increment
        ≡ total + hours_in (p 17) * neg_part increment
      → LandsAt total (verf_time R p)
  unfolding verf_time
  verf_time-LandsAt total increment after v hh hu ht e =
      let offset = validity_offset R p in
      let e' : hour_number (reference p) + hours_in (p 17) * pos_part offset
          ≡ total + hours_in (p 17) * neg_part offset =
        subst
          (λ i.
            hour_number (reference p) + hours_in (p 17) * pos_part i
            ≡ total + hours_in (p 17) * neg_part i)
          (validity_offset_unique increment after) e in
      let moved = add_time-LandsAt (reference p) offset (p 17) total v hh hu ht e' in
      ground (arith, moved)
