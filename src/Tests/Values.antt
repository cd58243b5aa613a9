-- ===== src/Tests/Values.antt =====
-- The decoding of values.
use mashroom.Common.{◌+◌, ◌*◌, ◌%◌, ◌^◌, ◌/◌, ◌≡◌, refl, arith, some, ◌==◌, if◌then◌else◌}
use mashroom.Common.Int.{ℤ, pos, negsuc, pos_part, neg_part, sub_ℕ, ◌+ℤ◌}
use mashroom.Grib.Bytes.{Buffer, IsBytes}
use mashroom.Grib.Values.{fill, unpack, Decoding}
use mashroom.Grib.Values.Packing.{spelled, unpack-spelled}

abbrev pub product : ℤ → ℤ → ℤ
product a b =
    sub_ℕ (pos_part a * pos_part b + neg_part a * neg_part b)
      (pos_part a * neg_part b + neg_part a * pos_part b)

-- Whole numbers in place of floats.
abbrev pub whole : Decoding
whole = record {
  Float = ℤ;
  int_power = λ base e. pos (base ^ pos_part e);
  mul = product;
  add = λ a b. a +ℤ b;
  of_bits = λ n. pos n;
  ibm2flt = λ p. pos (p 0);
  undefined = negsuc 0;
  int2 = λ a b. pos (a * 256 + b);
}

-- Section 4 with 16 bits per value.
abbrev packed : Buffer
packed i = if i == 10 then 16 else i % 64

packed-IsBytes : IsBytes packed
packed-IsBytes i = ground arith

run_unpack : unpack 12 packed ≡ some 0
unfolding unpack fill
run_unpack = refl

unpack-spelled_example : unpack 20 packed ≡ some (spelled 3 packed / 16 % 2 ^ 20)
unpack-spelled_example = unpack-spelled 20 packed packed-IsBytes (omega arith) (omega arith)
