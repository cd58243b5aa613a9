-- ===== src/Grib/Values.antt =====
-- The decoding of one value: section 4 (API/grib1/include/sections/section_4.h, with the macros of
-- sections/binary/def.h) and `Message::extract_value` of API/grib1/src/message.cpp. Floats, the
-- powers, ibm2flt and INT2, which are not in the repository, are the parameter `Decoding`.
-- `extract_all` is not modelled.
pub mod Packing
use Prim.Native.Nat.{bit_and}
use mashroom.Common.{
  ℕ, zero, suc, ◌+◌, ◌-◌, ◌*◌, ◌/◌, ◌%◌, ◌^◌, not, Bool, Option, none, some, ltb, leb, ◌==◌,
  if◌then◌else◌,
}
use mashroom.Common.Int.{ℤ, pos, pos_part, neg_part, neg_ℤ}
use mashroom.Grib.Bytes.{Buffer, shift, ByteReader}
use mashroom.Grib.Product.{section1_flags, section_length}

-- `Flag`, whose members are bit-fields of one bit: they keep the lowest bit of what they are given.
pub record Flag : Type 0 where
  pub spherical_harm_coefs : Bool
  pub complex_pack : Bool
  pub int_values : Bool
  pub oct_14_flag_bits : Bool
  pub matrix : Bool
  pub second_bmp : Bool
  pub second_order_diff_widths : Bool

abbrev pub bit_field : ℕ → Bool
bit_field n = not (n % 2 == 0)

-- A comparison with `!= 0`.
abbrev pub flag_bit : ℕ → ℕ → ℕ
flag_bit byte bit = if bit_and byte bit == 0 then 0 else 1

-- A member that is -1, whose lowest bit is set, if octet 14 holds no flags.
abbrev pub extended : Buffer → ℕ → ℕ
extended p bits = if flag_bit (p 3) 16 == 0 then 1 else bit_and (p 13) bits

unfoldable pub get_data_flag : Buffer → Flag
get_data_flag p = record {
  spherical_harm_coefs = bit_field (bit_and (p 3) 128);
  complex_pack = bit_field (flag_bit (p 3) 64);
  int_values = bit_field (flag_bit (p 3) 32);
  oct_14_flag_bits = bit_field (flag_bit (p 3) 16);
  matrix = bit_field (extended p 4);
  second_bmp = bit_field (extended p 2);
  second_order_diff_widths = bit_field (extended p 1);
}

pub get_bds_length : ByteReader → Option Buffer → ℕ
get_bds_length R p = section_length R p

unfoldable pub bit_per_value : Buffer → ℕ
bit_per_value p = p 10

pub record Decoding : Type 1 where
  pub Float : Type 0
  pub int_power : ℕ → ℤ → Float
  pub mul : Float → Float → Float
  pub add : Float → Float → Float
  pub of_bits : ℕ → Float
  pub ibm2flt : Buffer → Float
  pub undefined : Float
  pub int2 : ℕ → ℕ → ℤ

-- The value, a value that depends on a variable without one, a read before the section, a shift by
-- more bits than an `int` has, or a loop of the model out of fuel.
pub data Extracted (F : Type 0) : Type 0 where
  value : F → Extracted F
  indeterminate outside shift_overflow stuck : Extracted F

-- `while (t_bits < n_bit)`: takes byte after byte into `tbits`, an `unsigned int`.
unfoldable pub fill : ℕ → Buffer → ℕ → ℕ → ℕ → Option (ℕ × ℕ)
fill zero bits n_bit tbits t_bits = none
fill (suc fuel) bits n_bit tbits t_bits =
    let rest = fill fuel (shift 1 bits) n_bit ((tbits * 256 + bits 0) % 4294967296) (t_bits + 8) in
    if ltb t_bits n_bit then rest else some (tbits, t_bits)

-- `(tbits >> t_bits) & jmask`, after `t_bits -= n_bit`: the mask keeps the last `n_bit` bits.
abbrev pub masked : ℕ → Option (ℕ × ℕ) → Option ℕ
masked n_bit none = none
masked n_bit (some (tbits, t_bits)) = some (tbits / 2 ^ (t_bits - n_bit) % 2 ^ n_bit)

-- The bits of a value that start at `bits`. At most four bytes are taken for fewer than 31 bits.
unfoldable pub unpack : ℕ → Buffer → Option ℕ
unpack n_bit bits = masked n_bit (
    if ltb 8 n_bit
    then fill 5 (shift 2 bits) n_bit (bits 0 * 256 + bits 1) 16
    else fill 5 bits n_bit 0 0)

module _ (D : Decoding) where
  open D use {Float, int_power, mul, add, of_bits, ibm2flt, undefined, int2}

  -- An `unsigned short`, which forgets the sign.
  unfoldable pub decimal_scale_factor : Buffer → ℕ
  decimal_scale_factor p1 =
      let d = int2 (p1 26) (p1 27) in (pos_part d + 65535 * neg_part d) % 65536

  pub scale_factor : Buffer → ℤ
  scale_factor p4 = int2 (p4 4) (p4 5)

  unfoldable pub dec_scale : Buffer → Float
  dec_scale p1 = int_power 10 (neg_ℤ (pos (decimal_scale_factor p1)))

  unfoldable pub scale : Buffer → Buffer → Float
  scale p1 p4 = mul (dec_scale p1) (int_power 2 (scale_factor p4))

  unfoldable pub ref_val : Buffer → Buffer → Float
  ref_val p1 p4 = mul (ibm2flt (shift 6 p4)) (dec_scale p1)

  -- With a bitmap: `bbits` has no value unless `n` is a multiple of 8, and `jmask` never has one.
  unfoldable pub extract_masked : Buffer → ℕ → Extracted Float
  extract_masked p3 n =
      if n == 0
      then outside
      else if not (n % 8 == 0)
      then indeterminate
      else if bit_and (p3 (n - 1)) 128 == 0
      then value undefined
      else indeterminate

  abbrev pub scaled_value : Buffer → Buffer → Option ℕ → Extracted Float
  scaled_value p1 p4 none = stuck
  scaled_value p1 p4 (some bits) = value (add (ref_val p1 p4) (mul (scale p1 p4) (of_bits bits)))

  -- Without one: the value starts two bytes per value behind octet 11.
  unfoldable pub extract_plain : Buffer → Buffer → ℕ → Extracted Float
  extract_plain p1 p4 n =
      if leb 31 (bit_per_value p4)
      then shift_overflow
      else scaled_value p1 p4 (unpack (bit_per_value p4) (shift (9 + 2 * n) p4))

  -- `extract_value(n)`; `p1`, `p3` and `p4` are the buffers of sections 1, 3 and 4.
  unfoldable pub extract_value : Buffer → Buffer → Buffer → ℕ → Extracted Float
  extract_value p1 p3 p4 n =
      let flags = get_data_flag p4 in
      if flags.complex_pack
      then value undefined
      else if flags.spherical_harm_coefs
      then value undefined
      else if bit_per_value p4 == 0
      then value (ref_val p1 p4)
      else if (section1_flags p1).sec3_inc
      then extract_masked p3 n
      else extract_plain p1 p4 n
