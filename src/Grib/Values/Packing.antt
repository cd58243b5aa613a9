-- ===== src/Grib/Values/Packing.antt =====
-- The bits of a value, and what `extract_value` makes of them.
use Prim.Native.Nat.{bit_and}
use mashroom.Common.{
  ℕ, zero, suc, ◌+◌, ◌-◌, ◌*◌, ◌/◌, ◌%◌, ◌^◌, ◌≤◌, ◌<◌, ◌≡◌, ◌↔◌, ◌⊎◌, inl, inr, refl, arith, ap,
  sym, Bool-cases, leb→le, Bool, true, false, ◌&&◌, Option, some, ltb, leb, ◌==◌, if◌then◌else◌,
}
use mashroom.Grib.Bytes.{Buffer, IsBytes, shift}
use mashroom.Grib.Product.{section1_flags}
use mashroom.Grib.Values.{
  get_data_flag, flag_bit, fill, masked, unpack, bit_per_value, Decoding, value, indeterminate,
  extract_masked, extract_plain, extract_value, scale, ref_val,
}

-- What the flags of a byte come to, as a test that can be run on each.
flags_right : ℕ → Bool
flags_right byte = (bit_and byte 128 % 2 == 0) && (flag_bit byte 64 == byte / 64 % 2)

all_right : ℕ → Bool
all_right zero = true
all_right (suc byte) = all_right byte && flags_right byte

flags_right-under : (k byte : ℕ) → byte < k → all_right k ≡ true → flags_right byte ≡ true
unfolding all_right
flags_right-under zero byte lt run = absurd (omega arith)
flags_right-under (suc k) byte lt run = ground (arith, flags_right-under k byte)

bytes_right : all_right 256 ≡ true
unfolding all_right flags_right
bytes_right = refl

-- The flag of complex packing is read as it stands in octet 4. The flag of spherical harmonics is
-- never set, whatever octet 4 says: its bit-field keeps the lowest bit of 128.
pub get_data_flag-spherical :
    (p : Buffer)
    → p 3 < 256
    → ((get_data_flag p).spherical_harm_coefs ≡ false)
      × (((get_data_flag p).complex_pack ≡ true) ↔ (p 3 / 64 % 2 ≡ 1))
unfolding get_data_flag flags_right
get_data_flag-spherical p h = ground (arith, flags_right-under 256 (p 3) h bytes_right)

-- The number that the first `k` bytes spell.
pub spelled : ℕ → Buffer → ℕ
spelled zero bits = 0
spelled (suc k) bits = spelled k bits * 256 + bits k

-- The bytes that `unpack` takes, before the mask.
taken : ℕ → Buffer → Option (ℕ × ℕ)
taken n_bit bits =
    if ltb 8 n_bit
    then fill 5 (shift 2 bits) n_bit (bits 0 * 256 + bits 1) 16
    else fill 5 bits n_bit 0 0

module _ (n_bit : ℕ) (bits : Buffer) (b : IsBytes bits) where
  taken-one : 1 ≤ n_bit → n_bit ≤ 8 → taken n_bit bits ≡ some (spelled 1 bits, 8)
  unfolding taken fill spelled
  taken-one lo hi = ground (arith, b 0)

  taken-two : 9 ≤ n_bit → n_bit ≤ 16 → taken n_bit bits ≡ some (spelled 2 bits, 16)
  unfolding taken fill spelled
  taken-two lo hi = ground (arith, b 0, b 1)

  taken-three : 17 ≤ n_bit → n_bit ≤ 24 → taken n_bit bits ≡ some (spelled 3 bits, 24)
  unfolding taken fill spelled
  taken-three lo hi = ground (arith, b 0, b 1, b 2)

  unpack-taken :
      (k : ℕ)
      → (n_bit + 7) / 8 ≡ k
      → taken n_bit bits ≡ some (spelled k bits, 8 * k)
      → unpack n_bit bits
        ≡ some (spelled ((n_bit + 7) / 8) bits / 2 ^ (8 * ((n_bit + 7) / 8) - n_bit) % 2 ^ n_bit)
  unfolding unpack taken
  unpack-taken k e h = rw e (ap (masked n_bit) h)

-- For 1 to 24 bits, `unpack` takes as many bytes as hold them and keeps the highest `n_bit` bits of
-- the number that these spell.
pub unpack-spelled :
    (n_bit : ℕ) (bits : Buffer)
    → IsBytes bits
    → 1 ≤ n_bit
    → n_bit ≤ 24
    → let k = (n_bit + 7) / 8 in
      unpack n_bit bits ≡ some (spelled k bits / 2 ^ (8 * k - n_bit) % 2 ^ n_bit)
unpack-spelled n_bit bits b lo hi = elim (Bool-cases (leb n_bit 8)) [
  | inl small ↦
      unpack-taken n_bit bits b 1 (ground arith) (taken-one n_bit bits b lo (leb→le n_bit 8 small))
  | inr wide ↦ elim (Bool-cases (leb n_bit 16)) [
    | inl middle ↦
        unpack-taken n_bit bits b 2 (ground arith)
          (taken-two n_bit bits b (ground arith) (leb→le n_bit 16 middle))
    | inr wider ↦
        unpack-taken n_bit bits b 3 (ground arith) (taken-three n_bit bits b (ground arith) hi)
  ]
]

unpack-word : (bits : Buffer) → IsBytes bits → unpack 16 bits ≡ some (bits 0 * 256 + bits 1)
unfolding unpack fill
unpack-word bits b = ground (arith, b 0, b 1)

module _ (D : Decoding) (p1 p3 p4 : Buffer) where
  -- Without a bitmap and with simple packing in 16 bits, `extract_value(n)` is the reference value
  -- plus the scaled `n`-th word of two bytes behind octet 11.
  pub extract_value-words :
      (n : ℕ)
      → IsBytes p4
      → p4 3 / 64 % 2 ≡ 0
      → bit_per_value p4 ≡ 16
      → (section1_flags p1).sec3_inc ≡ false
      → 1 ≤ n
      → extract_value D p1 p3 p4 n
        ≡ value (
            D.add
              (ref_val D p1 p4)
              (D.mul (scale D p1 p4) (D.of_bits (p4 (9 + 2 * n) * 256 + p4 (10 + 2 * n)))))
  unfolding extract_value extract_plain
  extract_value-words n b simple wide plain hn =
      let word = p4 (9 + 2 * n) * 256 + p4 (10 + 2 * n) in
      let flags = get_data_flag-spherical p4 (b 3) in
      let first : p4 (9 + 2 * n + 0) ≡ p4 (9 + 2 * n) = ap p4 (omega arith) in
      let second : p4 (9 + 2 * n + 1) ≡ p4 (10 + 2 * n) = ap p4 (omega arith) in
      let bits : unpack 16 (shift (9 + 2 * n) p4) ≡ some word =
        rw (sym first, sym second) (unpack-word (shift (9 + 2 * n) p4) (λ i. b (9 + 2 * n + i))) in
      ground (arith, flags, bits)

  -- With a bitmap and simple packing, `extract_value` is either the value for a missing point or
  -- depends on a variable that has no value: it never decodes the bits of section 4.
  pub extract_value-bitmap :
      (n : ℕ)
      → p4 3 < 256
      → p4 3 / 64 % 2 ≡ 0
      → 1 ≤ bit_per_value p4
      → (section1_flags p1).sec3_inc ≡ true
      → 1 ≤ n
      → (extract_value D p1 p3 p4 n ≡ value D.undefined)
        ⊎ (extract_value D p1 p3 p4 n ≡ indeterminate)
  unfolding extract_value extract_masked
  extract_value-bitmap n b simple some_bits mapped hn = ground (arith, get_data_flag-spherical p4 b)
