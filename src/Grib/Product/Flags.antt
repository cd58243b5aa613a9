-- ===== src/Grib/Product/Flags.antt =====
-- The flag byte of section 1, and the year that its bytes spell.
use Prim.Native.Nat.{bit_and}
use mashroom.Common.{
  ℕ, zero, suc, ◌+◌, ◌-◌, ◌*◌, ◌/◌, ◌%◌, ◌≤◌, ◌<◌, ◌≡◌, ◌↔◌, refl, Bool, true, ◌&&◌, arith, ltb,
  leb, ◌==◌, if◌then◌else◌,
}
use mashroom.Common.Int.{pos, ◌+ℤ◌, ◌-ℤ◌, scale_ℤ}
use mashroom.Grib.Bytes.{Buffer}
use mashroom.Grib.Product.{section1_flags, year4, year}

-- What the two bits say of a byte, as a test that can be run on each.
flags_agree : ℕ → Bool
flags_agree byte =
    let high = if bit_and byte 128 == 0 then ltb byte 128 else leb 128 byte in
    let next = if bit_and byte 64 == 0 then leb (byte / 64 % 2) 0 else leb 1 (byte / 64 % 2) in
    high && next

agree_under : ℕ → Bool
agree_under zero = true
agree_under (suc byte) = agree_under byte && flags_agree byte

flags_agree-under : (k byte : ℕ) → byte < k → agree_under k ≡ true → flags_agree byte ≡ true
unfolding agree_under
flags_agree-under zero byte lt run = absurd (omega arith)
flags_agree-under (suc k) byte lt run = ground (arith, flags_agree-under k byte)

bytes_agree : agree_under 256 ≡ true
unfolding agree_under flags_agree
bytes_agree = refl

-- Section 2 is included if the highest bit of octet 8 is set, and section 3 if the next one is.
pub section1_flags_lem :
    (p : Buffer)
    → p 7 < 256
    → ((section1_flags p).sec2_inc ≡ true ↔ (128 ≤ p 7))
      × ((section1_flags p).sec3_inc ≡ true ↔ (p 7 / 64 % 2 ≡ 1))
unfolding section1_flags flags_agree
section1_flags_lem p h = ground (arith, flags_agree-under 256 (p 7) h bytes_agree)

-- From the first century on, the year is 100 * (century - 1) + year of the century.
pub year4-pos :
    (p : Buffer)
    → 1 ≤ p 24
    → p 24 < 256
    → p 12 < 256
    → (year4 p ≡ pos (100 * (p 24 - 1) + p 12)) × (year p ≡ 100 * (p 24 - 1) + p 12)
unfolding year4 year ◌+ℤ◌ ◌-ℤ◌ scale_ℤ
year4-pos p h hc hy = ground arith
