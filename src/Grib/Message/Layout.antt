-- ===== src/Grib/Message/Layout.antt =====
-- The sections of a message, as the constructor of `Message` places them.
use mashroom.Common.{ℕ, ◌+◌, ◌≡◌, ◌≢◌, ◌↔◌, refl, arith, Option, none, some, true}
use mashroom.Grib.Bytes.{Buffer, shift, ByteReader}
use mashroom.Grib.Product.{section1_flags, section_length}
use mashroom.Grib.Message.{Message, read_message, message_length, length_at}

module _ (R : ByteReader) (f : Buffer) where
  -- Where a section ends, if it is included, and where the one before ends, if it is not.
  pub section_end : Option ℕ → ℕ → ℕ
  section_end none before = before
  section_end (some o) before = o + length_at R f (some o)

  -- A section that is included starts at `before`.
  abbrev pub StartsAt : ℕ → Option ℕ → Type 0
  StartsAt before none = Unit
  StartsAt before (some o) = o ≡ before

  pub record IsContiguous (b : ℕ) (m : Message) : Type 0 where
    pub first : m.section_1 ≡ b + 8
    pub second : StartsAt (section_end (some m.section_1) b) m.section_2
    pub third : StartsAt (section_end m.section_2 (section_end (some m.section_1) b)) m.section_3
    pub fourth :
        m.section_4
        ≡ section_end m.section_3 (section_end m.section_2 (section_end (some m.section_1) b))
    pub second_flag : (m.section_2 ≢ none) ↔ ((section1_flags (shift (b + 8) f)).sec2_inc ≡ true)
    pub third_flag : (m.section_3 ≢ none) ↔ ((section1_flags (shift (b + 8) f)).sec3_inc ≡ true)

  -- The sections of a message follow each other without a gap, from the eight bytes of section 0
  -- on. Sections 2 and 3 are included exactly if the flags of section 1 say so.
  pub read_message-IsContiguous : (b : ℕ) → IsContiguous b (read_message R f b)
  unfolding read_message section_end length_at section_length
  read_message-IsContiguous b = record {
    first = refl;
    second = ground arith;
    third = ground arith;
    fourth = ground arith;
    second_flag = ground arith;
    third_flag = ground arith;
  }

  -- The constructor finds no error exactly if the four bytes after section 4 are the last of the
  -- message.
  pub read_message-err :
      (b : ℕ)
      → let m = read_message R f b in
        (m.err ≡ none)
        ↔ (m.section_4 + length_at R f (some m.section_4) + 4 ≡ b + message_length R f b)
  unfolding read_message
  read_message-err b = ground arith
