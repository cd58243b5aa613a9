-- ===== src/Grib/Message/Opening.antt =====
-- What `open_grib` returns, and the handle that it leaves.
use Prim.Native.String.{String}
use mashroom.Common.{◌-◌, ◌≤◌, ◌≡◌, ◌↔◌, ◌⊎◌, arith, some, true}
use mashroom.Grib.Bytes.{Buffer, ByteReader}
use mashroom.Grib.Message.{
  Host, miss_end_section_x1, none_err, read_message, message_length, open_grib, end_compares,
  current_message_length,
}
use mashroom.Grib.Message.Cursor.{IsPlaced}

module _ (R : ByteReader) (host : Host) (name : String) where
  -- For a file that opens, is mapped and is not empty, `open_grib` leaves a handle on its first
  -- message, whatever code it returns.
  pub open_grib-IsPlaced :
      (f : Buffer)
      → host.opens name ≡ true
      → host.mmap name ≡ some f
      → 1 ≤ host.size name
      → let h = (open_grib R host name).1 in
        IsPlaced R f h
        × (h.msg ≡ some (read_message R f 0))
        × (h.current ≡ 0)
        × (h.sz ≡ host.size name)
  unfolding open_grib IsPlaced
  open_grib-IsPlaced f ho hm h = ground arith

  -- A file that opens, is mapped and whose first message has at least five bytes gets the code of
  -- a missing end exactly if the bytes from the fifth to the second from the end of that message
  -- are all "7", and no error code otherwise.
  pub open_grib-miss_end :
      (f : Buffer)
      → host.opens name ≡ true
      → host.mmap name ≡ some f
      → 5 ≤ message_length R f 0
      → let n = message_length R f 0 in
        let code = (open_grib R host name).0 in
        ((code ≡ some miss_end_section_x1)
          ↔ ((f (n - 5) ≡ 55) × (f (n - 4) ≡ 55) × (f (n - 3) ≡ 55) × (f (n - 2) ≡ 55)))
        × ((code ≡ some miss_end_section_x1) ⊎ (code ≡ some none_err))
  unfolding open_grib end_compares current_message_length read_message
  open_grib-miss_end f ho hm h = ground arith
