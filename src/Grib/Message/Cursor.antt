-- ===== src/Grib/Message/Cursor.antt =====
-- The cursor in a file: the operations of `HGrib1` keep it on a message inside the file.
use mashroom.Common.{◌+◌, ◌<◌, ◌≤◌, ◌≡◌, ◌≢◌, ◌⊎◌, arith, none, some, Bool, true, false}
use mashroom.Common.Int.{ℤ, pos, negsuc, pos_part, neg_part}
use mashroom.Grib.Bytes.{Buffer, ByteReader}
use mashroom.Grib.Message.{HGrib1, read_message, message_length, next_message, set_message}

module _ (R : ByteReader) (f : Buffer) where
  -- The handle holds no message, or the one at its position, which lies inside the file.
  unfoldable pub IsPlaced : HGrib1 → Type 0
  IsPlaced h = (h.msg ≡ none) ⊎ ((h.msg ≡ some (read_message R f h.current)) × (h.current < h.sz))

  -- `r` is what `next_message` may come to at `h`: true, with the cursor at the end of the message
  -- and the file going on from there, or false, with nothing changed.
  pub Advances : HGrib1 → Bool × HGrib1 → Type 0
  Advances h r =
      let next = h.current + message_length R f h.current in
      IsPlaced r.1
      × (((h.msg ≢ none) × (next < h.sz) × (r.0 ≡ true) × (r.1.current ≡ next) × (r.1.sz ≡ h.sz))
          ⊎ (((h.msg ≡ none) ⊎ (h.sz ≤ next)) × (r ≡ (false, h))))

  -- `next_message` keeps the cursor on a message inside the file. It moves on to the end of the
  -- message if it holds one and the file goes on behind it, and otherwise changes nothing.
  pub next_message-Advances : (h : HGrib1) → IsPlaced h → Advances h (next_message R f h)
  unfolding IsPlaced Advances next_message read_message
  next_message-Advances h placed = ground arith

  pub Seeks : ℤ → HGrib1 → Bool × HGrib1 → Type 0
  Seeks position h r =
      IsPlaced r.1
      × (((neg_part position ≡ 0)
            × (pos_part position < h.sz)
            × (r.0 ≡ true)
            × (r.1.current ≡ pos_part position)
            × (r.1.msg ≡ some (read_message R f (pos_part position))))
          ⊎ (((1 ≤ neg_part position) ⊎ (h.sz ≤ pos_part position)) × (r ≡ (false, h))))

  -- `set_message` keeps the cursor on a message inside the file. For file sizes and positions of
  -- 63 bits it moves to the position if that is one of the file, and otherwise (a negative one
  -- included, which it compares as an unsigned number) changes nothing and returns false.
  pub set_message-Seeks :
      (position : ℤ) (h : HGrib1)
      → IsPlaced h
      → h.sz < 9223372036854775808
      → pos_part position < 9223372036854775808
      → neg_part position ≤ 9223372036854775808
      → Seeks position h (set_message R f position h)
  unfolding IsPlaced Seeks set_message
  set_message-Seeks (pos n) h placed hs hp hn = ground arith
  set_message-Seeks (negsuc n) h placed hs hp hn = ground arith
