-- ===== src/Grib/Message.antt =====
-- A GRIB file as a sequence of messages: `Message` of API/grib1/include/message.h, the cursor
-- `HGrib1` of API/grib1/src/message.cpp, the accessors of sections 0, 3 and 4 that they use, and
-- the loop of `process_file` in src/proc/index.cpp. A pointer into the mapped file is its offset.
-- The calls of the operating system are the parameter `Host`.
pub mod Layout
pub mod Cursor
pub mod Walk
pub mod Concatenation
pub mod Opening
use Prim.Native.String.{String}
use mashroom.Common.{
  ℕ, zero, suc, ◌+◌, ◌-◌, ◌%◌, not, ◌&&◌, Bool, true, false, Option, none, some, List, [], ◌∷◌, ltb,
  leb, ◌==◌, if◌then◌else◌,
}
use mashroom.Common.Int.{ℤ, pos_part, neg_part}
use mashroom.Grib.Bytes.{Buffer, shift, ByteReader}
use mashroom.Grib.TimeForecast.{TimeForecast}
use mashroom.Grib.Level.{Level}
use mashroom.Grib.Product.{
  section1_flags, section_length, parameter_number, forecast, center, table_version, level_data,
}
use mashroom.Grib.GridSection.{to_unsigned}

abbrev pub sec_0_min_sz : ℕ
sec_0_min_sz = 8

pub data Code : Type 0 where
  none_err open_error_x1 memory_error bad_file_x1 run_out_x1 data_empty_x1 read_pos_x1 : Code
  miss_grib_rec_x1 len_unconsist_x1 miss_end_section_x1 : Code

-- The offsets of the sections, 2 and 3 where they are included. `err` is `none` where the
-- constructor leaves `err_` as it finds it.
pub record Message : Type 0 where
  pub section_0 : ℕ
  pub section_1 : ℕ
  pub section_2 : Option ℕ
  pub section_3 : Option ℕ
  pub section_4 : ℕ
  pub err : Option Code

-- What is kept of a message. The grid and the reference time are built by code that is not modelled.
pub record MsgInfo : Type 0 where
  pub position : ℕ
  pub length : ℕ
  pub parameter : ℕ
  pub time : TimeForecast
  pub centre : ℕ
  pub version : ℕ
  pub height : Level
  pub err : Option Code

-- The pointer to a section in the file.
abbrev pub pointer : Buffer → Option ℕ → Option Buffer
pointer f none = none
pointer f (some o) = some (shift o f)

-- `msg_`, `current_ptr_`, `sz_`, and whether `file` is open; `__f_ptr` is offset 0.
pub record HGrib1 : Type 0 where
  pub msg : Option Message
  pub current : ℕ
  pub sz : ℕ
  pub is_open : Bool

pub grib_version_at : Buffer → ℕ → ℕ
grib_version_at f o = f (o + 7)

-- `BitMapSection::unused_bits`.
pub unused_bits : Option Buffer → ℕ
unused_bits none = 0
unused_bits (some p) = p 3

module _ (R : ByteReader) (f : Buffer) where
  -- `IndicatorSection::message_length`.
  unfoldable pub message_length : ℕ → ℕ
  message_length o = R.unsigned 3 (shift (o + 4) f)

  unfoldable pub length_at : Option ℕ → ℕ
  length_at o = section_length R (pointer f o)

  -- The constructor of `Message`, on the message that starts at `b`.
  unfoldable pub read_message : ℕ → Message
  read_message b =
      let s1 = b + sec_0_min_sz in
      let flags = section1_flags (shift s1 f) in
      let l1 = length_at (some s1) in
      let s2 = if flags.sec2_inc then some (s1 + l1) else none in
      let l2 = length_at s2 in
      let s3 = if flags.sec3_inc then some (s1 + l1 + l2) else none in
      let l3 = length_at s3 in
      let s4 = s1 + l1 + l2 + l3 in
      record {
        section_0 = b;
        section_1 = s1;
        section_2 = s2;
        section_3 = s3;
        section_4 = s4;
        err =
            if not (sec_0_min_sz + l1 + l2 + l3 + length_at (some s4) + 4 == message_length b)
            then some len_unconsist_x1
            else none;
      }

  pub current_message_length : HGrib1 → Option ℕ
  current_message_length h = elim h.msg [ none ↦ none | some m ↦ some (message_length m.section_0) ]

  pub file_size : HGrib1 → Option ℕ
  file_size h = elim h.msg [ none ↦ none | some m ↦ some h.sz ]

  -- The result, and the state after the call.
  unfoldable pub next_message : HGrib1 → Bool × HGrib1
  next_message h = elim h.msg [
    | none ↦ (false, h)
    | some m ↦
        let next = h.current + message_length m.section_0 in
        if ltb next h.sz
        then (true, record h { current = next; msg = some (read_message next) })
        else (false, h)
  ]

  -- `pos >= sz_` compares a signed with an unsigned number.
  unfoldable pub set_message : ℤ → HGrib1 → Bool × HGrib1
  set_message position h = if leb h.sz (to_unsigned position) then (false, h) else (
    true,
    record h { current = pos_part position; msg = some (read_message (pos_part position)) },
  )

  -- `memcmp(section_0_.buf_, "GRIB", 4)` is not 0 if the bytes differ.
  unfoldable pub is_correct_format : HGrib1 → Bool
  is_correct_format h = elim h.msg [
    | none ↦ false
    | some m ↦
        let o = m.section_0 in
        leb sec_0_min_sz h.sz
        && not ((f o == 71) && (f (o + 1) == 82) && (f (o + 2) == 73) && (f (o + 3) == 66))
  ]

  unfoldable pub grib_version : HGrib1 → Option ℕ
  grib_version h =
      if is_correct_format h
      then elim h.msg [ none ↦ none | some m ↦ some (grib_version_at f m.section_0) ]
      else none

  -- The members of `GribMsgDataInfo`, as far as they are modelled, of the message `m` at `position`.
  unfoldable pub msg_info : ℕ → Message → MsgInfo
  msg_info position m =
      let p = shift m.section_1 f in
      record {
        position = position;
        length = message_length m.section_0;
        parameter = parameter_number p;
        time = forecast R p;
        centre = center p;
        version = table_version p;
        height = level_data p;
        err = m.err;
      }

  abbrev pub has_section_2 : Message → Bool
  has_section_2 m = elim m.section_2 [ none ↦ false | some s2 ↦ true ]

  abbrev pub emplace : ℕ → Message → Option (List MsgInfo) → Option (List MsgInfo)
  emplace position m none = none
  emplace position m (some rest) = some (msg_info position m ∷ rest)

  -- `section_2_.define_grid()` reads through a null pointer where the message has no section 2.
  abbrev pub emplace_all : ℕ → Option Message → Option (List MsgInfo) → Option (List MsgInfo)
  emplace_all position none rest = rest
  emplace_all position (some m) rest = if has_section_2 m then emplace position m rest else none

  -- `do ... while (next_message())`, with fuel for the rounds; `none` is a loop that is out of it, or a
  -- read through a null pointer.
  unfoldable pub process_file : ℕ → HGrib1 → Option (List MsgInfo)
  process_file zero h = none
  process_file (suc fuel) h =
      let next = next_message h in
      let rest = process_file fuel next.1 in
      emplace_all h.current h.msg (if next.0 then rest else some [])

-- The system calls of `open_grib`: whether a file opens, its size and contents. `mmap` is `none`
-- where the pointer is null; a failed call, which returns MAP_FAILED, is not represented.
pub record Host : Type 0 where
  pub opens : String → Bool
  pub size : String → ℕ
  pub mmap : String → Option Buffer

abbrev pub closed : HGrib1
closed = record { msg = none; current = 0; sz = 0; is_open = false }

-- `!memcmp(__f_ptr + length - 5, "7777", 4)`; `none` reads before the file.
unfoldable pub end_compares : Buffer → ℕ → Option Bool
end_compares f length =
    if ltb length 5
    then none
    else some (
        (f (length - 5) == 55)
        && (f (length - 4) == 55)
        && (f (length - 3) == 55)
        && (f (length - 2) == 55))

-- The end of `open_grib`, on a file that is mapped. `none` is a read before the file.
abbrev pub opened_code : Option Bool → Option Code
opened_code none = none
opened_code (some true) = some miss_end_section_x1
opened_code (some false) = some none_err

-- `open_grib`: the code that it returns, and the state that it leaves.
unfoldable pub open_grib : ByteReader → Host → String → Option Code × HGrib1
open_grib R host name =
    if not (host.opens name)
    then (some open_error_x1, closed)
    else let size = host.size name in
      elim (host.mmap name) [
        | none ↦ (some read_pos_x1, record closed { sz = size; is_open = true })
        | some f ↦
            let h : HGrib1 = record {
              msg = some (read_message R f 0);
              current = 0;
              sz = size;
              is_open = true;
            } in
            (
              elim (current_message_length R f h) [
                | none ↦ some data_empty_x1
                | some length ↦ opened_code (end_compares f length)
              ],
              h,
            )
      ]
