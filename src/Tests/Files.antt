-- ===== src/Tests/Files.antt =====
-- Files: the layout of a message, the cursor and the loop over the messages.
use mashroom.Common.{ℕ, ◌≤◌, ◌<◌, ◌≡◌, refl, inr, arith, none, some, [], ◌∷◌}
use mashroom.Common.Int.{negsuc}
use mashroom.Grib.Bytes.{Buffer}
use mashroom.Grib.Product.{parameter_number, section1_flags, section_length}
use mashroom.Grib.Message.{
  MsgInfo, msg_info, HGrib1, read_message, message_length, length_at, next_message, set_message,
  process_file,
}
use mashroom.Grib.Message.Layout.{IsContiguous, read_message-IsContiguous}
use mashroom.Grib.Message.Cursor.{
  IsPlaced, Advances, Seeks, next_message-Advances, set_message-Seeks,
}
use mashroom.Grib.Message.Walk.{info_at, handle}
use mashroom.Grib.Message.Concatenation.{process_file-concat}
use mashroom.Tests.Extractions.{grid_message, file}
use mashroom.Tests.Inputs.{reader, reader-IsBigEndian, two_messages}

abbrev first : HGrib1
first = handle reader two_messages 104 0

read_message-IsContiguous_example :
    IsContiguous reader two_messages 52 (read_message reader two_messages 52)
read_message-IsContiguous_example = read_message-IsContiguous reader two_messages 52

run_layout : read_message reader two_messages 0 ≡ record {
  section_0 = 0;
  section_1 = 8;
  section_2 = none;
  section_3 = none;
  section_4 = 36;
  err = none;
}
unfolding read_message length_at message_length section_length section1_flags
run_layout = refl

first-IsPlaced : IsPlaced reader two_messages first
unfolding IsPlaced
first-IsPlaced = inr (refl, omega arith)

next_message-Advances_example :
    Advances reader two_messages first (next_message reader two_messages first)
next_message-Advances_example = next_message-Advances reader two_messages first first-IsPlaced

set_message-Seeks_example :
    Seeks reader two_messages (negsuc 0) first (set_message reader two_messages (negsuc 0) first)
set_message-Seeks_example =
    set_message-Seeks reader two_messages (negsuc 0) first first-IsPlaced (omega arith)
      (omega arith) (omega arith)

abbrev info : ℕ → MsgInfo
info b = info_at reader two_messages b

run_info : ((info 52).position ≡ 52) × ((info 52).length ≡ 52) × ((info 52).parameter ≡ 11)
unfolding msg_info message_length read_message parameter_number
run_info = (refl, refl, refl)

process_file-concat_example :
    process_file reader file 2 (handle reader file 192 0)
    ≡ some (info_at reader file 0 ∷ info_at reader file 96 ∷ [])
unfolding section1_flags
process_file-concat_example =
    process_file-concat reader reader-IsBigEndian grid_message (grid_message ∷ [])
      ((omega arith, refl), ((omega arith, refl), tt))
      ((omega arith, refl), ((omega arith, refl), tt))

-- A message without section 2 ends the walk by a read through a null pointer.
no_section_2 : process_file reader two_messages 2 (handle reader two_messages 104 0) ≡ none
unfolding process_file next_message read_message section1_flags length_at message_length
    section_length
no_section_2 = refl

-- Every three bytes are the number 65793.
abbrev ones : Buffer
ones i = 1

ones_lengths : (o : ℕ) → o < 200000 → 1 ≤ message_length reader ones o
unfolding message_length
ones_lengths o h = omega arith
