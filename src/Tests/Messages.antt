-- ===== src/Tests/Messages.antt =====
-- Network: messages on a connection. A message is a list of bytes, and its size is written in network order.
use mashroom.Common.{ℕ, ◌+◌, ◌*◌, ◌/◌, ◌%◌, ◌^◌, false, Option, none, some, List, [], ◌∷◌, length}
use mashroom.Network.Transfer.{SendAnswer, took, RecvAnswer, got}
use mashroom.Network.Messages.{Codec, MessageProcess}

abbrev put_size : ℕ → List ℕ
put_size n =
    (n / 256 ^ 7 % 256)
    ∷ (n / 256 ^ 6 % 256)
    ∷ (n / 256 ^ 5 % 256)
    ∷ (n / 256 ^ 4 % 256)
    ∷ (n / 256 ^ 3 % 256)
    ∷ (n / 256 ^ 2 % 256)
    ∷ (n / 256 % 256)
    ∷ (n % 256)
    ∷ []

abbrev get_size : List ℕ → Option ℕ
get_size (a ∷ b ∷ c ∷ d ∷ e ∷ f ∷ g ∷ h ∷ []) = some (
    a * 256 ^ 7 + b * 256 ^ 6 + c * 256 ^ 5 + d * 256 ^ 4 + e * 256 ^ 3 + f * 256 ^ 2 + g * 256 + h)
get_size bytes = none

abbrev codec : Codec (List ℕ)
codec = record {
  put_size = put_size;
  get_size = get_size;
  serial_size = length;
  serialize = some;
  deserialize = some;
}

abbrev process : MessageProcess (List ℕ)
process = record {
  hmsg = none;
  hmsg_buffer = [];
  recv_hmsg = none;
  recv_buffer = [];
  has_more = false;
}

abbrev reads : List RecvAnswer
reads = got 3 ∷ got 1 ∷ got 9 ∷ got 1 ∷ got 1 ∷ got 1 ∷ got 1 ∷ got 1 ∷ []

abbrev calls : List (List ℕ × List SendAnswer)
calls = (7 ∷ 8 ∷ [], took 4 ∷ took 6 ∷ []) ∷ (9 ∷ [], took 9 ∷ []) ∷ []

abbrev wire : List ℕ
wire = 0 ∷ 0 ∷ 0 ∷ 0 ∷ 0 ∷ 0 ∷ 0 ∷ 2 ∷ 7 ∷ 8 ∷ 0 ∷ 0 ∷ 0 ∷ 0 ∷ 0 ∷ 0 ∷ 0 ∷ 1 ∷ 9 ∷ []
