-- ===== src/Network/Messages.antt =====
-- include/network/common/message/message_process.h: a message is sent as its size in eight bytes
-- and its serialization, and received by the same two steps. The serialization library is a
-- parameter; the copies of the first hundred bytes that go to files are left out.
pub mod Framing
pub mod Conversation
use mashroom.Common.{
  ℕ, zero, suc, ◌^◌, ◌<◌, ◌≡◌, Bool, Option, none, some, List, [], ◌∷◌, ◌++◌, if◌then◌else◌, ltb,
  length,
}
use mashroom.Common.Int.{ℤ, pos, negsuc, eq_ℤ}
use mashroom.Network.Transfer.{
  SendAnswer, RecvAnswer, LoopResult, returned, waiting, Sent, send, Received, receive,
}

-- serialize_network and deserialize_network of a uint64_t and of a message.
pub record Codec (Msg : Type 0) : Type 0 where
  pub put_size : ℕ → List ℕ
  pub get_size : List ℕ → Option ℕ
  pub serial_size : Msg → ℕ
  pub serialize : Msg → Option (List ℕ)
  pub deserialize : List ℕ → Option Msg

-- The library writes numbers of 64 bits in eight bytes, messages in as many as it announces, and reads
-- back what it wrote.
pub record IsCodec {Msg : Type 0} (c : Codec Msg) : Type 0 where
  pub length-size : (n : ℕ) → length (c.put_size n) ≡ 8
  pub size-back : (n : ℕ) → n < 2 ^ 64 → c.get_size (c.put_size n) ≡ some n
  pub length-bytes :
      (m : Msg) (bytes : List ℕ) → c.serialize m ≡ some bytes → length bytes ≡ c.serial_size m
  pub bytes-back :
      (m : Msg) (bytes : List ℕ) → c.serialize m ≡ some bytes → c.deserialize bytes ≡ some m

pub data ErrorCode : Type 0 where
  none_code : ErrorCode
  internal_error : ErrorCode
  sending_message_error : ErrorCode
  receiving_message_error : ErrorCode

-- What a call comes to; `terminates` is an exception that leaves a noexcept function.
pub data Ended : Type 0 where
  code : ErrorCode → Ended
  terminates : Ended
  blocked : Ended

pub record MessageProcess (Msg : Type 0) : Type 0 where
  pub hmsg : Option Msg
  pub hmsg_buffer : List ℕ
  pub recv_hmsg : Option Msg
  pub recv_buffer : List ℕ
  pub has_more : Bool

pub record Sending (Msg : Type 0) : Type 0 where
  pub ended : Ended
  pub process : MessageProcess Msg
  pub wire : List ℕ

pub record Reception (Msg : Type 0) : Type 0 where
  pub ended : Ended
  pub process : MessageProcess Msg
  pub stream : List ℕ

abbrev pub sent_code : LoopResult ℤ → Ended
sent_code waiting = blocked
sent_code (returned r) = code (if eq_ℤ r (negsuc 0) then sending_message_error else none_code)

-- resize(n), of a vector that was cleared.
abbrev pub zeros : ℕ → List ℕ
zeros zero = []
zeros (suc n) = 0 ∷ zeros n

module _ {Msg : Type 0} (c : Codec Msg) where
  abbrev pub transmit : MessageProcess Msg → List ℕ → List SendAnswer → Sending Msg
  transmit p buffer ks =
      let r = send (buffer ∷ []) ks in
      record {
        ended = sent_code r.outcome;
        process = record p { hmsg_buffer = buffer };
        wire = r.wire;
      }

  -- __send__
  unfoldable pub send_stored : MessageProcess Msg → List SendAnswer → Sending Msg
  send_stored p ks = elim p.hmsg [
    | none ↦ record {
      ended = code sending_message_error;
      process = record p { hmsg_buffer = [] };
      wire = [];
    }
    | some m ↦
        let size = c.put_size (c.serial_size m) in
        elim (c.serialize m) [
          | none ↦ record {
            ended = code internal_error;
            process = record p { hmsg_buffer = size };
            wire = [];
          }
          | some bytes ↦ transmit p (size ++ bytes) ks
        ]
  ]

  unfoldable pub send_message : MessageProcess Msg → Msg → List SendAnswer → Sending Msg
  send_message p m ks = send_stored (record p { hmsg = some m }) ks

  abbrev failed : MessageProcess Msg → Received → Ended → Reception Msg
  failed p r e = record {
    ended = e;
    process = record p { recv_buffer = r.buffer };
    stream = r.stream;
  }

  -- What follows the test of a call of `receive`.
  abbrev received :
      MessageProcess Msg → Received → (List ℕ → List ℕ → Reception Msg) → Reception Msg
  received p r k = elim r.outcome [
    | waiting ↦ record { ended = blocked; process = p; stream = r.stream }
    | returned v ↦
        if eq_ℤ v (negsuc 0) then failed p r (code receiving_message_error) else k r.buffer r.stream
  ]

  abbrev decode : MessageProcess Msg → List ℕ → List ℕ → Reception Msg
  decode p buffer stream = elim (c.deserialize buffer) [
    | none ↦ record {
      ended = code receiving_message_error;
      process = record p { recv_buffer = buffer };
      stream = stream;
    }
    | some m ↦ record {
      ended = code none_code;
      process = record p { recv_hmsg = some m; recv_buffer = buffer };
      stream = stream;
    }
  ]

  abbrev receive_body : ℕ → MessageProcess Msg → List RecvAnswer → List ℕ → List ℕ → Reception Msg
  receive_body room p ks buffer stream = elim (c.get_size buffer) [
    | none ↦ record {
      ended = code receiving_message_error;
      process = record p { recv_buffer = buffer };
      stream = stream;
    }
    | some data_sz ↦
        if ltb room data_sz
        then record { ended = terminates; process = p; stream = stream }
        else received p (receive (zeros data_sz) data_sz stream ks) (decode p)
  ]

  -- receive_any_message, where a vector can be resized to `room` bytes; the two lists are the answers
  -- to its two calls of `receive`.
  unfoldable pub receive_any_message :
      ℕ → MessageProcess Msg → List ℕ → List RecvAnswer → List RecvAnswer → Reception Msg
  receive_any_message room p stream ks ls =
      received p (receive (zeros 8) 8 stream ks) (receive_body room p ls)
