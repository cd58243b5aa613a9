-- ===== src/Network/Messages/Framing.antt =====
-- Messages as they follow each other on a connection.
use mathlib.Core.List.{append_assoc, append-nil}
use mashroom.Common.{
  ℕ, zero, suc, ◌^◌, ◌≤◌, ◌<◌, ◌≡◌, ◌↔◌, ◌⊎◌, refl, ap, ◌∙◌, arith, some, List, [], ◌∷◌, ◌++◌,
  length, take, drop, length-append,
}
use mashroom.Common.Int.{ℤ, pos}
use mashroom.Network.Transfer.{SendAnswer, RecvAnswer, LoopResult, returned, send, receive}
use mashroom.Network.Transfer.Delivery.{IsAnswer, send-IsPrefix, send-IsAnswer}
use mashroom.Network.Transfer.Ending.{IsReady, receive-full}
use mashroom.Network.Messages.{
  Codec, IsCodec, none_code, code, terminates, MessageProcess, sent_code, zeros, transmit,
  send_stored, send_message, receive_any_message,
}

length-zeros : (n : ℕ) → length (zeros n) ≡ n
length-zeros zero = refl
length-zeros (suc n) = ap suc (length-zeros n)

take_append : (n : ℕ) (xs ys : List ℕ) → length xs ≡ n → take n (xs ++ ys) ≡ xs
take_append zero [] ys e = refl
take_append zero (x ∷ xs) ys e = ground arith
take_append (suc n) [] ys e = ground arith
take_append (suc n) (x ∷ xs) ys e = ap (◌∷◌ x) (take_append n xs ys (omega arith))

drop_append : (n : ℕ) (xs ys : List ℕ) → length xs ≡ n → drop n (xs ++ ys) ≡ ys
drop_append zero [] ys e = refl
drop_append zero (x ∷ xs) ys e = ground arith
drop_append (suc n) [] ys e = ground arith
drop_append (suc n) (x ∷ xs) ys e = drop_append n xs ys (omega arith)

-- A buffer of the right size takes exactly `bytes` from a stream that starts with them.
receive-append :
    (n : ℕ) (bytes rest : List ℕ) (ks : List RecvAnswer)
    → length bytes ≡ n
    → IsReady ks
    → n ≤ length ks
    → receive (zeros n) n (bytes ++ rest) ks
      ≡ record { outcome = returned (pos 0); buffer = bytes; stream = rest }
receive-append n bytes rest ks size ready enough = ground (
  arith,
  receive-full (zeros n) n (bytes ++ rest) ks (length-zeros n) ready enough
      (omega (arith, size, length-append bytes rest)),
  take_append n bytes rest size,
  drop_append n bytes rest size,
)

sent_code-none :
    (o : LoopResult ℤ) → IsAnswer o → (sent_code o ≡ code none_code) ↔ (o ≡ returned (pos 0))
sent_code-none o h = ground arith

append-length : (xs ys zs : List ℕ) → xs ++ ys ≡ zs → xs ≡ zs → ys ≡ []
append-length xs [] zs e h = refl
append-length xs (y ∷ ys) zs e h =
    absurd (omega (arith, length-append xs (y ∷ ys), ap length e, ap length h))

module _ {Msg : Type 0} (c : Codec Msg) where
  abbrev pub frame : Msg → List ℕ → List ℕ
  frame m bytes = c.put_size (c.serial_size m) ++ bytes

  send_message_sends :
      (p : MessageProcess Msg) (m : Msg) (bytes : List ℕ) (ks : List SendAnswer)
      → c.serialize m ≡ some bytes
      → send_message c p m ks ≡ transmit c (record p { hmsg = some m }) (frame m bytes) ks
  unfolding send_message send_stored
  send_message_sends p m bytes ks e = ground (arith, e)

  -- `send_message` returns NONE if and only if the whole frame of the message went out.
  pub send_message-frame :
      (p : MessageProcess Msg) (m : Msg) (bytes : List ℕ) (ks : List SendAnswer)
      → c.serialize m ≡ some bytes
      → ((send_message c p m ks).ended ≡ code none_code)
        ↔ ((send_message c p m ks).wire ≡ frame m bytes)
  send_message-frame p m bytes ks e =
      let (rest, all, finished) = send-IsPrefix (frame m bytes ∷ []) ks in
      let r = send (frame m bytes ∷ []) ks in
      let whole = all ∙ append-nil (frame m bytes) in
      let ended = sent_code-none r.outcome (send-IsAnswer (frame m bytes ∷ []) ks) in
      rw (send_message_sends p m bytes ks e) (
        (λ n. ground (arith, finished.0 (ended.0 n), whole, append-nil r.wire)),
        (λ w. ended.1 (finished.1 (append-length r.wire rest (frame m bytes) whole w))),
      )

  -- A frame at the start of the stream is received as its message, and the stream goes on behind it.
  pub receive_any_message-frame :
      IsCodec c
      → (room : ℕ) (p : MessageProcess Msg) (m : Msg) (bytes rest : List ℕ)
        (ks ls : List RecvAnswer)
      → c.serialize m ≡ some bytes
      → c.serial_size m < 2 ^ 64
      → c.serial_size m ≤ room
      → IsReady ks
      → 8 ≤ length ks
      → IsReady ls
      → c.serial_size m ≤ length ls
      → receive_any_message c room p (frame m bytes ++ rest) ks ls ≡ record {
        ended = code none_code;
        process = record p { recv_hmsg = some m; recv_buffer = bytes };
        stream = rest;
      }
  unfolding receive_any_message
  receive_any_message-frame ok room p m bytes rest ks ls e fits roomy kr kn lr ln = ground (
    arith,
    append_assoc (c.put_size (c.serial_size m)) bytes rest,
    receive-append 8 (c.put_size (c.serial_size m)) (bytes ++ rest) ks
        (ok.length-size (c.serial_size m)) kr kn,
    ok.size-back (c.serial_size m) fits,
    receive-append (c.serial_size m) bytes rest ls (ok.length-bytes m bytes e) lr ln,
    ok.bytes-back m bytes e,
  )

-- A size that the vector cannot be resized to ends the process: the exception leaves a noexcept function.
pub receive_any_message-terminates :
    {Msg : Type 0} (c : Codec Msg) (room : ℕ) (p : MessageProcess Msg) (head rest : List ℕ)
    (ks ls : List RecvAnswer) (data_sz : ℕ)
    → length head ≡ 8
    → c.get_size head ≡ some data_sz
    → room < data_sz
    → IsReady ks
    → 8 ≤ length ks
    → (receive_any_message c room p (head ++ rest) ks ls).ended ≡ terminates
unfolding receive_any_message
receive_any_message-terminates c room p head rest ks ls data_sz size got large ready enough =
    ground (arith, receive-append 8 head rest ks size ready enough, got)

-- Whatever arrives, `receive_any_message` leaves `has_more` as it was; and if it does not return NONE,
-- then the message that it holds is the one of before.
pub receive_any_message-keeps :
    {Msg : Type 0} (c : Codec Msg) (room : ℕ) (p : MessageProcess Msg) (stream : List ℕ)
    (ks ls : List RecvAnswer)
    → let r = receive_any_message c room p stream ks ls in
      (r.process.has_more ≡ p.has_more)
      × ((r.ended ≡ code none_code) ⊎ (r.process.recv_hmsg ≡ p.recv_hmsg))
unfolding receive_any_message
receive_any_message-keeps c room p stream ks ls = ground arith
