-- ===== src/Network/Messages/Conversation.antt =====
-- Messages that follow each other on a connection.
use mathlib.Core.Option
use mashroom.Common.{
  ℕ, ◌^◌, ◌≤◌, ◌<◌, ◌≡◌, Bool, true, false, Option, none, some, List, [], ◌∷◌, ◌++◌, map, length,
}
use mashroom.Network.Transfer.{SendAnswer, RecvAnswer}
use mashroom.Network.Transfer.Ending.{IsReady}
use mashroom.Network.Messages.{
  Codec, none_code, Ended, code, MessageProcess, send_message, receive_any_message,
}

abbrev pub all_sent : Ended → Bool
all_sent (code none_code) = true
all_sent e = false

module _ {Msg : Type 0} (c : Codec Msg) where
  -- The calls of one side, one behind the other: the bytes they put on the connection, if all return NONE.
  unfoldable pub send_messages : MessageProcess Msg → List (Msg × List SendAnswer) → Option (List ℕ)
  send_messages p [] = some []
  send_messages p ((m, ks) ∷ calls) =
      let r = send_message c p m ks in
      let rest = send_messages r.process calls in
      elim (all_sent r.ended) [ false ↦ none | true ↦ Option.map (◌++◌ r.wire) rest ]

  -- The calls of the other side, and the messages they leave, up to one that gives none.
  unfoldable pub receive_messages :
      ℕ → MessageProcess Msg → List ℕ → List (List RecvAnswer × List RecvAnswer) → List Msg
  receive_messages room p stream [] = []
  receive_messages room p stream ((ks, ls) ∷ calls) =
      let r = receive_any_message c room p stream ks ls in
      let rest = receive_messages room r.process r.stream calls in
      elim (all_sent r.ended) [
        | false ↦ []
        | true ↦ elim r.process.recv_hmsg [ none ↦ [] | some m ↦ m ∷ rest ]
      ]

  -- The messages can be written and read, and the two calls of ::recv for each are ready.
  abbrev pub AreReady :
      ℕ → List (Msg × List SendAnswer) → List (List RecvAnswer × List RecvAnswer) → Type 0
  AreReady room [] [] = Unit
  AreReady room ((m, _) ∷ calls) ((ks, ls) ∷ answers) =
      ((bytes : List ℕ) × (c.serialize m ≡ some bytes))
      × (c.serial_size m < 2 ^ 64)
      × (c.serial_size m ≤ room)
      × IsReady ks
      × (8 ≤ length ks)
      × IsReady ls
      × (c.serial_size m ≤ length ls)
      × AreReady room calls answers
  AreReady room calls answers = ⊥
