-- ===== src/Tests/Transfers.antt =====
-- Network: what is sent and received.
use mashroom.Common.{ℕ, ◌<◌, ◌≡◌, refl, arith, List, [], ◌∷◌}
use mashroom.Common.Int.{pos, negsuc}
use mashroom.Network.Transfer.{
  SendAnswer, send_failed, took, RecvAnswer, got, returned, send_sequentialy, send, receive_round,
  receive_loop, receive,
}
use mashroom.Network.Transfer.Delivery.{IsPrefix, send-IsPrefix}
use mashroom.Network.Transfer.Ending.{HasEnded, receive-ends, receive-send}

abbrev buffers : List (List ℕ)
buffers = (1 ∷ 2 ∷ 3 ∷ []) ∷ [] ∷ (4 ∷ 5 ∷ []) ∷ []

abbrev answers : List SendAnswer
answers = took 2 ∷ took 1 ∷ took 2 ∷ []

abbrev room : List ℕ
room = 0 ∷ 0 ∷ 0 ∷ 0 ∷ 0 ∷ []

abbrev chunks : List RecvAnswer
chunks = got 1 ∷ got 9 ∷ got 2 ∷ got 2 ∷ got 1 ∷ []

-- The second byte is on its way when the connection breaks.
send-IsPrefix_example :
    IsPrefix (pos 0) (1 ∷ 2 ∷ 3 ∷ 4 ∷ 5 ∷ []) (send buffers (took 1 ∷ send_failed ∷ []))
send-IsPrefix_example = send-IsPrefix buffers (took 1 ∷ send_failed ∷ [])

send_runs : (send buffers answers).wire ≡ 1 ∷ 2 ∷ 3 ∷ 4 ∷ 5 ∷ []
unfolding send send_sequentialy
send_runs = refl

receive_runs :
    (receive room 3 (7 ∷ 8 ∷ 9 ∷ []) (got 2 ∷ got 0 ∷ got 5 ∷ [])).buffer ≡ 0 ∷ 0 ∷ 7 ∷ 8 ∷ 9 ∷ []
unfolding receive receive_loop receive_round
receive_runs = refl

abbrev empty_reads : List RecvAnswer
empty_reads =
    got 1 ∷ got 1 ∷ got 1 ∷ got 1 ∷ got 1 ∷ got 1 ∷ got 1 ∷ got 1 ∷ got 1 ∷ got 1 ∷ got 1 ∷ []

-- The peer has closed the connection.
receive-ends_example :
    let r = receive room 1 [] empty_reads in HasEnded r × (0 < 1 → r.outcome ≡ returned (negsuc 0))
receive-ends_example = receive-ends room 1 [] empty_reads (omega arith) (omega arith)

receive-send_example :
    let r = receive room 5 (send buffers answers).wire chunks in
    (r.outcome ≡ returned (pos 0)) × (r.buffer ≡ 1 ∷ 2 ∷ 3 ∷ 4 ∷ 5 ∷ [])
unfolding send send_sequentialy
receive-send_example =
    receive-send buffers answers room chunks refl refl (ground arith) (omega arith)
