-- ===== src/Network/Transfer/Ending.antt =====
-- The loops of `send` and `receive` end, and what a peer receives of what was sent.
use mathlib.Core.List.{append-nil}
use mashroom.Common.{
  ℕ, zero, suc, ◌+◌, ◌-◌, ◌*◌, ◌≤◌, ◌<◌, ◌≡◌, ◌≢◌, ◌↔◌, ◌⊎◌, inl, inr, refl, sym, ap, subst, arith,
  true, false, List, [], ◌∷◌, ◌++◌, length, take, drop, concat, length-drop, length-append, Bool,
  ℕ-cases, take_length,
}
use mashroom.Common.Int.{ℤ, pos, negsuc}
use mashroom.Network.Transfer.{
  SendAnswer, send_failed, took, RecvAnswer, recv_failed, got, LoopResult, returned, waiting, Sent,
  send_sequentialy, and_then, send, receive_round, Reading, Received, receive_loop, receive,
}
use mashroom.Network.Transfer.Delivery.{send-IsPrefix}
use mashroom.Network.Transfer.Round.{
  Round, moved, tried, stopped, receive_round-Round, advanced, receive_round_moves,
}
use mashroom.Network.Transfer.Storing.{
  receive_loop_done, receive_loop_waits, receive_loop_more, go_on, receive-Stores,
}

abbrev pub HasEnded : Received → Type 0
HasEnded r = (r.outcome ≡ returned (pos 0)) ⊎ (r.outcome ≡ returned (negsuc 0))

go_on-HasEnded :
    (s : Reading) (ks : List RecvAnswer) (r : Reading ⊎ ℤ)
    → s.retry ≤ 10
    → 11 * s.n ≤ s.retry + suc (length ks)
    → ((t : Reading) → t.retry ≤ 10 → 11 * t.n ≤ t.retry + length ks → HasEnded (receive_loop t ks))
    → Round s r
    → HasEnded (go_on r s ks)
go_on-HasEnded s ks r few enough ih (moved k some_bytes fits there e) =
    subst (λ r. HasEnded (go_on r s ks)) (sym e) (ih _ (omega arith) (omega arith))
go_on-HasEnded s ks r few enough ih (tried h e) =
    subst (λ r. HasEnded (go_on r s ks)) (sym e) (ih _ (omega arith) (omega arith))
go_on-HasEnded s ks r few enough ih (stopped e) =
    subst (λ r. HasEnded (go_on r s ks)) (sym e) (inr refl)

receive_loop-HasEnded :
    (s : Reading) (ks : List RecvAnswer)
    → s.retry ≤ 10
    → 11 * s.n ≤ s.retry + length ks
    → HasEnded (receive_loop s ks)
receive_loop-HasEnded s [] few enough =
    subst HasEnded (sym (receive_loop_done s [] (omega arith))) (inl refl)
receive_loop-HasEnded s (a ∷ ks) few enough = elim (ℕ-cases s.n) [
  | inl e ↦ subst HasEnded (sym (receive_loop_done s (a ∷ ks) e)) (inl refl)
  | inr (m, e) ↦ subst HasEnded (sym (receive_loop_more s a ks (ground arith))) (
      go_on-HasEnded s ks _ few enough (λ t f h. receive_loop-HasEnded t ks f h)
        (receive_round-Round s a))
]

-- `receive` for `n` bytes returns 0 or -1 after at most 11 calls of ::recv for each byte, whatever
-- these return, and -1 if the stream holds less than `n` bytes.
pub receive-ends :
    (buffer : List ℕ) (n : ℕ) (stream : List ℕ) (ks : List RecvAnswer)
    → n ≤ length buffer
    → 11 * n ≤ length ks
    → let r = receive buffer n stream ks in
      HasEnded r × (length stream < n → r.outcome ≡ returned (negsuc 0))
unfolding receive
receive-ends buffer n stream ks room enough =
    let (k, fits, there, stored, left, done, whole) = receive-Stores buffer n stream ks room in
    let ended =
      receive_loop-HasEnded (record { n = n; retry = 0; buffer = buffer; stream = stream }) ks
        (omega arith) (omega (arith, enough)) in
    (ended, λ h. short k (receive buffer n stream ks) ended done (omega arith))
  where
    short :
        (k : ℕ) (r : Received)
        → HasEnded r
        → (r.outcome ≡ returned (pos 0)) ↔ (k ≡ n)
        → k < n
        → r.outcome ≡ returned (negsuc 0)
    short k r (inl e) d h = absurd (omega (arith, d.0 e))
    short k r (inr e) d h = e

-- Every call of ::send that succeeds takes at least one byte.
abbrev pub IsProgress : List SendAnswer → Type 0
IsProgress [] = Unit
IsProgress (send_failed ∷ ks) = IsProgress ks
IsProgress (took cur ∷ ks) = (0 < cur) × IsProgress ks

-- The result is there, and the answers that are left are still enough.
abbrev Spends {ℓ} : {A : Type ℓ} → A → ℕ → List SendAnswer → Sent A → Type ℓ
Spends done bytes ks r =
    (r.outcome ≢ waiting)
    × IsProgress r.answers
    × (r.outcome ≡ returned done → length ks ≤ length r.answers + bytes)

send_sequentialy-Spends :
    (buffer : List ℕ) (ks : List SendAnswer)
    → IsProgress ks
    → length buffer ≤ length ks
    → Spends true (length buffer) ks (send_sequentialy buffer ks)
unfolding send_sequentialy
send_sequentialy-Spends [] ks p h = ground arith
send_sequentialy-Spends (b ∷ bs) [] p h = absurd (omega arith)
send_sequentialy-Spends (b ∷ bs) (send_failed ∷ ks) p h = ground arith
send_sequentialy-Spends (b ∷ bs) (took cur ∷ ks) p h =
    let ih =
      send_sequentialy-Spends (drop cur (b ∷ bs)) ks p.1
        (omega (arith, length-drop cur (b ∷ bs))) in
    (ih.0, ih.1, λ e. omega (arith, ih.2 e, length-drop cur (b ∷ bs)))

and_then-ends :
    (o : LoopResult Bool) (w : List ℕ) (ks : List SendAnswer) (k : List SendAnswer → Sent ℤ)
    → o ≢ waiting
    → (o ≡ returned true → (k ks).outcome ≢ waiting)
    → (and_then (record { outcome = o; wire = w; answers = ks }) k).outcome ≢ waiting
and_then-ends waiting w ks k there rest = absurd (there refl)
and_then-ends (returned false) w ks k there rest = ground arith
and_then-ends (returned true) w ks k there rest = rest refl

-- If every call of ::send that succeeds takes at least one byte, then `send` returns after at most
-- as many calls as there are bytes.
pub send-ends :
    (buffers : List (List ℕ)) (ks : List SendAnswer)
    → IsProgress ks
    → length (concat buffers) ≤ length ks
    → (send buffers ks).outcome ≢ waiting
unfolding send
send-ends [] ks p h = ground arith
send-ends (buffer ∷ buffers) ks p h =
    let (there, still, left) =
      send_sequentialy-Spends buffer ks p (omega (arith, length-append buffer (concat buffers))) in
    and_then-ends (send_sequentialy buffer ks).outcome _ _ (send buffers) there
      λ e. send-ends buffers _ still (omega (arith, left e, length-append buffer (concat buffers)))

abbrev FailsAfter : Received → Received → Type 0
FailsAfter r q = r.outcome ≡ waiting → q ≡ record r { outcome = returned (negsuc 0) }

go_on-FailsAfter :
    (s : Reading) (ks ls : List RecvAnswer) (r : Reading ⊎ ℤ)
    → ((t : Reading) → FailsAfter (receive_loop t ks) (receive_loop t ls))
    → FailsAfter (go_on r s ks) (go_on r s ls)
go_on-FailsAfter s ks ls (inl t) ih = ih t
go_on-FailsAfter s ks ls (inr result) ih = ground arith

receive_round_failed : (s : Reading) (err : ℕ) → receive_round s (recv_failed err) ≡ inr (negsuc 0)
unfolding receive_round
receive_round_failed s err = refl

receive_loop-FailsAfter :
    (s : Reading) (ks ls : List RecvAnswer) (err : ℕ)
    → FailsAfter (receive_loop s ks) (receive_loop s (ks ++ recv_failed err ∷ ls))
receive_loop-FailsAfter s [] ls err w = elim (ℕ-cases s.n) [
  | inl e ↦ ground (arith, receive_loop_done s [] e)
  | inr (m, e) ↦ ground (
    arith,
    receive_loop_waits s,
    receive_loop_more s (recv_failed err) ls,
    receive_round_failed s err,
  )
]
receive_loop-FailsAfter s (a ∷ ks) ls err w = elim (ℕ-cases s.n) [
  | inl e ↦ ground (arith, receive_loop_done s (a ∷ ks) e)
  | inr (m, e) ↦
      rw (receive_loop_more s a ks (ground arith), receive_loop_more s a _ (ground arith))
        (go_on-FailsAfter s ks (ks ++ recv_failed err ∷ ls) (receive_round s a)
          (λ t. receive_loop-FailsAfter t ks ls err)
          (subst (λ r. r.outcome ≡ waiting) (receive_loop_more s a ks (ground arith)) w))
]

-- If `receive` still waits after `ks`, then a call of ::recv that fails, for whatever reason (an interrupted
-- one, EINTR or EAGAIN, included), ends it with -1 and leaves what was stored.
pub receive-failed :
    (buffer : List ℕ) (n : ℕ) (stream : List ℕ) (ks ls : List RecvAnswer) (err : ℕ)
    → (receive buffer n stream ks).outcome ≡ waiting
    → receive buffer n stream (ks ++ recv_failed err ∷ ls)
      ≡ record (receive buffer n stream ks) { outcome = returned (negsuc 0) }
unfolding receive
receive-failed buffer n stream ks ls err w = receive_loop-FailsAfter _ ks ls err w

-- Every call of ::recv is ready to give at least one byte.
abbrev pub IsReady : List RecvAnswer → Type 0
IsReady [] = Unit
IsReady (recv_failed err ∷ ls) = ⊥
IsReady (got k ∷ ls) = (0 < k) × IsReady ls

receive_loop_full :
    (s : Reading) (ls : List RecvAnswer)
    → IsReady ls
    → s.n ≤ length ls
    → s.n ≤ length s.stream
    → (receive_loop s ls).outcome ≡ returned (pos 0)
receive_loop_full s [] ready h there = ground (arith, receive_loop_done s [])
receive_loop_full s (recv_failed err ∷ ls) ready h there = absurd ready
receive_loop_full s (got zero ∷ ls) ready h there = absurd (omega arith)
receive_loop_full s (got (suc j) ∷ ls) ready h there = elim (ℕ-cases s.n) [
  | inl e ↦ ground (arith, receive_loop_done s (got (suc j) ∷ ls))
  | inr (m, e) ↦
      let (k, some_bytes, fits, inside, moves) =
        receive_round_moves s j (omega arith) (omega arith) in
      rw (receive_loop_more s (got (suc j)) ls (ground arith), moves)
        (receive_loop_full (advanced s k) ls ready.1 (omega arith)
          (omega (arith, length-drop k s.stream)))
]

-- If no call of ::recv fails or comes back empty, then `receive` with a buffer of `n` bytes returns 0
-- after at most `n` calls, with the next `n` bytes of the stream.
pub receive-full :
    (buffer : List ℕ) (n : ℕ) (stream : List ℕ) (ls : List RecvAnswer)
    → length buffer ≡ n
    → IsReady ls
    → n ≤ length ls
    → n ≤ length stream
    → receive buffer n stream ls
      ≡ record { outcome = returned (pos 0); buffer = take n stream; stream = drop n stream }
unfolding receive
receive-full buffer n stream ls size ready enough there =
    let (k, fits, inside, stored, left, done, whole) =
      receive-Stores buffer n stream ls (omega (arith, size)) in
    let ok : (receive buffer n stream ls).outcome ≡ returned (pos 0) =
      receive_loop_full _ ls ready enough there in
    ground (arith, ok, left, whole (done.0 ok), nothing, done.0 ok)
  where
    nothing : length buffer - n ≡ 0
    nothing = omega (arith, size)

-- What `send` delivered when it returned 0, `receive` with room for it gives back: if no call of ::recv
-- fails or comes back empty, it returns 0 after at most as many calls as there are bytes, and the
-- buffer holds the buffers that were sent, one behind the other.
pub receive-send :
    (buffers : List (List ℕ)) (ks : List SendAnswer) (room : List ℕ) (ls : List RecvAnswer)
    → length (concat buffers) ≡ length room
    → (send buffers ks).outcome ≡ returned (pos 0)
    → IsReady ls
    → length room ≤ length ls
    → let r = receive room (length room) (send buffers ks).wire ls in
      (r.outcome ≡ returned (pos 0)) × (r.buffer ≡ concat buffers)
receive-send buffers ks room ls size sent ready enough =
    let (rest, all, finished) = send-IsPrefix buffers ks in
    let all_sent : (send buffers ks).wire ≡ concat buffers =
      ground (arith, finished.0 sent, append-nil (send buffers ks).wire) in
    let r =
      receive-full room (length room) (send buffers ks).wire ls refl ready enough
        (omega (arith, size, ap length all_sent)) in
    ground (arith, r, all_sent, size, take_length (concat buffers))
