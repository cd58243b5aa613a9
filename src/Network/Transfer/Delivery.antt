-- ===== src/Network/Transfer/Delivery.antt =====
-- What `send` puts on the way to the peer.
use mathlib.Core.List.{append_assoc, append-nil}
use mashroom.Common.{
  ℕ, ◌≡◌, ◌≢◌, ◌↔◌, ◌⊎◌, inl, inr, refl, arith, Bool, true, false, List, [], ◌∷◌, ◌++◌, drop,
  concat, take-drop,
}
use mashroom.Common.Int.{ℤ, pos, negsuc}
use mashroom.Network.Transfer.{
  SendAnswer, send_failed, took, LoopResult, returned, waiting, Sent, send_sequentialy, and_then,
  send,
}

-- `wire` is the beginning of `all`, and the whole of it if and only if the call returned `done`.
abbrev pub IsPrefix {ℓ} : {A : Type ℓ} → A → List ℕ → Sent A → Type ℓ
IsPrefix done all r =
    (rest : List ℕ) × (r.wire ++ rest ≡ all) × ((r.outcome ≡ returned done) ↔ (rest ≡ []))

send_sequentialy-IsPrefix :
    (buffer : List ℕ) (ks : List SendAnswer) → IsPrefix true buffer (send_sequentialy buffer ks)
unfolding send_sequentialy
send_sequentialy-IsPrefix [] ks = ([], refl, ground arith)
send_sequentialy-IsPrefix (b ∷ bs) [] = (b ∷ bs, refl, ground arith)
send_sequentialy-IsPrefix (b ∷ bs) (send_failed ∷ ks) = (b ∷ bs, refl, ground arith)
send_sequentialy-IsPrefix (b ∷ bs) (took cur ∷ ks) =
    let (rest, whole, done) = send_sequentialy-IsPrefix (drop cur (b ∷ bs)) ks in
    (rest, rw (append_assoc, whole) (take-drop cur (b ∷ bs)), done)

unfinished :
    (o : LoopResult Bool) (p : LoopResult ℤ) (rest all : List ℕ)
    → o ≢ returned true
    → p ≢ returned (pos 0)
    → (o ≡ returned true) ↔ (rest ≡ [])
    → (p ≡ returned (pos 0)) ↔ (rest ++ all ≡ [])
unfinished o p [] all n m d = absurd (n (d.1 refl))
unfinished o p (x ∷ rest) all n m d = ground arith

and_then-IsPrefix :
    (buffer all : List ℕ) (o : LoopResult Bool) (w : List ℕ) (ks : List SendAnswer)
    → IsPrefix true buffer (record { outcome = o; wire = w; answers = ks })
    → (k : List SendAnswer → Sent ℤ) → ((ks : List SendAnswer) → IsPrefix (pos 0) all (k ks))
    → IsPrefix (pos 0) (buffer ++ all) (and_then (record { outcome = o; wire = w; answers = ks }) k)
and_then-IsPrefix buffer all waiting w ks (rest, whole, done) k h = (
  rest ++ all,
  ground (arith, append_assoc w rest all),
  unfinished waiting waiting rest all (ground arith) (ground arith) done,
)
and_then-IsPrefix buffer all (returned false) w ks (rest, whole, done) k h = (
  rest ++ all,
  ground (arith, append_assoc w rest all),
  unfinished (returned false) (returned (negsuc 0)) rest all (ground arith) (ground arith) done,
)
and_then-IsPrefix buffer all (returned true) w ks (rest, whole, done) k h =
    let (rest', whole', done') = h ks in
    (rest', ground (arith, done.0 refl, append-nil w, append_assoc w (k ks).wire rest'), done')

-- Whatever the system answers, the bytes that went out are a prefix of the buffers one behind the
-- other, and all of them if and only if `send` returns 0.
pub send-IsPrefix :
    (buffers : List (List ℕ)) (ks : List SendAnswer)
    → IsPrefix (pos 0) (concat buffers) (send buffers ks)
unfolding send
send-IsPrefix [] ks = ([], refl, ground arith)
send-IsPrefix (buffer ∷ buffers) ks =
    and_then-IsPrefix buffer (concat buffers) _ _ _ (send_sequentialy-IsPrefix buffer ks)
      (send buffers) (send-IsPrefix buffers)

-- 0, -1, or still waiting.
abbrev pub IsAnswer : LoopResult ℤ → Type 0
IsAnswer o = (o ≡ waiting) ⊎ (o ≡ returned (pos 0)) ⊎ (o ≡ returned (negsuc 0))

and_then-IsAnswer :
    (o : LoopResult Bool) (w : List ℕ) (ks : List SendAnswer) (k : List SendAnswer → Sent ℤ)
    → IsAnswer (k ks).outcome
    → IsAnswer (and_then (record { outcome = o; wire = w; answers = ks }) k).outcome
and_then-IsAnswer waiting w ks k h = inl refl
and_then-IsAnswer (returned false) w ks k h = inr (inr refl)
and_then-IsAnswer (returned true) w ks k h = h

pub send-IsAnswer :
    (buffers : List (List ℕ)) (ks : List SendAnswer) → IsAnswer (send buffers ks).outcome
unfolding send
send-IsAnswer [] ks = inr (inl refl)
send-IsAnswer (buffer ∷ buffers) ks =
    and_then-IsAnswer (send_sequentialy buffer ks).outcome _ _ (send buffers)
      (send-IsAnswer buffers _)
