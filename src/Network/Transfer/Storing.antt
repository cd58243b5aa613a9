-- ===== src/Network/Transfer/Storing.antt =====
-- What `receive` stores, and when it gives up.
use mashroom.Common.{
  ℕ, zero, suc, ◌+◌, ◌-◌, ◌≤◌, ◌≡◌, ◌≢◌, ◌↔◌, ◌⊎◌, inl, inr, refl, sym, ap, subst, ◌∙◌, arith, List,
  [], ◌∷◌, ◌++◌, length, take, drop, take-add, drop-add, length-drop, ℕ-cases,
}
use mashroom.Common.Int.{ℤ, pos}
use mashroom.Network.Transfer.{
  RecvAnswer, LoopResult, returned, waiting, write, Reading, Received, receive_round, receive_loop,
  receive,
}
use mashroom.Network.Transfer.Round.{
  Round, moved, tried, stopped, advanced, receive_round-Round, length-write, write-write,
  write_at_end,
}

-- `k` bytes of the stream were stored from the place where `s` stores, and `s.n` exactly for result 0.
abbrev pub Stores : Reading → Received → Type 0
Stores s r =
    (k : ℕ) × (k ≤ s.n)
    × (k ≤ length s.stream)
    × (r.buffer ≡ write s.buffer (length s.buffer - s.n) (take k s.stream))
    × (r.stream ≡ drop k s.stream)
    × ((r.outcome ≡ returned (pos 0)) ↔ (k ≡ s.n))

write-nil : (b : List ℕ) (at : ℕ) → write b at [] ≡ b
write-nil [] at = refl
write-nil (x ∷ b) zero = refl
write-nil (x ∷ b) (suc at) = ap (◌∷◌ x) (write-nil b at)

length-take : (k : ℕ) (xs : List ℕ) → k ≤ length xs → length (take k xs) ≡ k
length-take zero xs h = refl
length-take (suc k) [] h = ground arith
length-take (suc k) (x ∷ xs) h = ap suc (length-take k xs (omega arith))

nothing-Stores :
    (s : Reading) (o : LoopResult ℤ)
    → (o ≡ returned (pos 0)) ↔ (0 ≡ s.n)
    → Stores s (record { outcome = o; buffer = s.buffer; stream = s.stream })
nothing-Stores s o h = (0, omega arith, omega arith, sym (write-nil _ _), refl, h)

advanced-Stores :
    (s : Reading) (k : ℕ) (r : Received)
    → s.n ≤ length s.buffer
    → k ≤ s.n
    → k ≤ length s.stream
    → Stores (advanced s k) r
    → Stores s r
advanced-Stores s k r room fits there (j, j_fits, j_there, stored, left, done) = (
  k + j,
  omega arith,
  omega (arith, length-drop k s.stream),
  stored ∙ both,
  left ∙ sym (drop-add k j s.stream),
  ground (arith, done),
)
  where
    both :
        write
          (advanced s k).buffer
          (length (advanced s k).buffer - (s.n - k))
          (take j (drop k s.stream))
        ≡ write s.buffer (length s.buffer - s.n) (take (k + j) s.stream)
    both = ground (
      arith,
      length-write s.buffer (length s.buffer - s.n) (take k s.stream),
      length-take k s.stream there,
      write-write s.buffer (length s.buffer - s.n) (take k s.stream) (take j (drop k s.stream)),
      take-add k j s.stream,
    )

pub receive_loop_done :
    (s : Reading) (ks : List RecvAnswer)
    → s.n ≡ 0
    → receive_loop s ks
      ≡ record { outcome = returned (pos 0); buffer = s.buffer; stream = s.stream }
unfolding receive_loop
receive_loop_done s [] e = rw e refl
receive_loop_done s (a ∷ ks) e = rw e refl

-- What remains to be done after one call.
abbrev pub go_on : Reading ⊎ ℤ → Reading → List RecvAnswer → Received
go_on (inl t) s ks = receive_loop t ks
go_on (inr result) s ks = record { outcome = returned result; buffer = s.buffer; stream = s.stream }

pub receive_loop_more :
    (s : Reading) (a : RecvAnswer) (ks : List RecvAnswer)
    → s.n ≢ 0
    → receive_loop s (a ∷ ks) ≡ go_on (receive_round s a) s ks
unfolding receive_loop
receive_loop_more s a ks h = elim (ℕ-cases s.n) [ inl e ↦ absurd (h e) | inr (m, e) ↦ ground arith ]

pub receive_loop_waits :
    (s : Reading)
    → s.n ≢ 0
    → receive_loop s [] ≡ record { outcome = waiting; buffer = s.buffer; stream = s.stream }
unfolding receive_loop
receive_loop_waits s h = elim (ℕ-cases s.n) [ inl e ↦ absurd (h e) | inr (m, e) ↦ rw e refl ]

go_on-Stores :
    (s : Reading) (ks : List RecvAnswer) (r : Reading ⊎ ℤ)
    → s.n ≢ 0
    → s.n ≤ length s.buffer
    → ((t : Reading) → t.n ≤ length t.buffer → Stores t (receive_loop t ks))
    → Round s r
    → Stores s (go_on r s ks)
go_on-Stores s ks r more room ih (moved k some_bytes fits there e) =
    subst (λ r. Stores s (go_on r s ks)) (sym e)
      (advanced-Stores s k _ room fits there (
        ih (advanced s k)
          (omega (arith, length-write s.buffer (length s.buffer - s.n) (take k s.stream)))))
go_on-Stores s ks r more room ih (tried few e) =
    subst (λ r. Stores s (go_on r s ks)) (sym e) (ih (record s { retry = s.retry + 1 }) room)
go_on-Stores s ks r more room ih (stopped e) =
    subst (λ r. Stores s (go_on r s ks)) (sym e) (nothing-Stores s _ (ground arith))

receive_loop-Stores :
    (s : Reading) (ks : List RecvAnswer) → s.n ≤ length s.buffer → Stores s (receive_loop s ks)
receive_loop-Stores s [] room = elim (ℕ-cases s.n) [
  | inl e ↦ subst (Stores s) (sym (receive_loop_done s [] e)) (nothing-Stores s _ (ground arith))
  | inr (m, e) ↦
      subst (Stores s) (sym (receive_loop_waits s (ground arith)))
        (nothing-Stores s _ (ground arith))
]
receive_loop-Stores s (a ∷ ks) room = elim (ℕ-cases s.n) [
  | inl e ↦
      subst (Stores s) (sym (receive_loop_done s (a ∷ ks) e)) (nothing-Stores s _ (ground arith))
  | inr (m, e) ↦ subst (Stores s) (sym (receive_loop_more s a ks (ground arith))) (
      go_on-Stores s ks _ (ground arith) room (λ t h. receive_loop-Stores t ks h)
        (receive_round-Round s a))
]

-- `receive` with room for `n` bytes stores the next bytes of the stream, at most `n`, from the
-- place `n` before the end of the buffer on, and takes exactly these out of the stream. It returns 0
-- if and only if these are `n` bytes; the buffer then ends in them and is unchanged before.
pub receive-Stores :
    (buffer : List ℕ) (n : ℕ) (stream : List ℕ) (ks : List RecvAnswer)
    → n ≤ length buffer
    → let r = receive buffer n stream ks in
      let start = length buffer - n in
      (k : ℕ) × (k ≤ n)
      × (k ≤ length stream)
      × (r.buffer ≡ write buffer start (take k stream))
      × (r.stream ≡ drop k stream)
      × ((r.outcome ≡ returned (pos 0)) ↔ (k ≡ n))
      × (k ≡ n → r.buffer ≡ take start buffer ++ take n stream)
unfolding receive
receive-Stores buffer n stream ks room =
    let (k, fits, there, stored, left, done) = receive_loop-Stores _ ks room in
    (
      k,
      fits,
      there,
      stored,
      left,
      done,
      λ e. ground (
        arith,
        stored,
        write_at_end buffer (take k stream) (length buffer - n)
            (omega (arith, length-take k stream there)),
      ),
    )
