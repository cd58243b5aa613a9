-- ===== src/Network/Transfer/Round.antt =====
-- What one call of ::recv in the loop of `receive` leads to, and how the chunks that it stores join.
use mashroom.Common.{
  ℕ, zero, suc, ◌+◌, ◌-◌, ◌≤◌, ◌<◌, ◌≡◌, ◌⊎◌, inl, inr, refl, ap, arith, List, [], ◌∷◌, ◌++◌,
  length, take, drop, Bool-cases, ℕ-cases, ltb, ltb→lt,
}
use mashroom.Common.Int.{ℤ, negsuc}
use mashroom.Network.Transfer.{
  RecvAnswer, recv_failed, got, chunk_of, write, Reading, receive_round,
}

-- A chunk is the beginning of the stream and fits.
abbrev IsChunk : List ℕ → ℕ → List ℕ → Type 0
IsChunk chunk n stream =
    (chunk ≡ take (length chunk) stream) × (length chunk ≤ n) × (length chunk ≤ length stream)

take-take-IsChunk : (j n : ℕ) (stream : List ℕ) → IsChunk (take j (take n stream)) n stream
take-take-IsChunk zero n stream = (refl, omega arith, omega arith)
take-take-IsChunk (suc j) zero stream = (refl, omega arith, omega arith)
take-take-IsChunk (suc j) (suc n) [] = (refl, omega arith, omega arith)
take-take-IsChunk (suc j) (suc n) (x ∷ xs) =
    let (whole, fits, there) = take-take-IsChunk j n xs in
    (ap (◌∷◌ x) whole, omega (arith, fits), omega (arith, there))

pub length-write : (b : List ℕ) (at : ℕ) (c : List ℕ) → length (write b at c) ≡ length b
length-write [] at c = refl
length-write (x ∷ b) zero [] = refl
length-write (x ∷ b) zero (y ∷ c) = ap suc (length-write b zero c)
length-write (x ∷ b) (suc at) c = ap suc (length-write b at c)

pub write-write :
    (b : List ℕ) (at : ℕ) (c d : List ℕ)
    → write (write b at c) (at + length c) d ≡ write b at (c ++ d)
write-write [] at c d = refl
write-write (x ∷ b) zero [] d = refl
write-write (x ∷ b) zero (y ∷ c) d = ground (arith, write-write b zero c d)
write-write (x ∷ b) (suc at) c d = ground (arith, write-write b at c d)

-- The bytes that were stored, as `write` puts them at the end of the buffer.
pub write_at_end :
    (b c : List ℕ) (at : ℕ) → at + length c ≡ length b → write b at c ≡ take at b ++ c
write_at_end [] [] zero e = refl
write_at_end [] (y ∷ c) zero e = ground arith
write_at_end [] c (suc at) e = ground arith
write_at_end (x ∷ b) [] zero e = ground arith
write_at_end (x ∷ b) (y ∷ c) zero e = ap (◌∷◌ y) (write_at_end b c zero (omega arith))
write_at_end (x ∷ b) c (suc at) e = ap (◌∷◌ x) (write_at_end b c at (omega arith))

abbrev pub advanced : Reading → ℕ → Reading
advanced s k = record {
  n = s.n - k;
  retry = 0;
  buffer = write s.buffer (length s.buffer - s.n) (take k s.stream);
  stream = drop k s.stream;
}

-- What a call of ::recv leads to.
pub data Round (s : Reading) (r : Reading ⊎ ℤ) : Type 0 where
  moved : (k : ℕ) → 0 < k → k ≤ s.n → k ≤ length s.stream → r ≡ inl (advanced s k) → Round s r
  tried : s.retry < 10 → r ≡ inl (record s { retry = s.retry + 1 }) → Round s r
  stopped : r ≡ inr (negsuc 0) → Round s r

got_moved :
    (s : Reading) (j k : ℕ)
    → length (chunk_of (got j) s.n s.stream) ≡ suc k
    → chunk_of (got j) s.n s.stream ≡ take (length (chunk_of (got j) s.n s.stream)) s.stream
    → receive_round s (got j) ≡ inl (advanced s (length (chunk_of (got j) s.n s.stream)))
unfolding receive_round
got_moved s j k e whole = ground (arith, e, whole)

got-Round :
    (s : Reading) (j k : ℕ)
    → k ≡ length (chunk_of (got j) s.n s.stream)
    → chunk_of (got j) s.n s.stream ≡ take k s.stream
    → k ≤ s.n
    → k ≤ length s.stream
    → Round s (receive_round s (got j))
unfolding receive_round
got-Round s j zero e whole fits there = elim (Bool-cases (ltb s.retry 10)) [
  | inl b ↦ tried (ltb→lt s.retry 10 b) (ground arith)
  | inr b ↦ stopped (ground arith)
]
got-Round s j (suc k) e whole fits there =
    moved (suc k) (omega arith) fits there (ground (arith, e, whole))

pub receive_round-Round : (s : Reading) (a : RecvAnswer) → Round s (receive_round s a)
unfolding receive_round
receive_round-Round s (recv_failed err) = stopped (ground arith)
receive_round-Round s (got j) =
    let (whole, fits, there) = take-take-IsChunk j s.n s.stream in
    got-Round s j (length (take j (take s.n s.stream))) refl whole fits there

some_taken : (j n : ℕ) (xs : List ℕ) → 0 < n → 0 < length xs → 0 < length (take (suc j) (take n xs))
some_taken j zero xs h l = absurd (omega arith)
some_taken j (suc n) [] h l = absurd (omega arith)
some_taken j (suc n) (x ∷ xs) h l = omega arith

-- A call that is ready to give at least one byte of a stream that is not empty.
pub receive_round_moves :
    (s : Reading) (j : ℕ)
    → 0 < s.n
    → 0 < length s.stream
    → (k : ℕ) × (0 < k)
      × (k ≤ s.n)
      × (k ≤ length s.stream)
      × (receive_round s (got (suc j)) ≡ inl (advanced s k))
receive_round_moves s j more there =
    let (whole, fits, inside) = take-take-IsChunk (suc j) s.n s.stream in
    let k = length (take (suc j) (take s.n s.stream)) in
    let some_bytes : 0 < k = some_taken j s.n s.stream more there in
    elim (ℕ-cases k) [
      | inl e ↦ absurd (omega arith)
      | inr (i, e) ↦ (k, some_bytes, fits, inside, got_moved s (suc j) i e whole)
    ]
