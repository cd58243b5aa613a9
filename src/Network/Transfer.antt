-- ===== src/Network/Transfer.antt =====
-- network/include/send.h and receive.h: the loops around ::send and ::recv. What is printed and the
-- pause between two empty reads are left out. The answers of the system are an argument, one for
-- each call; a loop that has used them up still waits.
pub mod Delivery
pub mod Round
pub mod Storing
pub mod Ending
use mashroom.Common.{
  ℕ, zero, suc, ◌+◌, ◌-◌, ◌⊎◌, inl, inr, Bool, true, false, Option, none, some, List, [], ◌∷◌, ◌++◌,
  if◌then◌else◌, ltb, leb, length, take, drop,
}
use mashroom.Common.Int.{ℤ, pos, negsuc, eq_ℤ}

-- ::send fails or takes that many of the bytes that it is offered.
pub data SendAnswer : Type 0 where
  send_failed : SendAnswer
  took : ℕ → SendAnswer

-- ::recv fails with an errno, or gives up to that many of the bytes that are on their way.
pub data RecvAnswer : Type 0 where
  recv_failed : ℕ → RecvAnswer
  got : ℕ → RecvAnswer

pub data LoopResult {ℓ} (A : Type ℓ) : Type ℓ where
  returned : A → LoopResult A
  waiting : LoopResult A

-- The result, the bytes that were taken, and the answers that are left.
pub record Sent {ℓ} (A : Type ℓ) : Type ℓ where
  pub outcome : LoopResult A
  pub wire : List ℕ
  pub answers : List SendAnswer

-- The buffer from `sent` on.
unfoldable pub send_sequentialy : List ℕ → List SendAnswer → Sent Bool
send_sequentialy [] ks = record { outcome = returned true; wire = []; answers = ks }
send_sequentialy (b ∷ bs) [] = record { outcome = waiting; wire = []; answers = [] }
send_sequentialy (b ∷ bs) (send_failed ∷ ks) = record {
  outcome = returned false;
  wire = [];
  answers = ks;
}
send_sequentialy (b ∷ bs) (took cur ∷ ks) =
    let r = send_sequentialy (drop cur (b ∷ bs)) ks in
    record r { wire = take cur (b ∷ bs) ++ r.wire }

abbrev pub and_then : Sent Bool → (List SendAnswer → Sent ℤ) → Sent ℤ
and_then r k = elim r.outcome [
  | waiting ↦ record { outcome = waiting; wire = r.wire; answers = r.answers }
  | returned ok ↦ elim ok [
    | false ↦ record { outcome = returned (negsuc 0); wire = r.wire; answers = r.answers }
    | true ↦ record (k r.answers) { wire = r.wire ++ (k r.answers).wire }
  ]
]

unfoldable pub send : List (List ℕ) → List SendAnswer → Sent ℤ
send [] ks = record { outcome = returned (pos 0); wire = []; answers = ks }
send (buffer ∷ buffers) ks = and_then (send_sequentialy buffer ks) (send buffers)

abbrev pub eintr : ℕ
eintr = 4

abbrev pub eagain : ℕ
eagain = 11

-- What a call of ::recv for `n` bytes returns, with the bytes and the rest of the stream.
abbrev read_num_of : RecvAnswer → List ℕ → ℤ
read_num_of (recv_failed err) chunk = negsuc 0
read_num_of (got k) chunk = pos (length chunk)

abbrev pub chunk_of : RecvAnswer → ℕ → List ℕ → List ℕ
chunk_of (recv_failed err) n stream = []
chunk_of (got k) n stream = take k (take n stream)

-- The bytes `chunk` stored from the index `at` on.
abbrev pub write : List ℕ → ℕ → List ℕ → List ℕ
write [] at chunk = []
write (x ∷ xs) (suc at) chunk = x ∷ write xs at chunk
write (x ∷ xs) zero [] = x ∷ xs
write (x ∷ xs) zero (c ∷ cs) = c ∷ write xs zero cs

pub record Received : Type 0 where
  pub outcome : LoopResult ℤ
  pub buffer : List ℕ
  pub stream : List ℕ

-- The local variables of `receive`, with the buffer and the stream.
pub record Reading : Type 0 where
  pub n : ℕ
  pub retry : ℕ
  pub buffer : List ℕ
  pub stream : List ℕ

abbrev leave : LoopResult ℤ → Reading → Received
leave o s = record { outcome = o; buffer = s.buffer; stream = s.stream }

-- One round: `inl` goes on, `inr` is the value that is returned.
unfoldable pub receive_round : Reading → RecvAnswer → Reading ⊎ ℤ
receive_round s a =
    let chunk = chunk_of a s.n s.stream in
    elim (read_num_of a chunk) [
      | negsuc k ↦
          if eq_ℤ (negsuc k) (pos eintr)
          then inl s
          else if eq_ℤ (negsuc k) (pos eagain)
          then inl s
          else inr (negsuc 0)
      | pos zero ↦ if ltb s.retry 10 then inl (record s { retry = s.retry + 1 }) else inr (negsuc 0)
      | pos (suc k) ↦ inl (record {
        n = s.n - suc k;
        retry = 0;
        buffer = write s.buffer (length s.buffer - s.n) chunk;
        stream = drop (suc k) s.stream;
      })
    ]

unfoldable pub receive_loop : Reading → List RecvAnswer → Received
receive_loop s [] = elim s.n [ zero ↦ leave (returned (pos 0)) s | suc m ↦ leave waiting s ]
receive_loop s (a ∷ ks) = elim s.n [
  | zero ↦ leave (returned (pos 0)) s
  | suc m ↦ elim (receive_round s a) [
    | inl t ↦ receive_loop t ks
    | inr result ↦ leave (returned result) s
  ]
]

unfoldable pub receive : List ℕ → ℕ → List ℕ → List RecvAnswer → Received
receive buffer n stream ks =
    receive_loop (record { n = n; retry = 0; buffer = buffer; stream = stream }) ks
