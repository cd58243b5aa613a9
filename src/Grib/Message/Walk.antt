-- ===== src/Grib/Message/Walk.antt =====
-- The loop over the messages of a file.
use mashroom.Common.{
  ℕ, zero, suc, ◌+◌, ◌<◌, ◌≤◌, ◌≡◌, ◌≢◌, refl, ap, ◌∙◌, arith, Option, none, some, List, [], ◌∷◌,
  length, true,
}
use mashroom.Grib.Bytes.{Buffer, ByteReader}
use mashroom.Grib.Message.{
  HGrib1, MsgInfo, msg_info, read_message, message_length, next_message, process_file, emplace_all,
  emplace, has_section_2,
}

module _ (R : ByteReader) (f : Buffer) where
  -- What is kept of the message at `b`.
  abbrev pub info_at : ℕ → MsgInfo
  info_at b = msg_info R f b (read_message R f b)

  -- The message at `b` has a section 2.
  abbrev pub IsGridded : ℕ → Type 0
  IsGridded b = has_section_2 R f (read_message R f b) ≡ true

  abbrev pub AllIsGridded : List ℕ → Type 0
  AllIsGridded [] = Unit
  AllIsGridded (b ∷ bs) = IsGridded b × AllIsGridded bs

  -- Messages that follow each other, from an offset to another, none of length 0, each with a section 2.
  pub data Messages : ℕ → List MsgInfo → ℕ → Type 0 where
    last :
        {b : ℕ}
        → 1 ≤ message_length R f b
        → IsGridded b
        → Messages b (info_at b ∷ []) (b + message_length R f b)
    more :
        {b e : ℕ} {es : List MsgInfo}
        → 1 ≤ message_length R f b
        → IsGridded b
        → Messages (b + message_length R f b) es e
        → Messages b (info_at b ∷ es) e

  -- The handle on the message at `b`.
  abbrev pub handle : ℕ → ℕ → HGrib1
  handle sz b = record { msg = some (read_message R f b); current = b; sz = sz; is_open = true }

  -- Positions of messages inside a file of that size, none of length 0.
  abbrev pub AllInside : ℕ → List ℕ → Type 0
  AllInside sz [] = Unit
  AllInside sz (b ∷ bs) = (b < sz) × (1 ≤ message_length R f b) × AllInside sz bs

  -- Positions of messages that follow each other from `b` to `e`, none of length 0.
  abbrev pub Follows : ℕ → List ℕ → ℕ → Type 0
  Follows b [] e = b ≡ e
  Follows b (a ∷ bs) e =
      (a ≡ b) × (1 ≤ message_length R f b) × Follows (b + message_length R f b) bs e

  pub Follows-le : (b e : ℕ) (bs : List ℕ) → Follows b bs e → b ≤ e
  Follows-le b e [] h = omega arith
  Follows-le b e (a ∷ bs) (at, long, rest) =
      omega (arith, Follows-le (b + message_length R f b) e bs rest)

  step_on :
      (sz b fuel : ℕ)
      → b + message_length R f b < sz
      → process_file R f (suc fuel) (handle sz b)
        ≡ emplace_all R f b
            (some (read_message R f b))
            (process_file R f fuel (handle sz (b + message_length R f b)))
  unfolding process_file next_message read_message
  step_on sz b fuel h = ground arith

  step_last :
      (sz b fuel : ℕ)
      → sz ≤ b + message_length R f b
      → process_file R f (suc fuel) (handle sz b)
        ≡ emplace_all R f b (some (read_message R f b)) (some [])
  unfolding process_file next_message read_message
  step_last sz b fuel h = ground arith

  start_before_end : {b e : ℕ} {es : List MsgInfo} → Messages b es e → b < e
  start_before_end (last h grid) = omega arith
  start_before_end (more h grid rest) = omega (arith, start_before_end rest)

  emplaced :
      (b : ℕ) (rest : Option (List MsgInfo))
      → IsGridded b
      → emplace_all R f b (some (read_message R f b)) rest ≡ emplace R f b (read_message R f b) rest
  emplaced b rest grid = rw grid refl

  -- On a file whose messages follow each other up to its end, each with a section 2, the loop ends after as many rounds
  -- as there are messages, and lists what is kept of each of them, in order.
  pub process_file-visits :
      (fuel : ℕ) {b sz : ℕ} {es : List MsgInfo}
      → Messages b es sz
      → length es ≤ fuel
      → process_file R f fuel (handle sz b) ≡ some es
  process_file-visits zero (last h grid) enough = absurd (omega arith)
  process_file-visits zero (more h grid rest) enough = absurd (omega arith)
  process_file-visits (suc fuel) (last {b} h grid) enough =
      step_last (b + message_length R f b) b fuel (omega arith) ∙ emplaced b (some []) grid
  process_file-visits (suc fuel) (more {b} {e} {es} h grid rest) enough =
      step_on e b fuel (start_before_end rest)
      ∙ ap (emplace_all R f b (some (read_message R f b)))
          (process_file-visits fuel rest (omega arith))
      ∙ emplaced b (some es) grid

  -- If every message of the file has a section 2 and none has length 0, then the loop ends, after at most as many rounds as
  -- the file has bytes from the cursor on.
  pub process_file-ends :
      (sz b fuel : ℕ)
      → ((o : ℕ) → o < sz → 1 ≤ message_length R f o)
      → ((o : ℕ) → o < sz → IsGridded o)
      → b < sz
      → sz ≤ b + fuel
      → process_file R f fuel (handle sz b) ≢ none
  process_file-ends sz b zero lengths grids hb enough = absurd (omega arith)
  process_file-ends sz b (suc fuel) lengths grids hb enough =
      let next = b + message_length R f b in
      let rest = process_file-ends sz next fuel lengths grids in
      ground (arith, lengths b hb, grids b hb, rest, step_on sz b fuel, step_last sz b fuel)

  nothing : (b : ℕ) → emplace_all R f b (some (read_message R f b)) none ≡ none
  nothing b = ground arith

  -- On a message of length 0 that is not behind the end of the file, the loop stays for ever: no
  -- number of rounds is enough.
  pub process_file-stays :
      (sz b fuel : ℕ)
      → b < sz
      → message_length R f b ≡ 0
      → process_file R f fuel (handle sz b) ≡ none
  unfolding process_file
  process_file-stays sz b zero hb h = refl
  process_file-stays sz b (suc fuel) hb h =
      let stays : b + message_length R f b ≡ b = omega arith in
      rw (step_on sz b fuel (omega arith), stays, process_file-stays sz b fuel hb h) (nothing b)
