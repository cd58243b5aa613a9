-- ===== src/Grib/Message/Concatenation.antt =====
-- A file that is made of messages, one behind the other, as lists of bytes.
use mathlib.Core.List.{append_assoc}
use mashroom.Common.{
  ℕ, zero, suc, ◌+◌, ◌*◌, ◌≤◌, ◌<◌, ◌≡◌, refl, sym, ap, ◌∙◌, arith, some, List, [], ◌∷◌, ◌++◌, map,
  length, get_elem?, length-append, true,
}
use mashroom.Grib.Bytes.{Buffer, shift, ByteReader, IsBigEndian, byte_or_zero, of_bytes}
use mashroom.Grib.Product.{section1_flags}
use mashroom.Grib.Message.{read_message, message_length, process_file}
use mashroom.Grib.Message.Walk.{
  info_at, Messages, last, more, handle, IsGridded, AllIsGridded, AllInside, Follows,
  process_file-visits,
}

-- The length in octets 5 to 7 is that of the message.
abbrev pub IsMessage : List ℕ → Type 0
IsMessage m = (7 ≤ length m) × (of_bytes m 4 * 65536 + of_bytes m 5 * 256 + of_bytes m 6 ≡ length m)

abbrev pub AllMessages : List (List ℕ) → Type 0
AllMessages [] = Unit
AllMessages (m ∷ ms) = IsMessage m × AllMessages ms

-- The flags of section 1, in its octet 8, say that there is a section 2.
abbrev pub IsGriddedMessage : List ℕ → Type 0
IsGriddedMessage m = (16 ≤ length m) × ((section1_flags (shift 8 (of_bytes m))).sec2_inc ≡ true)

abbrev pub AllGridded : List (List ℕ) → Type 0
AllGridded [] = Unit
AllGridded (m ∷ ms) = IsGriddedMessage m × AllGridded ms

abbrev pub concat : List (List ℕ) → List ℕ
concat [] = []
concat (m ∷ ms) = m ++ concat ms

-- Where each message starts.
abbrev pub starts : ℕ → List (List ℕ) → List ℕ
starts b [] = []
starts b (m ∷ ms) = b ∷ starts (b + length m) ms

abbrev pub count : List (List ℕ) → ℕ
count [] = 0
count (m ∷ ms) = suc (count ms)

get_elem?-right : (xs ys : List ℕ) (k : ℕ) → get_elem? (xs ++ ys) (length xs + k) ≡ get_elem? ys k
get_elem?-right [] ys k = ap (get_elem? ys) (omega arith)
get_elem?-right (x ∷ xs) ys k =
    let next : suc (length xs) + k ≡ suc (length xs + k) = omega arith in
    rw next (get_elem?-right xs ys k)

get_elem?-left : (xs ys : List ℕ) (k : ℕ) → k < length xs → get_elem? (xs ++ ys) k ≡ get_elem? xs k
get_elem?-left [] ys k h = absurd (omega arith)
get_elem?-left (x ∷ xs) ys zero h = refl
get_elem?-left (x ∷ xs) ys (suc k) h = get_elem?-left xs ys k (omega arith)

-- A byte of a message in the file is the byte of the message alone.
byte_inside :
    (pre m rest : List ℕ) (k : ℕ)
    → k < length m
    → of_bytes (pre ++ (m ++ rest)) (length pre + k) ≡ of_bytes m k
byte_inside pre m rest k h =
    ap byte_or_zero (get_elem?-right pre (m ++ rest) k ∙ get_elem?-left m rest k h)

module _ (R : ByteReader) (big : IsBigEndian R) where
  message_length-inside :
      (pre m rest : List ℕ)
      → IsMessage m
      → message_length R (of_bytes (pre ++ (m ++ rest))) (length pre) ≡ length m
  unfolding message_length
  message_length-inside pre m rest is =
      let f = of_bytes (pre ++ (m ++ rest)) in
      let at : (k : ℕ) → 4 + k < length m → f (length pre + 4 + k) ≡ of_bytes m (4 + k) =
        λ k h. ap f (omega arith) ∙ byte_inside pre m rest (4 + k) h in
      omega (
        arith,
        big.three (shift (length pre + 4) f),
        at 0 (omega arith),
        at 1 (omega arith),
        at 2 (omega arith),
      )

  IsGridded-inside :
      (pre m rest : List ℕ)
      → IsGriddedMessage m
      → IsGridded R (of_bytes (pre ++ (m ++ rest))) (length pre)
  unfolding read_message section1_flags
  IsGridded-inside pre m rest (long, flag) =
      let f = of_bytes (pre ++ (m ++ rest)) in
      let at : f (length pre + 8 + 7) ≡ of_bytes m 15 =
        ap f (omega arith) ∙ byte_inside pre m rest 15 (omega (arith, long)) in
      ground (arith, at, flag)

  lay :
      (whole pre m : List ℕ) (ms : List (List ℕ))
      → whole ≡ pre ++ concat (m ∷ ms)
      → IsMessage m
      → AllMessages ms
      → AllGridded (m ∷ ms)
      → let f = of_bytes whole in
        Messages R f (length pre) (map (info_at R f) (starts (length pre) (m ∷ ms))) (length whole)
  lay whole pre m [] e is all (grid, grids) =
      let long : message_length R (of_bytes whole) (length pre) ≡ length m =
        rw e (message_length-inside pre m [] is) in
      let size : length whole ≡ length pre + message_length R (of_bytes whole) (length pre) =
        omega (arith, long, ap length e, length-append pre (m ++ []), length-append m []) in
      rw size (last (omega (arith, long, is.0)) (rw e (IsGridded-inside pre m [] grid)))
  lay whole pre m (m' ∷ ms) e is all (grid, grids) =
      let long : message_length R (of_bytes whole) (length pre) ≡ length m =
        rw e (message_length-inside pre m (concat (m' ∷ ms)) is) in
      let split : whole ≡ (pre ++ m) ++ concat (m' ∷ ms) =
        e ∙ sym (append_assoc pre m (concat (m' ∷ ms))) in
      let rest = lay whole (pre ++ m) m' ms split all.0 all.1 grids in
      more (omega (arith, long, is.0)) (rw e (IsGridded-inside pre m (concat (m' ∷ ms)) grid))
        (rw (long, ← length-append pre m) rest)

  pub starts-AllInside :
      (whole pre : List ℕ) (ms : List (List ℕ))
      → whole ≡ pre ++ concat ms
      → AllMessages ms
      → AllInside R (of_bytes whole) (length whole) (starts (length pre) ms)
  starts-AllInside whole pre [] e all = tt
  starts-AllInside whole pre (m ∷ ms) e (is, all) =
      let long : message_length R (of_bytes whole) (length pre) ≡ length m =
        rw e (message_length-inside pre m (concat ms) is) in
      let split : whole ≡ (pre ++ m) ++ concat ms = e ∙ sym (append_assoc pre m (concat ms)) in
      (
        omega (
          arith,
          ap length e,
          length-append pre (m ++ concat ms),
          length-append m (concat ms),
          is.0,
        ),
        omega (arith, long, is.0),
        rw (← length-append pre m) (starts-AllInside whole (pre ++ m) ms split all),
      )

  pub starts-Follows :
      (whole pre : List ℕ) (ms : List (List ℕ))
      → whole ≡ pre ++ concat ms
      → AllMessages ms
      → Follows R (of_bytes whole) (length pre) (starts (length pre) ms) (length whole)
  starts-Follows whole pre [] e all = omega (arith, ap length e, length-append pre [])
  starts-Follows whole pre (m ∷ ms) e (is, all) =
      let long : message_length R (of_bytes whole) (length pre) ≡ length m =
        rw e (message_length-inside pre m (concat ms) is) in
      let split : whole ≡ (pre ++ m) ++ concat ms = e ∙ sym (append_assoc pre m (concat ms)) in
      (
        refl,
        omega (arith, long, is.0),
        rw (long, ← length-append pre m) (starts-Follows whole (pre ++ m) ms split all),
      )

  pub starts-AllGridded :
      (whole pre : List ℕ) (ms : List (List ℕ))
      → whole ≡ pre ++ concat ms
      → AllGridded ms
      → AllIsGridded R (of_bytes whole) (starts (length pre) ms)
  starts-AllGridded whole pre [] e grids = tt
  starts-AllGridded whole pre (m ∷ ms) e (grid, grids) =
      let split : whole ≡ (pre ++ m) ++ concat ms = e ∙ sym (append_assoc pre m (concat ms)) in
      (
        rw e (IsGridded-inside pre m (concat ms) grid),
        rw (← length-append pre m) (starts-AllGridded whole (pre ++ m) ms split grids),
      )

  count-starts :
      (b : ℕ) (ms : List (List ℕ)) (f : Buffer)
      → length (map (info_at R f) (starts b ms)) ≡ count ms
  count-starts b [] f = refl
  count-starts b (m ∷ ms) f = ap suc (count-starts (b + length m) ms f)

  -- On a file that is made of messages with a section 2, one behind the other, `process_file` ends after as many
  -- rounds as there are messages, and lists what is kept of the messages at exactly the offsets at
  -- which they were put.
  pub process_file-concat :
      (m : List ℕ) (ms : List (List ℕ))
      → AllMessages (m ∷ ms)
      → AllGridded (m ∷ ms)
      → let f = of_bytes (concat (m ∷ ms)) in
        process_file R f (count (m ∷ ms)) (handle R f (length (concat (m ∷ ms))) 0)
        ≡ some (map (info_at R f) (starts 0 (m ∷ ms)))
  process_file-concat m ms all grids =
      let whole = concat (m ∷ ms) in
      process_file-visits R (of_bytes whole) (count (m ∷ ms))
        (lay whole [] m ms refl all.0 all.1 grids)
        (omega (arith, count-starts 0 (m ∷ ms) (of_bytes whole)))
