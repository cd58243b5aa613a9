-- ===== src/Integrity/Agreement.antt =====
-- The messages that the test of the data collects, against those that a search extracts.
use mashroom.Common.{
  ℕ, zero, suc, ◌+◌, ◌<◌, ◌≤◌, ◌≡◌, refl, ap, ◌∙◌, sym, arith, Bool, true, false, some, List, [],
  ◌∷◌, ◌++◌, map, length, ltb, lt→ltb, if◌then◌else◌,
}
use mathlib.Core.List.{append_assoc, append-nil}
use mashroom.Grib.Bytes.{Buffer, shift, ByteReader, IsBigEndian, of_bytes}
use mashroom.Grib.Message.{message_length, next_message, read_message}
use mashroom.Grib.Message.Walk.{handle, IsGridded, AllIsGridded, Follows, Follows-le}
use mashroom.Grib.Message.Concatenation.{
  AllMessages, AllGridded, concat, starts, count, starts-Follows, starts-AllGridded,
}
use mashroom.Grib.Values.{Decoding}
use mashroom.Grib.Grid.{Coord}
use mashroom.Grib.Grid.Reading.{GridOps}
use mashroom.Extraction.Positions.{chosen, add_values}
use mashroom.Extraction.Search.{Ticks, SearchProperties, returned, search}
use mashroom.Extraction.Finding.{
  is_wanted, wanted_at, search-rounds, length-starts, is_product_of-asks, covers-asked,
}
use mashroom.Extraction.{grid_of}
use mashroom.Integrity.{Info, data_info, is_kept, collect, walk}

module _ (R : ByteReader) (O : GridOps) (ticks : Ticks) (f : Buffer)
    (s : SearchProperties O.order.Float) where
  abbrev pub info_of : ℕ → Info R O ticks
  info_of b = data_info R O ticks f b (read_message R f b)

  unfoldable pub kept_at : ℕ → Bool
  kept_at b = is_kept R O ticks f s (read_message R f b)

  collected_at :
      (b : ℕ) (ds : List (Info R O ticks))
      → IsGridded R f b
      → collect R O ticks f s b (some (read_message R f b)) ds
        ≡ some (ds ++ map info_of (chosen kept_at (b ∷ [])))
  unfolding collect chosen kept_at
  collected_at b ds grid = ground (arith, grid, append-nil ds)

  chosen-first :
      (b : ℕ) (bs : List ℕ) → chosen kept_at (b ∷ bs) ≡ chosen kept_at (b ∷ []) ++ chosen kept_at bs
  unfolding chosen
  chosen-first b bs = ground arith

  map-append : (xs ys : List ℕ) → map info_of (xs ++ ys) ≡ map info_of xs ++ map info_of ys
  map-append [] ys = refl
  map-append (x ∷ xs) ys = ap (λ l. info_of x ∷ l) (map-append xs ys)

  -- One round, at a message inside the file.
  walk-round :
      (fuel b sz : ℕ) (ds : List (Info R O ticks))
      → 1 ≤ message_length R f b
      → IsGridded R f b
      → let next = b + message_length R f b in
        let after = ds ++ map info_of (chosen kept_at (b ∷ [])) in
        walk R O ticks f (suc fuel) s (handle R f sz b) ds
        ≡ (if ltb next sz then walk R O ticks f fuel s (handle R f sz next) after else some after)
  unfolding walk next_message read_message
  walk-round fuel b sz ds long grid = ground (arith, collected_at b ds grid)

  pub walk-rounds :
      (fuel b sz : ℕ) (bs : List ℕ) (ds : List (Info R O ticks))
      → Follows R f b (b ∷ bs) sz
      → AllIsGridded R f (b ∷ bs)
      → length bs < fuel
      → walk R O ticks f fuel s (handle R f sz b) ds
        ≡ some (ds ++ map info_of (chosen kept_at (b ∷ bs)))
  walk-rounds zero b sz bs ds follows grids enough = absurd (omega arith)
  walk-rounds (suc fuel) b sz [] ds (at, long, end) (grid, grids) enough =
      ground (arith, walk-round fuel b sz ds long grid)
  walk-rounds (suc fuel) b sz (b' ∷ bs) ds (at, long, (at', long', rest)) (grid, grids) enough =
      let next = b + message_length R f b in
      let inside : ltb next sz ≡ true =
        lt→ltb next sz (omega (arith, long', Follows-le R f _ sz bs rest)) in
      let first = map info_of (chosen kept_at (b ∷ [])) in
      let later = map info_of (chosen kept_at (next ∷ bs)) in
      let again =
        walk-rounds fuel next sz bs (ds ++ first) (refl, long', rest) (rw (sym at') grids)
          (omega arith) in
      let joined : map info_of (chosen kept_at (b ∷ next ∷ bs)) ≡ first ++ later =
        ap (map info_of) (chosen-first b (next ∷ bs))
        ∙ map-append (chosen kept_at (b ∷ [])) (chosen kept_at (next ∷ bs)) in
      rw at' (
        walk-round fuel b sz ds long grid
        ∙ rw inside again
        ∙ ap some (append_assoc ds first later ∙ ap (λ l. ds ++ l) (sym joined)))

  chosen-ext : (p q : ℕ → Bool) (bs : List ℕ) → ((b : ℕ) → p b ≡ q b) → chosen p bs ≡ chosen q bs
  unfolding chosen
  chosen-ext p q [] h = refl
  chosen-ext p q (b ∷ bs) h = ground (arith, h b, chosen-ext p q bs h)

  kept_wanted :
      (t : ℕ) (place : Coord O.order.Float) (b : ℕ)
      → s.grid_type ≡ some t
      → s.position ≡ some place
      → is_wanted R O f ticks s place (read_message R f b) ≡ kept_at b
  unfolding kept_at is_kept is_wanted
  kept_wanted t place b k e =
      let m = read_message R f b in
      ground (
        arith,
        k,
        e,
        is_product_of-asks R s (shift m.section_1 f),
        covers-asked O t place (grid_of R O f m),
      )

-- On a file that is made of messages with a section 2, for a search with a kind of grid and a position, the test
-- collects what is kept of some messages, in the order of the file, and the search of an extraction
-- collects the values of exactly the same messages.
pub walk-search :
    (R : ByteReader) (O : GridOps) (D : Decoding) (ticks : Ticks)
    (s : SearchProperties O.order.Float) (t : ℕ) (place : Coord O.order.Float) (m : List ℕ)
    (ms : List (List ℕ))
    → IsBigEndian R
    → AllMessages (m ∷ ms)
    → AllGridded (m ∷ ms)
    → s.grid_type ≡ some t
    → s.position ≡ some place
    → let whole = concat (m ∷ ms) in
      let f = of_bytes whole in
      let h = handle R f (length whole) 0 in
      let bs = chosen (kept_at R O ticks f s) (starts 0 (m ∷ ms)) in
      (walk R O ticks f (count (m ∷ ms)) s h [] ≡ some (map (info_of R O ticks f s) bs))
      × (search R O D f ticks (λ k. false) (count (m ∷ ms)) s 0 h []
          ≡ some (returned (add_values R O D f place bs [])))
unfolding wanted_at
walk-search R O D ticks s t place m ms big all gridded k e =
    let whole = concat (m ∷ ms) in
    let f = of_bytes whole in
    let bs = starts (0 + length m) ms in
    let wanted = λ (b : ℕ). is_wanted R O f ticks s place (read_message R f b) in
    let follows = starts-Follows R big whole [] (m ∷ ms) refl all in
    let enough : length bs < count (m ∷ ms) = omega (arith, length-starts (0 + length m) ms) in
    let same : chosen wanted (0 ∷ bs) ≡ chosen (kept_at R O ticks f s) (0 ∷ bs) =
      chosen-ext R O ticks f s wanted (kept_at R O ticks f s) (0 ∷ bs)
        (λ b. kept_wanted R O ticks f s t place b k e) in
    (
      walk-rounds R O ticks f s (count (m ∷ ms)) 0 (length whole) bs [] follows
          (starts-AllGridded R big whole [] (m ∷ ms) refl gridded) enough,
      search-rounds R O D f ticks s place (count (m ∷ ms)) 0 0 (length whole) bs [] e follows enough
          ∙ ap (λ l. some (returned (add_values R O D f place l []))) same,
    )
