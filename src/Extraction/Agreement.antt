-- ===== src/Extraction/Agreement.antt =====
-- A search without conditions against the extraction at the positions of all messages.
use mathlib.Core.List.{append-nil}
use mashroom.Common.{
  ℕ, ◌+◌, ◌<◌, ◌≡◌, refl, sym, ap, subst, ◌∙◌, arith, Bool, true, false, none, some, List, [], ◌∷◌,
  ◌++◌, map, inl, length,
}
use mashroom.Common.Int.{pos}
use mashroom.Grib.Bytes.{Buffer, ByteReader, IsBigEndian, of_bytes}
use mashroom.Grib.Message.{Message, read_message}
use mashroom.Grib.Message.Walk.{handle, AllInside}
use mashroom.Grib.Message.Concatenation.{
  AllMessages, concat, starts, count, starts-Follows, starts-AllInside,
}
use mashroom.Grib.Values.{Decoding}
use mashroom.Grib.Grid.{Coord}
use mashroom.Grib.Grid.Reading.{GridOps}
use mashroom.Extraction.{Extract, extract, done}
use mashroom.Extraction.Positions.{chosen, add_values, extract-runs}
use mashroom.Extraction.Search.{Ticks, SearchProperties, is_product_of, returned, search}
use mashroom.Extraction.Finding.{is_wanted, wanted_at, search-rounds, length-starts}

module _ (R : ByteReader) (O : GridOps) (D : Decoding) (ticks : Ticks) where
  -- A search for everything.
  abbrev pub IsOpen : SearchProperties O.order.Float → Type 0
  IsOpen s = (s.center ≡ none) × (s.parameters ≡ []) × (s.fcst_unit ≡ none) × (s.grid_type ≡ none)

  open_wants :
      (f : Buffer) (s : SearchProperties O.order.Float) (place : Coord O.order.Float) (m : Message)
      → IsOpen s
      → is_wanted R O f ticks s place m ≡ true
  unfolding is_wanted is_product_of
  open_wants f s place m (c, p, t, g) = ground (arith, c, p, t, g)

  chosen_all : (test : ℕ → Bool) (bs : List ℕ) → ((b : ℕ) → test b ≡ true) → chosen test bs ≡ bs
  unfolding chosen
  chosen_all test [] h = refl
  chosen_all test (b ∷ bs) h = ground (arith, h b, chosen_all test bs h)

  -- On a file that is made of messages, the walk of a search without conditions and the extraction
  -- at the positions of all messages collect the same.
  pub search-extract :
      (s : SearchProperties O.order.Float) (place : Coord O.order.Float) (m : List ℕ)
      (ms : List (List ℕ))
      → IsBigEndian R
      → AllMessages (m ∷ ms)
      → IsOpen s
      → s.position ≡ some place
      → let whole = concat (m ∷ ms) in
        let f = of_bytes whole in
        let h = handle R f (length whole) 0 in
        length whole < 9223372036854775808
        → (r : Extract D.Float) × (search R O D f ticks (λ k. false) (count (m ∷ ms)) s 0 h []
            ≡ some (returned r))
          × (extract R O D f place (λ k. false) (map pos (starts 0 (m ∷ ms))) 0 h []
              ≡ some (done, r))
  unfolding wanted_at
  search-extract s place m ms big all is_open e small =
      let whole = concat (m ∷ ms) in
      let f = of_bytes whole in
      let h = handle R f (length whole) 0 in
      let bs = starts (0 + length m) ms in
      let wanted = λ (b : ℕ). is_wanted R O f ticks s place (read_message R f b) in
      let follows = starts-Follows R big whole [] (m ∷ ms) refl all in
      let inside = starts-AllInside R big whole [] (m ∷ ms) refl all in
      let everything : chosen wanted (0 ∷ bs) ≡ 0 ∷ bs =
        chosen_all wanted (0 ∷ bs) (λ b. open_wants f s place (read_message R f b) is_open) in
      let same : (0 ∷ bs) ++ [] ≡ 0 ∷ bs = append-nil (0 ∷ bs) in
      (
        add_values R O D f place (0 ∷ bs) [],
        search-rounds R O D f ticks s place (count (m ∷ ms)) 0 0 (length whole) bs [] e follows
              (omega (arith, length-starts (0 + length m) ms))
            ∙ ap (λ l. some (returned (add_values R O D f place l []))) everything,
        ap (λ l. extract R O D f place (λ k. false) (map pos l) 0 h []) (sym same)
            ∙ extract-runs R O D f place (λ k. false) (0 ∷ bs) [] 0 h [] small
                (subst (AllInside R f (length whole)) (sym same) inside) (λ i hi. refl) (inl refl),
      )
