-- ===== src/Extraction/Finding.antt =====
-- What a search collects from a file.
use mashroom.Common.{
  ℕ, zero, suc, ◌+◌, ◌<◌, ◌≤◌, ◌≡◌, refl, ap, not, ◌&&◌, arith, ◌==◌, Bool, true, false, none, some,
  Option, Option-cases, inl, inr, ◌||◌, List, [], ◌∷◌, length, ltb, lt→ltb, if◌then◌else◌,
}
use mashroom.Common.Int.{ltb_ℤ}
use mashroom.Common.Table.{lookup}
use mashroom.Grib.Bytes.{Buffer, shift, ByteReader, IsBigEndian, of_bytes}
use mashroom.Grib.Message.{Message, message_length, next_message, read_message}
use mashroom.Grib.Message.Walk.{handle, Follows, Follows-le}
use mashroom.Grib.Message.Concatenation.{AllMessages, concat, starts, count, starts-Follows}
use mashroom.Grib.Values.{Decoding}
use mashroom.Grib.TimeForecast.{TimeForecast}
use mashroom.Grib.Product.{center, table_version, parameter_number, forecast}
use mashroom.Grib.Grid.{Coord, FloatOrder, GridInfo, monostate, lat_lon, other_grid, pos_in_grid}
use mashroom.Grib.Grid.Reading.{GridOps}
use mashroom.Catalogue.{CommonDataProperties, same_forecast}
use mashroom.Extraction.{Extract, grid_of, has_grid, add_value}
use mashroom.Extraction.Positions.{values_of, values_at, chosen, add_values, values_of-add_values}
use mashroom.Extraction.Search.{
  SearchParameter, in_parameters, has_parameters, base_type, Ticks, SearchProperties,
  reference_time, is_product_of, grid_type_of, pos_in_grid_info, keep, keep_on_grid, visit,
  returned, search,
}

-- A condition that is not given asks for nothing.
abbrev pub asks_number : Option ℕ → ℕ → Bool
asks_number none n = true
asks_number (some c) n = n == c

abbrev pub asks_forecast : Option TimeForecast → TimeForecast → Bool
asks_forecast none t = true
asks_forecast (some c) t = same_forecast t c

abbrev pub is_listed : ℕ → ℕ → List SearchParameter → Bool
is_listed a v [] = false
is_listed a v (p ∷ ps) = ((p.0 == a) && (p.1 == v)) || is_listed a v ps

abbrev pub asks_parameters : List SearchParameter → ℕ → ℕ → Bool
asks_parameters [] a v = true
asks_parameters (p ∷ ps) a v = is_listed a v (p ∷ ps)

-- Of a kind of grid, only the grids of latitudes and longitudes, whose kind is 0, cover places.
abbrev pub covers : (o : FloatOrder) → ℕ → Coord o.Float → GridInfo o.Float → Bool
covers o t place monostate = false
covers o t place (lat_lon g) = (t == 0) && pos_in_grid o g place
covers o t place (other_grid k) = false

-- The message has the center, one of the parameters and the forecast of the search, and if a kind of
-- grid is asked for, then it has one of this kind that covers the place, and its time is neither before
-- nor after the two of the search.
unfoldable pub is_wanted :
    ByteReader
    → (O : GridOps) → Buffer
    → Ticks
    → SearchProperties O.order.Float
    → Coord O.order.Float
    → Message
    → Bool
is_wanted R O f ticks s place m =
    let p = shift m.section_1 f in
    let date = reference_time ticks p in
    asks_number s.center (center p)
    && asks_parameters s.parameters (parameter_number p) (table_version p)
    && asks_forecast s.fcst_unit (forecast R p)
    && elim s.grid_type [
      | none ↦ true
      | some t ↦
          covers O.order t place (grid_of R O f m)
          && not (ltb_ℤ date s.from_date)
          && not (ltb_ℤ s.to_date date)
    ]

asks_number-skip :
    (o : Option ℕ) (n : ℕ) → not (elim o [ none ↦ false | some c ↦ not (n == c) ]) ≡ asks_number o n
asks_number-skip none n = refl
asks_number-skip (some c) n = ground arith

asks_forecast-skip :
    (o : Option TimeForecast) (t : TimeForecast)
    → not (elim o [ none ↦ false | some c ↦ not (same_forecast t c) ]) ≡ asks_forecast o t
asks_forecast-skip none t = refl
asks_forecast-skip (some c) t = ground arith

is_listed-in : (a v : ℕ) (ps : List SearchParameter) → in_parameters a v ps ≡ is_listed a v ps
is_listed-in a v [] = refl
is_listed-in a v ((b, w) ∷ ps) = ground (arith, is_listed-in a v ps)

asks_parameters-skip :
    (ps : List SearchParameter) (a v : ℕ)
    → not (has_parameters ps && not (in_parameters a v ps)) ≡ asks_parameters ps a v
asks_parameters-skip [] a v = refl
asks_parameters-skip (p ∷ ps) a v = ground (arith, is_listed-in a v (p ∷ ps))

-- The three conditions that come first.
pub is_product_of-asks :
    {F : Type 0} (R : ByteReader) (s : SearchProperties F) (p : Buffer)
    → is_product_of R s p ≡ (
        asks_number s.center (center p)
        && asks_parameters s.parameters (parameter_number p) (table_version p)
        && asks_forecast s.fcst_unit (forecast R p))
unfolding is_product_of
is_product_of-asks R s p =
    rw
      (
        asks_number-skip s.center (center p),
        asks_parameters-skip s.parameters (parameter_number p) (table_version p),
        asks_forecast-skip s.fcst_unit (forecast R p),
      )
      refl

-- Of a grid, what the search asks for before it takes the value.
pub covers-asked :
    (O : GridOps) (t : ℕ) (place : Coord O.order.Float) (g : GridInfo O.order.Float)
    → (has_grid g && (t == grid_type_of g) && pos_in_grid_info O place g) ≡ covers O.order t place g
unfolding pos_in_grid_info base_type
covers-asked O t place monostate = refl
covers-asked O t place (lat_lon g) = refl
covers-asked O t place (other_grid k) = ground arith

module _ (R : ByteReader) (O : GridOps) (D : Decoding) (f : Buffer) (ticks : Ticks)
    (s : SearchProperties O.order.Float) (place : Coord O.order.Float) where
  unfoldable visited : Message → Extract D.Float → Extract D.Float
  visited m r = if is_wanted R O f ticks s place m then add_value R O D f place m r else r

  visit-visited :
      (m : Message) (r : Extract D.Float)
      → s.position ≡ some place
      → visit R O D f ticks s m r ≡ some (visited m r)
  unfolding visit keep_on_grid keep add_value is_wanted visited
  visit-visited m r e =
      let p = shift m.section_1 f in
      elim (Option-cases s.grid_type) [
        | inl none_asked ↦ ground (arith, e, none_asked, is_product_of-asks R s p)
        | inr (t, asked) ↦
            ground
              (arith, e, asked, is_product_of-asks R s p, covers-asked O t place (grid_of R O f m))
      ]

  -- One round, at a message inside the file.
  search-round :
      (fuel k b sz : ℕ) (r : Extract D.Float)
      → s.position ≡ some place
      → 1 ≤ message_length R f b
      → let next = b + message_length R f b in
        let r' = visited (read_message R f b) r in
        search R O D f ticks (λ k. false) (suc fuel) s k (handle R f sz b) r ≡ (
          if ltb next sz
          then search R O D f ticks (λ k. false) fuel s (suc k) (handle R f sz next) r'
          else some (returned r'))
  unfolding search next_message read_message
  search-round fuel k b sz r e long = ground (arith, visit-visited (read_message R f b) r e)

  unfoldable pub wanted_at : ℕ → Bool
  wanted_at b = is_wanted R O f ticks s place (read_message R f b)

  add_values-chosen :
      (b : ℕ) (bs : List ℕ) (r : Extract D.Float)
      → add_values R O D f place (chosen wanted_at (b ∷ bs)) r
        ≡ add_values R O D f place (chosen wanted_at bs) (visited (read_message R f b) r)
  unfolding add_values chosen visited wanted_at
  add_values-chosen b bs r = ground arith

  add_values-one :
      (b : ℕ) (r : Extract D.Float)
      → add_values R O D f place (chosen wanted_at (b ∷ [])) r ≡ visited (read_message R f b) r
  unfolding add_values chosen visited wanted_at
  add_values-one b r = ground arith

  -- The rounds from a message to the end of the file.
  pub search-rounds :
      (fuel k b sz : ℕ) (bs : List ℕ) (r : Extract D.Float)
      → s.position ≡ some place
      → Follows R f b (b ∷ bs) sz
      → length bs < fuel
      → search R O D f ticks (λ k. false) fuel s k (handle R f sz b) r
        ≡ some (returned (add_values R O D f place (chosen wanted_at (b ∷ bs)) r))
  search-rounds zero k b sz bs r e follows enough = absurd (omega arith)
  search-rounds (suc fuel) k b sz [] r e (at, long, end) enough =
      ground (arith, search-round fuel k b sz r e long, add_values-one b r)
  search-rounds (suc fuel) k b sz (b' ∷ bs) r e (at, long, (at', long', rest)) enough =
      let next = b + message_length R f b in
      let inside : ltb next sz ≡ true =
        lt→ltb next sz (omega (arith, long', Follows-le R f _ sz bs rest)) in
      let r' = visited (read_message R f b) r in
      let again = search-rounds fuel (suc k) next sz bs r' e (refl, long', rest) (omega arith) in
      rw at' (
        ground (
          arith,
          search-round fuel k b sz r e long,
          inside,
          again,
          add_values-chosen b (next ∷ bs) r,
        ))

pub length-starts : (b : ℕ) (ms : List (List ℕ)) → length (starts b ms) ≡ count ms
length-starts b [] = refl
length-starts b (m ∷ ms) = ap suc (length-starts (b + length m) ms)

module _ (R : ByteReader) (O : GridOps) (D : Decoding) (ticks : Ticks) where
  -- For a file that is made of messages, one behind the other, and a search with a position, the walk
  -- ends after as many rounds as there are messages if no stop is requested, and collects, under all
  -- common properties, the values of the messages that are wanted, where they have a grid, in the
  -- order of the file.
  pub search-finds :
      (s : SearchProperties O.order.Float) (place : Coord O.order.Float) (m : List ℕ)
      (ms : List (List ℕ))
      → IsBigEndian R
      → AllMessages (m ∷ ms)
      → s.position ≡ some place
      → let whole = concat (m ∷ ms) in
        let f = of_bytes whole in
        let wanted = λ (b : ℕ). is_wanted R O f ticks s place (read_message R f b) in
        (r : Extract D.Float) × (search R O D f ticks
            (λ k. false)
            (count (m ∷ ms))
            s
            0
            (handle R f (length whole) 0)
            []
          ≡ some (returned r))
        × ((c : CommonDataProperties)
            → values_of c r ≡ values_at R O D f place c (chosen wanted (starts 0 (m ∷ ms))))
  unfolding wanted_at values_of lookup
  search-finds s place m ms big all e =
      let whole = concat (m ∷ ms) in
      let f = of_bytes whole in
      let bs = starts (0 + length m) ms in
      let wanted = λ (b : ℕ). is_wanted R O f ticks s place (read_message R f b) in
      let follows = starts-Follows R big whole [] (m ∷ ms) refl all in
      (
        add_values R O D f place (chosen wanted (starts 0 (m ∷ ms))) [],
        search-rounds R O D f ticks s place (count (m ∷ ms)) 0 0 (length whole) bs [] e follows
            (omega (arith, length-starts (0 + length m) ms)),
        λ c. values_of-add_values R O D f place c (chosen wanted (starts 0 (m ∷ ms))) [],
      )
