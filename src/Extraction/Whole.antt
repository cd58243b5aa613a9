-- ===== src/Extraction/Whole.antt =====
-- A file from its bytes to its values: it is walked over, put into the catalogue, and extracted at
-- the positions that the catalogue keeps for it.
use Prim.Native.String.{String}
use mathlib.Core.List.{append-nil}
use mashroom.Common.{
  ℕ, ◌<◌, ◌≡◌, refl, sym, ap, ◌∙◌, arith, Bool, true, false, some, List, [], ◌∷◌, ◌++◌, map, length,
  inl,
}
use mashroom.Common.Int.{pos}
use mashroom.Common.Table.{Equality, IsEquality, lookup}
use mashroom.Grib.Bytes.{Buffer, ByteReader, IsBigEndian, of_bytes}
use mashroom.Grib.Message.{Code, MsgInfo, msg_info, process_file}
use mashroom.Grib.Message.Walk.{info_at, handle, AllInside}
use mashroom.Grib.Message.Concatenation.{
  AllMessages, AllGridded, concat, starts, count, process_file-concat, starts-AllInside,
}
use mashroom.Grib.Values.{Decoding}
use mashroom.Grib.Grid.{Coord}
use mashroom.Grib.Grid.Reading.{GridOps}
use mashroom.Catalogue.{GribMsgDataInfo, CommonDataProperties, accepted, add_data, file_path, empty}
use mashroom.Catalogue.Keys.{paths-IsEquality}
use mashroom.Catalogue.Rounds.{in_file, picked}
use mashroom.Catalogue.Indexing.{add_data-positions}
use mashroom.Extraction.{done, Extract, extract}
use mashroom.Extraction.Positions.{values_of, values_at, chosen, extract-values}

-- What is kept of a message, with the grid that it has at its position.
abbrev pub with_grid : {G : Type 0} → (ℕ → G) → MsgInfo → GribMsgDataInfo G
with_grid grid_at i = record { msg = i; grid_data = grid_at i.position }

module _ (R : ByteReader) (f : Buffer) where
  picked-chosen :
      {G : Type 0} (grid_at : ℕ → G) (test : GribMsgDataInfo G → Bool) (bs : List ℕ)
      → picked test (map (with_grid grid_at) (map (info_at R f) bs))
        ≡ chosen (λ b. test (with_grid grid_at (info_at R f b))) bs
  unfolding picked chosen msg_info
  picked-chosen grid_at test [] = refl
  picked-chosen grid_at test (b ∷ bs) = ground (arith, picked-chosen grid_at test bs)

  -- No message has an error.
  abbrev pub AllAccepted : {G : Type 0} → (ℕ → G) → (ℕ → Code) → List ℕ → Type 0
  AllAccepted grid_at left [] = Unit
  AllAccepted grid_at left (b ∷ bs) =
      (accepted left (with_grid grid_at (info_at R f b)) ≡ true) × AllAccepted grid_at left bs

module _ (R : ByteReader) (O : GridOps) (D : Decoding) (place : Coord O.order.Float) where
  chosen-accepted :
      {G : Type 0} (f : Buffer) (grid_at : ℕ → G) (left : ℕ → Code) (bs : List ℕ)
      → AllAccepted R f grid_at left bs
      → chosen (λ b. accepted left (with_grid grid_at (info_at R f b))) bs ≡ bs
  unfolding chosen
  chosen-accepted f grid_at left [] all = refl
  chosen-accepted f grid_at left (b ∷ bs) all =
      ground (arith, all.0, chosen-accepted f grid_at left bs all.1)

  module _ {G : Type 0} (T : Type 0) (grids : Equality G) (is : IsEquality grids)
      (left : ℕ → Code) where
    -- The positions that an empty catalogue keeps for a file that was added.
    positions-indexed :
        (f : Buffer) (grid_at : ℕ → G) (bs : List ℕ) (name : String) (now : ℕ)
        → AllAccepted R f grid_at left bs
        → in_file
            (file_path name now)
            (add_data {T = T} grids left name now
              (map (with_grid grid_at) (map (info_at R f) bs))
              empty).positions
          ≡ bs
    positions-indexed f grid_at bs name now sound =
        let path = file_path name now in
        let ms = map (with_grid grid_at) (map (info_at R f) bs) in
        ground (
          arith,
          add_data-positions {T = T} grids left name now ms empty path,
          paths-IsEquality.same_refl path,
          picked-chosen R f grid_at (accepted left) bs,
          chosen-accepted f grid_at left bs sound,
        )

    extract-all :
        (f : Buffer) (bs : List ℕ) (sz : ℕ)
        → sz < 9223372036854775808
        → AllInside R f sz bs
        → (after : Extract D.Float) × (extract R O D f place
              (λ k. false)
              (map pos bs)
              0
              (handle R f sz 0)
              []
            ≡ some (done, after))
          × ((c : CommonDataProperties) → values_of c after ≡ values_at R O D f place c bs)
    unfolding values_of lookup
    extract-all f bs sz small inside =
        let whole : bs ++ [] ≡ bs = append-nil bs in
        let (after, runs, found) =
          extract-values R O D f place (λ k. false) bs [] 0 (handle R f sz 0) [] small
            (rw whole inside) (λ i hi. refl) (inl refl) in
        (
          after,
          ap (λ l. extract R O D f place (λ k. false) (map pos l) 0 (handle R f sz 0) [])
                (sym whole)
              ∙ runs,
          found,
        )

    -- For a file smaller than 2 ^ 63 that is made of messages with a section 2 and without errors, one
    -- behind the other: the walk over it ends, and once its messages are in an empty catalogue,
    -- extraction at the positions that this keeps for the file returns NONE and collects, under all
    -- common properties, the values of all messages of the file that have them and a grid, in the
    -- order of the file.
    pub extract-indexed :
        IsBigEndian R
        → (m : List ℕ) (ms : List (List ℕ)) → AllMessages (m ∷ ms)
        → AllGridded (m ∷ ms)
        → let whole = concat (m ∷ ms) in
          let f = of_bytes whole in
          length whole < 9223372036854775808
          → (grid_at : ℕ → G) → AllAccepted R f grid_at left (starts 0 (m ∷ ms))
          → (name : String) (now : ℕ)
          → let h = handle R f (length whole) 0 in
            (infos : List MsgInfo) × (process_file R f (count (m ∷ ms)) h ≡ some infos)
            × (let d = add_data {T = T} grids left name now (map (with_grid grid_at) infos) empty in
                let kept = in_file (file_path name now) d.positions in
                (after : Extract D.Float) × (extract R O D f place
                    (λ k. false)
                    (map pos kept)
                    0
                    h
                    []
                  ≡ some (done, after))
                × ((c : CommonDataProperties)
                    → values_of c after ≡ values_at R O D f place c (starts 0 (m ∷ ms))))
    extract-indexed big m ms all gridded small grid_at sound name now =
        let whole = concat (m ∷ ms) in
        let f = of_bytes whole in
        let bs = starts 0 (m ∷ ms) in
        let inside = starts-AllInside R big whole [] (m ∷ ms) refl all in
        let (after, runs, found) = extract-all f bs (length whole) small inside in
        (
          map (info_at R f) bs,
          process_file-concat R big m ms all gridded,
          (
            after,
            ap
                  (λ l.
                    extract R O D f place (λ k. false) (map pos l) 0 (handle R f (length whole) 0)
                      [])
                  (positions-indexed f grid_at bs name now sound)
                ∙ runs,
            found,
          ),
        )
