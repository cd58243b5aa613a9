-- ===== src/Extraction/Positions.antt =====
-- The values that `extract` collects.
use mathlib.Core.List.{append_assoc, append-nil}
use mashroom.Common.{
  ℕ, suc, ◌+◌, ◌<◌, ◌≤◌, ◌≡◌, refl, sym, ap, ◌∙◌, arith, ◌&&◌, Bool, true, false, Option, none,
  some, List, [], ◌∷◌, ◌++◌, map, length, if◌then◌else◌, ◌⊎◌, inl, inr,
}
use mashroom.Common.Int.{pos}
use mashroom.Common.Table.{lookup, update, lookup-update, lookup-same}
use mashroom.Grib.Bytes.{Buffer, ByteReader}
use mashroom.Grib.Message.{HGrib1, message_length, read_message, set_message}
use mashroom.Grib.Message.Walk.{info_at, AllInside}
use mashroom.Grib.Values.{Decoding, Extracted}
use mashroom.Grib.Grid.{Coord}
use mashroom.Grib.Grid.Reading.{GridOps}
use mashroom.Catalogue.{CommonDataProperties, commons, same_common, common_of}
use mashroom.Catalogue.Keys.{commons-IsEquality}
use mashroom.Extraction.{
  ErrorCode, done, interrupted, Extract, emplace_back, grid_of, has_grid, value_at, add_value,
  extract,
}

abbrev or_none : {F : Type 0} → Option (List (Extracted F)) → List (Extracted F)
or_none none = []
or_none (some vs) = vs

-- The positions that pass a test.
unfoldable pub chosen : (ℕ → Bool) → List ℕ → List ℕ
chosen test [] = []
chosen test (b ∷ bs) = let rest = chosen test bs in if test b then b ∷ rest else rest

-- What is returned before positions that are left.
abbrev pub code_before : List ℕ → ErrorCode
code_before [] = done
code_before (b ∷ bs) = interrupted

-- The values under common properties.
unfoldable pub values_of : {F : Type 0} → CommonDataProperties → Extract F → List (Extracted F)
values_of c r = or_none (lookup commons c r)

values_of-emplace_back :
    {F : Type 0} (v : Extracted F) (c k : CommonDataProperties) (r : Extract F)
    → values_of c (update commons k (emplace_back v) r)
      ≡ (if same_common k c then values_of c r ++ v ∷ [] else values_of c r)
unfolding values_of
values_of-emplace_back v c k r = ground (
  arith,
  lookup-update commons commons-IsEquality c k (emplace_back v) r,
  lookup-same commons commons-IsEquality k c r,
)

module _ (R : ByteReader) (O : GridOps) (D : Decoding) (f : Buffer)
    (place : Coord O.order.Float) where
  -- Whether the message at `b` has a grid and these common properties.
  abbrev pub has_value : CommonDataProperties → ℕ → Bool
  has_value c b =
      has_grid (grid_of R O f (read_message R f b)) && same_common (common_of (info_at R f b)) c

  -- The values of the messages at these positions that have a grid and these properties.
  unfoldable pub values_at : CommonDataProperties → List ℕ → List (Extracted D.Float)
  values_at c [] = []
  values_at c (b ∷ bs) =
      let rest = values_at c bs in
      if has_value c b then value_at R O D f place (read_message R f b) ∷ rest else rest

  unfoldable pub add_values : List ℕ → Extract D.Float → Extract D.Float
  add_values [] r = r
  add_values (b ∷ bs) r = add_values bs (add_value R O D f place (read_message R f b) r)

  values_of-add_value :
      (c : CommonDataProperties) (b : ℕ) (r : Extract D.Float)
      → values_of c (add_value R O D f place (read_message R f b) r) ≡ (
          if has_value c b
          then values_of c r ++ value_at R O D f place (read_message R f b) ∷ []
          else values_of c r)
  unfolding add_value read_message
  values_of-add_value c b r = ground (
    arith,
    values_of-emplace_back (value_at R O D f place (read_message R f b)) c
        (common_of (info_at R f b)) r,
  )

  pub values_of-add_values :
      (c : CommonDataProperties) (bs : List ℕ) (r : Extract D.Float)
      → values_of c (add_values bs r) ≡ values_of c r ++ values_at c bs
  unfolding add_values values_at
  values_of-add_values c [] r = sym (append-nil (values_of c r))
  values_of-add_values c (b ∷ bs) r =
      let v = value_at R O D f place (read_message R f b) in
      ground (
        arith,
        values_of-add_values c bs (add_value R O D f place (read_message R f b) r),
        values_of-add_value c b r,
        append_assoc (values_of c r) (v ∷ []) (values_at c bs),
      )

  module _ (stop : ℕ → Bool) where
    extract-next :
        (b : ℕ) (bs : List ℕ) (k : ℕ) (h : HGrib1) (r : Extract D.Float)
        → h.sz < 9223372036854775808
        → b < h.sz
        → 1 ≤ message_length R f b
        → extract R O D f place stop (map pos (b ∷ bs)) k h r ≡ (
            if stop k
            then some (interrupted, r)
            else extract R O D f place stop
                (map pos bs)
                (suc k)
                (record h { current = b; msg = some (read_message R f b) })
                (add_value R O D f place (read_message R f b) r))
    unfolding extract set_message read_message
    extract-next b bs k h r size inside long = ground arith

    -- What is collected exactly.
    pub extract-runs :
        (bs cs : List ℕ) (k : ℕ) (h : HGrib1) (r : Extract D.Float)
        → h.sz < 9223372036854775808
        → AllInside R f h.sz (bs ++ cs)
        → ((i : ℕ) → i < length bs → stop (k + i) ≡ false)
        → (cs ≡ []) ⊎ (stop (k + length bs) ≡ true)
        → extract R O D f place stop (map pos (bs ++ cs)) k h r
          ≡ some (code_before cs, add_values bs r)
    unfolding add_values extract
    extract-runs [] [] k h r size inside go halt = refl
    extract-runs [] (c ∷ cs) k h r size inside go halt =
        let stops : stop k ≡ true = elim halt [
          | inl none_left ↦ absurd (ground (arith, none_left))
          | inr e ↦ ap stop (omega arith) ∙ e
        ] in
        ground (arith, stops, extract-next c cs k h r size inside.0 inside.1)
    extract-runs (b ∷ bs) cs k h r size (at, long, inside) go halt =
        let runs : stop k ≡ false = ap stop (omega arith) ∙ go 0 (omega arith) in
        let next = add_value R O D f place (read_message R f b) r in
        extract-next b (bs ++ cs) k h r size at long
        ∙ rw runs (
            extract-runs bs cs (suc k) (record h { current = b; msg = some (read_message R f b) })
              next size inside (λ i hi. ap stop (omega arith) ∙ go (suc i) (omega arith))
              (elim halt [ inl e ↦ inl e | inr e ↦ inr (ap stop (omega arith) ∙ e) ]))

    -- For a file smaller than 2 ^ 63 and positions that all lie inside it, at messages of non-zero
    -- length: as long as no stop is requested, `extract` takes the positions one after the other, and
    -- returns INTERRUPTED at the first request and NONE if there is none. Then under all common
    -- properties the values of the messages that were taken, where these have a grid, come in order
    -- behind those of before.
    pub extract-values :
        (bs cs : List ℕ) (k : ℕ) (h : HGrib1) (r : Extract D.Float)
        → h.sz < 9223372036854775808
        → AllInside R f h.sz (bs ++ cs)
        → ((i : ℕ) → i < length bs → stop (k + i) ≡ false)
        → (cs ≡ []) ⊎ (stop (k + length bs) ≡ true)
        → (after : Extract D.Float) × (extract R O D f place stop (map pos (bs ++ cs)) k h r
            ≡ some (code_before cs, after))
          × ((c : CommonDataProperties) → values_of c after ≡ values_of c r ++ values_at c bs)
    extract-values bs cs k h r size inside go halt = (
      add_values bs r,
      extract-runs bs cs k h r size inside go halt,
      λ c. values_of-add_values c bs r,
    )
