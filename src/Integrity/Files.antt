-- ===== src/Integrity/Files.antt =====
-- The files of a directory, and those that do not open.
use Prim.Native.String.{String}
use mathlib.Core.List.{append_assoc, append-nil}
use mashroom.Common.{
  ℕ, ◌≡◌, refl, sym, ap, ◌∙◌, arith, not, false, Option, none, some, List, [], ◌∷◌, ◌++◌, map,
  if◌then◌else◌,
}
use mashroom.Grib.Bytes.{ByteReader}
use mashroom.Grib.Message.{Code, Host, open_grib}
use mashroom.Grib.Grid.Reading.{GridOps}
use mashroom.Catalogue.{is_none_err}
use mashroom.Extraction.{or_null}
use mashroom.Extraction.Search.{Ticks, SearchProperties}
use mashroom.Integrity.{Entry, Info, Collected, is_grib_file, walk, visit_entry, process_core}

abbrev add_to : {A : Type 0} → List A → Option (List A) → Option (List A)
add_to xs none = none
add_to xs (some ys) = some (xs ++ ys)

abbrev both : {A : Type 0} → Option (List A) → Option (List A) → Option (List A)
both none y = none
both (some xs) y = add_to xs y

module _ (R : ByteReader) (O : GridOps) (ticks : Ticks) (host : Host) (fuel : ℕ)
    (s : SearchProperties O.order.Float) where
  abbrev pub Data : Type 0
  Data = List (String × Info R O ticks)

  abbrev pub data_of : Option (Collected R O ticks) → Option Data
  data_of none = none
  data_of (some c) = some c.data_

  -- What a file adds to the data.
  unfoldable pub found : Entry → Option Data
  found e =
      let opened = open_grib R host e.path in
      let ds = walk R O ticks (or_null (host.mmap e.path)) fuel s opened.1 [] in
      if not (is_grib_file e) then some [] else elim opened.0 [
        | none ↦ none
        | some err ↦
            if not (is_none_err err)
            then some []
            else elim ds [ none ↦ none | some infos ↦ some (map (λ d. (e.path, d)) infos) ]
      ]

  unfoldable pub all_found : List Entry → Option Data
  all_found [] = some []
  all_found (e ∷ es) = both (found e) (all_found es)

  visit_entry-found :
      (e : Entry) (c : Collected R O ticks)
      → data_of (visit_entry R O ticks host fuel s e c) ≡ add_to c.data_ (found e)
  unfolding visit_entry found
  visit_entry-found e c = ground (arith, append-nil c.data_)

  add_to-both : (xs : Data) (x y : Option Data) → add_to xs (both x y) ≡ both (add_to xs x) y
  add_to-both xs none y = refl
  add_to-both xs (some ys) none = refl
  add_to-both xs (some ys) (some zs) = ap some (sym (append_assoc xs ys zs))

  both_rest :
      {x : Option Data} (y : Option Data)
      (rest : Collected R O ticks → Option (Collected R O ticks))
      → ((c : Collected R O ticks) → data_of (rest c) ≡ add_to c.data_ y)
      → (v : Option (Collected R O ticks)) → data_of v ≡ x
      → data_of (elim v [ none ↦ none | some c ↦ rest c ]) ≡ both x y
  both_rest y rest ih none h = ap (λ z. both z y) h
  both_rest y rest ih (some c) h = ih c ∙ ap (λ z. both z y) h

  both-empty : (y : Option Data) → both (some []) y ≡ y
  both-empty none = refl
  both-empty (some ys) = refl

  -- The rounds put one behind the other what each file adds.
  process_core-found :
      (es : List Entry) (c : Collected R O ticks)
      → data_of (process_core R O ticks host fuel s es c) ≡ add_to c.data_ (all_found es)
  unfolding process_core all_found
  process_core-found [] c = ap some (sym (append-nil c.data_))
  process_core-found (e ∷ es) c =
      both_rest (all_found es) (process_core R O ticks host fuel s es)
        (λ c'. process_core-found es c') (visit_entry R O ticks host fuel s e c)
        (visit_entry-found e c)
      ∙ sym (add_to-both c.data_ (found e) (all_found es))

  all_found-skip :
      (before after : List Entry) (e : Entry)
      → found e ≡ some []
      → all_found (before ++ e ∷ after) ≡ all_found (before ++ after)
  unfolding all_found
  all_found-skip [] after e h = ap (λ z. both z (all_found after)) h ∙ both-empty (all_found after)
  all_found-skip (b ∷ bs) after e h = ap (both (found b)) (all_found-skip bs after e h)

  found-unopened :
      (e : Entry) (err : Code)
      → (open_grib R host e.path).0 ≡ some err
      → is_none_err err ≡ false
      → found e ≡ some []
  unfolding found
  found-unopened e err fails bad = ground (arith, fails, bad)

  -- A file for which `open_grib` returns an error, anywhere among the entries, changes nothing in the
  -- data that is collected, whatever the conditions are: the files around it are read as without it.
  pub process_core-unopened :
      (before after : List Entry) (e : Entry) (err : Code) (c : Collected R O ticks)
      → (open_grib R host e.path).0 ≡ some err
      → is_none_err err ≡ false
      → data_of (process_core R O ticks host fuel s (before ++ e ∷ after) c)
        ≡ data_of (process_core R O ticks host fuel s (before ++ after) c)
  process_core-unopened before after e err c fails bad =
      process_core-found (before ++ e ∷ after) c
      ∙ ap (add_to c.data_) (all_found-skip before after e (found-unopened e err fails bad))
      ∙ sym (process_core-found (before ++ after) c)
