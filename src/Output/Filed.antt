-- ===== src/Output/Filed.antt =====
-- Which rows of a text file stand in which file.
use mashroom.Common.{
  ℕ, zero, suc, ◌<◌, ◌≤◌, ◌≡◌, refl, ap, sym, subst, arith, ◌||◌, Bool, true, false, some, List, [],
  ◌∷◌, ◌++◌, leb, ◌==◌, if◌then◌else◌,
}
use mashroom.Output.{Disk, internal_error, opened, make_and_open_file}
use mashroom.Output.Rows.{
  Columns, Row, TxtEvent, open_file, put_line, lost, TxtResult, RowRound, ends, goes_on,
  push_events, current_time, advance_all, open_next, write_row, write_rows,
}
use mashroom.Output.Columns.{tried_rows, row_at}

-- Before the first file, behind the headers of the file that was opened for a time, or behind a row of a
-- file whose period ends at a time.
pub data FilePlace : Type 0 where
  before : FilePlace
  headed : ℕ → FilePlace
  within : ℕ → FilePlace

module _ {V : Type 0} where
  -- The rows that are written to a file.
  unfoldable pub rows_of : List (TxtEvent V) → List (Row V)
  rows_of [] = []
  rows_of (open_file t ∷ es) = rows_of es
  rows_of (put_line r ∷ es) = r ∷ rows_of es
  rows_of (lost r ∷ es) = rows_of es

  -- No row is lost. A file is opened for the time of its first row, which is not before the end of the
  -- period of the last file, and its further rows are before the end of its own.
  unfoldable pub IsFiled : (ℕ → ℕ) → FilePlace → List (TxtEvent V) → Type 0
  IsFiled next p [] = Unit
  IsFiled next p (lost r ∷ es) = ⊥
  IsFiled next before (open_file t ∷ es) = IsFiled next (headed t) es
  IsFiled next before (put_line r ∷ es) = ⊥
  IsFiled next (headed u) (open_file t ∷ es) = ⊥
  IsFiled next (headed u) (put_line r ∷ es) = (r.time ≡ u) × IsFiled next (within (next u)) es
  IsFiled next (within e) (open_file t ∷ es) = (e ≤ t) × IsFiled next (headed t) es
  IsFiled next (within e) (put_line r ∷ es) = (r.time < e) × IsFiled next (within e) es

  pub rows_of-tried_rows :
      (next : ℕ → ℕ) (p : FilePlace) (es : List (TxtEvent V))
      → IsFiled next p es
      → tried_rows es ≡ rows_of es
  unfolding rows_of tried_rows IsFiled
  rows_of-tried_rows next p [] h = refl
  rows_of-tried_rows next p (lost r ∷ es) h = absurd h
  rows_of-tried_rows next before (open_file t ∷ es) h = rows_of-tried_rows next (headed t) es h
  rows_of-tried_rows next before (put_line r ∷ es) h = absurd h
  rows_of-tried_rows next (headed u) (open_file t ∷ es) h = absurd h
  rows_of-tried_rows next (headed u) (put_line r ∷ es) h =
      ap (◌∷◌ r) (rows_of-tried_rows next (within (next u)) es h.1)
  rows_of-tried_rows next (within e) (open_file t ∷ es) h =
      rows_of-tried_rows next (headed t) es h.1
  rows_of-tried_rows next (within e) (put_line r ∷ es) h =
      ap (◌∷◌ r) (rows_of-tried_rows next (within e) es h.1)

  module _ (disk : Disk) (next : ℕ → ℕ) (header : Bool) (stop : ℕ → Bool)
      (open_all : (t : ℕ) → make_and_open_file disk t ≡ opened) where
    -- What a round adds is filed, whatever the rounds behind it do at their place.
    abbrev IsRound : FilePlace → RowRound V → Type 0
    IsRound p (ends es e) = IsFiled next p es
    IsRound p (goes_on es b e) =
        (b ≡ true)
        × ((fs : List (TxtEvent V)) → IsFiled next (within e) fs → IsFiled next p (es ++ fs))

    IsRound-if :
        (p : FilePlace) (c : Bool) (x y : RowRound V)
        → (c ≡ true → IsRound p x)
        → (c ≡ false → IsRound p y)
        → IsRound p (if c then x else y)
    IsRound-if p true x y is also = is refl
    IsRound-if p false x y is also = also refl

    open_next-opened :
        (r : Row V)
        → open_next disk next header stop r ≡ (
            if header
            then goes_on (open_file r.time ∷ put_line r ∷ []) true (next r.time)
            else ends (open_file r.time ∷ []) internal_error)
    unfolding open_next
    open_next-opened r = ground (arith, open_all r.time)

    IsRound-open :
        (p : FilePlace) (r : Row V)
        → ((es : List (TxtEvent V))
            → IsFiled next (headed r.time) es
            → IsFiled next p (open_file r.time ∷ es))
        → IsRound p (open_next disk next header stop r)
    unfolding IsFiled
    IsRound-open p r opens = subst (IsRound p) (sym (open_next-opened r)) (
        IsRound-if p header _ _ (λ h. (refl, λ fs is. opens (put_line r ∷ fs) (refl, is)))
          (λ h. opens [] tt))

    write_row-first :
        (b : Bool) (file_end : ℕ) (r : Row V)
        → IsRound before (write_row disk next header stop 0 b file_end r)
    unfolding write_row IsFiled
    write_row-first b file_end r =
        IsRound-if before (stop 0) _ _ (λ h. tt)
          (λ h.
            IsRound-if before (leb file_end r.time || true) _ _
              (λ at. IsRound-open before r (λ es is. is)) (λ off. ground (arith, off)))

    write_row-later :
        (row : ℕ) (file_end : ℕ) (r : Row V)
        → IsRound (within file_end) (write_row disk next header stop (suc row) true file_end r)
    unfolding write_row IsFiled
    write_row-later row file_end r =
        IsRound-if (within file_end) (stop (suc row)) _ _ (λ h. tt)
          (λ h.
            IsRound-if (within file_end) (leb file_end r.time || suc row == 0) _ _
              (λ at. IsRound-open (within file_end) r (λ es is. (ground (arith, at), is)))
              (λ off. (refl, λ fs is. (ground (arith, off), is))))

    round-IsFiled :
        (p : FilePlace) (x : RowRound V) (k : Bool → ℕ → TxtResult V)
        → IsRound p x
        → ((b : Bool) (e : ℕ) → b ≡ true → IsFiled next (within e) ((k b e).events))
        → let after : TxtResult V = elim x [
          | ends es e ↦ record { events = es; exception = some e }
          | goes_on es b e ↦ push_events es (k b e)
        ] in
          IsFiled next p (after.events)
    round-IsFiled p (ends es e) k is ih = is
    round-IsFiled p (goes_on es b e) k (on, is) ih = is (k b e).events (ih b e on)

    later-IsFiled :
        (left row : ℕ) (b : Bool) (file_end : ℕ) (cs : Columns V)
        → b ≡ true
        → IsFiled next
            (within file_end)
            ((write_rows disk next header stop left (suc row) b file_end cs).events)
    unfolding write_rows IsFiled
    later-IsFiled zero row b file_end cs on = tt
    later-IsFiled (suc left) row b file_end cs on =
        let after = advance_all (current_time cs) cs in
        round-IsFiled (within file_end)
          (write_row disk next header stop (suc row) b file_end (row_at cs))
          (λ b' e. write_rows disk next header stop left (suc (suc row)) b' e after)
          (rw on (write_row-later row file_end (row_at cs)))
          (λ b' e on'. later-IsFiled left (suc row) b' e after on')

    -- From the first row on, everything is filed.
    pub write_rows-IsFiled :
        (left : ℕ) (b : Bool) (file_end : ℕ) (cs : Columns V)
        → IsFiled next before ((write_rows disk next header stop left 0 b file_end cs).events)
    unfolding write_rows IsFiled
    write_rows-IsFiled zero b file_end cs = tt
    write_rows-IsFiled (suc left) b file_end cs =
        let after = advance_all (current_time cs) cs in
        round-IsFiled before (write_row disk next header stop 0 b file_end (row_at cs))
          (λ b' e. write_rows disk next header stop left 1 b' e after)
          (write_row-first b file_end (row_at cs)) (λ b' e on'. later-IsFiled left 0 b' e after on')
