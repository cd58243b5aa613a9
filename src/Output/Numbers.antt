-- ===== src/Output/Numbers.antt =====
-- A number that is written as a parameter is read back.
use mashroom.Common.{
  ℕ, zero, suc, ◌+◌, ◌-◌, ◌*◌, ◌/◌, ◌%◌, ◌<◌, ◌≤◌, ◌≡◌, refl, ap, ◌∙◌, sym, arith, not, ◌||◌, ◌==◌,
  Bool, true, false, some, List, [], ◌∷◌, ◌++◌, ltb, Bool-cases, inl, inr,
}
use mathlib.Core.List.{append_assoc, append-nil}
use mashroom.Output.Tokens.{
  Line, got, digits, show, tabs, write_parameter, is_digit, leading, starts_with_digit, from_chars,
  skip_blanks, strip_prefix, number_of, get_number,
}

leading_last : (n : ℕ) (t : Line) → leading (n / 10) ((48 + n % 10) ∷ t) ≡ leading n t
unfolding leading is_digit
leading_last n t =
    let whole : n / 10 * 10 + (48 + n % 10 - 48) ≡ n = omega arith in
    ground (arith, ap (λ (m : ℕ). leading m t) whole)

leading-digits : (k n : ℕ) (t : Line) → n < k → leading 0 (digits k n ++ t) ≡ leading n t
unfolding leading digits is_digit
leading-digits zero n t h = absurd (omega arith)
leading-digits (suc k) n t h = elim (Bool-cases (ltb n 10)) [
  | inl one ↦ rw one (ground arith)
  | inr more ↦
      let last = 48 + n % 10 in
      let ih = leading-digits k (n / 10) (last ∷ t) (ground (arith, more)) in
      rw more (rw (append_assoc (digits k (n / 10)) (last ∷ []) t) (ih ∙ leading_last n t))
]

digits-starts : (k n : ℕ) (t : Line) → n < k → starts_with_digit (digits k n ++ t) ≡ true
unfolding digits is_digit
digits-starts zero n t h = absurd (omega arith)
digits-starts (suc k) n t h = elim (Bool-cases (ltb n 10)) [
  | inl one ↦ rw one (ground arith)
  | inr more ↦
      let last = 48 + n % 10 in
      rw more (
        rw (append_assoc (digits k (n / 10)) (last ∷ []) t)
          (digits-starts k (n / 10) (last ∷ t) (ground (arith, more))))
]

from_chars-show : (greatest n : ℕ) → n ≤ greatest → from_chars greatest (show n) ≡ some n
unfolding from_chars leading
from_chars-show greatest n h =
    let whole : leading 0 (show n) ≡ n =
      ap (leading 0) (sym (append-nil (show n))) ∙ leading-digits (suc n) n [] (omega arith) in
    let first : starts_with_digit (show n) ≡ true =
      ap starts_with_digit (sym (append-nil (show n))) ∙ digits-starts (suc n) n [] (omega arith) in
    ground (arith, whole, first)

-- The first byte is neither a tab nor a space.
abbrev pub starts_plain : Line → Bool
starts_plain [] = false
starts_plain (c ∷ cs) = not ((c == 9) || (c == 32))

skip_blanks-tabs :
    (k : ℕ) (token s : Line)
    → starts_plain token ≡ true
    → skip_blanks (tabs k ++ (token ++ s)) ≡ token ++ s
unfolding skip_blanks
skip_blanks-tabs zero [] s h = cc
skip_blanks-tabs zero (c ∷ cs) s h = ground (arith, h)
skip_blanks-tabs (suc k) token s h = skip_blanks-tabs k token s h

strip_prefix-append : (p s : Line) → strip_prefix p (p ++ s) ≡ some s
unfolding strip_prefix
strip_prefix-append [] s = refl
strip_prefix-append (c ∷ cs) s = ground (arith, strip_prefix-append cs s)

number_of-write_parameter :
    (greatest indent n : ℕ) (token : Line)
    → starts_plain token ≡ true
    → n ≤ greatest
    → number_of greatest token (write_parameter indent token (show n)) ≡ some n
unfolding number_of write_parameter
number_of-write_parameter greatest indent n token plain small =
    let line = tabs indent ++ (token ++ 58 ∷ show n) in
    let shown : skip_blanks line ≡ (token ++ 58 ∷ []) ++ show n =
      skip_blanks-tabs indent token (58 ∷ show n) plain
      ∙ sym (append_assoc token (58 ∷ []) (show n)) in
    let value : strip_prefix (token ++ 58 ∷ []) (skip_blanks line) ≡ some (show n) =
      ap (strip_prefix (token ++ 58 ∷ [])) shown
      ∙ strip_prefix-append (token ++ 58 ∷ []) (show n) in
    ground (arith, value, from_chars-show greatest n small)

-- A number that is not too large is read back from its line, whatever the indent is.
pub get_number-write_parameter :
    (greatest indent n : ℕ) (token : Line) (ls : List Line)
    → starts_plain token ≡ true
    → n ≤ greatest
    → get_number greatest token (write_parameter indent token (show n) ∷ ls) ≡ got n ls
unfolding get_number
get_number-write_parameter greatest indent n token ls plain small =
    ground (arith, number_of-write_parameter greatest indent n token plain small)
