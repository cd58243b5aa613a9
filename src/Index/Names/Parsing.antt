-- ===== src/Index/Names/Parsing.antt =====
-- The parser of token sequences, and the test for repeated tokens.
use mashroom.Common.{
  ℕ, zero, suc, ◌+◌, ◌≤◌, ◌<◌, ◌≡◌, ◌≢◌, ◌↔◌, inl, inr, refl, arith, true, false, none, some,
  Bool-cases, Option-cases, List, [], ◌∷◌, ◌++◌, ltb, ◌==◌, if◌then◌else◌,
}
use mashroom.Index.Names.{
  DirTreeToken, token_value, same_token, separator, cut, txt_to_token, Parsed, tokens, stuck,
  push_front, after, parse_loop, size, drop_separator, input_to_token_sequence, count_up,
  check_from, check_format,
}

-- The texts of a path of tokens: each token is written in one of its ways, without a separator in
-- it, and separators stand between them; one more may end the path.
pub data Spells : List DirTreeToken → List ℕ → Type 0 where
  nothing : Spells [] []
  last :
      {t : DirTreeToken} {c : ℕ} {w : List ℕ}
      → cut (c ∷ w) ≡ (c ∷ w, none)
      → txt_to_token (c ∷ w) ≡ some t
      → Spells (t ∷ []) (c ∷ w)
  more :
      {t : DirTreeToken} {ts : List DirTreeToken} {c : ℕ} {w s : List ℕ}
      → cut (c ∷ w) ≡ (c ∷ w, none)
      → txt_to_token (c ∷ w) ≡ some t
      → Spells ts s
      → Spells (t ∷ ts) (c ∷ w ++ separator ∷ s)

cut-append : (w s : List ℕ) → cut w ≡ (w, none) → cut (w ++ separator ∷ s) ≡ (w, some s)
unfolding cut
cut-append [] s h = refl
cut-append (c ∷ w) s h = ground (arith, cut-append w s)

cut-size : (s rest : List ℕ) → (cut s).1 ≡ some rest → size rest < size s
unfolding cut
cut-size [] rest h = ground arith
cut-size (c ∷ s) rest h = ground (arith, cut-size s rest)

push_front-stuck : (t : DirTreeToken) (p : Parsed) → p ≢ stuck → push_front t p ≢ stuck
push_front-stuck t p h = ground arith

after-ends :
    (s : List ℕ) (loop : List ℕ → Parsed)
    → ((rest : List ℕ) → size rest < size s → loop rest ≢ stuck)
    → after loop (cut s).1 ≢ stuck
after-ends s loop h = elim (Option-cases (cut s).1) [
  | inl e ↦ rw e (ground arith)
  | inr (rest, e) ↦ rw e (h rest (cut-size s rest e))
]

-- The fuel is enough: the parser always ends, with tokens or with an exception.
parse_loop-ends : (fuel : ℕ) (s : List ℕ) → size s < fuel → parse_loop fuel s ≢ stuck
unfolding parse_loop
parse_loop-ends zero s h = absurd (omega arith)
parse_loop-ends (suc fuel) [] h = ground arith
parse_loop-ends (suc fuel) (c ∷ cs) h = elim (Option-cases (txt_to_token (cut (c ∷ cs)).0)) [
  | inl e ↦ rw (parse_loop, e) (ground arith)
  | inr (token, e) ↦
      rw (parse_loop, e)
        (push_front-stuck token _ (
          after-ends (c ∷ cs) (parse_loop fuel)
            (λ rest lt. parse_loop-ends fuel rest (omega arith))))
]

-- The parser always ends, with tokens or with an exception: the fuel is enough.
pub input_to_token_sequence-ends : (text : List ℕ) → input_to_token_sequence text ≢ stuck
unfolding input_to_token_sequence
input_to_token_sequence-ends text =
    parse_loop-ends (size (drop_separator text) + 1) (drop_separator text) (omega arith)

size-append : (xs ys : List ℕ) → size (xs ++ ys) ≡ size xs + size ys
size-append [] ys = omega arith
size-append (x ∷ xs) ys = omega (arith, size-append xs ys)

parse_loop-Spells :
    (fuel : ℕ) {ts : List DirTreeToken} {s : List ℕ}
    → Spells ts s
    → size s < fuel
    → parse_loop fuel s ≡ tokens ts
unfolding parse_loop
parse_loop-Spells zero sp h = absurd (omega arith)
parse_loop-Spells (suc fuel) nothing h = refl
parse_loop-Spells (suc fuel) (last cut_w found) h = rw (parse_loop, cut_w, found, cut_w) refl
parse_loop-Spells (suc fuel) (more {c = c} {w = w} {s = s} cut_w found rest) h =
    let smaller : size s < fuel = omega (arith, size-append w (separator ∷ s)) in
    rw
      (
        parse_loop,
        cut-append (c ∷ w) s cut_w,
        found,
        cut-append (c ∷ w) s cut_w,
        parse_loop-Spells fuel rest smaller,
      )
      refl

no_separator : (c : ℕ) (w : List ℕ) → cut (c ∷ w) ≡ (c ∷ w, none) → (c == separator) ≡ false
unfolding cut
no_separator c w h = ground arith

drop_separator-Spells : {ts : List DirTreeToken} {s : List ℕ} → Spells ts s → drop_separator s ≡ s
drop_separator-Spells nothing = refl
drop_separator-Spells (last {c = c} {w = w} cut_w found) = rw (no_separator c w cut_w) refl
drop_separator-Spells (more {c = c} {w = w} cut_w found rest) = rw (no_separator c w cut_w) refl

-- Parsing undoes spelling: a path of tokens, with or without a separator before it, gives those
-- tokens in their order.
pub input_to_token_sequence-Spells :
    {ts : List DirTreeToken} {s : List ℕ}
    → Spells ts s
    → (input_to_token_sequence (separator ∷ s) ≡ tokens ts)
      × (input_to_token_sequence s ≡ tokens ts)
unfolding input_to_token_sequence
input_to_token_sequence-Spells {s = s} spelt =
    let parsed = parse_loop-Spells (size s + 1) spelt (omega arith) in
    (parsed, rw (drop_separator-Spells spelt) parsed)

-- The number of times that a token occurs.
pub count : DirTreeToken → List DirTreeToken → ℕ
count t [] = 0
count t (u ∷ us) = count t us + (if same_token u t then 1 else 0)

token_value-inj : (t u : DirTreeToken) → token_value t ≡ token_value u → t ≡ u
token_value-inj t u h = ground arith

next-small :
    (counter : DirTreeToken → ℕ) (u : DirTreeToken)
    → ((t : DirTreeToken) → counter t ≤ 1)
    → counter u ≡ 0
    → (t : DirTreeToken) → count_up u counter t ≤ 1
next-small counter u small h t = elim (Bool-cases (same_token u t)) [
  | inl same ↦ rw (← token_value-inj u t (ground arith)) (ground arith)
  | inr other ↦ ground (arith, small t)
]

check_from_iff :
    (counter : DirTreeToken → ℕ) (ts : List DirTreeToken)
    → ((t : DirTreeToken) → counter t ≤ 1)
    → (check_from counter ts ≡ true) ↔ ((t : DirTreeToken) → counter t + count t ts ≤ 1)
unfolding check_from count
check_from_iff counter [] small = (λ h t. omega (arith, small t), λ h. refl)
check_from_iff counter (u ∷ us) small = elim (Bool-cases (ltb 1 (count_up u counter u))) [
  | inl over ↦ (λ h. ground arith, λ h. ground (arith, h u))
  | inr fresh ↦
      let rest =
        check_from_iff (count_up u counter) us (next-small counter u small (ground arith)) in
      rw fresh (λ h t. omega (arith, rest.0 h t), λ h. rest.1 (λ t. omega (arith, h t)))
]

-- A format is accepted exactly if no token occurs in it twice.
pub check_format_iff :
    (ts : List DirTreeToken) → (check_format ts ≡ true) ↔ ((t : DirTreeToken) → count t ts ≤ 1)
unfolding check_format
check_format_iff ts =
    let from = check_from_iff (λ t. 0) ts (λ t. omega arith) in
    (λ h t. omega (arith, from.0 h t), λ h. from.1 (λ t. omega (arith, h t)))
