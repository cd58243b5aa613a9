-- ===== src/Index/Names/Formats.antt =====
-- The formats of file names: the formats of the tokens with a mark between them.
use mathlib.Core.List.{append-nil, append_assoc}
use mashroom.Common.{ℕ, sym, ◌≡◌, refl, List, [], ◌∷◌, ◌++◌, ◌∙◌, ap}
use mashroom.Index.Names.{DirTreeToken, format, append_formats, pop_back, generate_filename_format}

-- The formats of the tokens, with the mark between two of them and nowhere else.
pub joined : ℕ → List DirTreeToken → List ℕ
joined mark [] = []
joined mark (t ∷ []) = format t
joined mark (t ∷ u ∷ us) = format t ++ mark ∷ joined mark (u ∷ us)

-- The mark behind every format.
ended : ℕ → List DirTreeToken → List ℕ
ended mark [] = []
ended mark (t ∷ ts) = format t ++ mark ∷ ended mark ts

append_formats-ended :
    (mark : ℕ) (text : List ℕ) (ts : List DirTreeToken)
    → append_formats mark text ts ≡ text ++ ended mark ts
unfolding append_formats ended
append_formats-ended mark text [] = sym (append-nil text)
append_formats-ended mark text (t ∷ ts) =
    simp (append_formats-ended mark (text ++ (format t ++ mark ∷ [])) ts, append_assoc)

pop_back-append :
    (xs : List ℕ) (d : ℕ) (ds : List ℕ) → pop_back (xs ++ d ∷ ds) ≡ xs ++ pop_back (d ∷ ds)
pop_back-append [] d ds = refl
pop_back-append (x ∷ []) d ds = refl
pop_back-append (x ∷ y ∷ xs) d ds = ap (λ l. x ∷ l) (pop_back-append (y ∷ xs) d ds)

pop_back-cons :
    (c : ℕ) (xs : List ℕ) (d : ℕ) (ds : List ℕ)
    → pop_back (c ∷ (xs ++ d ∷ ds)) ≡ c ∷ pop_back (xs ++ d ∷ ds)
pop_back-cons c [] d ds = refl
pop_back-cons c (x ∷ xs) d ds = refl

pop_back-ended : (mark : ℕ) (ts : List DirTreeToken) → pop_back (ended mark ts) ≡ joined mark ts
unfolding ended joined
pop_back-ended mark [] = refl
pop_back-ended mark (t ∷ []) = rw (pop_back-append (format t) mark []) (append-nil (format t))
pop_back-ended mark (t ∷ u ∷ us) = rw (pop_back-append (format t) mark (ended mark (u ∷ us))) (
    ap (λ l. format t ++ l)
      (pop_back-cons mark (format u) mark (ended mark us)
        ∙ ap (λ l. mark ∷ l) (pop_back-ended mark (u ∷ us))))

-- The format of a file name is the formats of its tokens, in order, with "_" between them: the "_"
-- behind the last one is taken off again, and nothing else.
pub generate_filename_format-joined :
    (ts : List DirTreeToken) → generate_filename_format ts ≡ joined 95 ts
unfolding generate_filename_format
generate_filename_format-joined ts =
    ap pop_back (append_formats-ended 95 [] ts) ∙ pop_back-ended 95 ts
