-- ===== src/Output/Tokens.antt =====
-- The lines of the header of a text file: `write_parameter` of src/proc/extract/write.cpp and
-- `get_txt_token` of src/proc/extract/read.cpp. A text is the list of its bytes, a stream the list of
-- the lines that are left. Numbers are written in decimal, and read by `std::from_chars`, which takes
-- the digits that come first and fails if there are none or their number is too large.
use mashroom.Common.{
  ℕ, zero, suc, ◌+◌, ◌-◌, ◌*◌, ◌/◌, ◌%◌, not, ◌&&◌, ◌||◌, ◌==◌, Bool, false, Option, none, some,
  List, [], ◌∷◌, ◌++◌, ltb, leb, if◌then◌else◌,
}

abbrev pub Line : Type 0
Line = List ℕ

pub data ErrorCode : Type 0 where
  file_x1_reading_error file_x1_corrupted_or_invalid_format : ErrorCode

-- What is read, with the lines that are left; an exception; or a read behind the end of a table.
pub data Read (A : Type 0) : Type 0 where
  got : A → List Line → Read A
  outside : Read A
  thrown : ErrorCode → Read A

abbrev pub Reader : Type 0 → Type 0
Reader A = List Line → Read A

infixl 1 ◌>>=◌ ◌>>◌
abbrev pub ◌>>=◌ : {A B : Type 0} → Reader A → (A → Reader B) → Reader B
◌>>=◌ m f ls = elim (m ls) [ got a rest ↦ f a rest | outside ↦ outside | thrown e ↦ thrown e ]

abbrev pub ◌>>◌ : {B : Type 0} → Reader (Unit {0}) → Reader B → Reader B
m >> k = m >>= λ u. k

abbrev pub pure : {A : Type 0} → A → Reader A
pure a ls = got a ls

-- `stream << n`
unfoldable pub digits : ℕ → ℕ → Line
digits zero n = []
digits (suc k) n =
    let rest = digits k (n / 10) in if ltb n 10 then (48 + n) ∷ [] else rest ++ (48 + n % 10) ∷ []

abbrev pub show : ℕ → Line
show n = digits (suc n) n

abbrev pub tabs : ℕ → Line
tabs zero = []
tabs (suc k) = 9 ∷ tabs k

-- The line of a parameter, with `indent` tabs.
unfoldable pub write_parameter : ℕ → Line → Line → Line
write_parameter indent token value = tabs indent ++ (token ++ 58 ∷ value)

unfoldable pub is_digit : ℕ → Bool
is_digit c = leb 48 c && leb c 57

-- The number of the digits that come first, behind the number `n`.
unfoldable pub leading : ℕ → Line → ℕ
leading n [] = n
leading n (c ∷ cs) = let more = leading (n * 10 + (c - 48)) cs in if is_digit c then more else n

abbrev pub starts_with_digit : Line → Bool
starts_with_digit [] = false
starts_with_digit (c ∷ cs) = is_digit c

-- `std::from_chars` of an unsigned number up to `greatest`.
unfoldable pub from_chars : ℕ → Line → Option ℕ
from_chars greatest s =
    if starts_with_digit s && not (ltb greatest (leading 0 s)) then some (leading 0 s) else none

-- `find_first_no_of(buffer,"\t ")`, and the text from there on.
unfoldable pub skip_blanks : Line → Line
skip_blanks [] = []
skip_blanks (c ∷ cs) = let rest = skip_blanks cs in if (c == 9) || (c == 32) then rest else c ∷ cs

-- `starts_with`, and the text behind.
unfoldable pub strip_prefix : Line → Line → Option Line
strip_prefix [] s = some s
strip_prefix (p ∷ ps) [] = none
strip_prefix (p ∷ ps) (c ∷ cs) = let rest = strip_prefix ps cs in if p == c then rest else none

-- `get_txt_token` of an unsigned number or an enumeration over one, from a line.
unfoldable pub number_of : ℕ → Line → Line → Option ℕ
number_of greatest token line = elim (strip_prefix (token ++ 58 ∷ []) (skip_blanks line)) [
  | none ↦ none
  | some value ↦ from_chars greatest value
]

-- `get_txt_token` from a stream.
unfoldable pub get_number : ℕ → Line → Reader ℕ
get_number greatest token [] = thrown file_x1_reading_error
get_number greatest token (l ∷ ls) = elim (number_of greatest token l) [
  | none ↦ thrown file_x1_corrupted_or_invalid_format
  | some n ↦ got n ls
]

-- `get_txt_token<void>`: the line is not looked at.
unfoldable pub skip_line : Reader (Unit {0})
skip_line [] = thrown file_x1_reading_error
skip_line (l ∷ ls) = got tt ls
