-- ===== src/Grib/Bytes.antt =====
-- Access to the bytes of a message. A `unsigned char*` is a function from offsets to bytes, and
-- `p + k` is `shift k p`. `read_bytes` and `UINT3` come from byte_read.h and def.h, which are not
-- part of the repository: the functions are a parameter, `ByteReader`, and what the sources say of
-- them (the assertion that follows each 3-byte read, and the macros that the reads replace) is
-- the hypothesis `IsBigEndian`.
use mashroom.Common.{ℕ, ◌+◌, ◌*◌, ◌<◌, ◌≡◌, List, get_elem?, Option, none, some}
use mashroom.Common.Int.{ℤ}

abbrev pub Buffer : Type 0
Buffer = ℕ → ℕ

abbrev pub shift : ℕ → Buffer → Buffer
shift k p = λ i. p (k + i)

-- Every value is an `unsigned char`.
abbrev pub IsBytes : Buffer → Type 0
IsBytes p = (i : ℕ) → p i < 256

pub record ByteReader : Type 0 where
  pub unsigned : ℕ → Buffer → ℕ  -- read_bytes<n,false>
  pub signed : ℕ → Buffer → ℤ  -- read_bytes<n,true>

-- Bytes are read in the order of the message, the most significant first.
pub record IsBigEndian (R : ByteReader) : Type 0 where
  pub one : (p : Buffer) → R.unsigned 1 p ≡ p 0
  pub two : (p : Buffer) → R.unsigned 2 p ≡ p 0 * 256 + p 1
  pub three : (p : Buffer) → R.unsigned 3 p ≡ p 0 * 65536 + p 1 * 256 + p 2

-- A buffer from the bytes of a list, with zeros behind it.
abbrev pub byte_or_zero : Option ℕ → ℕ
byte_or_zero none = 0
byte_or_zero (some b) = b

abbrev pub of_bytes : List ℕ → Buffer
of_bytes bytes = λ i. byte_or_zero (get_elem? bytes i)
