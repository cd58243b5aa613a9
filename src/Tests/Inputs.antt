-- ===== src/Tests/Inputs.antt =====
-- A reader of bytes and the sections of sample messages.
use mashroom.Common.{ℕ, ◌+◌, ◌*◌, ◌==◌, refl, List, [], ◌∷◌, ◌++◌, if◌then◌else◌}
use mashroom.Common.Int.{pos}
use mashroom.Grib.Bytes.{Buffer, of_bytes, ByteReader, IsBigEndian}

abbrev read_unsigned : ℕ → Buffer → ℕ
read_unsigned n p =
    if n == 1 then p 0 else if n == 2 then p 0 * 256 + p 1 else p 0 * 65536 + p 1 * 256 + p 2

abbrev pub reader : ByteReader
reader = record { unsigned = read_unsigned; signed = λ n p. pos (read_unsigned n p) }

pub reader-IsBigEndian : IsBigEndian reader
reader-IsBigEndian = record { one = λ p. refl; two = λ p. refl; three = λ p. refl }

-- 2024-02-28 18:00 and a forecast of 12 hours, at 500 hPa.
abbrev pub section_1_bytes : List ℕ
section_1_bytes =
    0 ∷ 0 ∷ 28 ∷ 3 ∷ 7 ∷ 80 ∷ 255 ∷ 0 ∷ 11 ∷ 100 ∷ 1 ∷ 244 ∷ 24 ∷ 2 ∷ 28 ∷ 18 ∷ 0 ∷ 1 ∷ 12 ∷ 0 ∷ 0
    ∷ 0 ∷ 0 ∷ 0 ∷ 21 ∷ 0 ∷ 0 ∷ 0 ∷ []

abbrev pub section_1 : Buffer
section_1 = of_bytes section_1_bytes

-- A message of sections 0, 1, 4 and 5: 8 + 28 + 12 + 4 bytes.
abbrev pub message_bytes : List ℕ
message_bytes =
    71 ∷ 82 ∷ 73 ∷ 66 ∷ 0 ∷ 0 ∷ 52 ∷ 1 ∷ []
    ++ section_1_bytes
    ++ 0 ∷ 0 ∷ 12 ∷ 0 ∷ 0 ∷ 0 ∷ 0 ∷ 0 ∷ 0 ∷ 0 ∷ 0 ∷ 0 ∷ []
    ++ 55 ∷ 55 ∷ 55 ∷ 55 ∷ []

-- Two messages, 104 bytes.
abbrev pub two_messages : Buffer
two_messages = of_bytes (message_bytes ++ message_bytes)

-- A reduced Gaussian grid of three rows of 20, 25 and 18 points, listed from octet 33.
abbrev pub reduced_grid : Buffer
reduced_grid = of_bytes (
    0 ∷ 0 ∷ 38 ∷ 0 ∷ 33 ∷ 4 ∷ 255 ∷ 255 ∷ 0 ∷ 3 ∷ 0 ∷ 0 ∷ 0 ∷ 0 ∷ 0 ∷ 0 ∷ 0 ∷ 0 ∷ 0 ∷ 0 ∷ 0 ∷ 0 ∷ 0
    ∷ 0 ∷ 0 ∷ 0 ∷ 0 ∷ 0 ∷ 0 ∷ 0 ∷ 0 ∷ 0 ∷ 0 ∷ 20 ∷ 0 ∷ 25 ∷ 0 ∷ 18 ∷ [])
