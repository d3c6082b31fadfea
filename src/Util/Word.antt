-- ===== src/Util/Word.antt =====
-- Four-byte big-endian integers (src/util.c, sqlite3Get4byte and sqlite3Put4byte).
use litebtree.Base.{ℕ, ◌+◌, ◌*◌, ◌/◌, ◌%◌, ◌<◌, ◌≡◌, List, [], ◌∷◌, ◌++◌, arith, All}

abbrev pub IsByte : ℕ → Type 0
IsByte b = b < 256

-- The value of four bytes, the first one the most significant. The shifted bytes have no bit in
-- common, so that the or of them is their sum.
unfoldable pub big_word : ℕ → ℕ → ℕ → ℕ → ℕ
big_word a b c d = a * 16777216 + b * 65536 + c * 256 + d

-- A read past the end never happens in the code that is modelled; the clause there gives 0.
unfoldable pub get4byte : List ℕ → ℕ
unfolding big_word
get4byte (a ∷ b ∷ c ∷ d ∷ rest) = big_word a b c d
get4byte _ = 0

unfoldable pub put4byte : ℕ → List ℕ
put4byte v = v / 16777216 % 256 ∷ v / 65536 % 256 ∷ v / 256 % 256 ∷ v % 256 ∷ []

-- What is put is what is got, for a number of 32 bits, whatever stands behind it.
pub get4byte-put4byte : (v : ℕ) (rest : List ℕ) → v < 4294967296 → get4byte (put4byte v ++ rest) ≡ v
unfolding get4byte put4byte
get4byte-put4byte v rest h = omega arith

pub put4byte-IsByte : (v : ℕ) → All IsByte (put4byte v)
unfolding put4byte
put4byte-IsByte v = (omega arith, (omega arith, (omega arith, (omega arith, tt))))
