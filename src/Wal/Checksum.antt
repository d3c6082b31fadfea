-- ===== src/Wal/Checksum.antt =====
-- The checksum of the write-ahead log (src/wal.c, walChecksumBytes), on a host of either byte order.
use litebtree.Base.{
  ℕ, zero, suc, ◌+◌, ◌*◌, ◌/◌, ◌%◌, ◌<◌, ◌≡◌, refl, List, [], ◌∷◌, arith, All, Bool, true, false,
  not, if◌then◌else◌, ◌==◌, ap, ℕ_discrete, take, length, ◌-◌, ◌^◌, ◌∙◌, sym, ◌≤◌,
}
use litebtree.Util.Word.{big_word}
pub mod Format

abbrev pub Sums : Type 0
Sums = ℕ × ℕ

-- bigEndCksum == SQLITE_BIGENDIAN
abbrev pub is_native : Bool → Bool → Bool
is_native true big_host = big_host
is_native false big_host = not big_host

-- A 32-bit word in the memory of a host.
unfoldable pub host_word : Bool → ℕ → ℕ → ℕ → ℕ → ℕ
unfolding big_word
host_word big_host a b c d = if big_host then big_word a b c d else big_word d c b a

-- BYTESWAP32: the masked bytes, shifted and added.
unfoldable pub byteswap32 : ℕ → ℕ
byteswap32 x =
    x % 256 * 16777216 + x / 256 % 256 * 65536 + x / 65536 % 256 * 256 + x / 16777216 % 256

-- One round of the loops: two words are added in. The list is what aData points at.
unfoldable pub round : (ℕ → ℕ → ℕ → ℕ → ℕ) → List ℕ × Sums → List ℕ × Sums
round word (a ∷ b ∷ c ∷ d ∷ e ∷ f ∷ g ∷ h ∷ rest, (s1, s2)) =
    let t1 = (s1 + (word a b c d + s2)) % 4294967296 in
    (rest, (t1, (s2 + (word e f g h + t1)) % 4294967296))
round word s = s

-- A do-while loop: one round, and one more for each time that aData is below aEnd behind a round.
unfoldable pub rounds : ℕ → (ℕ → ℕ → ℕ → ℕ → ℕ) → List ℕ × Sums → List ℕ × Sums
unfolding round
rounds zero word s = round word s
rounds (suc n) word s = rounds n word (round word s)

-- The unrolled loop: eight rounds at a time.
unfoldable pub rounds_by_eight : ℕ → (ℕ → ℕ → ℕ → ℕ → ℕ) → List ℕ × Sums → List ℕ × Sums
unfolding round
rounds_by_eight zero word s = let r = round word in r (r (r (r (r (r (r (r s)))))))
rounds_by_eight (suc n) word s =
    let r = round word in rounds_by_eight n word (r (r (r (r (r (r (r (r s))))))))

unfoldable pub wal_checksum_bytes : Bool → Bool → List ℕ → ℕ → Sums → Sums
unfolding rounds rounds_by_eight host_word byteswap32
wal_checksum_bytes big_host native a n_byte s =
    let word = host_word big_host in
    if not native
    then (rounds (n_byte / 8 - 1) (λ p q r t. byteswap32 (word p q r t)) (a, s)).1
    else if n_byte % 64 == 0
    then (rounds_by_eight (n_byte / 64 - 1) word (a, s)).1
    else (rounds (n_byte / 8 - 1) word (a, s)).1
