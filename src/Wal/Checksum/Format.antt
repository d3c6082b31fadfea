-- ===== src/Wal/Checksum/Format.antt =====
-- The checksum that the file format asks for, by the head of src/wal.c, and walChecksumBytes as a
-- way to compute it.
use litebtree.Base.{
  ℕ, zero, suc, ◌+◌, ◌*◌, ◌/◌, ◌%◌, ◌<◌, ◌≡◌, refl, List, [], ◌∷◌, arith, All, Bool, true, false,
  not, ap, ℕ_discrete, take, length, ◌-◌, ◌^◌, ◌∙◌, sym, ◌≤◌,
}
use litebtree.Util.Word.{IsByte, big_word}
use litebtree.Wal.Checksum.{
  Sums, is_native, host_word, byteswap32, round, rounds, rounds_by_eight, wal_checksum_bytes,
}

-- The checksum of the file format, as the head of src/wal.c describes it: the bytes are unsigned
-- 32-bit integers x[0], x[1], ... in the byte order that the log declares, and for each i from 0 in
-- steps of 2, s0 += x[i] + s1 and s1 += x[i+1] + s0. No host is in it.
abbrev pub integer : Bool → ℕ → ℕ → ℕ → ℕ → ℕ
integer true a b c d = ((a * 256 + b) * 256 + c) * 256 + d
integer false a b c d = ((d * 256 + c) * 256 + b) * 256 + a

unfoldable pub sum_pairs : Bool → List ℕ → Sums → Sums
sum_pairs big_end (a ∷ b ∷ c ∷ d ∷ e ∷ f ∷ g ∷ h ∷ rest) (s0, s1) =
    let s0' = (s0 + integer big_end a b c d + s1) % 2 ^ 32 in
    let s1' = (s1 + integer big_end e f g h + s0') % 2 ^ 32 in sum_pairs big_end rest (s0', s1')
sum_pairs big_end l s = s

unfoldable pub file_checksum : Bool → List ℕ → ℕ → Sums → Sums
unfolding sum_pairs
file_checksum big_end a n_byte s = sum_pairs big_end (take n_byte a) s

byteswap32-host_word :
    (big : Bool) (a b c d : ℕ)
    → IsByte a
    → IsByte b
    → IsByte c
    → IsByte d
    → byteswap32 (host_word big a b c d) ≡ host_word (not big) a b c d
unfolding byteswap32 host_word big_word
byteswap32-host_word true a b c d ha hb hc hd = omega arith
byteswap32-host_word false a b c d ha hb hc hd = omega arith

rounds-rounds_by_eight :
    (n : ℕ) (word : ℕ → ℕ → ℕ → ℕ → ℕ) (s : List ℕ × Sums)
    → rounds_by_eight n word s ≡ rounds (n * 8 + 7) word s
unfolding rounds rounds_by_eight
rounds-rounds_by_eight zero word s = refl
rounds-rounds_by_eight (suc n) word s =
    let e : suc n * 8 + 7 ≡ suc (suc (suc (suc (suc (suc (suc (suc (n * 8 + 7)))))))) =
      omega arith in
    rw e (rounds-rounds_by_eight n word _)

module _ (v w : ℕ → ℕ → ℕ → ℕ → ℕ)
    (same : (a b c d : ℕ) → IsByte a → IsByte b → IsByte c → IsByte d → v a b c d ≡ w a b c d) where
  round-same :
      (l : List ℕ) (s : Sums)
      → All IsByte l
      → (round v (l, s) ≡ round w (l, s)) × All IsByte (round w (l, s)).0
  unfolding round
  round-same (a ∷ b ∷ c ∷ d ∷ e ∷ f ∷ g ∷ h ∷ rest) (s1, s2)
        (ha, (hb, (hc, (hd, (he, (hf, (hg, (hh, hr)))))))) =
      (rw (same a b c d ha hb hc hd, same e f g h he hf hg hh) refl, hr)
  round-same [] s h = (refl, h)
  round-same (a ∷ []) s h = (refl, h)
  round-same (a ∷ b ∷ []) s h = (refl, h)
  round-same (a ∷ b ∷ c ∷ []) s h = (refl, h)
  round-same (a ∷ b ∷ c ∷ d ∷ []) s h = (refl, h)
  round-same (a ∷ b ∷ c ∷ d ∷ e ∷ []) s h = (refl, h)
  round-same (a ∷ b ∷ c ∷ d ∷ e ∷ f ∷ []) s h = (refl, h)
  round-same (a ∷ b ∷ c ∷ d ∷ e ∷ f ∷ g ∷ []) s h = (refl, h)

  rounds-same :
      (n : ℕ) (l : List ℕ) (s : Sums) → All IsByte l → rounds n v (l, s) ≡ rounds n w (l, s)
  unfolding rounds
  rounds-same zero l s h = (round-same l s h).0
  rounds-same (suc n) l s h =
      let (first, bytes) = round-same l s h in
      rw first (rounds-same n (round w (l, s)).0 (round w (l, s)).1 bytes)

host_word-integer : (big : Bool) (a b c d : ℕ) → host_word big a b c d ≡ integer big a b c d
unfolding host_word big_word
host_word-integer true a b c d = omega arith
host_word-integer false a b c d = omega arith

sum_pairs-short : (big : Bool) (l : List ℕ) (s : Sums) → length l < 8 → sum_pairs big l s ≡ s
unfolding sum_pairs
sum_pairs-short big (a ∷ b ∷ c ∷ d ∷ e ∷ f ∷ g ∷ h ∷ rest) s k = absurd (omega arith)
sum_pairs-short big [] s k = refl
sum_pairs-short big (a ∷ []) s k = refl
sum_pairs-short big (a ∷ b ∷ []) s k = refl
sum_pairs-short big (a ∷ b ∷ c ∷ []) s k = refl
sum_pairs-short big (a ∷ b ∷ c ∷ d ∷ []) s k = refl
sum_pairs-short big (a ∷ b ∷ c ∷ d ∷ e ∷ []) s k = refl
sum_pairs-short big (a ∷ b ∷ c ∷ d ∷ e ∷ f ∷ []) s k = refl
sum_pairs-short big (a ∷ b ∷ c ∷ d ∷ e ∷ f ∷ g ∷ []) s k = refl

length-take_le : (n : ℕ) (l : List ℕ) → length (take n l) ≤ length l
length-take_le zero l = omega arith
length-take_le (suc n) [] = omega arith
length-take_le (suc n) (x ∷ l) = let ih = length-take_le n l in omega arith

module _ (big : Bool) (n : ℕ) where
  -- One round, on the bytes of it and of those behind.
  Advances : List ℕ → Sums → Type 0
  Advances l s =
      sum_pairs big (take (8 + n) l) s
      ≡ sum_pairs big (take n (round (host_word big) (l, s)).0) (round (host_word big) (l, s)).1

  round-short :
      (l : List ℕ) (s : Sums) → length l < 8 → round (host_word big) (l, s) ≡ (l, s) → Advances l s
  unfolding Advances
  round-short l s k e =
      let m = length-take_le (8 + n) l in
      let m' = length-take_le n l in
      rw e (
        sum_pairs-short big (take (8 + n) l) s (omega arith)
        ∙ sym (sum_pairs-short big (take n l) s (omega arith)))

  round-Advances : (l : List ℕ) (s : Sums) → Advances l s
  unfolding Advances round sum_pairs
  round-Advances (a ∷ b ∷ c ∷ d ∷ e ∷ f ∷ g ∷ h ∷ rest) (s0, s1) =
      let more : 8 + n ≡ suc (suc (suc (suc (suc (suc (suc (suc n))))))) = omega arith in
      let x = integer big a b c d in
      let y = integer big e f g h in
      let first : (s0 + (x + s1)) % 4294967296 ≡ (s0 + x + s1) % 4294967296 = omega arith in
      let t = (s0 + x + s1) % 4294967296 in
      let second : (s1 + (y + t)) % 4294967296 ≡ (s1 + y + t) % 4294967296 = omega arith in
      rw (more, host_word-integer big a b c d, host_word-integer big e f g h, first, second) refl
  round-Advances [] s = round-short [] s (omega arith) refl
  round-Advances (a ∷ []) s = round-short _ s (omega arith) refl
  round-Advances (a ∷ b ∷ []) s = round-short _ s (omega arith) refl
  round-Advances (a ∷ b ∷ c ∷ []) s = round-short _ s (omega arith) refl
  round-Advances (a ∷ b ∷ c ∷ d ∷ []) s = round-short _ s (omega arith) refl
  round-Advances (a ∷ b ∷ c ∷ d ∷ e ∷ []) s = round-short _ s (omega arith) refl
  round-Advances (a ∷ b ∷ c ∷ d ∷ e ∷ f ∷ []) s = round-short _ s (omega arith) refl
  round-Advances (a ∷ b ∷ c ∷ d ∷ e ∷ f ∷ g ∷ []) s = round-short _ s (omega arith) refl

-- The loop computes the sums of the file format.
rounds-sum_pairs :
    (n m : ℕ) (big : Bool) (l : List ℕ) (s : Sums)
    → m ≡ suc n * 8
    → (rounds n (host_word big) (l, s)).1 ≡ sum_pairs big (take m l) s
unfolding rounds Advances sum_pairs
rounds-sum_pairs zero m big l s e =
    let one : m ≡ 8 + 0 = omega arith in rw one (sym (round-Advances big 0 l s))
rounds-sum_pairs (suc n) m big l s e =
    let r = round (host_word big) (l, s) in
    let more : m ≡ 8 + suc n * 8 = omega arith in
    rw more
      (rounds-sum_pairs n (suc n * 8) big r.0 r.1 refl ∙ sym (round-Advances big (suc n * 8) l s))

loop-file_checksum :
    (n n_byte : ℕ) (big : Bool) (a : List ℕ) (s : Sums)
    → n_byte ≡ suc n * 8
    → (rounds n (host_word big) (a, s)).1 ≡ file_checksum big a n_byte s
unfolding file_checksum
loop-file_checksum n n_byte big a s e = rounds-sum_pairs n n_byte big a s e

native-file_checksum :
    (big : Bool) (a : List ℕ) (n_byte : ℕ) (s : Sums)
    → 0 < n_byte
    → n_byte % 8 ≡ 0
    → wal_checksum_bytes big true a n_byte s ≡ file_checksum big a n_byte s
unfolding wal_checksum_bytes
native-file_checksum big a n_byte s some m = elim (ℕ_discrete (n_byte % 64) 0) [
  | yes e ↦
      let n = n_byte / 64 - 1 in
      let eq : (rounds_by_eight n (host_word big) (a, s)).1 ≡ file_checksum big a n_byte s =
        ap (λ r. r.1) (rounds-rounds_by_eight n (host_word big) (a, s))
        ∙ loop-file_checksum (n * 8 + 7) n_byte big a s (omega arith) in
      ground (arith, e, eq)
  | no ne ↦
      let eq = loop-file_checksum (n_byte / 8 - 1) n_byte big a s (omega arith) in
      ground (arith, ne, eq)
]

swapped-file_checksum :
    (big : Bool) (a : List ℕ) (n_byte : ℕ) (s : Sums)
    → All IsByte a
    → 0 < n_byte
    → n_byte % 8 ≡ 0
    → wal_checksum_bytes big false a n_byte s ≡ file_checksum (not big) a n_byte s
unfolding wal_checksum_bytes
swapped-file_checksum big a n_byte s h some m =
    ap (λ r. r.1)
      (rounds-same (λ p q r t. byteswap32 (host_word big p q r t)) (host_word (not big))
        (byteswap32-host_word big) (n_byte / 8 - 1) a s h)
    ∙ loop-file_checksum (n_byte / 8 - 1) n_byte (not big) a s (omega arith)

-- Whatever the byte order of the host, walChecksumBytes computes the checksum that the head of
-- src/wal.c describes, two sums over 32-bit integers in the byte order of the log, with the
-- unrolled loop as with the plain ones, for a number of bytes that is a multiple of 8 and not
-- zero.
pub wal_checksum_bytes-file_checksum :
    (big_host big_end : Bool) (a : List ℕ) (n_byte : ℕ) (s : Sums)
    → All IsByte a
    → 0 < n_byte
    → n_byte % 8 ≡ 0
    → wal_checksum_bytes big_host (is_native big_end big_host) a n_byte s
      ≡ file_checksum big_end a n_byte s
wal_checksum_bytes-file_checksum true true a n s h some m = native-file_checksum true a n s some m
wal_checksum_bytes-file_checksum true false a n s h some m =
    swapped-file_checksum true a n s h some m
wal_checksum_bytes-file_checksum false true a n s h some m =
    swapped-file_checksum false a n s h some m
wal_checksum_bytes-file_checksum false false a n s h some m =
    native-file_checksum false a n s some m

-- Both sums are numbers of 32 bits.
abbrev pub IsSmall : Sums → Type 0
IsSmall (s1, s2) = (s1 < 4294967296) × (s2 < 4294967296)

sum_pairs-IsSmall : (big : Bool) (l : List ℕ) (s : Sums) → IsSmall s → IsSmall (sum_pairs big l s)
unfolding sum_pairs
sum_pairs-IsSmall big (a ∷ b ∷ c ∷ d ∷ e ∷ f ∷ g ∷ h ∷ rest) (s1, s2) small =
    sum_pairs-IsSmall big rest _ (omega arith, omega arith)
sum_pairs-IsSmall big [] s h = h
sum_pairs-IsSmall big (a ∷ []) s h = h
sum_pairs-IsSmall big (a ∷ b ∷ []) s h = h
sum_pairs-IsSmall big (a ∷ b ∷ c ∷ []) s h = h
sum_pairs-IsSmall big (a ∷ b ∷ c ∷ d ∷ []) s h = h
sum_pairs-IsSmall big (a ∷ b ∷ c ∷ d ∷ e ∷ []) s h = h
sum_pairs-IsSmall big (a ∷ b ∷ c ∷ d ∷ e ∷ f ∷ []) s h = h
sum_pairs-IsSmall big (a ∷ b ∷ c ∷ d ∷ e ∷ f ∷ g ∷ []) s h = h

pub file_checksum-IsSmall :
    (big_end : Bool) (a : List ℕ) (n : ℕ) (s : Sums)
    → IsSmall s
    → IsSmall (file_checksum big_end a n s)
unfolding file_checksum
file_checksum-IsSmall big_end a n s h = sum_pairs-IsSmall big_end (take n a) s h
