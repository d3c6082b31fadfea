-- ===== src/Btree/Key.antt =====
-- Byte-string keys and their order: the comparison of kvKeyCompareCell (src/btree.c), which is
-- memcmp over the shorter length with the length as the tiebreak.
use litebtree.Base.{
  ℕ, zero, suc, ◌≡◌, refl, List, [], ◌∷◌, arith, ltb, length, if◌then◌else◌, ◌⊎◌, inl, inr,
}

-- The sign of a C comparison result.
pub data Sign : Type 0 where
  neg nil pos : Sign

abbrev pub Key : Type 0
Key = List ℕ

-- memcmp(a, b, n): the first differing byte decides. Bytes beyond the end of a list are never
-- read by the caller; the clauses there give `nil`.
unfoldable pub memcmp : Key → Key → ℕ → Sign
memcmp xs ys zero = nil
memcmp [] ys (suc n) = nil
memcmp (x ∷ xs) [] (suc n) = nil
memcmp (x ∷ xs) (y ∷ ys) (suc n) = if ltb x y then neg else if ltb y x then pos else memcmp xs ys n

-- The sign of the int difference a - b of two lengths.
unfoldable pub sign_diff : ℕ → ℕ → Sign
sign_diff a b = if ltb a b then neg else if ltb b a then pos else nil

-- kvKeyCompareCell, from the key of the cell on: the shorter length, memcmp, then the lengths.
unfoldable pub kv_key_compare : Key → Key → Sign
unfolding memcmp sign_diff
kv_key_compare cell key =
    let n = if ltb (length cell) (length key) then length cell else length key in
    elim (memcmp cell key n) [ neg ↦ neg | pos ↦ pos | nil ↦ sign_diff (length cell) (length key) ]

-- The order that the format promises: lexicographic on bytes, a proper prefix first.
unfoldable pub lex : Key → Key → Sign
lex [] [] = nil
lex [] (y ∷ ys) = neg
lex (x ∷ xs) [] = pos
lex (x ∷ xs) (y ∷ ys) = if ltb x y then neg else if ltb y x then pos else lex xs ys

-- The comparison by memcmp over the shorter length and then by the lengths is the lexicographic
-- order on byte strings, in which a proper prefix comes first.
pub kv_key_compare-lex : (cell key : Key) → kv_key_compare cell key ≡ lex cell key
unfolding kv_key_compare lex
kv_key_compare-lex [] [] = refl
kv_key_compare-lex [] (y ∷ ys) = ground arith
kv_key_compare-lex (x ∷ xs) [] = ground arith
kv_key_compare-lex (x ∷ xs) (y ∷ ys) = ground (arith, kv_key_compare-lex xs ys)

pub lex_refl : (a : Key) → lex a a ≡ nil
unfolding lex
lex_refl [] = refl
lex_refl (x ∷ xs) = ground (arith, lex_refl xs)

pub lex_eq : (a b : Key) → lex a b ≡ nil → a ≡ b
unfolding lex
lex_eq [] [] h = refl
lex_eq [] (y ∷ ys) h = cc
lex_eq (x ∷ xs) [] h = cc
lex_eq (x ∷ xs) (y ∷ ys) h = ground (arith, lex_eq xs ys)

abbrev pub flip : Sign → Sign
flip neg = pos
flip nil = nil
flip pos = neg

pub lex-flip : (a b : Key) → lex b a ≡ flip (lex a b)
unfolding lex
lex-flip [] [] = refl
lex-flip [] (y ∷ ys) = refl
lex-flip (x ∷ xs) [] = refl
lex-flip (x ∷ xs) (y ∷ ys) = ground (arith, lex-flip xs ys)

pub lex_trans : (a b c : Key) → lex a b ≡ neg → lex b c ≡ neg → lex a c ≡ neg
unfolding lex
lex_trans [] [] c h k = cc
lex_trans [] (y ∷ ys) [] h k = cc
lex_trans [] (y ∷ ys) (z ∷ zs) h k = refl
lex_trans (x ∷ xs) [] c h k = cc
lex_trans (x ∷ xs) (y ∷ ys) [] h k = cc
lex_trans (x ∷ xs) (y ∷ ys) (z ∷ zs) h k = ground (arith, lex_trans xs ys zs)

-- A split on a computed sign that keeps the equation.
pub Sign-cases : (s : Sign) → (s ≡ neg) ⊎ (s ≡ nil) ⊎ (s ≡ pos)
Sign-cases neg = inl refl
Sign-cases nil = inr (inl refl)
Sign-cases pos = inr (inr refl)

-- The same relations, by the other side's sign.
pub lex_pos : (a b : Key) → lex a b ≡ pos → lex b a ≡ neg
lex_pos a b h = cc (lex-flip a b)

pub lex_neg : (a b : Key) → lex a b ≡ neg → lex b a ≡ pos
lex_neg a b h = cc (lex-flip a b)

pub lex_trans_pos : (a b c : Key) → lex a b ≡ pos → lex b c ≡ pos → lex a c ≡ pos
lex_trans_pos a b c h k = lex_neg c a (lex_trans c b a (lex_pos b c k) (lex_pos a b h))
