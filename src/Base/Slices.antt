-- ===== src/Base/Slices.antt =====
-- Lemmas on the parts of a list, and the copy of bytes over a part of it (memcpy).
use Prim.Native.Nat.{ℕ, zero, suc, ◌+◌, ◌-◌, ◌≤◌}
use mathlib.Core.List.{List, [], ◌∷◌, ◌++◌}
use mathlib.Core.Path.{◌≡◌, refl, ap}
use native.Mathlib.Omega.{arith}
use litebtree.Base.Lists.{length, take, drop}

module _ {ℓ} {A : Type ℓ} where
  -- A list of blocks as one list.
  abbrev pub flat : List (List A) → List A
  flat [] = []
  flat (c ∷ cs) = c ++ flat cs

  -- The bytes src over those of dst from a position on.
  abbrev pub patch : ℕ → List A → List A → List A
  patch zero [] dst = dst
  patch zero (x ∷ src) [] = []
  patch zero (x ∷ src) (y ∷ dst) = x ∷ patch zero src dst
  patch (suc n) src [] = []
  patch (suc n) src (y ∷ dst) = y ∷ patch n src dst

  pub length-take : (n : ℕ) (xs : List A) → n ≤ length xs → length (take n xs) ≡ n
  length-take zero xs h = refl
  length-take (suc n) [] h = absurd (omega arith)
  length-take (suc n) (x ∷ xs) h = ap suc (length-take n xs (omega arith))

  pub length-drop : (n : ℕ) (xs : List A) → length (drop n xs) ≡ length xs - n
  length-drop zero xs = omega arith
  length-drop (suc n) [] = omega arith
  length-drop (suc n) (x ∷ xs) = omega (arith, length-drop n xs)

  pub length-patch : (n : ℕ) (src dst : List A) → length (patch n src dst) ≡ length dst
  length-patch zero [] dst = refl
  length-patch zero (x ∷ src) [] = refl
  length-patch zero (x ∷ src) (y ∷ dst) = ap suc (length-patch zero src dst)
  length-patch (suc n) src [] = refl
  length-patch (suc n) src (y ∷ dst) = ap suc (length-patch n src dst)

  pub append_nil : (xs : List A) → xs ++ [] ≡ xs
  append_nil [] = refl
  append_nil (x ∷ xs) = ap (λ t. x ∷ t) (append_nil xs)

  pub append_assoc : (xs ys zs : List A) → (xs ++ ys) ++ zs ≡ xs ++ (ys ++ zs)
  append_assoc [] ys zs = refl
  append_assoc (x ∷ xs) ys zs = ap (λ t. x ∷ t) (append_assoc xs ys zs)

  pub take_all : (n : ℕ) (xs : List A) → length xs ≤ n → take n xs ≡ xs
  take_all zero [] h = refl
  take_all zero (x ∷ xs) h = absurd (omega arith)
  take_all (suc n) [] h = refl
  take_all (suc n) (x ∷ xs) h = ap (λ t. x ∷ t) (take_all n xs (omega arith))

  pub take-append_short : (n : ℕ) (xs ys : List A) → n ≤ length xs → take n (xs ++ ys) ≡ take n xs
  take-append_short zero xs ys h = refl
  take-append_short (suc n) [] ys h = absurd (omega arith)
  take-append_short (suc n) (x ∷ xs) ys h =
      ap (λ t. x ∷ t) (take-append_short n xs ys (omega arith))

  pub take-append_long :
      (n k : ℕ) (xs ys : List A) → n ≡ length xs + k → take n (xs ++ ys) ≡ xs ++ take k ys
  take-append_long n k [] ys h = let e : n ≡ k = omega arith in rw e refl
  take-append_long zero k (x ∷ xs) ys h = absurd (omega arith)
  take-append_long (suc n) k (x ∷ xs) ys h =
      ap (λ t. x ∷ t) (take-append_long n k xs ys (omega arith))

  pub drop-append : (n : ℕ) (xs ys : List A) → n ≤ length xs → drop n (xs ++ ys) ≡ drop n xs ++ ys
  drop-append zero xs ys h = refl
  drop-append (suc n) [] ys h = absurd (omega arith)
  drop-append (suc n) (x ∷ xs) ys h = drop-append n xs ys (omega arith)

  pub drop-append_long :
      (n k : ℕ) (xs ys : List A) → n ≡ length xs + k → drop n (xs ++ ys) ≡ drop k ys
  drop-append_long n k [] ys h = let e : n ≡ k = omega arith in rw e refl
  drop-append_long zero k (x ∷ xs) ys h = absurd (omega arith)
  drop-append_long (suc n) k (x ∷ xs) ys h = drop-append_long n k xs ys (omega arith)

  pub take-take : (n m : ℕ) (xs : List A) → n ≤ m → take n (take m xs) ≡ take n xs
  take-take zero m xs h = refl
  take-take (suc n) zero xs h = absurd (omega arith)
  take-take (suc n) (suc m) [] h = refl
  take-take (suc n) (suc m) (x ∷ xs) h = ap (λ t. x ∷ t) (take-take n m xs (omega arith))

  pub take-drop_append : (n : ℕ) (xs : List A) → take n xs ++ drop n xs ≡ xs
  take-drop_append zero xs = refl
  take-drop_append (suc n) [] = refl
  take-drop_append (suc n) (x ∷ xs) = ap (λ t. x ∷ t) (take-drop_append n xs)

  pub take-add : (n m : ℕ) (xs : List A) → take (n + m) xs ≡ take n xs ++ take m (drop n xs)
  take-add zero m xs = let e : 0 + m ≡ m = omega arith in rw e refl
  take-add (suc n) zero [] = let e : suc n + 0 ≡ suc n = omega arith in rw e refl
  take-add (suc n) (suc m) [] = let e : suc n + suc m ≡ suc (n + suc m) = omega arith in rw e refl
  take-add (suc n) m (x ∷ xs) =
      let e : suc n + m ≡ suc (n + m) = omega arith in rw e (ap (λ t. x ∷ t) (take-add n m xs))

  pub take-drop-take :
      (n k m : ℕ) (xs : List A) → n + k ≤ m → take n (drop k (take m xs)) ≡ take n (drop k xs)
  take-drop-take n zero m xs h = take-take n m xs (omega arith)
  take-drop-take n (suc k) zero xs h = absurd (omega arith)
  take-drop-take n (suc k) (suc m) [] h = refl
  take-drop-take n (suc k) (suc m) (x ∷ xs) h = take-drop-take n k m xs (omega arith)

  -- What stands in front of the end of a copied part.
  pub take-patch :
      (n m : ℕ) (src dst : List A)
      → m ≡ n + length src
      → m ≤ length dst
      → take m (patch n src dst) ≡ take n dst ++ src
  take-patch zero m [] dst e h = let z : m ≡ 0 = omega arith in rw z refl
  take-patch zero m (x ∷ src) [] e h = absurd (omega arith)
  take-patch zero zero (x ∷ src) (y ∷ dst) e h = absurd (omega arith)
  take-patch zero (suc m) (x ∷ src) (y ∷ dst) e h =
      ap (λ t. x ∷ t) (take-patch zero m src dst (omega arith) (omega arith))
  take-patch (suc n) m src [] e h = absurd (omega arith)
  take-patch (suc n) zero src (y ∷ dst) e h = absurd (omega arith)
  take-patch (suc n) (suc m) src (y ∷ dst) e h =
      ap (λ t. y ∷ t) (take-patch n m src dst (omega arith) (omega arith))

  pub patch-append_short :
      (n : ℕ) (src xs ys : List A)
      → n + length src ≤ length xs
      → patch n src (xs ++ ys) ≡ patch n src xs ++ ys
  patch-append_short zero [] xs ys h = refl
  patch-append_short zero (x ∷ src) [] ys h = absurd (omega arith)
  patch-append_short zero (x ∷ src) (y ∷ xs) ys h =
      ap (λ t. x ∷ t) (patch-append_short zero src xs ys (omega arith))
  patch-append_short (suc n) src [] ys h = absurd (omega arith)
  patch-append_short (suc n) src (y ∷ xs) ys h =
      ap (λ t. y ∷ t) (patch-append_short n src xs ys (omega arith))

  pub patch-append_long :
      (n k : ℕ) (src xs ys : List A)
      → n ≡ length xs + k
      → patch n src (xs ++ ys) ≡ xs ++ patch k src ys
  patch-append_long n k src [] ys h = let e : n ≡ k = omega arith in rw e refl
  patch-append_long zero k src (x ∷ xs) ys h = absurd (omega arith)
  patch-append_long (suc n) k src (x ∷ xs) ys h =
      ap (λ t. x ∷ t) (patch-append_long n k src xs ys (omega arith))

  pub patch-take :
      (m : ℕ) (src dst : List A)
      → length src ≤ m
      → take m (patch 0 src dst) ≡ patch 0 src (take m dst)
  patch-take m [] dst h = refl
  patch-take zero (x ∷ src) dst h = absurd (omega arith)
  patch-take (suc m) (x ∷ src) [] h = refl
  patch-take (suc m) (x ∷ src) (y ∷ dst) h = ap (λ t. x ∷ t) (patch-take m src dst (omega arith))
