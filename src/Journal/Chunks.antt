-- ===== src/Journal/Chunks.antt =====
-- Chunks of one size (src/memjournal.c, struct FileChunk) as one run of bytes: what finding, cutting
-- and writing a chunk is on that run.
use litebtree.Base.{
  ℕ, zero, suc, ◌+◌, ◌-◌, ◌*◌, ◌%◌, ◌≤◌, ◌<◌, ◌≡◌, refl, ap, sym, ◌∙◌, arith, List, [], ◌∷◌, ◌++◌,
  All, length, take, drop, flat, patch, append_assoc, length-append, drop-append_long,
  take-append_long, patch-append_long, patch-append_short, length-patch,
}
use native.Mathlib.Nat.{mul-add-mod_self_right, mod-eq_of_lt}
use litebtree.Journal.{copy_in}

abbrev pub Sized : ℕ → List (List ℕ) → Type 0
Sized size cs = All (λ c. length c ≡ size) cs

pub mul_suc : (k size : ℕ) → suc k * size ≡ size + k * size
mul_suc k size = omega arith

pub add_mul : (a b size : ℕ) → (a + b) * size ≡ a * size + b * size
add_mul a b size = omega arith

pub sub_mul : (a b size : ℕ) → a ≤ b → b * size ≡ a * size + (b - a) * size
sub_mul a b size h = let e : b ≡ a + (b - a) = omega arith in ap (λ t. t * size) e ∙ omega arith

pub no_chunks : (size : ℕ) (cs : List (List ℕ)) → length cs * size < size → cs ≡ []
no_chunks size [] h = refl
no_chunks size (c ∷ cs) h = let s = mul_suc (length cs) size in absurd (omega arith)

pub length-flat :
    (size : ℕ) (cs : List (List ℕ)) → Sized size cs → length (flat cs) ≡ length cs * size
length-flat size [] h = omega arith
length-flat size (c ∷ cs) (e, h) =
    let l = length-append c (flat cs) in
    let ih = length-flat size cs h in omega (arith, mul_suc (length cs) size)

pub flat-append : (xs bs : List (List ℕ)) → flat (xs ++ bs) ≡ flat xs ++ flat bs
flat-append [] bs = refl
flat-append (a ∷ xs) bs = rw (flat-append xs bs) (sym (append_assoc a (flat xs) (flat bs)))

pub flat-drop :
    (size k : ℕ) (cs : List (List ℕ))
    → Sized size cs
    → k ≤ length cs
    → flat (drop k cs) ≡ drop (k * size) (flat cs)
flat-drop size zero cs h l = let e : 0 * size ≡ 0 = omega arith in rw e refl
flat-drop size (suc k) [] h l = absurd (omega arith)
flat-drop size (suc k) (c ∷ cs) (e, h) l =
    flat-drop size k cs h (omega arith)
    ∙ sym (drop-append_long (suc k * size) (k * size) c (flat cs) (omega (arith, mul_suc k size)))

pub flat-take :
    (size k : ℕ) (cs : List (List ℕ))
    → Sized size cs
    → k ≤ length cs
    → flat (take k cs) ≡ take (k * size) (flat cs)
flat-take size zero cs h l = let e : 0 * size ≡ 0 = omega arith in rw e refl
flat-take size (suc k) [] h l = absurd (omega arith)
flat-take size (suc k) (c ∷ cs) (e, h) l =
    ap (λ t. c ++ t) (flat-take size k cs h (omega arith))
    ∙ sym (take-append_long (suc k * size) (k * size) c (flat cs) (omega (arith, mul_suc k size)))

pub flat-copy_in :
    (size k pos : ℕ) (src : List ℕ) (cs : List (List ℕ))
    → Sized size cs
    → k < length cs
    → pos + length src ≤ size
    → flat (copy_in k pos src cs) ≡ patch (k * size + pos) src (flat cs)
flat-copy_in size k pos src [] h l r = absurd (omega arith)
flat-copy_in size zero pos src (c ∷ cs) (e, h) l r =
    let z : 0 * size + pos ≡ pos = omega arith in
    rw z (sym (patch-append_short pos src c (flat cs) (omega arith)))
flat-copy_in size (suc k) pos src (c ∷ cs) (e, h) l r =
    ap (λ t. c ++ t) (flat-copy_in size k pos src cs h (omega arith) r)
    ∙ sym (
        patch-append_long (suc k * size + pos) (k * size + pos) src c (flat cs)
          (omega (arith, mul_suc k size)))

pub Sized-copy_in :
    (size k pos : ℕ) (src : List ℕ) (cs : List (List ℕ))
    → Sized size cs
    → Sized size (copy_in k pos src cs)
Sized-copy_in size k pos src [] h = tt
Sized-copy_in size zero pos src (c ∷ cs) (e, h) = (length-patch pos src c ∙ e, h)
Sized-copy_in size (suc k) pos src (c ∷ cs) (e, h) = (e, Sized-copy_in size k pos src cs h)

pub length-copy_in :
    (k pos : ℕ) (src : List ℕ) (cs : List (List ℕ)) → length (copy_in k pos src cs) ≡ length cs
length-copy_in k pos src [] = refl
length-copy_in zero pos src (c ∷ cs) = refl
length-copy_in (suc k) pos src (c ∷ cs) = ap suc (length-copy_in k pos src cs)

pub Sized-take : (size k : ℕ) (cs : List (List ℕ)) → Sized size cs → Sized size (take k cs)
Sized-take size zero cs h = tt
Sized-take size (suc k) [] h = tt
Sized-take size (suc k) (c ∷ cs) (e, h) = (e, Sized-take size k cs h)

pub Sized-drop : (size k : ℕ) (cs : List (List ℕ)) → Sized size cs → Sized size (drop k cs)
Sized-drop size zero cs h = h
Sized-drop size (suc k) [] h = tt
Sized-drop size (suc k) (c ∷ cs) (e, h) = Sized-drop size k cs h

-- The offset within a chunk.
pub rem_place : (size k r : ℕ) → r < size → (k * size + r) % size ≡ r
rem_place size k r l = mul-add-mod_self_right k size r ∙ mod-eq_of_lt l
