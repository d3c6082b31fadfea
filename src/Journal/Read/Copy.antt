-- ===== src/Journal/Read/Copy.antt =====
-- The two loops of memjrnlRead (src/memjournal.c): the one that finds the chunk of an offset, and the
-- one that copies from chunk to chunk.
use litebtree.Base.{
  ℕ, suc, subst, ◌+◌, ◌-◌, ◌*◌, ◌≤◌, ◌<◌, ◌≡◌, refl, ap, ◌∙◌, arith, List, [], ◌∷◌, ◌++◌, Option,
  none, some, length, take, drop, flat, ◌⊎◌, inl, inr, min, dec_lt, ℕ_discrete, dec_le,
  take-append_short, take-append_long, drop-append, length-drop, take_all,
}
use litebtree.Journal.{seek_chunk, copy_out, next_chunk}
use litebtree.Journal.Chunks.{Sized, mul_suc}

-- Where the copy loop ends: behind the last chunk, or at the chunk of the offset behind the copy.
abbrev pub Ends : ℕ → ℕ → ℕ → ℕ → Option ℕ → Type 0
Ends size k count reach r =
    (r ≡ none)
    ⊎ ((d : ℕ) × (r ≡ some (k + d)) × (d < count) × (d * size ≤ reach) × (reach < d * size + size))

module _ (size : ℕ) (some_size : 0 < size) where
  -- The chunk that the loop of memjrnlRead stops at.
  pub seek_chunk_lem :
      (ofst off k : ℕ) (cs : List (List ℕ))
      → off ≤ ofst
      → ofst < off + length cs * size
      → (d : ℕ) × (seek_chunk size ofst off k cs ≡ some (k + d))
        × (d < length cs)
        × (off + d * size ≤ ofst)
        × (ofst < off + (d * size + size))
  unfolding seek_chunk
  seek_chunk_lem ofst off k [] l h = absurd (omega arith)
  seek_chunk_lem ofst off k (c ∷ cs) l h = elim (dec_le (off + size) ofst) [
    | yes m ↦
        let more = mul_suc (length cs) size in
        let (d, e, i, f, t) = seek_chunk_lem ofst (off + size) (suc k) cs m (omega arith) in
        let step = mul_suc d size in
        let there : suc k + d ≡ k + suc d = omega arith in
        (suc d, ground (arith, m, e, there), omega arith, omega arith, omega arith)
    | no m ↦
        let here : k + 0 ≡ k = omega arith in
        (0, ground (arith, m, here), omega arith, omega arith, omega arith)
  ]

  Ends-suc :
      (k count reach : ℕ) (r : Option ℕ)
      → Ends size (suc k) count reach r
      → Ends size k (suc count) (size + reach) r
  Ends-suc k count reach r (inl e) = inl e
  Ends-suc k count reach r (inr (d, e, i, f, t)) =
      let step = mul_suc d size in
      let there : suc k + d ≡ k + suc d = omega arith in
      inr (suc d, e ∙ ap some there, omega arith, omega arith, omega arith)

  next_chunk-Ends :
      (k : ℕ) (cs : List (List ℕ)) → Ends size k (suc (length cs)) size (next_chunk k cs)
  next_chunk-Ends k [] = inl refl
  next_chunk-Ends k (c ∷ cs) =
      let one : suc k ≡ k + 1 = omega arith in
      inr (1, ap some one, omega arith, omega arith, omega arith)

  module _ (k pos n : ℕ) (c : List ℕ) (cs : List (List ℕ)) (l : pos < size)
      (e : length c ≡ size) where
    split : drop pos (c ++ flat cs) ≡ drop pos c ++ flat cs
    split = drop-append pos c (flat cs) (omega arith)

    copy_out_short :
        n < size - pos → copy_out size k pos n (c ∷ cs) ≡ (take n (drop pos (c ++ flat cs)), some k)
    unfolding copy_out
    copy_out_short m =
        let room = length-drop pos c in
        let all : min n (size - pos) ≡ n = omega arith in
        let got = take-append_short n (drop pos c) (flat cs) (omega arith) in
        rw (split, got) (ground (arith, m, all))

    copy_out_even :
        n ≡ size - pos
        → copy_out size k pos n (c ∷ cs) ≡ (take n (drop pos (c ++ flat cs)), next_chunk k cs)
    unfolding copy_out
    copy_out_even m =
        let room = length-drop pos c in
        let all : min n (size - pos) ≡ n = omega arith in
        let got = take-append_short n (drop pos c) (flat cs) (omega arith) in
        rw (split, got) (ground (arith, m, all))

    copy_out_long :
        size - pos < n
        → (copy_out size (suc k) 0 (n - (size - pos)) cs).0 ≡ take (n - (size - pos)) (flat cs)
        → copy_out size k pos n (c ∷ cs)
          ≡ (take n (drop pos (c ++ flat cs)), (copy_out size (suc k) 0 (n - (size - pos)) cs).1)
    unfolding copy_out
    copy_out_long m ih =
        let room = length-drop pos c in
        let all : min n (size - pos) ≡ size - pos = omega arith in
        let first = take_all (size - pos) (drop pos c) (omega arith) in
        let got = take-append_long n (n - (size - pos)) (drop pos c) (flat cs) (omega arith) in
        rw (split, got) (ground (arith, m, all, first, ih))

  -- The copy loop, from a position in the first chunk.
  pub copy_out_lem :
      (k pos n : ℕ) (cs : List (List ℕ))
      → Sized size cs
      → pos < size
      → 0 < n
      → pos + n ≤ length cs * size
      → ((copy_out size k pos n cs).0 ≡ take n (drop pos (flat cs)))
        × Ends size k (length cs) (pos + n) (copy_out size k pos n cs).1
  copy_out_lem k pos n [] h l p r = absurd (omega arith)
  copy_out_lem k pos n (c ∷ cs) (e, h) l p r =
      let more = mul_suc (length cs) size in
      elim (dec_lt n (size - pos)) [
        | yes m ↦
            let here : k ≡ k + 0 = omega arith in
            rw (copy_out_short k pos n c cs l e m)
              (refl, inr (0, ap some here, omega arith, omega arith, omega arith))
        | no m ↦ elim (ℕ_discrete n (size - pos)) [
          | yes m₂ ↦
              let reach : size ≡ pos + n = omega arith in
              rw (copy_out_even k pos n c cs l e m₂) (
                refl,
                subst (λ t. Ends size k (suc (length cs)) t (next_chunk k cs)) reach
                    (next_chunk-Ends k cs),
              )
          | no m₂ ↦
              let (got, ends) =
                copy_out_lem (suc k) 0 (n - (size - pos)) cs h some_size (omega arith)
                  (omega arith) in
              let reach : size + (0 + (n - (size - pos))) ≡ pos + n = omega arith in
              rw (copy_out_long k pos n c cs l e (omega arith) got) (
                refl,
                subst
                    (λ t.
                      Ends size k (suc (length cs)) t
                        (copy_out size (suc k) 0 (n - (size - pos)) cs).1)
                    reach
                    (Ends-suc k (length cs) (0 + (n - (size - pos)))
                      (copy_out size (suc k) 0 (n - (size - pos)) cs).1 ends),
              )
        ]
      ]
