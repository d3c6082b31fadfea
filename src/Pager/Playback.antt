-- ===== src/Pager/Playback.antt =====
-- The playback of the sub-journal (src/pager.c, pager_playback_one_page and the last loop of
-- pagerPlaybackSavepoint): each page gets the content of its first record.
use litebtree.Base.{
  ℕ, zero, suc, ◌+◌, ◌≤◌, ◌<◌, ◌≡◌, ◌≢◌, refl, sym, ◌∙◌, ap, arith, Bool, true, false, Option, some,
  ℕ_discrete,
}
use litebtree.Pager.{playback_one_page, playback_loop}
use litebtree.Pager.State.{First}

module _ {D : Type 0} (size : ℕ) where
  module _ (pg : ℕ) (d : D) (done : ℕ → Bool) (cache : ℕ → Option D) where
    abbrev one : (ℕ → Bool) × (ℕ → Option D)
    one = playback_one_page size (pg, d) done cache

    one-other : (x : ℕ) → pg ≢ x → (one.0 x ≡ done x) × (one.1 x ≡ cache x)
    unfolding playback_one_page
    one-other x n = (ground (arith, n), ground (arith, n))

    one-done : done pg ≡ true → (one.0 ≡ done) × (one.1 ≡ cache)
    unfolding playback_one_page
    one-done t = (ground (arith, t), ground (arith, t))

    one-new : pg ≤ size → done pg ≡ false → (one.0 pg ≡ true) × (one.1 pg ≡ some d)
    unfolding playback_one_page
    one-new l f = (ground (arith, l, f), ground (arith, l, f))

  module _ (sub : ℕ → ℕ × D) where
    -- A page with no record keeps its place in the cache.
    pub playback_loop-skip :
        (n k : ℕ) (done : ℕ → Bool) (cache : ℕ → Option D) (x : ℕ)
        → ((i : ℕ) → k ≤ i → i < k + n → (sub i).0 ≢ x)
        → playback_loop size sub n k done cache x ≡ cache x
    unfolding playback_loop
    playback_loop-skip zero k done cache x h = refl
    playback_loop-skip (suc n) k done cache x h =
        let (d, c) = one-other (sub k).0 (sub k).1 done cache x (h k (omega arith) (omega arith)) in
        playback_loop-skip n (suc k) _ _ x (λ i a b. h i (omega arith) (omega arith)) ∙ c

    -- So does a page that has been played back.
    playback_loop-done :
        (n k : ℕ) (done : ℕ → Bool) (cache : ℕ → Option D) (x : ℕ)
        → done x ≡ true
        → playback_loop size sub n k done cache x ≡ cache x
    unfolding playback_loop
    playback_loop-done zero k done cache x t = refl
    playback_loop-done (suc n) k done cache x t = elim (ℕ_discrete (sub k).0 x) [
      | yes e ↦
          let (d, c) = one-done (sub k).0 (sub k).1 done cache (ap done e ∙ t) in
          playback_loop-done n (suc k) _ _ x (ap (λ f. f x) d ∙ t) ∙ ap (λ f. f x) c
      | no e ↦
          let (d, c) = one-other (sub k).0 (sub k).1 done cache x e in
          playback_loop-done n (suc k) _ _ x (d ∙ t) ∙ c
    ]

    -- The first record of a page decides.
    pub playback_loop-first :
        (n k : ℕ) (done : ℕ → Bool) (cache : ℕ → Option D) (x : ℕ) (d : D)
        → First sub k (k + n) x d
        → x ≤ size
        → done x ≡ false
        → playback_loop size sub n k done cache x ≡ some d
    unfolding playback_loop
    playback_loop-first zero k done cache x d f l u =
        let a = f.from in let b = f.to in absurd (omega arith)
    playback_loop-first (suc n) k done cache x d f l u = elim (ℕ_discrete f.at k) [
      | yes e ↦
          let at_k : sub k ≡ (x, d) = ap sub (sym e) ∙ f.there in
          let (t, c) = one-new x d done cache l u in
          rw at_k (playback_loop-done n (suc k) _ _ x t ∙ c)
      | no e ↦
          let a = f.from in
          let b = f.to in
          let other = f.no_earlier k (omega arith) (omega arith) in
          let (d', c) = one-other (sub k).0 (sub k).1 done cache x other in
          playback_loop-first n (suc k) _ _ x d
            (record {
              at = f.at;
              from = omega arith;
              to = omega arith;
              there = f.there;
              no_earlier = λ i a' b'. f.no_earlier i (omega arith) b';
            })
            l (d' ∙ u)
    ]
