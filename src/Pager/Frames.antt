-- ===== src/Pager/Frames.antt =====
-- What a page reads as on the log of a write transaction (the use of src/wal.c by src/pager.c).
use litebtree.Base.{
  ℕ, zero, suc, ◌+◌, ◌-◌, ◌≤◌, ◌<◌, ◌≡◌, ◌≢◌, refl, sym, ◌∙◌, ap, arith, if◌then◌else◌, ◌==◌, some,
  ℕ_discrete,
}
use litebtree.Pager.{Pager, put_at, find_frame, content_of, on_log}

module _ {D : Type 0} where
  -- The frames from lo up to hi are not for a page.
  abbrev pub NoNewer : (ℕ → ℕ × D) → ℕ → ℕ → ℕ → Type 0
  NoNewer frame pg lo hi = (k : ℕ) → lo ≤ k → k < hi → (frame k).0 ≢ pg

  -- The content of the newest of n frames, directly.
  abbrev pub lookup : (ℕ → ℕ × D) → D → ℕ → ℕ → D
  lookup frame d pg zero = d
  lookup frame d pg (suc n) =
      let rest = lookup frame d pg n in if (frame n).0 == pg then (frame n).1 else rest

  find_frame-lookup :
      (frame : ℕ → ℕ × D) (d : D) (pg n : ℕ)
      → content_of frame d (find_frame frame pg n) ≡ lookup frame d pg n
  unfolding find_frame
  find_frame-lookup frame d pg zero = refl
  find_frame-lookup frame d pg (suc n) = elim (ℕ_discrete (frame n).0 pg) [
    | yes e ↦ ground (arith, e)
    | no e ↦ let ih = find_frame-lookup frame d pg n in ground (arith, e, ih)
  ]

  pub on_log-lookup :
      (p : Pager D) (pg : ℕ) → on_log p pg ≡ lookup p.frame (p.file pg) pg p.mx_frame
  unfolding on_log
  on_log-lookup p pg = find_frame-lookup p.frame (p.file pg) pg p.mx_frame

  pub find_frame-some :
      (frame : ℕ → ℕ × D) (pg n k : ℕ)
      → find_frame frame pg n ≡ some k
      → (k < n) × ((frame k).0 ≡ pg)
  unfolding find_frame
  find_frame-some frame pg zero k h = absurd (cc)
  find_frame-some frame pg (suc n) k h = elim (ℕ_discrete (frame n).0 pg) [
    | yes e ↦ let same : n ≡ k = ground (arith, e, h) in (omega arith, rw (← same) e)
    | no e ↦
        let below : find_frame frame pg n ≡ some k = ground (arith, e, h) in
        let (l, at) = find_frame-some frame pg n k below in (omega arith, at)
  ]

  lookup-more :
      (frame : ℕ → ℕ × D) (d : D) (pg lo m : ℕ)
      → NoNewer frame pg lo (m + lo)
      → lookup frame d pg (m + lo) ≡ lookup frame d pg lo
  lookup-more frame d pg lo zero h = let e : 0 + lo ≡ lo = omega arith in rw e refl
  lookup-more frame d pg lo (suc m) h =
      let e : suc m + lo ≡ suc (m + lo) = omega arith in
      let other = h (m + lo) (omega arith) (omega arith) in
      let ih = lookup-more frame d pg lo m (λ k a b. h k a (omega arith)) in
      rw (e, ← ih) (ground (arith, other))

  -- Frames for other pages make no difference.
  pub lookup-NoNewer :
      (frame : ℕ → ℕ × D) (d : D) (pg lo hi : ℕ)
      → lo ≤ hi
      → NoNewer frame pg lo hi
      → lookup frame d pg hi ≡ lookup frame d pg lo
  lookup-NoNewer frame d pg lo hi l h =
      let e : hi ≡ (hi - lo) + lo = omega arith in
      ap (lookup frame d pg) e ∙ lookup-more frame d pg lo (hi - lo) (λ k a b. h k a (omega arith))

  put_at-other : (frame : ℕ → ℕ × D) (k n : ℕ) (a : ℕ × D) → n ≢ k → put_at k a frame n ≡ frame n
  put_at-other frame k n a h = ground (arith, h)

  put_at-same : (frame : ℕ → ℕ × D) (k : ℕ) (a : ℕ × D) → put_at k a frame k ≡ a
  put_at-same frame k a = ground arith

  pub lookup-miss :
      (frame : ℕ → ℕ × D) (d : D) (pg n : ℕ)
      → (frame n).0 ≢ pg
      → lookup frame d pg (suc n) ≡ lookup frame d pg n
  lookup-miss frame d pg n h = ground (arith, h)

  pub lookup-put_at :
      (frame : ℕ → ℕ × D) (d : D) (pg n k pg' : ℕ) (d' : D)
      → pg' ≢ pg
      → (k < n → (frame k).0 ≢ pg)
      → lookup (put_at k (pg', d') frame) d pg n ≡ lookup frame d pg n
  lookup-put_at frame d pg zero k pg' d' h other = refl
  lookup-put_at frame d pg (suc n) k pg' d' h other =
      let ih = lookup-put_at frame d pg n k pg' d' h (λ l. other (omega arith)) in
      elim (ℕ_discrete n k) [
        | yes e ↦
            let here : (put_at k (pg', d') frame n).0 ≡ pg' =
              rw e (ap (λ t. t.0) (put_at-same frame k (pg', d'))) in
            let old : (frame n).0 ≢ pg = rw e (other (omega arith)) in
            lookup-miss (put_at k (pg', d') frame) d pg n (λ z. h (sym here ∙ z))
            ∙ ih
            ∙ sym (lookup-miss frame d pg n old)
        | no e ↦ rw (put_at-other frame k n (pg', d') e) (ground (arith, ih))
      ]

  -- A frame that is written for another page hides no frame.
  pub put_at-NoNewer :
      (frame : ℕ → ℕ × D) (pg lo hi k pg' : ℕ) (d' : D)
      → pg' ≢ pg
      → ((i : ℕ) → lo ≤ i → i < hi → i ≢ k → (frame i).0 ≢ pg)
      → NoNewer (put_at k (pg', d') frame) pg lo hi
  put_at-NoNewer frame pg lo hi k pg' d' h other i a b = elim (ℕ_discrete i k) [
    | yes e ↦ rw (e, put_at-same frame k (pg', d')) h
    | no e ↦ rw (put_at-other frame k i (pg', d') e) (other i a b e)
  ]
