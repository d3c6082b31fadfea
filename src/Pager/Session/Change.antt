-- ===== src/Pager/Session/Change.antt =====
-- A change of a page, and a spill of one to the log, with the page journalled before: the images of
-- the savepoints stay restorable (src/pager.c, pager_write and pagerStress).
use litebtree.Base.{
  ℕ, suc, ◌≤◌, ◌<◌, ◌≡◌, ◌≢◌, refl, sym, ◌∙◌, ap, arith, true, false, inl, inr, List, [], ◌∷◌, All,
  Option, some, Option-cases, ℕ_discrete,
}
use litebtree.Pager.{Savepoint, Pager, content, on_log, put_at, find_frame, wal_frame}
use litebtree.Pager.Frames.{
  NoNewer, on_log-lookup, lookup, lookup-put_at, put_at-NoNewer, find_frame-some, lookup-miss,
}
use litebtree.Pager.State.{Stack, Agrees, Stack-relogged, relogged}
use litebtree.Pager.Journal.{IsCovered}
use litebtree.Pager.Journal.Record.{not_both}

module _ {D : Type 0} (p : Pager D) (pg : ℕ) where
  -- A state that differs from p in the page alone, as far as its readers can tell.
  pub record DiffersAt (size : ℕ) (cache : ℕ → Option D) (frame : ℕ → ℕ × D) (mx : ℕ)
      (now : List Savepoint) : Type 0 where
    pub longer : p.mx_frame ≤ mx
    pub others : (x : ℕ) → x ≢ pg → content (relogged p size cache frame mx now) x ≡ content p x
    pub unlogged : (x lo : ℕ) → x ≢ pg → NoNewer p.frame x lo p.mx_frame → NoNewer frame x lo mx

  module _ (size : ℕ) (cache : ℕ → Option D) (frame : ℕ → ℕ × D) (mx : ℕ) (now : List Savepoint)
      (differs : DiffersAt size cache frame mx now) where
    covered_other :
        (s : Savepoint) (x : ℕ)
        → (pg ≤ s.n_orig → s.in_savepoint pg ≡ true)
        → x ≤ s.n_orig
        → s.in_savepoint x ≡ false
        → x ≢ pg
    covered_other s x c l u e = not_both (c (rw (← e) l)) (rw (← e) u)

    covered-Agrees :
        (ss : List Savepoint) (images : List (ℕ → D))
        → IsCovered pg ss
        → Stack p ss images
        → All (Agrees p size cache frame mx now) ss
    covered-Agrees [] images c k = tt
    covered-Agrees (s ∷ ss) [] c k = elim k [ ]
    covered-Agrees (s ∷ ss) (im ∷ ims) (c, cs) (h, o, k) = (
      (
        (let a = h.frames in let b = differs.longer in omega arith),
        (λ x l u. differs.others x (covered_other s x c l u)),
        (λ x l u clear. differs.unlogged x s.wal_frames (covered_other s x c l u) clear),
      ),
      covered-Agrees ss ims cs k,
    )

    -- A change of a page that each savepoint has in its set.
    pub Stack-changed :
        (ss : List Savepoint) (images : List (ℕ → D))
        → IsCovered pg ss
        → Stack p ss images
        → Stack (relogged p size cache frame mx now) ss images
    Stack-changed ss images c k =
        Stack-relogged p size cache frame mx now ss images (covered-Agrees ss images c k) k

  pub set_content-DiffersAt :
      (size : ℕ) (d : D)
      → DiffersAt size (put_at pg (some d) p.cache) p.frame p.mx_frame p.savepoints
  unfolding content on_log
  set_content-DiffersAt size d = record {
    longer = omega arith;
    others = λ x n. rw (put_other pg x (some d) p.cache n) refl;
    unlogged = λ x lo n clear. clear;
  }
    where
      put_other : (k n : ℕ) (a : Option D) (f : ℕ → Option D) → n ≢ k → put_at k a f n ≡ f n
      put_other k n a f h = ground (arith, h)

  on_log-other :
      (k x mx : ℕ) (d : D)
      → x ≢ pg
      → (k < p.mx_frame → (p.frame k).0 ≢ x)
      → lookup (put_at k (pg, d) p.frame) (p.file x) x mx ≡ lookup p.frame (p.file x) x p.mx_frame
      → on_log (relogged p p.db_size p.cache (put_at k (pg, d) p.frame) mx p.savepoints) x
        ≡ on_log p x
  on_log-other k x mx d n other e =
      on_log-lookup (relogged p p.db_size p.cache (put_at k (pg, d) p.frame) mx p.savepoints) x
      ∙ e
      ∙ sym (on_log-lookup p x)

  put_here : (k : ℕ) (a : ℕ × D) (f : ℕ → ℕ × D) → put_at k a f k ≡ a
  put_here k a f = ground arith

  -- A frame at the end of the log.
  appended-DiffersAt :
      (d : D)
      → DiffersAt p.db_size p.cache
          (put_at p.mx_frame (pg, d) p.frame)
          (suc p.mx_frame)
          p.savepoints
  unfolding content
  appended-DiffersAt d = record {
    longer = omega arith;
    others = λ x n.
        let frame = put_at p.mx_frame (pg, d) p.frame in
        let own : (frame p.mx_frame).0 ≢ x =
          λ z. n (sym z ∙ ap (λ t. t.0) (put_here p.mx_frame (pg, d) p.frame)) in
        let log =
          on_log-other p.mx_frame x (suc p.mx_frame) d n (λ l. absurd (omega arith))
            (lookup-miss frame (p.file x) x p.mx_frame own
              ∙ lookup-put_at p.frame (p.file x) x p.mx_frame p.mx_frame pg d (λ z. n (sym z))
                  (λ l. absurd (omega arith))) in
        rw log refl;
    unlogged = λ x lo n clear.
        put_at-NoNewer p.frame x lo (suc p.mx_frame) p.mx_frame pg d (λ z. n (sym z))
          (λ i a b m. clear i a (omega arith));
  }

  -- A frame of the page that is written again.
  overwritten-DiffersAt :
      (d : D) (k : ℕ)
      → (p.frame k).0 ≡ pg
      → DiffersAt p.db_size p.cache (put_at k (pg, d) p.frame) p.mx_frame p.savepoints
  unfolding content
  overwritten-DiffersAt d k e = record {
    longer = omega arith;
    others = λ x n.
        let other : (p.frame k).0 ≢ x = λ z. n (sym z ∙ e) in
        let log =
          on_log-other k x p.mx_frame d n (λ l. other)
            (lookup-put_at p.frame (p.file x) x p.mx_frame k pg d (λ z. n (sym z)) (λ l. other)) in
        rw log refl;
    unlogged = λ x lo n clear.
        put_at-NoNewer p.frame x lo p.mx_frame k pg d (λ z. n (sym z)) (λ i a b m. clear i a b);
  }

  -- What a spilled page leaves: every page reads as before.
  pub record IsSpilled (images : List (ℕ → D)) (q : Pager D) : Type 0 where
    pub stack : Stack q q.savepoints images
    pub pages : (x : ℕ) → content q x ≡ content p x
    pub same_size : q.db_size ≡ p.db_size
    pub same_savepoints : q.savepoints ≡ p.savepoints

  same_everywhere :
      (d : D) (frame : ℕ → ℕ × D) (mx : ℕ)
      → p.cache pg ≡ some d
      → DiffersAt p.db_size p.cache frame mx p.savepoints
      → (x : ℕ) → content (relogged p p.db_size p.cache frame mx p.savepoints) x ≡ content p x
  unfolding content
  same_everywhere d frame mx cached differs x = elim (ℕ_discrete x pg) [
    | no n ↦ differs.others x n
    | yes e ↦ let there : p.cache x ≡ some d = ap p.cache e ∙ cached in rw there refl
  ]

  pub wal_frame-IsSpilled :
      (d : D) (images : List (ℕ → D))
      → p.cache pg ≡ some d
      → IsCovered pg p.savepoints
      → Stack p p.savepoints images
      → IsSpilled images (wal_frame pg d p)
  unfolding wal_frame
  wal_frame-IsSpilled d images cached c k = elim (Option-cases (find_frame p.frame pg p.mx_frame)) [
    | inl none_yet ↦
        let differs = appended-DiffersAt d in
        rw (none_yet, wal_frame)
          (record {
            stack =
                Stack-changed p.db_size p.cache (put_at p.mx_frame (pg, d) p.frame) (suc p.mx_frame)
                  p.savepoints differs p.savepoints images c k;
            pages =
                same_everywhere d (put_at p.mx_frame (pg, d) p.frame) (suc p.mx_frame) cached
                  differs;
            same_size = refl;
            same_savepoints = refl;
          })
    | inr (at, found) ↦
        let (l, its) = find_frame-some p.frame pg p.mx_frame at found in
        let differs = overwritten-DiffersAt d at its in
        rw (found, wal_frame)
          (record {
            stack =
                Stack-changed p.db_size p.cache (put_at at (pg, d) p.frame) p.mx_frame p.savepoints
                  differs p.savepoints images c k;
            pages = same_everywhere d (put_at at (pg, d) p.frame) p.mx_frame cached differs;
            same_size = refl;
            same_savepoints = refl;
          })
  ]
