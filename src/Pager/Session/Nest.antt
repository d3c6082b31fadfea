-- ===== src/Pager/Session/Nest.antt =====
-- Savepoints are opened innermost, and released with those inside them (src/pager.c,
-- pagerOpenSavepoint and sqlite3PagerSavepoint).
use litebtree.Base.{
  ℕ, zero, suc, ◌-◌, ◌≤◌, ◌<◌, ◌≡◌, refl, ◌∙◌, arith, true, false, Bool-cases, inl, inr, List, [],
  ◌∷◌, ◌++◌, All-append, ok, length, take, get_elem?, some, if◌then◌else◌,
}
use litebtree.Pager.{
  Savepoint, Pager, content, on_log, new_savepoint, open_more, pager_open_savepoint,
  release_savepoint,
}
use litebtree.Pager.State.{Stack, Holds, Order, Stack-listed}
use litebtree.Pager.Rollback.{All-get, All-take, Stack-get}
use litebtree.Pager.Journal.Record.{not_both}

module _ {D : Type 0} (p : Pager D) where
  -- A savepoint that is opened now restores what the pages of the database are now.
  new-Holds :
      (now : ℕ → D)
      → ((x : ℕ) → x ≤ p.db_size → content p x ≡ now x)
      → Holds p (new_savepoint p) now
  new-Holds now agree = record {
    frames = omega arith;
    records = omega arith;
    same = λ x l u. agree x l;
    unlogged = λ x l u k a b. absurd (omega arith);
    first = λ x l t. absurd (not_both t refl);
    known = λ k a b. absurd (omega arith);
  }

  new-Order :
      (s : Savepoint) (image : ℕ → D)
      → Holds p s image
      → Order p.sub_journal s image (new_savepoint p)
  new-Order s image h = record {
    records = h.records;
    frames = h.frames;
    dispensable = λ flag x l t. h.first x l t;
  }

  appended-Stack :
      (now : ℕ → D) (ss : List Savepoint) (images : List (ℕ → D))
      → ((x : ℕ) → x ≤ p.db_size → content p x ≡ now x)
      → Stack p ss images
      → Stack p (ss ++ (new_savepoint p ∷ [])) (images ++ (now ∷ []))
  appended-Stack now [] [] agree k = (new-Holds now agree, tt, tt)
  appended-Stack now [] (im ∷ ims) agree k = elim k [ ]
  appended-Stack now (s ∷ ss) [] agree k = elim k [ ]
  appended-Stack now (s ∷ ss) (im ∷ ims) agree (h, o, k) = (
    h,
    All-append (Order p.sub_journal s im) ss (new_savepoint p ∷ []) o (new-Order s im h, tt),
    appended-Stack now ss ims agree k,
  )

  abbrev pub with_new : Pager D
  with_new = record p { savepoints = p.savepoints ++ (new_savepoint p ∷ []) }

  pub pager_open_savepoint-with_new :
      pager_open_savepoint (suc (length p.savepoints)) p ≡ (ok, with_new)
  unfolding pager_open_savepoint open_more
  pager_open_savepoint-with_new =
      let one : suc (length p.savepoints) - length p.savepoints ≡ 1 = omega arith in
      rw one (ground arith)

  pub with_new-Stack :
      (now : ℕ → D) (images : List (ℕ → D))
      → ((x : ℕ) → x ≤ p.db_size → content p x ≡ now x)
      → Stack p p.savepoints images
      → Stack with_new with_new.savepoints (images ++ (now ∷ []))
  with_new-Stack now images agree k =
      Stack-listed p p.db_size (p.savepoints ++ (new_savepoint p ∷ []))
        (p.savepoints ++ (new_savepoint p ∷ [])) (images ++ (now ∷ []))
        (appended-Stack now p.savepoints images agree k)

  -- The state behind a release of the savepoint t with the index i.
  module _ (i : ℕ) (t : Savepoint) where
    abbrev pub without : Pager D
    without = record p {
      savepoints = take i p.savepoints;
      n_sub_rec = if t.truncate_on_release then t.sub_rec else p.n_sub_rec;
    }

    pub release_savepoint-without :
        get_elem? p.savepoints i ≡ some t → release_savepoint i p ≡ without
    unfolding release_savepoint
    release_savepoint-without e = rw (e, release_savepoint) refl

    pub without-content : (x : ℕ) → content without x ≡ content p x
    unfolding content on_log
    without-content x = refl

    kept_records : t.truncate_on_release ≡ false → without.n_sub_rec ≡ p.n_sub_rec
    kept_records e = rw e refl

    dropped_records : t.truncate_on_release ≡ true → without.n_sub_rec ≡ t.sub_rec
    dropped_records e = rw e refl

    without-Holds :
        (s : Savepoint) (image : ℕ → D)
        → Holds p s image
        → Order p.sub_journal s image t
        → t.sub_rec ≤ p.n_sub_rec
        → Holds without s image
    without-Holds s image h o l = elim (Bool-cases t.truncate_on_release) [
      | inr e ↦
          let n = kept_records e in
          record {
            frames = h.frames;
            records = rw n h.records;
            same = λ x m u. without-content x ∙ h.same x m u;
            unlogged = h.unlogged;
            first = λ x m u. rw n (h.first x m u);
            known = λ k a b. h.known k a (rw (← n) b);
          }
      | inl e ↦
          let n = dropped_records e in
          record {
            frames = h.frames;
            records = rw n o.records;
            same = λ x m u. without-content x ∙ h.same x m u;
            unlogged = h.unlogged;
            first = λ x m u. rw n (o.dispensable e x m u);
            known = λ k a b. h.known k a (let b' : k < t.sub_rec = rw (← n) b in omega arith);
          }
    ]

    without-Stack :
        (n : ℕ) (ss : List Savepoint) (images : List (ℕ → D))
        → t.sub_rec ≤ p.n_sub_rec
        → get_elem? ss n ≡ some t
        → Stack p ss images
        → Stack without (take n ss) (take n images)
    without-Stack zero ss images l e k = tt
    without-Stack (suc n) [] images l e k = absurd (cc)
    without-Stack (suc n) (s ∷ ss) [] l e k = elim k [ ]
    without-Stack (suc n) (s ∷ ss) (im ∷ ims) l e (h, o, k) = (
      without-Holds s im h (All-get (Order p.sub_journal s im) ss n t o e) l,
      All-take (Order p.sub_journal s im) n ss o,
      without-Stack n ss ims l e k,
    )

    pub release_savepoint-Stack :
        (images : List (ℕ → D))
        → get_elem? p.savepoints i ≡ some t
        → Stack p p.savepoints images
        → Stack without without.savepoints (take i images)
    release_savepoint-Stack images e k =
        let (image, its, h) = Stack-get p p.savepoints images i t k e in
        without-Stack i p.savepoints images h.records e k
