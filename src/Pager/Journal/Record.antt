-- ===== src/Pager/Journal/Record.antt =====
-- A record of a page at the end of the sub-journal (src/pager.c, subjournalPage) keeps the images of
-- the savepoints restorable.
use litebtree.Base.{
  ℕ, suc, ◌≤◌, ◌<◌, ◌≡◌, ◌≢◌, refl, sym, ◌∙◌, ap, subst, arith, Bool, true, false, Bool-cases, inl,
  inr, List, [], ◌∷◌, map, All, ℕ_discrete, dec_le,
}
use litebtree.Pager.{Savepoint, Pager, content, on_log, put_at, keep_on_release, add_to_savepoint}
use litebtree.Pager.State.{First, Holds, Order, Stack}

pub not_both : {b : Bool} → b ≡ true → b ≡ false → ⊥
not_both p q = cc

add_to_savepoint-inside :
    (pg : ℕ) (s : Savepoint)
    → pg ≤ s.n_orig
    → add_to_savepoint pg s ≡ record s { in_savepoint = put_at pg true s.in_savepoint }
add_to_savepoint-inside pg s l = ground (arith, l)

add_to_savepoint-outside : (pg : ℕ) (s : Savepoint) → ¬ (pg ≤ s.n_orig) → add_to_savepoint pg s ≡ s
add_to_savepoint-outside pg s l = ground (arith, l)

add-sub_rec : (pg : ℕ) (s : Savepoint) → (add_to_savepoint pg s).sub_rec ≡ s.sub_rec
add-sub_rec pg s = ground arith

add-wal_frames : (pg : ℕ) (s : Savepoint) → (add_to_savepoint pg s).wal_frames ≡ s.wal_frames
add-wal_frames pg s = ground arith

pub add-n_orig : (pg : ℕ) (s : Savepoint) → (add_to_savepoint pg s).n_orig ≡ s.n_orig
add-n_orig pg s = ground arith

add-truncate :
    (pg : ℕ) (s : Savepoint) → (add_to_savepoint pg s).truncate_on_release ≡ s.truncate_on_release
add-truncate pg s = ground arith

was_set :
    (pg : ℕ) (s : Savepoint)
    → (pg ≤ s.n_orig → s.in_savepoint pg ≡ true)
    → (x : ℕ) → (add_to_savepoint pg s).in_savepoint x ≡ true
    → s.in_savepoint x ≡ true
was_set pg s c x set = elim (dec_le pg s.n_orig) [
  | no m ↦ ground (arith, m, set)
  | yes m ↦ elim (ℕ_discrete x pg) [ yes e ↦ rw e (c m) | no n ↦ ground (arith, m, n, set) ]
]

put_at-same {ℓ} : {A : Type ℓ} (k : ℕ) (a : A) (f : ℕ → A) → put_at k a f k ≡ a
put_at-same k a f = ground arith

put_at-other {ℓ} : {A : Type ℓ} (k n : ℕ) (a : A) (f : ℕ → A) → n ≢ k → put_at k a f n ≡ f n
put_at-other k n a f h = ground (arith, h)

module _ {D : Type 0} where
  -- The record of a page at the end of the sub-journal.
  abbrev pub recorded : ℕ → Pager D → List Savepoint → Pager D
  recorded pg p ss = record p {
    sub_journal = put_at p.n_sub_rec (pg, content p pg) p.sub_journal;
    n_sub_rec = suc p.n_sub_rec;
    savepoints = ss;
  }

  pub recorded-content :
      (pg : ℕ) (p : Pager D) (ss : List Savepoint) (x : ℕ)
      → content (recorded pg p ss) x ≡ content p x
  unfolding content on_log
  recorded-content pg p ss x = refl

  -- A first record stays the first when one is added at the end.
  First-put_at :
      (sub : ℕ → ℕ × D) (lo hi n pg : ℕ) (d : D) (a : ℕ × D)
      → hi ≤ n
      → First sub lo hi pg d
      → First (put_at n a sub) lo hi pg d
  First-put_at sub lo hi n pg d a l f =
      let to = f.to in
      record {
        at = f.at;
        from = f.from;
        to = to;
        there = put_at-other n f.at a sub (λ z. omega arith) ∙ f.there;
        no_earlier = λ k b c. rw (put_at-other n k a sub (λ z. omega arith)) (f.no_earlier k b c);
      }

  First-more :
      (sub : ℕ → ℕ × D) (lo hi hi' pg : ℕ) (d : D)
      → hi ≤ hi'
      → First sub lo hi pg d
      → First sub lo hi' pg d
  First-more sub lo hi hi' pg d l f = record {
    at = f.at;
    from = f.from;
    to = let t = f.to in omega arith;
    there = f.there;
    no_earlier = f.no_earlier;
  }

  module _ (pg : ℕ) (p : Pager D) (ss : List Savepoint) where
    abbrev after : Pager D
    after = recorded pg p ss

    old_record : (k : ℕ) → k < p.n_sub_rec → after.sub_journal k ≡ p.sub_journal k
    old_record k l = put_at-other p.n_sub_rec k (pg, content p pg) p.sub_journal (λ z. omega arith)

    old_first :
        (lo x : ℕ) (d : D)
        → First p.sub_journal lo p.n_sub_rec x d
        → First after.sub_journal lo after.n_sub_rec x d
    old_first lo x d f =
        First-more after.sub_journal lo p.n_sub_rec (suc p.n_sub_rec) x d (omega arith) (
          First-put_at p.sub_journal lo p.n_sub_rec p.n_sub_rec x d (pg, content p pg) (omega arith)
            f)

    -- The record of a page that a savepoint does not have yet is the first one for it.
    new_first :
        (s : Savepoint) (image : ℕ → D)
        → Holds p s image
        → pg ≤ s.n_orig
        → s.in_savepoint pg ≡ false
        → First after.sub_journal s.sub_rec after.n_sub_rec pg (image pg)
    new_first s image h l unset = record {
      at = p.n_sub_rec;
      from = h.records;
      to = omega arith;
      there =
          put_at-same p.n_sub_rec (pg, content p pg) p.sub_journal
          ∙ ap (λ t. (pg, t)) (h.same pg l unset);
      no_earlier = λ k b c e.
          let e' : (p.sub_journal k).0 ≡ pg = rw (← old_record k c) e in
          let known = h.known k b c (rw e' l) in not_both (rw (← e') known) unset;
    }

    -- A savepoint that the page is outside of.
    outside-Holds :
        (s : Savepoint) (image : ℕ → D) → Holds p s image → ¬ (pg ≤ s.n_orig) → Holds after s image
    outside-Holds s image h out = record {
      frames = h.frames;
      records = let r = h.records in omega arith;
      same = λ x l u. recorded-content pg p ss x ∙ h.same x l u;
      unlogged = h.unlogged;
      first = λ x l t. old_first s.sub_rec x (image x) (h.first x l t);
      known = λ k b c l. elim (ℕ_discrete k p.n_sub_rec) [
        | yes e ↦
            let here : (after.sub_journal k).0 ≡ pg =
              rw e (ap (λ t. t.0) (put_at-same p.n_sub_rec (pg, content p pg) p.sub_journal)) in
            absurd (out (rw (← here) l))
        | no n ↦
            let old = old_record k (omega arith) in
            rw old (h.known k b (omega arith) (rw (← old) l))
      ];
    }

    inside-Holds :
        (s : Savepoint) (image : ℕ → D)
        → Holds p s image
        → pg ≤ s.n_orig
        → Holds after (record s { in_savepoint = put_at pg true s.in_savepoint }) image
    inside-Holds s image h in_it = record {
      frames = h.frames;
      records = let r = h.records in omega arith;
      same = λ x l u. recorded-content pg p ss x ∙ h.same x l (was x u);
      unlogged = λ x l u. h.unlogged x l (was x u);
      first = λ x l t. elim (ℕ_discrete x pg) [
        | yes e ↦
            subst (λ y. First after.sub_journal s.sub_rec after.n_sub_rec y (image y)) (sym e)
              (elim (Bool-cases (s.in_savepoint pg)) [
                | inl old ↦ old_first s.sub_rec pg (image pg) (h.first pg in_it old)
                | inr unset ↦ new_first s image h in_it unset
              ])
        | no n ↦
            old_first s.sub_rec x (image x)
              (h.first x l (sym (put_at-other pg x true s.in_savepoint n) ∙ t))
      ];
      known = λ k b c l. elim (ℕ_discrete k p.n_sub_rec) [
        | yes e ↦
            let here : (after.sub_journal k).0 ≡ pg =
              rw e (ap (λ t. t.0) (put_at-same p.n_sub_rec (pg, content p pg) p.sub_journal)) in
            rw here (put_at-same pg true s.in_savepoint)
        | no n ↦
            let old = old_record k (omega arith) in
            rw old (more (p.sub_journal k).0 (h.known k b (omega arith) (rw (← old) l)))
      ];
    }
      where
        unset_other :
            (x : ℕ) → x ≡ pg → put_at pg true s.in_savepoint x ≡ false → s.in_savepoint x ≡ false
        unset_other x e u = ground (arith, e, u)

        was : (x : ℕ) → put_at pg true s.in_savepoint x ≡ false → s.in_savepoint x ≡ false
        was x u = elim (ℕ_discrete x pg) [
          | yes e ↦ unset_other x e u
          | no n ↦ sym (put_at-other pg x true s.in_savepoint n) ∙ u
        ]

        more : (x : ℕ) → s.in_savepoint x ≡ true → put_at pg true s.in_savepoint x ≡ true
        more x t = ground (arith, t)

    pub add_to_savepoint-Holds :
        (s : Savepoint) (image : ℕ → D)
        → Holds p s image
        → Holds after (add_to_savepoint pg s) image
    add_to_savepoint-Holds s image h = elim (dec_le pg s.n_orig) [
      | yes l ↦
          subst (λ t. Holds after t image) (sym (add_to_savepoint-inside pg s l))
            (inside-Holds s image h l)
      | no l ↦
          subst (λ t. Holds after t image) (sym (add_to_savepoint-outside pg s l))
            (outside-Holds s image h l)
    ]

    -- Both savepoints get the page; the order stays where it was in the set of the outer one, or the
    -- inner one is to be kept on release.
    pub add_to_savepoint-Order :
        (s t : Savepoint) (image : ℕ → D)
        → t.sub_rec ≤ p.n_sub_rec
        → (pg ≤ s.n_orig → s.in_savepoint pg ≡ true)
        → Order p.sub_journal s image t
        → Order after.sub_journal (add_to_savepoint pg s) image (add_to_savepoint pg t)
    add_to_savepoint-Order s t image l c o = record {
      records = rw (add-sub_rec pg s, add-sub_rec pg t) o.records;
      frames = rw (add-wal_frames pg s, add-wal_frames pg t) o.frames;
      dispensable = λ flag x m set.
          rw (add-sub_rec pg s, add-sub_rec pg t)
            (First-put_at p.sub_journal s.sub_rec t.sub_rec p.n_sub_rec x (image x)
              (pg, content p pg) l
              (o.dispensable (sym (add-truncate pg t) ∙ flag) x (rw (← add-n_orig pg s) m)
                (was_set pg s c x set)));
    }

    keep_on_release-Order :
        (s t : Savepoint) (image : ℕ → D)
        → Order p.sub_journal s image t
        → Order after.sub_journal
            (add_to_savepoint pg s)
            image
            (add_to_savepoint pg (keep_on_release t))
    keep_on_release-Order s t image o = record {
      records = rw (add-sub_rec pg s, add-sub_rec pg (keep_on_release t)) o.records;
      frames = rw (add-wal_frames pg s, add-wal_frames pg (keep_on_release t)) o.frames;
      dispensable = λ flag x m set. absurd (not_both flag (add-truncate pg (keep_on_release t)));
    }

    pub map-keep_on_release :
        (s : Savepoint) (image : ℕ → D) (ts : List Savepoint)
        → All (Order p.sub_journal s image) ts
        → All
            (Order after.sub_journal (add_to_savepoint pg s) image)
            (map (add_to_savepoint pg) (map keep_on_release ts))
    map-keep_on_release s image [] o = tt
    map-keep_on_release s image (t ∷ ts) (o, os) =
        (keep_on_release-Order s t image o, map-keep_on_release s image ts os)

    pub kept-Holds :
        (s : Savepoint) (image : ℕ → D) → Holds p s image → Holds p (keep_on_release s) image
    kept-Holds s image h = record {
      frames = h.frames;
      records = h.records;
      same = h.same;
      unlogged = h.unlogged;
      first = h.first;
      known = h.known;
    }

    pub keep_outer :
        (s : Savepoint) (image : ℕ → D) (ts : List Savepoint)
        → All (Order p.sub_journal s image) ts
        → All (Order p.sub_journal (keep_on_release s) image) ts
    keep_outer s image [] o = tt
    keep_outer s image (t ∷ ts) (o, os) = (
      record { records = o.records; frames = o.frames; dispensable = o.dispensable },
      keep_outer s image ts os,
    )

    pub map-keep-Stack :
        (ts : List Savepoint) (images : List (ℕ → D))
        → Stack p ts images
        → Stack after (map (add_to_savepoint pg) (map keep_on_release ts)) images
    map-keep-Stack [] [] k = tt
    map-keep-Stack [] (im ∷ ims) k = elim k [ ]
    map-keep-Stack (t ∷ ts) [] k = elim k [ ]
    map-keep-Stack (t ∷ ts) (im ∷ ims) (h, o, k) = (
      add_to_savepoint-Holds (keep_on_release t) im (kept-Holds t im h),
      map-keep_on_release (keep_on_release t) im ts (keep_outer t im ts o),
      map-keep-Stack ts ims k,
    )
