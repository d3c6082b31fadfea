-- ===== src/Pager/Rollback.antt =====
-- sqlite3PagerSavepoint with SAVEPOINT_ROLLBACK (src/pager.c): the pages get the content that they
-- had when the savepoint was opened, and it and those outside it stay restorable.
use litebtree.Base.{
  ℕ, zero, suc, ◌+◌, ◌-◌, ◌≤◌, ◌≡◌, refl, sym, ◌∙◌, arith, false, Bool-cases, inl, inr, Option,
  some, List, [], ◌∷◌, All, take, get_elem?,
}
use litebtree.Pager.{
  Savepoint, Pager, content, on_log, or_else, playback_loop, playback_savepoint, rollback_savepoint,
}
use litebtree.Pager.Frames.{on_log-lookup, lookup-NoNewer}
use litebtree.Pager.Journal.Record.{not_both}
use litebtree.Pager.Playback.{playback_loop-skip, playback_loop-first}
use litebtree.Pager.State.{Holds, Order, Stack, Agrees, Stack-relogged, relogged}

pub All-get {ℓ κ} :
    {A : Type ℓ} (P : A → Type κ) (xs : List A) (i : ℕ) (x : A)
    → All P xs
    → get_elem? xs i ≡ some x
    → P x
All-get P [] i x h e = absurd (cc)
All-get P (y ∷ ys) zero x (h, hs) e = let same : y ≡ x = cc in rw (← same) h
All-get P (y ∷ ys) (suc i) x (h, hs) e = All-get P ys i x hs e

pub All-take {ℓ κ} :
    {A : Type ℓ} (P : A → Type κ) (n : ℕ) (xs : List A) → All P xs → All P (take n xs)
All-take P zero xs h = tt
All-take P (suc n) [] h = tt
All-take P (suc n) (x ∷ xs) (h, hs) = (h, All-take P n xs hs)

module _ {D : Type 0} (p : Pager D) where
  pub Stack-take :
      (n : ℕ) (ss : List Savepoint) (images : List (ℕ → D))
      → Stack p ss images
      → Stack p (take n ss) (take n images)
  Stack-take zero ss images k = tt
  Stack-take (suc n) [] [] k = tt
  Stack-take (suc n) [] (im ∷ ims) k = elim k [ ]
  Stack-take (suc n) (s ∷ ss) [] k = elim k [ ]
  Stack-take (suc n) (s ∷ ss) (im ∷ ims) (h, o, k) =
      (h, All-take (Order p.sub_journal s im) n ss o, Stack-take n ss ims k)

  -- The image of a savepoint.
  pub Stack-get :
      (ss : List Savepoint) (images : List (ℕ → D)) (i : ℕ) (t : Savepoint)
      → Stack p ss images
      → get_elem? ss i ≡ some t
      → (image : ℕ → D) × (get_elem? images i ≡ some image) × Holds p t image
  Stack-get [] images i t k e = absurd (cc)
  Stack-get (s ∷ ss) [] i t k e = elim k [ ]
  Stack-get (s ∷ ss) (im ∷ ims) zero t (h, o, k) e =
      let same : s ≡ t = cc in (im, refl, rw (← same) h)
  Stack-get (s ∷ ss) (im ∷ ims) (suc i) t (h, o, k) e = Stack-get ss ims i t k e

module _ {D : Type 0} (p : Pager D) (t : Savepoint) (now : List Savepoint)
    (inside : t.wal_frames ≤ p.mx_frame) (recorded : t.sub_rec ≤ p.n_sub_rec) where
  abbrev played : ℕ → Option D
  played =
      playback_loop t.n_orig p.sub_journal (p.n_sub_rec - t.sub_rec) t.sub_rec (λ pg. false) p.cache

  abbrev pub rolled : Pager D
  rolled = relogged p t.n_orig played p.frame t.wal_frames now

  rolled-content : (x : ℕ) → content rolled x ≡ or_else (played x) (on_log rolled x)
  unfolding content
  rolled-content x = refl

  module _ (s : Savepoint) (image : ℕ → D) (h : Holds p s image)
      (frames : s.wal_frames ≤ t.wal_frames) (records : s.sub_rec ≤ t.sub_rec) where
    played-same : (x : ℕ) → x ≤ s.n_orig → s.in_savepoint x ≡ false → played x ≡ p.cache x
    played-same x l u =
        playback_loop-skip t.n_orig p.sub_journal (p.n_sub_rec - t.sub_rec) t.sub_rec (λ pg. false)
          p.cache x
          (λ i a b e.
            let known = h.known i (omega arith) (omega arith) (rw e l) in
            not_both (rw (← e) known) u)

    on_log-same : (x : ℕ) → x ≤ s.n_orig → s.in_savepoint x ≡ false → on_log rolled x ≡ on_log p x
    on_log-same x l u =
        let clear = h.unlogged x l u in
        on_log-lookup rolled x
        ∙ lookup-NoNewer p.frame (p.file x) x s.wal_frames t.wal_frames frames
            (λ k a b. clear k a (omega arith))
        ∙ sym (lookup-NoNewer p.frame (p.file x) x s.wal_frames p.mx_frame (omega arith) clear)
        ∙ sym (on_log-lookup p x)

    rolled-same : (x : ℕ) → x ≤ s.n_orig → s.in_savepoint x ≡ false → content rolled x ≡ content p x
    unfolding content
    rolled-same x l u = rw (played-same x l u, on_log-same x l u) refl

    rolled-Agrees : Agrees p t.n_orig played p.frame t.wal_frames now s
    rolled-Agrees = (frames, rolled-same, λ x l u clear k a b. clear k a (omega arith))

  -- The savepoint itself: its image is back.
  rolled-image :
      (image : ℕ → D) → Holds p t image → (x : ℕ) → x ≤ t.n_orig → content rolled x ≡ image x
  unfolding content
  rolled-image image h x l = elim (Bool-cases (t.in_savepoint x)) [
    | inr u ↦ rolled-same t image h (omega arith) (omega arith) x l u ∙ h.same x l u
    | inl set ↦
        let all : t.sub_rec + (p.n_sub_rec - t.sub_rec) ≡ p.n_sub_rec = omega arith in
        let first = h.first x l set in
        let played_first =
          playback_loop-first t.n_orig p.sub_journal (p.n_sub_rec - t.sub_rec) t.sub_rec
            (λ pg. false) p.cache x (image x) (rw all first) l refl in
        rw played_first refl
  ]

  rolled-All :
      (ss : List Savepoint) (images : List (ℕ → D)) (i : ℕ)
      → Stack p ss images
      → get_elem? ss i ≡ some t
      → All (Agrees p t.n_orig played p.frame t.wal_frames now) (take (suc i) ss)
  rolled-All [] images i k e = absurd (cc)
  rolled-All (s ∷ ss) [] i k e = elim k [ ]
  rolled-All (s ∷ ss) (im ∷ ims) zero (h, o, k) e =
      let same : s ≡ t = cc in
      (rw same (rolled-Agrees t im (rw (← same) h) (omega arith) (omega arith)), tt)
  rolled-All (s ∷ ss) (im ∷ ims) (suc i) (h, o, k) e =
      let order = All-get (Order p.sub_journal s im) ss i t o e in
      (rolled-Agrees s im h order.frames order.records, rolled-All ss ims i k e)

-- What a rollback to the savepoint with the index i leaves, when its image is the i-th.
pub record IsRestored {D : Type 0} (i : ℕ) (p q : Pager D) (images : List (ℕ → D)) : Type 0 where
  pub savepoint : Savepoint
  pub found : get_elem? p.savepoints i ≡ some savepoint
  pub image : ℕ → D
  pub its_image : get_elem? images i ≡ some image
  pub size : q.db_size ≡ savepoint.n_orig
  pub restored : (x : ℕ) → x ≤ q.db_size → content q x ≡ image x
  pub savepoints : q.savepoints ≡ take (suc i) p.savepoints
  pub stack : Stack q q.savepoints (take (suc i) images)

-- On a stack of savepoints, a rollback to one of them gives the database the size and the pages
-- the content that they had when it was opened; the savepoints outside it and itself are kept and
-- can be rolled back to in turn, and those inside it are gone.
pub rollback_savepoint-IsRestored :
    {D : Type 0} (i : ℕ) (p : Pager D) (images : List (ℕ → D)) (t : Savepoint)
    → Stack p p.savepoints images
    → get_elem? p.savepoints i ≡ some t
    → IsRestored i p (rollback_savepoint i p) images
unfolding rollback_savepoint playback_savepoint
rollback_savepoint-IsRestored i p images t k e =
    let (image, its, h) = Stack-get p p.savepoints images i t k e in
    let now = take (suc i) p.savepoints in
    rw (e, rollback_savepoint)
      (record {
        savepoint = t;
        found = e;
        image = image;
        its_image = its;
        size = refl;
        restored = rolled-image p t now h.frames h.records image h;
        savepoints = refl;
        stack =
            Stack-relogged p t.n_orig (played p t now h.frames h.records) p.frame t.wal_frames now
              now (take (suc i) images)
              (rolled-All p t now h.frames h.records p.savepoints images i k e)
              (Stack-take p (suc i) p.savepoints images k);
      })
