-- ===== src/Pager/State.antt =====
-- What holds of the savepoints of a pager (src/pager.c): how the sub-journal, the log and the cache
-- keep the image that the database had when each was opened.
use litebtree.Base.{ℕ, ◌≤◌, ◌<◌, ◌≡◌, ◌≢◌, refl, ◌∙◌, true, false, Option, List, [], ◌∷◌, All}
use litebtree.Pager.{Savepoint, Pager, content, on_log}
use litebtree.Pager.Frames.{NoNewer}

module _ {D : Type 0} where
  -- The first of the records from lo up to hi that is for a page has this content.
  pub record First (sub : ℕ → ℕ × D) (lo hi pg : ℕ) (d : D) : Type 0 where
    pub at : ℕ
    pub from : lo ≤ at
    pub to : at < hi
    pub there : sub at ≡ (pg, d)
    pub no_earlier : (k : ℕ) → lo ≤ k → k < at → (sub k).0 ≢ pg

  -- A page of the savepoint that is not in its set is as it was, also on the log without the later
  -- frames; the first record of one that is in the set has what it was.
  pub record Holds (p : Pager D) (s : Savepoint) (image : ℕ → D) : Type 0 where
    pub frames : s.wal_frames ≤ p.mx_frame
    pub records : s.sub_rec ≤ p.n_sub_rec
    pub same : (pg : ℕ) → pg ≤ s.n_orig → s.in_savepoint pg ≡ false → content p pg ≡ image pg
    pub unlogged :
        (pg : ℕ)
        → pg ≤ s.n_orig
        → s.in_savepoint pg ≡ false
        → NoNewer p.frame pg s.wal_frames p.mx_frame
    pub first :
        (pg : ℕ)
        → pg ≤ s.n_orig
        → s.in_savepoint pg ≡ true
        → First p.sub_journal s.sub_rec p.n_sub_rec pg (image pg)
    pub known :
        (k : ℕ)
        → s.sub_rec ≤ k
        → k < p.n_sub_rec
        → (p.sub_journal k).0 ≤ s.n_orig
        → s.in_savepoint (p.sub_journal k).0 ≡ true

  -- Of a savepoint s and one that was opened later, t. When the records since t may be dropped on
  -- its release, then s does not need them.
  pub record Order (sub : ℕ → ℕ × D) (s : Savepoint) (image : ℕ → D) (t : Savepoint) : Type 0 where
    pub records : s.sub_rec ≤ t.sub_rec
    pub frames : s.wal_frames ≤ t.wal_frames
    pub dispensable :
        t.truncate_on_release ≡ true
        → (pg : ℕ) → pg ≤ s.n_orig
        → s.in_savepoint pg ≡ true
        → First sub s.sub_rec t.sub_rec pg (image pg)

  -- The savepoints, the outermost first, with the images that they restore.
  abbrev pub Stack : Pager D → List Savepoint → List (ℕ → D) → Type 0
  Stack p [] [] = Unit
  Stack p [] (im ∷ ims) = ⊥
  Stack p (s ∷ ss) [] = ⊥
  Stack p (s ∷ ss) (im ∷ ims) = Holds p s im × All (Order p.sub_journal s im) ss × Stack p ss ims

  -- The pager with another cache, log, size and list of savepoints, and the same sub-journal.
  abbrev pub relogged : Pager D → ℕ → (ℕ → Option D) → (ℕ → ℕ × D) → ℕ → List Savepoint → Pager D
  relogged p size cache frame mx ss = record p {
    db_size = size;
    cache = cache;
    frame = frame;
    mx_frame = mx;
    savepoints = ss;
  }

  module _ (p : Pager D) (size : ℕ) (cache : ℕ → Option D) (frame : ℕ → ℕ × D) (mx : ℕ)
      (now : List Savepoint) where
    abbrev moved : Pager D
    moved = relogged p size cache frame mx now

    -- A savepoint of which the pages outside its set are as before.
    abbrev pub Agrees : Savepoint → Type 0
    Agrees s =
        (s.wal_frames ≤ mx)
        × ((x : ℕ) → x ≤ s.n_orig → s.in_savepoint x ≡ false → content moved x ≡ content p x)
        × ((x : ℕ)
            → x ≤ s.n_orig
            → s.in_savepoint x ≡ false
            → NoNewer p.frame x s.wal_frames p.mx_frame
            → NoNewer frame x s.wal_frames mx)

    pub Holds-relogged :
        (s : Savepoint) (image : ℕ → D) → Agrees s → Holds p s image → Holds moved s image
    Holds-relogged s image (l, same, clear) h = record {
      frames = l;
      records = h.records;
      same = λ x m u. same x m u ∙ h.same x m u;
      unlogged = λ x m u. clear x m u (h.unlogged x m u);
      first = h.first;
      known = h.known;
    }

    pub Stack-relogged :
        (ss : List Savepoint) (images : List (ℕ → D))
        → All Agrees ss
        → Stack p ss images
        → Stack moved ss images
    Stack-relogged [] [] a k = tt
    Stack-relogged [] (im ∷ ims) a k = elim k [ ]
    Stack-relogged (s ∷ ss) [] a k = elim k [ ]
    Stack-relogged (s ∷ ss) (im ∷ ims) (a, r) (h, o, k) =
        (Holds-relogged s im a h, o, Stack-relogged ss ims r k)

  -- Another size and list of savepoints alone.
  pub listed-content :
      (p : Pager D) (size : ℕ) (now : List Savepoint) (x : ℕ)
      → content (record p { db_size = size; savepoints = now }) x ≡ content p x
  unfolding content on_log
  listed-content p size now x = refl

  -- A state with the same log in which every page reads as before.
  module _ (p : Pager D) (size : ℕ) (cache : ℕ → Option D) (now : List Savepoint)
      (same : (x : ℕ)
        → content (relogged p size cache p.frame p.mx_frame now) x ≡ content p x) where
    Stack-Agrees :
        (ss : List Savepoint) (images : List (ℕ → D))
        → Stack p ss images
        → All (Agrees p size cache p.frame p.mx_frame now) ss
    Stack-Agrees [] images k = tt
    Stack-Agrees (s ∷ ss) [] k = elim k [ ]
    Stack-Agrees (s ∷ ss) (im ∷ ims) (h, o, k) =
        ((h.frames, (λ x m u. same x), (λ x m u c. c)), Stack-Agrees ss ims k)

    pub Stack-same :
        (ss : List Savepoint) (images : List (ℕ → D))
        → Stack p ss images
        → Stack (relogged p size cache p.frame p.mx_frame now) ss images
    Stack-same ss images k =
        Stack-relogged p size cache p.frame p.mx_frame now ss images (Stack-Agrees ss images k) k

  pub Stack-listed :
      (p : Pager D) (size : ℕ) (ss now : List Savepoint) (images : List (ℕ → D))
      → Stack p ss images
      → Stack (record p { db_size = size; savepoints = now }) ss images
  Stack-listed p size ss now images k =
      Stack-same p size p.cache now (listed-content p size now) ss images k
