-- ===== src/Pager.antt =====
-- Savepoints of the pager with a write-ahead log (src/pager.c): the sub-journal keeps the content
-- that pages had when a savepoint was opened, and a rollback plays it back.
use litebtree.Base.{
  ℕ, zero, suc, ◌+◌, ◌-◌, ◌≡◌, Bool, true, false, not, ◌&&◌, ◌||◌, if◌then◌else◌, ltb, leb, ◌==◌,
  max, List, [], ◌∷◌, ◌++◌, map, Option, none, some, Rc, ok, is_ok, length, take, get_elem?,
}
mod Frames
mod State
pub mod Journal
mod Playback
pub mod Rollback
pub mod Session

-- A function changed at one place.
abbrev pub put_at {ℓ} : {A : Type ℓ} → ℕ → A → (ℕ → A) → ℕ → A
put_at k a f n = if n == k then a else f n

-- struct PagerSavepoint, with the bit vector as a set and aWalData as the number of frames.
pub record Savepoint : Type 0 where
  pub n_orig : ℕ
  pub in_savepoint : ℕ → Bool
  pub sub_rec : ℕ
  pub truncate_on_release : Bool
  pub wal_frames : ℕ

-- The frames of the write transaction in the log, and what a page reads as without them. The
-- sub-journal is its records by their index, of which the first n_sub_rec are in use.
pub record Pager (D : Type 0) : Type 0 where
  pub db_size : ℕ
  pub cache : ℕ → Option D
  pub file : ℕ → D
  pub frame : ℕ → ℕ × D
  pub mx_frame : ℕ
  pub sub_journal : ℕ → ℕ × D
  pub n_sub_rec : ℕ
  pub savepoints : List Savepoint

module _ {D : Type 0} where
  -- The newest of the first n frames that is for a page.
  unfoldable pub find_frame : (ℕ → ℕ × D) → ℕ → ℕ → Option ℕ
  find_frame frame pg zero = none
  find_frame frame pg (suc n) =
      let rest = find_frame frame pg n in if (frame n).0 == pg then some n else rest

  abbrev pub content_of : (ℕ → ℕ × D) → D → Option ℕ → D
  content_of frame d none = d
  content_of frame d (some k) = (frame k).1

  unfoldable pub on_log : Pager D → ℕ → D
  unfolding find_frame
  on_log p pg = content_of p.frame (p.file pg) (find_frame p.frame pg p.mx_frame)

  abbrev pub or_else : Option D → D → D
  or_else none d = d
  or_else (some c) d = c

  -- What sqlite3PagerGet gives for a page within the size of the database.
  unfoldable pub content : Pager D → ℕ → D
  unfolding on_log
  content p pg = or_else (p.cache pg) (on_log p pg)

-- The loop of subjRequiresPage: whether a savepoint requires the page, and the savepoints, with
-- bTruncateOnRelease cleared behind the one that does.
abbrev pub keep_on_release : Savepoint → Savepoint
keep_on_release s = record s { truncate_on_release = false }

unfoldable pub subj_requires_page : ℕ → List Savepoint → Bool × List Savepoint
subj_requires_page pg [] = (false, [])
subj_requires_page pg (s ∷ ss) =
    let rest = subj_requires_page pg ss in
    if leb pg s.n_orig && not (s.in_savepoint pg)
    then (true, s ∷ map keep_on_release ss)
    else (rest.0, s ∷ rest.1)

abbrev pub add_to_savepoint : ℕ → Savepoint → Savepoint
add_to_savepoint pg s =
    if leb pg s.n_orig then record s { in_savepoint = put_at pg true s.in_savepoint } else s

unfoldable pub add_to_savepoint_bitvecs : ℕ → List Savepoint → List Savepoint
add_to_savepoint_bitvecs pg ss = map (add_to_savepoint pg) ss

module _ {D : Type 0} where
  -- The result of the write to the sub-journal is given.
  unfoldable pub subjournal_page : Rc → ℕ → Pager D → Rc × Pager D
  unfolding content add_to_savepoint_bitvecs
  subjournal_page io pg p =
      if is_ok io
      then (
        ok,
        record p {
          sub_journal = put_at p.n_sub_rec (pg, content p pg) p.sub_journal;
          n_sub_rec = suc p.n_sub_rec;
          savepoints = add_to_savepoint_bitvecs pg p.savepoints;
        },
      )
      else (io, p)

  unfoldable pub subjournal_page_if_required : Rc → ℕ → Pager D → Rc × Pager D
  unfolding subj_requires_page subjournal_page
  subjournal_page_if_required io pg p =
      let r = subj_requires_page pg p.savepoints in
      let q = record p { savepoints = r.1 } in if r.0 then subjournal_page io pg q else (ok, q)

  -- sqlite3PagerWrite for pages of the size of a sector: as in pager_write the database grows up to
  -- the page; where that is not called, the page is inside the database already.
  unfoldable pub pager_write : Rc → ℕ → Pager D → Rc × Pager D
  unfolding subjournal_page_if_required
  pager_write io pg p =
      let r =
        if ltb 0 (length p.savepoints) then subjournal_page_if_required io pg p else (ok, p) in
      (r.0, record r.1 { db_size = if ltb r.1.db_size pg then pg else r.1.db_size })

  -- The change that the caller makes to a page.
  unfoldable pub set_content : ℕ → D → Pager D → Pager D
  set_content pg d p = record p { cache = put_at pg (some d) p.cache }

  -- A single frame for a page: over an earlier one of the transaction, or at the end of the log.
  unfoldable pub wal_frame : ℕ → D → Pager D → Pager D
  unfolding find_frame
  wal_frame pg d p = elim (find_frame p.frame pg p.mx_frame) [
    | some k ↦ record p { frame = put_at k (pg, d) p.frame }
    | none ↦ record p { frame = put_at p.mx_frame (pg, d) p.frame; mx_frame = suc p.mx_frame }
  ]

  -- pagerStress with a log, for a page that may be spilled. The results of the write to the
  -- sub-journal and of that to the log are given.
  unfoldable pub pager_stress : Rc → Rc → ℕ → Pager D → Rc × Pager D
  unfolding subjournal_page_if_required wal_frame content
  pager_stress io io_log pg p =
      let r = subjournal_page_if_required io pg p in
      if is_ok r.0
      then (if is_ok io_log then (ok, wal_frame pg (content p pg) r.1) else (io_log, r.1))
      else r

  abbrev pub new_savepoint : Pager D → Savepoint
  new_savepoint p = record {
    n_orig = p.db_size;
    in_savepoint = λ pg. false;
    sub_rec = p.n_sub_rec;
    truncate_on_release = true;
    wal_frames = p.mx_frame;
  }

  -- The loop of pagerOpenSavepoint, once for each savepoint that is missing.
  unfoldable pub open_more : ℕ → Pager D → Pager D
  open_more zero p = p
  open_more (suc n) p =
      open_more n (record p { savepoints = p.savepoints ++ (new_savepoint p ∷ []) })

  unfoldable pub pager_open_savepoint : ℕ → Pager D → Rc × Pager D
  unfolding open_more
  pager_open_savepoint n p =
      if ltb (length p.savepoints) n then (ok, open_more (n - length p.savepoints) p) else (ok, p)

  -- pager_playback_one_page for a record of the sub-journal, with a log: the pages that have been
  -- played back and the cache are given.
  unfoldable pub playback_one_page :
      ℕ → ℕ × D → (ℕ → Bool) → (ℕ → Option D) → (ℕ → Bool) × (ℕ → Option D)
  playback_one_page size (pg, d) done cache =
      if ltb size pg || done pg
      then (done, cache)
      else (put_at pg true done, put_at pg (some d) cache)

  -- The loop over n records of the sub-journal from the index k.
  unfoldable pub playback_loop :
      ℕ → (ℕ → ℕ × D) → ℕ → ℕ → (ℕ → Bool) → (ℕ → Option D) → ℕ → Option D
  unfolding playback_one_page
  playback_loop size sub zero k done cache = cache
  playback_loop size sub (suc n) k done cache =
      let r = playback_one_page size (sub k) done cache in playback_loop size sub n (suc k) r.0 r.1

  -- pagerPlaybackSavepoint with a log: the size of the database, the position in the log, and then
  -- the records of the sub-journal.
  unfoldable pub playback_savepoint : Savepoint → Pager D → Pager D
  unfolding playback_loop
  playback_savepoint s p = record p {
    db_size = s.n_orig;
    mx_frame = s.wal_frames;
    cache =
        playback_loop s.n_orig p.sub_journal (p.n_sub_rec - s.sub_rec) s.sub_rec (λ pg. false)
          p.cache;
  }

  -- sqlite3PagerSavepoint, for a savepoint that is not negative.
  unfoldable pub release_savepoint : ℕ → Pager D → Pager D
  release_savepoint i p = elim (get_elem? p.savepoints i) [
    | none ↦ p
    | some s ↦ record p {
      savepoints = take i p.savepoints;
      n_sub_rec = if s.truncate_on_release then s.sub_rec else p.n_sub_rec;
    }
  ]

  unfoldable pub rollback_savepoint : ℕ → Pager D → Pager D
  unfolding playback_savepoint
  rollback_savepoint i p = elim (get_elem? p.savepoints i) [
    | none ↦ p
    | some s ↦ playback_savepoint s (record p { savepoints = take (suc i) p.savepoints })
  ]
