-- ===== src/Wal/Recover.antt =====
-- Recovery of the wal-index from the log (src/wal.c, the frame loop of walIndexRecover): the frames
-- that a writer has put into the log are indexed again, and the last commit is found.
pub mod Chain
use litebtree.Base.{
  ℕ, zero, suc, ◌+◌, ◌<◌, ◌≡◌, List, [], ◌∷◌, Bool, true, false, if◌then◌else◌, ◌==◌, not, Option,
  none, some, Rc, ok, is_ok,
}
use litebtree.Wal.Checksum.{Sums}
use litebtree.Wal.Frame.{FrameState, wal_encode_frame, wal_decode_frame}
use litebtree.Wal.Index.{WalIndex, wal_index_append}

-- A frame of the log file: its header, and the page.
abbrev pub Frame : Type 0
Frame = List ℕ × List ℕ

-- What recovery keeps: the running checksum, the index with mxFrame, and the database size and the
-- checksum at the last commit.
pub record Recovery : Type 0 where
  pub state : FrameState
  pub index : WalIndex
  pub n_page : ℕ
  pub commit_cksum : Sums

-- A commit record is counted.
unfoldable pub note_commit : ℕ → ℕ → Recovery → Recovery
note_commit frame truncate r = if truncate == 0 then r else record r {
  index = record r.index { mx_frame = frame };
  n_page = truncate;
  commit_cksum = r.state.frame_cksum;
}

-- What follows the index entry, and what follows the decoding of a frame. The Boolean says whether
-- the loop goes on.
unfoldable pub after_append : ℕ → ℕ → Recovery → Rc × WalIndex → Bool × Rc × Recovery
unfolding note_commit
after_append i_frame truncate r (rc, index) =
    let r' = record r { index = index } in
    if is_ok rc then (true, rc, note_commit i_frame truncate r') else (false, rc, r')

unfoldable pub after_decode : ℕ → Recovery → Option (ℕ × ℕ) × FrameState → Bool × Rc × Recovery
unfolding after_append wal_index_append
after_decode i_frame r (none, state) = (false, ok, record r { state = state })
after_decode i_frame r (some (pgno, truncate), state) =
    after_append i_frame truncate (record r { state = state })
      (wal_index_append r.index i_frame pgno)

-- One frame of the loop.
unfoldable pub recover_frame : Bool → ℕ → Frame → Recovery → Bool × Rc × Recovery
unfolding wal_decode_frame after_decode
recover_frame big_host i_frame (header, content) r =
    after_decode i_frame r (wal_decode_frame big_host r.state content header)

abbrev pub proceed : (Recovery → Rc × Recovery) → Bool × Rc × Recovery → Rc × Recovery
proceed next (true, rc, r) = next r
proceed next (false, rc, r) = (rc, r)

-- The loop over the frames of the file.
unfoldable pub recover_frames : Bool → ℕ → List Frame → Recovery → Rc × Recovery
unfolding recover_frame
recover_frames big_host i_frame [] r = (ok, r)
recover_frames big_host i_frame (f ∷ fs) r =
    proceed (λ r'. recover_frames big_host (suc i_frame) fs r') (recover_frame big_host i_frame f r)

-- What a writer puts into one frame: a page, with the database size for a commit.
pub record Written : Type 0 where
  pub page : ℕ
  pub truncate : ℕ
  pub content : List ℕ

-- The loop of walFrames over the dirty pages, with walWriteOneFrame, for pages that the transaction
-- has not written before.
unfoldable pub append_frames : Bool → List Written → FrameState → List Frame × FrameState
unfolding wal_encode_frame
append_frames big_host [] w = ([], w)
append_frames big_host (x ∷ xs) w =
    let e = wal_encode_frame big_host w x.page x.truncate x.content in
    let rest = append_frames big_host xs e.1 in ((e.0, x.content) ∷ rest.0, rest.1)
