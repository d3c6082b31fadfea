-- ===== src/Wal/Index/Clean.antt =====
-- The clean-up of a block (src/wal.c, walCleanupHash): older entries stay where a search finds them.
use litebtree.Base.{ℕ, suc, ◌≤◌, ◌<◌, ◌≡◌, arith}
use litebtree.Wal.Index.{Block, clean_block}
use litebtree.Wal.Index.Filled.{IsFilled, Reaches}
use litebtree.Wal.Index.Probe.{at}

module _ (b : Block) (limit n : ℕ) (filled : IsFilled b n) (le : limit ≤ n) where
  kept : (k : ℕ) → b.a_hash k ≤ limit → (clean_block limit b).a_hash k ≡ b.a_hash k
  unfolding clean_block
  kept k h = ground arith

  Reaches-kept :
      {k j d : ℕ}
      → j < limit
      → Reaches b.a_hash k (suc j) d
      → Reaches (clean_block limit b).a_hash k (suc j) d
  Reaches-kept {k} {j} {d} l r = record {
    near = r.near;
    there = let h = r.there in rw (kept (at k d) (omega arith)) h;
    smaller = λ e m. let h = r.smaller e m in rw (kept (at k e) (omega arith)) h;
  }

  pub clean_block-old : (j : ℕ) → j < limit → (clean_block limit b).a_pgno j ≡ b.a_pgno j
  unfolding clean_block
  clean_block-old j l = ground arith

  -- What is left is a block with as many entries as the limit says.
  pub clean_block-IsFilled : IsFilled (clean_block limit b) limit
  unfolding clean_block
  clean_block-IsFilled = record {
    few = let h = filled.few in omega arith;
    bound = λ k l. ground arith;
    once = λ i k li lk same set. let h = filled.once i k li lk in ground arith;
    entry = λ j l.
        let (d, r) = filled.entry j (omega arith) in rw (clean_block-old j l) (d, Reaches-kept l r);
    used = λ j l. rw (clean_block-old j l) (filled.used j (omega arith));
    unused = λ j l. ground arith;
  }
