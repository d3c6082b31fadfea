-- ===== src/Lib.antt =====
-- A model of btreelite, the key-value storage engine, with the theorems that make it correct.
--
-- Parts. A key-value store is a B-tree of pages (src/btree.c). A cursor finds an entry and steps
-- through the entries in the order of their keys. Pages come from the pager, and a page that a
-- writer has put into the write-ahead log (src/wal.c) is found there by a hash index in shared
-- memory. A write transaction that rolls back to a savepoint moves the log back. The pager
-- (src/pager.c) keeps the pages of a savepoint in a sub-journal, a file in memory
-- (src/memjournal.c), and the public interface (src/btreelite_api.c) numbers the savepoints.
--
-- Base: names of the libraries, Boolean tests on numbers, lists and their parts, and the result codes.
--
-- Api: src/btreelite_api.c, and the transaction state of src/btree.c.
--   Points     btreelite_begin, btreelite_commit, btreelite_rollback, btreelite_savepoint and
--              btreelite_integrity_check, over sqlite3BtreeBeginTrans, sqlite3BtreeCommit,
--              sqlite3BtreeRollback and sqlite3BtreeSavepoint
--   Numbered   nSavepoint against the savepoints of the pager; Runs: calls in any order
--   Entries    kvCheckKey and kvMoveto, btreelite_get, btreelite_seek, btreelite_next,
--              btreelite_eof, btreelite_key and btreelite_value_size; Entries.Check is the
--              check of keys, and Entries.Get, Entries.Seek and Entries.Range compose them with
--              Btree.Tree
--
-- In Points and Runs the handle is not null, the B-tree is not shared, and the pager below is its
-- specification, Pager.Session.Spec, in which a rollback to the start gives back the committed
-- database. The results of locks and of the pager's phases are arguments. An int argument
-- may be negative. A key argument is a negative length, a null pointer with a length, or bytes.
--
-- Btree: src/btree.c and src/btreeInt.h.
--   Key        the comparison of keys, kvKeyCompareCell, and the lexicographic order
--   Page       MemPage and CellInfo, and the binary search of a page; Page.Search proves it
--   Cursor     BtCursor, moveToChild, moveToRoot, moveToLeftmost and moveToRightmost;
--              Cursor.Seek: sqlite3BtreeFirst, sqlite3BtreeLast, sqlite3BtreeKvMoveto and the
--              restore of a position; Cursor.Save: saveCursorPosition; Cursor.Step:
--              sqlite3BtreeNext and sqlite3BtreePrevious; Cursor.Skip: a seek keeps skipNext;
--              Cursor.Total: that seeks end on any pages
--   Tree       the abstract view: which pages form a well-formed tree that holds a list of
--              entries, and where a cursor stands in it; its children prove the seeks and steps, and
--              that a saved position is found again
--
-- A page is decoded: a leaf or an interior page with its cells. BtShared gives the decoded page of
-- a page number, or the code with which fetching it fails, so that the pager and the parser of
-- cells are a parameter. No writer runs while a cursor moves; between two moves the tree may
-- change, when the position is saved before. The cache of the parsed cell is not kept, since it can
-- always be filled again; skipNext is its sign with the fault code beside it.
-- A well-formed tree has an entry on every page, so that the empty tree is not one: the theorems on
-- trees are about trees that store at least one entry.
-- Loops that go down a tree run on fuel of 20 rounds, BTCURSOR_MAX_DEPTH, after which
-- moveToChild reports corruption; the loops of sqlite3BtreeNext and sqlite3BtreePrevious may
-- start again after a restore and run on 22 rounds. The theorems show results, so that the fuel is
-- enough on a well-formed tree lower than 20 levels.
--
-- Journal: src/memjournal.c.
--   Chunks     chunks of one size as one run of bytes; State: the invariant of a journal
--   Read       memjrnlRead; Read.Copy has its two loops
--   Write      memjrnlWrite in memory; Write.Piece and Write.Loop
--   Truncate   memjrnlTruncate
--   Spill      memjrnlCreateFile; Spill.Whole: memjrnlWrite in memory or in the real file
--
-- A pointer to a chunk is its place in the list. The memory allocator and the real file of the
-- operating system are parameters: the allocator says for each place what block the chunk gets, if
-- any, and a write to a real file that succeeds, at an offset not behind its end, is assumed to put
-- the bytes there and to leave the rest. Nothing is assumed of what the file has in it when it is
-- opened, since the VFS does not truncate it. The write loop runs on as much fuel as there are bytes, and each round writes one.
--
-- Pager: src/pager.c, the savepoints of a write transaction with a log.
--   Frames     what a page reads as on the log; State: what holds of the open savepoints
--   Journal    subjournalPageIfRequired; Journal.Record: subjournalPage
--   Playback   pager_playback_one_page for the sub-journal; Rollback: sqlite3PagerSavepoint
--   Session    the specification, a database with saved images, and the steps of a transaction;
--              Change, Nest, Run and Simulate prove that the pager simulates it
--
-- The content of a page is of any type, and is asked for pages within the size of the database; of
-- a page behind it the model reads the file, where the code makes zeros. The cache, the frames of the transaction and the records of
-- the sub-journal are functions; the bit vectors are sets that always get their memory; the results
-- of writes to the sub-journal and to the log are arguments. The caller changes a page only behind
-- a sqlite3PagerWrite that succeeds, the database grows by one page at a time, and the cache drops a
-- page only when the log or the file has its content.
--
-- Util: src/util.c.
--   Word       sqlite3Get4byte and sqlite3Put4byte
--
-- Wal: src/wal.c.
--   Index      the hash tables of the wal-index: walHash, walHashGet, walFramePage, walFramePgno,
--              walCleanupHash, walIndexAppend and walFindFrame. Children: Probe (gaps of a probe
--              sequence), Filled and Clean (one block), Search (the search of a block), Frames
--              (the invariant of the whole index), Change, Cleanup, Append and Lookup
--   Checksum   walChecksumBytes on a host of either byte order; Checksum.Format: the checksum
--              that the format asks for
--   Frame      walEncodeFrame and walDecodeFrame
--   Undo       sqlite3WalUndo
--   Recover    the frame loops of walFrames and of walIndexRecover; Recover.Chain proves that
--              recovery finds what was written
--   Savepoint  sqlite3WalSavepoint and sqlite3WalSavepointUndo
--
-- An array in shared memory is a function from its indexes. Mapping a block, which calls the VFS,
-- is a result code per block in the state. The bytes of a frame are a list. Numbers of 32 and 16
-- bits wrap where the code computes them. One writer and a reader are modelled between their steps: the tearing of a store by
-- another process is not.
--
-- Not modelled: page layout, insertion, deletion and balancing, the freelist, shared caches, the main
-- rollback journal of the pager and the rollback of a whole transaction there, the page cache, the
-- bit vectors, the log header, checkpoints, writes of entries by the public interface, and
-- the layers below, memory, mutexes, files and locks.
pub mod Api
pub mod Base
pub mod Btree
pub mod Journal
pub mod Pager
pub mod Util
pub mod Wal
mod Tests
