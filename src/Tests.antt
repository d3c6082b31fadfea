-- ===== src/Tests.antt =====
-- Concrete runs of the modelled code, and the theorems about it at concrete inputs.
mod SmallTree
mod LoopingTree
mod SmallLog
mod SmallFrame
mod SmallRecovery
mod SmallJournal
mod SmallSavepoints
mod SmallSession
mod SmallEntries
mod SmallRestore
