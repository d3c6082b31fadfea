-- ===== src/Base/Codes.antt =====
-- The result codes of the engine (include/btreelite.h, and the SQLITE_ codes of src/btreeliteInt.h)
-- that the modelled code tells apart. Other codes come from the pager or the operating system, and
-- are passed on by their number.
use Prim.Native.Nat.{ℕ}
use mathlib.Core.Bool.{Bool, true, false}

pub data Rc : Type 0 where
  ok error nomem corrupt empty done notfound toobig short_read : Rc
  other : ℕ → Rc

abbrev pub is_ok : Rc → Bool
is_ok ok = true
is_ok _ = false

-- SQLITE_IOERR_NOMEM
abbrev pub ioerr_nomem : Rc
ioerr_nomem = other 3082
