-- ===== src/Dynamic/Fault.antt =====
-- dynamic/src/fault.rs: the flag of a thread that records a run-time error.
use zust.Prelude.{Option, none, some, Bool, true, false}
use Prim.Native.String.{String}

abbrev pub RuntimeFault : Type 0
RuntimeFault = Option String

-- Only the first reason is kept.
unfoldable pub set_fault : String → RuntimeFault → RuntimeFault
set_fault reason none = some reason
set_fault reason (some first) = some first

-- The flag that was read, and the cleared one.
unfoldable pub take_fault : RuntimeFault → RuntimeFault × RuntimeFault
take_fault fault = (fault, none)

unfoldable pub has_fault : RuntimeFault → Bool
has_fault none = false
has_fault (some reason) = true
