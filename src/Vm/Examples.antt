-- ===== src/Vm/Examples.antt =====
-- vm/src/memory.rs: the loop quota on a concrete run.
use zust.Prelude.{◌+◌, ◌≡◌, [], ◌∷◌, none, some}
use zust.Prelude.Int.{pos, negsuc}
use zust.Dynamic.Fault.{set_fault}
use zust.Vm.Fuel.{Thread, set_fuel, checks, checks-set_fuel, exhausted}

abbrev idle : Thread
idle = record { fuel = negsuc 0; fault = none }

checks-set_fuel_example :
    checks (2 + 2) (set_fuel (pos 2) idle)
    ≡ (0 ∷ 0 ∷ 1 ∷ 0 ∷ [], record { fuel = negsuc 0; fault = some exhausted })
unfolding set_fault
checks-set_fuel_example = checks-set_fuel 2 1 idle
