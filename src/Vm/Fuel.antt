-- ===== src/Vm/Fuel.antt =====
-- vm/src/memory.rs: the loop quota of a sandboxed program, `FUEL`, `set_fuel` and `fuel_check`.
use Prim.Native.Nat.add
use Prim.Native.String.{String}
use zust.Prelude.{ℕ, zero, suc, ◌+◌, ◌≡◌, refl, List, [], ◌∷◌, ◌++◌, replicate}
use zust.Prelude.Int.{ℤ, pos, negsuc}
use zust.Dynamic.Fault.{RuntimeFault, set_fault}

-- The two thread-local cells that the check touches.
pub record Thread : Type 0 where
  pub fuel : ℤ
  pub fault : RuntimeFault

unfoldable pub set_fuel : ℤ → Thread → Thread
set_fuel quota t = record t { fuel = quota }

abbrev pub exhausted : String
exhausted = "fuel exhausted：沙箱循环配额耗尽"

-- The check for a quota `left`: 1 tells the compiled loop to leave.
check : ℤ → Thread → ℕ × Thread
check (negsuc n) t = (0, t)
check (pos zero) t = (1, record { fuel = negsuc 0; fault = set_fault exhausted t.fault })
check (pos (suc n)) t = (0, record t { fuel = pos n })

unfoldable pub fuel_check : Thread → ℕ × Thread
unfolding check
fuel_check t = check t.fuel t

-- The results of a number of checks, and the cells behind them.
unfoldable pub checks : ℕ → Thread → List ℕ × Thread
checks zero t = ([], t)
checks (suc n) t = let (r, t') = fuel_check t in let (rs, t'') = checks n t' in (r ∷ rs, t'')

-- A negative quota is none: every check answers 0 and changes nothing.
pub checks_off :
    (n k : ℕ) (fault : RuntimeFault)
    → checks n (record { fuel = negsuc k; fault = fault })
      ≡ (replicate n 0, record { fuel = negsuc k; fault = fault })
unfolding checks fuel_check
checks_off zero k fault = refl
checks_off (suc n) k fault = rw (checks_off n k fault)

-- With a quota of q, a program gets q rounds; the next check tells its loop to leave and records
-- the fault, if none was recorded before; and the checks after it are silent, the quota being off.
pub checks-set_fuel :
    (q n : ℕ) (t : Thread)
    → checks (q + suc n) (set_fuel (pos q) t) ≡ (
      replicate q 0 ++ 1 ∷ replicate n 0,
      record { fuel = negsuc 0; fault = set_fault exhausted t.fault },
    )
unfolding checks fuel_check set_fuel
checks-set_fuel zero n t = rw add.zero (rw (checks_off n 0 (set_fault exhausted t.fault)))
checks-set_fuel (suc q) n t = rw add.suc (rw (checks-set_fuel q n t))
