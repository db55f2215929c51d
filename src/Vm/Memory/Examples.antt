-- ===== src/Vm/Memory/Examples.antt =====
-- vm/src/memory.rs: the theorems at a fresh arena.
use zust.Prelude.{ℕ, ◌+◌, ◌≡◌, refl, arith, true, List, [], ◌∷◌, length, inr, max}
use zust.Prelude.Outcome.{ok}
use zust.Vm.Memory.{
  Placement, VmMemory, Place, Chunk, Actions, bytes, dynamic, scope, finish, chain, new, alloc_raw,
  alloc_dynamic, owns_dynamic, has_scope, run, run_all, initial_chunk_size,
}
use zust.Vm.Memory.Alloc.{IsValid, Allocated, alloc_raw_lem}
use zust.Vm.Memory.Scopes.{count, Runs, run_all_lem, scope_restores}
use zust.Vm.Memory.Ownership.{owns_dynamic-alloc_dynamic}

-- Chunks one behind the other, from address 4096 on.
abbrev row : Placement
row live size = next live
  where
    next : List Chunk → ℕ
    next [] = 4096
    next (c ∷ rest) = c.size + next rest

abbrev fresh : VmMemory
fresh = record {
  chunks = record { base = 4096; size = initial_chunk_size } ∷ [];
  chunk = 0;
  offset = 0;
  dynamics = [];
  scopes = [];
}

new-fresh : new row ≡ fresh
unfolding new
new-fresh = refl

fresh-IsValid : IsValid fresh
fresh-IsValid = record {
  here = (record { base = 4096; size = initial_chunk_size }, refl, omega arith);
  small = omega arith;
}

-- More than a chunk.
alloc_raw_example :
    (m' : VmMemory) × (p : Place) × (alloc_raw row fresh 3000000 8 ≡ ok (m', p))
    × Allocated fresh m' p (max 3000000 1) 8
alloc_raw_example =
    alloc_raw_lem row fresh 3000000 8 fresh-IsValid (inr (inr (inr refl))) (omega arith)

-- A call that allocates a struct and a value, and calls a function that allocates one more.
abbrev calls : Actions
calls = chain (bytes 24) (chain dynamic (chain (scope (chain dynamic finish)) finish))

run_all_example : Runs row 40 8 (run_all row 40 8 calls fresh) fresh 1
unfolding has_scope
run_all_example =
    run_all_lem row 40 8 (omega arith) (inr (inr (inr refl))) calls fresh (omega arith)
      fresh-IsValid

scope_restores_example :
    (m' : VmMemory) × (given : List ℕ) × (dropped : List ℕ) × (run row 40 8 (scope calls) fresh
      ≡ ok (m', given, dropped))
    × (m'.chunk ≡ 0)
    × (m'.offset ≡ 0)
    × (m'.dynamics ≡ [])
    × (m'.scopes ≡ [])
    × (length given ≡ 2)
    × ((x : ℕ) → count x dropped ≡ count x given)
scope_restores_example =
    scope_restores row 40 8 (omega arith) (inr (inr (inr refl))) calls fresh (omega arith)
      fresh-IsValid

owns_dynamic-alloc_dynamic_example :
    (m' : VmMemory) × (ptr : ℕ) × (alloc_dynamic row 40 8 fresh ≡ ok (m', ptr))
    × (owns_dynamic m' ptr ≡ true)
    × (m'.dynamics ≡ ptr ∷ [])
owns_dynamic-alloc_dynamic_example =
    owns_dynamic-alloc_dynamic row 40 8 fresh (omega arith) (inr (inr (inr refl))) fresh-IsValid
