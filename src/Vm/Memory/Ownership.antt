-- ===== src/Vm/Memory/Ownership.antt =====
-- vm/src/memory.rs: `owns_dynamic` tells pointers into the arena from boxes on the heap.
use zust.Prelude.{
  ℕ, zero, suc, ◌+◌, ◌^◌, ◌≤◌, ◌<◌, ◌≡◌, ap, arith, some, true, List, [], ◌∷◌, ◌++◌, get_elem?,
}
use zust.Prelude.Outcome.{ok}
use zust.Vm.Memory.{
  Chunk, Placement, VmMemory, Place, any_contains, contains, owns_dynamic, alloc_dynamic, address,
}
use zust.Vm.Memory.Align.{IsAlignment}
use zust.Vm.Memory.Alloc.{IsValid, alloc_raw_lem}
use zust.Vm.Memory.Scopes.{Ran}

any_contains-at :
    (cs : List Chunk) (i : ℕ) (c : Chunk) (o : ℕ)
    → get_elem? cs i ≡ some c
    → o < c.size
    → any_contains cs (c.base + o) ≡ true
unfolding any_contains contains
any_contains-at [] i c o e h = cc
any_contains-at (x ∷ xs) zero c o e h = ground arith
any_contains-at (x ∷ xs) (suc i) c o e h = ground (arith, any_contains-at xs i c o e h)

any_contains-append :
    (cs ds : List Chunk) (a : ℕ) → any_contains cs a ≡ true → any_contains (cs ++ ds) a ≡ true
unfolding any_contains
any_contains-append [] ds a h = cc
any_contains-append (x ∷ xs) ds a h = ground (arith, any_contains-append xs ds a)

address-at :
    (m : VmMemory) (p : Place) (c : Chunk)
    → get_elem? m.chunks p.chunk ≡ some c
    → address m p ≡ c.base + p.offset
address-at m p c e = rw (e, address)

module _ (place : Placement) (dynamic_size dynamic_align : ℕ) where
  -- In a valid arena `alloc_dynamic` returns, and `owns_dynamic` recognises the pointer; it is
  -- appended to the pointers that the scope drops.
  pub owns_dynamic-alloc_dynamic :
      (m : VmMemory)
      → dynamic_size ≤ 2 ^ 61
      → IsAlignment dynamic_align
      → IsValid m
      → (m' : VmMemory) × (ptr : ℕ) × (alloc_dynamic place dynamic_size dynamic_align m
          ≡ ok (m', ptr))
        × (owns_dynamic m' ptr ≡ true)
        × (m'.dynamics ≡ m.dynamics ++ ptr ∷ [])
  unfolding alloc_dynamic owns_dynamic
  owns_dynamic-alloc_dynamic m h al v =
      let (m', p, e, a) = alloc_raw_lem place m dynamic_size dynamic_align v al h in
      (
        record m' { dynamics = m'.dynamics ++ address m' p ∷ [] },
        address m' p,
        rw e,
        rw (address-at m' p a.room.0 a.room.1) (
            any_contains-at m'.chunks p.chunk a.room.0 p.offset a.room.1 (omega (arith, a.room.2))),
        ap (λ t. t ++ address m' p ∷ []) a.dynamics,
      )

-- A pointer that the arena owns is still owned after any balanced actions.
pub owns_dynamic-Ran :
    (m m' : VmMemory) (ptr : ℕ) {given dropped : List ℕ} {k : ℕ}
    → Ran m m' given dropped k
    → owns_dynamic m ptr ≡ true
    → owns_dynamic m' ptr ≡ true
unfolding owns_dynamic
owns_dynamic-Ran m m' ptr r h = rw r.grown.1 (any_contains-append m.chunks r.grown.0 ptr h)
