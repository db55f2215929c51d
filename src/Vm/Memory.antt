-- ===== src/Vm/Memory.antt =====
-- vm/src/memory.rs: the arena of a thread. A chunk is its base address and its size; the bytes in
-- it are not modelled. Addresses and sizes are unbounded, but for the mask in `align_up`, which is
-- that of a 64-bit word.
pub mod Align
pub mod Alloc
pub mod Scopes
pub mod Ownership
mod Examples
use Prim.Native.Nat.{bit_and}
use zust.Prelude.{
  ℕ, zero, suc, ◌+◌, ◌-◌, ◌*◌, ◌^◌, max, Bool, false, ◌&&◌, ◌||◌, none, some, List, [], ◌∷◌, ◌++◌,
  length, get_elem?, take, drop, ltb, leb, ◌==◌, if◌then◌else◌,
}
use zust.Prelude.Outcome.{Outcome, ok, panic, stuck, ◌>>=◌}
use mathlib.Core.List.{reverse}

abbrev pub initial_chunk_size : ℕ
initial_chunk_size = 1024 * 1024

pub record ScopeMark : Type 0 where
  pub chunk : ℕ
  pub offset : ℕ
  pub dynamic_len : ℕ

pub record Chunk : Type 0 where
  pub base : ℕ
  pub size : ℕ

unfoldable pub contains : Chunk → ℕ → Bool
contains c addr = leb c.base addr && ltb addr (c.base + c.size)

-- `chunk` and `offset` say where the next allocation is tried. A pointer of `dynamics` is an
-- address.
pub record VmMemory : Type 0 where
  pub chunks : List Chunk
  pub chunk : ℕ
  pub offset : ℕ
  pub dynamics : List ℕ
  pub scopes : List ScopeMark

-- What the system's allocator returns for a size, given the chunks that are in use.
abbrev pub Placement : Type 0
Placement = List Chunk → ℕ → ℕ

abbrev pub new_chunk : Placement → List Chunk → ℕ → Chunk
new_chunk place live size = record { base = place live size; size = size }

unfoldable pub new : Placement → VmMemory
new place = record {
  chunks = new_chunk place [] initial_chunk_size ∷ [];
  chunk = 0;
  offset = 0;
  dynamics = [];
  scopes = [];
}

unfoldable pub has_scope : VmMemory → Bool
has_scope m = elim m.scopes [ [] ↦ false | mark ∷ rest ↦ Bool.true ]

any_contains : List Chunk → ℕ → Bool
any_contains [] addr = false
any_contains (c ∷ cs) addr = contains c addr || any_contains cs addr

unfoldable pub owns_dynamic : VmMemory → ℕ → Bool
unfolding any_contains contains
owns_dynamic m ptr = any_contains m.chunks ptr

unfoldable pub enter_scope : VmMemory → VmMemory
enter_scope m = record m {
  scopes =
      record { chunk = m.chunk; offset = m.offset; dynamic_len = length m.dynamics } ∷ m.scopes;
}

-- The new state, and the pointers that are dropped, in that order. A drain that starts behind the
-- end of `dynamics` panics.
leave : VmMemory → List ScopeMark → Outcome (Unit {0}) (VmMemory × List ℕ)
leave m [] = ok (m, [])
leave m (mark ∷ rest) =
    if leb mark.dynamic_len (length m.dynamics)
    then ok (
      record m {
        chunk = mark.chunk;
        offset = mark.offset;
        dynamics = take mark.dynamic_len m.dynamics;
        scopes = rest;
      },
      reverse (drop mark.dynamic_len m.dynamics),
    )
    else panic

unfoldable pub exit_scope : VmMemory → Outcome (Unit {0}) (VmMemory × List ℕ)
unfolding leave
exit_scope m = leave m m.scopes

-- `!(align - 1)` on 64 bits is 2^64 - align.
unfoldable pub align_up : ℕ → ℕ → ℕ
align_up value align = bit_and (value + align - 1) (2 ^ 64 - align)

-- The least power of two that is at least `n`, searched from `p` on.
power_from : ℕ → ℕ → ℕ → ℕ
power_from zero p n = p
power_from (suc k) p n = let larger = power_from k (2 * p) n in if leb n p then p else larger

unfoldable pub next_power_of_two : ℕ → ℕ
unfolding power_from
next_power_of_two n = power_from 64 1 n

abbrev pub at_next : VmMemory → List Chunk → ℕ → VmMemory
at_next m chunks chunk = record m { chunks = chunks; chunk = chunk; offset = 0 }

-- The chunk that the loop turns to when the current one has no room.
unfoldable pub advance : Placement → VmMemory → ℕ → VmMemory
advance place m needed =
    let grown = m.chunks ++ new_chunk place m.chunks needed ∷ [] in
    if m.chunk + 1 == length m.chunks
    then at_next m grown (m.chunk + 1)
    else elim (get_elem? m.chunks (m.chunk + 1)) [
      | none ↦ m
      | some next ↦
          if ltb next.size needed
          then at_next m grown (length grown - 1)
          else at_next m m.chunks (m.chunk + 1)
    ]

-- A pointer is a chunk and an offset in it.
pub record Place : Type 0 where
  pub chunk : ℕ
  pub offset : ℕ

abbrev pub address : VmMemory → Place → ℕ
address m p = elim (get_elem? m.chunks p.chunk) [ none ↦ 0 | some c ↦ c.base + p.offset ]

unfoldable pub alloc_loop : Placement → ℕ → VmMemory → ℕ → ℕ → Outcome (Unit {0}) (VmMemory × Place)
alloc_loop place zero m size align = stuck
alloc_loop place (suc fuel) m size align =
    let needed = next_power_of_two (max size initial_chunk_size) in
    let next = alloc_loop place fuel (advance place m needed) size align in
    let offset = align_up m.offset align in
    elim (get_elem? m.chunks m.chunk) [
      | none ↦ panic
      | some c ↦
          if leb (offset + size) c.size
          then ok (record m { offset = offset + size }, record { chunk = m.chunk; offset = offset })
          else next
    ]

-- Two rounds are enough (`alloc_raw_lem`).
unfoldable pub alloc_raw : Placement → VmMemory → ℕ → ℕ → Outcome (Unit {0}) (VmMemory × Place)
alloc_raw place m size align = alloc_loop place 2 m (max size 1) (max align 1)

-- The structs of the compiled code.
unfoldable pub alloc_bytes : Placement → VmMemory → ℕ → Outcome (Unit {0}) (VmMemory × Place)
alloc_bytes place m size = alloc_raw place m size 8

-- The size and the alignment of `Dynamic` are the Rust compiler's choice.
module _ (place : Placement) (dynamic_size dynamic_align : ℕ) where
  unfoldable pub alloc_dynamic : VmMemory → Outcome (Unit {0}) (VmMemory × ℕ)
  alloc_dynamic m = do
    (m', p) ← alloc_raw place m dynamic_size dynamic_align
    ok (record m' { dynamics = m'.dynamics ++ address m' p ∷ [] }, address m' p)

-- What compiled code does with the arena of its thread: a function's body is a scope
-- (`scope_enter` at its start, `scope_exit_void` at its end), and calls nest.
mutual
  pub data Action : Type 0 where
    bytes : ℕ → Action
    dynamic : Action
    scope : Actions → Action

  pub data Actions : Type 0 where
    finish : Actions
    chain : Action → Actions → Actions

-- The arena, the pointers to `Dynamic`s that it handed out on the way, and those that were dropped.
abbrev pub Trace : Type 0
Trace = VmMemory × List ℕ × List ℕ

module _ (place : Placement) (dynamic_size dynamic_align : ℕ) where
  -- The function `alloc_dynamic`: without a scope the value is put into a box on the heap, which does
  -- not concern the arena.
  unfoldable pub new_dynamic : VmMemory → Outcome (Unit {0}) Trace
  new_dynamic m =
      if has_scope m
      then (alloc_dynamic place dynamic_size dynamic_align m >>= λ (m', ptr). ok (m', ptr ∷ [], []))
      else ok (m, [], [])

  unfoldable mutual
    pub run : Action → VmMemory → Outcome (Unit {0}) Trace
    run (bytes size) m = do (m', p) ← alloc_bytes place m size; ok (m', [], [])
    run dynamic m = new_dynamic m
    run (scope body) m = do
      (m', given, inner) ← run_all body (enter_scope m)
      (m'', dropped) ← exit_scope m'
      ok (m'', given, inner ++ dropped)

    pub run_all : Actions → VmMemory → Outcome (Unit {0}) Trace
    run_all finish m = ok (m, [], [])
    run_all (chain a rest) m = do
      (m', given, first) ← run a m
      (m'', more, later) ← run_all rest m'
      ok (m'', given ++ more, first ++ later)
