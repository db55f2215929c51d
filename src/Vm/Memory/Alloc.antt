-- ===== src/Vm/Memory/Alloc.antt =====
-- vm/src/memory.rs: what an allocation of the arena promises.
use native.Mathlib.Nat.{add-mod-mod}
use mathlib.Core.List.{append_assoc}
use zust.Prelude.{
  ℕ, zero, suc, ◌+◌, ◌%◌, ◌^◌, ◌≤◌, ◌<◌, ◌≡◌, refl, sym, ap, arith, ◌==◌, ==_iff, ltb→le, leb→le,
  false, ◌∙◌, leb→le, false, ◌∙◌, ◌⊎◌, inl, inr, max, none, some, Option-cases, Bool-cases, List,
  [], ◌∷◌, ◌++◌, length, get_elem?, All, append-nil, ltb, leb, length-append,
}
use zust.Prelude.Outcome.{ok}
use zust.Vm.Memory.{
  Chunk, Placement, VmMemory, Place, initial_chunk_size, new_chunk, next_power_of_two, align_up,
  at_next, advance, address, alloc_loop, alloc_raw,
}
use zust.Vm.Memory.Align.{IsAlignment, align_up_lem, next_power_of_two_lem}

-- The chunk `i` is there and has at least `n` bytes.
abbrev pub HasRoom : List Chunk → ℕ → ℕ → Type 0
HasRoom chunks i n = (c : Chunk) × (get_elem? chunks i ≡ some c) × (n ≤ c.size)

abbrev pub AreSmall : List Chunk → Type 0
AreSmall = All (λ c. c.size ≤ 2 ^ 62)

pub record IsValid (m : VmMemory) : Type 0 where
  pub here : HasRoom m.chunks m.chunk m.offset
  pub small : AreSmall m.chunks

-- Where the chunk of a place starts.
abbrev pub start_of : Place → Place
start_of p = record { chunk = p.chunk; offset = 0 }

-- How an allocation of `size` bytes at `p` takes `m` to `m'`.
pub record Allocated (m m' : VmMemory) (p : Place) (size align : ℕ) : Type 0 where
  pub room : HasRoom m'.chunks p.chunk (p.offset + size)
  pub aligned : p.offset % align ≡ 0
  pub address_aligned : address m' p % align ≡ address m' (start_of p) % align
  pub next_chunk : m'.chunk ≡ p.chunk
  pub next_offset : m'.offset ≡ p.offset + size
  pub fresh : (m.chunk < p.chunk) ⊎ ((m.chunk ≡ p.chunk) × (m.offset ≤ p.offset))
  pub grown : (extra : List Chunk) × (m'.chunks ≡ m.chunks ++ extra)
  pub dynamics : m'.dynamics ≡ m.dynamics
  pub scopes : m'.scopes ≡ m.scopes
  pub small : AreSmall m'.chunks

pub Allocated-IsValid :
    {m m' : VmMemory} {p : Place} {size align : ℕ} → Allocated m m' p size align → IsValid m'
Allocated-IsValid {m} {m'} {p} {size} a = record {
  here = (a.room.0, rw a.next_chunk a.room.1, omega (arith, a.next_offset, a.room.2));
  small = a.small;
}

AreSmall-at :
    (cs : List Chunk) (i : ℕ) (c : Chunk) → AreSmall cs → get_elem? cs i ≡ some c → c.size ≤ 2 ^ 62
AreSmall-at [] i c h e = cc
AreSmall-at (x ∷ xs) zero c h e = ground (arith, h.0)
AreSmall-at (x ∷ xs) (suc i) c h e = AreSmall-at xs i c h.1 e

AreSmall-append :
    (cs : List Chunk) (c : Chunk) → AreSmall cs → c.size ≤ 2 ^ 62 → AreSmall (cs ++ c ∷ [])
AreSmall-append [] c h s = (s, tt)
AreSmall-append (x ∷ xs) c h s = (h.0, AreSmall-append xs c h.1 s)

get_elem?-last : (cs : List Chunk) (c : Chunk) → get_elem? (cs ++ c ∷ []) (length cs) ≡ some c
get_elem?-last [] c = refl
get_elem?-last (x ∷ xs) c = get_elem?-last xs c

get_elem?-lt : (cs : List Chunk) (i : ℕ) (c : Chunk) → get_elem? cs i ≡ some c → i < length cs
get_elem?-lt [] i c e = cc
get_elem?-lt (x ∷ xs) zero c e = omega arith
get_elem?-lt (x ∷ xs) (suc i) c e = omega (arith, get_elem?-lt xs i c e)

get_elem?-none : (cs : List Chunk) (i : ℕ) → get_elem? cs i ≡ none → length cs ≤ i
get_elem?-none [] i e = omega arith
get_elem?-none (x ∷ xs) zero e = cc
get_elem?-none (x ∷ xs) (suc i) e = omega (arith, get_elem?-none xs i e)

multiple_apart : (b o a : ℕ) → o % a ≡ 0 → (b + o) % a ≡ (b + 0) % a
multiple_apart b o a h = sym (add-mod-mod b o a) ∙ ap (λ t. (b + t) % a) h

-- After `advance` the loop stands at the start of a later chunk that has the bytes needed.
record Advanced (m m' : VmMemory) (needed : ℕ) : Type 0 where
  at_start : m'.offset ≡ 0
  later : m.chunk < m'.chunk
  room : HasRoom m'.chunks m'.chunk needed
  grown : (extra : List Chunk) × (m'.chunks ≡ m.chunks ++ extra)
  dynamics : m'.dynamics ≡ m.dynamics
  scopes : m'.scopes ≡ m.scopes
  small : AreSmall m'.chunks

-- Both ways to grow put the new chunk behind the others.
grown-Advanced :
    (place : Placement) (m : VmMemory) (needed i : ℕ)
    → IsValid m
    → needed ≤ 2 ^ 62
    → i ≡ length m.chunks
    → Advanced m (at_next m (m.chunks ++ new_chunk place m.chunks needed ∷ []) i) needed
grown-Advanced place m needed i v h e = record {
  at_start = refl;
  later = omega (arith, e, get_elem?-lt m.chunks m.chunk v.here.0 v.here.1);
  room = (new_chunk place m.chunks needed, rw e (get_elem?-last m.chunks _), omega arith);
  grown = (new_chunk place m.chunks needed ∷ [], refl);
  dynamics = refl;
  scopes = refl;
  small = AreSmall-append m.chunks _ v.small h;
}

step-Advanced :
    (m : VmMemory) (needed : ℕ) (c : Chunk)
    → IsValid m
    → get_elem? m.chunks (m.chunk + 1) ≡ some c
    → needed ≤ c.size
    → Advanced m (at_next m m.chunks (m.chunk + 1)) needed
step-Advanced m needed c v e h = record {
  at_start = refl;
  later = omega arith;
  room = (c, e, h);
  grown = ([], sym (append-nil m.chunks));
  dynamics = refl;
  scopes = refl;
  small = v.small;
}

module _ (place : Placement) where
  advance_lem :
      (m : VmMemory) (needed : ℕ)
      → IsValid m
      → needed ≤ 2 ^ 62
      → Advanced m (advance place m needed) needed
  unfolding advance
  advance_lem m needed v h = elim (Bool-cases (m.chunk + 1 == length m.chunks)) [
    | inl last ↦
        rw last
          (grown-Advanced place m needed _ v h ((==_iff (m.chunk + 1) (length m.chunks)).0 last))
    | inr more ↦ rw more (elim (Option-cases (get_elem? m.chunks (m.chunk + 1))) [
      | inl e ↦ absurd (
          ground (
            arith,
            get_elem?-none m.chunks (m.chunk + 1) e,
            get_elem?-lt m.chunks m.chunk v.here.0 v.here.1,
          ))
      | inr (c, e) ↦ rw e (elim (Bool-cases (ltb c.size needed)) [
        | inl short ↦ rw short (
            grown-Advanced place m needed _ v h
              (omega (arith, length-append m.chunks (new_chunk place m.chunks needed ∷ []))))
        | inr fits ↦ rw fits (step-Advanced m needed c v e (ltb→le _ _ fits))
      ])
    ])
  ]

  -- A round that finds room returns.
  round_fits :
      (fuel : ℕ) (m : VmMemory) (size align : ℕ) (c : Chunk)
      → IsValid m
      → IsAlignment align
      → get_elem? m.chunks m.chunk ≡ some c
      → align_up m.offset align + size ≤ c.size
      → (m' : VmMemory) × (p : Place) × (alloc_loop place (suc fuel) m size align ≡ ok (m', p))
        × Allocated m m' p size align
  unfolding alloc_loop
  round_fits fuel m size align c v al e fits =
      let up =
        align_up_lem m.offset align al
          (omega (arith, v.here.2, AreSmall-at _ _ _ v.small v.here.1)) in
      (
        record m { offset = align_up m.offset align + size },
        record { chunk = m.chunk; offset = align_up m.offset align },
        ground (arith, e),
        record {
          room = (c, e, fits);
          aligned = up.2;
          address_aligned =
              rw (address, e) (multiple_apart c.base (align_up m.offset align) align up.2);
          next_chunk = refl;
          next_offset = refl;
          fresh = inr (refl, up.0);
          grown = ([], sym (append-nil m.chunks));
          dynamics = refl;
          scopes = refl;
          small = v.small;
        },
      )

-- An allocation after `advance` is one from the state before it.
Advanced-Allocated :
    {m n m' : VmMemory} {p : Place} {needed size align : ℕ}
    → Advanced m n needed
    → Allocated n m' p size align
    → Allocated m m' p size align
Advanced-Allocated {m} {n} {m'} {p} a b = record {
  room = b.room;
  aligned = b.aligned;
  address_aligned = b.address_aligned;
  next_chunk = b.next_chunk;
  next_offset = b.next_offset;
  fresh = inl (omega (arith, a.later));
  grown = (
    a.grown.0 ++ b.grown.0,
    b.grown.1 ∙ ap (λ t. t ++ b.grown.0) a.grown.1 ∙ append_assoc m.chunks a.grown.0 b.grown.0,
  );
  dynamics = b.dynamics ∙ a.dynamics;
  scopes = b.scopes ∙ a.scopes;
  small = b.small;
}

Advanced-IsValid : {m n : VmMemory} {needed : ℕ} → Advanced m n needed → IsValid n
Advanced-IsValid a = record {
  here = (a.room.0, a.room.1, omega (arith, a.at_start));
  small = a.small;
}

-- The sizes that the loop asks the allocator for.
needed_bounds :
    (size : ℕ)
    → size ≤ 2 ^ 61
    → (size ≤ next_power_of_two (max size initial_chunk_size))
      × (next_power_of_two (max size initial_chunk_size) ≤ 2 ^ 62)
needed_bounds size h =
    let (lo, hi) =
      next_power_of_two_lem (max size initial_chunk_size) (omega arith) (omega arith) in
    (omega (arith, lo), omega (arith, hi))

multiple_below : (n a : ℕ) → n % a ≡ 0 → n < a → n ≡ 0
multiple_below n a e h = grind arith

start_aligned : (v align : ℕ) → IsAlignment align → v ≡ 0 → align_up v align ≡ 0
start_aligned v align al e =
    multiple_below (align_up v align) align (align_up_lem v align al (omega arith)).2
      (omega (arith, (align_up_lem v align al (omega arith)).1))

max_alignment : (align : ℕ) → IsAlignment align → max align 1 ≡ align
max_alignment align al = omega arith

module _ (place : Placement) where
  round_full :
      (fuel : ℕ) (m : VmMemory) (size align : ℕ) (c : Chunk)
      → get_elem? m.chunks m.chunk ≡ some c
      → leb (align_up m.offset align + size) c.size ≡ false
      → alloc_loop place (suc fuel) m size align
        ≡ alloc_loop place fuel
            (advance place m (next_power_of_two (max size initial_chunk_size)))
            size
            align
  unfolding alloc_loop
  round_full fuel m size align c e full = ground arith

  -- The second round is at the start of a chunk that has `needed` bytes, so it returns.
  round_after :
      (m n : VmMemory) (needed size align : ℕ)
      → Advanced m n needed
      → IsAlignment align
      → size ≤ needed
      → (m' : VmMemory) × (p : Place) × (alloc_loop place 1 n size align ≡ ok (m', p))
        × Allocated n m' p size align
  round_after m n needed size align a al h =
      let up = align_up_lem n.offset align al (omega (arith, a.at_start)) in
      round_fits place 0 n size align a.room.0 (Advanced-IsValid a) al a.room.1
        (omega (arith, start_aligned n.offset align al a.at_start, a.room.2))

  alloc_loop_lem :
      (m : VmMemory) (size align : ℕ)
      → IsValid m
      → IsAlignment align
      → size ≤ 2 ^ 61
      → (m' : VmMemory) × (p : Place) × (alloc_loop place 2 m size align ≡ ok (m', p))
        × Allocated m m' p size align
  alloc_loop_lem m size align v al h =
      let (c, e, _) = v.here in
      elim (Bool-cases (leb (align_up m.offset align + size) c.size)) [
        | inl fits ↦ round_fits place 1 m size align c v al e (leb→le _ _ fits)
        | inr full ↦
            let needed = next_power_of_two (max size initial_chunk_size) in
            let (lo, hi) = needed_bounds size h in
            let a = advance_lem place m needed v hi in
            let (m', p, r, got) =
              round_after m (advance place m needed) needed size align a al lo in
            (m', p, round_full 1 m size align c e full ∙ r, Advanced-Allocated a got)
      ]

  -- From a valid arena, a request of at most 2^61 bytes at an alignment of the code is served, in
  -- at most two rounds of the loop: the bytes lie in one chunk, start at an offset in it that is a
  -- multiple of the alignment, so that their address is aligned as far as that of the chunk is, and lie
  -- behind everything that the arena has handed out since the current scope's start; chunks are only
  -- added, and the scopes and the pointers are as before.
  pub alloc_raw_lem :
      (m : VmMemory) (size align : ℕ)
      → IsValid m
      → IsAlignment align
      → size ≤ 2 ^ 61
      → (m' : VmMemory) × (p : Place) × (alloc_raw place m size align ≡ ok (m', p))
        × Allocated m m' p (max size 1) align
  unfolding alloc_raw
  alloc_raw_lem m size align v al h =
      rw (max_alignment align al) (alloc_loop_lem m (max size 1) align v al (omega arith))
