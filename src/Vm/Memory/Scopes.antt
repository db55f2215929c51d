-- ===== src/Vm/Memory/Scopes.antt =====
-- vm/src/memory.rs: scopes of the arena.
use mathlib.Core.List.{reverse, reverse-append}
use zust.Prelude.{
  ℕ, zero, suc, ◌+◌, ◌^◌, ◌≤◌, ◌≡◌, refl, sym, ap, ◌∙◌, arith, Bool, true, Bool-cases, inl, inr,
  if◌then◌else◌, ◌==◌, some, List, [], ◌∷◌, ◌++◌, length, get_elem?, take, drop, append-nil,
  append_assoc, length-append, take-length-append, drop-length-append,
}
use zust.Prelude.Outcome.{Outcome, ok}
use zust.Vm.Memory.{
  Chunk, Placement, VmMemory, Action, Actions, bytes, dynamic, scope, finish, chain, enter_scope,
  exit_scope, alloc_bytes, alloc_dynamic, address, has_scope, new_dynamic, Trace, run, run_all,
}
use zust.Vm.Memory.Align.{IsAlignment}
use zust.Vm.Memory.Alloc.{IsValid, Allocated-IsValid, alloc_raw_lem}

-- No request passes 2^61 bytes.
abbrev mutual
  pub Fits : Action → Type 0
  Fits (bytes size) = size ≤ 2 ^ 61
  Fits dynamic = Unit
  Fits (scope body) = AllFit body

  pub AllFit : Actions → Type 0
  AllFit finish = Unit
  AllFit (chain a rest) = Fits a × AllFit rest

-- How many `Dynamic`s the actions take from the arena, inside a scope or outside.
abbrev mutual
  pub allocations : Bool → Action → ℕ
  allocations inside (bytes size) = 0
  allocations inside dynamic = if inside then 1 else 0
  allocations inside (scope body) = all_allocations true body

  pub all_allocations : Bool → Actions → ℕ
  all_allocations inside finish = 0
  all_allocations inside (chain a rest) = allocations inside a + all_allocations inside rest

-- How often a pointer is in a list.
abbrev pub count : ℕ → List ℕ → ℕ
count x [] = 0
count x (y ∷ ys) = if x == y then 1 + count x ys else count x ys

count-append : (x : ℕ) (xs ys : List ℕ) → count x (xs ++ ys) ≡ count x xs + count x ys
count-append x [] ys = omega arith
count-append x (y ∷ xs) ys = ground (arith, count-append x xs ys)

count-reverse : (x : ℕ) (xs : List ℕ) → count x (reverse xs) ≡ count x xs
count-reverse x [] = refl
count-reverse x (y ∷ xs) =
    ap (count x) (reverse-append (y ∷ []) xs)
    ∙ count-append x (reverse xs) (y ∷ [])
    ∙ ground (arith, count-reverse x xs)

-- What balanced actions leave behind: the scopes as they were, and more chunks and pointers at most.
-- Each pointer is as often among those dropped and those in `dynamics` as it was before and was handed
-- out.
pub record Ran (m m' : VmMemory) (given dropped : List ℕ) (allocated : ℕ) : Type 0 where
  pub valid : IsValid m'
  pub scopes : m'.scopes ≡ m.scopes
  pub added : (new : List ℕ) × (m'.dynamics ≡ m.dynamics ++ new)
  pub grown : (extra : List Chunk) × (m'.chunks ≡ m.chunks ++ extra)
  pub number : length given ≡ allocated
  pub accounted :
      (x : ℕ) → count x dropped + count x m'.dynamics ≡ count x m.dynamics + count x given

Ran-trans :
    {a b c : VmMemory} {us vs xs ys : List ℕ} {i j : ℕ}
    → Ran a b us xs i
    → Ran b c vs ys j
    → Ran a c (us ++ vs) (xs ++ ys) (i + j)
Ran-trans {a} {us = us} {vs = vs} {xs = xs} {ys = ys} r s = record {
  valid = s.valid;
  scopes = s.scopes ∙ r.scopes;
  added = (
    r.added.0 ++ s.added.0,
    s.added.1 ∙ ap (λ t. t ++ s.added.0) r.added.1 ∙ append_assoc a.dynamics r.added.0 s.added.0,
  );
  grown = (
    r.grown.0 ++ s.grown.0,
    s.grown.1 ∙ ap (λ t. t ++ s.grown.0) r.grown.1 ∙ append_assoc a.chunks r.grown.0 s.grown.0,
  );
  number = omega (arith, r.number, s.number, length-append us vs);
  accounted =
      λ x. omega (arith, r.accounted x, s.accounted x, count-append x xs ys, count-append x us vs);
}

get_elem?-append :
    (cs ds : List Chunk) (i : ℕ) (c : Chunk)
    → get_elem? cs i ≡ some c
    → get_elem? (cs ++ ds) i ≡ some c
get_elem?-append [] ds i c e = cc
get_elem?-append (x ∷ xs) ds zero c e = e
get_elem?-append (x ∷ xs) ds (suc i) c e = get_elem?-append xs ds i c e

-- How a scope whose body took the arena from `enter_scope m` to `n` is left.
record Left (m n m' : VmMemory) (dropped new : List ℕ) : Type 0 where
  returns : exit_scope n ≡ ok (m', dropped)
  order : dropped ≡ reverse new
  valid : IsValid m'
  chunk : m'.chunk ≡ m.chunk
  offset : m'.offset ≡ m.offset
  dynamics : m'.dynamics ≡ m.dynamics
  scopes : m'.scopes ≡ m.scopes
  chunks : m'.chunks ≡ n.chunks

exit_scope_lem :
    (m n : VmMemory)
    → IsValid m
    → {given inner : List ℕ} {k : ℕ} → (r : Ran (enter_scope m) n given inner k)
    → (m' : VmMemory) × (dropped : List ℕ) × Left m n m' dropped r.added.0
unfolding enter_scope exit_scope
exit_scope_lem m n v r =
    let kept = take (length m.dynamics) n.dynamics in
    let gone = drop (length m.dynamics) n.dynamics in
    (
      record n { chunk = m.chunk; offset = m.offset; dynamics = kept; scopes = m.scopes },
      reverse gone,
      record {
        returns = ground (arith, r.scopes, longer);
        order =
            ap reverse {x = gone} {y = r.added.0}
              (rw r.added.1 (drop-length-append m.dynamics r.added.0));
        valid = record {
          here = (
            v.here.0,
            rw r.grown.1 (get_elem?-append m.chunks r.grown.0 m.chunk v.here.0 v.here.1),
            v.here.2,
          );
          small = r.valid.small;
        };
        chunk = refl;
        offset = refl;
        dynamics = rw r.added.1 (take-length-append m.dynamics r.added.0);
        scopes = refl;
        chunks = refl;
      },
    )
  where
    longer : length m.dynamics ≤ length n.dynamics
    longer = omega (arith, ap length r.added.1, length-append m.dynamics r.added.0)

Left-Ran :
    {m n m' : VmMemory} {given inner dropped : List ℕ} {k : ℕ}
    → (r : Ran (enter_scope m) n given inner k) → Left m n m' dropped r.added.0
    → Ran m m' given (inner ++ dropped) k
unfolding enter_scope
Left-Ran {m} {n} {m'} {given} {inner} {dropped} {k} r l = record {
  valid = l.valid;
  scopes = l.scopes;
  added = ([], l.dynamics ∙ sym (append-nil m.dynamics));
  grown = (r.grown.0, l.chunks ∙ r.grown.1);
  number = r.number;
  accounted = λ x. omega (
    arith,
    r.accounted x,
    count-append x inner dropped,
    ap (count x) l.order,
    count-reverse x r.added.0,
    ap (count x) r.added.1,
    count-append x m.dynamics r.added.0,
    ap (count x) l.dynamics,
  );
}

module _ (place : Placement) (dynamic_size dynamic_align : ℕ) where
  -- The outcome of balanced actions from `m`.
  abbrev pub Runs : Outcome (Unit {0}) Trace → VmMemory → ℕ → Type 0
  Runs result m k =
      (m' : VmMemory) × (given : List ℕ) × (dropped : List ℕ) × (result ≡ ok (m', given, dropped))
      × Ran m m' given dropped k

  module _ (size_fits : dynamic_size ≤ 2 ^ 61) (aligned : IsAlignment dynamic_align) where
    bytes-Runs :
        (size : ℕ) (m : VmMemory)
        → size ≤ 2 ^ 61
        → IsValid m
        → Runs (run place dynamic_size dynamic_align (bytes size) m) m 0
    unfolding run alloc_bytes
    bytes-Runs size m h v =
        let (m', p, e, a) = alloc_raw_lem place m size 8 v (omega arith) h in
        (
          m',
          [],
          [],
          rw e,
          record {
            valid = Allocated-IsValid a;
            scopes = a.scopes;
            added = ([], a.dynamics ∙ sym (append-nil m.dynamics));
            grown = a.grown;
            number = refl;
            accounted = λ x. omega (arith, ap (count x) a.dynamics);
          },
        )

    boxed-Ran : (m : VmMemory) → IsValid m → Ran m m [] [] 0
    boxed-Ran m v = record {
      valid = v;
      scopes = refl;
      added = ([], sym (append-nil m.dynamics));
      grown = ([], sym (append-nil m.chunks));
      number = refl;
      accounted = λ x. omega arith;
    }

    dynamic-Runs :
        (m : VmMemory)
        → IsValid m
        → Runs (run place dynamic_size dynamic_align dynamic m) m (if has_scope m then 1 else 0)
    unfolding run alloc_dynamic new_dynamic
    dynamic-Runs m v = elim (Bool-cases (has_scope m)) [
      | inr out ↦ rw out (m, [], [], refl, boxed-Ran m v)
      | inl inside ↦
          let (m', p, e, a) =
            alloc_raw_lem place m dynamic_size dynamic_align v aligned size_fits in
          let new = address m' p ∷ [] in
          rw inside (
            record m' { dynamics = m'.dynamics ++ new },
            new,
            [],
            rw e,
            record {
              valid = record { here = (Allocated-IsValid a).here; small = a.small };
              scopes = a.scopes;
              added = (new, ap (λ t. t ++ new) a.dynamics);
              grown = a.grown;
              number = refl;
              accounted =
                  λ x. omega (arith, ap (count x) a.dynamics, count-append x m'.dynamics new);
            },
          )
    ]

    enter_scope-IsValid : (m : VmMemory) → IsValid m → IsValid (enter_scope m)
    unfolding enter_scope
    enter_scope-IsValid m v = record { here = v.here; small = v.small }

    same_scope : (m n : VmMemory) → n.scopes ≡ m.scopes → has_scope n ≡ has_scope m
    unfolding has_scope
    same_scope m n e = rw e refl

    mutual
      unfolding run has_scope enter_scope

      run-Runs :
          (a : Action) (m : VmMemory)
          → Fits a
          → IsValid m
          → Runs (run place dynamic_size dynamic_align a m) m (allocations (has_scope m) a)
      run-Runs (bytes size) m h v = bytes-Runs size m h v
      run-Runs dynamic m h v = dynamic-Runs m v
      run-Runs (scope body) m h v =
          let (n, given, inner, e, r) =
            run_all-Runs body (enter_scope m) h (enter_scope-IsValid m v) in
          let (m', dropped, l) = exit_scope_lem m n v r in
          (m', given, inner ++ dropped, rw e (rw l.returns), Left-Ran r l)

      run_all-Runs :
          (a : Actions) (m : VmMemory)
          → AllFit a
          → IsValid m
          → Runs (run_all place dynamic_size dynamic_align a m) m (all_allocations (has_scope m) a)
      run_all-Runs finish m h v = (m, [], [], refl, boxed-Ran m v)
      run_all-Runs (chain a rest) m h v =
          let (n, given, first, e, r) = run-Runs a m h.0 v in
          let (m', more, later, e', s) = run_all-Runs rest n h.1 r.valid in
          (
            m',
            given ++ more,
            first ++ later,
            rw e (rw e'),
            Ran-trans r (rw (sym (same_scope m n r.scopes)) s),
          )

    -- From a valid arena, any nest of calls whose requests are at most 2^61 bytes, and that are left
    -- without a result of their own, runs to its end without a panic, keeps the scopes, only adds chunks
    -- and pointers, and takes one `Dynamic` from the arena for each allocation inside a scope. It loses
    -- track of none and drops none twice: each pointer is as often among those dropped and those still
    -- held as among those held before and those handed out.
    pub run_all_lem :
        (a : Actions) (m : VmMemory)
        → AllFit a
        → IsValid m
        → Runs (run_all place dynamic_size dynamic_align a m) m (all_allocations (has_scope m) a)
    run_all_lem a m h v = run_all-Runs a m h v

    -- From a valid arena, with requests of at most 2^61 bytes, a call that is left without a result of
    -- its own gives back all that it allocated, whatever it does in its body: the position of the arena,
    -- the pointers held and the scopes are those from before, and each pointer to a `Dynamic` is dropped
    -- exactly as often as it was handed out in the body, which is once for each allocation there.
    pub scope_restores :
        (body : Actions) (m : VmMemory)
        → AllFit body
        → IsValid m
        → (m' : VmMemory) × (given : List ℕ) × (dropped : List ℕ) × (run place dynamic_size
              dynamic_align
              (scope body)
              m
            ≡ ok (m', given, dropped))
          × (m'.chunk ≡ m.chunk)
          × (m'.offset ≡ m.offset)
          × (m'.dynamics ≡ m.dynamics)
          × (m'.scopes ≡ m.scopes)
          × (length given ≡ all_allocations true body)
          × ((x : ℕ) → count x dropped ≡ count x given)
    unfolding run has_scope enter_scope
    scope_restores body m h v =
        let (n, given, inner, e, r) =
          run_all-Runs body (enter_scope m) h (enter_scope-IsValid m v) in
        let (m', dropped, l) = exit_scope_lem m n v r in
        let whole = Left-Ran r l in
        (
          m',
          given,
          inner ++ dropped,
          rw e (rw l.returns),
          l.chunk,
          l.offset,
          l.dynamics,
          l.scopes,
          r.number,
          λ x. omega (arith, whole.accounted x, ap (count x) l.dynamics),
        )
