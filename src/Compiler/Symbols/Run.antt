-- ===== src/Compiler/Symbols/Run.antt =====
-- compiler/src/symbol.rs: the table with its cache answers as one without.
use zust.Prelude.{
  ℕ, ◌≡◌, refl, sym, ap, ◌∙◌, Option, none, some, List, [], ◌∷◌, ==_iff, Bool-cases, Option-cases,
  inl, inr, if◌then◌else◌,
}
use zust.Prelude.Outcome.{Outcome, ok}
use zust.Dynamic.Value.{Bytes, same_text}
use zust.Compiler.Symbols.{IndexMap, Symbol, Names, lookup}
use zust.Compiler.Symbols.Table.{
  Table, invalidate_lookup_cache, find_cached, cached_id, cache_id, get_id, add_to_module, add,
  known_global, insert_global, add_module, push_module_scope, pop_module_scope, pop_module, take,
}
use zust.Dynamic.Texts.{same_text→eq}

module _ {Capture Body : Type 0} (SM : IndexMap (Symbol Capture Body)) (NM : IndexMap ℕ)
    (MM : IndexMap NM.Map) where
  abbrev N : Type 0
  N = Names SM NM MM

  abbrev T : Type 0
  T = Table SM NM MM

  -- The calls of the compiler.
  pub data Call : Type 0 where
    ask : Bytes → Call
    put_in_module : Bytes → Bytes → Symbol Capture Body → Call
    put : Bytes → Symbol Capture Body → Call
    put_global : Bytes → Symbol Capture Body → Call
    new_module push_scope : Bytes → Call
    pop_scope close_module : Call
    take_out : ℕ → Call

  pub data Reply : Type 0 where
    id : Option ℕ → Reply
    put_result : Outcome (Unit {0}) ℕ → Reply
    taken : Option (Symbol Capture Body) → Reply
    done : Reply

  -- A change of the names, with the cache dropped before it.
  abbrev change : T → N → T
  change t names' = record (invalidate_lookup_cache SM NM MM t) { names = names' }

  unfoldable pub call : T → Call → T × Reply
  unfolding invalidate_lookup_cache
  call t (ask name) = let (t', r) = get_id SM NM MM t name in (t', id r)
  call t (put_in_module m name s) =
      let (n, r) = add_to_module SM NM MM t.names m name s in (change t n, put_result r)
  call t (put name s) = let (n, r) = add SM NM MM t.names name s in (change t n, put_result r)
  call t (put_global name s) = elim (known_global SM NM MM t.names name) [
    | some known ↦ (t, put_result (ok known))
    | none ↦
        let (n, new) = insert_global SM NM MM t.names name s in (change t n, put_result (ok new))
  ]
  call t (new_module name) = (change t (add_module SM NM MM t.names name), done)
  call t (push_scope name) = (change t (push_module_scope SM NM MM t.names name), done)
  call t pop_scope = (change t (pop_module_scope SM NM MM t.names), done)
  call t close_module = (change t (pop_module SM NM MM t.names), done)
  call t (take_out i) = let (n, s) = take SM NM MM t.names i in (change t n, taken s)

  -- The same on the names alone, each lookup from scratch.
  unfoldable pub plain_call : N → Call → N × Reply
  plain_call t (ask name) = (t, id (lookup SM NM MM t name))
  plain_call t (put_in_module m name s) =
      let (n, r) = add_to_module SM NM MM t m name s in (n, put_result r)
  plain_call t (put name s) = let (n, r) = add SM NM MM t name s in (n, put_result r)
  plain_call t (put_global name s) = elim (known_global SM NM MM t name) [
    | some known ↦ (t, put_result (ok known))
    | none ↦ let (n, new) = insert_global SM NM MM t name s in (n, put_result (ok new))
  ]
  plain_call t (new_module name) = (add_module SM NM MM t name, done)
  plain_call t (push_scope name) = (push_module_scope SM NM MM t name, done)
  plain_call t pop_scope = (pop_module_scope SM NM MM t, done)
  plain_call t close_module = (pop_module SM NM MM t, done)
  plain_call t (take_out i) = let (n, s) = take SM NM MM t i in (n, taken s)

  unfoldable pub calls : T → List Call → List Reply
  unfolding call
  calls t [] = []
  calls t (c ∷ cs) = let (t', r) = call t c in r ∷ calls t' cs

  unfoldable pub plain_calls : N → List Call → List Reply
  unfolding plain_call
  plain_calls t [] = []
  plain_calls t (c ∷ cs) = let (t', r) = plain_call t c in r ∷ plain_calls t' cs

  -- What the cache says is what a lookup finds.
  abbrev pub Coherent : T → Type 0
  Coherent t =
      (name : Bytes) (i : ℕ)
      → cached_id SM NM MM t name ≡ some i
      → lookup SM NM MM t.names name ≡ some i

  change-Coherent : (t : T) (n : N) → Coherent (change t n)
  unfolding invalidate_lookup_cache cached_id
  change-Coherent t n name i h = cc

  cached_id-cache_id :
      (t : T) (name other : Bytes) (i : ℕ)
      → cached_id SM NM MM (cache_id SM NM MM t name i) other
        ≡ (if same_text name other then some i else cached_id SM NM MM t other)
  unfolding cache_id cached_id find_cached
  cached_id-cache_id t name other i = elim (Bool-cases (same_text name other)) [
    | inl y ↦ rw (y, (==_iff t.lookup_epoch t.lookup_epoch).1 refl) refl
    | inr n ↦ rw n refl
  ]

  cache_id-Coherent :
      (t : T) (name : Bytes) (i : ℕ)
      → Coherent t
      → lookup SM NM MM t.names name ≡ some i
      → Coherent (cache_id SM NM MM t name i)
  unfolding cache_id
  cache_id-Coherent t name i h e other j k = elim (Bool-cases (same_text name other)) [
    | inl y ↦ cc (
      ap (lookup SM NM MM t.names) (same_text→eq name other y),
      e,
      k,
      cached_id-cache_id t name other i,
      y,
    )
    | inr n ↦ h other j (cc (k, cached_id-cache_id t name other i, n))
  ]

  get_id_lem :
      (t : T) (name : Bytes)
      → Coherent t
      → Coherent (get_id SM NM MM t name).0
        × ((get_id SM NM MM t name).0.names ≡ t.names)
        × ((get_id SM NM MM t name).1 ≡ lookup SM NM MM t.names name)
  unfolding get_id cache_id
  get_id_lem t name h = elim (Option-cases (cached_id SM NM MM t name)) [
    | inr (i, e) ↦ rw (e, get_id) (h, refl, sym (h name i e))
    | inl e ↦ elim (Option-cases (lookup SM NM MM t.names name)) [
      | inl none_found ↦ rw (e, none_found, get_id) (h, refl, refl)
      | inr (i, found) ↦ rw (e, found, get_id) (cache_id-Coherent t name i h found, refl, refl)
    ]
  ]

  -- One call, on a table and on its names alone.
  call_lem :
      (t : T) (c : Call)
      → Coherent t
      → Coherent (call t c).0
        × ((call t c).0.names ≡ (plain_call t.names c).0)
        × ((call t c).1 ≡ (plain_call t.names c).1)
  unfolding call plain_call
  call_lem t (ask name) h =
      let (kept, same, answer) = get_id_lem t name h in (kept, same, ap id answer)
  call_lem t (put_in_module m name s) h = (change-Coherent t _, refl, refl)
  call_lem t (put name s) h = (change-Coherent t _, refl, refl)
  call_lem t (put_global name s) h = elim (Option-cases (known_global SM NM MM t.names name)) [
    | inl e ↦ rw (e, call, plain_call) (change-Coherent t _, refl, refl)
    | inr (i, e) ↦ rw (e, call, plain_call) (h, refl, refl)
  ]
  call_lem t (new_module name) h = (change-Coherent t _, refl, refl)
  call_lem t (push_scope name) h = (change-Coherent t _, refl, refl)
  call_lem t pop_scope h = (change-Coherent t _, refl, refl)
  call_lem t close_module h = (change-Coherent t _, refl, refl)
  call_lem t (take_out i) h = (change-Coherent t _, refl, refl)

  -- The cache is never seen: from a table whose cache agrees with a lookup, such as a new one, any
  -- sequence of calls is answered as on a table without a cache.
  pub calls-plain_calls :
      (t : T) (cs : List Call) → Coherent t → calls t cs ≡ plain_calls t.names cs
  unfolding calls plain_calls
  calls-plain_calls t [] h = refl
  calls-plain_calls t (c ∷ cs) h =
      let (kept, same, answer) = call_lem t c h in
      rw answer (
        ap (λ r. (plain_call t.names c).1 ∷ r)
          (calls-plain_calls (call t c).0 cs kept ∙ ap (λ n. plain_calls n cs) same))
