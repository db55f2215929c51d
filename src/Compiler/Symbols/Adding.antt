-- ===== src/Compiler/Symbols/Adding.antt =====
-- compiler/src/symbol.rs: a symbol that was added is found under its full name.
use zust.Prelude.{ℕ, ◌%◌, ◌^◌, ◌<◌, ◌≡◌, refl, ap, ◌∙◌, arith, some}
use zust.Prelude.Outcome.{ok}
use zust.Dynamic.Value.{Bytes}
use zust.Compiler.Symbols.{IndexMap, Symbol, Names, lookup, qualified}
use zust.Compiler.Symbols.Table.{add, last_of}

-- What the documentation of IndexMap says of `insert_full`: the index that it returns is the key's,
-- and the value stands there.
pub record IsLawful {V : Type 0} (M : IndexMap V) : Type 0 where
  pub get_index_of-insert_full :
      (m : M.Map) (k : Bytes) (v : V)
      → M.get_index_of (M.insert_full m k v).0 k ≡ some (M.insert_full m k v).1
  pub get_index-insert_full :
      (m : M.Map) (k : Bytes) (v : V)
      → M.get_index (M.insert_full m k v).0 (M.insert_full m k v).1 ≡ some v

small_index : (n : ℕ) → n < 2 ^ 32 → n % 2 ^ 32 ≡ n
small_index n h = omega arith

module _ {Capture Body : Type 0} (SM : IndexMap (Symbol Capture Body)) (NM : IndexMap ℕ)
    (MM : IndexMap NM.Map) (laws : IsLawful SM) where
  -- With a root, `add` gives an id; the full name of the symbol is found with that id, and the
  -- symbol stands there, where the table has fewer than 2^32 symbols.
  pub lookup-add :
      (t : Names SM NM MM) (root name : Bytes) (s : Symbol Capture Body)
      → last_of t.roots ≡ some root
      → (SM.insert_full t.symbols (qualified root name) s).1 < 2 ^ 32
      → (id : ℕ) × ((add SM NM MM t name s).1 ≡ ok id)
        × (lookup SM NM MM (add SM NM MM t name s).0 (qualified root name) ≡ some id)
        × (SM.get_index (add SM NM MM t name s).0.symbols id ≡ some s)
  unfolding add lookup
  lookup-add t root name s e room =
      let idx = (SM.insert_full t.symbols (qualified root name) s).1 in
      (
        idx % 2 ^ 32,
        rw (e, add) refl,
        rw (e, add) (rw (laws.get_index_of-insert_full t.symbols (qualified root name) s) refl),
        rw (e, add)
            (ap (SM.get_index _) (small_index idx room)
              ∙ laws.get_index-insert_full t.symbols (qualified root name) s),
      )
