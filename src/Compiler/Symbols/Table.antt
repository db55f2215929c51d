-- ===== src/Compiler/Symbols/Table.antt =====
-- compiler/src/symbol.rs: `SymbolTable` with its cache, and the operations that change it. A name in
-- the cache stands before older entries for the same name.
use zust.Prelude.{
  ℕ, suc, ◌+◌, ◌-◌, ◌%◌, ◌^◌, Bool, false, Option, none, some, List, [], ◌∷◌, ◌++◌, length,
  get_elem?, set, ◌==◌, if◌then◌else◌,
}
use zust.Prelude.Outcome.{Outcome, ok, err, panic}
use zust.Dynamic.Value.{Bytes, same_text}
use zust.Compiler.Symbols.{
  IndexMap, Symbol, is_pub, qualified, split_once, Names, in_module, lookup, as_u32, null,
}

-- The last element, and the elements before it.
abbrev pub last_of : List Bytes → Option Bytes
last_of [] = none
last_of (r ∷ []) = some r
last_of (r ∷ s ∷ rs) = last_of (s ∷ rs)

abbrev pub before_last : List Bytes → List Bytes
before_last [] = []
before_last (r ∷ []) = []
before_last (r ∷ s ∷ rs) = r ∷ before_last (s ∷ rs)

-- `iter().position(|r| r == name)`
abbrev pub position : Bytes → List Bytes → Option ℕ
position name [] = none
position name (r ∷ rs) =
    let later = position name rs in
    if same_text r name then some 0 else elim later [ none ↦ none | some i ↦ some (suc i) ]

-- `swap(pos, len - 1)`, or the name behind the others.
abbrev pub moved_last : Bytes → List Bytes → Option ℕ → List Bytes
moved_last name roots none = roots ++ name ∷ []
moved_last name roots (some pos) = elim (last_of roots) [
  | none ↦ roots
  | some r ↦ elim (get_elem? roots pos) [
    | none ↦ roots
    | some q ↦ set (set roots pos r) (length roots - 1) q
  ]
]

-- An entry counts while its epoch lasts.
abbrev pub current : ℕ → Option (ℕ × ℕ) → Option ℕ
current now none = none
current now (some (epoch, id)) = if epoch == now then some id else none

module _ {Capture Body : Type 0} (SM : IndexMap (Symbol Capture Body)) (NM : IndexMap ℕ)
    (MM : IndexMap NM.Map) where
  abbrev N : Type 0
  N = Names SM NM MM

  pub record Table : Type 0 where
    pub names : Names SM NM MM
    pub lookup_cache : List (Bytes × ℕ × ℕ)
    pub lookup_epoch : ℕ

  unfoldable pub invalidate_lookup_cache : Table → Table
  invalidate_lookup_cache t = record t {
    lookup_epoch = (t.lookup_epoch + 1) % 2 ^ 64;
    lookup_cache = [];
  }

  unfoldable pub find_cached : List (Bytes × ℕ × ℕ) → Bytes → Option (ℕ × ℕ)
  find_cached [] name = none
  find_cached ((key, epoch, id) ∷ rest) name =
      if same_text key name then some (epoch, id) else find_cached rest name

  unfoldable pub cached_id : Table → Bytes → Option ℕ
  unfolding find_cached
  cached_id t name = current t.lookup_epoch (find_cached t.lookup_cache name)

  unfoldable pub cache_id : Table → Bytes → ℕ → Table
  cache_id t name id = record t { lookup_cache = (name, t.lookup_epoch, id) ∷ t.lookup_cache }

  unfoldable pub get_id : Table → Bytes → Table × Option ℕ
  get_id t name = elim (cached_id t name) [
    | some id ↦ (t, some id)
    | none ↦ elim (lookup SM NM MM t.names name) [
      | none ↦ (t, none)
      | some id ↦ (cache_id t name id, some id)
    ]
  ]

  -- `get_mut(module)` and an insertion there; nothing without the module.
  unfoldable pub insert_in : MM.Map → Bytes → Bytes → ℕ → MM.Map
  insert_in modules module_name name id = elim (MM.get modules module_name) [
    | none ↦ modules
    | some m ↦ (MM.insert_full modules module_name (NM.insert_full m name id).0).0
  ]

  -- What the operations do to the names.
  unfoldable pub add_to_module : N → Bytes → Bytes → Symbol Capture Body → N × Outcome (Unit {0}) ℕ
  unfolding insert_in
  add_to_module t module_name name s =
      let (symbols', idx) = SM.insert_full t.symbols (qualified module_name name) s in
      let id = idx % 2 ^ 32 in
      (
        record t { symbols = symbols'; modules = insert_in t.modules module_name name id },
        elim (MM.get t.modules module_name) [ none ↦ err tt | some m ↦ ok id ],
      )

  unfoldable pub add : N → Bytes → Symbol Capture Body → N × Outcome (Unit {0}) ℕ
  unfolding insert_in
  add t name s = elim (last_of t.roots) [
    | none ↦ (t, panic)
    | some root ↦
        let (symbols', idx) = SM.insert_full t.symbols (qualified root name) s in
        let id = idx % 2 ^ 32 in
        (record t { symbols = symbols'; modules = insert_in t.modules root name id }, ok id)
  ]

  -- The id that `add_global` returns at once.
  unfoldable pub known_global : N → Bytes → Option ℕ
  known_global t name = elim (as_u32 (SM.get_index_of t.symbols name)) [
    | some id ↦ some id
    | none ↦ elim (split_once name) [
      | none ↦ none
      | some (mod_name, symbol_name) ↦ in_module SM NM MM t mod_name symbol_name
    ]
  ]

  unfoldable pub insert_global : N → Bytes → Symbol Capture Body → N × ℕ
  unfolding insert_in
  insert_global t name s =
      let (symbols', idx) = SM.insert_full t.symbols name s in
      let id = idx % 2 ^ 32 in
      (
        record t {
          symbols = symbols';
          modules = elim (split_once name) [
            | none ↦ t.modules
            | some (mod_name, symbol_name) ↦ insert_in t.modules mod_name symbol_name id
          ];
        },
        id,
      )

  unfoldable pub add_module : N → Bytes → N
  add_module t name = record t {
    roots = moved_last name t.roots (position name t.roots);
    modules = (MM.insert_full t.modules name NM.new).0;
  }

  unfoldable pub push_module_scope : N → Bytes → N
  push_module_scope t name = record t { roots = t.roots ++ name ∷ [] }

  unfoldable pub pop_module_scope : N → N
  pop_module_scope t = record t { roots = before_last t.roots }

  -- The names of a module whose symbols are not public.
  unfoldable pub private_names : SM.Map → List (Bytes × ℕ) → List Bytes
  private_names symbols [] = []
  private_names symbols ((name, id) ∷ rest) =
      let later = private_names symbols rest in
      let public : Bool = elim (SM.get_index symbols id) [ none ↦ false | some s ↦ is_pub s ] in
      if public then later else name ∷ later

  abbrev remove_all : NM.Map → List Bytes → NM.Map
  remove_all m [] = m
  remove_all m (name ∷ rest) = remove_all (NM.shift_remove m name) rest

  unfoldable pub pop_module : N → N
  unfolding private_names
  pop_module t = elim (last_of t.roots) [
    | none ↦ t
    | some root ↦ elim (MM.get t.modules root) [
      | none ↦ record t { roots = before_last t.roots }
      | some m ↦
          let hidden = private_names t.symbols (NM.entries m) in
          record t {
            roots = before_last t.roots;
            modules = (MM.insert_full t.modules root (remove_all m hidden)).0;
          }
    ]
  ]

  -- The slot of the symbol stays, with the default value in it.
  unfoldable pub take : N → ℕ → N × Option (Symbol Capture Body)
  take t id = elim (SM.get_index t.symbols id) [
    | none ↦ (t, none)
    | some s ↦ (record t { symbols = SM.put_index t.symbols id null }, some s)
  ]
