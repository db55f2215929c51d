-- ===== src/Compiler/Symbols/Examples.antt =====
-- The laws of the symbol table at small tables, over maps that are lists of entries in their order.
use zust.Prelude.{
  ℕ, zero, suc, ◌^◌, ◌<◌, ◌≡◌, refl, arith, Option, none, some, List, [], ◌∷◌, Bool-cases, inl, inr,
  if◌then◌else◌,
}
use zust.Prelude.Outcome.{ok}
use zust.Dynamic.Value.{Bytes, same_text}
use zust.Dynamic.Types.{i32}
use zust.Compiler.Symbols.{IndexMap, Symbol, Names, lookup, qualified, native}
use zust.Compiler.Symbols.Table.{Table, add, cached_id}
use zust.Compiler.Symbols.Run.{calls, plain_calls, Call, ask, put, calls-plain_calls, Coherent}
use zust.Compiler.Symbols.Adding.{IsLawful, lookup-add}
use zust.Dynamic.Texts.{same_text_refl}

module _ {V : Type 0} where
  value_at : List (Bytes × V) → Bytes → Option V
  value_at [] k = none
  value_at ((j, v) ∷ m) k = if same_text j k then some v else value_at m k

  index_at : List (Bytes × V) → Bytes → Option ℕ
  index_at [] k = none
  index_at ((j, v) ∷ m) k =
      let later = index_at m k in
      if same_text j k then some 0 else elim later [ none ↦ none | some i ↦ some (suc i) ]

  written : List (Bytes × V) → Bytes → V → List (Bytes × V)
  written [] k v = (k, v) ∷ []
  written ((j, w) ∷ m) k v = if same_text j k then (j, v) ∷ m else (j, w) ∷ written m k v

  index_of : List (Bytes × V) → Bytes → ℕ
  index_of [] k = 0
  index_of ((j, w) ∷ m) k = if same_text j k then 0 else suc (index_of m k)

  nth : List (Bytes × V) → ℕ → Option V
  nth [] i = none
  nth ((j, w) ∷ m) zero = some w
  nth ((j, w) ∷ m) (suc i) = nth m i

  put_nth : List (Bytes × V) → ℕ → V → List (Bytes × V)
  put_nth [] i v = []
  put_nth ((j, w) ∷ m) zero v = (j, v) ∷ m
  put_nth ((j, w) ∷ m) (suc i) v = (j, w) ∷ put_nth m i v

  without : List (Bytes × V) → Bytes → List (Bytes × V)
  without [] k = []
  without ((j, w) ∷ m) k = if same_text j k then m else (j, w) ∷ without m k

  index_at-written :
      (m : List (Bytes × V)) (k : Bytes) (v : V) → index_at (written m k v) k ≡ some (index_of m k)
  unfolding index_at written index_of
  index_at-written [] k v = rw (same_text_refl k) refl
  index_at-written ((j, w) ∷ m) k v = elim (Bool-cases (same_text j k)) [
    | inl y ↦ rw (y, y) refl
    | inr n ↦ rw (n, n, index_at-written m k v) refl
  ]

  nth-written :
      (m : List (Bytes × V)) (k : Bytes) (v : V) → nth (written m k v) (index_of m k) ≡ some v
  unfolding nth written index_of
  nth-written [] k v = refl
  nth-written ((j, w) ∷ m) k v = elim (Bool-cases (same_text j k)) [
    | inl y ↦ rw y refl
    | inr n ↦ rw n (nth-written m k v)
  ]

abbrev list_map : (V : Type 0) → IndexMap V
list_map V = record {
  Map = List (Bytes × V);
  new = [];
  get = value_at;
  insert_full = λ m k v. (written m k v, index_of m k);
  get_index_of = index_at;
  get_index = nth;
  put_index = put_nth;
  shift_remove = without;
  entries = λ m. m;
}

list_map-IsLawful : (V : Type 0) → IsLawful (list_map V)
list_map-IsLawful V = record {
  get_index_of-insert_full = index_at-written;
  get_index-insert_full = nth-written;
}

-- A program's symbols: captured variables and bodies play no part here.
abbrev Name : Type 0
Name = Symbol (Unit {0}) (Unit {0})

abbrev SM : IndexMap Name
SM = list_map Name

abbrev NM : IndexMap ℕ
NM = list_map ℕ

abbrev MM : IndexMap (List (Bytes × ℕ))
MM = list_map (List (Bytes × ℕ))

-- The module "m", with nothing in it.
abbrev names : Names SM NM MM
names = record { symbols = []; modules = ((109 ∷ []), []) ∷ []; roots = (109 ∷ []) ∷ [] }

abbrev table : Table SM NM MM
table = record { names = names; lookup_cache = []; lookup_epoch = 0 }

table-Coherent : Coherent SM NM MM table
unfolding cached_id
table-Coherent name i h = cc

-- "x" is unknown, then added, then asked for twice, the second time from the cache.
abbrev session : List (Call SM NM MM)
session = ask (120 ∷ []) ∷ put (120 ∷ []) (native i32) ∷ ask (120 ∷ []) ∷ ask (120 ∷ []) ∷ []

calls-plain_calls_example : calls SM NM MM table session ≡ plain_calls SM NM MM names session
calls-plain_calls_example = calls-plain_calls SM NM MM table session table-Coherent

few : (SM.insert_full names.symbols (qualified (109 ∷ []) (120 ∷ [])) (native i32)).1 < 2 ^ 32
unfolding index_of
few = omega arith

lookup-add_example :
    (id : ℕ) × ((add SM NM MM names (120 ∷ []) (native i32)).1 ≡ ok id)
    × (lookup SM NM MM (add SM NM MM names (120 ∷ []) (native i32)).0 (109 ∷ 58 ∷ 58 ∷ 120 ∷ [])
        ≡ some id)
    × (SM.get_index (add SM NM MM names (120 ∷ []) (native i32)).0.symbols id ≡ some (native i32))
lookup-add_example =
    lookup-add SM NM MM (list_map-IsLawful Name) names (109 ∷ []) (120 ∷ []) (native i32) refl few
