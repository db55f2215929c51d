-- ===== src/Compiler/Symbols.antt =====
-- compiler/src/symbol.rs: `SymbolTable`. Names are their bytes. The ordered maps are IndexMaps of the
-- crate indexmap, a parameter; the lookup cache is a HashMap of the standard library.
pub mod Table
pub mod Run
pub mod Adding
mod Examples
use zust.Prelude.{
  ℕ, zero, suc, ◌+◌, ◌-◌, ◌%◌, ◌^◌, Bool, true, false, ◌&&◌, not, Option, none, some, List, [], ◌∷◌,
  ◌++◌, length, get_elem?, set, ◌==◌, if◌then◌else◌,
}
use zust.Prelude.Outcome.{Outcome, ok, err, panic, ◌>>=◌}
use zust.Dynamic.Value.{Dynamic, Bytes, same_text}
use zust.Dynamic.Types.{Ty, Tys, fn}

-- indexmap::IndexMap<SmolStr, V>
pub record IndexMap (V : Type 0) : Type 1 where
  pub Map : Type 0
  pub new : Map
  pub get : Map → Bytes → Option V
  pub insert_full : Map → Bytes → V → Map × ℕ
  pub get_index_of : Map → Bytes → Option ℕ
  pub get_index : Map → ℕ → Option V
  pub put_index : Map → ℕ → V → Map
  pub shift_remove : Map → Bytes → Map
  pub entries : Map → List (Bytes × V)

-- What a symbol is, for a type of captured variables and one of bodies of functions.
pub data Symbol (Capture Body : Type 0) : Type 0 where
  null : Symbol Capture Body
  const : Dynamic → Ty → Bool → Symbol Capture Body
  static_value : Option Dynamic → Ty → Bool → Symbol Capture Body
  struct_type : Ty → Bool → Symbol Capture Body
  function : Ty → List Bytes → Tys → Capture → Body → Bool → Symbol Capture Body
  native : Ty → Symbol Capture Body

module _ {Capture Body : Type 0} where
  unfoldable pub is_pub : Symbol Capture Body → Bool
  is_pub (const value ty public) = public
  is_pub (static_value value ty public) = public
  is_pub (struct_type ty public) = public
  is_pub (function ty args params cap body public) = public
  is_pub _ = true

  unfoldable pub is_fn : Symbol Capture Body → Bool
  is_fn (function ty args params cap body public) = true
  is_fn (native ty) = true
  is_fn _ = false

  unfoldable pub native_fn : Tys → Ty → Symbol Capture Body
  native_fn tys ret = native (fn tys ret)

-- "::"
abbrev pub separator : Bytes
separator = 58 ∷ 58 ∷ []

-- `format!("{module}::{name}")`
abbrev pub qualified : Bytes → Bytes → Bytes
qualified module_name name = module_name ++ separator ++ name

-- `split_once("::")`
unfoldable pub split_once : Bytes → Option (Bytes × Bytes)
split_once [] = none
split_once (a ∷ []) = none
split_once (a ∷ b ∷ rest) =
    let later = split_once (b ∷ rest) in
    if a == 58 && b == 58
    then some ([], rest)
    else elim later [ none ↦ none | some (l, r) ↦ some (a ∷ l, r) ]

abbrev pub or_else : {A : Type 0} → Option A → Option A → Option A
or_else none later = later
or_else (some a) later = some a

-- `as u32`
abbrev pub as_u32 : Option ℕ → Option ℕ
as_u32 none = none
as_u32 (some idx) = some (idx % 2 ^ 32)

module _ {S : Type 0} (SM : IndexMap S) (NM : IndexMap ℕ) (MM : IndexMap NM.Map) where
  -- The fields of the table that a lookup reads.
  pub record Names : Type 0 where
    pub symbols : SM.Map
    pub modules : MM.Map
    pub roots : List Bytes

  -- `modules.get(module).and_then(|m| m.get(name))`
  unfoldable pub in_module : Names → Bytes → Bytes → Option ℕ
  in_module t module_name name = elim (MM.get t.modules module_name) [
    | none ↦ none
    | some m ↦ NM.get m name
  ]

  -- The id that stands in a module, or the one of the full name.
  unfoldable pub under_root : Names → Bytes → Bytes → Option ℕ
  unfolding in_module
  under_root t root name =
      or_else (in_module t root name) (as_u32 (SM.get_index_of t.symbols (qualified root name)))

  unfoldable pub under_roots : Names → List Bytes → Bytes → Option ℕ
  unfolding under_root
  under_roots t [] name = none
  under_roots t (root ∷ roots) name = or_else (under_root t root name) (under_roots t roots name)

  unfoldable pub in_any : List (Bytes × NM.Map) → Bytes → Option ℕ
  in_any [] name = none
  in_any ((module_name, m) ∷ ms) name = or_else (NM.get m name) (in_any ms name)

  abbrev pub last_first : List Bytes → List Bytes → List Bytes
  last_first [] done = done
  last_first (r ∷ rs) done = last_first rs (r ∷ done)

  -- `get_id` behind its cache: the full name, the two parts of it, the roots from the last on, and
  -- at last any module.
  unfoldable pub lookup : Names → Bytes → Option ℕ
  unfolding under_root under_roots in_any split_once
  lookup t name = or_else (as_u32 (SM.get_index_of t.symbols name)) (
      or_else
        (elim (split_once name) [
          | none ↦ none
          | some (mod_name, sym_name) ↦ under_root t mod_name sym_name
        ])
        (or_else (under_roots t (last_first t.roots []) name) (in_any (MM.entries t.modules) name)))
