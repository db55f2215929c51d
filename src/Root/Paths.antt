-- ===== src/Root/Paths.antt =====
-- root/src/directory.rs: paths, as bytes, with the methods of `str` that take them apart at slashes.
pub mod Names
use zust.Prelude.{
  ℕ, Bool, true, false, not, ◌&&◌, ◌||◌, Option, none, some, List, [], ◌∷◌, ◌++◌, ◌==◌,
  if◌then◌else◌,
}
use zust.Dynamic.Value.{Bytes, same_text}

abbrev pub slash : ℕ
slash = b'/'

abbrev pub is_empty : {A : Type 0} → List A → Bool
is_empty [] = true
is_empty (x ∷ xs) = false

unfoldable pub starts_with : Bytes → Bytes → Bool
starts_with s [] = true
starts_with [] (p ∷ ps) = false
starts_with (c ∷ s) (p ∷ ps) = c == p && starts_with s ps

unfoldable pub trim_start : Bytes → Bytes
trim_start [] = []
trim_start (c ∷ rest) = let more = trim_start rest in if c == slash then more else c ∷ rest

unfoldable pub trim_end : Bytes → Bytes
trim_end [] = []
trim_end (c ∷ rest) =
    let more = trim_end rest in if c == slash && is_empty more then [] else c ∷ more

-- `split('/')`, whose last part is the one behind the last slash.
abbrev pub on_first : ℕ → List Bytes → List Bytes
on_first c [] = (c ∷ []) ∷ []
on_first c (part ∷ parts) = (c ∷ part) ∷ parts

unfoldable pub split : Bytes → List Bytes
split [] = [] ∷ []
split (c ∷ rest) = let parts = split rest in if c == slash then [] ∷ parts else on_first c parts

-- `filter(|part| !part.is_empty())`
unfoldable pub non_empty : List Bytes → List Bytes
non_empty [] = []
non_empty (part ∷ parts) = let more = non_empty parts in if is_empty part then more else part ∷ more

unfoldable pub rsplit_once : Bytes → Option (Bytes × Bytes)
rsplit_once [] = none
rsplit_once (c ∷ rest) = elim (rsplit_once rest) [
  | some (before, behind) ↦ some (c ∷ before, behind)
  | none ↦ if c == slash then some ([], rest) else none
]

-- "__zust_root_dir__:" and "__zust_root_dir_rebuilt__"
abbrev pub dir_key_prefix : Bytes
dir_key_prefix =
    b'_' ∷ b'_' ∷ b'z' ∷ b'u' ∷ b's' ∷ b't' ∷ b'_' ∷ b'r' ∷ b'o' ∷ b'o' ∷ b't' ∷ b'_' ∷ b'd' ∷ b'i'
    ∷ b'r' ∷ b'_' ∷ b'_' ∷ b':' ∷ []

abbrev pub dir_rebuilt_key : Bytes
dir_rebuilt_key =
    b'_' ∷ b'_' ∷ b'z' ∷ b'u' ∷ b's' ∷ b't' ∷ b'_' ∷ b'r' ∷ b'o' ∷ b'o' ∷ b't' ∷ b'_' ∷ b'd' ∷ b'i'
    ∷ b'r' ∷ b'_' ∷ b'r' ∷ b'e' ∷ b'b' ∷ b'u' ∷ b'i' ∷ b'l' ∷ b't' ∷ b'_' ∷ b'_' ∷ []

unfoldable pub is_internal_key : Bytes → Bool
is_internal_key key = starts_with key dir_key_prefix || same_text key dir_rebuilt_key

unfoldable pub normalize_path : Bytes → Bytes
normalize_path path = trim_end (trim_start path)

unfoldable pub dir_key : Bytes → Bytes
unfolding normalize_path
dir_key path = dir_key_prefix ++ normalize_path path

-- `parent_child`, from the normalised path.
unfoldable pub parent_child_of : Bytes → Option (Bytes × Bytes)
parent_child_of [] = none
parent_child_of (c ∷ path) = elim (rsplit_once (c ∷ path)) [
  | none ↦ some ([], c ∷ path)
  | some (parent, child) ↦ some (parent, child)
]

unfoldable pub parent_child : Bytes → Option (Bytes × Bytes)
unfolding parent_child_of normalize_path
parent_child path = parent_child_of (normalize_path path)

-- The path of a child: `parent`, a slash and the name, without the slash at the root.
unfoldable pub push_name : Bytes → Bytes → Bytes
push_name [] child = child
push_name (c ∷ parent) child = (c ∷ parent) ++ slash ∷ child
