-- ===== src/Root/Directory.antt =====
-- root/src/directory.rs: the index of directories that is kept in redis beside the values. A set under
-- the key of a directory has the names in it.
pub mod Adding
pub mod Entries
pub mod Exact
pub mod Rebuild
pub mod Removing
mod Examples
use zust.Prelude.{
  ℕ, zero, suc, ◌+◌, Bool, true, false, not, ◌||◌, Option, none, some, List, [], ◌∷◌, length, ◌==◌,
  if◌then◌else◌,
}
use zust.Prelude.Outcome.{Outcome, ok, stuck, ◌>>=◌}
use zust.Dynamic.Value.{Bytes}
use zust.Root.Redis.{Redis, Reply}
use zust.Root.Paths.{
  is_empty, is_internal_key, normalize_path, dir_key, dir_rebuilt_key, parent_child, push_name,
  split, non_empty,
}

-- The keys of the index, and the other ones.
unfoldable pub index_keys : List Bytes → List Bytes
index_keys [] = []
index_keys (key ∷ keys) =
    let more = index_keys keys in if is_internal_key key then key ∷ more else more

unfoldable pub other_keys : List Bytes → List Bytes
other_keys [] = []
other_keys (key ∷ keys) =
    let more = other_keys keys in if is_internal_key key then more else key ∷ more

module _ (R : Redis) where
  -- The loop of `add_path`.
  unfoldable pub add_names : Bytes → List Bytes → R.State → Reply R.State
  add_names parent [] s = ok s
  add_names parent (child ∷ names) s = do
    (s', n) ← R.sadd (dir_key parent) child s
    add_names (push_name parent child) names s'

  unfoldable pub add_normalized : Bytes → R.State → Reply R.State
  add_normalized path s =
      if is_empty path || is_internal_key path
      then ok s
      else add_names [] (non_empty (split path)) s

  unfoldable pub add_path : Bytes → R.State → Reply R.State
  unfolding add_normalized
  add_path path s = add_normalized (normalize_path path) s

  unfoldable pub has_index_children : Bytes → R.State → Reply Bool
  has_index_children path s = R.scard (dir_key path) s >>= λ n. ok (not (n == 0))

  -- Each round takes a name off the path, so that its length is enough fuel.
  unfoldable pub remove_empty_entry : ℕ → Bytes → R.State → Reply R.State
  remove_empty_entry zero path s = stuck
  remove_empty_entry (suc fuel) path s = elim (parent_child path) [
    | none ↦ ok s
    | some (parent, child) ↦ do
      (s', removed) ← R.srem (dir_key parent) child s
      n ← R.scard (dir_key parent) s'
      if not (n == 0)
          then ok s'
          else (R.del (dir_key parent ∷ []) s' >>= λ (s'', deleted).
              if is_empty parent
              then ok s''
              else (R.exists_key parent s'' >>= λ there.
                  if there then ok s'' else remove_empty_entry fuel parent s''))
  ]

  unfoldable pub remove_normalized : Bytes → R.State → Reply R.State
  unfolding remove_empty_entry
  remove_normalized path s =
      if is_empty path || is_internal_key path
      then ok s
      else (has_index_children path s >>= λ children.
          if children then ok s else remove_empty_entry (length path + 1) path s)

  unfoldable pub remove_path : Bytes → R.State → Reply R.State
  unfolding remove_normalized
  remove_path path s = remove_normalized (normalize_path path) s

  unfoldable pub delete_keys : List Bytes → R.State → Reply R.State
  delete_keys keys s = if is_empty keys then ok s else (R.del keys s >>= λ (s', n). ok s')

  unfoldable pub add_paths : List Bytes → R.State → Reply R.State
  unfolding add_path
  add_paths [] s = ok s
  add_paths (path ∷ paths) s = add_path path s >>= add_paths paths

  unfoldable pub rebuild : R.State → Reply R.State
  unfolding add_paths
  rebuild s = do
    keys ← R.scan s
    s' ← delete_keys (index_keys keys) s
    add_paths (other_keys keys) s'

  unfoldable pub rebuild_once : R.State → Reply R.State
  unfolding rebuild
  rebuild_once s = do
    done ← R.exists_key dir_rebuilt_key s
    if done then ok s else (rebuild s >>= R.set_text dir_rebuilt_key (b'1' ∷ []))

  unfoldable pub children : Bytes → R.State → Reply (List Bytes)
  children path s = R.smembers (dir_key path) s
