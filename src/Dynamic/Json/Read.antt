-- ===== src/Dynamic/Json/Read.antt =====
-- dynamic/src/json.rs, `FromJson for Dynamic`.
use zust.Prelude.{ℕ, zero, suc, ◌+◌, [], ◌∷◌, length, drop, ◌==◌, if◌then◌else◌}
use zust.Prelude.Outcome.{Outcome, ok, err, panic, stuck, ◌>>=◌}
use zust.Dynamic.Value.{Bytes, Dynamic, string, list, map, Items, nil, cons, Fields, end, insert}
use zust.Dynamic.Json.Buffer.{JsonErr, need_key, need_colon, Read, Text, skip_white, skip}
use zust.Dynamic.Json.Strings.{get_string}
use zust.Dynamic.Json.Numbers.{get_token, token_value}

-- White space, a comma if there is one, and white space behind it.
unfoldable pub comma : Bytes → ℕ → Outcome JsonErr (Bytes × ℕ)
comma [] pos = panic
comma (c ∷ rest) pos = if c == b',' then skip (c ∷ rest) pos 1 else ok (c ∷ rest, pos)

unfoldable pub next_item : Bytes → ℕ → ℕ → Outcome JsonErr (Bytes × ℕ)
next_item rest pos size = skip rest pos size >>= λ (here, at). comma here at

-- The colon behind a key.
unfoldable pub colon : Bytes → ℕ → Outcome JsonErr (Bytes × ℕ)
colon [] pos = panic
colon (c ∷ rest) pos = if c == b':' then skip (c ∷ rest) pos 1 else err need_colon

unfoldable pub string_at : Text → Bytes → Read Dynamic
string_at t rest = do (s, size) ← get_string t rest; ok (string s, size)

unfoldable pub token_at : Text → Bytes → Read Dynamic
token_at t rest = do
  let (token, size) = get_token rest
  value ← token_value t token
  ok (value, size)

module _ (dec : Bytes → Read Dynamic) where
  -- The loop of a list, with the reader that it calls for the items. `rest` is `buf[pos..]`.
  unfoldable pub list_loop : ℕ → Bytes → ℕ → Read Items
  list_loop zero rest pos = stuck
  list_loop (suc fuel) [] pos = panic
  list_loop (suc fuel) (c ∷ rest) pos = if c == b']' then ok (nil, pos + 1) else do
    (item, size) ← dec (c ∷ rest)
    (here, at) ← next_item (c ∷ rest) pos size
    (items, stop) ← list_loop fuel here at
    ok (cons item items, stop)

  -- One entry: the key, the value, and where the reader stands before the next one.
  unfoldable pub entry : Text → Bytes → ℕ → Outcome JsonErr (Bytes × Dynamic × Bytes × ℕ)
  entry t rest pos = do
    (key, key_size) ← get_string t rest
    (behind, sep) ← skip rest pos key_size
    (there, start) ← colon behind sep
    (item, size) ← dec there
    (here, at) ← next_item there start size
    ok (key, item, here, at)

  unfoldable pub map_loop : Text → ℕ → Bytes → ℕ → Fields → Read Fields
  map_loop t zero rest pos acc = stuck
  map_loop t (suc fuel) [] pos acc = panic
  map_loop t (suc fuel) (c ∷ rest) pos acc =
      if c == b'}'
      then ok (acc, pos + 1)
      else if c == b'"'
      then (entry t (c ∷ rest) pos >>= λ (key, item, here, at).
          map_loop t fuel here at (insert key item acc))
      else err need_key

  -- The branches of `from_json`, with `rest` from the first byte that is not white. Only a list and
  -- a map count the `pos` bytes before it.
  unfoldable pub list_at : Bytes → ℕ → Read Dynamic
  list_at rest pos = do
    (here, at) ← skip rest pos 1
    (items, stop) ← list_loop (length rest) here at
    ok (list items, stop)

  unfoldable pub map_at : Text → Bytes → ℕ → Read Dynamic
  map_at t rest pos = do
    (here, at) ← skip rest pos 1
    (fields, stop) ← map_loop t (length rest) here at end
    ok (map fields, stop)

  unfoldable pub value_at : Text → Bytes → ℕ → Read Dynamic
  value_at t [] pos = panic
  value_at t (c ∷ rest) pos =
      if c == b'['
      then list_at (c ∷ rest) pos
      else if c == b'{'
      then map_at t (c ∷ rest) pos
      else if c == b'"'
      then string_at t (c ∷ rest)
      else token_at t (c ∷ rest)

-- The fuel bounds the depth of nesting.
unfoldable pub from_json_fuel : Text → ℕ → Bytes → Read Dynamic
from_json_fuel t zero buf = stuck
from_json_fuel t (suc fuel) buf = do
  pos ← skip_white buf
  value_at (from_json_fuel t fuel) t (drop pos buf) pos

unfoldable pub from_json : Text → Bytes → Read Dynamic
unfolding from_json_fuel
from_json t buf = from_json_fuel t (length buf + 1) buf
