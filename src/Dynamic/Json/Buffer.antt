-- ===== src/Dynamic/Json/Buffer.antt =====
-- dynamic/src/json.rs: what every reader of the buffer uses. `rest` stands for `buf[pos..]`.
use zust.Prelude.{ℕ, suc, ◌+◌, Bool, ◌||◌, [], ◌∷◌, Option, length, drop, leb, ◌==◌, if◌then◌else◌}
use zust.Prelude.Outcome.{Outcome, ok, err, panic, ◌>>=◌}
use zust.Dynamic.Value.{Bytes}

pub data JsonErr : Type 0 where
  no_more_data incomplete_string incomplete_unicode bad_unicode : JsonErr
  unknown_escape : ℕ → JsonErr
  bad_utf8 need_key need_colon bad_number : JsonErr

abbrev pub Read : Type 0 → Type 0
Read A = Outcome JsonErr (A × ℕ)

-- What json.rs calls in the standard library on floats and on UTF-8. A float is its bit pattern.
pub record Text : Type 0 where
  pub valid_utf8 : Bytes → Bool
  pub parse_f64 : Bytes → Option ℕ
  pub f32_to_string : ℕ → Bytes
  pub f64_to_string : ℕ → Bytes

unfoldable pub is_white : ℕ → Bool
is_white c = c == b' ' || c == b'\r' || c == b'\t' || c == b'\n'

unfoldable pub white_run : Bytes → ℕ
white_run [] = 0
white_run (c ∷ rest) = let n = white_run rest in if is_white c then suc n else 0

unfoldable pub skip_white : Bytes → Outcome JsonErr ℕ
skip_white buf =
    let pos = white_run buf in if leb (length buf) pos then err no_more_data else ok pos

-- `&buf[pos..]` panics past the end.
unfoldable pub from : Bytes → ℕ → Outcome JsonErr Bytes
from buf pos = if leb pos (length buf) then ok (drop pos buf) else panic

-- `pos += skip_white(&buf[pos..])?` for a `pos` that is `size` further on.
unfoldable pub skip : Bytes → ℕ → ℕ → Outcome JsonErr (Bytes × ℕ)
skip rest pos size = do
  here ← from rest size
  white ← skip_white here
  ok (drop white here, pos + size + white)
