-- ===== src/Dynamic/Msgpack/Limits.antt =====
-- dynamic/src/msgpack.rs: typed vectors that `decode` does not read back.
use native.Mathlib.Numerals.{add-one}
use zust.Prelude.{ℕ, suc, ◌+◌, ◌*◌, ◌≤◌, ◌<◌, ◌≡◌, refl, ◌∙◌, arith, ◌∷◌, length, lt→ltb, ap}
use zust.Prelude.Outcome.{ok, err, panic}
use zust.Dynamic.Value.{Bytes, vec_i8}
use zust.Dynamic.Msgpack.Encode.{encode, encode_vec, as_u8}
use zust.Dynamic.Msgpack.Read.{Platform, no_data, tag_len, read_8, slice}
use zust.Dynamic.Msgpack.Decode.{decode_first, decode_blobs, typed, decode_fuel, decode}
use zust.Dynamic.Msgpack.Total.{decode_fuel-cons}

module _ (p : Platform) where
  decode_lem : (buf : Bytes) → decode p buf ≡ decode_fuel p (length buf + 1) buf
  unfolding decode
  decode_lem buf = refl

  decode-cons :
      (first : ℕ) (rest : Bytes)
      → decode p (first ∷ rest) ≡ decode_first p (decode_fuel p (suc (length rest))) first rest
  decode-cons first rest =
      decode_lem (first ∷ rest)
      ∙ ap (λ (n : ℕ). decode_fuel p n (first ∷ rest)) (add-one (suc (length rest)))
      ∙ decode_fuel-cons p (suc (length rest)) first rest

  -- A buffer that announces more elements than it holds makes `decode` panic instead of returning
  -- an error: seven bytes at least, the code 0xc7, a known element code, and a payload that is
  -- shorter than the length says.
  pub decode_panics :
      (len tag width : ℕ) (payload : Bytes)
      → tag_len tag ≡ ok width
      → 4 ≤ length payload
      → length payload < len * width
      → decode p (0xc7 ∷ len ∷ tag ∷ payload) ≡ panic
  unfolding decode_first decode_blobs typed slice read_8
  decode_panics len tag width payload w guard short =
      decode-cons 0xc7 (len ∷ tag ∷ payload) ∙ ground (arith, w)

  -- A vector of `i8` with fewer than four elements is encoded, and what was encoded is refused.
  pub decode-encode_short :
      (f16_to_f64 : ℕ → ℕ) (raw : Bytes)
      → length raw < 4
      → decode p (encode f16_to_f64 (vec_i8 raw)) ≡ err no_data
  unfolding encode encode_vec decode_first decode_blobs
  decode-encode_short f16_to_f64 raw h =
      rw (lt→ltb (length raw) 0x100 (omega arith))
        (decode-cons 0xc7 (as_u8 (length raw) ∷ 1 ∷ raw) ∙ ground arith)
