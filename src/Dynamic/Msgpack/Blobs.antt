-- ===== src/Dynamic/Msgpack/Blobs.antt =====
-- dynamic/src/msgpack.rs: texts, byte strings and typed vectors read back.
use Prim.Native.Nat.{bit_or}
use zust.Prelude.{
  ℕ, ◌+◌, ◌*◌, ◌^◌, ◌≤◌, ◌<◌, ◌≡◌, refl, ap, arith, [], ◌∷◌, ◌++◌, length, ltb, ltb→lt, le→leb,
  true, false, Bool, if◌then◌else◌, drop-length-append, take-length-append, length-append,
  append_assoc,
}
use zust.Prelude.Bits.{or_0xa0, and_0xa0}
use zust.Prelude.Outcome.{ok}
use zust.Dynamic.Value.{Bytes, Dynamic, string, bytes}
use zust.Dynamic.Msgpack.Encode.{
  encode_str, str_header, encode_bytes, encode_vec, as_u8, write_16, write_32,
}
use zust.Dynamic.Msgpack.Read.{Decoded, Platform, read_8, slice, to_vec, tag_len}
use zust.Dynamic.Msgpack.Decode.{
  text, raw_bytes, typed, decode_first, decode_blobs, decode_numbers, decode_fixext, decode_texts,
  decode_fuel,
}
use zust.Dynamic.Msgpack.Words.{read_8-as_u8, read_16-write_16, read_32-write_32}
use zust.Dynamic.Msgpack.Numbers.{Reads}
use zust.Dynamic.Msgpack.Total.{decode_fuel-cons}

slice_behind :
    (header s rest : Bytes) → slice (header ++ (s ++ rest)) (length header) (length s) ≡ ok s
unfolding slice
slice_behind header s rest =
    rw (le→leb (length header + length s) (length (header ++ (s ++ rest))) fits)
      (rw drop-length-append (ap ok (take-length-append s rest)))
  where
    fits : length header + length s ≤ length (header ++ (s ++ rest))
    fits = omega (arith, length-append header (s ++ rest), length-append s rest)

module _ (p : Platform) (s rest : Bytes) where
  text_behind :
      (header : Bytes) (size : ℕ)
      → p.valid_utf8 s ≡ true
      → text p (header ++ (s ++ rest)) (length header) (length s) size ≡ ok (string s, size)
  unfolding text
  text_behind header size v = rw (slice_behind header s rest) (rw v)

  raw_behind :
      (header : Bytes) (size : ℕ)
      → raw_bytes p (header ++ (s ++ rest)) (length header) (length s) size ≡ ok (bytes s, size)
  unfolding raw_bytes
  raw_behind header size = rw (slice_behind header s rest)

  module _ (dec : Bytes → Decoded Dynamic) (v : p.valid_utf8 s ≡ true) where
    read_d9 :
        length s < 2 ^ 8
        → decode_first p dec 0xd9 (as_u8 (length s) ∷ (s ++ rest)) ≡ ok (string s, 2 + length s)
    unfolding decode_first decode_blobs decode_numbers decode_fixext decode_texts
    read_d9 h = ground (
      arith,
      read_8-as_u8 (length s) (s ++ rest),
      text_behind (as_u8 (length s) ∷ []) (2 + length s),
      length-append s rest,
    )

    read_da :
        length s < 2 ^ 16
        → decode_first p dec 0xda (write_16 (length s) ++ (s ++ rest)) ≡ ok (string s, 3 + length s)
    unfolding decode_first decode_blobs decode_numbers decode_fixext decode_texts
    read_da h = ground (
      arith,
      read_16-write_16 (length s) (s ++ rest),
      text_behind (write_16 (length s)) (3 + length s),
      length-append s rest,
    )

    read_db :
        length s < 2 ^ 32
        → decode_first p dec 0xdb (write_32 (length s) ++ (s ++ rest)) ≡ ok (string s, 5 + length s)
    unfolding decode_first decode_blobs decode_numbers decode_fixext decode_texts
    read_db h = ground (
      arith,
      read_32-write_32 (length s) (s ++ rest),
      text_behind (write_32 (length s)) (5 + length s),
      length-append s rest,
    )

    read_a0 :
        length s < 32
        → decode_first p dec (0xa0 + length s) (s ++ rest) ≡ ok (string s, 1 + length s)
    unfolding decode_first
    read_a0 h =
        ground (arith, and_0xa0 (length s), text_behind [] (1 + length s), length-append s rest)

  module _ (dec : Bytes → Decoded Dynamic) where
    read_c4 :
        length s < 2 ^ 8
        → decode_first p dec 0xc4 (as_u8 (length s) ∷ (s ++ rest)) ≡ ok (bytes s, 2 + length s)
    unfolding decode_first decode_blobs
    read_c4 h = ground (
      arith,
      read_8-as_u8 (length s) (s ++ rest),
      raw_behind (as_u8 (length s) ∷ []) (2 + length s),
      length-append s rest,
    )

    read_c5 :
        length s < 2 ^ 16
        → decode_first p dec 0xc5 (write_16 (length s) ++ (s ++ rest)) ≡ ok (bytes s, 3 + length s)
    unfolding decode_first decode_blobs
    read_c5 h = ground (
      arith,
      read_16-write_16 (length s) (s ++ rest),
      raw_behind (write_16 (length s)) (3 + length s),
      length-append s rest,
    )

    read_c6 :
        length s < 2 ^ 32
        → decode_first p dec 0xc6 (write_32 (length s) ++ (s ++ rest)) ≡ ok (bytes s, 5 + length s)
    unfolding decode_first decode_blobs
    read_c6 h = ground (
      arith,
      read_32-write_32 (length s) (s ++ rest),
      raw_behind (write_32 (length s)) (5 + length s),
      length-append s rest,
    )

read_8-cons : (b : ℕ) (rest : Bytes) → read_8 (b ∷ rest) ≡ b
unfolding read_8
read_8-cons b rest = refl

-- A typed vector of `len` elements that take `width` bytes each.
module _ (p : Platform) (raw rest : Bytes) (len width tag : ℕ) (v : Dynamic) where
  module _ (sized : length raw ≡ len * width) (w : tag_len tag ≡ ok width)
      (made : to_vec raw tag ≡ ok v) where
    typed_behind :
        (header : Bytes)
        → typed p (header ++ (raw ++ rest)) (length header) len tag
          ≡ ok (v, length header + 1 + length raw)
    unfolding typed
    typed_behind header = rw w (rw (← sized) (rw (slice_behind header raw rest) (rw made)))

    module _ (dec : Bytes → Decoded Dynamic) (guard : 4 ≤ length raw) where
      -- The element code is behind the length.
      read_c7 :
          len < 2 ^ 8
          → decode_first p dec 0xc7 ((as_u8 len ∷ tag ∷ []) ++ (raw ++ rest))
            ≡ ok (v, 3 + length raw)
      unfolding decode_first decode_blobs
      read_c7 h = ground (
        arith,
        read_8-as_u8 len (tag ∷ (raw ++ rest)),
        read_8-cons tag (raw ++ rest),
        typed_behind (as_u8 len ∷ tag ∷ []),
        length-append raw rest,
      )

      read_c8 :
          len < 2 ^ 16
          → decode_first p dec 0xc8 ((write_16 len ++ tag ∷ []) ++ (raw ++ rest))
            ≡ ok (v, 4 + length raw)
      unfolding decode_first decode_blobs
      read_c8 h = ground (
        arith,
        read_16-write_16 len (tag ∷ (raw ++ rest)),
        read_8-cons tag (raw ++ rest),
        typed_behind (write_16 len ++ tag ∷ []),
        length-append raw rest,
      )

      read_c9 :
          len < 2 ^ 32
          → decode_first p dec 0xc9 ((write_32 len ++ tag ∷ []) ++ (raw ++ rest))
            ≡ ok (v, 6 + length raw)
      unfolding decode_first decode_blobs
      read_c9 h = ground (
        arith,
        read_32-write_32 len (tag ∷ (raw ++ rest)),
        read_8-cons tag (raw ++ rest),
        typed_behind (write_32 len ++ tag ∷ []),
        length-append raw rest,
      )

pub as_u8_small : (n : ℕ) → n < 256 → as_u8 n ≡ n
as_u8_small n h = omega arith

-- A code, a header and a body are read as `decode_first` reads what is behind the code.
module _ (p : Platform) (fuel : ℕ) where
  pub framed_Reads :
      (code : ℕ) (header s : Bytes) (v : Dynamic)
      → ((rest : Bytes)
          → decode_first p (decode_fuel p fuel) code (header ++ (s ++ rest))
            ≡ ok (v, length header + 1 + length s))
      → Reads p fuel ((code ∷ header) ++ s) v
  framed_Reads code header s v step rest = ground (
    arith,
    decode_fuel-cons p fuel code ((header ++ s) ++ rest),
    append_assoc header s rest,
    step rest,
    length-append header s,
  )

  pub if_framed :
      (b : Bool) (xs ys s : Bytes) (v : Dynamic)
      → (b ≡ true → Reads p fuel (xs ++ s) v)
      → (b ≡ false → Reads p fuel (ys ++ s) v)
      → Reads p fuel ((if b then xs else ys) ++ s) v
  if_framed true xs ys s v f g = f refl
  if_framed false xs ys s v f g = g refl

  module _ (s : Bytes) (h : length s < 2 ^ 32) where
    fix_str_Reads :
        p.valid_utf8 s ≡ true
        → length s < 32
        → Reads p fuel ((bit_or 0xa0 (as_u8 (length s)) ∷ []) ++ s) (string s)
    fix_str_Reads v small = framed_Reads (bit_or 0xa0 (as_u8 (length s))) [] s (string s) (λ rest.
        rw (as_u8_small (length s) (omega arith))
          (rw (or_0xa0 (length s) small) (read_a0 p s rest _ v small)))

    -- Every UTF-8 text of less than 2^32 bytes is read back.
    pub str_Reads : p.valid_utf8 s ≡ true → Reads p fuel (encode_str s) (string s)
    unfolding encode_str str_header
    str_Reads v =
        if_framed (ltb (length s) 0x20) _ _ s (string s) (λ e. fix_str_Reads v (ltb→lt _ _ e))
          (λ _.
            if_framed (ltb (length s) 0x100) _ _ s (string s)
              (λ e.
                framed_Reads 0xd9 (as_u8 (length s) ∷ []) s (string s)
                  (λ rest. read_d9 p s rest _ v (ltb→lt _ _ e)))
              (λ _.
                if_framed (ltb (length s) 0x10000) _ _ s (string s)
                  (λ e.
                    framed_Reads 0xda (write_16 (length s)) s (string s)
                      (λ rest. read_da p s rest _ v (ltb→lt _ _ e)))
                  (λ _.
                    framed_Reads 0xdb (write_32 (length s)) s (string s)
                      (λ rest. read_db p s rest _ v h))))

    pub bytes_Reads : Reads p fuel (encode_bytes s) (bytes s)
    unfolding encode_bytes
    bytes_Reads =
        if_framed (ltb (length s) 0x100) _ _ s (bytes s)
          (λ e.
            framed_Reads 0xc4 (as_u8 (length s) ∷ []) s (bytes s)
              (λ rest. read_c4 p s rest _ (ltb→lt _ _ e)))
          (λ _.
            if_framed (ltb (length s) 0x10000) _ _ s (bytes s)
              (λ e.
                framed_Reads 0xc5 (write_16 (length s)) s (bytes s)
                  (λ rest. read_c5 p s rest _ (ltb→lt _ _ e)))
              (λ _.
                framed_Reads 0xc6 (write_32 (length s)) s (bytes s) (λ rest. read_c6 p s rest _ h)))

  -- A typed vector of four bytes at least is read back.
  pub vec_Reads :
      (raw : Bytes) (len width tag : ℕ) (v : Dynamic)
      → length raw ≡ len * width
      → tag_len tag ≡ ok width
      → to_vec raw tag ≡ ok v
      → 4 ≤ length raw
      → len < 2 ^ 32
      → Reads p fuel (encode_vec raw len tag) v
  unfolding encode_vec
  vec_Reads raw len width tag v sized w made guard h =
      if_framed (ltb len 0x100) _ _ raw v
        (λ e.
          framed_Reads 0xc7 (as_u8 len ∷ tag ∷ []) raw v
            (λ rest. read_c7 p raw rest len width tag v sized w made _ guard (ltb→lt _ _ e)))
        (λ _.
          if_framed (ltb len 0x10000) _ _ raw v
            (λ e.
              framed_Reads 0xc8 (write_16 len ++ tag ∷ []) raw v
                (λ rest. read_c8 p raw rest len width tag v sized w made _ guard (ltb→lt _ _ e)))
            (λ _.
              framed_Reads 0xc9 (write_32 len ++ tag ∷ []) raw v
                (λ rest. read_c9 p raw rest len width tag v sized w made _ guard h)))
