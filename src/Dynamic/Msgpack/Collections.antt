-- ===== src/Dynamic/Msgpack/Collections.antt =====
-- dynamic/src/msgpack.rs: lists and maps read back, given that their elements are.
use Prim.Native.Nat.{bit_or}
use zust.Prelude.{
  ℕ, suc, ◌+◌, ◌*◌, ◌^◌, ◌≤◌, ◌<◌, ◌≡◌, ◌∙◌, arith, List, [], ◌∷◌, ◌++◌, length, ltb, ltb→lt,
  le→leb, drop-length-append, length-append, append_assoc,
}
use zust.Prelude.Bits.{or_0x80, and_0x80, or_0x90, and_0x90}
use zust.Prelude.Outcome.{ok}
use zust.Dynamic.Value.{Bytes, Dynamic, list, Items, nil, cons}
use zust.Dynamic.Msgpack.Encode.{list_header, map_header, as_u8, write_16, write_32}
use zust.Dynamic.Msgpack.Read.{Platform, slice_from, vec_to_map}
use zust.Dynamic.Msgpack.Decode.{
  decode_array, elements, entries, decode_first, decode_blobs, decode_numbers, decode_fixext,
  decode_texts, decode_collections, decode_fuel,
}
use zust.Dynamic.Msgpack.Words.{read_16-write_16, read_32-write_32}
use zust.Dynamic.Msgpack.Numbers.{Reads}
use zust.Dynamic.Msgpack.Blobs.{framed_Reads, if_framed, as_u8_small}

-- Encodings in a row, each with the value that is read from it.
abbrev pub Chunks : Type 0
Chunks = List (Bytes × Dynamic)

abbrev pub joined : Chunks → Bytes
joined [] = []
joined ((bs, v) ∷ rest) = bs ++ joined rest

abbrev pub values : Chunks → Items
values [] = nil
values ((bs, v) ∷ rest) = cons v (values rest)

slice_from_behind : (header rest : Bytes) → slice_from (header ++ rest) (length header) ≡ ok rest
unfolding slice_from
slice_from_behind header rest =
    rw (le→leb (length header) (length (header ++ rest)) fits) (rw drop-length-append)
  where
    fits : length header ≤ length (header ++ rest)
    fits = omega (arith, length-append header rest)

module _ (p : Platform) (fuel : ℕ) where
  abbrev pub AllRead : Chunks → Type 0
  AllRead [] = Unit
  AllRead ((bs, v) ∷ rest) = Reads p fuel bs v × AllRead rest

  decode_array_lem :
      (chunks : Chunks) (before rest : Bytes)
      → AllRead chunks
      → decode_array
          (decode_fuel p (suc fuel))
          (length chunks)
          (before ++ (joined chunks ++ rest))
          (length before)
        ≡ ok (values chunks, length before + length (joined chunks))
  unfolding decode_array
  decode_array_lem [] before rest h = ground arith
  decode_array_lem ((bs, v) ∷ chunks) before rest (h, hs) =
      let tail = decode_array_lem chunks (before ++ bs) rest hs in
      let moved =
        rw (append_assoc before bs (joined chunks ++ rest), length-append before bs) at tail in
      rw
        (
          slice_from_behind before ((bs ++ joined chunks) ++ rest),
          append_assoc bs (joined chunks) rest,
        )
        (rw (h (joined chunks ++ rest)) (ground (arith, moved, length-append bs (joined chunks))))

  module _ (chunks : Chunks) (read : AllRead chunks) where
    array_start :
        (rest : Bytes)
        → decode_array (decode_fuel p (suc fuel)) (length chunks) (joined chunks ++ rest) 0
          ≡ ok (values chunks, length (joined chunks))
    array_start rest = decode_array_lem chunks [] rest read ∙ ground arith

    elements_behind :
        (header rest : Bytes)
        → elements p
            (decode_fuel p (suc fuel))
            (header ++ (joined chunks ++ rest))
            (length header)
            (length chunks)
          ≡ ok (list (values chunks), length header + 1 + length (joined chunks))
    unfolding elements
    elements_behind header rest =
        rw (slice_from_behind header (joined chunks ++ rest)) (rw (array_start rest))

    entries_behind :
        (header rest : Bytes) (n : ℕ)
        → n * 2 ≡ length chunks
        → entries p (decode_fuel p (suc fuel)) (header ++ (joined chunks ++ rest)) (length header) n
          ≡ ok (vec_to_map p (values chunks), length header + 1 + length (joined chunks))
    unfolding entries
    entries_behind header rest n e =
        rw (slice_from_behind header (joined chunks ++ rest)) (rw e (rw (array_start rest)))

    abbrev body : Bytes
    body = joined chunks

    module _ (rest : Bytes) where
      read_90 :
          length chunks < 16
          → decode_first p (decode_fuel p (suc fuel)) (0x90 + length chunks) (body ++ rest)
            ≡ ok (list (values chunks), 1 + length body)
      unfolding decode_first
      read_90 h = ground (arith, and_0x90 (length chunks), elements_behind [] rest)

      read_dc :
          length chunks < 2 ^ 16
          → decode_first p
              (decode_fuel p (suc fuel))
              0xdc
              (write_16 (length chunks) ++ (body ++ rest))
            ≡ ok (list (values chunks), 3 + length body)
      unfolding decode_first decode_blobs decode_numbers decode_fixext decode_texts
          decode_collections
      read_dc h = ground (
        arith,
        read_16-write_16 (length chunks) (body ++ rest),
        elements_behind (write_16 (length chunks)) rest,
      )

      read_dd :
          length chunks < 2 ^ 32
          → decode_first p
              (decode_fuel p (suc fuel))
              0xdd
              (write_32 (length chunks) ++ (body ++ rest))
            ≡ ok (list (values chunks), 5 + length body)
      unfolding decode_first decode_blobs decode_numbers decode_fixext decode_texts
          decode_collections
      read_dd h = ground (
        arith,
        read_32-write_32 (length chunks) (body ++ rest),
        elements_behind (write_32 (length chunks)) rest,
      )

      module _ (n : ℕ) (even : n * 2 ≡ length chunks) where
        read_80 :
            n < 16
            → decode_first p (decode_fuel p (suc fuel)) (0x80 + n) (body ++ rest)
              ≡ ok (vec_to_map p (values chunks), 1 + length body)
        unfolding decode_first
        read_80 h = ground (arith, and_0x80 n, entries_behind [] rest n even)

        read_de :
            n < 2 ^ 16
            → decode_first p (decode_fuel p (suc fuel)) 0xde (write_16 n ++ (body ++ rest))
              ≡ ok (vec_to_map p (values chunks), 3 + length body)
        unfolding decode_first decode_blobs decode_numbers decode_fixext decode_texts
            decode_collections
        read_de h =
            ground
              (arith, read_16-write_16 n (body ++ rest), entries_behind (write_16 n) rest n even)

        read_df :
            n < 2 ^ 32
            → decode_first p (decode_fuel p (suc fuel)) 0xdf (write_32 n ++ (body ++ rest))
              ≡ ok (vec_to_map p (values chunks), 5 + length body)
        unfolding decode_first decode_blobs decode_numbers decode_fixext decode_texts
            decode_collections
        read_df h =
            ground
              (arith, read_32-write_32 n (body ++ rest), entries_behind (write_32 n) rest n even)

    -- A list of less than 2^32 elements is read back if each of them is.
    pub list_Reads :
        length chunks < 2 ^ 32
        → Reads p (suc fuel) (list_header (length chunks) ++ body) (list (values chunks))
    unfolding list_header
    list_Reads h =
        if_framed p (suc fuel) (ltb (length chunks) 0x10) _ _ body (list (values chunks))
          (λ e. framed_Reads p (suc fuel) (bit_or 0x90 (as_u8 (length chunks))) [] body _ (λ rest.
            rw (as_u8_small (length chunks) (omega (arith, ltb→lt _ _ e)))
              (rw (or_0x90 (length chunks) (ltb→lt _ _ e)) (read_90 rest (ltb→lt _ _ e)))))
          (λ _.
            if_framed p (suc fuel) (ltb (length chunks) 0x10000) _ _ body (list (values chunks))
              (λ e.
                framed_Reads p (suc fuel) 0xdc (write_16 (length chunks)) body _
                  (λ rest. read_dc rest (ltb→lt _ _ e)))
              (λ _.
                framed_Reads p (suc fuel) 0xdd (write_32 (length chunks)) body _
                  (λ rest. read_dd rest h)))

    -- A map of less than 2^32 entries is read back, as the map that its keys and values make.
    pub map_Reads :
        (n : ℕ)
        → n * 2 ≡ length chunks
        → n < 2 ^ 32
        → Reads p (suc fuel) (map_header n ++ body) (vec_to_map p (values chunks))
    unfolding map_header
    map_Reads n even h =
        if_framed p (suc fuel) (ltb n 16) _ _ body (vec_to_map p (values chunks))
          (λ e. framed_Reads p (suc fuel) (bit_or 0x80 (as_u8 n)) [] body _ (λ rest.
            rw (as_u8_small n (omega (arith, ltb→lt _ _ e)))
              (rw (or_0x80 n (ltb→lt _ _ e)) (read_80 rest n even (ltb→lt _ _ e)))))
          (λ _.
            if_framed p (suc fuel) (ltb n 0x10000) _ _ body (vec_to_map p (values chunks))
              (λ e.
                framed_Reads p (suc fuel) 0xde (write_16 n) body _
                  (λ rest. read_de rest n even (ltb→lt _ _ e)))
              (λ _.
                framed_Reads p (suc fuel) 0xdf (write_32 n) body _ (λ rest. read_df rest n even h)))
