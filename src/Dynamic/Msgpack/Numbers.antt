-- ===== src/Dynamic/Msgpack/Numbers.antt =====
-- dynamic/src/msgpack.rs: numbers read back.
use zust.Prelude.{
  ℕ, suc, ◌+◌, ◌-◌, ◌*◌, ◌%◌, ◌^◌, ◌<◌, ◌≡◌, refl, ◌∙◌, arith, [], ◌∷◌, ◌++◌, length, ltb, ltb→lt,
  true, false, Bool, if◌then◌else◌,
}
use zust.Prelude.Int.{ℤ, pos, negsuc, to_word, of_word, InSigned, of_word-to_word, to_word-lt}
use zust.Prelude.Outcome.{ok}
use zust.Dynamic.Value.{Bytes, Dynamic, i64, f64}
use zust.Dynamic.Msgpack.Encode.{encode_i64, wide_i64, write_16, write_32, write_64, in_signed}
use zust.Dynamic.Msgpack.Read.{Decoded, Platform, read_8}
use zust.Dynamic.Msgpack.Decode.{decode_first, decode_blobs, decode_numbers, decode_fuel}
use zust.Dynamic.Msgpack.Total.{decode_fuel-cons}
use zust.Dynamic.Msgpack.Words.{read_16-write_16, read_32-write_32, read_64-write_64}

module _ (p : Platform) (dec : Bytes → Decoded Dynamic) (rest : Bytes) where
  read_positive : (n : ℕ) → n < 128 → decode_first p dec n rest ≡ ok (i64 (pos n), 1)
  unfolding decode_first
  read_positive n h = ground arith

  read_negative : (n : ℕ) → n < 32 → decode_first p dec (255 - n) rest ≡ ok (i64 (negsuc n), 1)
  unfolding decode_first
  read_negative n h = ground arith

  -- The words behind the codes 0xd0 to 0xd3, and the floats.
  read_d0 : (w : ℕ) → decode_first p dec 0xd0 (w ∷ rest) ≡ ok (i64 (of_word (2 ^ 7) w), 2)
  unfolding decode_first decode_blobs decode_numbers read_8
  read_d0 w = ground arith

  read_d1 :
      (w : ℕ)
      → w < 2 ^ 16
      → decode_first p dec 0xd1 (write_16 w ++ rest) ≡ ok (i64 (of_word (2 ^ 15) w), 3)
  unfolding decode_first decode_blobs decode_numbers
  read_d1 w h = ground (arith, read_16-write_16 w rest)

  read_d2 :
      (w : ℕ)
      → w < 2 ^ 32
      → decode_first p dec 0xd2 (write_32 w ++ rest) ≡ ok (i64 (of_word (2 ^ 31) w), 5)
  unfolding decode_first decode_blobs decode_numbers
  read_d2 w h = ground (arith, read_32-write_32 w rest)

  read_d3 :
      (w : ℕ)
      → w < 2 ^ 64
      → decode_first p dec 0xd3 (write_64 w ++ rest) ≡ ok (i64 (of_word (2 ^ 63) w), 9)
  unfolding decode_first decode_blobs decode_numbers
  read_d3 w h = ground (arith, read_64-write_64 w rest)

  pub read_f32 :
      (w : ℕ)
      → w < 2 ^ 32
      → decode_first p dec 0xca (write_32 w ++ rest) ≡ ok (f64 (p.f32_to_f64 w), 5)
  unfolding decode_first decode_blobs decode_numbers
  read_f32 w h = ground (arith, read_32-write_32 w rest)

  pub read_f64 : (w : ℕ) → w < 2 ^ 64 → decode_first p dec 0xcb (write_64 w ++ rest) ≡ ok (f64 w, 9)
  unfolding decode_first decode_blobs decode_numbers
  read_f64 w h = ground (arith, read_64-write_64 w rest)

in_signed→InSigned : (half : ℕ) (z : ℤ) → in_signed half z ≡ true → InSigned half z
in_signed→InSigned half (pos n) h = ltb→lt n half h
in_signed→InSigned half (negsuc n) h = ltb→lt n half h

-- How a value is read from its encoding and whatever follows, at any fuel that is left.
abbrev pub Reads : Platform → ℕ → Bytes → Dynamic → Type 0
Reads p fuel bs v = (rest : Bytes) → decode_fuel p (suc fuel) (bs ++ rest) ≡ ok (v, length bs)

module _ (p : Platform) (fuel : ℕ) where
  -- A code and a signed word.
  word_Reads :
      (half code : ℕ) (write : ℕ → Bytes) (z : ℤ) (k : ℕ)
      → ((w : ℕ) → length (write w) + 1 ≡ k)
      → 0 < half
      → InSigned half z
      → ((w : ℕ) (rest : Bytes)
          → w < 2 * half
          → decode_first p (decode_fuel p fuel) code (write w ++ rest)
            ≡ ok (i64 (of_word half w), k))
      → Reads p fuel (code ∷ write (to_word half z)) (i64 z)
  word_Reads half code write z k size hp h step rest =
      decode_fuel-cons p fuel code (write (to_word half z) ++ rest)
      ∙ step (to_word half z) rest (to_word-lt half z hp)
      ∙ ground (arith, of_word-to_word half z h, size (to_word half z))

  pub if_Reads :
      (b : Bool) (xs ys : Bytes) (v : Dynamic)
      → (b ≡ true → Reads p fuel xs v)
      → (b ≡ false → Reads p fuel ys v)
      → Reads p fuel (if b then xs else ys) v
  if_Reads true xs ys v f g = f refl
  if_Reads false xs ys v f g = g refl

  wide_Reads : (z : ℤ) → InSigned (2 ^ 63) z → Reads p fuel (wide_i64 z) (i64 z)
  unfolding wide_i64
  wide_Reads z h =
      if_Reads (in_signed (2 ^ 7) z) _ _ (i64 z)
        (λ e.
          word_Reads (2 ^ 7) 0xd0 (λ w. w ∷ []) z 2 (λ w. refl) (omega arith)
            (in_signed→InSigned _ z e) (λ w rest b. read_d0 p _ rest w))
        (λ _.
          if_Reads (in_signed (2 ^ 15) z) _ _ (i64 z)
            (λ e.
              word_Reads (2 ^ 15) 0xd1 write_16 z 3 (λ w. refl) (omega arith)
                (in_signed→InSigned _ z e) (λ w rest b. read_d1 p _ rest w b))
            (λ _.
              if_Reads (in_signed (2 ^ 31) z) _ _ (i64 z)
                (λ e.
                  word_Reads (2 ^ 31) 0xd2 write_32 z 5 (λ w. refl) (omega arith)
                    (in_signed→InSigned _ z e) (λ w rest b. read_d2 p _ rest w b))
                (λ _.
                  word_Reads (2 ^ 63) 0xd3 write_64 z 9 (λ w. refl) (omega arith) h
                    (λ w rest b. read_d3 p _ rest w b))))

  positive_Reads : (n : ℕ) → n < 128 → Reads p fuel (to_word (2 ^ 7) (pos n) ∷ []) (i64 (pos n))
  positive_Reads n h rest =
      decode_fuel-cons p fuel (n % (2 * 2 ^ 7)) rest
      ∙ ground (arith, read_positive p (decode_fuel p fuel) rest n)

  negative_Reads :
      (n : ℕ) → n < 32 → Reads p fuel (to_word (2 ^ 7) (negsuc n) ∷ []) (i64 (negsuc n))
  negative_Reads n h rest =
      decode_fuel-cons p fuel (to_word (2 ^ 7) (negsuc n)) rest
      ∙ ground (arith, read_negative p (decode_fuel p fuel) rest n)

  -- Every 64-bit integer is read back, from any of its six forms.
  pub i64_Reads : (z : ℤ) → InSigned (2 ^ 63) z → Reads p fuel (encode_i64 z) (i64 z)
  unfolding encode_i64
  i64_Reads (pos n) h =
      if_Reads (ltb n 128) _ _ (i64 (pos n)) (λ e. positive_Reads n (ltb→lt _ _ e))
        (λ _. wide_Reads (pos n) h)
  i64_Reads (negsuc n) h =
      if_Reads (ltb (n + 1) 32) _ _ (i64 (negsuc n))
        (λ e. negative_Reads n (omega (arith, ltb→lt _ _ e))) (λ _. wide_Reads (negsuc n) h)
