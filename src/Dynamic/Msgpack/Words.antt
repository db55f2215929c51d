-- ===== src/Dynamic/Msgpack/Words.antt =====
-- dynamic/src/msgpack.rs: the reads give back the words that the writes wrote.
use Prim.Native.Nat.{bit_or}
use zust.Prelude.{ℕ, ◌*◌, ◌/◌, ◌%◌, ◌^◌, ◌<◌, ◌≡◌, arith, ◌∷◌, ◌++◌}
use zust.Prelude.Bits.{bit_or_shifted}
use zust.Dynamic.Value.{Bytes}
use zust.Dynamic.Msgpack.Encode.{as_u8, write_16, write_32, write_64}
use zust.Dynamic.Msgpack.Read.{read_8, read_16, read_32, read_64}

pub read_8-as_u8 : (n : ℕ) (rest : Bytes) → n < 256 → read_8 (as_u8 n ∷ rest) ≡ n
unfolding read_8
read_8-as_u8 n rest h = omega arith

pub read_16-write_16 : (n : ℕ) (rest : Bytes) → n < 2 ^ 16 → read_16 (write_16 n ++ rest) ≡ n
unfolding read_16
read_16-write_16 n rest h =
    omega (arith, bit_or_shifted 8 (as_u8 n) (as_u8 (n / 256)) (omega arith))

-- One more byte above `k` low bits.
byte_8 : (n : ℕ) → bit_or (n % 2 ^ 8) (as_u8 (n / 2 ^ 8) * 2 ^ 8) ≡ n % 2 ^ 16
byte_8 n = omega (arith, bit_or_shifted 8 (n % 2 ^ 8) (as_u8 (n / 2 ^ 8)) (omega arith))

byte_16 : (n : ℕ) → bit_or (n % 2 ^ 16) (as_u8 (n / 2 ^ 16) * 2 ^ 16) ≡ n % 2 ^ 24
byte_16 n = omega (arith, bit_or_shifted 16 (n % 2 ^ 16) (as_u8 (n / 2 ^ 16)) (omega arith))

byte_24 : (n : ℕ) → bit_or (n % 2 ^ 24) (as_u8 (n / 2 ^ 24) * 2 ^ 24) ≡ n % 2 ^ 32
byte_24 n = omega (arith, bit_or_shifted 24 (n % 2 ^ 24) (as_u8 (n / 2 ^ 24)) (omega arith))

byte_32 : (n : ℕ) → bit_or (n % 2 ^ 32) (as_u8 (n / 2 ^ 32) * 2 ^ 32) ≡ n % 2 ^ 40
byte_32 n = omega (arith, bit_or_shifted 32 (n % 2 ^ 32) (as_u8 (n / 2 ^ 32)) (omega arith))

byte_40 : (n : ℕ) → bit_or (n % 2 ^ 40) (as_u8 (n / 2 ^ 40) * 2 ^ 40) ≡ n % 2 ^ 48
byte_40 n = omega (arith, bit_or_shifted 40 (n % 2 ^ 40) (as_u8 (n / 2 ^ 40)) (omega arith))

byte_48 : (n : ℕ) → bit_or (n % 2 ^ 48) (as_u8 (n / 2 ^ 48) * 2 ^ 48) ≡ n % 2 ^ 56
byte_48 n = omega (arith, bit_or_shifted 48 (n % 2 ^ 48) (as_u8 (n / 2 ^ 48)) (omega arith))

byte_56 : (n : ℕ) → bit_or (n % 2 ^ 56) (as_u8 (n / 2 ^ 56) * 2 ^ 56) ≡ n % 2 ^ 64
byte_56 n = omega (arith, bit_or_shifted 56 (n % 2 ^ 56) (as_u8 (n / 2 ^ 56)) (omega arith))

ruleset bytes_up = (byte_8, byte_16, byte_24, byte_32, byte_40, byte_48, byte_56)

pub read_32-write_32 : (n : ℕ) (rest : Bytes) → n < 2 ^ 32 → read_32 (write_32 n ++ rest) ≡ n
unfolding read_32
read_32-write_32 n rest h = simp bytes_up (omega arith)

pub read_64-write_64 : (n : ℕ) (rest : Bytes) → n < 2 ^ 64 → read_64 (write_64 n ++ rest) ≡ n
unfolding read_64
read_64-write_64 n rest h = simp bytes_up (omega arith)
