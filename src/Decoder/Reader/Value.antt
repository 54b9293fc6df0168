-- ===== src/Decoder/Reader/Value.antt =====
-- What `readBits` has to return: the number that is written, high bit first, from a bit offset on.
use native.Mathlib.Nat.{pow-suc, add-zero, add-suc, add_assoc}
use ravens.Base.{
  ℕ, zero, suc, ◌+◌, ◌-◌, ◌*◌, ◌/◌, ◌%◌, ◌^◌, ◌≤◌, ◌<◌, ◌≡◌, refl, ap, Bool, true, ◌||◌, arith,
  ◌==◌, ltb, passes, passes_at,
}
use ravens.Base.Memory.{Bytes}

-- Bit `i` of a stream, the high bit of each byte first.
unfoldable pub bit_at : Bytes → ℕ → ℕ
bit_at stream i = stream (i / 8) / 2 ^ (7 - i % 8) % 2

-- The number in the `n` bits from offset `off` on.
unfoldable pub bits_value : Bytes → ℕ → ℕ → ℕ
unfolding bit_at
bits_value stream off zero = 0
bits_value stream off (suc n) = bits_value stream off n * 2 + bit_at stream (off + n)

pub bits_value-lt : (stream : Bytes) (off n : ℕ) → bits_value stream off n < 2 ^ n
unfolding bits_value bit_at
bits_value-lt stream off zero = omega arith
bits_value-lt stream off (suc n) = omega (arith, pow-suc 2 n, bits_value-lt stream off n)

pub bits_value_add :
    (stream : Bytes) (off m n : ℕ)
    → bits_value stream off (m + n)
      ≡ bits_value stream off m * 2 ^ n + bits_value stream (off + m) n
unfolding bits_value
bits_value_add stream off m zero =
    omega (arith, ap (λ (k : ℕ). bits_value stream off k) (add-zero m))
bits_value_add stream off m (suc n) = omega (
  arith,
  ap (λ (k : ℕ). bits_value stream off k) (add-suc m n),
  ap (λ (k : ℕ). bits_value stream off m * k) (pow-suc 2 n),
  ap (λ (k : ℕ). bit_at stream k) (add_assoc off m n),
  bits_value_add stream off m n,
)

-- The same inside one byte, where a table settles what the masks and shifts give.
byte_value : ℕ → ℕ → ℕ → ℕ
byte_value b r zero = 0
byte_value b r (suc n) = byte_value b r n * 2 + b / 2 ^ (7 - (r + n)) % 2

abbrev chunk_test : ℕ → ℕ → ℕ → Bool
chunk_test r n b = ltb 8 (r + n) || (b % 2 ^ (8 - r) / 2 ^ (8 - r - n) == byte_value b r n)

chunk_table : passes (λ r. passes (λ n. passes (λ b. chunk_test r n b) 256) 9) 8 ≡ true
unfolding passes byte_value
chunk_table = refl

bits_value-byte :
    (stream : Bytes) (off n : ℕ)
    → off % 8 + n ≤ 8
    → bits_value stream off n ≡ byte_value (stream (off / 8)) (off % 8) n
unfolding bits_value byte_value bit_at
bits_value-byte stream off zero h = refl
bits_value-byte stream off (suc n) h =
    omega (arith, bits_value-byte stream off n (omega arith), same_byte)
  where
    same_byte : bit_at stream (off + n) ≡ stream (off / 8) / 2 ^ (7 - (off % 8 + n)) % 2
    same_byte = rw (byte_index, bit_index)
      where
        byte_index : (off + n) / 8 ≡ off / 8
        byte_index = omega arith

        bit_index : (off + n) % 8 ≡ off % 8 + n
        bit_index = omega arith

pub bits_value-chunk :
    (stream : Bytes) (off n : ℕ)
    → stream (off / 8) < 256
    → off % 8 + n ≤ 8
    → stream (off / 8) % 2 ^ (8 - off % 8) / 2 ^ (8 - off % 8 - n) ≡ bits_value stream off n
bits_value-chunk stream off n hb h = ground (
  arith,
  bits_value-byte stream off n h,
  passes_at (λ b. chunk_test (off % 8) n b) 256
      (passes_at (λ m. passes (λ b. chunk_test (off % 8) m b) 256) 9
        (passes_at (λ r. passes (λ m. passes (λ b. chunk_test r m b) 256) 9) 8 chunk_table (off % 8)
          (omega arith))
        n (omega arith))
      (stream (off / 8)) hb,
)
