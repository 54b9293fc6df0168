-- ===== src/Decoder/Reader/Correct.antt =====
-- `readBits` returns the number that stands at its offset, and moves the offset behind it.
use native.Mathlib.Nat.{mod-eq_of_lt, pow-le-pow_right, add-zero}
use ravens.Base.{
  ℕ, zero, suc, ◌+◌, ◌-◌, ◌*◌, ◌/◌, ◌^◌, ◌≤◌, ◌<◌, ◌≡◌, refl, sym, ap, ◌∙◌, min, some, arith,
}
use ravens.Base.Bits.{bit_or-shifted}
use ravens.Base.Memory.{Bytes}
use ravens.Decoder.Reader.{size_mod, append_bits, left_in_byte, read_round, read_loop, read_bits}
use ravens.Decoder.Reader.Value.{bits_value, bits_value-lt, bits_value_add, bits_value-chunk}

-- Every cell of the stream holds a byte.
abbrev pub IsByteStream : Bytes → Type 0
IsByteStream stream = (i : ℕ) → stream i < 256

-- Appending the bits that follow to a prefix of at most 64 bits loses none of them.
append_bits-value :
    (stream : Bytes) (off m n : ℕ)
    → m + n ≤ 64
    → append_bits (bits_value stream off m) n (bits_value stream (off + m) n)
      ≡ bits_value stream off (m + n)
append_bits-value stream off m n h = ground (
  arith,
  mod-eq_of_lt {n = bits_value stream off m * 2 ^ n} {m = 2 ^ 64} small,
  bit_or-shifted n (bits_value stream off m) (bits_value stream (off + m) n)
      (bits_value-lt stream (off + m) n),
  bits_value_add stream off m n,
)
  where
    small : bits_value stream off m * 2 ^ n < 2 ^ 64
    small = omega (
      arith,
      bits_value_add stream off m n,
      bits_value-lt stream off (m + n),
      pow-le-pow_right {n = 2} (omega arith) h,
    )

module _ (stream : Bytes) (length : ℕ) (bytes : IsByteStream stream) where
  -- One round appends the bits up to the end of the byte, or the last ones.
  read_round-value :
      (off m to_read : ℕ)
      → m + to_read ≤ 64
      → off + m + to_read < size_mod
      → let n = min to_read (left_in_byte (off + m)) in
        read_round stream length (bits_value stream off m) (off + m) to_read
        ≡ (bits_value stream off (m + n), off + (m + n), to_read - n)
  unfolding read_round
  read_round-value off m to_read w fits = ground (
    arith,
    bits_value-chunk stream (off + m) (min to_read (left_in_byte (off + m))) (bytes ((off + m) / 8))
        (omega arith),
    append_bits-value stream off m (min to_read (left_in_byte (off + m))) (omega arith),
  )

  read_loop-round :
      (fuel output off to_read : ℕ)
      → 0 < to_read
      → off < 256 * length
      → read_loop stream length (suc fuel) (output, off, to_read)
        ≡ read_loop stream length fuel (read_round stream length output off to_read)
  unfolding read_loop
  read_loop-round fuel output off to_read more inside = ground arith

  read_loop-value :
      (fuel off m to_read : ℕ)
      → to_read < fuel
      → m + to_read ≤ 64
      → off + m + to_read ≤ 256 * length
      → off + m + to_read < size_mod
      → read_loop stream length fuel (bits_value stream off m, off + m, to_read)
        ≡ some (bits_value stream off (m + to_read), off + (m + to_read))
  read_loop-value zero off m to_read f w inside fits = absurd (omega arith)
  read_loop-value (suc fuel) off m zero f w inside fits = unfold read_loop in rw (add-zero m) refl
  read_loop-value (suc fuel) off m (suc k) f w inside fits =
      let n = min (suc k) (left_in_byte (off + m)) in
      read_loop-round fuel (bits_value stream off m) (off + m) (suc k) (omega arith) (omega arith)
      ∙ ap (read_loop stream length fuel) (read_round-value off m (suc k) w fits)
      ∙ read_loop-value fuel off (m + n) (suc k - n) (omega arith) (omega arith) (omega arith)
          (omega arith)
      ∙ ap (λ (t : ℕ). some (bits_value stream off t, off + t)) (omega arith)

  pub read_bits-value :
      (off to_read : ℕ)
      → to_read ≤ 64
      → off + to_read ≤ 256 * length
      → off + to_read < size_mod
      → read_bits stream length off to_read ≡ some (bits_value stream off to_read, off + to_read)
  unfolding read_bits bits_value
  read_bits-value off to_read w inside fits =
      ap (λ (t : ℕ). read_loop stream length (to_read + 1) (0, t, to_read)) (sym (add-zero off))
      ∙ read_loop-value (to_read + 1) off 0 to_read (omega arith) (omega arith) (omega arith)
          (omega arith)
      ∙ ap (λ (t : ℕ). some (bits_value stream off t, off + t)) (omega arith)
