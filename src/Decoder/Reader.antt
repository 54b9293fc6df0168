-- ===== src/Decoder/Reader.antt =====
-- `readBits` of common/decoding/decoder.c. The stream is the memory behind `bitField`, which goes on
-- past the `length` bytes that hold instructions: the only check is the assertion of the loop.
pub mod Correct
pub mod Value
use ravens.Base.{
  ℕ, zero, suc, ◌+◌, ◌-◌, ◌*◌, ◌/◌, ◌%◌, ◌^◌, bit_or, Bool, true, false, Option, none, some, ◌==◌,
  ltb, if◌then◌else◌,
}
use ravens.Base.Memory.{Bytes}

-- `size_t` has 32 bits on the device, `output` is a `uint64_t`.
abbrev pub size_mod : ℕ
size_mod = 2 ^ 32

abbrev pub qword_mod : ℕ
qword_mod = 2 ^ 64

-- `8 - (*currentOffset & 7u)`
abbrev pub left_in_byte : ℕ → ℕ
left_in_byte off = 8 - off % 8

-- `output << n | bits`
abbrev pub append_bits : ℕ → ℕ → ℕ → ℕ
append_bits output n bits = bit_or (output * 2 ^ n % qword_mod) bits

module _ (stream : Bytes) (length : ℕ) where
  -- `bitField[*currentOffset >> 3u] & MASK_OF_WIDTH(lengthLeftInByte)`
  abbrev pub current_byte : ℕ → ℕ
  current_byte off = stream (off / 8) % 2 ^ left_in_byte off

  -- The body of the loop behind its assertion: the output, the offset, and what is left to read.
  unfoldable pub read_round : ℕ → ℕ → ℕ → ℕ × ℕ × ℕ
  read_round output off to_read =
      if ltb to_read (left_in_byte off)
      then (
        append_bits output to_read (current_byte off / 2 ^ (left_in_byte off - to_read)),
        (off + to_read) % size_mod,
        0,
      )
      else (
        append_bits output (left_in_byte off) (current_byte off),
        (off + left_in_byte off) % size_mod,
        to_read - left_in_byte off,
      )

  -- The loop, with the output and the offset it returns; `none` is the failed assertion
  -- (or, which never happens, the end of the fuel).
  unfoldable pub read_loop : ℕ → ℕ × ℕ × ℕ → Option (ℕ × ℕ)
  read_loop zero (output, off, to_read) = none
  read_loop (suc fuel) (output, off, to_read) = elim (to_read == 0) [
    | true ↦ some (output, off)
    | false ↦ elim (ltb (off / 2 ^ 8) length) [
      | false ↦ none
      | true ↦ read_loop fuel (read_round output off to_read)
    ]
  ]

  -- Every round of the loop reads a bit, so that it has at most `to_read` rounds.
  unfoldable pub read_bits : ℕ → ℕ → Option (ℕ × ℕ)
  unfolding read_loop read_round
  read_bits off to_read = read_loop (to_read + 1) (0, off, to_read)
