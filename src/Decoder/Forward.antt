-- ===== src/Decoder/Forward.antt =====
-- How far the decoder reads, whatever the bytes and the context.
pub mod Instruction
use ravens.Base.{
  ℕ, zero, suc, ◌+◌, ◌-◌, ◌*◌, ◌%◌, ◌≤◌, ◌<◌, ◌≡◌, Option, none, some, Bool, true, false, arith,
  ◌==◌, ltb, Bool-cases, inl, inr, if◌then◌else◌, ◌&&◌, not, ◌⊎◌,
}
use ravens.Base.Memory.{Bytes}
use ravens.Decoder.{
  Opcode, Context, max_skip_length_bits, rebase_length_bits, Reading, and_then, ◌>>=◌, read,
  read_block_id, block_operand, read_length, decode_block, decode_flush_commit, decode_use_block,
  first_address, second_address, decode_copy, decode_chained_copy, decode_chained_skip,
  decode_rebase, decode_operands, decode_instruction, opcode_of, erase, load_flush, commit,
  flush_commit, use_block, release, rebase, illegal, copy_nn, copy_nc, copy_cn, copy_cc,
  chained_copy_n, chained_copy_c, chained_skip, end_of_stream,
}
use ravens.Decoder.Reader.{size_mod, left_in_byte, read_round, read_loop, read_bits}

-- A reading that returned did so between two offsets.
abbrev pub Between : {A : Type 0} → (low high : ℕ) → Option (A × ℕ) → Type 0
Between low high none = Unit
Between low high (some (a, off)) = (low ≤ off) × (off ≤ high)

pub raise :
    {A : Type 0} (low low' high : ℕ) (r : Option (A × ℕ))
    → low ≤ low'
    → Between low' high r
    → Between low high r
raise low low' high none h b = tt
raise low low' high (some (a, off)) h b = (omega (arith, b.0), b.1)

pub bind-Between :
    {A B : Type 0} (low middle high : ℕ) (r : Option (A × ℕ)) (f : A → Reading B)
    → Between middle high r
    → ((a : A) (off : ℕ) → middle ≤ off → off ≤ high → Between low high (f a off))
    → Between low high (and_then r f)
bind-Between low middle high none f b next = tt
bind-Between low middle high (some (a, off)) f b next = next a off b.0 b.1

module _ (stream : Bytes) (size : ℕ) (fits : 256 * size < size_mod) where
  -- A reading that never goes back, and never gets past the bound of the assertion.
  abbrev pub Forward : {A : Type 0} → Reading A → Type 0
  Forward m = (off : ℕ) → off ≤ 256 * size → Between off (256 * size) (m off)

  pub pure-Forward : {A : Type 0} (a : A) → Forward (λ off. some (a, off))
  pure-Forward a off h = (omega arith, h)

  pub then-Forward :
      {A B : Type 0} (m : Reading A) (f : A → Reading B)
      → Forward m
      → ((a : A) → Forward (f a))
      → Forward (m >>= f)
  then-Forward m f first next off h =
      bind-Between off off (256 * size) (m off) f (first off h)
        (λ a off' lo hi. raise off off' (256 * size) (f a off') lo (next a off' hi))

  pub if-Forward :
      {A : Type 0} (b : Bool) (m n : Reading A)
      → Forward m
      → Forward n
      → Forward (if b then m else n)
  if-Forward true m n p q = p
  if-Forward false m n p q = q

  -- A loop that stops, and one that goes on: to the end of the byte at most, which is in the bound.
  read_loop_stops :
      (fuel output off to_read : ℕ)
      → (to_read ≡ 0) ⊎ (256 * size ≤ off)
      → off ≤ 256 * size
      → Between
          (off + to_read)
          (256 * size)
          (read_loop stream size (suc fuel) (output, off, to_read))
  unfolding read_loop
  read_loop_stops fuel output off zero stop h = (omega arith, h)
  read_loop_stops fuel output off (suc t) stop h = rw (ends stop) tt
    where
      ends :
          (suc t ≡ 0) ⊎ (256 * size ≤ off)
          → read_loop stream size (suc fuel) (output, off, suc t) ≡ none
      ends stop = ground arith

  read_loop_goes :
      (fuel output off to_read : ℕ)
      → 0 < to_read
      → off < 256 * size
      → read_loop stream size (suc fuel) (output, off, to_read)
        ≡ read_loop stream size fuel (read_round stream size output off to_read)
  unfolding read_loop
  read_loop_goes fuel output off to_read more inside = ground arith

  round-Between :
      (fuel : ℕ)
      → ((output off to_read : ℕ)
          → off ≤ 256 * size
          → Between
              (off + to_read)
              (256 * size)
              (read_loop stream size fuel (output, off, to_read)))
      → (output off to_read : ℕ) → off < 256 * size
      → Between
          (off + to_read)
          (256 * size)
          (read_loop stream size fuel (read_round stream size output off to_read))
  unfolding read_round
  round-Between fuel rest output off to_read inside =
      elim (Bool-cases (ltb to_read (left_in_byte off))) [
        | inl short ↦ simp short (
            raise (off + to_read) ((off + to_read) % size_mod + 0) (256 * size) _ (ground arith)
              (rest _ ((off + to_read) % size_mod) 0 (ground arith)))
        | inr whole ↦ simp whole (
            raise (off + to_read)
              ((off + left_in_byte off) % size_mod + (to_read - left_in_byte off)) (256 * size) _
              (ground arith)
              (rest _ ((off + left_in_byte off) % size_mod) (to_read - left_in_byte off)
                (ground arith)))
      ]

  read_loop-Between :
      (fuel output off to_read : ℕ)
      → off ≤ 256 * size
      → Between (off + to_read) (256 * size) (read_loop stream size fuel (output, off, to_read))
  read_loop-Between zero output off to_read h = unfold read_loop in tt
  read_loop-Between (suc fuel) output off to_read h =
      elim (Bool-cases (not (to_read == 0) && ltb off (256 * size))) [
        | inl goes ↦
            rw (read_loop_goes fuel output off to_read (ground arith) (ground arith))
              (round-Between fuel (read_loop-Between fuel) output off to_read (ground arith))
        | inr stops ↦ read_loop_stops fuel output off to_read (ground arith) h
      ]

  pub read-Between :
      (width off : ℕ)
      → off ≤ 256 * size
      → Between (off + width) (256 * size) (read stream size width off)
  unfolding read read_bits
  read-Between width off h =
      bind-Between (off + width) (off + width) (256 * size) _ _
        (read_loop-Between (width + 1) 0 off width h) (λ a off' lo hi. (lo, hi))

  pub read-Forward : (width : ℕ) → Forward (read stream size width)
  read-Forward width off h =
      raise off (off + width) (256 * size) (read stream size width off) (omega arith)
        (read-Between width off h)
