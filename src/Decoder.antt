-- ===== src/Decoder.antt =====
-- common/decoding/decoder.c and decoder.h, decoder_config.h: the instruction decoder.
mod Examples
pub mod Reader
pub mod Forward
pub mod Reads
pub mod Sound
use ravens.Base.{
  ℕ, ◌+◌, ◌*◌, ◌-◌, ◌%◌, ◌^◌, bit_or, Bool, true, false, Option, none, some, List, [], ◌∷◌, ◌&&◌,
  if◌then◌else◌,
}
use ravens.Base.Memory.{Bytes}
use ravens.Decoder.Reader.{size_mod, read_bits}

-- `OPCODE`
pub data Opcode : Type 0 where
  erase load_flush commit flush_commit use_block release rebase illegal : Opcode
  copy_nn copy_nc copy_cn copy_cc chained_copy_n chained_copy_c chained_skip : Opcode
  end_of_stream : Opcode

-- The enumerators of `OPCODE`, in the order of their values.
abbrev opcodes : List Opcode
opcodes =
    erase ∷ load_flush ∷ commit ∷ flush_commit ∷ use_block ∷ release ∷ rebase ∷ illegal ∷ copy_nn
    ∷ copy_nc ∷ copy_cn ∷ copy_cc ∷ chained_copy_n ∷ chained_copy_c ∷ chained_skip ∷ end_of_stream
    ∷ []

abbrev opcode_at : List Opcode → ℕ → Opcode
opcode_at [] i = illegal
opcode_at (x ∷ xs) ℕ.zero = x
opcode_at (x ∷ xs) (ℕ.suc i) = opcode_at xs i

-- `(OPCODE) instruction`
unfoldable pub opcode_of : ℕ → Opcode
opcode_of i = opcode_at opcodes i

abbrev pub instruction_width : ℕ
instruction_width = 4

abbrev pub rebase_length_bits : ℕ
rebase_length_bits = 4

abbrev pub max_skip_length_bits : ℕ
max_skip_length_bits = 6

-- `DecodedCommand`
pub record Command : Type 0 where
  pub command : Opcode
  pub main_address : ℕ
  pub secondary_address : ℕ
  pub length : ℕ

-- `DecoderContext`
pub record Context : Type 0 where
  pub using_block : Bool
  pub block_in_use : ℕ
  pub block_id_bits : ℕ
  pub block_base : ℕ
  pub block_id_bits_ref : ℕ
  pub block_size_bits_ref : ℕ

-- A read at the current offset, and the offset behind it; `none` is a failed assertion.
abbrev pub Reading : Type 0 → Type 0
Reading A = ℕ → Option (A × ℕ)

abbrev pub pure : {A : Type 0} → A → Reading A
pure a off = some (a, off)

abbrev pub and_then : {A B : Type 0} → Option (A × ℕ) → (A → Reading B) → Option (B × ℕ)
and_then none f = none
and_then (some (a, off)) f = f a off

infixl 5 ◌>>=◌
abbrev pub ◌>>=◌ : {A B : Type 0} → Reading A → (A → Reading B) → Reading B
◌>>=◌ m f off = and_then (m off) f

-- `command` as the switch leaves it for an opcode that has no operands.
abbrev pub bare : Opcode → Command
bare op = record { command = op; main_address = 0; secondary_address = 0; length = 0 }

module _ (stream : Bytes) (size : ℕ) where
  -- `readBits` at the current offset, its result cut to a `size_t`.
  unfoldable pub read : ℕ → Reading ℕ
  read width = do value ← λ off. read_bits stream size off width; pure (value % size_mod)

  -- `readBlockID`. `MASK_OF_WIDTH` is computed on 32 bits, and a block ID has 16 at most.
  unfoldable pub read_block_id : Context → Reading ℕ
  read_block_id ctx = do
    id ← read ctx.block_id_bits
    pure (
        (ctx.block_base + id % 2 ^ ctx.block_id_bits * 2 ^ ctx.block_size_bits_ref % size_mod)
        % size_mod)

  -- The first operand: the block in use, if there is one.
  unfoldable pub block_operand : Context → Reading ℕ
  block_operand ctx = if ctx.using_block then pure ctx.block_in_use else read_block_id ctx

  -- The length field of an instruction, which counts from 1.
  unfoldable pub read_length : ℕ → Reading ℕ
  read_length width = do length ← read width; pure ((length + 1) % size_mod)

  -- OPCODE_ERASE, OPCODE_LOAD_FLUSH, OPCODE_COMMIT
  unfoldable pub decode_block : Opcode → Context → Reading (Bool × Context × Command)
  decode_block op ctx = do
    main ← block_operand ctx
    pure (true, ctx, record (bare op) { main_address = main })

  -- OPCODE_FLUSH_COMMIT
  unfoldable pub decode_flush_commit : Context → Reading (Bool × Context × Command)
  decode_flush_commit ctx = do
    main ← block_operand ctx
    length ← read_length ctx.block_size_bits_ref
    pure (true, ctx, record (bare flush_commit) { main_address = main; length = length })

  -- OPCODE_USE_BLOCK
  unfoldable pub decode_use_block : Context → Reading (Bool × Context × Command)
  decode_use_block ctx = do
    block ← read_block_id ctx
    pure (
      true,
      record ctx { using_block = true; block_in_use = block },
      record (bare use_block) { main_address = block },
    )

  -- The operand with its offset in the block.
  unfoldable pub first_address : Bool → Context → Reading ℕ
  first_address is_cache ctx = do
    base ← if is_cache then pure 0 else block_operand ctx
    offset ← read ctx.block_size_bits_ref
    pure (bit_or base offset)

  unfoldable pub second_address : (is_main_cache is_sec_cache : Bool) → Context → Reading ℕ
  second_address is_main_cache is_sec_cache ctx = do
    base ←
        if is_sec_cache
        then pure 0
        else if ctx.using_block && is_main_cache
        then pure ctx.block_in_use
        else read_block_id ctx
    offset ← read ctx.block_size_bits_ref
    pure (bit_or base offset)

  -- OPCODE_COPY_NN, OPCODE_COPY_NC, OPCODE_COPY_CN, OPCODE_COPY_CC
  unfoldable pub decode_copy :
      Opcode → (is_main_cache is_sec_cache : Bool) → Context → Reading (Bool × Context × Command)
  decode_copy op is_main_cache is_sec_cache ctx = do
    main ← first_address is_main_cache ctx
    length ← read_length ctx.block_size_bits_ref
    secondary ← second_address is_main_cache is_sec_cache ctx
    pure (
      true,
      ctx,
      record { command = op; main_address = main; secondary_address = secondary; length = length },
    )

  -- OPCODE_CHAINED_COPY_N, OPCODE_CHAINED_COPY_C
  unfoldable pub decode_chained_copy : Opcode → Bool → Context → Reading (Bool × Context × Command)
  decode_chained_copy op is_cache ctx = do
    main ← first_address is_cache ctx
    length ← read_length ctx.block_size_bits_ref
    pure (true, ctx, record (bare op) { main_address = main; length = length })

  -- OPCODE_CHAINED_SKIP
  unfoldable pub decode_chained_skip : Context → Reading (Bool × Context × Command)
  decode_chained_skip ctx = do
    length ← read_length max_skip_length_bits
    pure (true, ctx, record (bare chained_skip) { length = length })

  -- OPCODE_REBASE
  unfoldable pub decode_rebase : Context → Reading (Bool × Context × Command)
  decode_rebase ctx = do
    base ← read_block_id (record ctx { block_id_bits = ctx.block_id_bits_ref; block_base = 0 })
    width ← read rebase_length_bits
    let bits = (width + 1) % 256
    pure (
      true,
      record ctx { block_id_bits = bits; block_base = base },
      record (bare rebase) { main_address = base; length = 2 ^ bits - 1 },
    )

  -- The switch over the opcode.
  unfoldable pub decode_operands : Opcode → Context → Reading (Bool × Context × Command)
  decode_operands erase ctx = decode_block erase ctx
  decode_operands load_flush ctx = decode_block load_flush ctx
  decode_operands commit ctx = decode_block commit ctx
  decode_operands flush_commit ctx = decode_flush_commit ctx
  decode_operands use_block ctx = decode_use_block ctx
  decode_operands release ctx = pure (true, record ctx { using_block = false }, bare release)
  decode_operands end_of_stream ctx =
      pure (true, record ctx { using_block = false }, bare end_of_stream)
  decode_operands copy_nn ctx = decode_copy copy_nn false false ctx
  decode_operands copy_nc ctx = decode_copy copy_nc false true ctx
  decode_operands copy_cn ctx = decode_copy copy_cn true false ctx
  decode_operands copy_cc ctx = decode_copy copy_cc true true ctx
  decode_operands chained_copy_n ctx = decode_chained_copy chained_copy_n false ctx
  decode_operands chained_copy_c ctx = decode_chained_copy chained_copy_c true ctx
  decode_operands chained_skip ctx = decode_chained_skip ctx
  decode_operands rebase ctx = decode_rebase ctx
  decode_operands illegal ctx = pure (false, ctx, bare illegal)

  -- `decodeInstruction`: its return value, the context and the command that it leaves.
  unfoldable pub decode_instruction : Context → Reading (Bool × Context × Command)
  decode_instruction ctx = do
    instruction ← read instruction_width
    decode_operands (opcode_of instruction) ctx
