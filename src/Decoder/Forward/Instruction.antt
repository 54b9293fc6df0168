-- ===== src/Decoder/Forward/Instruction.antt =====
-- How far the decoder reads for an instruction.
use ravens.Base.{ℕ, ◌+◌, ◌*◌, ◌≤◌, ◌<◌, some, Bool, true, false, arith, if◌then◌else◌, ◌&&◌}
use ravens.Base.Memory.{Bytes}
use ravens.Decoder.{
  Opcode, Context, max_skip_length_bits, rebase_length_bits, read, read_block_id, block_operand,
  read_length, decode_block, decode_flush_commit, decode_use_block, first_address, second_address,
  decode_copy, decode_chained_copy, decode_chained_skip, decode_rebase, decode_operands,
  decode_instruction, opcode_of, erase, load_flush, commit, flush_commit, use_block, release,
  rebase, illegal, copy_nn, copy_nc, copy_cn, copy_cc, chained_copy_n, chained_copy_c, chained_skip,
  end_of_stream,
}
use ravens.Decoder.Reader.{size_mod}
use ravens.Decoder.Forward.{
  Between, raise, bind-Between, Forward, pure-Forward, then-Forward, if-Forward, read-Between,
  read-Forward,
}

module _ (stream : Bytes) (size : ℕ) (fits : 256 * size < size_mod) where
  read_block_id-Forward : (ctx : Context) → Forward stream size fits (read_block_id stream size ctx)
  unfolding read_block_id
  read_block_id-Forward ctx =
      then-Forward stream size fits (read stream size ctx.block_id_bits) _
        (read-Forward stream size fits ctx.block_id_bits) (λ id off at. (omega arith, at))

  block_operand-Forward : (ctx : Context) → Forward stream size fits (block_operand stream size ctx)
  unfolding block_operand
  block_operand-Forward ctx =
      if-Forward stream size fits ctx.using_block _ (read_block_id stream size ctx)
        (pure-Forward stream size fits {A = ℕ} ctx.block_in_use) (read_block_id-Forward ctx)

  read_length-Forward : (width : ℕ) → Forward stream size fits (read_length stream size width)
  unfolding read_length
  read_length-Forward width =
      then-Forward stream size fits (read stream size width) _ (read-Forward stream size fits width)
        (λ length off at. (omega arith, at))

  first_address-Forward :
      (is_cache : Bool) (ctx : Context)
      → Forward stream size fits (first_address stream size is_cache ctx)
  unfolding first_address
  first_address-Forward is_cache ctx =
      then-Forward stream size fits
        (if is_cache then (λ off. some (0, off)) else block_operand stream size ctx) _
        (if-Forward stream size fits is_cache _ (block_operand stream size ctx)
          (pure-Forward stream size fits {A = ℕ} 0) (block_operand-Forward ctx))
        (λ base.
          then-Forward stream size fits (read stream size ctx.block_size_bits_ref) _
            (read-Forward stream size fits ctx.block_size_bits_ref)
            (λ offset off at. (omega arith, at)))

  second_address-Forward :
      (main sec : Bool) (ctx : Context)
      → Forward stream size fits (second_address stream size main sec ctx)
  unfolding second_address
  second_address-Forward main sec ctx =
      then-Forward stream size fits
        (if sec
          then (λ off. some (0, off))
          else if ctx.using_block && main
          then (λ off. some (ctx.block_in_use, off))
          else read_block_id stream size ctx)
        _
        (if-Forward stream size fits sec _ _ (pure-Forward stream size fits {A = ℕ} 0) (
          if-Forward stream size fits (ctx.using_block && main) _ (read_block_id stream size ctx)
            (pure-Forward stream size fits {A = ℕ} ctx.block_in_use) (read_block_id-Forward ctx)))
        (λ base.
          then-Forward stream size fits (read stream size ctx.block_size_bits_ref) _
            (read-Forward stream size fits ctx.block_size_bits_ref)
            (λ offset off at. (omega arith, at)))

  decode_block-Forward :
      (op : Opcode) (ctx : Context) → Forward stream size fits (decode_block stream size op ctx)
  unfolding decode_block
  decode_block-Forward op ctx =
      then-Forward stream size fits (block_operand stream size ctx) _ (block_operand-Forward ctx)
        (λ main off at. (omega arith, at))

  decode_copy-Forward :
      (op : Opcode) (main sec : Bool) (ctx : Context)
      → Forward stream size fits (decode_copy stream size op main sec ctx)
  unfolding decode_copy
  decode_copy-Forward op main sec ctx =
      then-Forward stream size fits (first_address stream size main ctx) _
        (first_address-Forward main ctx)
        λ from.
          then-Forward stream size fits (read_length stream size ctx.block_size_bits_ref) _
            (read_length-Forward ctx.block_size_bits_ref)
            λ length.
              then-Forward stream size fits (second_address stream size main sec ctx) _
                (second_address-Forward main sec ctx) (λ to off at. (omega arith, at))

  decode_chained_copy-Forward :
      (op : Opcode) (is_cache : Bool) (ctx : Context)
      → Forward stream size fits (decode_chained_copy stream size op is_cache ctx)
  unfolding decode_chained_copy
  decode_chained_copy-Forward op is_cache ctx =
      then-Forward stream size fits (first_address stream size is_cache ctx) _
        (first_address-Forward is_cache ctx)
        λ from.
          then-Forward stream size fits (read_length stream size ctx.block_size_bits_ref) _
            (read_length-Forward ctx.block_size_bits_ref) (λ length off at. (omega arith, at))

  decode_operands-Forward :
      (op : Opcode) (ctx : Context) → Forward stream size fits (decode_operands stream size op ctx)
  unfolding decode_operands decode_flush_commit decode_use_block decode_chained_skip decode_rebase
  decode_operands-Forward erase ctx = decode_block-Forward erase ctx
  decode_operands-Forward load_flush ctx = decode_block-Forward load_flush ctx
  decode_operands-Forward commit ctx = decode_block-Forward commit ctx
  decode_operands-Forward flush_commit ctx =
      then-Forward stream size fits (block_operand stream size ctx) _ (block_operand-Forward ctx)
        λ main.
          then-Forward stream size fits (read_length stream size ctx.block_size_bits_ref) _
            (read_length-Forward ctx.block_size_bits_ref) (λ length off at. (omega arith, at))
  decode_operands-Forward use_block ctx =
      then-Forward stream size fits (read_block_id stream size ctx) _ (read_block_id-Forward ctx)
        (λ block off at. (omega arith, at))
  decode_operands-Forward release ctx = λ off at. (omega arith, at)
  decode_operands-Forward end_of_stream ctx = λ off at. (omega arith, at)
  decode_operands-Forward copy_nn ctx = decode_copy-Forward copy_nn false false ctx
  decode_operands-Forward copy_nc ctx = decode_copy-Forward copy_nc false true ctx
  decode_operands-Forward copy_cn ctx = decode_copy-Forward copy_cn true false ctx
  decode_operands-Forward copy_cc ctx = decode_copy-Forward copy_cc true true ctx
  decode_operands-Forward chained_copy_n ctx = decode_chained_copy-Forward chained_copy_n false ctx
  decode_operands-Forward chained_copy_c ctx = decode_chained_copy-Forward chained_copy_c true ctx
  decode_operands-Forward chained_skip ctx =
      then-Forward stream size fits (read_length stream size max_skip_length_bits) _
        (read_length-Forward max_skip_length_bits) (λ length off at. (omega arith, at))
  decode_operands-Forward rebase ctx =
      then-Forward stream size fits (read_block_id stream size _) _ (read_block_id-Forward _)
        λ base.
          then-Forward stream size fits (read stream size rebase_length_bits) _
            (read-Forward stream size fits rebase_length_bits) (λ width off at. (omega arith, at))
  decode_operands-Forward illegal ctx = λ off at. (omega arith, at)

  -- decodeInstruction takes four bits at least, and does not get past bit 256 * length.
  pub decode_instruction-Between :
      (ctx : Context) (off : ℕ)
      → off ≤ 256 * size
      → Between (off + 4) (256 * size) (decode_instruction stream size ctx off)
  unfolding decode_instruction
  decode_instruction-Between ctx off h =
      bind-Between (off + 4) (off + 4) (256 * size) (read stream size 4 off) _
        (read-Between stream size fits 4 off h)
        λ i off' lo hi.
          raise (off + 4) off' (256 * size) _ lo (decode_operands-Forward (opcode_of i) ctx off' hi)
