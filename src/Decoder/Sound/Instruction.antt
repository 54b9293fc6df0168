-- ===== src/Decoder/Sound/Instruction.antt =====
-- `decodeInstruction` on any bytes: it returns, in a valid context, with operands in range.

use ravens.Base.{
  ℕ, ◌+◌, ◌*◌, ◌%◌, ◌^◌, ◌≤◌, ◌<◌, ◌≡◌, ◌≢◌, refl, sym, ◌∙◌, Bool, true, false, arith,
}
use ravens.Base.Memory.{Bytes}
use ravens.Decoder.{
  Opcode, erase, load_flush, commit, flush_commit, use_block, release, rebase, illegal, copy_nn,
  copy_nc, copy_cn, copy_cc, chained_copy_n, chained_copy_c, chained_skip, end_of_stream, Command,
  Context, decode_block, decode_flush_commit, decode_use_block, decode_chained_copy,
  decode_chained_skip, decode_rebase, decode_operands, decode_instruction, opcode_of, read_length,
  read_block_id,
}
use ravens.Decoder.Reader.{size_mod}
use ravens.Decoder.Reader.Correct.{IsByteStream}
use ravens.Decoder.Reads.{Reads, bind, weaken, pure-Reads, read-Reads}
use ravens.Decoder.Sound.{
  IsBlock, IsValid, IsOperand, IsLength, IsCommandOf, Decoded, block_operand-IsBlock,
  read_block_id-IsBlock, read_length-IsLength, first_address-IsOperand, decode_copy-Reads,
}

module _ (stream : Bytes) (size : ℕ) (bytes : IsByteStream stream) (ctx : Context)
    (valid : IsValid ctx) (off : ℕ) (inside : off + 68 ≤ 256 * size)
    (fits : off + 68 < size_mod) where
  -- ERASE, LOAD_FLUSH and COMMIT have a block for their operand.
  decode_block-Reads :
      (op : Opcode)
      → Reads off 68
          (λ out.
            (out.0 ≡ true) × (out.1 ≡ ctx) × (out.2.command ≡ op) × IsBlock out.2.main_address)
          (decode_block stream size op ctx off)
  unfolding decode_block
  decode_block-Reads op =
      weaken
        (bind (block_operand-IsBlock stream size bytes ctx valid off (omega arith) (omega arith))
          (λ main off' lo hi p. pure-Reads (refl, refl, refl, p)))
        (omega arith) (λ out p. p)

  decode_flush_commit-Decoded : Reads off 68 Decoded (decode_flush_commit stream size ctx off)
  unfolding decode_flush_commit
  decode_flush_commit-Decoded =
      weaken
        (bind (block_operand-IsBlock stream size bytes ctx valid off (omega arith) (omega arith))
          λ main off1 lo1 hi1 block.
            (bind
              (read_length-IsLength stream size bytes ctx valid off1 (omega arith) (omega arith))
              (λ length off2 lo2 hi2 p. pure-Reads (valid, (block, p), ((λ e. cc), (λ e. cc))))))
        (omega arith) (λ out p. p)

  decode_use_block-Decoded : Reads off 68 Decoded (decode_use_block stream size ctx off)
  unfolding decode_use_block
  decode_use_block-Decoded =
      weaken
        (bind (read_block_id-IsBlock stream size bytes ctx valid off (omega arith) (omega arith))
          (λ main off1 lo1 hi1 block. pure-Reads (
            record {
              id_bits = valid.id_bits;
              id_bits_ref = valid.id_bits_ref;
              size_bits_ref = valid.size_bits_ref;
              base_aligned = valid.base_aligned;
              base_small = valid.base_small;
              in_use = block;
            },
            block,
            ((λ e. cc), (λ e. cc)),
          )))
        (omega arith) (λ out p. p)

  decode_chained_copy-Reads :
      (op : Opcode) (is_cache : Bool)
      → Reads off 68
          (λ out.
            (out.0 ≡ true)
            × (out.1 ≡ ctx)
            × (out.2.command ≡ op)
            × IsOperand is_cache out.2.main_address
            × IsLength out.2.length)
          (decode_chained_copy stream size op is_cache ctx off)
  unfolding decode_chained_copy
  decode_chained_copy-Reads op is_cache =
      weaken
        (bind
          (first_address-IsOperand stream size bytes ctx valid is_cache off (omega arith)
            (omega arith))
          λ main off1 lo1 hi1 p.
            (bind
              (read_length-IsLength stream size bytes ctx valid off1 (omega arith) (omega arith))
              (λ length off2 lo2 hi2 q. pure-Reads (refl, refl, refl, p, q))))
        (omega arith) (λ out p. p)

  decode_chained_skip-Decoded : Reads off 68 Decoded (decode_chained_skip stream size ctx off)
  unfolding decode_chained_skip read_length
  decode_chained_skip-Decoded =
      weaken
        (bind
          (bind (read-Reads stream size bytes 6 off (omega arith) (omega arith) (omega arith))
            (λ n off1 lo hi p. pure-Reads {P = λ m. (1 ≤ m) × (m ≤ 64)} (omega arith)))
          (λ n off2 lo2 hi2 p. pure-Reads (valid, p, ((λ e. cc), (λ e. cc)))))
        (omega arith) (λ out p. p)

  rebase_address :
      (id : ℕ)
      → let a =
          (0 + id % 2 ^ ctx.block_id_bits_ref * 2 ^ ctx.block_size_bits_ref % size_mod)
          % size_mod in
        (a % 4096 ≡ 0) × (a < 2 ^ 20)
  rebase_address id = rw (valid.id_bits_ref, valid.size_bits_ref) (omega arith)

  rebase_base :
      Reads off 8
        (λ a. (a % 4096 ≡ 0) × (a < 2 ^ 20))
        (read_block_id stream size
          (record ctx { block_id_bits = ctx.block_id_bits_ref; block_base = 0 })
          off)
  unfolding read_block_id
  rebase_base =
      bind {n = 8} {P = λ v. v < 2 ^ 8}
        (rw (valid.id_bits_ref)
          (read-Reads stream size bytes 8 off (omega arith) (omega arith) (omega arith)))
        (λ id off' lo hi p. pure-Reads (rebase_address id))

  decode_rebase-Decoded : Reads off 68 Decoded (decode_rebase stream size ctx off)
  unfolding decode_rebase
  decode_rebase-Decoded =
      weaken
        (bind rebase_base λ base off1 lo1 hi1 p.
          (bind (read-Reads stream size bytes 4 off1 (omega arith) (omega arith) (omega arith))
            (λ n off2 lo2 hi2 q. pure-Reads (
              record {
                id_bits = omega arith;
                id_bits_ref = valid.id_bits_ref;
                size_bits_ref = valid.size_bits_ref;
                base_aligned = p.0;
                base_small = p.1;
                in_use = valid.in_use;
              },
              p,
              ((λ e. cc), (λ e. cc)),
            ))))
        (omega arith) (λ out p. p)

  released : IsValid (record ctx { using_block = false })
  released = record {
    id_bits = valid.id_bits;
    id_bits_ref = valid.id_bits_ref;
    size_bits_ref = valid.size_bits_ref;
    base_aligned = valid.base_aligned;
    base_small = valid.base_small;
    in_use = valid.in_use;
  }

  settle :
      (op : Opcode) (out : Bool × Context × Command)
      → (out.0 ≡ true) × (out.1 ≡ ctx) × (out.2.command ≡ op)
      → op ≢ illegal
      → IsCommandOf op out.2
      → Decoded out
  settle op out (good, same, is_op) legal operands =
      (rw same valid, simp is_op operands, ((λ e. cc), (λ e. absurd (legal (sym is_op ∙ e)))))

  -- The operands of every opcode.
  pub decode_operands-Decoded :
      (op : Opcode) → Reads off 68 Decoded (decode_operands stream size op ctx off)
  unfolding decode_operands
  decode_operands-Decoded erase =
      weaken (decode_block-Reads erase) (omega arith)
        (λ out p. settle erase out (p.0, p.1, p.2) (λ e. cc) p.3)
  decode_operands-Decoded load_flush =
      weaken (decode_block-Reads load_flush) (omega arith)
        (λ out p. settle load_flush out (p.0, p.1, p.2) (λ e. cc) p.3)
  decode_operands-Decoded commit =
      weaken (decode_block-Reads commit) (omega arith)
        (λ out p. settle commit out (p.0, p.1, p.2) (λ e. cc) p.3)
  decode_operands-Decoded flush_commit = decode_flush_commit-Decoded
  decode_operands-Decoded use_block = decode_use_block-Decoded
  decode_operands-Decoded rebase = decode_rebase-Decoded
  decode_operands-Decoded chained_skip = decode_chained_skip-Decoded
  decode_operands-Decoded copy_nn =
      weaken (decode_copy-Reads stream size bytes ctx valid copy_nn false false off inside fits)
        (omega arith) (λ out p. settle copy_nn out (p.0, p.1, p.2) (λ e. cc) (p.3, p.4, p.5))
  decode_operands-Decoded copy_nc =
      weaken (decode_copy-Reads stream size bytes ctx valid copy_nc false true off inside fits)
        (omega arith) (λ out p. settle copy_nc out (p.0, p.1, p.2) (λ e. cc) (p.3, p.4, p.5))
  decode_operands-Decoded copy_cn =
      weaken (decode_copy-Reads stream size bytes ctx valid copy_cn true false off inside fits)
        (omega arith) (λ out p. settle copy_cn out (p.0, p.1, p.2) (λ e. cc) (p.3, p.4, p.5))
  decode_operands-Decoded copy_cc =
      weaken (decode_copy-Reads stream size bytes ctx valid copy_cc true true off inside fits)
        (omega arith) (λ out p. settle copy_cc out (p.0, p.1, p.2) (λ e. cc) (p.3, p.4, p.5))
  decode_operands-Decoded chained_copy_n =
      weaken (decode_chained_copy-Reads chained_copy_n false) (omega arith)
        (λ out p. settle chained_copy_n out (p.0, p.1, p.2) (λ e. cc) (p.3, p.4))
  decode_operands-Decoded chained_copy_c =
      weaken (decode_chained_copy-Reads chained_copy_c true) (omega arith)
        (λ out p. settle chained_copy_c out (p.0, p.1, p.2) (λ e. cc) (p.3, p.4))
  decode_operands-Decoded release =
      weaken (pure-Reads (released, tt, ((λ e. cc), (λ e. cc)))) (omega arith) (λ out p. p)
  decode_operands-Decoded end_of_stream =
      weaken (pure-Reads (released, tt, ((λ e. cc), (λ e. cc)))) (omega arith) (λ out p. p)
  decode_operands-Decoded illegal =
      weaken (pure-Reads (valid, tt, ((λ e. refl), (λ e. refl)))) (omega arith) (λ out p. p)

-- From any bytes, at least 72 bits ahead of the bound of its assertion, `decodeInstruction` returns
-- and takes at most 72 bits; it keeps the context valid (block base and block in use are block
-- addresses, block IDs have at most 16 bits); blocks, offsets in `cacheRAM` and lengths of the
-- command are in range; and it fails exactly on the illegal opcode.
pub decode_instruction-Decoded :
    (stream : Bytes) (size : ℕ) (ctx : Context) (off : ℕ)
    → IsByteStream stream
    → IsValid ctx
    → off + 72 ≤ 256 * size
    → off + 72 < size_mod
    → Reads off 72 Decoded (decode_instruction stream size ctx off)
unfolding decode_instruction
decode_instruction-Decoded stream size ctx off bytes valid inside fits =
    bind (read-Reads stream size bytes 4 off (omega arith) (omega arith) (omega arith))
      λ i off' lo hi p.
        decode_operands-Decoded stream size bytes ctx valid off' (omega arith) (omega arith)
          (opcode_of i)
