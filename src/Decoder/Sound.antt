-- ===== src/Decoder/Sound.antt =====
-- What `decodeInstruction` decodes from any bytes, in the configuration of the K64F: 256 blocks of
-- 4096 bytes.
pub mod Instruction
use native.Mathlib.Nat.{pow-le-pow_right, one-le-pow, mod-lt}
use ravens.Base.{
  ℕ, ◌+◌, ◌*◌, ◌/◌, ◌%◌, ◌^◌, ◌≤◌, ◌<◌, bit_or, ◌≡◌, ◌↔◌, refl, ap, ◌&&◌, inl, inr, Bool-cases,
  Bool, true, false, Option, none, some, arith, if◌then◌else◌,
}
use ravens.Base.Bits.{bit_or-shifted}
use ravens.Base.Memory.{Bytes}
use ravens.Decoder.{
  Opcode, erase, load_flush, commit, flush_commit, use_block, release, rebase, illegal, copy_nn,
  copy_nc, copy_cn, copy_cc, chained_copy_n, chained_copy_c, chained_skip, end_of_stream, Command,
  Context, pure, read, read_block_id, block_operand, read_length, first_address, second_address,
  decode_block, decode_flush_commit, decode_use_block, decode_copy, decode_chained_copy,
  decode_chained_skip, decode_rebase, decode_operands, decode_instruction, opcode_of,
}
use ravens.Decoder.Reader.{size_mod}
use ravens.Decoder.Reader.Correct.{IsByteStream}
use ravens.Decoder.Reads.{Reads, reads, bind, pure-Reads, weaken, read-Reads}

-- The address of a block. REBASE can widen the block IDs to 16 bits, hence the bound.
abbrev pub IsBlock : ℕ → Type 0
IsBlock a = (a % 4096 ≡ 0) × (a < 2 ^ 29)

pub record IsValid (ctx : Context) : Type 0 where
  pub id_bits : ctx.block_id_bits ≤ 16
  pub id_bits_ref : ctx.block_id_bits_ref ≡ 8
  pub size_bits_ref : ctx.block_size_bits_ref ≡ 12
  pub base_aligned : ctx.block_base % 4096 ≡ 0
  pub base_small : ctx.block_base < 2 ^ 20
  pub in_use : IsBlock ctx.block_in_use

-- An address in `cacheRAM`, or in the flash.
abbrev pub IsOperand : Bool → ℕ → Type 0
IsOperand is_cache a = a < (if is_cache then 4096 else 2 ^ 29)

abbrev pub IsLength : ℕ → Type 0
IsLength n = (1 ≤ n) × (n ≤ 4096)

-- The operands that each instruction may have.
abbrev pub IsCommandOf : Opcode → Command → Type 0
IsCommandOf erase c = IsBlock c.main_address
IsCommandOf load_flush c = IsBlock c.main_address
IsCommandOf commit c = IsBlock c.main_address
IsCommandOf flush_commit c = IsBlock c.main_address × IsLength c.length
IsCommandOf use_block c = IsBlock c.main_address
IsCommandOf rebase c = (c.main_address % 4096 ≡ 0) × (c.main_address < 2 ^ 20)
IsCommandOf copy_nn c =
    IsOperand false c.main_address × IsOperand false c.secondary_address × IsLength c.length
IsCommandOf copy_nc c =
    IsOperand false c.main_address × IsOperand true c.secondary_address × IsLength c.length
IsCommandOf copy_cn c =
    IsOperand true c.main_address × IsOperand false c.secondary_address × IsLength c.length
IsCommandOf copy_cc c =
    IsOperand true c.main_address × IsOperand true c.secondary_address × IsLength c.length
IsCommandOf chained_copy_n c = IsOperand false c.main_address × IsLength c.length
IsCommandOf chained_copy_c c = IsOperand true c.main_address × IsLength c.length
IsCommandOf chained_skip c = (1 ≤ c.length) × (c.length ≤ 64)
IsCommandOf _ c = Unit

-- The outcome of `decodeInstruction`: a valid context, operands in range, and the failure exactly
-- of the illegal instruction.
abbrev pub Decoded : Bool × Context × Command → Type 0
Decoded out =
    IsValid out.1 × IsCommandOf out.2.command out.2 × ((out.0 ≡ false) ↔ (out.2.command ≡ illegal))

-- An offset in a block is a sum with the block's address.
bit_or-block : (a o : ℕ) → a % 4096 ≡ 0 → o < 4096 → bit_or a o ≡ a + o
bit_or-block a o aligned small =
    let e : a ≡ a / 4096 * 2 ^ 12 = omega arith in
    omega (arith, ap (λ (t : ℕ). bit_or t o) e, bit_or-shifted 12 (a / 4096) o small)

IsBlock-address :
    (ctx : Context) (id : ℕ)
    → IsValid ctx
    → IsBlock (
        (ctx.block_base + id % 2 ^ ctx.block_id_bits * 2 ^ ctx.block_size_bits_ref % size_mod)
        % size_mod)
IsBlock-address ctx id valid = rw (valid.size_bits_ref) (
    omega (
      arith,
      valid,
      pow-le-pow_right {n = 2} (omega arith) valid.id_bits,
      mod-lt id {m = 2 ^ ctx.block_id_bits} (one-le-pow ctx.block_id_bits 2 (omega arith)),
    ))

IsOperand-small : (a o : ℕ) → IsBlock a → o < 4096 → IsOperand false (bit_or a o)
IsOperand-small a o block small = omega (arith, bit_or-block a o block.0 small, block)

cache_small : (o : ℕ) → o < 4096 → IsOperand true (bit_or 0 o)
cache_small o small = omega (arith, bit_or-block 0 o (omega arith) small)

module _ (stream : Bytes) (size : ℕ) (bytes : IsByteStream stream) (ctx : Context)
    (valid : IsValid ctx) where
  pub read_block_id-IsBlock :
      (off : ℕ)
      → off + 16 ≤ 256 * size
      → off + 16 < size_mod
      → Reads off 16 IsBlock (read_block_id stream size ctx off)
  unfolding read_block_id
  read_block_id-IsBlock off inside fits =
      weaken
        (bind
          (weaken
            (read-Reads stream size bytes ctx.block_id_bits off valid.id_bits (omega (arith, valid))
              (omega (arith, valid)))
            valid.id_bits (λ a p. tt))
          (λ id off' lo hi p. pure-Reads (IsBlock-address ctx id valid)))
        (omega arith) (λ a p. p)

  pub block_operand-IsBlock :
      (off : ℕ)
      → off + 16 ≤ 256 * size
      → off + 16 < size_mod
      → Reads off 16 IsBlock (block_operand stream size ctx off)
  unfolding block_operand
  block_operand-IsBlock off inside fits = elim (Bool-cases ctx.using_block) [
    | inl used ↦ simp used (reads (omega arith) (omega arith) valid.in_use)
    | inr free ↦ simp free (read_block_id-IsBlock off inside fits)
  ]

  pub read_length-IsLength :
      (off : ℕ)
      → off + 12 ≤ 256 * size
      → off + 12 < size_mod
      → Reads off 12 IsLength (read_length stream size ctx.block_size_bits_ref off)
  unfolding read_length
  read_length-IsLength off inside fits = rw (valid.size_bits_ref) (
      bind (read-Reads stream size bytes 12 off (omega arith) inside fits)
        (λ n off' lo hi p. pure-Reads (omega arith)))

  read_offset :
      (off : ℕ)
      → off + 12 ≤ 256 * size
      → off + 12 < size_mod
      → Reads off 12 (λ v. v < 4096) (read stream size ctx.block_size_bits_ref off)
  read_offset off inside fits =
      rw (valid.size_bits_ref) (read-Reads stream size bytes 12 off (omega arith) inside fits)

  -- The block of the second operand, which is the one in use only after a first one in the cache.
  second_base :
      (main : Bool) (off : ℕ)
      → off + 16 ≤ 256 * size
      → off + 16 < size_mod
      → Reads off 16 IsBlock (
          (if ctx.using_block && main then pure ctx.block_in_use else read_block_id stream size ctx)
            off)
  second_base main off inside fits = elim (Bool-cases (ctx.using_block && main)) [
    | inl used ↦ simp used (reads (omega arith) (omega arith) valid.in_use)
    | inr free ↦ simp free (read_block_id-IsBlock off inside fits)
  ]

  pub first_address-IsOperand :
      (is_cache : Bool) (off : ℕ)
      → off + 28 ≤ 256 * size
      → off + 28 < size_mod
      → Reads off 28 (IsOperand is_cache) (first_address stream size is_cache ctx off)
  unfolding first_address
  first_address-IsOperand false off inside fits =
      (bind (block_operand-IsBlock off (omega arith) (omega arith)) λ base off' lo hi block.
        (bind (read_offset off' (omega arith) (omega arith))
          (λ o off'' lo' hi' small. pure-Reads (IsOperand-small base o block small))))
  first_address-IsOperand true off inside fits =
      (weaken
        (bind (read_offset off (omega arith) (omega arith))
          (λ o off' lo hi small. pure-Reads (cache_small o small)))
        (omega arith) (λ a p. p))

  second_address-IsOperand :
      (is_main_cache is_sec_cache : Bool) (off : ℕ)
      → off + 28 ≤ 256 * size
      → off + 28 < size_mod
      → Reads off 28
          (IsOperand is_sec_cache)
          (second_address stream size is_main_cache is_sec_cache ctx off)
  unfolding second_address
  second_address-IsOperand main true off inside fits =
      (weaken
        (bind (read_offset off (omega arith) (omega arith))
          (λ o off' lo hi small. pure-Reads (cache_small o small)))
        (omega arith) (λ a p. p))
  second_address-IsOperand main false off inside fits =
      (bind (second_base main off (omega arith) (omega arith)) λ base off' lo hi block.
        (bind (read_offset off' (omega arith) (omega arith))
          (λ o off'' lo' hi' small. pure-Reads (IsOperand-small base o block small))))

  pub decode_copy-Reads :
      (op : Opcode) (is_main_cache is_sec_cache : Bool) (off : ℕ)
      → off + 68 ≤ 256 * size
      → off + 68 < size_mod
      → Reads off 68
          (λ out.
            (out.0 ≡ true)
            × (out.1 ≡ ctx)
            × (out.2.command ≡ op)
            × IsOperand is_main_cache out.2.main_address
            × IsOperand is_sec_cache out.2.secondary_address
            × IsLength out.2.length)
          (decode_copy stream size op is_main_cache is_sec_cache ctx off)
  unfolding decode_copy
  decode_copy-Reads op is_main_cache is_sec_cache off inside fits =
      bind (first_address-IsOperand is_main_cache off (omega arith) (omega arith))
        λ main off1 lo1 hi1 p1.
          (bind (read_length-IsLength off1 (omega arith) (omega arith)) λ length off2 lo2 hi2 p2.
            (bind
              (second_address-IsOperand is_main_cache is_sec_cache off2 (omega arith) (omega arith))
              (λ secondary off3 lo3 hi3 p3. pure-Reads (refl, refl, refl, p1, p3, p2))))
