-- ===== src/Encoder/Encodable.antt =====
-- The commands that an instruction of at most 64 bits can express, and the contexts of encoder and
-- decoder between them.
use ravens.Base.{
  ℕ, ◌+◌, ◌-◌, ◌*◌, ◌/◌, ◌%◌, ◌^◌, ◌≤◌, ◌<◌, ◌≡◌, Bool, true, false, ◌&&◌, List, [], ◌∷◌, leb,
}
use ravens.Decoder.{Context}
use ravens.Encoder.{
  Instr, erase, commit, flush_and_partial_commit, load_and_flush, copy, chained_copy,
  chained_copy_skip, use_block, release_block, rebase, end_of_stream, PublicCommand, Encoder,
  cache_address, number_of_bits_necessary,
}

-- The encoder has the fields of the decoder's context that it needs.
abbrev pub encoder_of : Context → Encoder
encoder_of ctx = record {
  using_block = ctx.using_block;
  block_id_bits = ctx.block_id_bits;
  block_base = ctx.block_base;
}

-- The context between instructions: block IDs of at most 12 bits, so that no instruction has more
-- than 64, behind the address of a block of the device.
pub record IsContext (ctx : Context) : Type 0 where
  pub id_bits : ctx.block_id_bits ≤ 12
  pub id_bits_ref : ctx.block_id_bits_ref ≡ 8
  pub size_bits_ref : ctx.block_size_bits_ref ≡ 12
  pub base_aligned : ctx.block_base % 4096 ≡ 0
  pub base_small : ctx.block_base < 2 ^ 20

-- The block of an address: the one in use, or one that a block ID names.
abbrev pub InBlock : (in_use : Bool) → Context → ℕ → Type 0
InBlock true ctx a = a / 4096 * 4096 ≡ ctx.block_in_use
InBlock false ctx a = (ctx.block_base ≤ a) × ((a - ctx.block_base) / 4096 < 2 ^ ctx.block_id_bits)

-- An operand in the flash or in the cache.
abbrev pub IsOperandOf : (is_cache in_use : Bool) → Context → ℕ → Type 0
IsOperandOf true in_use ctx a = (cache_address ≤ a) × (a < cache_address + 4096)
IsOperandOf false in_use ctx a = InBlock in_use ctx a

abbrev pub is_cached : ℕ → Bool
is_cached a = leb cache_address a

-- The operand of an instruction on a whole block.
abbrev pub IsBlockOperand : (in_use : Bool) → Context → PublicCommand → Type 0
IsBlockOperand in_use ctx c =
    (c.main_address % 4096 ≡ 0) × InBlock in_use ctx c.main_address × (c.secondary_address ≡ 0)

abbrev pub IsLengthUpTo : (max n : ℕ) → Type 0
IsLengthUpTo max n = (1 ≤ n) × (n ≤ max)

-- The block IDs behind a REBASE have `bits` bits, enough for its own block.
abbrev pub IsRebase : PublicCommand → (bits : ℕ) → Type 0
IsRebase c bits =
    IsLengthUpTo 12 bits
    × (c.length ≡ 2 ^ bits - 1)
    × (c.main_address % 4096 ≡ 0)
    × (c.main_address < 2 ^ 20)
    × (c.main_address / 4096 < 2 ^ bits)
    × (c.secondary_address ≡ 0)

abbrev pub IsCopy : Context → PublicCommand → Type 0
IsCopy ctx c =
    IsOperandOf (is_cached c.main_address) ctx.using_block ctx c.main_address
    × IsOperandOf (is_cached c.secondary_address) (ctx.using_block && is_cached c.main_address) ctx
        c.secondary_address
    × IsLengthUpTo 4096 c.length

-- The fields that each instruction leaves out are 0.
abbrev pub EncodableAs : Instr → Context → PublicCommand → Type 0
EncodableAs erase ctx c = IsBlockOperand ctx.using_block ctx c × (c.length ≡ 0)
EncodableAs commit ctx c = IsBlockOperand ctx.using_block ctx c × (c.length ≡ 0)
EncodableAs load_and_flush ctx c = IsBlockOperand ctx.using_block ctx c × (c.length ≡ 0)
EncodableAs flush_and_partial_commit ctx c =
    IsBlockOperand ctx.using_block ctx c × IsLengthUpTo 4096 c.length
EncodableAs copy ctx c = IsCopy ctx c
EncodableAs chained_copy ctx c =
    IsOperandOf (is_cached c.main_address) ctx.using_block ctx c.main_address
    × (c.secondary_address ≡ 0)
    × IsLengthUpTo 4096 c.length
EncodableAs chained_copy_skip ctx c =
    (c.main_address ≡ 0) × (c.secondary_address ≡ 0) × IsLengthUpTo 64 c.length
EncodableAs use_block ctx c = IsBlockOperand false ctx c × (c.length ≡ 0)
EncodableAs release_block ctx c = (c.main_address ≡ 0) × (c.secondary_address ≡ 0) × (c.length ≡ 0)
EncodableAs rebase ctx c = (bits : ℕ) × IsRebase c bits
EncodableAs end_of_stream ctx c = ⊥

-- The context behind an instruction, as the decoder leaves it.
abbrev pub context_after : Instr → Context → PublicCommand → Context
context_after use_block ctx c = record ctx { using_block = true; block_in_use = c.main_address }
context_after release_block ctx c = record ctx { using_block = false }
context_after rebase ctx c = record ctx {
  block_id_bits = number_of_bits_necessary c.length;
  block_base = c.main_address;
}
context_after i ctx c = ctx

-- A sequence of such commands, from a context on.
unfoldable pub Encodable : Context → List PublicCommand → Type 0
Encodable ctx [] = Unit
Encodable ctx (c ∷ rest) =
    EncodableAs c.command ctx c × Encodable (context_after c.command ctx c) rest
