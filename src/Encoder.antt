-- ===== src/Encoder.antt =====
-- hugin/Scheduler/Encoding: the encoder of the bytecode on the host, whose `size_t` has 64 bits.
pub mod Fields
pub mod Stream
pub mod Output
pub mod Whole
pub mod Located
pub mod Encodable
pub mod Operands
pub mod Instructions
pub mod Copies
pub mod Rebase
pub mod RoundTrip
pub mod Validate
pub mod Rejects
mod Examples
use ravens.Base.{
  ℕ, zero, suc, ◌+◌, ◌-◌, ◌*◌, ◌/◌, ◌%◌, ◌^◌, min, bit_or, Bool, true, false, not, ◌&&◌, ◌||◌,
  Option, none, some, List, [], ◌∷◌, ◌++◌, ◌==◌, leb, ltb, if◌then◌else◌,
}
use ravens.Base.Memory.{Bytes, of_list}
use ravens.Base.Maybe.{◌>>=◌, ◌>>◌, check}
use ravens.Decoder.{Opcode, instruction_width, rebase_length_bits, max_skip_length_bits}
use ravens.Flash.{block_size, block_id_space}

-- INSTR
pub data Instr : Type 0 where
  erase commit flush_and_partial_commit load_and_flush copy chained_copy chained_copy_skip : Instr
  use_block release_block rebase end_of_stream : Instr

pub record PublicCommand : Type 0 where
  pub command : Instr
  pub main_address : ℕ
  pub secondary_address : ℕ
  pub length : ℕ

-- The fields of Encoder that it reads: `blockInUse` is only set by the decoder.
pub record Encoder : Type 0 where
  pub using_block : Bool
  pub block_id_bits : ℕ
  pub block_base : ℕ

-- BLOCK_SIZE_BIT
abbrev pub block_size_bit : ℕ
block_size_bit = 12

-- CACHE_ADDRESS. The mask has 32 bits, and so has the result.
abbrev pub cache_address : ℕ
cache_address = 0xffff_e000

abbrev pub word_mod : ℕ
word_mod = 2 ^ 64

-- The loop of numberOfBitsNecessary. Each round halves `x`.
unfoldable pub bits_necessary : (fuel x : ℕ) → ℕ
bits_necessary zero x = 0
bits_necessary (suc fuel) x =
    let rest = bits_necessary fuel (x / 2) in if x == 0 then 0 else rest + 1

-- numberOfBitsNecessary: a `size_t` has 64 bits.
unfoldable pub number_of_bits_necessary : ℕ → ℕ
number_of_bits_necessary x = bits_necessary 64 x

-- `std::vector<uint64_t>` with its last element apart, and `bitWidth`.
pub record BitField : Type 0 where
  pub front : List ℕ
  pub back : ℕ
  pub bit_width : ℕ

-- The case of writeBits where the bits fit the last qword.
abbrev pub append_bits : (bits length : ℕ) → BitField → BitField
append_bits bits length f = record f {
  back = bit_or (f.back * 2 ^ length % word_mod) (bits % 2 ^ length);
  bit_width = f.bit_width + length;
}

-- writeBits; `none` is a failed assertion. Where it calls itself, the first call fills the qword and
-- the second one begins a new qword, so that both append.
unfoldable pub write_bits : (bits length : ℕ) → BitField → Option BitField
write_bits bits length f =
    let space_left = 64 - f.bit_width % 64 in
    let g = append_bits (bits / 2 ^ (length - space_left)) space_left f in
    if length == 0
    then some f
    else if not (leb (f.bit_width + length) 255)
    then none
    else if leb length space_left
    then some (append_bits bits length f)
    else some (
        append_bits bits (length - space_left)
          (record g { front = g.front ++ (g.back ∷ []); back = 0 }))

-- The calls of writeBits that an instruction makes, each with its bits and their number.
unfoldable pub write_fields : List (ℕ × ℕ) → BitField → Option BitField
write_fields [] f = some f
write_fields ((bits, length) ∷ rest) f = do g ← write_bits bits length f; write_fields rest g

-- extractBlockID
unfoldable pub extract_block_id : Encoder → ℕ → Option ℕ
extract_block_id e address = do
  let output = (address + word_mod - e.block_base) % word_mod / 2 ^ block_size_bit
  check (leb (number_of_bits_necessary output) e.block_id_bits)
  some output

-- The block ID, if `wanted`.
unfoldable pub block_field : Bool → Encoder → ℕ → Option (List (ℕ × ℕ))
block_field wanted e address = elim wanted [
  | false ↦ some []
  | true ↦ do id ← extract_block_id e address; some ((id, e.block_id_bits) ∷ [])
]

abbrev pub opcode_field : ℕ → ℕ × ℕ
opcode_field opcode = (opcode, instruction_width)

-- `writeBits(value, BLOCK_SIZE_BIT, …)`, and the same of `length - 1`.
abbrev pub offset_field : ℕ → ℕ × ℕ
offset_field address = (address, block_size_bit)

abbrev pub length_field : (width length : ℕ) → ℕ × ℕ
length_field width length = ((length + word_mod - 1) % word_mod, width)

-- ERASE, LOAD_AND_FLUSH, COMMIT
unfoldable pub encode_block : (opcode : ℕ) → Encoder → PublicCommand → Option (List (ℕ × ℕ))
encode_block opcode e c = do
  block ← block_field (not e.using_block) e c.main_address
  some (opcode_field opcode ∷ block)

unfoldable pub encode_flush_commit : Encoder → PublicCommand → Option (List (ℕ × ℕ))
encode_flush_commit e c = do
  block ← block_field (not e.using_block) e c.main_address
  some (opcode_field 0b0011 ∷ (block ++ (length_field block_size_bit c.length ∷ [])))

abbrev pub copy_opcode : (is_main_cache is_sec_cache : Bool) → ℕ
copy_opcode false false = 0b1000
copy_opcode false true = 0b1001
copy_opcode true false = 0b1010
copy_opcode true true = 0b1011

unfoldable pub encode_copy :
    (is_main_cache is_sec_cache : Bool) → Encoder → PublicCommand → Option (List (ℕ × ℕ))
encode_copy is_main_cache is_sec_cache e c = do
  main ← block_field (not is_main_cache && not e.using_block) e c.main_address
  secondary ←
      block_field (not is_sec_cache && (not e.using_block || (e.using_block && not is_main_cache)))
        e c.secondary_address
  some (
      opcode_field (copy_opcode is_main_cache is_sec_cache)
      ∷ (main
          ++ (offset_field c.main_address
              ∷ length_field block_size_bit c.length
              ∷ (secondary ++ (offset_field c.secondary_address ∷ [])))))

unfoldable pub encode_chained_copy :
    (is_main_cache : Bool) → Encoder → PublicCommand → Option (List (ℕ × ℕ))
encode_chained_copy is_main_cache e c = do
  main ← block_field (not is_main_cache && not e.using_block) e c.main_address
  some (
      opcode_field (if is_main_cache then 0b1101 else 0b1100)
      ∷ (main ++ (offset_field c.main_address ∷ length_field block_size_bit c.length ∷ [])))

-- REBASE; the block is taken from the start of the flash, but checked against the new width.
unfoldable pub encode_rebase : Encoder → PublicCommand → Option (List (ℕ × ℕ) × Encoder)
encode_rebase e c = do
  let bits = number_of_bits_necessary c.length % 256
  let width = (bits + 2 ^ 32 - 1) % 2 ^ 32
  check (leb (number_of_bits_necessary width) rebase_length_bits)
  id ← extract_block_id (record e { block_id_bits = bits; block_base = 0 }) c.main_address
  some (
    opcode_field 0b0110 ∷ (id, block_id_space) ∷ (width, rebase_length_bits) ∷ [],
    record e {
      block_id_bits = bits;
      block_base = c.main_address % 2 ^ 32 - c.main_address % block_size;
    },
  )

abbrev pub with_encoder : Encoder → Option (List (ℕ × ℕ)) → Option (List (ℕ × ℕ) × Encoder)
with_encoder e none = none
with_encoder e (some fields) = some (fields, e)

-- The switch of encodeInstruction: the calls of writeBits and the encoder behind it.
unfoldable pub encode_as : Instr → Encoder → PublicCommand → Option (List (ℕ × ℕ) × Encoder)
encode_as erase e c = with_encoder e (encode_block 0b0000 e c)
encode_as load_and_flush e c = with_encoder e (encode_block 0b0001 e c)
encode_as commit e c = with_encoder e (encode_block 0b0010 e c)
encode_as flush_and_partial_commit e c = with_encoder e (encode_flush_commit e c)
encode_as copy e c =
    with_encoder e
      (encode_copy (leb cache_address c.main_address) (leb cache_address c.secondary_address) e c)
encode_as chained_copy e c =
    with_encoder e (encode_chained_copy (leb cache_address c.main_address) e c)
encode_as chained_copy_skip e c =
    some (opcode_field 0b1110 ∷ length_field max_skip_length_bits c.length ∷ [], e)
encode_as use_block e c = do
  block ← block_field true e c.main_address
  some (opcode_field 0b0100 ∷ block, record e { using_block = true })
encode_as release_block e c = some (opcode_field 0b0101 ∷ [], record e { using_block = false })
encode_as rebase e c = encode_rebase e c
encode_as end_of_stream e c = some (opcode_field 0b1111 ∷ [], e)

-- encodeInstruction
unfoldable pub encode_instruction : Encoder → PublicCommand → Option (BitField × Encoder)
encode_instruction e c = do
  (fields, e') ← encode_as c.command e c
  f ← write_fields fields (record { front = []; back = 0; bit_width = 0 })
  some (f, e')
