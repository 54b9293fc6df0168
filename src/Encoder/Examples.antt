-- ===== src/Encoder/Examples.antt =====
-- The encoder on a concrete sequence of commands.
use ravens.Base.{ℕ, ◌+◌, ◌*◌, ◌≤◌, ◌<◌, ◌≡◌, refl, true, none, some, List, [], ◌∷◌, arith, length}
use ravens.Decoder.{
  opcode_of, read, read_block_id, block_operand, read_length, decode_use_block, first_address,
  second_address, decode_copy, decode_operands, decode_instruction,
}
use ravens.Decoder.Reader.{read_round, read_loop, read_bits}
use ravens.Encoder.{
  Instr, PublicCommand, Encoder, encode_instruction, number_of_bits_necessary, bits_necessary,
  write_bits, write_fields, extract_block_id, block_field, encode_copy, encode_as,
}
use ravens.Encoder.Encodable.{Encodable}
use ravens.Encoder.Rejects.{encode_instruction-rebase_fails}
use ravens.Encoder.RoundTrip.{decode-encode, length-encode}
use ravens.Encoder.Stream.{
  append_qword, append_qwords, append_instruction, append_instructions, end_instruction, pad_byte,
  encode, public_of, decode_loop, decode, reset, start_context, same_command, same_commands,
  validate,
}
use ravens.Encoder.Validate.{validate-Encodable, validate_sound}
use ravens.Encoder.Whole.{AllFit, IsStream, all_fields, encode-IsStream}

abbrev public : Instr → (main secondary length : ℕ) → PublicCommand
public i main secondary length = record {
  command = i;
  main_address = main;
  secondary_address = secondary;
  length = length;
}

-- A base with a width of 4 bits, a page in the cache, copies both ways, a block in use.
abbrev demo : List PublicCommand
demo =
    public Instr.rebase 0x2000 0 15
    ∷ public Instr.load_and_flush 0x3000 0 0
    ∷ public Instr.copy 0x4123 0xffff_e010 0x100
    ∷ public Instr.chained_copy_skip 0 0 7
    ∷ public Instr.chained_copy 0x5fff 0 1
    ∷ public Instr.use_block 0x4000 0 0
    ∷ public Instr.erase 0x4000 0 0
    ∷ public Instr.copy 0xffff_e200 0x4400 0x200
    ∷ public Instr.copy 0x4800 0x3010 4096
    ∷ public Instr.release_block 0 0 0
    ∷ public Instr.commit 0x3000 0 0
    ∷ []

demo-Encodable : Encodable start_context demo
unfolding Encodable number_of_bits_necessary bits_necessary
demo-Encodable = ((4, omega arith), omega arith)

abbrev small_demo : List PublicCommand
small_demo = public Instr.use_block 0x4000 0 0 ∷ public Instr.copy 0x4123 0xffff_e010 0x100 ∷ []

validate_demo : validate small_demo ≡ some 7
unfolding validate encode append_instructions append_instruction encode_instruction encode_as
    extract_block_id number_of_bits_necessary bits_necessary write_fields write_bits block_field
    encode_copy end_instruction append_qwords append_qword pad_byte decode decode_loop
    decode_instruction read read_bits read_loop read_round opcode_of decode_operands
    decode_use_block read_block_id decode_copy first_address second_address read_length
    block_operand public_of same_commands same_command
validate_demo = refl

decode-encode_example : (bytes : List ℕ) × (encode demo ≡ some bytes) × (decode bytes ≡ some demo)
decode-encode_example = decode-encode demo demo-Encodable (omega arith)

length-encode_example :
    (bytes : List ℕ) × (encode demo ≡ some bytes)
    × (length demo < 2 * length bytes)
    × (length bytes ≤ 8 * length demo + 1)
length-encode_example = length-encode demo demo-Encodable

validate-Encodable_example :
    (bytes : List ℕ) × (encode demo ≡ some bytes) × (validate demo ≡ some (length bytes))
validate-Encodable_example = validate-Encodable demo demo-Encodable (omega arith)

validate_sound_example :
    (bytes : List ℕ) × (encode small_demo ≡ some bytes)
    × (length bytes ≡ 7)
    × (decode bytes ≡ some small_demo)
validate_sound_example = validate_sound small_demo 7 validate_demo (λ e. absurd (omega arith))

small_demo-AllFit : AllFit reset small_demo
unfolding AllFit encode_as encode_copy block_field extract_block_id number_of_bits_necessary
    bits_necessary
small_demo-AllFit = (
  (0b0100, 4) ∷ (4, 8) ∷ [],
  record reset { using_block = true },
  refl,
  omega arith,
  (
    (0b1001, 4) ∷ (0x4123, 12) ∷ (0xff, 12) ∷ (0xffff_e010, 12) ∷ [],
    record reset { using_block = true },
    refl,
    omega arith,
    tt,
  ),
)

encode-IsStream_example :
    (fields : List (ℕ × ℕ)) × (e : Encoder) × (bytes : List ℕ) × (r : ℕ) × (all_fields reset
        small_demo
      ≡ some (fields, e))
    × (encode small_demo ≡ some bytes)
    × IsStream bytes fields r
encode-IsStream_example = encode-IsStream small_demo small_demo-AllFit

-- 100 blocks behind the start of the flash, a range of 4 blocks.
encode_instruction-rebase_fails_example :
    encode_instruction reset (public Instr.rebase 0x64000 0 3) ≡ none
unfolding number_of_bits_necessary bits_necessary
encode_instruction-rebase_fails_example =
    encode_instruction-rebase_fails reset (public Instr.rebase 0x64000 0 3) refl (omega arith)
      (omega arith)
