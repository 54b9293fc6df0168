-- ===== src/Decoder/Examples.antt =====
-- The decoder on a small stream: REBASE to block 3 with 5-bit block IDs, COPY from block 4 to the
-- cache, ERASE of block 5, and the end of the stream.
use ravens.Base.{ℕ, ◌≡◌, refl, true, false, some, List, [], ◌∷◌, arith}
use ravens.Base.Memory.{Bytes, of_list, of_list-lt}
use ravens.Decoder.{
  Context, rebase, bare, opcode_of, read, read_block_id, decode_rebase, decode_operands,
  decode_instruction,
}
use ravens.Decoder.Reader.{read_bits}
use ravens.Decoder.Reader.Correct.{IsByteStream, read_bits-value}
use ravens.Decoder.Reader.Value.{bits_value}
use ravens.Decoder.Reads.{Reads}
use ravens.Decoder.Sound.{IsValid, Decoded}
use ravens.Decoder.Sound.Instruction.{decode_instruction-Decoded}

abbrev stream_bytes : List ℕ
stream_bytes = 0x60 ∷ 0x34 ∷ 0x90 ∷ 0x81 ∷ 0x00 ∷ 0xff ∷ 0x00 ∷ 0x80 ∷ 0x17 ∷ 0x80 ∷ 0xff ∷ []

abbrev stream : Bytes
stream = of_list stream_bytes

stream-IsByteStream : IsByteStream stream
stream-IsByteStream = of_list-lt stream_bytes (omega arith)

-- A context in the state that `Encoder::reset` gives.
abbrev start : Context
start = record {
  using_block = false;
  block_in_use = 0;
  block_id_bits = 8;
  block_base = 0;
  block_id_bits_ref = 8;
  block_size_bits_ref = 12;
}

abbrev rebased : Context
rebased = record start { block_id_bits = 5; block_base = 0x3000 }

decode_first :
    decode_instruction stream 11 start 0
    ≡ some ((true, rebased, record (bare rebase) { main_address = 0x3000; length = 31 }), 16)
unfolding decode_instruction decode_operands decode_rebase read_block_id read read_bits opcode_of
decode_first = refl

read_bits-value_example : read_bits stream 11 4 8 ≡ some (3, 12)
unfolding bits_value
read_bits-value_example =
    read_bits-value stream 11 stream-IsByteStream 4 8 (omega arith) (omega arith) (omega arith)

start-IsValid : IsValid start
start-IsValid = omega arith

decode_instruction-Decoded_example : Reads 16 72 Decoded (decode_instruction stream 11 rebased 16)
decode_instruction-Decoded_example =
    decode_instruction-Decoded stream 11 rebased 16 stream-IsByteStream (omega arith) (omega arith)
      (omega arith)
