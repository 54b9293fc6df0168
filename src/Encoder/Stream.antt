-- ===== src/Encoder/Stream.antt =====
-- The bytes of the encoder, and its decoder: appendInstruction, encode, _decodeInstruction, decode
-- and validate of hugin/Scheduler/Encoding/encoder.cpp.
use ravens.Base.{
  ℕ, zero, suc, ◌+◌, ◌-◌, ◌*◌, ◌/◌, ◌%◌, ◌^◌, min, bit_or, Bool, true, false, not, ◌&&◌, ◌||◌,
  Option, none, some, List, [], ◌∷◌, ◌++◌, ◌==◌, ltb, length, if◌then◌else◌,
}
use ravens.Base.Memory.{Bytes, of_list}
use ravens.Base.Maybe.{◌>>=◌}
use ravens.Decoder.{
  Opcode, load_flush, flush_commit, release, illegal, copy_nn, copy_nc, copy_cn, copy_cc,
  chained_copy_n, chained_copy_c, chained_skip, Context, Command, decode_instruction,
  instruction_width,
}
use ravens.Encoder.{
  Instr, load_and_flush, flush_and_partial_commit, copy, chained_copy, chained_copy_skip,
  release_block, PublicCommand, Encoder, cache_address, block_size_bit, encode_instruction,
}
use ravens.Flash.{block_id_space}

-- `byteStream`, `currentByte` and `spaceLeftInByte`.
pub record Output : Type 0 where
  pub byte_stream : List ℕ
  pub current_byte : ℕ
  pub space_left : ℕ

-- The loop of appendInstruction for the last `length` bits of a qword, and what follows it. All but
-- the first of its rounds take eight bits.
unfoldable pub append_qword : (fuel qword length : ℕ) → Output → Output
append_qword zero qword length o = o
append_qword (suc fuel) qword length o =
    let byte = bit_or o.current_byte (qword / 2 ^ (length - o.space_left) % 2 ^ o.space_left) in
    let rest =
      append_qword fuel qword (length - o.space_left)
        (record { byte_stream = o.byte_stream ++ (byte ∷ []); current_byte = 0; space_left = 8 }) in
    if ltb o.space_left length then rest else record o {
      current_byte = bit_or o.current_byte (qword % 2 ^ length * 2 ^ (o.space_left - length));
      space_left = o.space_left - length;
    }

-- The loop over the qwords of an instruction.
unfoldable pub append_qwords : List ℕ → (bit_length : ℕ) → Output → Output
append_qwords [] bit_length o = o
append_qwords (qword ∷ rest) bit_length o =
    let length = min bit_length 64 in
    append_qwords rest (bit_length - length) (append_qword (length + 2) qword length o)

-- appendInstruction
unfoldable pub append_instruction : Encoder → PublicCommand → Output → Option (Output × Encoder)
append_instruction e c o = do
  (f, e') ← encode_instruction e c
  some (append_qwords (f.front ++ (f.back ∷ [])) f.bit_width o, e')

unfoldable pub append_instructions :
    Encoder → List PublicCommand → Output → Option (Output × Encoder)
append_instructions e [] o = some (o, e)
append_instructions e (c ∷ rest) o = do
  (o', e') ← append_instruction e c o
  append_instructions e' rest o'

-- reset
abbrev pub reset : Encoder
reset = record { using_block = false; block_id_bits = block_id_space; block_base = 0 }

abbrev pub end_command : PublicCommand
end_command = record {
  command = Instr.end_of_stream;
  main_address = 0;
  secondary_address = 0;
  length = 0;
}

-- The end of the stream: an instruction of ones, if there is no room for it in the byte.
unfoldable pub end_instruction : Encoder → Output → Option Output
end_instruction e o =
    if o.space_left == 8 || ltb o.space_left instruction_width
    then (do (o', e') ← append_instruction e end_command o; some o')
    else some o

-- The padding with ones.
unfoldable pub pad_byte : Output → List ℕ
pad_byte o =
    if o.space_left == 8
    then o.byte_stream
    else o.byte_stream ++ (bit_or o.current_byte (2 ^ o.space_left - 1) ∷ [])

-- encode, where the allocation succeeds.
unfoldable pub encode : List PublicCommand → Option (List ℕ)
encode commands = do
  (o, e) ←
      append_instructions reset commands
        (record { byte_stream = []; current_byte = 0; space_left = 8 })
  o' ← end_instruction e o
  some (pad_byte o')

-- `address |= CACHE_ADDRESS`
abbrev pub in_cache : Bool → ℕ → ℕ
in_cache true address = bit_or address cache_address
in_cache false address = address

-- The command that _decodeInstruction makes, with the operands that are in the cache.
abbrev pub public_command : Command → Instr → (main secondary : Bool) → PublicCommand
public_command c i main secondary = record {
  command = i;
  main_address = in_cache main c.main_address;
  secondary_address = in_cache secondary c.secondary_address;
  length = c.length;
}

-- The switch of _decodeInstruction; `none` where it returns false.
unfoldable pub public_of : Opcode → Command → Option PublicCommand
public_of op c = elim op [
  | Opcode.erase ↦ some (public_command c Instr.erase false false)
  | load_flush ↦ some (public_command c load_and_flush false false)
  | Opcode.commit ↦ some (public_command c Instr.commit false false)
  | flush_commit ↦ some (public_command c flush_and_partial_commit false false)
  | Opcode.use_block ↦ some (public_command c Instr.use_block false false)
  | release ↦ some (public_command c release_block false false)
  | Opcode.rebase ↦ some (public_command c Instr.rebase false false)
  | copy_nn ↦ some (public_command c copy false false)
  | copy_nc ↦ some (public_command c copy false true)
  | copy_cn ↦ some (public_command c copy true false)
  | copy_cc ↦ some (public_command c copy true true)
  | chained_copy_c ↦ some (public_command c chained_copy true false)
  | chained_copy_n ↦ some (public_command c chained_copy false false)
  | chained_skip ↦ some (public_command c chained_copy_skip false false)
  | Opcode.end_of_stream ↦ none
  | illegal ↦ none
]

-- The context of _decodeInstruction after reset. The initial `blockInUse` is 0.
abbrev pub start_context : Context
start_context = record {
  using_block = false;
  block_in_use = 0;
  block_id_bits = block_id_space;
  block_base = 0;
  block_id_bits_ref = block_id_space;
  block_size_bits_ref = block_size_bit;
}

-- The loop of decode, `none` for a failed assertion of the decoder or the end of the fuel.
unfoldable pub decode_loop :
    (fuel : ℕ) (stream : Bytes) (length : ℕ) → Context → ℕ → Option (List PublicCommand)
decode_loop zero stream length ctx off = none
decode_loop (suc fuel) stream length ctx off = elim (decode_instruction stream length ctx off) [
  | none ↦ none
  | some ((good, ctx', c), off') ↦ elim (public_of c.command c) [
    | none ↦ some []
    | some command ↦ do rest ← decode_loop fuel stream length ctx' off'; some (command ∷ rest)
  ]
]

-- decode; every instruction has four bits, so that the fuel is enough.
unfoldable pub decode : (bytes : List ℕ) → Option (List PublicCommand)
decode bytes = decode_loop (8 * length bytes + 1) (of_list bytes) (length bytes) start_context 0

-- The enumerators of INSTR.
abbrev pub instr_number : Instr → ℕ
instr_number Instr.erase = 0
instr_number Instr.commit = 1
instr_number flush_and_partial_commit = 2
instr_number load_and_flush = 3
instr_number copy = 4
instr_number chained_copy = 5
instr_number chained_copy_skip = 6
instr_number Instr.use_block = 7
instr_number release_block = 8
instr_number Instr.rebase = 9
instr_number Instr.end_of_stream = 10

-- The comparison in the loop of validate, negated.
unfoldable pub same_command : PublicCommand → PublicCommand → Bool
same_command old newer = not (
    not (instr_number old.command == instr_number newer.command)
    || not (old.main_address == newer.main_address)
    || not (old.length == newer.length)
    || not (old.secondary_address == newer.secondary_address))

unfoldable pub same_commands : List PublicCommand → List PublicCommand → Bool
same_commands (old ∷ commands) (newer ∷ new_commands) =
    same_command old newer && same_commands commands new_commands
same_commands _ _ = true

-- validate, where the allocation succeeds.
unfoldable pub validate : List PublicCommand → Option ℕ
validate commands = do
  bytes ← encode commands
  new_commands ← decode bytes
  some (
      if not (length commands == length new_commands)
      then 0
      else if same_commands commands new_commands
      then length bytes
      else 0)
