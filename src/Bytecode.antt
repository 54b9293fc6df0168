-- ===== src/Bytecode.antt =====
-- processInstruction and runCommands of munin/Bytecode/execution.c.
pub mod Dry
pub mod Halts
use ravens.Base.{
  ℕ, zero, suc, ◌+◌, ◌*◌, ◌/◌, ◌%◌, ◌^◌, Bool, true, false, not, ◌&&◌, Option, none, some, ◌==◌,
  if◌then◌else◌,
}
use ravens.Base.Memory.{Bytes, shift}
use ravens.Copy.{flush_copy_cache, perform_copy}
use ravens.Counter.{get_current_counter, increment_counter, backup_cache, restore_cache}
use ravens.Decoder.{
  Opcode, load_flush, commit, flush_commit, use_block, release, rebase, illegal, copy_nn, copy_nc,
  copy_cn, copy_cc, chained_copy_n, chained_copy_c, chained_skip, end_of_stream, Command, Context,
  decode_instruction,
}
use ravens.Decoder.Reader.{size_mod}
use ravens.Device.{
  Device, M, pure, skip, fails, assertion, null_pointer, out_of_fuel, get, ◌>>=◌, ◌>>◌, erase,
}
use ravens.Flash.{block_size, block_id_space}
use ravens.Platform.{Platform}

-- ChainAddress, and what `stepCount` and `fastForward` point to (`none` for NULL).
pub record Progress : Type 0 where
  pub is_cache : Bool
  pub chain_address : ℕ
  pub step_count : Option ℕ
  pub fast_forward : Option Bool

-- `*fastForward`
abbrev pub deref : Option Bool → M Bool
deref none = fails null_pointer
deref (some fast) = pure fast

abbrev pub command : Opcode → (main secondary length : ℕ) → Command
command op main secondary length = record {
  command = op;
  main_address = main;
  secondary_address = secondary;
  length = length;
}

-- The copy that a chained copy stands for.
abbrev pub chained_opcode : (from_cache to_cache : Bool) → Opcode
chained_opcode true true = copy_cc
chained_opcode true false = copy_cn
chained_opcode false true = copy_nc
chained_opcode false false = copy_nn

-- `*currentByteOffset` from a number of bits to one of bytes.
abbrev pub byte_offset : ℕ → ℕ
byte_offset off = (if off % 8 == 0 then off else (off + 8) % size_mod) / 8

-- `decodedCommand.command == OPCODE_END_OF_STREAM`
abbrev pub is_end : Opcode → Bool
is_end end_of_stream = true
is_end _ = false

-- The DecoderContext of runCommands.
abbrev pub start_context : Context
start_context = record {
  using_block = false;
  block_in_use = 0;
  block_id_bits = block_id_space;
  block_base = block_id_space;
  block_id_bits_ref = block_id_space;
  block_size_bits_ref = 12;
}

module _ (p : Platform) where
  -- OPCODE_ERASE behind its test of a dry run: it backs the cache up between two steps.
  unfoldable pub erase_with_backup : Command → ℕ → Progress → M (Bool × Progress)
  erase_with_backup c steps s = do
    flush_copy_cache p
    old_counter ← get_current_counter p
    (steps1, fast1) ← increment_counter p steps old_counter s.fast_forward
    skip_backup ← deref fast1
    (if skip_backup then skip else backup_cache p steps1)
    (steps2, fast2) ← increment_counter p steps1 old_counter fast1
    skip_erase ← deref fast2
    (if skip_erase then skip else erase p c.main_address)
    pure (true, record s { step_count = some steps2; fast_forward = fast2 })

  -- The OPCODE_COPY instructions, with whether the destination is the cache.
  unfoldable pub copy_step : Opcode → Bool → Command → Progress → M (Bool × Progress)
  copy_step op to_cache c s = do
    let next = record s {
      is_cache = to_cache;
      chain_address = (c.secondary_address + c.length) % size_mod % 2 ^ 31;
    }
    elim s.step_count [
      | none ↦ pure (true, next)
      | some steps ↦ do
        fast ← deref s.fast_forward
        (if fast then skip else perform_copy p op c)
        pure (true, next)
    ]

  -- processInstruction, for the instructions that it does not call itself for.
  unfoldable pub process_basic : Opcode → Command → Progress → M (Bool × Progress)
  process_basic Opcode.erase c s = elim s.step_count [
    | none ↦ pure (true, s)
    | some steps ↦ erase_with_backup c steps s
  ]
  process_basic copy_nc c s = copy_step copy_nc true c s
  process_basic copy_cc c s = copy_step copy_cc true c s
  process_basic copy_nn c s = copy_step copy_nn false c s
  process_basic copy_cn c s = copy_step copy_cn false c s
  process_basic chained_skip c s =
      pure (true, record s { chain_address = (s.chain_address + c.length) % 2 ^ 31 })
  process_basic use_block c s = pure (true, s)
  process_basic release c s = pure (true, s)
  process_basic rebase c s = pure (true, s)
  process_basic _ c s = pure (false, s)

  -- Two calls of processInstruction, the second if the first returns true.
  abbrev both : Command → Command → Progress → M (Bool × Progress)
  both first second s = do
    (good, s') ← process_basic first.command first s
    if good then process_basic second.command second s' else pure (false, s')

  abbrev chained : Bool → Command → Progress → M (Bool × Progress)
  chained from_cache c s =
      process_basic (chained_opcode from_cache s.is_cache)
        (command (chained_opcode from_cache s.is_cache) c.main_address s.chain_address c.length) s

  -- processInstruction, by the opcode of its command.
  unfoldable pub process_as : Opcode → Command → Progress → M (Bool × Progress)
  process_as flush_commit c s =
      both (command Opcode.erase c.main_address 0 0) (command copy_cn 0 c.main_address c.length) s
  process_as load_flush c s =
      both (command copy_nc c.main_address 0 block_size) (command Opcode.erase c.main_address 0 0) s
  process_as commit c s = process_basic copy_cn (command copy_cn 0 c.main_address block_size) s
  process_as chained_copy_c c s = chained true c s
  process_as chained_copy_n c s = chained false c s
  process_as op c s = process_basic op c s

  -- processInstruction
  unfoldable pub process_instruction : Command → Progress → M (Bool × Progress)
  process_instruction c s = process_as c.command c s

  -- What the loop does with a decoded instruction, given what it does for the next one.
  unfoldable pub command_round :
      (next : Context → Progress → ℕ → M (Bool × ℕ × Progress))
      → Progress
      → Option ((Bool × Context × Command) × ℕ)
      → M (Bool × ℕ × Progress)
  command_round next s none = fails assertion
  command_round next s (some ((good, ctx, c), off)) =
      if good && not (is_end c.command)
      then (do
        (done, s') ← process_instruction c s
        if done then next ctx s' off else pure (false, off, s'))
      else pure (true, off, s)

  -- The loop of runCommands: it ends at the end of the stream, at an instruction that does not
  -- decode, or, with the result false, at one that is not processed. The bytecode is read from the
  -- flash at `base`.
  unfoldable pub command_loop :
      (fuel : ℕ) (base length : ℕ) → Context → Progress → ℕ → M (Bool × ℕ × Progress)
  command_loop zero base length ctx s off d = fails out_of_fuel d
  command_loop (suc fuel) base length ctx s off d =
      command_round (command_loop fuel base length) s
        (decode_instruction (shift d.nand base) length ctx off) d

  -- runCommands: its result, the offset and the trace that it leaves. `chain` is the uninitialised
  -- ChainAddress. Every instruction has four bits at least, and none is decoded past bit
  -- 256 * length, so that the fuel is enough.
  unfoldable pub run_commands :
      (base off length : ℕ) (trace : Option ℕ) (old_counter : ℕ) (dry_run : Bool)
      → (chain : Bool × ℕ) → M (Bool × ℕ × Option ℕ)
  run_commands base off length trace old_counter dry_run chain = do
    let fast = not dry_run && not (old_counter == 0)
    (if fast then restore_cache p old_counter else skip)
    (result, off', s) ←
        command_loop (64 * length + 1) base length start_context
          (record {
            is_cache = chain.0;
            chain_address = chain.1;
            step_count = trace;
            fast_forward = if dry_run then none else some fast;
          })
          off
    pure (result, (if result then byte_offset off' else off'), s.step_count)
