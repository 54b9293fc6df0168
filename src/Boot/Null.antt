-- ===== src/Boot/Null.antt =====
-- An update that begins with a copy. The dry run of bootloaderPerformUpdate passes a counter, but NULL
-- for the flag of fast forwarding.
use ravens.Base.{ℕ, suc, ◌+◌, ◌*◌, ◌≡◌, refl, Bool, true, false, none, some, arith}
use ravens.Base.Memory.{shift}
use ravens.Boot.{try_update}
use ravens.Bytecode.{Progress, start_context, is_end, command_round, command_loop, run_commands}
use ravens.Bytecode.Dry.{CopiesFirst, process_instruction_null}
use ravens.Counter.{get_current_counter}
use ravens.Critical.{page_update_in_progress, start_update}
use ravens.Decoder.{
  Opcode, Context, Command, commit, load_flush, copy_nn, copy_nc, copy_cn, copy_cc, chained_copy_n,
  chained_copy_c, decode_instruction,
}
use ravens.Device.{Device, ok, fault, null_pointer, read_le}
use ravens.Metadata.{header_size, header_manifest_length}
use ravens.Platform.{Platform}

CopiesFirst-goes_on : (op : Opcode) → CopiesFirst op → is_end op ≡ false
CopiesFirst-goes_on copy_nn h = refl
CopiesFirst-goes_on copy_nc h = refl
CopiesFirst-goes_on copy_cn h = refl
CopiesFirst-goes_on copy_cc h = refl
CopiesFirst-goes_on commit h = refl
CopiesFirst-goes_on load_flush h = refl
CopiesFirst-goes_on chained_copy_n h = refl
CopiesFirst-goes_on chained_copy_c h = refl
CopiesFirst-goes_on _ h = absurd h

-- A first instruction whose first operation is a copy.
abbrev pub BeginsWithCopy : (d : Device) → (base length : ℕ) → Type 0
BeginsWithCopy d base length =
    (ctx : Context) × (c : Command) × (off : ℕ) × (decode_instruction (shift d.nand base) length
        start_context 0
      ≡ some ((true, ctx, c), off))
    × CopiesFirst c.command

run_commands_null :
    (p : Platform) (base length old_counter : ℕ) (chain : Bool × ℕ) (d : Device)
    → BeginsWithCopy d base length
    → run_commands p base 0 length (some 0) old_counter true chain d ≡ fault null_pointer
unfolding run_commands command_loop command_round
run_commands_null p base length old_counter chain d (ctx, c, off, decoded, copies) =
    rw
      (
        fuelled,
        command_loop,
        decoded,
        CopiesFirst-goes_on c.command copies,
        process_instruction_null p c at d 0 copies refl refl,
      )
      refl
  where
    fuelled : 64 * length + 1 ≡ suc (64 * length)
    fuelled = omega arith

    at : Progress
    at = record {
      is_cache = chain.0;
      chain_address = chain.1;
      step_count = some 0;
      fast_forward = none;
    }

started :
    (p : Platform) (d : Device)
    → page_update_in_progress (shift d.nand p.critical_metadata) ≡ 0
    → start_update p d ≡ ok true d
unfolding start_update
started p d going = rw going refl

-- On a device whose update is in progress and whose counter can be read, bootloaderPerformUpdate reads
-- through the NULL pointer in its first dry run, once the update is authenticated, if the first
-- instruction of the bytecode is a COPY, a CHAINED_COPY, a COMMIT or a LOAD_AND_FLUSH.
pub try_update_null :
    (p : Platform) (fuel header n : ℕ) (chain chain' : Bool × ℕ) (d : Device)
    → page_update_in_progress (shift d.nand p.critical_metadata) ≡ 0
    → get_current_counter p d ≡ ok n d
    → BeginsWithCopy d (header + header_size) (read_le d.nand (header + header_manifest_length) 4)
    → try_update p fuel header chain chain' d ≡ fault null_pointer
unfolding try_update
try_update_null p fuel header n chain chain' d going counted copies =
    rw
      (
        started p d going,
        counted,
        run_commands_null p (header + header_size)
            (read_le d.nand (header + header_manifest_length) 4) n chain d copies,
      )
      refl
