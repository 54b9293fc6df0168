-- ===== src/Bytecode/Dry.antt =====
-- Dry runs with a counter, which is what the bootloader passes.
use ravens.Base.{ℕ, ◌≡◌, refl, Bool, true, false, none, some}
use ravens.Bytecode.{
  Progress, command, copy_step, chained_opcode, process_basic, process_as, process_instruction,
}
use ravens.Decoder.{
  Opcode, load_flush, commit, copy_nn, copy_nc, copy_cn, copy_cc, chained_copy_n, chained_copy_c,
  Command,
}
use ravens.Device.{Device, fault, null_pointer}
use ravens.Platform.{Platform}

-- The instructions whose first operation is a copy. FLUSH_COMMIT, which also copies, erases first.
abbrev pub CopiesFirst : Opcode → Type 0
CopiesFirst copy_nn = Unit
CopiesFirst copy_nc = Unit
CopiesFirst copy_cn = Unit
CopiesFirst copy_cc = Unit
CopiesFirst commit = Unit
CopiesFirst load_flush = Unit
CopiesFirst chained_copy_n = Unit
CopiesFirst chained_copy_c = Unit
CopiesFirst _ = ⊥

-- With a counter and a NULL `fastForward`, processInstruction reads through the NULL pointer at each
-- of these instructions.
pub process_instruction_null :
    (p : Platform) (c : Command) (s : Progress) (d : Device) (n : ℕ)
    → CopiesFirst c.command
    → s.step_count ≡ some n
    → s.fast_forward ≡ none
    → process_instruction p c s d ≡ fault null_pointer
unfolding process_instruction
process_instruction_null p c s d n copies counted null =
    let e : s ≡ record s { step_count = some n; fast_forward = none } =
      λ i. record s { step_count = counted i; fast_forward = null i } in
    rw e (by_opcode c.command copies)
  where
    at : Progress
    at = record s { step_count = some n; fast_forward = none }

    by_chain :
        (from_cache to_cache : Bool)
        → process_basic p
            (chained_opcode from_cache to_cache)
            (command (chained_opcode from_cache to_cache) c.main_address s.chain_address c.length)
            at
            d
          ≡ fault null_pointer
    by_chain true true = unfold process_basic copy_step in refl
    by_chain true false = unfold process_basic copy_step in refl
    by_chain false true = unfold process_basic copy_step in refl
    by_chain false false = unfold process_basic copy_step in refl

    by_opcode : (op : Opcode) → CopiesFirst op → process_as p op c at d ≡ fault null_pointer
    by_opcode chained_copy_n h = unfold process_as in by_chain false s.is_cache
    by_opcode chained_copy_c h = unfold process_as in by_chain true s.is_cache
    by_opcode copy_nn h = unfold process_as process_basic copy_step in refl
    by_opcode copy_nc h = unfold process_as process_basic copy_step in refl
    by_opcode copy_cn h = unfold process_as process_basic copy_step in refl
    by_opcode copy_cc h = unfold process_as process_basic copy_step in refl
    by_opcode commit h = unfold process_as process_basic copy_step in refl
    by_opcode load_flush h = unfold process_as process_basic copy_step in refl
    by_opcode _ h = absurd h
