-- ===== src/VirtualMachine/Examples.antt =====
-- virtualMachine on two small programs and executeBSDiffPatch on a small patch.
use ravens.Base.{
  ℕ, ◌%◌, ◌≡◌, refl, inr, Bool, true, false, Option, none, some, List, [], ◌∷◌, arith,
}
use ravens.Base.Memory.{Bytes, blit, fill, shift, of_list}
use ravens.Encoder.{Instr, PublicCommand}
use ravens.VirtualMachine.{
  Vm, Pointer, write_flash, at_pointer, virtual_machine, run, start, step_as, perform_copy,
  copy_bytes, fits, is_cache, check_aligned, may_skip, is_flash_length,
}
use ravens.VirtualMachine.Chains.{well_chained, virtual_machine-well_chained}
use ravens.VirtualMachine.Explicit.{explicit}
use ravens.VirtualMachine.Explicit.Runs.{virtual_machine-explicit}
use ravens.VirtualMachine.Frame.{AllShort, virtual_machine-outside}
use ravens.VirtualMachine.Patch.{
  SchedulerPatch, execute_bsdiff_patch, execute_bsdiff_patch-new_bytes, new_bytes, summed,
}
use ravens.VirtualMachine.Swap.{swaps, all_swapped, AllBlocks, virtual_machine-swaps}
use ravens.VirtualMachine.Write.{all_erased, write_flash-blit}

abbrev flash : Bytes
flash a = a % 256

abbrev size : ℕ
size = 0x3000

abbrev command : Instr → (main secondary length : ℕ) → PublicCommand
command i main secondary length = record {
  command = i;
  main_address = main;
  secondary_address = secondary;
  length = length;
}

-- A block erased, a copy to it, a skip and a chained copy.
abbrev demo : List PublicCommand
demo =
    command Instr.erase 0 0 0
    ∷ command Instr.copy 0x1000 0 2
    ∷ command Instr.chained_copy_skip 0 0 3
    ∷ command Instr.chained_copy 0x1007 0 1
    ∷ []

-- The same as two copies.
explicit-demo :
    explicit 0 demo
    ≡ command Instr.erase 0 0 0 ∷ command Instr.copy 0x1000 0 2 ∷ command Instr.copy 0x1007 5 1 ∷ []
unfolding explicit
explicit-demo = refl

abbrev result_of : Option (Bool × Bytes) → Bool × Bytes
result_of none = (false, flash)
result_of (some end) = end

abbrev demo_end : Bool × Bytes
demo_end = result_of (virtual_machine demo flash size)

demo_runs : virtual_machine demo flash size ≡ some demo_end
unfolding virtual_machine run step_as perform_copy copy_bytes fits is_cache check_aligned may_skip
    write_flash blit fill
demo_runs = refl

demo-true : virtual_machine demo flash size ≡ some (true, demo_end.1)
unfolding virtual_machine run step_as perform_copy copy_bytes fits is_cache check_aligned may_skip
    write_flash blit fill
demo-true = refl

demo_byte : demo_end.1 5 ≡ 7
unfolding virtual_machine run step_as perform_copy copy_bytes fits is_cache check_aligned may_skip
    write_flash blit fill
demo_byte = refl

-- A copy to programmed bytes is a failed assertion.
programmed : virtual_machine (command Instr.copy 0x1001 0 2 ∷ []) flash size ≡ none
unfolding virtual_machine run step_as perform_copy copy_bytes fits is_cache write_flash
programmed = refl

demo-AllShort : AllShort demo
demo-AllShort = omega arith

explicit_runs : virtual_machine (explicit 0 demo) flash size ≡ some demo_end
explicit_runs = virtual_machine-explicit demo flash size demo_end demo_runs

virtual_machine-outside_example : demo_end.1 0x3000 ≡ flash 0x3000
virtual_machine-outside_example =
    virtual_machine-outside demo flash size demo_end 0x3000 demo-AllShort (omega arith) demo_runs
      (omega arith)

virtual_machine-well_chained_example :
    (is_flash_length size ≡ true) × (well_chained false demo ≡ true)
virtual_machine-well_chained_example =
    virtual_machine-well_chained demo flash demo_end.1 size demo-true

-- Two exchanges that take three blocks around in a circle.
abbrev circle : List (ℕ × ℕ)
circle = (0x1000, 0x2000) ∷ (0x2000, 0) ∷ []

circle-AllBlocks : AllBlocks size circle
circle-AllBlocks = (
  record {
    first_whole = refl;
    second_whole = refl;
    first_in = omega arith;
    second_in = omega arith;
    apart = omega arith;
  },
  (
    record {
      first_whole = refl;
      second_whole = refl;
      first_in = omega arith;
      second_in = omega arith;
      apart = omega arith;
    },
    tt,
  ),
)

virtual_machine-swaps_example :
    virtual_machine (swaps circle) flash size ≡ some (true, all_swapped flash circle)
virtual_machine-swaps_example =
    virtual_machine-swaps flash size circle (omega arith) refl circle-AllBlocks

abbrev half_erased : Vm
half_erased = start (of_list (1 ∷ 2 ∷ 3 ∷ []))

write_flash-blit_example :
    write_flash 4 (Pointer.in_flash 0) 3 half_erased
    ≡ some (record half_erased {
      flash = blit half_erased.flash 4 3 (at_pointer (Pointer.in_flash 0) half_erased);
    })
unfolding all_erased
write_flash-blit_example = write_flash-blit 3 4 (Pointer.in_flash 0) half_erased (inr (omega arith))

abbrev patch : SchedulerPatch
patch = record { start_address = 1; bsdiff = record { delta = 1 ∷ 255 ∷ []; extra = 9 ∷ [] } ∷ [] }

-- The second byte wraps around.
patch_demo : new_bytes patch.bsdiff (shift flash 0x1002) ≡ 3 ∷ 2 ∷ 9 ∷ []
unfolding new_bytes summed
patch_demo = refl

execute_bsdiff_patch-new_bytes_example :
    execute_bsdiff_patch patch flash size ≡ (true, blit flash 0x1000 3 (of_list (1 ∷ 0 ∷ 9 ∷ [])))
unfolding new_bytes summed
execute_bsdiff_patch-new_bytes_example =
    execute_bsdiff_patch-new_bytes patch flash size refl (omega arith) (omega arith)
