-- ===== src/Scheduler/Insert/Examples.antt =====
-- insertCommand on a few commands.
use ravens.Base.{ℕ, ◌%◌, ◌≡◌, refl, true, false, Option, none, some, List, [], ◌∷◌, arith}
use ravens.Base.Memory.{Bytes, blit}
use ravens.Base.Maybe.{◌>>=◌}
use ravens.Encoder.{Instr, cache_address}
use ravens.Scheduler.{Command, ◌is◌, get_public_command, perform_trivial_optimization}
use ravens.Scheduler.Insert.{
  SchedulerData, edit_of, edit_same_block, edit_from_cache, perform_edit, insert_optimized,
  insert_depth, insert_command,
}
use ravens.Scheduler.Insert.Depth.{insert_command-Returns}
use ravens.Scheduler.Insert.Keeps.{edit_of-Shadows}
use ravens.Scheduler.Insert.Rules.{Insertable}
use ravens.VirtualMachine.{
  Vm, start, step, step_as, check_aligned, perform_copy, copy_bytes, fits, is_cache,
}
use ravens.VirtualMachine.Explicit.{Shadows}

abbrev command : Instr → (main length : ℕ) → Command
command i main length = record {
  command = i;
  main_block = main;
  main_block_offset = 0;
  length = length;
  secondary_block = 0;
  secondary_offset = 0;
  transaction_id = 0;
}

-- No transaction is in progress.
abbrev with : List Command → SchedulerData
with commands = record {
  current_transaction = 0;
  transaction_in_progress = false;
  commands = commands;
}

-- A block that was committed and is then erased is neither.
dropped_erase :
    insert_command (command Instr.erase 0x1000 0) (with (command Instr.commit 0x1000 0 ∷ []))
    ≡ some (with [])
unfolding insert_command insert_depth insert_optimized perform_edit edit_of edit_same_block
    perform_trivial_optimization
dropped_erase = refl

-- A block that was committed is not erased when it is loaded.
dropped_load :
    insert_command
      (command Instr.load_and_flush 0x1000 0)
      (with (command Instr.commit 0x1000 0 ∷ []))
    ≡ some (with (command Instr.commit 0x1000 0 ∷ []))
unfolding insert_command insert_depth insert_optimized perform_edit edit_of edit_same_block
    perform_trivial_optimization
dropped_load = refl

-- With a base behind the commit, the base is removed and the commit stays.
dropped_base :
    insert_command
      (command Instr.erase 0x1000 0)
      (with (command Instr.rebase 0 0 ∷ command Instr.commit 0x1000 0 ∷ []))
    ≡ some (with (command Instr.commit 0x1000 0 ∷ []))
unfolding insert_command insert_depth insert_optimized perform_edit edit_of edit_same_block
    perform_trivial_optimization
dropped_base = refl

-- Half of a copy from the cache to a block, and the other half: a commit, on an erased block.
abbrev half : (offset : ℕ) → Command
half offset = record (command Instr.copy 0xffff_e000 0x800) {
  main_block_offset = offset;
  secondary_block = 0x1000;
  secondary_offset = offset;
}

merged :
    insert_command (half 0x800) (record (with (half 0 ∷ command Instr.erase 0x1000 0 ∷ [])) {
      transaction_in_progress = true;
    })
    ≡ some (record (with (command Instr.flush_and_partial_commit 0x1000 4096 ∷ [])) {
      transaction_in_progress = true;
    })
unfolding insert_command insert_depth insert_optimized perform_edit edit_of edit_same_block
    edit_from_cache perform_trivial_optimization
merged = refl

insert_command-Returns_example :
    (s : SchedulerData) × (insert_command
        (half 0x800)
        (with (half 0 ∷ command Instr.erase 0x1000 0 ∷ []))
      ≡ some s)
insert_command-Returns_example =
    insert_command-Returns (half 0x800) (with (half 0 ∷ command Instr.erase 0x1000 0 ∷ []))
      (λ prev before. refl)

block-Insertable :
    (i : Instr)
    → command i 0x1000 0 is Instr.chained_copy ≡ false
    → command i 0x1000 0 is Instr.chained_copy_skip ≡ false
    → Insertable (command i 0x1000 0)
block-Insertable i not_chained not_skip = record {
  well_formed = record {
    not_chained = not_chained;
    not_skip = not_skip;
    main_IsBlock = omega arith;
    secondary_IsBlock = omega arith;
    offset_small = omega arith;
    copy_fits = λ _. omega arith;
    flush_fits = λ _. omega arith;
    flush_start = λ _. refl;
  };
  block_start = λ _. refl;
}

abbrev flash : Bytes
flash a = a % 256

abbrev end_of_step : Option Vm → Vm
end_of_step none = start flash
end_of_step (some vm) = vm

abbrev erase : Command
erase = command Instr.erase 0x1000 0

abbrev commit : Command
commit = command Instr.commit 0x1000 0

abbrev middle : Vm
middle = end_of_step (step 0x2000 (get_public_command erase) (start flash))

abbrev after : Vm
after = end_of_step (step 0x2000 (get_public_command commit) middle)

edit_of-Shadows_example :
    Shadows
      (step 0x2000
        (get_public_command (command Instr.flush_and_partial_commit 0x1000 4096))
        (start flash))
      after
unfolding edit_of edit_same_block step_as check_aligned
edit_of-Shadows_example =
    edit_of-Shadows false erase commit _ 0x2000 (start flash) middle after (omega arith)
      (block-Insertable Instr.erase refl refl) (block-Insertable Instr.commit refl refl) refl refl
      refl

-- Two copies of a byte within the cache, of which the second reads what the first wrote.
abbrev first_byte : Command
first_byte = record (command Instr.copy cache_address 1) {
  secondary_block = cache_address;
  secondary_offset = 1;
}

abbrev second_byte : Command
second_byte = record first_byte { main_block_offset = 1; secondary_offset = 2 }

-- The two are extended to one copy, which does not read what it wrote.
extended :
    insert_command second_byte (record (with (first_byte ∷ [])) { transaction_in_progress = true })
    ≡ some
        (record (with (record first_byte { length = 2 } ∷ [])) { transaction_in_progress = true })
unfolding insert_command insert_depth insert_optimized perform_edit edit_of edit_same_block
    perform_trivial_optimization
extended = refl

abbrev numbered : Vm
numbered = record (start (λ _. 0xff)) { cache = λ i. i }

last_byte : Option Vm → Option ℕ
last_byte none = none
last_byte (some vm) = some (vm.cache 2)

one_by_one :
    last_byte (do
      middle ← step 0x2000 (get_public_command first_byte) numbered
      step 0x2000 (get_public_command second_byte) middle)
    ≡ some 0
unfolding last_byte step_as perform_copy copy_bytes fits is_cache blit
one_by_one = refl

at_once :
    last_byte (step 0x2000 (get_public_command (record first_byte { length = 2 })) numbered)
    ≡ some 1
unfolding last_byte step_as perform_copy copy_bytes fits is_cache blit
at_once = refl
