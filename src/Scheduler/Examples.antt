-- ===== src/Scheduler/Examples.antt =====
-- The commands of a small patch, chained, bracketed and encoded.
use ravens.Base.{
  ℕ, ◌+◌, ◌%◌, ◌<◌, ◌≡◌, refl, Bool, false, Option, none, some, List, [], ◌∷◌, map, arith,
}
use ravens.Base.Memory.{Bytes, blit, fill}
use ravens.Encoder.{Instr, PublicCommand, number_of_bits_necessary, bits_necessary}
use ravens.Scheduler.{
  Command, ◌is◌, as_chained, skip_command, create_chains, chain_loop, could_chain, could_convert,
  end_of, get_public_command,
}
use ravens.Scheduler.Blocks.{
  add_use_blocks, use_block_loop, sort_command, start_section, end_section,
  commit_use_block_section, block_command, generate_instructions,
}
use ravens.Scheduler.Blocks.Sections.{unbracketed}
use ravens.Scheduler.Blocks.Unbracketed.{starts_on_block, add_use_blocks-unbracketed}
use ravens.Scheduler.Blocks.Runs.{generate_instructions-runs}
use ravens.Scheduler.Chains.{WellFormed, AllWellFormed, create_chains-explicit}
use ravens.Scheduler.Chains.Returns.{create_chains-returns}
use ravens.VirtualMachine.{
  virtual_machine, run, step_as, perform_copy, copy_bytes, fits, is_cache, check_aligned, may_skip,
  write_flash,
}
use ravens.VirtualMachine.Explicit.{explicit}

abbrev flash : Bytes
flash a = a % 256

abbrev command : Instr → (main offset length secondary secondary_offset : ℕ) → Command
command i main offset length secondary secondary_offset = record {
  command = i;
  main_block = main;
  main_block_offset = offset;
  length = length;
  secondary_block = secondary;
  secondary_offset = secondary_offset;
  transaction_id = 0;
}

abbrev base : Command
base = command Instr.rebase 0 0 3 0 0

abbrev erase : Command
erase = command Instr.erase 0 0 0 0 0

abbrev first : Command
first = command Instr.copy 0x1000 0 2 0 0

abbrev second : Command
second = command Instr.copy 0x1000 7 1 0 5

abbrev third : Command
third = command Instr.copy 0x1000 9 1 0 6

abbrev commands : List Command
commands = base ∷ erase ∷ first ∷ second ∷ third ∷ []

-- A skip of three bytes between the first two copies; the last ones are next to each other.
abbrev chains : List Command
chains = base ∷ erase ∷ first ∷ skip_command 3 ∷ as_chained second ∷ as_chained third ∷ []

create_chains_demo : create_chains commands ≡ some chains
unfolding create_chains chain_loop could_chain could_convert end_of
create_chains_demo = refl

-- Four commands on the same block, one of them a skip.
abbrev bracketed : List Command
bracketed =
    base
    ∷ erase
    ∷ block_command Instr.use_block 0x1000
    ∷ first
    ∷ skip_command 3
    ∷ as_chained second
    ∷ as_chained third
    ∷ []

add_use_blocks_demo : add_use_blocks chains ≡ bracketed
unfolding add_use_blocks use_block_loop sort_command start_section end_section
    commit_use_block_section
add_use_blocks_demo = refl

copy_WellFormed :
    (main offset length so : ℕ)
    → main % 4096 ≡ 0
    → main < 0x10_0000
    → so + length < 4096
    → WellFormed (command Instr.copy main offset length 0 so)
copy_WellFormed main offset length so aligned low fits = record {
  not_chained = refl;
  not_skip = refl;
  main_IsBlock = omega arith;
  secondary_IsBlock = omega arith;
  offset_small = omega arith;
  copy_fits = λ _. omega arith;
  flush_fits = λ flush. absurd cc;
  flush_start = λ flush. absurd cc;
}

other_WellFormed :
    (i : Instr) (length : ℕ)
    → command i 0 0 length 0 0 is Instr.chained_copy ≡ false
    → command i 0 0 length 0 0 is Instr.chained_copy_skip ≡ false
    → command i 0 0 length 0 0 is Instr.copy ≡ false
    → command i 0 0 length 0 0 is Instr.flush_and_partial_commit ≡ false
    → WellFormed (command i 0 0 length 0 0)
other_WellFormed i length not_chained not_skip not_copy not_flush = record {
  not_chained = not_chained;
  not_skip = not_skip;
  main_IsBlock = omega arith;
  secondary_IsBlock = omega arith;
  offset_small = omega arith;
  copy_fits = λ copies. absurd cc;
  flush_fits = λ flush. absurd cc;
  flush_start = λ flush. refl;
}

commands-AllWellFormed : AllWellFormed commands
commands-AllWellFormed = (
  other_WellFormed Instr.rebase 3 refl refl refl refl,
  (
    other_WellFormed Instr.erase 0 refl refl refl refl,
    (
      copy_WellFormed 0x1000 0 2 0 (omega arith) (omega arith) (omega arith),
      (
        copy_WellFormed 0x1000 7 1 5 (omega arith) (omega arith) (omega arith),
        (copy_WellFormed 0x1000 9 1 6 (omega arith) (omega arith) (omega arith), tt),
      ),
    ),
  ),
)

create_chains-explicit_example :
    explicit 0 (map get_public_command chains) ≡ map get_public_command commands
create_chains-explicit_example =
    create_chains-explicit commands chains commands-AllWellFormed create_chains_demo

create_chains-returns_example : (made : List Command) × (create_chains commands ≡ some made)
create_chains-returns_example =
    create_chains-returns base (erase ∷ first ∷ second ∷ third ∷ []) commands-AllWellFormed refl

add_use_blocks-unbracketed_example : unbracketed (add_use_blocks chains) ≡ unbracketed chains
unfolding starts_on_block
add_use_blocks-unbracketed_example = add_use_blocks-unbracketed chains refl

abbrev out : List PublicCommand
out = map get_public_command (
    base
    ∷ erase
    ∷ block_command Instr.use_block 0x1000
    ∷ first
    ∷ skip_command 3
    ∷ as_chained second
    ∷ as_chained third
    ∷ [])

generate_instructions_demo : generate_instructions commands ≡ some out
unfolding generate_instructions create_chains chain_loop could_chain could_convert end_of
    add_use_blocks use_block_loop sort_command start_section end_section commit_use_block_section
    number_of_bits_necessary bits_necessary
generate_instructions_demo = refl

abbrev end_of_run : Option (Bool × Bytes) → Bool × Bytes
end_of_run none = (false, flash)
end_of_run (some end) = end

out_runs : virtual_machine out flash 0x2000 ≡ some (end_of_run (virtual_machine out flash 0x2000))
unfolding virtual_machine run step_as perform_copy copy_bytes fits is_cache check_aligned may_skip
    write_flash blit fill
out_runs = refl

generate_instructions-runs_example :
    virtual_machine (map get_public_command commands) flash 0x2000
    ≡ some (end_of_run (virtual_machine out flash 0x2000))
unfolding starts_on_block
generate_instructions-runs_example =
    generate_instructions-runs commands out flash 0x2000 _ commands-AllWellFormed refl
      generate_instructions_demo out_runs
