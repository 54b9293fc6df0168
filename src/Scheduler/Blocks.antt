-- ===== src/Scheduler/Blocks.antt =====
-- addUseBlocks, normalizeRebase and generateInstructions of hugin/Scheduler.
pub mod Sections
pub mod Unbracketed
pub mod Starts
pub mod Runs
use ravens.Base.{
  ℕ, zero, suc, ◌+◌, ◌-◌, ◌*◌, ◌%◌, ◌^◌, Bool, true, false, not, ◌&&◌, ◌||◌, Option, none, some,
  List, [], ◌∷◌, ◌++◌, map, ◌==◌, leb, length, if◌then◌else◌,
}
use ravens.Base.Maybe.{◌>>=◌, ◌>>◌}
use ravens.Encoder.{Instr, PublicCommand, cache_address, number_of_bits_necessary}
use ravens.Scheduler.{Command, ◌is◌, create_chains, get_public_command}

-- BLOCK_USE_THRESHOLD
abbrev pub block_use_threshold : ℕ
block_use_threshold = 3

-- The locals of addUseBlocks; `pending` holds the commands from `startChain` to the iterator.
pub record Section : Type 0 where
  pub new_commands : List Command
  pub pending : List Command
  pub instruction_ignore : ℕ
  pub has_block_chain : Bool
  pub had_block : Bool
  pub is_start : Bool
  pub block_chain : ℕ

-- `Command(command, block)`, for USE_BLOCK and RELEASE_BLOCK.
abbrev pub block_command : Instr → (block : ℕ) → Command
block_command i block = record {
  command = i;
  main_block = block;
  main_block_offset = 0;
  length = 0;
  secondary_block = 0;
  secondary_offset = 0;
  transaction_id = 0;
}

-- commitUseBlockSection
unfoldable pub commit_use_block_section : Section → Section
commit_use_block_section s =
    if leb (block_use_threshold + s.instruction_ignore) (length s.pending)
    then record s {
      new_commands = s.new_commands ++ (block_command Instr.use_block s.block_chain ∷ s.pending);
      pending = [];
      had_block = true;
    }
    else if s.had_block
    then record s {
      new_commands = s.new_commands ++ (block_command Instr.release_block 0 ∷ s.pending);
      pending = [];
      had_block = false;
    }
    else record s { new_commands = s.new_commands ++ s.pending; pending = [] }

-- `currentBlock`
abbrev pub current_block : Command → ℕ
current_block c =
    if c is Instr.copy && c.main_block == cache_address then c.secondary_block else c.main_block

-- The section ends in front of a command on another block.
unfoldable pub end_section : (block : ℕ) → Section → Section
end_section block s =
    if s.has_block_chain && not (block == s.block_chain)
    then (if block == cache_address
        then record s { instruction_ignore = s.instruction_ignore + 1 }
        else record (commit_use_block_section s) { has_block_chain = false })
    else s

-- A new section begins with the command.
unfoldable pub start_section : (block : ℕ) → Section → Section
start_section block s =
    if not s.has_block_chain && not (block == cache_address)
    then record s {
      pending = [];
      is_start = false;
      has_block_chain = true;
      block_chain = block;
      instruction_ignore = 0;
    }
    else s

abbrev pub ignore : Section → Section
ignore s =
    if s.has_block_chain then record s { instruction_ignore = s.instruction_ignore + 1 } else s

-- The switch of addUseBlocks.
unfoldable pub sort_command : Instr → Command → Section → Section
sort_command Instr.rebase c s =
    ignore (if s.is_start then record s { new_commands = s.new_commands ++ (c ∷ []) } else s)
sort_command Instr.chained_copy_skip c s = ignore s
sort_command Instr.end_of_stream c s = s
sort_command Instr.use_block c s = s
sort_command Instr.release_block c s = s
sort_command _ c s = start_section (current_block c) (end_section (current_block c) s)

-- `++iter`: the command belongs to the section, if there is one.
abbrev pub extend_section : Command → Section → Section
extend_section c s = if s.has_block_chain then record s { pending = s.pending ++ (c ∷ []) } else s

unfoldable pub use_block_loop : List Command → Section → Section
use_block_loop [] s = s
use_block_loop (c ∷ rest) s = use_block_loop rest (extend_section c (sort_command c.command c s))

abbrev pub start_sections : Section
start_sections = record {
  new_commands = [];
  pending = [];
  instruction_ignore = 0;
  has_block_chain = false;
  had_block = false;
  is_start = true;
  block_chain = 0;
}

-- addUseBlocks
unfoldable pub add_use_blocks : List Command → List Command
add_use_blocks commands =
    let s = use_block_loop commands start_sections in
    if s.has_block_chain then (commit_use_block_section s).new_commands else s.new_commands

-- largestPossibleValue: the shift has 32 bits.
abbrev pub largest_possible_value : ℕ → ℕ
largest_possible_value bits = (2 ^ bits + 2 ^ 32 - 1) % 2 ^ 32

-- normalizeRebase
abbrev pub normalize_rebase : Command → Command
normalize_rebase c =
    if c is Instr.rebase
    then record c { length = largest_possible_value (number_of_bits_necessary c.length) }
    else c

-- generateInstructions
unfoldable pub generate_instructions : List Command → Option (List PublicCommand)
generate_instructions commands = do
  chains ← create_chains commands
  some (map get_public_command (map normalize_rebase (add_use_blocks chains)))
