-- ===== src/Scheduler.antt =====
-- Command and SchedulerData of hugin/Scheduler/scheduler.h, and hugin/Scheduler/Address.h: the
-- commands before they are encoded, whose `size_t` has 64 bits.
pub mod Chains
pub mod Insert
pub mod Rebase
pub mod Blocks
mod Examples
use ravens.Base.{
  ℕ, zero, suc, ◌+◌, ◌-◌, ◌*◌, ◌/◌, ◌%◌, ◌^◌, Bool, true, false, not, ◌&&◌, ◌||◌, Option, none,
  some, List, [], ◌∷◌, ◌==◌, leb, ltb, if◌then◌else◌,
}
use ravens.Base.Maybe.{◌>>=◌, ◌>>◌, check}
use ravens.Encoder.{Instr, PublicCommand, cache_address, word_mod}
use ravens.Encoder.Stream.{instr_number}
use ravens.Flash.{block_size}
use ravens.VirtualMachine.{plus, max_skip_length}

-- `address & BLOCK_MASK`: the mask has 32 bits.
abbrev pub block_of : ℕ → ℕ
block_of address = address % 2 ^ 32 / block_size * block_size

-- `address & BLOCK_OFFSET_MASK`
abbrev pub offset_of : ℕ → ℕ
offset_of address = address % block_size

-- Address(block, offset)
abbrev pub address : (block offset : ℕ) → ℕ
address block offset = plus block (offset % block_size)

pub record Command : Type 0 where
  pub command : Instr
  pub main_block : ℕ
  pub main_block_offset : ℕ
  pub length : ℕ
  pub secondary_block : ℕ
  pub secondary_offset : ℕ
  pub transaction_id : ℕ

infix 50 ◌is◌
abbrev pub ◌is◌ : Command → Instr → Bool
c is i = instr_number c.command == instr_number i

abbrev pub is_load : Command → Bool
is_load c =
    c is Instr.copy
    && c.length == block_size
    && c.main_block_offset == 0
    && c.secondary_offset == 0
    && not (c.main_block == cache_address)
    && c.secondary_block == cache_address

abbrev pub is_commit_like : Command → Bool
is_commit_like c = c is Instr.commit || c is Instr.flush_and_partial_commit

abbrev pub is_erase_like : (no_write_back : Bool) → Command → Bool
is_erase_like no_write_back c =
    c is Instr.erase
    || c is Instr.load_and_flush
    || (not no_write_back && c is Instr.flush_and_partial_commit)

-- getPublicCommand
abbrev pub get_public_command : Command → PublicCommand
get_public_command c = record {
  command = c.command;
  main_address = address c.main_block c.main_block_offset;
  secondary_address = address c.secondary_block c.secondary_offset;
  length = c.length;
}

-- performTrivialOptimization
unfoldable pub perform_trivial_optimization : Command → Command
perform_trivial_optimization c =
    if c is Instr.copy
      && c.length == block_size
      && c.main_block_offset == 0
      && c.secondary_offset == 0
      && not (c.secondary_block == cache_address)
      && c.main_block == cache_address
    then record c {
      command = Instr.commit;
      main_block = c.secondary_block;
      secondary_block = 0;
      length = 0;
    }
    else c

-- `to - from <= MAX_SKIP_LENGTH`, where the difference wraps around.
abbrev pub near : (to from : ℕ) → Bool
near to from = leb ((to + word_mod - from) % word_mod) max_skip_length

-- couldConvertToChainCopyWithPrevious
unfoldable pub could_convert : (command prev : Command) (end_previous_copy : ℕ) → Bool
could_convert c prev end =
    let previous_end = plus prev.secondary_offset prev.length in
    if not (c is Instr.copy)
    then false
    else if prev is Instr.copy && c.secondary_block == prev.secondary_block
    then not (ltb c.secondary_offset previous_end) && near c.secondary_offset previous_end
    else if prev is Instr.chained_copy && block_of end == c.secondary_block
    then not (ltb c.secondary_offset (offset_of end)) && near c.secondary_offset (offset_of end)
    else prev is Instr.flush_and_partial_commit
      && prev.main_block == c.secondary_block
      && near c.secondary_offset prev.length

-- The same of `newCommands.back()`: with no command yet, it is only left unread where this is no copy.
unfoldable pub could_chain : (command : Command) (back : Option Command) (end : ℕ) → Option Bool
could_chain c none end = if c is Instr.copy then none else some false
could_chain c (some prev) end = some (could_convert c prev end)

-- The skip that createChains adds: its constructor sets all the other fields to 0.
abbrev pub skip_command : (delta : ℕ) → Command
skip_command delta = record {
  command = Instr.chained_copy_skip;
  main_block = 0;
  main_block_offset = 0;
  length = delta;
  secondary_block = 0;
  secondary_offset = 0;
  transaction_id = 0;
}

-- A copy as a chained one.
abbrev pub as_chained : Command → Command
as_chained c = record c { command = Instr.chained_copy; secondary_block = 0; secondary_offset = 0 }

-- `delta`, as a `size_t`.
abbrev pub delta_of : Command → (end : ℕ) → ℕ
delta_of c end = (c.secondary_offset + word_mod - offset_of end) % word_mod

-- endPreviousCopy behind a command that is not converted.
unfoldable pub end_of : Command → (end : ℕ) → ℕ
end_of c end =
    if c is Instr.copy
    then address c.secondary_block (plus c.secondary_offset c.length)
    else if c is Instr.flush_and_partial_commit
    then address c.main_block c.length
    else end

-- The loop of createChains, with the last of the new commands; the difference is signed in the
-- assertion. `none` is a failed assertion or a read in front of the new commands.
unfoldable pub chain_loop : (back : Option Command) (end : ℕ) → List Command → Option (List Command)
chain_loop back end [] = some []
chain_loop back end (c ∷ rest) = do
  converts ← could_chain c back end
  let delta = delta_of c end
  elim converts [
    | false ↦ do later ← chain_loop (some c) (end_of c end) rest; some (c ∷ later)
    | true ↦ do
      check (delta == 0 || leb delta max_skip_length || leb (2 ^ 63) delta)
      later ← chain_loop (some (as_chained c)) (plus (plus end delta) c.length) rest
      some
          (if delta == 0 then as_chained c ∷ later else (skip_command delta ∷ as_chained c ∷ later))
  ]

-- createChains
unfoldable pub create_chains : List Command → Option (List Command)
create_chains commands = chain_loop none 0 commands
