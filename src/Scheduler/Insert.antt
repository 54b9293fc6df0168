-- ===== src/Scheduler/Insert.antt =====
-- insertCommand of hugin/Scheduler/scheduler_codegen_optim.cpp.
pub mod Memory
pub mod Amend
pub mod Rules
pub mod Keeps
pub mod Depth
mod Examples
use ravens.Base.{
  ℕ, zero, suc, ◌+◌, Bool, true, false, not, ◌&&◌, ◌||◌, Option, none, some, List, [], ◌∷◌, ◌==◌,
  if◌then◌else◌,
}
use ravens.Base.Maybe.{◌>>=◌, ◌>>◌, check}
use ravens.Encoder.{Instr, cache_address}
use ravens.Flash.{block_size}
use ravens.Scheduler.{
  Command, ◌is◌, is_load, is_commit_like, is_erase_like, perform_trivial_optimization,
}
use ravens.VirtualMachine.{plus}

-- SchedulerData, with the last command in front.
pub record SchedulerData : Type 0 where
  pub current_transaction : ℕ
  pub transaction_in_progress : Bool
  pub commands : List Command

-- What insertCommand does: it adds the command, returns, removes the last command, changes the previous
-- one, or extends the previous copy.
pub data Edit : Type 0 where
  add keep remove : Edit
  amend extend : Command → Edit

-- The command writes behind where the previous copy wrote what is behind what it read.
abbrev pub continues : (prev c : Command) → Bool
continues prev c =
    prev is Instr.copy
    && c is Instr.copy
    && prev.secondary_block == c.secondary_block
    && plus prev.main_block_offset prev.length == c.main_block_offset
    && plus prev.secondary_offset prev.length == c.secondary_offset

-- The cases where both commands have the same main block.
unfoldable pub edit_same_block : (in_progress : Bool) → (prev c : Command) → Edit
edit_same_block in_progress prev c =
    if continues prev c
    then (if in_progress
        then extend
            (perform_trivial_optimization (record prev { length = plus prev.length c.length }))
        else add)
    else if is_load c && is_commit_like prev
    then keep
    else if c is Instr.erase && is_commit_like prev
    then (if prev is Instr.commit then remove else amend (record prev { command = Instr.erase }))
    else if c is Instr.erase && is_load prev
    then amend (record prev {
      command = Instr.load_and_flush;
      secondary_block = 0;
      secondary_offset = 0;
      length = 0;
    })
    else if c is Instr.commit && prev is Instr.erase
    then amend (record prev { command = Instr.flush_and_partial_commit; length = block_size })
    else if c is Instr.load_and_flush && is_commit_like prev
    then (if prev is Instr.flush_and_partial_commit && prev.length == block_size
        then amend (record prev { command = Instr.erase })
        else keep)
    else if c is Instr.commit && prev is Instr.load_and_flush
    then remove
    else if c is Instr.erase && prev is Instr.erase
    then keep
    else add

-- The cases where the command reads the cache.
unfoldable pub edit_from_cache : (prev c : Command) → Edit
edit_from_cache prev c =
    if prev is Instr.erase
      && c is Instr.copy
      && c.main_block_offset == 0
      && c.secondary_block == prev.main_block
      && c.secondary_offset == 0
    then amend (record prev { command = Instr.flush_and_partial_commit; length = c.length })
    else if c is Instr.copy
        && prev is Instr.flush_and_partial_commit
        && c.secondary_block == prev.main_block
        && c.main_block_offset == c.secondary_offset
        && c.main_block_offset == prev.length
    then amend (record prev { length = plus prev.length c.length })
    else add

unfoldable pub edit_of : (in_progress : Bool) → (prev c : Command) → Edit
edit_of in_progress prev c =
    if prev.main_block == c.main_block
    then edit_same_block in_progress prev c
    else if c.main_block == cache_address
    then edit_from_cache prev c
    else add

-- The `prev` of insertCommand, if it looks at one: a base at the end is skipped.
abbrev pub previous : List Command → Option Command
previous [] = none
previous (back ∷ []) = if back is Instr.rebase then none else some back
previous (back ∷ (before ∷ rest)) = some (if back is Instr.rebase then before else back)

-- The commands with another `prev`.
abbrev pub set_previous : Command → List Command → List Command
set_previous p [] = []
set_previous p (back ∷ []) = p ∷ []
set_previous p (back ∷ (before ∷ rest)) =
    if back is Instr.rebase then (back ∷ (p ∷ rest)) else (p ∷ (before ∷ rest))

-- `commands.pop_back()`
abbrev pub pop_back : List Command → List Command
pop_back [] = []
pop_back (back ∷ rest) = rest

-- The end of insertCommand.
abbrev pub append_command : Command → SchedulerData → SchedulerData
append_command c s =
    let id =
      if s.transaction_in_progress then s.current_transaction else plus s.current_transaction 1 in
    record s { current_transaction = id; commands = record c { transaction_id = id } ∷ s.commands }

abbrev pub back_is_rebase : List Command → Bool
back_is_rebase [] = false
back_is_rebase (back ∷ rest) = back is Instr.rebase

-- The assertion on two commands that erase.
abbrev pub erases_same : (prev c : Command) → Bool
erases_same prev c =
    not (is_erase_like false c && is_erase_like true prev) || c.main_block == prev.main_block

abbrev pub Insert : Type 0
Insert = Command → SchedulerData → Option SchedulerData

-- The edit on the commands; `again` is the call that insertCommand makes of itself.
unfoldable pub perform_edit : Insert → Edit → Insert
perform_edit again add c s = some (append_command c s)
perform_edit again keep c s = some s
perform_edit again remove c s = some (record s { commands = pop_back s.commands })
perform_edit again (amend p) c s = some (record s { commands = set_previous p s.commands })
perform_edit again (extend p) c s =
    if p is Instr.copy
    then some (record s { commands = set_previous p s.commands })
    else again p (record s { commands = pop_back (set_previous p s.commands) })

-- insertCommand with CODEGEN_OPTIMIZATIONS, behind the optimization of the command itself.
unfoldable pub insert_optimized : Insert → Insert
insert_optimized again c s =
    if c is Instr.copy && c.length == 0
    then some s
    else if c is Instr.rebase
    then (if back_is_rebase s.commands then some s else some (append_command c s))
    else elim (previous s.commands) [
      | none ↦ some (append_command c s)
      | some prev ↦ do
        check (erases_same prev c)
        perform_edit again (edit_of s.transaction_in_progress prev c) c s
    ]

-- The call that insertCommand makes of itself is about a command that is no copy, so that it makes no
-- other: a depth of 2 is enough.
unfoldable pub insert_depth : ℕ → Insert
insert_depth zero c s = none
insert_depth (suc depth) c s =
    insert_optimized (insert_depth depth) (perform_trivial_optimization c) s

-- insertCommand
unfoldable pub insert_command : Insert
insert_command c s = insert_depth 2 c s
