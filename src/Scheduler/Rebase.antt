-- ===== src/Scheduler/Rebase.antt =====
-- updateLastRebase of hugin/Scheduler/scheduler_codegen_optim.cpp: the commands are walked from the
-- last one to the first, so that the lists here have the last command first.
pub mod Spans
pub mod Covers
mod Examples
use mathlib.Core.List.{reverse}
use ravens.Base.{
  ℕ, ◌+◌, ◌-◌, ◌*◌, ◌/◌, ◌%◌, ◌^◌, Bool, true, false, not, ◌&&◌, ◌||◌, Option, none, some, List, [],
  ◌∷◌, ◌==◌, ltb, if◌then◌else◌,
}
use ravens.Encoder.{Instr, cache_address, number_of_bits_necessary, word_mod}
use ravens.Scheduler.{Command, ◌is◌, block_of}

-- `smallestBlock` and `largestBlock`
pub record Blocks : Type 0 where
  pub smallest : ℕ
  pub largest : ℕ

abbrev pub no_blocks : Blocks
no_blocks = record { smallest = cache_address; largest = 0 }

-- The two tests on a block.
unfoldable pub widen : (block : ℕ) → Blocks → Blocks
widen block s = record {
  smallest = if ltb block s.smallest then block else s.smallest;
  largest = if ltb s.largest block then block else s.largest;
}

unfoldable pub widen_unless_cache : (block : ℕ) → Blocks → Blocks
widen_unless_cache block s = if block == cache_address then s else widen block s

-- The switch of updateLastRebase, but for REBASE.
unfoldable pub widen_by : Instr → Command → Blocks → Blocks
widen_by Instr.copy c s = widen_unless_cache c.main_block (widen_unless_cache c.secondary_block s)
widen_by Instr.chained_copy c s = widen_unless_cache c.main_block s
widen_by Instr.erase c s = widen c.main_block s
widen_by Instr.commit c s = widen c.main_block s
widen_by Instr.flush_and_partial_commit c s = widen c.main_block s
widen_by Instr.load_and_flush c s = widen c.main_block s
widen_by _ c s = s

-- `(to - from) >> BLOCK_SIZE_BIT`
abbrev pub blocks_between : (from to : ℕ) → ℕ
blocks_between from to = (to + word_mod - from) % word_mod / 2 ^ 12

-- `mainBlock + (length - 1)` of a REBASE, where `+` of BlockID takes a number of blocks.
abbrev pub last_block : Command → ℕ
last_block c = block_of ((c.main_block + (c.length + word_mod - 1) % word_mod * 2 ^ 12) % word_mod)

-- A REBASE and the previous one: whether the new one is erased, and the previous one.
unfoldable pub merge_rebase : (new previous : Command) → Bool × Command
merge_rebase new previous =
    let low =
      if ltb previous.main_block new.main_block then previous.main_block else new.main_block in
    let high =
      if ltb (last_block new) (last_block previous) then last_block previous else last_block new in
    let necessary = blocks_between low high in
    let bits = number_of_bits_necessary previous.length in
    if not (bits == number_of_bits_necessary new.length)
    then (false, previous)
    else if previous.main_block == new.main_block
    then (true, previous)
    else if bits == number_of_bits_necessary necessary
    then (true, record previous { main_block = low; length = necessary })
    else (false, previous)

-- The search for the previous REBASE, from a REBASE that is not the first command.
unfoldable pub with_previous : (new : Command) → List Command → Option (Bool × List Command)
with_previous new [] = none
with_previous new (c ∷ earlier) =
    if c is Instr.rebase
    then (let (erased, previous) = merge_rebase new c in some (erased, previous ∷ earlier))
    else elim (with_previous new earlier) [
      | none ↦ none
      | some (erased, rest) ↦ some (erased, c ∷ rest)
    ]

-- The REBASE with its new range, and the commands before it.
unfoldable pub place_rebase : (new : Command) → List Command → List Command
place_rebase new [] = new ∷ []
place_rebase new (c ∷ earlier) = elim (with_previous new (c ∷ earlier)) [
  | none ↦ if new.length == 1 then c ∷ earlier else new ∷ (c ∷ earlier)
  | some (erased, rest) ↦ if erased then rest else new ∷ rest
]

-- The loop of updateLastRebase.
unfoldable pub update_from : List Command → Blocks → List Command
update_from [] s = []
update_from (c ∷ earlier) s =
    let rest = update_from earlier (widen_by c.command c s) in
    if c is Instr.rebase
    then (if ltb s.largest s.smallest
        then earlier
        else place_rebase
            (record c { main_block = s.smallest; length = blocks_between s.smallest s.largest })
            earlier)
    else c ∷ rest

unfoldable pub update_last_rebase : List Command → List Command
update_last_rebase commands = reverse (update_from (reverse commands) no_blocks)
