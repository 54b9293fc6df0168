-- ===== src/Scheduler/Blocks/Unbracketed.antt =====
-- The commands behind addUseBlocks without those that it added.
use ravens.Base.{
  ◌≡◌, refl, sym, ap, ◌∙◌, inl, inr, Bool-cases, Bool, true, false, not, ◌&&◌, List, [], ◌∷◌, ◌++◌,
  arith, ◌==◌, if◌then◌else◌,
}
use mathlib.Core.List.{append-nil, append_assoc}
use ravens.Encoder.{Instr, cache_address}
use ravens.Encoder.Validate.{instr_number_injective}
use ravens.Scheduler.{Command, ◌is◌}
use ravens.Scheduler.Blocks.{
  Section, commit_use_block_section, current_block, end_section, start_section, ignore,
  sort_command, extend_section, use_block_loop, start_sections, add_use_blocks,
}
use ravens.Scheduler.Blocks.Sections.{
  Holds, unbracketed, unbracketed-append, commit-content, start_section-Holds, if_not, if_so,
  extend_section-Holds, use_block_loop-Holds,
}

-- Commands that name a block, in front of which a section can start.
abbrev names_block : Instr → Bool
names_block Instr.erase = true
names_block Instr.commit = true
names_block Instr.flush_and_partial_commit = true
names_block Instr.load_and_flush = true
names_block Instr.copy = true
names_block Instr.chained_copy = true
names_block _ = false

-- Behind the bases that they begin with, the commands go on with one on a block of the flash.
unfoldable pub starts_on_block : List Command → Bool
starts_on_block [] = true
starts_on_block (c ∷ rest) =
    let later = starts_on_block rest in
    if c is Instr.rebase
    then later
    else (names_block c.command && not (current_block c == cache_address))

-- No section has started, and the new commands have those in `l`.
record Waits (s : Section) (l : List Command) : Type 0 where
  closed : s.has_block_chain ≡ false
  unstarted : s.is_start ≡ true
  none_pending : s.pending ≡ []
  has : unbracketed s.new_commands ≡ l

first_section :
    (c : Command) (s : Section) (l : List Command)
    → Waits s l
    → (current_block c == cache_address) ≡ false
    → Holds (start_section (current_block c) (end_section (current_block c) s)) l
unfolding end_section unbracketed
first_section c s l h flash = simp h.closed (
    start_section-Holds (current_block c) s l h.closed h.none_pending
      (rw (h.none_pending, append-nil (unbracketed s.new_commands)) h.has) flash)

sort_command-first :
    (i : Instr) (c : Command) (s : Section) (l : List Command)
    → Waits s l
    → names_block i ≡ true
    → (current_block c == cache_address) ≡ false
    → Holds (sort_command i c s) l
unfolding sort_command
sort_command-first Instr.rebase c s l h names flash = absurd cc
sort_command-first Instr.chained_copy_skip c s l h names flash = absurd cc
sort_command-first Instr.end_of_stream c s l h names flash = absurd cc
sort_command-first Instr.use_block c s l h names flash = absurd cc
sort_command-first Instr.release_block c s l h names flash = absurd cc
sort_command-first Instr.erase c s l h names flash = first_section c s l h flash
sort_command-first Instr.commit c s l h names flash = first_section c s l h flash
sort_command-first Instr.flush_and_partial_commit c s l h names flash = first_section c s l h flash
sort_command-first Instr.load_and_flush c s l h names flash = first_section c s l h flash
sort_command-first Instr.copy c s l h names flash = first_section c s l h flash
sort_command-first Instr.chained_copy c s l h names flash = first_section c s l h flash

-- The end of addUseBlocks.
abbrev section_commands : Section → List Command
section_commands s =
    if s.has_block_chain then (commit_use_block_section s).new_commands else s.new_commands

finished-Holds : (s : Section) (l : List Command) → Holds s l → unbracketed (section_commands s) ≡ l
finished-Holds s l h = simp h.is_open (commit-content s ∙ h.holds)

sort_base :
    (c : Command) (s : Section) (l : List Command)
    → Waits s l
    → extend_section c (sort_command Instr.rebase c s)
      ≡ record s { new_commands = s.new_commands ++ (c ∷ []) }
unfolding sort_command
sort_base c s l h =
    let pushed = record s { new_commands = s.new_commands ++ (c ∷ []) } in
    ap (λ (t : Section). extend_section c (ignore t)) (if_so s.is_start pushed s h.unstarted)
    ∙ (ap (extend_section c) (if_not s.has_block_chain _ pushed h.closed)
        ∙ if_not s.has_block_chain _ pushed h.closed)

pushed-Waits :
    (c : Command) (s : Section) (l : List Command)
    → Waits s l
    → Waits (record s { new_commands = s.new_commands ++ (c ∷ []) }) (l ++ unbracketed (c ∷ []))
pushed-Waits c s l h = record {
  closed = h.closed;
  unstarted = h.unstarted;
  none_pending = h.none_pending;
  has = rw (unbracketed-append s.new_commands (c ∷ []), h.has) refl;
}

both_of : (a b : Bool) → (a && not b) ≡ true → (a ≡ true) × (b ≡ false)
both_of true false h = (refl, refl)
both_of true true h = absurd cc
both_of false b h = absurd cc

use_block_loop-Waits :
    (commands : List Command) (s : Section) (l : List Command)
    → Waits s l
    → starts_on_block commands ≡ true
    → unbracketed (section_commands (use_block_loop commands s)) ≡ l ++ unbracketed commands
unfolding use_block_loop starts_on_block unbracketed
use_block_loop-Waits [] s l h starts = simp h.closed (h.has ∙ sym (append-nil l))
use_block_loop-Waits (c ∷ rest) s l h starts = elim (Bool-cases (c is Instr.rebase)) [
  | inl base ↦
      let same : c.command ≡ Instr.rebase =
        instr_number_injective c.command Instr.rebase (ground (arith, base)) in
      let pushed = record s { new_commands = s.new_commands ++ (c ∷ []) } in
      let here : extend_section c (sort_command c.command c s) ≡ pushed =
        ap (λ (i : Instr). extend_section c (sort_command i c s)) same ∙ sort_base c s l h in
      ap (λ (t : Section). unbracketed (section_commands (use_block_loop rest t))) here
      ∙ rw
          (
            unbracketed-append (c ∷ []) rest,
            ← append_assoc l (unbracketed (c ∷ [])) (unbracketed rest),
          )
          (use_block_loop-Waits rest pushed (l ++ unbracketed (c ∷ [])) (pushed-Waits c s l h)
            (simp base at starts))
  | inr other ↦
      let names : (names_block c.command && not (current_block c == cache_address)) ≡ true =
        simp other at starts in
      let first =
        sort_command-first c.command c s l h (both_of _ _ names).0 (both_of _ _ names).1 in
      rw
        (
          unbracketed-append (c ∷ []) rest,
          ← append_assoc l (unbracketed (c ∷ [])) (unbracketed rest),
        )
        (finished-Holds _ _ (
          use_block_loop-Holds rest _ _
            (extend_section-Holds c (sort_command c.command c s) l first)))
]

-- addUseBlocks only adds: without the commands that begin and end the use of a block, the new
-- commands are those that it was given, in their order. The commands begin with bases, and then one
-- that names a block of the flash.
pub add_use_blocks-unbracketed :
    (commands : List Command)
    → starts_on_block commands ≡ true
    → unbracketed (add_use_blocks commands) ≡ unbracketed commands
unfolding add_use_blocks unbracketed
add_use_blocks-unbracketed commands starts =
    use_block_loop-Waits commands start_sections []
      (record { closed = refl; unstarted = refl; none_pending = refl; has = refl }) starts
