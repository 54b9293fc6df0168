-- ===== src/Scheduler/Blocks/Sections.antt =====
-- The sections of addUseBlocks.
use ravens.Base.{
  ℕ, ◌+◌, ◌≡◌, refl, subst, sym, ◌∙◌, inl, inr, Bool-cases, Bool, true, false, ◌||◌, List, [], ◌∷◌,
  ◌++◌, ◌==◌, leb, length, if◌then◌else◌,
}
use mathlib.Core.List.{append-nil, append_assoc}
use ravens.Encoder.{Instr, cache_address}
use ravens.Scheduler.{Command, ◌is◌}
use ravens.Scheduler.Blocks.{
  Section, block_command, block_use_threshold, commit_use_block_section, current_block, end_section,
  start_section, ignore, sort_command, extend_section, use_block_loop,
}

-- USE_BLOCK and RELEASE_BLOCK.
abbrev pub is_bracket : Command → Bool
is_bracket c = c is Instr.use_block || c is Instr.release_block

-- The commands but those two.
unfoldable pub unbracketed : List Command → List Command
unbracketed [] = []
unbracketed (c ∷ rest) = let later = unbracketed rest in if is_bracket c then later else (c ∷ later)

pub unbracketed-append :
    (xs ys : List Command) → unbracketed (xs ++ ys) ≡ unbracketed xs ++ unbracketed ys
unfolding unbracketed
unbracketed-append [] ys = refl
unbracketed-append (x ∷ xs) ys = elim (Bool-cases (is_bracket x)) [
  | inl bracket ↦ simp (bracket, unbracketed-append xs ys)
  | inr plain ↦ simp (plain, unbracketed-append xs ys)
]

-- What a section has of the commands.
abbrev pub content : Section → List Command
content s = unbracketed s.new_commands ++ unbracketed s.pending

pub commit-content :
    (s : Section) → unbracketed (commit_use_block_section s).new_commands ≡ content s
unfolding commit_use_block_section unbracketed
commit-content s =
    elim (Bool-cases (leb (block_use_threshold + s.instruction_ignore) (length s.pending))) [
      | inl many ↦ simp many (
          unbracketed-append s.new_commands
            (block_command Instr.use_block s.block_chain ∷ s.pending))
      | inr few ↦ elim (Bool-cases s.had_block) [
        | inl had ↦
            simp (few, had)
              (unbracketed-append s.new_commands (block_command Instr.release_block 0 ∷ s.pending))
        | inr fresh ↦ simp (few, fresh) (unbracketed-append s.new_commands s.pending)
      ]
    ]

commit-pending : (s : Section) → (commit_use_block_section s).pending ≡ []
unfolding commit_use_block_section
commit-pending s =
    elim (Bool-cases (leb (block_use_threshold + s.instruction_ignore) (length s.pending))) [
      | inl many ↦ simp many
      | inr few ↦ elim (Bool-cases s.had_block) [
        | inl had ↦ simp (few, had)
        | inr fresh ↦ simp (few, fresh)
      ]
    ]

-- A section is open, and it has the commands in `l`.
pub record Holds (s : Section) (l : List Command) : Type 0 where
  pub is_open : s.has_block_chain ≡ true
  pub begun : s.is_start ≡ false
  pub holds : content s ≡ l

pub start_section-Holds :
    (block : ℕ) (s : Section) (l : List Command)
    → s.has_block_chain ≡ false
    → s.pending ≡ []
    → content s ≡ l
    → (block == cache_address) ≡ false
    → Holds (start_section block s) l
unfolding start_section
start_section-Holds block s l closed none_pending has flash =
    simp (closed, flash) (record { is_open = refl; begun = refl; holds = rw none_pending at has })

keep_section :
    (block : ℕ) (s : Section) (l : List Command) → Holds s l → Holds (start_section block s) l
unfolding start_section
keep_section block s l h = simp h.is_open h

new_section :
    (block : ℕ) (s : Section) (l : List Command)
    → Holds s l
    → Holds (start_section block (end_section block s)) l
unfolding end_section unbracketed
new_section block s l h = elim (Bool-cases (block == s.block_chain)) [
  | inl same ↦ simp (h.is_open, same) (keep_section block s l h)
  | inr other ↦ elim (Bool-cases (block == cache_address)) [
    | inl cache ↦
        simp (h.is_open, other, cache)
          (keep_section block
            (record s { instruction_ignore = s.instruction_ignore + 1; has_block_chain = true }) l
            (record { is_open = refl; begun = h.begun; holds = h.holds }))
    | inr flash ↦
        simp (h.is_open, other, flash)
          (start_section-Holds block
            (record (commit_use_block_section s) { has_block_chain = false }) l refl
            (commit-pending s)
            (rw (commit-content s, commit-pending s) (append-nil (content s) ∙ h.holds)) flash)
  ]
]

ignore-Holds : (s : Section) (l : List Command) → Holds s l → Holds (ignore s) l
ignore-Holds s l h = simp h.is_open (record { is_open = refl; begun = h.begun; holds = h.holds })

pub if_not : (b : Bool) (s t : Section) → b ≡ false → (if b then s else t) ≡ t
if_not b s t h = simp h

pub if_so : (b : Bool) (s t : Section) → b ≡ true → (if b then s else t) ≡ s
if_so b s t h = simp h

sort_command-Holds :
    (i : Instr) (c : Command) (s : Section) (l : List Command)
    → Holds s l
    → Holds (sort_command i c s) l
unfolding sort_command
sort_command-Holds Instr.rebase c s l h =
    subst (λ (t : Section). Holds (ignore t) l) (sym (if_not s.is_start _ s h.begun))
      (ignore-Holds s l h)
sort_command-Holds Instr.chained_copy_skip c s l h = ignore-Holds s l h
sort_command-Holds Instr.end_of_stream c s l h = h
sort_command-Holds Instr.use_block c s l h = h
sort_command-Holds Instr.release_block c s l h = h
sort_command-Holds Instr.erase c s l h = new_section (current_block c) s l h
sort_command-Holds Instr.commit c s l h = new_section (current_block c) s l h
sort_command-Holds Instr.flush_and_partial_commit c s l h = new_section (current_block c) s l h
sort_command-Holds Instr.load_and_flush c s l h = new_section (current_block c) s l h
sort_command-Holds Instr.copy c s l h = new_section (current_block c) s l h
sort_command-Holds Instr.chained_copy c s l h = new_section (current_block c) s l h

pub extend_section-Holds :
    (c : Command) (s : Section) (l : List Command)
    → Holds s l
    → Holds (extend_section c s) (l ++ unbracketed (c ∷ []))
extend_section-Holds c s l h = simp h.is_open (record {
  is_open = refl;
  begun = h.begun;
  holds =
      rw (unbracketed-append s.pending (c ∷ []), ← h.holds)
        (sym (
          append_assoc (unbracketed s.new_commands) (unbracketed s.pending)
            (unbracketed (c ∷ []))));
})

pub use_block_loop-Holds :
    (commands : List Command) (s : Section) (l : List Command)
    → Holds s l
    → Holds (use_block_loop commands s) (l ++ unbracketed commands)
unfolding use_block_loop unbracketed
use_block_loop-Holds [] s l h = rw (append-nil l) h
use_block_loop-Holds (c ∷ rest) s l h =
    rw
      (unbracketed-append (c ∷ []) rest, ← append_assoc l (unbracketed (c ∷ [])) (unbracketed rest))
      (use_block_loop-Holds rest (extend_section c (sort_command c.command c s))
        (l ++ unbracketed (c ∷ []))
        (extend_section-Holds c (sort_command c.command c s) l
          (sort_command-Holds c.command c s l h)))
