-- ===== src/Scheduler/Blocks/Runs.antt =====
-- What virtualMachine makes of the commands of generateInstructions.
use ravens.Base.{
  ℕ, ◌≡◌, refl, subst, sym, ap, ◌∙◌, inl, inr, Bool-cases, Bool, true, false, ◌||◌, some, List, [],
  ◌∷◌, map, arith, ◌==◌, if◌then◌else◌,
}
use ravens.Base.Maybe.{Option-cases, some_injective, none-some}
use ravens.Base.Memory.{Bytes}
use ravens.Encoder.{Instr, PublicCommand}
use ravens.Encoder.Stream.{instr_number}
use ravens.Scheduler.{Command, ◌is◌, create_chains, get_public_command}
use ravens.Scheduler.Blocks.{add_use_blocks, normalize_rebase, generate_instructions}
use ravens.Scheduler.Blocks.Sections.{unbracketed, is_bracket}
use ravens.Scheduler.Blocks.Unbracketed.{starts_on_block, add_use_blocks-unbracketed}
use ravens.Scheduler.Blocks.Starts.{create_chains-starts}
use ravens.Scheduler.Chains.{AllWellFormed, create_chains-explicit}
use ravens.VirtualMachine.{
  Vm, step_as, step, run, start, is_flash_length, ends_stream, virtual_machine, plus,
}
use ravens.VirtualMachine.Explicit.{aside, Shadows, step_as-aside, explicit, explicit_as}
use ravens.VirtualMachine.Explicit.Runs.{Runs, stopped, virtual_machine-explicit}

-- The commands that only change the encoding.
abbrev is_silent : Instr → Bool
is_silent Instr.rebase = true
is_silent Instr.use_block = true
is_silent Instr.release_block = true
is_silent _ = false

abbrev is_chain : Instr → Bool
is_chain Instr.chained_copy = true
is_chain Instr.chained_copy_skip = true
is_chain _ = false

quiet : List PublicCommand → List PublicCommand
quiet [] = []
quiet (c ∷ rest) = let later = quiet rest in if is_silent c.command then later else (c ∷ later)

abbrev Unchained : List PublicCommand → Type 0
Unchained [] = Unit
Unchained (c ∷ rest) = (is_chain c.command ≡ false) × Unchained rest

explicit_as-Unchained :
    (i : Instr) (e : ℕ) (c : PublicCommand) (k : ℕ → List PublicCommand)
    → c.command ≡ i
    → ((at : ℕ) → Unchained (k at))
    → Unchained (explicit_as i e c k)
explicit_as-Unchained Instr.chained_copy e c k same h = (refl, h _)
explicit_as-Unchained Instr.chained_copy_skip e c k same h = h _
explicit_as-Unchained Instr.copy e c k same h = (ap is_chain same, h _)
explicit_as-Unchained Instr.flush_and_partial_commit e c k same h = (ap is_chain same, h _)
explicit_as-Unchained Instr.erase e c k same h = (ap is_chain same, h _)
explicit_as-Unchained Instr.commit e c k same h = (ap is_chain same, h _)
explicit_as-Unchained Instr.load_and_flush e c k same h = (ap is_chain same, h _)
explicit_as-Unchained Instr.rebase e c k same h = (ap is_chain same, h _)
explicit_as-Unchained Instr.use_block e c k same h = (ap is_chain same, h _)
explicit_as-Unchained Instr.release_block e c k same h = (ap is_chain same, h _)
explicit_as-Unchained Instr.end_of_stream e c k same h = (ap is_chain same, h _)

explicit-Unchained : (e : ℕ) (commands : List PublicCommand) → Unchained (explicit e commands)
unfolding explicit
explicit-Unchained e [] = tt
explicit-Unchained e (c ∷ rest) =
    explicit_as-Unchained c.command e c (λ at. explicit at rest) refl
      (λ at. explicit-Unchained at rest)

-- A silent command changes no memory.
silent_step :
    (i : Instr) (n : ℕ) (c : PublicCommand) (vm : Vm)
    → is_silent i ≡ true
    → (ends_stream i ≡ false)
      × (step_as i n c vm ≡ some (record vm { previous_write_was_copy = true }))
unfolding step_as
silent_step Instr.rebase n c vm h = (refl, refl)
silent_step Instr.use_block n c vm h = (refl, refl)
silent_step Instr.release_block n c vm h = (refl, refl)
silent_step Instr.erase n c vm h = absurd cc
silent_step Instr.commit n c vm h = absurd cc
silent_step Instr.load_and_flush n c vm h = absurd cc
silent_step Instr.flush_and_partial_commit n c vm h = absurd cc
silent_step Instr.copy n c vm h = absurd cc
silent_step Instr.chained_copy n c vm h = absurd cc
silent_step Instr.chained_copy_skip n c vm h = absurd cc
silent_step Instr.end_of_stream n c vm h = absurd cc

unchained_step :
    (i : Instr) (n : ℕ) (c : PublicCommand) (vm after : Vm) (b : Bool) (e : ℕ)
    → is_chain i ≡ false
    → step_as i n c vm ≡ some after
    → Shadows (step_as i n c (aside b e vm)) after
unchained_step i n c vm after b e h =
    step_as-aside i n c vm after b e
      (λ same. let wrong : true ≡ false = sym (ap is_chain same) ∙ h in cc)
      (λ same. let wrong : true ≡ false = sym (ap is_chain same) ∙ h in cc)

run-quiet :
    (n : ℕ) (commands : List PublicCommand) (vm after : Vm) (result b : Bool) (e : ℕ)
    → Unchained commands
    → run n commands vm ≡ some (result, after)
    → Runs (run n (quiet commands) (aside b e vm)) result after
unfolding run quiet
run-quiet n [] vm after result b e h ran = stopped true result b e vm after ran
run-quiet n (c ∷ rest) vm after result b e h ran = elim (Bool-cases (is_silent c.command)) [
  | inl silent ↦
      let (goes, stepped) = silent_step c.command n c vm silent in
      simp silent (
        run-quiet n rest (record vm { previous_write_was_copy = true }) after result b e h.1
          (simp (goes, stepped) at ran))
  | inr heard ↦ elim (Bool-cases (ends_stream c.command)) [
    | inl ends ↦ simp (heard, ends) (stopped false result b e vm after (simp ends at ran))
    | inr goes ↦ elim (Option-cases (step n c vm)) [
      | inl failed ↦ absurd (none-some (simp (goes, failed) at ran))
      | inr (middle, stepped) ↦
          let (b', e', same) = unchained_step c.command n c vm middle b e h.0 stepped in
          simp (heard, goes, same)
            (run-quiet n rest middle after result b' e' h.1 (simp (goes, stepped) at ran))
    ]
  ]
]

run-noisy :
    (n : ℕ) (commands : List PublicCommand) (vm after : Vm) (result b : Bool) (e : ℕ)
    → Unchained commands
    → run n (quiet commands) vm ≡ some (result, after)
    → Runs (run n commands (aside b e vm)) result after
unfolding run quiet
run-noisy n [] vm after result b e h ran = stopped true result b e vm after ran
run-noisy n (c ∷ rest) vm after result b e h ran = elim (Bool-cases (is_silent c.command)) [
  | inl silent ↦
      let (goes, stepped) = silent_step c.command n c (aside b e vm) silent in
      simp (goes, stepped) (run-noisy n rest vm after result true e h.1 (simp silent at ran))
  | inr heard ↦ elim (Bool-cases (ends_stream c.command)) [
    | inl ends ↦ simp ends (stopped false result b e vm after (simp (heard, ends) at ran))
    | inr goes ↦ elim (Option-cases (step n c vm)) [
      | inl failed ↦ absurd (none-some (simp (heard, goes, failed) at ran))
      | inr (middle, stepped) ↦
          let (b', e', same) = unchained_step c.command n c vm middle b e h.0 stepped in
          simp (goes, same)
            (run-noisy n rest middle after result b' e' h.1 (simp (heard, goes, stepped) at ran))
    ]
  ]
]

quiet-explicit_as :
    (i : Instr) (e : ℕ) (c : PublicCommand) (k k' : ℕ → List PublicCommand)
    → c.command ≡ i
    → ((at : ℕ) → quiet (k at) ≡ k' at)
    → quiet (explicit_as i e c k) ≡ (if is_silent i then k' e else explicit_as i e c k')
unfolding quiet
quiet-explicit_as Instr.chained_copy e c k k' same h =
    ap (λ (l : List PublicCommand). record c { command = Instr.copy; secondary_address = e } ∷ l)
      (h (plus e c.length))
quiet-explicit_as Instr.chained_copy_skip e c k k' same h = h _
quiet-explicit_as Instr.rebase e c k k' same h = simp same (h _)
quiet-explicit_as Instr.use_block e c k k' same h = simp same (h _)
quiet-explicit_as Instr.release_block e c k k' same h = simp same (h _)
quiet-explicit_as _ e c k k' same h = simp same (ap (λ (l : List PublicCommand). c ∷ l) (h _))

quiet-explicit :
    (e : ℕ) (commands : List PublicCommand)
    → quiet (explicit e commands) ≡ explicit e (quiet commands)
unfolding explicit quiet
quiet-explicit e [] = refl
quiet-explicit e (c ∷ rest) =
    quiet-explicit_as c.command e c (λ at. explicit at rest) (λ at. explicit at (quiet rest)) refl
      (λ at. quiet-explicit at rest)
    ∙ (elim (Bool-cases (is_silent c.command)) [
      | inl silent ↦ simp silent
      | inr heard ↦ simp heard
    ])

silent_number :
    (i : Instr)
    → (instr_number i == 7 || instr_number i == 8 || instr_number i == 9) ≡ true
    → is_silent i ≡ true
silent_number Instr.use_block h = refl
silent_number Instr.release_block h = refl
silent_number Instr.rebase h = refl
silent_number _ h = absurd cc

quiet-unbracketed :
    (commands : List Command)
    → quiet (map get_public_command (unbracketed commands))
      ≡ quiet (map get_public_command commands)
unfolding quiet unbracketed
quiet-unbracketed [] = refl
quiet-unbracketed (c ∷ rest) = elim (Bool-cases (is_bracket c)) [
  | inl bracket ↦
      simp (bracket, silent_number c.command (ground (arith, bracket))) (quiet-unbracketed rest)
  | inr plain ↦ simp plain (rw (quiet-unbracketed rest) refl)
]

quiet-normalize_rebase :
    (commands : List Command)
    → quiet (map get_public_command (map normalize_rebase commands))
      ≡ quiet (map get_public_command commands)
unfolding quiet
quiet-normalize_rebase [] = refl
quiet-normalize_rebase (c ∷ rest) = elim (Bool-cases (c is Instr.rebase)) [
  | inl base ↦
      simp (base, silent_number c.command (ground (arith, base))) (quiet-normalize_rebase rest)
  | inr plain ↦ simp plain (rw (quiet-normalize_rebase rest) refl)
]

-- The commands of generateInstructions and those that it was given say the same about memory.
generate_instructions-quiet :
    (commands chains : List Command)
    → AllWellFormed commands
    → create_chains commands ≡ some chains
    → starts_on_block chains ≡ true
    → quiet (explicit 0 (map get_public_command (map normalize_rebase (add_use_blocks chains))))
      ≡ quiet (map get_public_command commands)
generate_instructions-quiet commands chains h chained starts =
    let made = add_use_blocks chains in
    quiet-explicit 0 (map get_public_command (map normalize_rebase made))
    ∙ (ap (explicit 0) (
          quiet-normalize_rebase made
          ∙ (sym (quiet-unbracketed made)
              ∙ (ap (λ (l : List Command). quiet (map get_public_command l))
                    (add_use_blocks-unbracketed chains starts)
                  ∙ quiet-unbracketed chains)))
        ∙ (sym (quiet-explicit 0 (map get_public_command chains))
            ∙ ap quiet (create_chains-explicit commands chains h chained)))

-- virtualMachine on commands that are not chained, and on others that say the same about memory.
virtual_machine-same :
    (p q : List PublicCommand) (flash : Bytes) (n : ℕ) (end : Bool × Bytes)
    → Unchained p
    → Unchained q
    → quiet p ≡ quiet q
    → virtual_machine p flash n ≡ some end
    → virtual_machine q flash n ≡ some end
unfolding virtual_machine
virtual_machine-same p q flash n end unchained unchained' same h =
    elim (Bool-cases (is_flash_length n)) [
      | inr wrong ↦ simp wrong (simp wrong at h)
      | inl right ↦ elim (Option-cases (run n p (start flash))) [
        | inl failed ↦ absurd (none-some (simp (right, failed) at h))
        | inr ((result, after), ran) ↦
            let (b, e, heard) = run-quiet n p (start flash) after result false 0 unchained ran in
            let (b', e', again) =
              run-noisy n q (start flash) (aside b e after) result false 0 unchained'
                (rw same at heard) in
            rw (right, again) (simp (right, ran) at h)
      ]
    ]

-- Where virtualMachine ends without a failed assertion on the commands of generateInstructions, it
-- ends alike, with the same flash, on the commands that it was given, each as it is: the chains, the
-- uses of blocks and the bases change nothing. The commands are those of the scheduler, and name a
-- block of the flash behind the bases that they begin with.
pub generate_instructions-runs :
    (commands : List Command) (out : List PublicCommand) (flash : Bytes) (n : ℕ)
    (end : Bool × Bytes)
    → AllWellFormed commands
    → starts_on_block commands ≡ true
    → generate_instructions commands ≡ some out
    → virtual_machine out flash n ≡ some end
    → virtual_machine (map get_public_command commands) flash n ≡ some end
unfolding generate_instructions
generate_instructions-runs commands out flash n end h starts made ran =
    elim (Option-cases (create_chains commands)) [
      | inl failed ↦ absurd (none-some (simp failed at made))
      | inr (chains, chained) ↦
          let new = map get_public_command (map normalize_rebase (add_use_blocks chains)) in
          let whole : new ≡ out = some_injective (simp chained at made) in
          virtual_machine-same (explicit 0 new) (map get_public_command commands) flash n end
            (explicit-Unchained 0 new)
            (subst Unchained (create_chains-explicit commands chains h chained)
              (explicit-Unchained 0 (map get_public_command chains)))
            (generate_instructions-quiet commands chains h chained
              (create_chains-starts commands chains starts chained))
            (virtual_machine-explicit new flash n end (rw (← whole) at ran))
    ]
