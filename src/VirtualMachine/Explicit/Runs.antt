-- ===== src/VirtualMachine/Explicit/Runs.antt =====
-- virtualMachine on commands without chained copies.
use ravens.Base.{
  ℕ, ◌≡◌, ◌≢◌, refl, subst, sym, ap, inl, inr, Bool-cases, Bool, true, false, Option, none, some,
  List, [], ◌∷◌, ◌++◌, leb,
}
use ravens.Base.Maybe.{◌>>=◌, ◌>>◌, check, Option-cases, some_injective, none-some}
use ravens.Base.Memory.{Bytes}
use ravens.Encoder.{Instr, PublicCommand}
use ravens.Flash.{block_size}
use ravens.VirtualMachine.{
  Vm, plus, chain, check_aligned, step_as, step, run, start, is_flash_length, ends_stream,
  virtual_machine, may_skip,
}
use ravens.VirtualMachine.Explicit.{explicit_as, explicit, aside, step_as-aside, copied}

-- What of the command is left.
abbrev kept : Instr → (end : ℕ) → PublicCommand → List PublicCommand
kept Instr.chained_copy end c = record c { command = Instr.copy; secondary_address = end } ∷ []
kept Instr.chained_copy_skip end c = []
kept _ end c = c ∷ []

guarded : (o : Option (Unit {0})) (vm after : Vm) → (o >> some vm) ≡ some after → vm ≡ after
guarded none vm after h = absurd (none-some h)
guarded (some u) vm after h = some_injective h

unguarded :
    (o : Option (Unit {0})) (r : Option Vm) (after : Vm) → (o >> r) ≡ some after → r ≡ some after
unguarded none r after h = absurd (none-some h)
unguarded (some u) r after h = h

guarded_chain :
    (o : Option (Unit {0})) (r : Option Vm) (end : ℕ) (after : Vm)
    → (o >> (r >>= λ v. some (chain end v))) ≡ some after
    → end ≡ after.end_previous_copy
guarded_chain none r end after h = absurd (none-some h)
guarded_chain (some u) none end after h = absurd (none-some h)
guarded_chain (some u) (some v) end after h =
    ap (λ (v : Vm). v.end_previous_copy) (some_injective h)

-- `explicit` follows the end of the last copy.
explicit_as-step :
    (i : Instr) (n : ℕ) (c : PublicCommand) (vm after : Vm) (k : ℕ → List PublicCommand)
    → step_as i n c vm ≡ some after
    → explicit_as i vm.end_previous_copy c k
      ≡ kept i vm.end_previous_copy c ++ k after.end_previous_copy
unfolding step_as
explicit_as-step Instr.commit n c vm after k h =
    ap (λ (v : Vm). c ∷ k v.end_previous_copy) (guarded (check_aligned n c.main_address) _ after h)
explicit_as-step Instr.erase n c vm after k h =
    ap (λ (v : Vm). c ∷ k v.end_previous_copy) (guarded (check_aligned n c.main_address) _ after h)
explicit_as-step Instr.load_and_flush n c vm after k h =
    ap (λ (v : Vm). c ∷ k v.end_previous_copy) (guarded (check_aligned n c.main_address) _ after h)
explicit_as-step Instr.flush_and_partial_commit n c vm after k h =
    ap (λ (end : ℕ). c ∷ k end)
      (guarded_chain (check (leb c.length block_size)) _ _ after
        (unguarded (check_aligned n c.main_address) _ after h))
explicit_as-step Instr.chained_copy n c vm after k h =
    ap (λ (end : ℕ). kept Instr.chained_copy vm.end_previous_copy c ++ k end)
      (guarded_chain (check vm.previous_write_was_copy) _ _ after h)
explicit_as-step Instr.chained_copy_skip n c vm after k h =
    ap (λ (v : Vm). k v.end_previous_copy)
      (guarded (check (may_skip n vm.end_previous_copy c.length)) _ after h)
explicit_as-step Instr.copy n c vm after k h =
    ap (λ (end : ℕ). c ∷ k end) (guarded_chain (some tt) _ _ after h)
explicit_as-step Instr.rebase n c vm after k h =
    ap (λ (v : Vm). c ∷ k v.end_previous_copy) (some_injective h)
explicit_as-step Instr.use_block n c vm after k h =
    ap (λ (v : Vm). c ∷ k v.end_previous_copy) (some_injective h)
explicit_as-step Instr.release_block n c vm after k h =
    ap (λ (v : Vm). c ∷ k v.end_previous_copy) (some_injective h)
explicit_as-step Instr.end_of_stream n c vm after k h =
    ap (λ (v : Vm). c ∷ k v.end_previous_copy) (some_injective h)

-- A run that ends with the memory of `after`.
abbrev pub Runs : Option (Bool × Vm) → Bool → Vm → Type 0
Runs o result after = (b : Bool) × (e : ℕ) × (o ≡ some (result, aside b e after))

-- What `explicit` makes of the commands behind one of them.
abbrev Follows :
    (n : ℕ) → (rest : List PublicCommand) (k : ℕ → List PublicCommand) → Bool → Vm → Type 0
Follows n rest k result after =
    (vm : Vm) (b : Bool) (e : ℕ)
    → run n rest vm ≡ some (result, after)
    → Runs (run n (k vm.end_previous_copy) (aside b e vm)) result after

abbrev command : Instr → (main secondary length : ℕ) → PublicCommand
command i main secondary length = record {
  command = i;
  main_address = main;
  secondary_address = secondary;
  length = length;
}

module _ (n : ℕ) (main secondary length : ℕ) (rest : List PublicCommand) (vm middle after : Vm)
    (k : ℕ → List PublicCommand) (result b : Bool) (e : ℕ)
    (ran : run n rest middle ≡ some (result, after)) (follows : Follows n rest k result after) where
  abbrev Performed : Instr → Type 0
  Performed i = step_as i n (command i main secondary length) vm ≡ some middle

  run_plain :
      (i : Instr)
      → ends_stream i ≡ false
      → i ≢ Instr.chained_copy
      → i ≢ Instr.chained_copy_skip
      → Performed i
      → Runs
          (run n (command i main secondary length ∷ k middle.end_previous_copy) (aside b e vm))
          result
          after
  unfolding run
  run_plain i goes f g h =
      let (b', e', stepped) =
        step_as-aside i n (command i main secondary length) vm middle b e f g h in
      rw (goes, stepped) (follows middle b' e' ran)

  run_chained_copy :
      Performed Instr.chained_copy
      → Runs
          (run n
            (command Instr.copy main vm.end_previous_copy length ∷ k middle.end_previous_copy)
            (aside b e vm))
          result
          after
  unfolding run step_as
  run_chained_copy h =
      let (b', e', stepped) =
        copied n main length vm.end_previous_copy _ vm middle b e
          (unguarded (check vm.previous_write_was_copy) _ middle h) in
      rw stepped (follows middle b' e' ran)

  run_skip :
      Performed Instr.chained_copy_skip
      → Runs (run n (k middle.end_previous_copy) (aside b e vm)) result after
  unfolding step_as
  run_skip h =
      let same : chain (plus vm.end_previous_copy length) vm ≡ middle =
        guarded (check (may_skip n vm.end_previous_copy length)) _ middle h in
      subst (λ (v : Vm). Runs (run n (k middle.end_previous_copy) v) result after)
        (sym (ap (λ (v : Vm). aside b e v) same)) (follows middle b e ran)

  run_command :
      (i : Instr)
      → ends_stream i ≡ false
      → Performed i
      → Runs
          (run n
            (kept i vm.end_previous_copy (command i main secondary length)
              ++ k middle.end_previous_copy)
            (aside b e vm))
          result
          after
  run_command Instr.chained_copy goes h = run_chained_copy h
  run_command Instr.chained_copy_skip goes h = run_skip h
  run_command Instr.end_of_stream goes h = absurd cc
  run_command Instr.commit goes h = run_plain Instr.commit goes (λ x. cc) (λ x. cc) h
  run_command Instr.erase goes h = run_plain Instr.erase goes (λ x. cc) (λ x. cc) h
  run_command Instr.load_and_flush goes h =
      run_plain Instr.load_and_flush goes (λ x. cc) (λ x. cc) h
  run_command Instr.flush_and_partial_commit goes h =
      run_plain Instr.flush_and_partial_commit goes (λ x. cc) (λ x. cc) h
  run_command Instr.copy goes h = run_plain Instr.copy goes (λ x. cc) (λ x. cc) h
  run_command Instr.rebase goes h = run_plain Instr.rebase goes (λ x. cc) (λ x. cc) h
  run_command Instr.use_block goes h = run_plain Instr.use_block goes (λ x. cc) (λ x. cc) h
  run_command Instr.release_block goes h = run_plain Instr.release_block goes (λ x. cc) (λ x. cc) h

pub stopped :
    (here result b : Bool) (e : ℕ) (vm after : Vm)
    → ◌≡◌ {A = Option (Bool × Vm)} (some (here, vm)) (some (result, after))
    → Runs (some (here, aside b e vm)) result after
stopped here result b e vm after h =
    (b, e, ap (λ (p : Bool × Vm). some (p.0, aside b e p.1)) (some_injective h))

explicit_as-ends :
    (i : Instr) (end : ℕ) (c : PublicCommand) (k : ℕ → List PublicCommand)
    → ends_stream i ≡ true
    → explicit_as i end c k ≡ c ∷ k end
explicit_as-ends Instr.end_of_stream end c k h = refl
explicit_as-ends Instr.copy end c k h = absurd cc
explicit_as-ends Instr.chained_copy end c k h = absurd cc
explicit_as-ends Instr.chained_copy_skip end c k h = absurd cc
explicit_as-ends Instr.flush_and_partial_commit end c k h = absurd cc
explicit_as-ends _ end c k h = refl

run-explicit :
    (n : ℕ) (commands : List PublicCommand) (after : Vm) (result : Bool)
    → Follows n commands (λ end. explicit end commands) result after
unfolding explicit run
run-explicit n [] after result vm b e h = stopped true result b e vm after h
run-explicit n (c ∷ rest) after result vm b e h = elim (Bool-cases (ends_stream c.command)) [
  | inl ends ↦
      rw (explicit_as-ends c.command vm.end_previous_copy c (λ end. explicit end rest) ends, ends)
        (stopped false result b e vm after (simp ends at h))
  | inr goes ↦ elim (Option-cases (step n c vm)) [
    | inl failed ↦ absurd (none-some (simp (goes, failed) at h))
    | inr (middle, stepped) ↦
        rw (explicit_as-step c.command n c vm middle (λ end. explicit end rest) stepped) (
          run_command n c.main_address c.secondary_address c.length rest vm middle after
            (λ end. explicit end rest) result b e (simp (goes, stepped) at h)
            (run-explicit n rest after result) c.command goes stepped)
  ]
]

-- Where virtualMachine ends without a failed assertion, it ends alike, with the same flash, on the
-- commands with each chained copy written as a copy to where the last one ended, and without skips.
pub virtual_machine-explicit :
    (commands : List PublicCommand) (flash : Bytes) (n : ℕ) (end : Bool × Bytes)
    → virtual_machine commands flash n ≡ some end
    → virtual_machine (explicit 0 commands) flash n ≡ some end
unfolding virtual_machine
virtual_machine-explicit commands flash n end h = elim (Bool-cases (is_flash_length n)) [
  | inr wrong ↦ simp wrong (simp wrong at h)
  | inl right ↦ elim (Option-cases (run n commands (start flash))) [
    | inl failed ↦ absurd (none-some (simp (right, failed) at h))
    | inr ((result, after), ran) ↦
        let (b, e, same) = run-explicit n commands after result (start flash) false 0 ran in
        rw (right, same) (simp (right, ran) at h)
  ]
]
