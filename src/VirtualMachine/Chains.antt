-- ===== src/VirtualMachine/Chains.antt =====
-- The order of commands that virtualMachine accepts.
use ravens.Base.{
  ℕ, ◌≡◌, refl, ap, inl, inr, Bool-cases, Bool, true, false, ◌&&◌, Option, none, some, List, [],
  ◌∷◌, leb,
}
use ravens.Base.Maybe.{◌>>=◌, ◌>>◌, check, Option-cases, some_injective, none-some}
use ravens.Base.Memory.{Bytes}
use ravens.Encoder.{Instr, PublicCommand}
use ravens.Flash.{block_size}
use ravens.VirtualMachine.{
  Vm, chain, check_aligned, step_as, step, run, start, is_flash_length, ends_stream,
  virtual_machine, may_skip,
}

-- The commands that a chained_flag copy may follow.
abbrev pub chains : Instr → Bool
chains Instr.erase = false
chains Instr.commit = false
chains Instr.load_and_flush = false
chains Instr.end_of_stream = false
chains _ = true

abbrev pub allowed : (chainable : Bool) → Instr → Bool
allowed chainable Instr.chained_copy = chainable
allowed chainable Instr.end_of_stream = false
allowed chainable _ = true

-- No command ends the stream, and each chained_flag copy follows one of those that it may follow.
unfoldable pub well_chained : (chainable : Bool) → List PublicCommand → Bool
well_chained chainable [] = true
well_chained chainable (c ∷ rest) =
    allowed chainable c.command && well_chained (chains c.command) rest

guarded :
    (o : Option (Unit {0})) (vm after : Vm)
    → (o >> some vm) ≡ some after
    → vm.previous_write_was_copy ≡ after.previous_write_was_copy
guarded none vm after h = absurd (none-some h)
guarded (some u) vm after h = ap (λ (v : Vm). v.previous_write_was_copy) (some_injective h)

unguarded :
    (test : Bool) (r : Option Vm) (after : Vm)
    → (check test >> r) ≡ some after
    → (test ≡ true) × (r ≡ some after)
unguarded false r after h = absurd (none-some h)
unguarded true r after h = (refl, h)

behind :
    (o : Option (Unit {0})) (r : Option Vm) (after : Vm) → (o >> r) ≡ some after → r ≡ some after
behind none r after h = absurd (none-some h)
behind (some u) r after h = h

result_of :
    {A : Type 0} (result here : Bool) (x y : A)
    → ◌≡◌ {A = Option (Bool × A)} (some (result, x)) (some (here, y))
    → result ≡ here
result_of {A} result here x y h = ap (λ (p : Bool × A). p.0) (some_injective h)

chained_flag :
    (o : Option (Unit {0})) (r : Option Vm) (end : ℕ) (after : Vm)
    → (o >> (r >>= λ v. some (chain end v))) ≡ some after
    → true ≡ after.previous_write_was_copy
chained_flag none r end after h = absurd (none-some h)
chained_flag (some u) none end after h = absurd (none-some h)
chained_flag (some u) (some v) end after h =
    ap (λ (v : Vm). v.previous_write_was_copy) (some_injective h)

step_as-chains :
    (i : Instr) (n : ℕ) (c : PublicCommand) (vm after : Vm)
    → ends_stream i ≡ false
    → step_as i n c vm ≡ some after
    → (allowed vm.previous_write_was_copy i ≡ true) × (chains i ≡ after.previous_write_was_copy)
unfolding step_as
step_as-chains Instr.commit n c vm after g h =
    (refl, guarded (check_aligned n c.main_address) _ after h)
step_as-chains Instr.erase n c vm after g h =
    (refl, guarded (check_aligned n c.main_address) _ after h)
step_as-chains Instr.load_and_flush n c vm after g h =
    (refl, guarded (check_aligned n c.main_address) _ after h)
step_as-chains Instr.flush_and_partial_commit n c vm after g h = (
  refl,
  chained_flag (check (leb c.length block_size)) _ _ after
      (behind (check_aligned n c.main_address) _ after h),
)
step_as-chains Instr.chained_copy n c vm after g h = (
  (unguarded vm.previous_write_was_copy _ after h).0,
  chained_flag (check vm.previous_write_was_copy) _ _ after h,
)
step_as-chains Instr.chained_copy_skip n c vm after g h =
    (refl, guarded (check (may_skip n vm.end_previous_copy c.length)) _ after h)
step_as-chains Instr.copy n c vm after g h = (refl, chained_flag (some tt) _ _ after h)
step_as-chains Instr.rebase n c vm after g h = (refl, guarded (some tt) _ after h)
step_as-chains Instr.use_block n c vm after g h = (refl, guarded (some tt) _ after h)
step_as-chains Instr.release_block n c vm after g h = (refl, guarded (some tt) _ after h)
step_as-chains Instr.end_of_stream n c vm after g h = absurd cc

run-well_chained :
    (n : ℕ) (commands : List PublicCommand) (vm after : Vm)
    → run n commands vm ≡ some (true, after)
    → well_chained vm.previous_write_was_copy commands ≡ true
unfolding run well_chained
run-well_chained n [] vm after h = refl
run-well_chained n (c ∷ rest) vm after h = elim (Bool-cases (ends_stream c.command)) [
  | inl ends ↦ absurd (let e : false ≡ true = result_of false true vm after (simp ends at h) in cc)
  | inr goes ↦ elim (Option-cases (step n c vm)) [
    | inl failed ↦ absurd (none-some (simp (goes, failed) at h))
    | inr (middle, stepped) ↦
        let (may, next) = step_as-chains c.command n c vm middle goes stepped in
        rw (may, next) (run-well_chained n rest middle after (simp (goes, stepped) at h))
  ]
]

-- virtualMachine returns true only if the length of the flash is that of whole blocks, no command
-- ends the stream, and each chained_flag copy follows a copy, a partial commit, a skip or a command that
-- only changes the encoding.
pub virtual_machine-well_chained :
    (commands : List PublicCommand) (flash after : Bytes) (n : ℕ)
    → virtual_machine commands flash n ≡ some (true, after)
    → (is_flash_length n ≡ true) × (well_chained false commands ≡ true)
unfolding virtual_machine
virtual_machine-well_chained commands flash after n h = elim (Bool-cases (is_flash_length n)) [
  | inr wrong ↦
      absurd (let e : false ≡ true = result_of false true flash after (simp wrong at h) in cc)
  | inl right ↦ elim (Option-cases (run n commands (start flash))) [
    | inl failed ↦ absurd (none-some (simp (right, failed) at h))
    | inr ((result, last), ran) ↦
        let done : result ≡ true =
          result_of result true last.flash after (simp (right, ran) at h) in
        (right, run-well_chained n commands (start flash) last (rw done at ran))
  ]
]
