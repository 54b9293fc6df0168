-- ===== src/VirtualMachine/Explicit.antt =====
-- Chained copies of virtualMachine as an abbreviation of copies.
pub mod Runs
use ravens.Base.{
  ℕ, zero, suc, ◌+◌, ◌%◌, ◌≡◌, ◌≢◌, refl, sym, ap, ◌∙◌, inl, inr, Bool-cases, Bool, true, false,
  Option, none, some, List, [], ◌∷◌, arith, ◌==◌, leb, if◌then◌else◌,
}
use ravens.Base.Maybe.{◌>>=◌, ◌>>◌, check, Option-cases, some_injective, none-some}
use ravens.Base.Memory.{Bytes}
use ravens.Encoder.{Instr, PublicCommand}
use ravens.Flash.{block_size}
use ravens.VirtualMachine.Write.{blitted}
use ravens.VirtualMachine.{
  Vm, Pointer, plus, chain, write_flash, next, at_pointer, copy_bytes, perform_copy, fits, is_cache,
  erased, check_aligned, step_as, step, run, start, outcome, is_flash_length, ends_stream,
  virtual_machine, may_skip,
}

-- The command as a copy, if it is chained, before what its end makes of the others.
abbrev pub explicit_as :
    Instr → (end : ℕ) → PublicCommand → (ℕ → List PublicCommand) → List PublicCommand
explicit_as Instr.chained_copy end c rest =
    record c { command = Instr.copy; secondary_address = end } ∷ rest (plus end c.length)
explicit_as Instr.chained_copy_skip end c rest = rest (plus end c.length)
explicit_as Instr.copy end c rest = c ∷ rest (plus c.secondary_address c.length)
explicit_as Instr.flush_and_partial_commit end c rest = c ∷ rest (plus c.main_address c.length)
explicit_as _ end c rest = c ∷ rest end

-- The commands with each chained copy as a copy to where the last one ended, and without the skips.
unfoldable pub explicit : (end : ℕ) → List PublicCommand → List PublicCommand
explicit end [] = []
explicit end (c ∷ rest) = explicit_as c.command end c (λ at. explicit at rest)

-- The same memory, with other locals.
abbrev pub aside : Bool → ℕ → Vm → Vm
aside b e vm = record vm { previous_write_was_copy = b; end_previous_copy = e }

abbrev aside_option : Bool → ℕ → Option Vm → Option Vm
aside_option b e none = none
aside_option b e (some vm) = some (aside b e vm)

at_pointer-aside :
    (b : Bool) (e : ℕ) (source : Pointer) (vm : Vm)
    → at_pointer source (aside b e vm) ≡ at_pointer source vm
at_pointer-aside b e (Pointer.in_flash a) vm = refl
at_pointer-aside b e (Pointer.in_cache a) vm = refl

write_flash-aside :
    (b : Bool) (e length dest : ℕ) (source : Pointer) (vm : Vm)
    → write_flash dest source length (aside b e vm)
      ≡ aside_option b e (write_flash dest source length vm)
unfolding write_flash
write_flash-aside b e zero dest source vm = refl
write_flash-aside b e (suc length) dest source vm = elim (Bool-cases (vm.flash dest == 0xff)) [
  | inr programmed ↦ simp programmed
  | inl is_erased ↦ simp is_erased (
      rw (at_pointer-aside b e source vm) (
        write_flash-aside b e length (dest + 1) (next source)
          (blitted vm dest 1 (at_pointer source vm))))
]

copy_bytes-aside :
    (b : Bool) (e source length dest : ℕ) (vm : Vm)
    → copy_bytes source length dest (aside b e vm)
      ≡ aside_option b e (copy_bytes source length dest vm)
unfolding copy_bytes
copy_bytes-aside b e source length dest vm = elim (Bool-cases (is_cache dest)) [
  | inl to_cache ↦ simp to_cache
  | inr to_flash ↦ elim (Bool-cases (is_cache source)) [
    | inl from_cache ↦
        simp (to_flash, from_cache)
          (write_flash-aside b e length dest (Pointer.in_cache (source % block_size)) vm)
    | inr from_flash ↦
        simp (to_flash, from_flash) (write_flash-aside b e length dest (Pointer.in_flash source) vm)
  ]
]

pub perform_copy-aside :
    (b : Bool) (e n source length dest : ℕ) (vm : Vm)
    → perform_copy n source length dest (aside b e vm)
      ≡ aside_option b e (perform_copy n source length dest vm)
unfolding perform_copy
perform_copy-aside b e n source length dest vm =
    rw (copy_bytes-aside b e source length dest vm) (ground arith)

-- A machine with the memory of `vm`.
abbrev pub Shadows : Option Vm → Vm → Type 0
Shadows o vm = (b : Bool) × (e : ℕ) × (o ≡ some (aside b e vm))

Shadows-guarded :
    (o : Option (Unit {0})) (vm after : Vm) (b : Bool) (e : ℕ)
    → (o >> some vm) ≡ some after
    → Shadows (o >> some (aside b e vm)) after
Shadows-guarded none vm after b e h = absurd (none-some h)
Shadows-guarded (some u) vm after b e h =
    (b, e, ap (λ (v : Vm). some (aside b e v)) (some_injective h))

Shadows-after :
    (o : Option (Unit {0})) (r r' : Option Vm) (after : Vm)
    → (o >> r) ≡ some after
    → (r ≡ some after → Shadows r' after)
    → Shadows (o >> r') after
Shadows-after none r r' after h f = absurd (none-some h)
Shadows-after (some u) r r' after h f = f h

Shadows-chain :
    (o : Option Vm) (after : Vm) (b : Bool) (e end : ℕ)
    → (o >>= λ v. some (chain end v)) ≡ some after
    → Shadows (aside_option b e o >>= λ v. some (chain end v)) after
Shadows-chain none after b e end h = absurd (none-some h)
Shadows-chain (some v) after b e end h =
    (true, end, ap (λ (x : Vm). some (aside true end x)) (some_injective h))

pub copied :
    (n main length dest end : ℕ) (vm after : Vm) (b : Bool) (e : ℕ)
    → (perform_copy n main length dest vm >>= λ v. some (chain end v)) ≡ some after
    → Shadows (perform_copy n main length dest (aside b e vm) >>= λ v. some (chain end v)) after
copied n main length dest end vm after b e h =
    rw (perform_copy-aside b e n main length dest vm) (Shadows-chain _ after b e end h)

-- A command that is neither chained nor a skip does the same to the memory, whatever the locals are.
pub step_as-aside :
    (i : Instr) (n : ℕ) (c : PublicCommand) (vm after : Vm) (b : Bool) (e : ℕ)
    → i ≢ Instr.chained_copy
    → i ≢ Instr.chained_copy_skip
    → step_as i n c vm ≡ some after
    → Shadows (step_as i n c (aside b e vm)) after
unfolding step_as
step_as-aside Instr.commit n c vm after b e f g h =
    Shadows-guarded (check_aligned n c.main_address) _ after false e h
step_as-aside Instr.erase n c vm after b e f g h =
    Shadows-guarded (check_aligned n c.main_address) _ after false e h
step_as-aside Instr.load_and_flush n c vm after b e f g h =
    Shadows-guarded (check_aligned n c.main_address) _ after false e h
step_as-aside Instr.flush_and_partial_commit n c vm after b e f g h =
    Shadows-after (check_aligned n c.main_address) _ _ after h λ h'.
      Shadows-after (check (leb c.length block_size)) _ _ after h' λ h''.
        rw
          (write_flash-aside b e c.length c.main_address (Pointer.in_cache 0)
            (erased c.main_address vm))
          (Shadows-chain _ after b e _ h'')
step_as-aside Instr.chained_copy n c vm after b e f g h = absurd (f refl)
step_as-aside Instr.chained_copy_skip n c vm after b e f g h = absurd (g refl)
step_as-aside Instr.copy n c vm after b e f g h =
    copied n c.main_address c.length c.secondary_address _ vm after b e h
step_as-aside Instr.rebase n c vm after b e f g h =
    (true, e, ap (λ (v : Vm). some (aside true e v)) (some_injective h))
step_as-aside Instr.use_block n c vm after b e f g h =
    (true, e, ap (λ (v : Vm). some (aside true e v)) (some_injective h))
step_as-aside Instr.release_block n c vm after b e f g h =
    (true, e, ap (λ (v : Vm). some (aside true e v)) (some_injective h))
step_as-aside Instr.end_of_stream n c vm after b e f g h =
    (b, e, ap (λ (v : Vm). some (aside b e v)) (some_injective h))
