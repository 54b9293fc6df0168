-- ===== src/VirtualMachine/Frame.antt =====
-- virtualMachine writes inside the flash and the cache.
use ravens.Base.{
  ℕ, zero, suc, ◌+◌, ◌%◌, ◌^◌, ◌≤◌, ◌<◌, ◌≡◌, refl, subst, ◌∙◌, inl, inr, Bool-cases, Bool, true,
  false, ◌&&◌, Option, none, some, List, [], ◌∷◌, arith, ◌==◌, leb, ltb,
}
use ravens.Base.Maybe.{◌>>=◌, ◌>>◌, check, Option-cases, some_injective, none-some}
use ravens.Base.Memory.{Bytes, blit, fill, shift}
use ravens.Encoder.{Instr, PublicCommand, cache_address}
use ravens.Flash.{block_size}
use ravens.VirtualMachine.{
  Vm, Pointer, plus, chain, next, at_pointer, write_flash, copy_bytes, perform_copy, fits, is_cache,
  erased, check_aligned, step_as, step, run, start, is_flash_length, ends_stream, virtual_machine,
  may_skip,
}

-- No length is near the end of `size_t`.
abbrev pub AllShort : List PublicCommand → Type 0
AllShort [] = Unit
AllShort (c ∷ rest) = (c.length < 2 ^ 63) × AllShort rest

-- No byte behind the flash or behind the cache differs.
pub record Inside (n : ℕ) (before after : Vm) : Type 0 where
  pub flash_same : (a : ℕ) → n ≤ a → after.flash a ≡ before.flash a
  pub cache_same : (a : ℕ) → block_size ≤ a → after.cache a ≡ before.cache a

-- The same of a result, if there is one.
abbrev InsideAll : ℕ → Vm → Option Vm → Type 0
InsideAll n before none = Unit
InsideAll n before (some after) = Inside n before after

Inside-refl : (n : ℕ) (vm : Vm) → Inside n vm vm
Inside-refl n vm = record { flash_same = λ a h. refl; cache_same = λ a h. refl }

Inside-trans : {n : ℕ} {x y z : Vm} → Inside n x y → Inside n y z → Inside n x z
Inside-trans p q = record {
  flash_same = λ a h. q.flash_same a h ∙ p.flash_same a h;
  cache_same = λ a h. q.cache_same a h ∙ p.cache_same a h;
}

-- The locals do not matter.
locals :
    (b : Bool) (e n : ℕ) (before after : Vm)
    → Inside n before after
    → Inside n before (record after { previous_write_was_copy = b; end_previous_copy = e })
locals b e n before after h = record { flash_same = h.flash_same; cache_same = h.cache_same }

module _ (n : ℕ) (before : Vm) where
  checked :
      (test : Bool) (r : Option Vm)
      → (test ≡ true → InsideAll n before r)
      → InsideAll n before (check test >> r)
  checked true r h = h refl
  checked false r h = tt

  aligned :
      (address : ℕ) (r : Option Vm)
      → (address % block_size ≡ 0 → address < n → InsideAll n before r)
      → InsideAll n before (check_aligned n address >> r)
  unfolding check_aligned
  aligned address r h = elim (Bool-cases (address % block_size == 0)) [
    | inr other ↦ simp other tt
    | inl whole ↦ elim (Bool-cases (ltb address n)) [
      | inr behind ↦ simp (whole, behind) tt
      | inl under ↦ simp (whole, under) (h (ground arith) (ground arith))
    ]
  ]

  InsideAll-chain :
      (o : Option Vm) (end : ℕ)
      → InsideAll n before o
      → InsideAll n before (o >>= λ v. some (chain end v))
  InsideAll-chain none end h = tt
  InsideAll-chain (some v) end h = record { flash_same = h.flash_same; cache_same = h.cache_same }

  after_first :
      (middle : Vm) (o : Option Vm)
      → Inside n before middle
      → InsideAll n middle o
      → InsideAll n before o
  after_first middle none p q = tt
  after_first middle (some v) p q = Inside-trans p q

blitted-Inside :
    (n dest length : ℕ) (bytes : Bytes) (vm : Vm)
    → dest + length ≤ n
    → Inside n vm (record vm { flash = blit vm.flash dest length bytes })
unfolding blit
blitted-Inside n dest length bytes vm h = record {
  flash_same = λ a behind. ground arith;
  cache_same = λ a behind. refl;
}

write_flash-Inside :
    (n length dest : ℕ) (source : Pointer) (vm : Vm)
    → dest + length ≤ n
    → InsideAll n vm (write_flash dest source length vm)
unfolding write_flash
write_flash-Inside n zero dest source vm h = Inside-refl n vm
write_flash-Inside n (suc length) dest source vm h = checked n vm (vm.flash dest == 0xff) _ λ _.
    after_first n vm _
      (write_flash (dest + 1) (next source) length
        (record vm { flash = blit vm.flash dest 1 (at_pointer source vm) }))
      (blitted-Inside n dest 1 (at_pointer source vm) vm (omega arith))
      (write_flash-Inside n length (dest + 1) (next source) _ (omega arith))

cached-Inside :
    (n dest length : ℕ) (bytes : Bytes) (vm : Vm)
    → dest + length ≤ block_size
    → Inside n vm (record vm { cache = blit vm.cache dest length bytes })
unfolding blit
cached-Inside n dest length bytes vm h = record {
  flash_same = λ a behind. refl;
  cache_same = λ a behind. ground arith;
}

erased-Inside :
    (n address : ℕ) (vm : Vm) → address + block_size ≤ n → Inside n vm (erased address vm)
unfolding fill
erased-Inside n address vm h = record {
  flash_same = λ a behind. ground arith;
  cache_same = λ a behind. refl;
}

fits-inside :
    (n length dest : ℕ)
    → n ≤ cache_address
    → length < 2 ^ 63
    → is_cache dest ≡ false
    → fits n dest length ≡ true
    → dest + length ≤ n
unfolding fits
fits-inside n length dest low short out fit =
    let test : (ltb dest n && leb (plus dest length) n) ≡ true = simp out at fit in
    ground (arith, test)

copy_bytes-Inside :
    (n source length dest : ℕ) (vm : Vm)
    → n ≤ cache_address
    → length < 2 ^ 63
    → leb (plus (dest % block_size) length) block_size ≡ true
    → fits n dest length ≡ true
    → InsideAll n vm (copy_bytes source length dest vm)
unfolding copy_bytes fits
copy_bytes-Inside n source length dest vm low short whole fit = elim (Bool-cases (is_cache dest)) [
  | inl to_cache ↦ simp to_cache (cached-Inside n (dest % block_size) length _ vm (ground arith))
  | inr to_flash ↦ elim (Bool-cases (is_cache source)) [
    | inl from_cache ↦
        simp (to_flash, from_cache)
          (write_flash-Inside n length dest _ vm (fits-inside n length dest low short to_flash fit))
    | inr from_flash ↦
        simp (to_flash, from_flash)
          (write_flash-Inside n length dest _ vm (fits-inside n length dest low short to_flash fit))
  ]
]

perform_copy-Inside :
    (n source length dest : ℕ) (vm : Vm)
    → n ≤ cache_address
    → length < 2 ^ 63
    → InsideAll n vm (perform_copy n source length dest vm)
unfolding perform_copy
perform_copy-Inside n source length dest vm low short =
    checked n vm (leb (plus (dest % block_size) length) block_size) _ λ whole.
      checked n vm (fits n source length) _ λ _.
        checked n vm (fits n dest length) _
          λ fit. copy_bytes-Inside n source length dest vm low short whole fit

-- A block of the flash ends in it.
whole_block :
    (n address : ℕ)
    → n % block_size ≡ 0
    → address % block_size ≡ 0
    → address < n
    → address + block_size ≤ n
whole_block n address h g under = omega arith

module _ (n : ℕ) (low : n ≤ cache_address) (blocks : n % block_size ≡ 0) where
  step_as-Inside :
      (i : Instr) (c : PublicCommand) (vm : Vm)
      → c.length < 2 ^ 63
      → InsideAll n vm (step_as i n c vm)
  unfolding step_as
  step_as-Inside Instr.commit c vm short = aligned n vm c.main_address _ λ at under.
      locals false _ n vm _ (
        blitted-Inside n c.main_address block_size vm.cache vm
          (whole_block n c.main_address blocks at under))
  step_as-Inside Instr.erase c vm short = aligned n vm c.main_address _ λ at under.
      locals false _ n vm _
        (erased-Inside n c.main_address vm (whole_block n c.main_address blocks at under))
  step_as-Inside Instr.load_and_flush c vm short = aligned n vm c.main_address _ λ at under.
      locals false _ n vm _ (
        Inside-trans (cached-Inside n 0 block_size (shift vm.flash c.main_address) vm (omega arith))
          (erased-Inside n c.main_address _ (whole_block n c.main_address blocks at under)))
  step_as-Inside Instr.flush_and_partial_commit c vm short =
      aligned n vm c.main_address _ λ at under. checked n vm (leb c.length block_size) _ λ fit.
        InsideAll-chain n vm _ _ (
          after_first n vm _
            (write_flash c.main_address (Pointer.in_cache 0) c.length (erased c.main_address vm))
            (erased-Inside n c.main_address vm (whole_block n c.main_address blocks at under))
            (write_flash-Inside n c.length c.main_address _ _
              (ground (arith, whole_block n c.main_address blocks at under))))
  step_as-Inside Instr.chained_copy c vm short = checked n vm vm.previous_write_was_copy _ λ _.
      InsideAll-chain n vm _ _
        (perform_copy-Inside n c.main_address c.length vm.end_previous_copy vm low short)
  step_as-Inside Instr.copy c vm short =
      InsideAll-chain n vm _ _
        (perform_copy-Inside n c.main_address c.length c.secondary_address vm low short)
  step_as-Inside Instr.chained_copy_skip c vm short =
      let end = plus vm.end_previous_copy c.length in
      checked n vm (may_skip n vm.end_previous_copy c.length) (some (chain end vm))
        λ _. locals true end n vm vm (Inside-refl n vm)
  step_as-Inside Instr.rebase c vm short = locals true _ n vm vm (Inside-refl n vm)
  step_as-Inside Instr.use_block c vm short = locals true _ n vm vm (Inside-refl n vm)
  step_as-Inside Instr.release_block c vm short = locals true _ n vm vm (Inside-refl n vm)
  step_as-Inside Instr.end_of_stream c vm short = Inside-refl n vm

  run-Inside :
      (commands : List PublicCommand) (vm : Vm) (end : Bool × Vm)
      → AllShort commands
      → run n commands vm ≡ some end
      → Inside n vm end.1
  unfolding run
  run-Inside [] vm end short h =
      subst (λ (p : Bool × Vm). Inside n vm p.1) (some_injective h) (Inside-refl n vm)
  run-Inside (c ∷ rest) vm end short h = elim (Bool-cases (ends_stream c.command)) [
    | inl ends ↦
        subst (λ (p : Bool × Vm). Inside n vm p.1) (some_injective (simp ends at h))
          (Inside-refl n vm)
    | inr goes ↦ elim (Option-cases (step n c vm)) [
      | inl failed ↦ absurd (none-some (simp (goes, failed) at h))
      | inr (middle, stepped) ↦
          Inside-trans (subst (InsideAll n vm) stepped (step_as-Inside c.command c vm short.0))
            (run-Inside rest middle end short.1 (simp (goes, stepped) at h))
    ]
  ]

-- If no length is near the end of `size_t` and the flash ends below the addresses of the cache,
-- virtualMachine leaves each byte behind the flash as it was, whatever the commands are.
pub virtual_machine-outside :
    (commands : List PublicCommand) (flash : Bytes) (n : ℕ) (end : Bool × Bytes) (a : ℕ)
    → AllShort commands
    → n ≤ cache_address
    → virtual_machine commands flash n ≡ some end
    → n ≤ a
    → end.1 a ≡ flash a
unfolding virtual_machine
virtual_machine-outside commands flash n end a short low h behind =
    elim (Bool-cases (is_flash_length n)) [
      | inr wrong ↦
          subst (λ (p : Bool × Bytes). p.1 a ≡ flash a) (some_injective (simp wrong at h)) refl
      | inl right ↦ elim (Option-cases (run n commands (start flash))) [
        | inl failed ↦ absurd (none-some (simp (right, failed) at h))
        | inr (last, ran) ↦
            let inside = run-Inside n low (ground arith) commands (start flash) last short ran in
            subst (λ (p : Bool × Bytes). p.1 a ≡ flash a) (some_injective (simp (right, ran) at h))
              (inside.flash_same a behind)
      ]
    ]
