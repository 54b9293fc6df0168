-- ===== src/Scheduler/Insert/Amend.antt =====
-- The changes that insertCommand makes to the previous command, on virtualMachine.
use ravens.Base.{
  ℕ, ◌+◌, ◌-◌, ◌≤◌, ◌<◌, ◌≡◌, refl, sym, ap, ◌∙◌, fun_ext, true, false, some, arith, leb,
}
use ravens.Base.Maybe.{check, some_injective}
use ravens.Base.Memory.{Bytes, blit, fill, shift}
use ravens.Encoder.{Instr, PublicCommand, cache_address}
use ravens.Flash.{block_size}
use ravens.VirtualMachine.{
  Vm, Pointer, plus, chain, erased, write_flash, check_aligned, step_as, perform_copy, copy_bytes,
  is_cache,
}
use ravens.VirtualMachine.Explicit.{Shadows}
use ravens.VirtualMachine.Write.{blitted}
use ravens.Scheduler.Insert.Memory.{
  unguarded, checked, bound, shift_nothing, write_flash-some, write_flash-erased, flash_address,
  below_cache, perform_copy-some, copy_from_cache, erased_again, loaded_again,
}

module _ (n : ℕ) (q c p : PublicCommand) (vm middle after : Vm)
    (same : c.main_address ≡ q.main_address) (kept : p.main_address ≡ q.main_address) where
  -- ERASE, COMMIT
  pub erase_commit :
      p.length ≡ block_size
      → step_as Instr.erase n q vm ≡ some middle
      → step_as Instr.commit n c middle ≡ some after
      → Shadows (step_as Instr.flush_and_partial_commit n p vm) after
  unfolding step_as
  erase_commit whole h g =
      let (al, first) = unguarded (check_aligned n q.main_address) _ middle h in
      let (_, second) = unguarded (check_aligned n c.main_address) _ after g in
      (
        true,
        plus q.main_address block_size,
        rw
            (
              kept,
              whole,
              al,
              write_flash-erased q.main_address block_size vm (omega arith),
              ← some_injective second,
              ← some_injective first,
              same,
            )
            refl,
      )

  -- FLUSH_AND_PARTIAL_COMMIT, ERASE
  pub flush_erase :
      step_as Instr.flush_and_partial_commit n q vm ≡ some middle
      → step_as Instr.erase n c middle ≡ some after
      → Shadows (step_as Instr.erase n p vm) after
  unfolding step_as
  flush_erase h g =
      let (al, rest) = unguarded (check_aligned n q.main_address) _ middle h in
      let (short, rest') = unguarded (check (leb q.length block_size)) _ middle rest in
      let small = checked (leb q.length block_size) short in
      let (v, wrote, first) =
        bound (write_flash q.main_address (Pointer.in_cache 0) q.length (erased q.main_address vm))
          _ middle rest' in
      let written = write_flash-some q.length q.main_address 0 (erased q.main_address vm) v wrote in
      let (_, second) = unguarded (check_aligned n c.main_address) _ after g in
      (
        false,
        vm.end_previous_copy,
        rw (kept, al, ← some_injective second, ← some_injective first, same, written)
            (ap (λ (f : Bytes). some (record vm { flash = f; previous_write_was_copy = false }))
              (erased_again vm.flash q.main_address q.length (shift vm.cache 0)
                (ground (arith, small)))),
      )

  -- FLUSH_AND_PARTIAL_COMMIT of a whole block, LOAD_AND_FLUSH
  pub flush_load :
      q.length ≡ block_size
      → step_as Instr.flush_and_partial_commit n q vm ≡ some middle
      → step_as Instr.load_and_flush n c middle ≡ some after
      → Shadows (step_as Instr.erase n p vm) after
  unfolding step_as
  flush_load whole h g =
      let (al, rest) = unguarded (check_aligned n q.main_address) _ middle h in
      let (_, rest') = unguarded (check (leb q.length block_size)) _ middle rest in
      let (v, wrote, first) =
        bound (write_flash q.main_address (Pointer.in_cache 0) q.length (erased q.main_address vm))
          _ middle rest' in
      let written = write_flash-some q.length q.main_address 0 (erased q.main_address vm) v wrote in
      let (_, second) = unguarded (check_aligned n c.main_address) _ after g in
      (
        false,
        vm.end_previous_copy,
        rw (kept, al, ← some_injective second, ← some_injective first, same, written, whole)
            (ap
              (λ (x : Bytes × Bytes).
                some (record vm { flash = x.0; cache = x.1; previous_write_was_copy = false }))
              (loaded_again vm.flash vm.cache q.main_address)),
      )

blit_both :
    (f bytes : Bytes) (m k l : ℕ)
    → blit f m (k + l) bytes ≡ blit (blit f m k bytes) (m + k) l (shift bytes k)
unfolding blit
blit_both f bytes m k l = fun_ext λ a. ground (arith, λ (h : m + k ≤ a). ap bytes (behind a h))
  where
    behind : (a : ℕ) → m + k ≤ a → a - m ≡ k + (a - (m + k))
    behind a h = omega arith

-- COPY from an offset of the cache to the same offset of a block.
module _ (n offset : ℕ) (q c p : PublicCommand) (vm middle after : Vm) (low : n ≤ cache_address)
    (small : offset < block_size) (kept : p.main_address ≡ q.main_address)
    (from : c.main_address ≡ cache_address + offset)
    (to : c.secondary_address ≡ q.main_address + offset) (short : c.length ≤ block_size) where
  copy_step :
      check_aligned n q.main_address ≡ some tt
      → step_as Instr.copy n c middle ≡ some after
      → (offset + c.length ≤ block_size)
        × (after
            ≡ chain
                (plus (q.main_address + offset) c.length)
                (blitted middle (q.main_address + offset) c.length (shift middle.cache offset)))
  unfolding step_as
  copy_step al g =
      let (v, copied, second) =
        bound (perform_copy n c.main_address c.length c.secondary_address middle) _ after g in
      let (inside, written) =
        perform_copy-some n c.main_address c.length c.secondary_address middle v copied in
      let (under, whole) = flash_address n q.main_address low al in
      let out = below_cache (q.main_address + offset) (omega (arith, under, whole)) in
      let last =
        copy_from_cache c.length (q.main_address + offset) offset middle v small out
          (rw (from, to) at written) in
      (omega (arith, rw to at inside, whole), sym (some_injective second) ∙ rw (to, last) refl)

  -- ERASE, COPY from the beginning of the cache
  pub erase_copy :
      offset ≡ 0
      → p.length ≡ c.length
      → step_as Instr.erase n q vm ≡ some middle
      → step_as Instr.copy n c middle ≡ some after
      → Shadows (step_as Instr.flush_and_partial_commit n p vm) after
  unfolding step_as
  erase_copy start size h g =
      let (al, first) = unguarded (check_aligned n q.main_address) _ middle h in
      let (inside, last) = copy_step al g in
      let fits : leb c.length block_size ≡ true = ground (arith, inside) in
      let here : q.main_address + offset ≡ q.main_address = omega arith in
      let cache : shift vm.cache offset ≡ vm.cache =
        ap (shift vm.cache) start ∙ shift_nothing vm.cache in
      (
        true,
        plus q.main_address c.length,
        rw
            (
              kept,
              size,
              al,
              fits,
              write_flash-erased q.main_address c.length vm (omega (arith, inside)),
              last,
              ← some_injective first,
              here,
              cache,
            )
            refl,
      )

  -- FLUSH_AND_PARTIAL_COMMIT, COPY of what follows in the cache
  pub flush_copy :
      q.length ≡ offset
      → p.length ≡ q.length + c.length
      → step_as Instr.flush_and_partial_commit n q vm ≡ some middle
      → step_as Instr.copy n c middle ≡ some after
      → Shadows (step_as Instr.flush_and_partial_commit n p vm) after
  unfolding step_as
  flush_copy begin size h g =
      let (al, rest) = unguarded (check_aligned n q.main_address) _ middle h in
      let (_, rest') = unguarded (check (leb q.length block_size)) _ middle rest in
      let (v, wrote, first) =
        bound (write_flash q.main_address (Pointer.in_cache 0) q.length (erased q.main_address vm))
          _ middle rest' in
      let written = write_flash-some q.length q.main_address 0 (erased q.main_address vm) v wrote in
      let (inside, last) = copy_step al g in
      let fits : leb (q.length + c.length) block_size ≡ true = ground (arith, inside) in
      let length = q.length + c.length in
      (
        true,
        plus q.main_address length,
        rw
            (
              kept,
              size,
              al,
              fits,
              write_flash-erased q.main_address length vm (omega (arith, inside)),
              last,
              ← some_injective first,
              written,
              ← begin,
              shift_nothing vm.cache,
            )
            (ap (λ (f : Bytes). some (chain (plus q.main_address length) (record vm { flash = f })))
              (blit_both (fill vm.flash q.main_address block_size 0xff) vm.cache q.main_address
                q.length c.length)),
      )

-- COPY of a block to the cache, ERASE
pub load_erase :
    (n : ℕ) (q c p : PublicCommand) (vm middle after : Vm)
    → n ≤ cache_address
    → c.main_address ≡ q.main_address
    → p.main_address ≡ q.main_address
    → q.length ≡ block_size
    → q.secondary_address ≡ cache_address
    → step_as Instr.copy n q vm ≡ some middle
    → step_as Instr.erase n c middle ≡ some after
    → Shadows (step_as Instr.load_and_flush n p vm) after
unfolding step_as copy_bytes is_cache
load_erase n q c p vm middle after low same kept whole to h g =
    let (v, copied, first) =
      bound (perform_copy n q.main_address q.length q.secondary_address vm) _ middle h in
    let (_, written) =
      perform_copy-some n q.main_address q.length q.secondary_address vm v copied in
    let (al, second) = unguarded (check_aligned n c.main_address) _ after g in
    let al' = rw same at al in
    let out = below_cache q.main_address ((flash_address n q.main_address low al').0) in
    let loaded = some_injective (simp (to, whole, out) at written) in
    (
      false,
      vm.end_previous_copy,
      rw (kept, al', ← some_injective second, ← some_injective first, ← loaded, same) refl,
    )
