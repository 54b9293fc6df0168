-- ===== src/Scheduler/Insert/Keeps.antt =====
-- What insertCommand keeps where it changes the previous command.
use ravens.Base.{
  ℕ, ◌≤◌, ◌≡◌, refl, inl, inr, Bool-cases, Bool, ◌&&◌, some, arith, ◌==◌, if◌then◌else◌,
}
use ravens.Encoder.{Instr, cache_address}
use ravens.Flash.{block_size}
use ravens.Scheduler.{Command, ◌is◌, is_load, is_commit_like, get_public_command}
use ravens.Scheduler.Insert.{Edit, continues, edit_same_block, edit_from_cache, edit_of}
use ravens.VirtualMachine.{Vm, step}
use ravens.VirtualMachine.Explicit.{Shadows}
use ravens.Scheduler.Insert.Rules.{
  not_amend, last_cases, kept_cases-amend, lands, Insertable, flushed_erase, flushed_load,
  erased_commit, loaded_erase, erased_copy, flushed_copy,
}

module _ (n : ℕ) (low : n ≤ cache_address) (vm middle after : Vm) (prev c : Command)
    (ok_prev : Insertable prev) (ok_c : Insertable c)
    (h : step n (get_public_command prev) vm ≡ some middle)
    (g : step n (get_public_command c) middle ≡ some after) where
  last_rules :
      (p : Command)
      → prev.main_block ≡ c.main_block
      → last_cases prev c ≡ Edit.amend p
      → Shadows (step n (get_public_command p) vm) after
  last_rules p same e = elim (Bool-cases (c is Instr.erase && is_load prev)) [
    | inl r4 ↦ lands n low vm middle after _ p (simp r4 at e) (
        loaded_erase n low vm middle after prev c ok_prev ok_c h g same (ground (arith, r4))
          (ground (arith, r4)))
    | inr r4 ↦
        let e4 = simp r4 at e in
        elim (Bool-cases (c is Instr.commit && prev is Instr.erase)) [
          | inl r5 ↦ lands n low vm middle after _ p (simp r5 at e4) (
              erased_commit n low vm middle after prev c ok_prev ok_c h g same (ground (arith, r5))
                (ground (arith, r5)))
          | inr r5 ↦
              let e5 = simp r5 at e4 in
              elim (Bool-cases (c is Instr.load_and_flush && is_commit_like prev)) [
                | inl r6 ↦
                    let e6 = simp r6 at e5 in
                    elim (Bool-cases
                      (prev is Instr.flush_and_partial_commit && prev.length == block_size)) [
                        | inl full ↦ lands n low vm middle after _ p (simp full at e6) (
                            flushed_load n low vm middle after prev c ok_prev ok_c h g same
                              (ground (arith, full)) (ground (arith, full)) (ground (arith, r6)))
                        | inr part ↦ absurd (not_amend Edit.keep p refl (simp part at e6))
                      ]
                | inr r6 ↦ absurd (kept_cases-amend prev c p (simp r6 at e5))
              ]
        ]
  ]

  -- The cases from the erasing of what was just written on.
  later_rules :
      (in_progress : Bool) (p : Command)
      → prev.main_block ≡ c.main_block
      → (if c is Instr.erase && is_commit_like prev
          then (if prev is Instr.commit
              then Edit.remove
              else Edit.amend (record prev { command = Instr.erase }))
          else last_cases prev c)
        ≡ Edit.amend p
      → Shadows (step n (get_public_command p) vm) after
  later_rules in_progress p same e = elim (Bool-cases (c is Instr.erase && is_commit_like prev)) [
    | inl r3 ↦
        let e3 = simp r3 at e in
        elim (Bool-cases (prev is Instr.commit)) [
          | inl commits ↦ absurd (not_amend Edit.remove p refl (simp commits at e3))
          | inr flushes ↦ lands n low vm middle after _ p (simp flushes at e3) (
              flushed_erase n low vm middle after prev c ok_prev ok_c h g same
                (ground (arith, r3, flushes)) (ground (arith, r3)))
        ]
    | inr r3 ↦ last_rules p same (simp r3 at e)
  ]

  same_block-Shadows :
      (in_progress : Bool) (p : Command)
      → prev.main_block ≡ c.main_block
      → edit_same_block in_progress prev c ≡ Edit.amend p
      → Shadows (step n (get_public_command p) vm) after
  unfolding edit_same_block
  same_block-Shadows in_progress p same e = elim (Bool-cases (continues prev c)) [
    | inl goes_on ↦ elim (Bool-cases in_progress) [
      | inl runs ↦ absurd (not_amend (Edit.extend _) p refl (simp (goes_on, runs) at e))
      | inr waits ↦ absurd (not_amend Edit.add p refl (simp (goes_on, waits) at e))
    ]
    | inr r1 ↦ elim (Bool-cases (is_load c && is_commit_like prev)) [
      | inl r2 ↦ absurd (not_amend Edit.keep p refl (simp (r1, r2) at e))
      | inr r2 ↦ later_rules in_progress p same (simp (r1, r2) at e)
    ]
  ]

  from_cache-Shadows :
      (p : Command)
      → c.main_block ≡ cache_address
      → edit_from_cache prev c ≡ Edit.amend p
      → Shadows (step n (get_public_command p) vm) after
  unfolding edit_from_cache
  from_cache-Shadows p from e =
      elim (Bool-cases (
        prev is Instr.erase
        && c is Instr.copy
        && c.main_block_offset == 0
        && c.secondary_block == prev.main_block
        && c.secondary_offset == 0)) [
          | inl r9 ↦ lands n low vm middle after _ p (simp r9 at e) (
              erased_copy n low vm middle after prev c ok_prev ok_c h g (ground (arith, r9))
                (ground (arith, r9)) from (ground (arith, r9)) (ground (arith, r9))
                (ground (arith, r9)))
          | inr r9 ↦
              let e9 = simp r9 at e in
              elim (Bool-cases (
                c is Instr.copy
                && prev is Instr.flush_and_partial_commit
                && c.secondary_block == prev.main_block
                && c.main_block_offset == c.secondary_offset
                && c.main_block_offset == prev.length)) [
                  | inl r10 ↦ lands n low vm middle after _ p (simp r10 at e9) (
                      flushed_copy n low vm middle after prev c ok_prev ok_c h g
                        (ground (arith, r10)) (ground (arith, r10)) from (ground (arith, r10))
                        (ground (arith, r10)) (ground (arith, r10)))
                  | inr r10 ↦ absurd (not_amend Edit.add p refl (simp r10 at e9))
                ]
        ]

-- Where insertCommand changes the previous command to another one that stands for both, which is every
-- change of it but the extension of a COPY, virtualMachine makes the same of flash and cache with the
-- changed command as with the two. The commands are those of the scheduler, and the flash ends below
-- the addresses of the cache.
pub edit_of-Shadows :
    (in_progress : Bool) (prev c p : Command) (n : ℕ) (vm middle after : Vm)
    → n ≤ cache_address
    → Insertable prev
    → Insertable c
    → edit_of in_progress prev c ≡ Edit.amend p
    → step n (get_public_command prev) vm ≡ some middle
    → step n (get_public_command c) middle ≡ some after
    → Shadows (step n (get_public_command p) vm) after
unfolding edit_of
edit_of-Shadows in_progress prev c p n vm middle after low ok_prev ok_c e h g =
    elim (Bool-cases (prev.main_block == c.main_block)) [
      | inl same ↦
          same_block-Shadows n low vm middle after prev c ok_prev ok_c h g in_progress p
            (ground (arith, same)) (simp same at e)
      | inr other ↦
          let e' = simp other at e in
          elim (Bool-cases (c.main_block == cache_address)) [
            | inl cache ↦
                from_cache-Shadows n low vm middle after prev c ok_prev ok_c h g p
                  (ground (arith, cache)) (simp cache at e')
            | inr flash ↦ absurd (not_amend Edit.add p refl (simp flash at e'))
          ]
    ]
