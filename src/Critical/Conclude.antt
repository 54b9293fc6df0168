-- ===== src/Critical/Conclude.antt =====
-- concludeUpdate against a loss of power: whatever operation on the flash it comes before,
-- validateCriticalMetadata finds the old page or the new one.
use ravens.Base.{
  ℕ, ◌+◌, ◌-◌, ◌≤◌, ◌<◌, ◌≡◌, refl, ap, ◌∙◌, inl, inr, ◌⊎◌, Bool, true, arith, Bool-cases,
  if◌then◌else◌,
}
use ravens.Base.Memory.{Bytes, shift, blit, fill}
use ravens.Critical.{at_valid, page_valid, set_valid, concludes, install_page, conclude_update}
use ravens.Critical.Recovery.{Holds, rewritten, rewritten-Holds}
use ravens.Device.{Device, skip}
use ravens.Device.Ends.{Ends, ended, bind, mono, erase-Ends, write-Ends}
use ravens.Device.Fields.{read_le-eq}
use ravens.Metadata.{valid_64b_value, is_metadata_valid}
use ravens.Platform.{Platform, IsFlash, IsLayout}
use ravens.Critical.Install.{
  Recovers, copied, next_page, concluded_copy-copied, valid_kept, rewritten-valid,
  write_critical-Ends,
}

-- concludeUpdate on a device with a valid page of critical metadata and a valid page of metadata.
module _ {p : Platform} (flash : IsFlash p) (layout : IsLayout p) (with_error : Bool) (d : Device)
    (valid : page_valid (shift d.nand p.critical_metadata) ≡ valid_64b_value)
    (metadata : (is_metadata_valid d.nand p.update_metadata_main ≡ true)
      ⊎ (is_metadata_valid d.nand p.update_metadata_sec ≡ true)) where
  abbrev backup_erased : Bytes
  backup_erased = fill d.nand p.backup_cache1 4096 0xff

  -- Erasing the backup leaves the other pages as they are.
  metadata_kept :
      (page : ℕ)
      → (p.backup_cache1 + 4096 ≤ page) ⊎ (page + 4096 ≤ p.backup_cache1)
      → is_metadata_valid backup_erased page ≡ is_metadata_valid d.nand page
  unfolding is_metadata_valid
  metadata_kept page apart = ground (
    arith,
    read_le-eq backup_erased d.nand (page + 4072 + 8) (page + 4072 + 8) 8
        (λ i h. unfold fill in ground arith),
    read_le-eq backup_erased d.nand (page + 4072 + 16) (page + 4072 + 16) 8
        (λ i h. unfold fill in ground arith),
  )

  critical_kept :
      (i : ℕ)
      → i < 4096
      → backup_erased (p.critical_metadata + i) ≡ d.nand (p.critical_metadata + i)
  unfolding fill
  critical_kept i h = ground (arith, layout.critical_backup1)

  -- The page before, and the one that is to replace it.
  abbrev old_page : Bytes
  old_page = shift d.nand p.critical_metadata

  abbrev new_page : Bytes
  new_page = set_valid (next_page p backup_erased with_error) valid_64b_value

  -- As long as the page itself was not touched, it is found as it was.
  untouched :
      (e : Device)
      → ((i : ℕ) → i < 4096 → e.nand (p.critical_metadata + i) ≡ old_page i)
      → Recovers p old_page new_page e
  untouched e same =
      valid_kept flash layout old_page new_page e
        (unfold page_valid in
          read_le-eq (shift e.nand p.critical_metadata) old_page at_valid at_valid 8
            (λ i h. same (at_valid + i) (omega arith))
          ∙ valid)
        (inl same)

  backed_kept :
      (next : Bytes) (i : ℕ)
      → i < 4096
      → blit backup_erased p.backup_cache1 4096 next (p.critical_metadata + i) ≡ old_page i
  unfolding blit fill
  backed_kept next i h = ground (arith, layout.critical_backup1)

  backed_up :
      (e : Device)
      → e.nand ≡ backup_erased
      → (copy : Bytes) → copy ≡ copied p backup_erased with_error
      → Ends
          (Recovers p old_page new_page)
          (λ _ f.
            f.nand
            ≡ rewritten p
                (blit backup_erased p.backup_cache1 4096 (next_page p backup_erased with_error))
                (next_page p backup_erased with_error))
          (install_page p copy e)
  unfolding next_page install_page
  backed_up e erased copy is_copy = rw is_copy (
      bind
        {P = λ _ f.
          f.nand ≡ blit backup_erased p.backup_cache1 4096 (next_page p backup_erased with_error)}
        (write-Ends flash e p.backup_cache1 4096 _ (omega (arith, layout.backup1_aligned))
          (rw erased (λ i h. unfold fill in ground arith)) (untouched e (rw erased critical_kept))
          (λ power. rw erased))
        λ _ f backed.
          (rw (← backed) (
            write_critical-Ends flash layout old_page (next_page p backup_erased with_error) f
              (rw backed (λ i h.
                unfold blit in
                ground (arith, ap (next_page p backup_erased with_error) (the_byte i))))
              (untouched f (rw backed (backed_kept (next_page p backup_erased with_error)))))))
    where
      the_byte : (i : ℕ) → p.backup_cache1 + i - p.backup_cache1 ≡ i
      the_byte i = omega arith

  metadata_found :
      (e : Device)
      → e.nand ≡ backup_erased
      → (is_metadata_valid e.nand p.update_metadata_main ≡ true)
        ⊎ (is_metadata_valid e.nand p.update_metadata_sec ≡ true)
  metadata_found e erased = elim metadata [
    | inl main ↦ inl (rw erased (metadata_kept p.update_metadata_main layout.backup1_main ∙ main))
    | inr sec ↦ inr (rw erased (metadata_kept p.update_metadata_sec layout.backup1_sec ∙ sec))
  ]

  -- The outcome of concludeUpdate, up to the interrupts.
  abbrev Concluded : Device → Type 0
  Concluded e =
      ((g : Device) → g.nand ≡ e.nand → Recovers p old_page new_page g)
      × (concludes with_error (copied p backup_erased with_error) ≡ true
          → Holds e.nand p.critical_metadata new_page)

  installed :
      (e : Device)
      → e.nand
        ≡ rewritten p
            (blit backup_erased p.backup_cache1 4096 (next_page p backup_erased with_error))
            (next_page p backup_erased with_error)
      → Concluded e
  installed e same = (
    λ g kept.
        valid_kept flash layout old_page new_page g
          (rw (kept, same) (rewritten-valid flash layout _ _)) (inr (rw kept held)),
    λ _. held,
  )
    where
      held : Holds e.nand p.critical_metadata new_page
      held = rw same (rewritten-Holds flash layout _ _)

  concluded :
      (e : Device)
      → e.nand ≡ backup_erased
      → (copy : Bytes) → copy ≡ copied p backup_erased with_error
      → Ends
          (Recovers p old_page new_page)
          (λ _ f. Concluded f)
          ((if concludes with_error copy then install_page p copy else skip) e)
  concluded e erased copy is_copy = elim (Bool-cases (concludes with_error copy)) [
    | inl install ↦
        simp install (mono (backed_up e erased copy is_copy) (λ _ f same. installed f same))
    | inr skipped ↦ simp skipped (
        ended (
          (λ g kept. untouched g (rw (kept, erased) critical_kept)),
          λ h. cc (ap (concludes with_error) is_copy),
        ))
  ]

  -- On a device whose critical page is valid, as is a page of its metadata, and on flash and a layout
  -- as required: concludeUpdate installs the next page unless an update that had started ends with an error. It
  -- never meets a fault. Cut before any operation on the flash, it leaves the device so that the
  -- recovery at the next boot succeeds, with the old page or with the new one, whole and valid;
  -- where it ends, interrupts are enabled, and the new page is in place if it was to be installed.
  pub conclude_update-Recovers :
      Ends
        (Recovers p old_page new_page)
        (λ _ e.
          (e.irq_enabled ≡ true)
          × Recovers p old_page new_page e
          × (concludes with_error (copied p backup_erased with_error) ≡ true
              → Holds e.nand p.critical_metadata new_page))
        (conclude_update p with_error d)
  unfolding conclude_update
  conclude_update-Recovers =
      bind {P = λ _ e. e.nand ≡ backup_erased}
        (erase-Ends flash d p.backup_cache1 layout.backup1_aligned (untouched d (λ i h. refl))
          (λ power. refl))
        λ _ e erased.
          (rw (concluded_copy-copied p with_error e (metadata_found e erased)) (
            bind
              (concluded e erased (copied p e.nand with_error)
                (ap (λ (n : Bytes). copied p n with_error) erased))
              λ _ f done. (ended (refl, done.0 (record f { irq_enabled = true }) refl, done.1))))
