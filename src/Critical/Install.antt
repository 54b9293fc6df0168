-- ===== src/Critical/Install.antt =====
-- The installation of a page of critical metadata against a loss of power.
use ravens.Base.{
  ℕ, ◌+◌, ◌-◌, ◌<◌, ◌≡◌, ◌≢◌, refl, ap, ◌∙◌, inr, ◌⊎◌, Bool, true, false, none, arith,
  if◌then◌else◌,
}
use ravens.Base.Memory.{Bytes, shift, blit, fill}
use ravens.Critical.{
  at_valid, page_valid, set_valid, set_update_in_progress, set_installed, write_critical,
  validate_critical_metadata, concluded_copy,
}
use ravens.Critical.Recovery.{
  Holds, rewritten, validate-kept, validate-restored, rewritten-Holds, page-IsErased, flag-IsErased,
}
use ravens.Device.{Device, ok, read_le, le_bytes}
use ravens.Device.Ends.{Ends, ended, bind, erase-Ends, write-Ends}
use ravens.Device.Fields.{read_le_erased, read_le_marked}
use ravens.Metadata.{
  valid_64b_value, default_64b_flash_value, is_metadata_valid, get_metadata, at_location,
}
use ravens.Platform.{Platform, IsFlash, IsLayout, IsErased}

-- When the power is back, the recovery succeeds and leaves a valid page: the old or the new one.
abbrev pub Recovers : Platform → (old new : Bytes) → Device → Type 0
Recovers p old new d =
    (e : Device) × (validate_critical_metadata p (record d { power = none }) ≡ ok tt e)
    × (page_valid (shift e.nand p.critical_metadata) ≡ valid_64b_value)
    × (Holds e.nand p.critical_metadata old ⊎ Holds e.nand p.critical_metadata new)

-- The page of the metadata that getMetadata returns, and the copy that concludeUpdate makes.
abbrev pub metadata_page : Platform → Bytes → ℕ
metadata_page p nand =
    if is_metadata_valid nand p.update_metadata_main
    then p.update_metadata_main
    else p.update_metadata_sec

abbrev pub copied : Platform → Bytes → Bool → Bytes
copied p nand with_error =
    let page = shift nand p.critical_metadata in
    if with_error
    then page
    else set_installed page nand (read_le nand (metadata_page p nand + at_location) 4)

-- The page that concludeUpdate is to install, before its flag is set.
unfoldable pub next_page : Platform → Bytes → Bool → Bytes
next_page p nand with_error =
    set_update_in_progress (copied p nand with_error) default_64b_flash_value

pub concluded_copy-copied :
    (p : Platform) (with_error : Bool) (d : Device)
    → (is_metadata_valid d.nand p.update_metadata_main ≡ true)
      ⊎ (is_metadata_valid d.nand p.update_metadata_sec ≡ true)
    → concluded_copy p with_error d ≡ ok (copied p d.nand with_error) d
unfolding concluded_copy get_metadata
concluded_copy-copied p true d metadata = refl
concluded_copy-copied p false d metadata = ground arith

module _ {p : Platform} (flash : IsFlash p) (layout : IsLayout p) where
  pub valid_kept :
      (old new : Bytes) (d : Device)
      → page_valid (shift d.nand p.critical_metadata) ≡ valid_64b_value
      → Holds d.nand p.critical_metadata old ⊎ Holds d.nand p.critical_metadata new
      → Recovers p old new d
  valid_kept old new d valid held = (
    record d { power = none },
    validate-kept flash layout (record d { power = none }) valid,
    valid,
    held,
  )

  pub rewritten-valid :
      (nand copy : Bytes)
      → page_valid (shift (rewritten p nand copy) p.critical_metadata) ≡ valid_64b_value
  unfolding page_valid blit
  rewritten-valid nand copy =
      read_le_marked (shift (rewritten p nand copy) p.critical_metadata) at_valid
        (λ i h. ground (arith, ap (le_bytes valid_64b_value) (the_byte i)))
    where
      the_byte : (i : ℕ) → p.critical_metadata + (112 + i) - (p.critical_metadata + 112) ≡ i
      the_byte i = omega arith

  backup_taken :
      (old next : Bytes) (d : Device)
      → page_valid (shift d.nand p.critical_metadata) ≢ valid_64b_value
      → Holds d.nand p.backup_cache1 next
      → Recovers p old (set_valid next valid_64b_value) d
  backup_taken old next d invalid held = (
    _,
    validate-restored flash layout (record d { power = none }) refl invalid,
    rewritten-valid d.nand _,
    inr (λ i h. rewritten-Holds flash layout d.nand _ i h ∙ same i h),
  )
    where
      same :
          (i : ℕ)
          → i < 4096
          → set_valid
              (shift (fill d.nand p.critical_metadata 4096 0xff) p.backup_cache1)
              valid_64b_value
              i
            ≡ set_valid next valid_64b_value i
      same i h = unfold set_valid blit fill in ground (arith, held i h, layout.critical_backup1)

  -- The flag of a page that was just erased, or just written with its flag erased.
  flag_unset :
      (nand : Bytes)
      → IsErased nand (p.critical_metadata + at_valid) 8
      → page_valid (shift nand p.critical_metadata) ≢ valid_64b_value
  unfolding page_valid
  flag_unset nand erased =
      read_le_erased (shift nand p.critical_metadata) at_valid
        (λ i h. ap nand (omega arith) ∙ erased i h)

  written-Recovers :
      (old next : Bytes) (nand : Bytes) (d : Device)
      → Holds nand p.backup_cache1 next
      → d.nand
        ≡ blit
            (fill nand p.critical_metadata 4096 0xff)
            p.critical_metadata
            4096
            (set_valid next default_64b_flash_value)
      → Recovers p old (set_valid next valid_64b_value) d
  written-Recovers old next nand d held same =
      backup_taken old next d
        (rw same (
          flag_unset
            (blit (fill nand p.critical_metadata 4096 0xff) p.critical_metadata 4096
              (set_valid next default_64b_flash_value))
            (flag-IsErased flash layout (fill nand p.critical_metadata 4096 0xff) next)))
        (λ i h. rw same (unfold blit fill in ground (arith, held i h, layout.critical_backup1)))

  erased-Recovers :
      (old next : Bytes) (nand : Bytes) (d : Device)
      → Holds nand p.backup_cache1 next
      → d.nand ≡ fill nand p.critical_metadata 4096 0xff
      → Recovers p old (set_valid next valid_64b_value) d
  erased-Recovers old next nand d held same =
      backup_taken old next d
        (rw same (
          flag_unset (fill nand p.critical_metadata 4096 0xff)
            (λ i h. unfold fill in ground arith)))
        (λ i h. rw same (unfold fill in ground (arith, held i h, layout.critical_backup1)))

  -- Once the backup holds the next page, a cut of its installation can be recovered from.
  pub write_critical-Ends :
      (old next : Bytes) (d : Device)
      → Holds d.nand p.backup_cache1 next
      → Recovers p old (set_valid next valid_64b_value) d
      → Ends
          (Recovers p old (set_valid next valid_64b_value))
          (λ _ e. e.nand ≡ rewritten p d.nand next)
          (write_critical p next d)
  unfolding write_critical
  write_critical-Ends old next d held safe =
      bind {P = λ _ e. e.nand ≡ fill d.nand p.critical_metadata 4096 0xff}
        (erase-Ends flash d p.critical_metadata layout.critical_aligned safe (λ power. refl))
        λ _ e erased.
          (bind
            {P = λ _ f.
              f.nand
              ≡ blit (fill d.nand p.critical_metadata 4096 0xff) p.critical_metadata 4096
                  (set_valid next default_64b_flash_value)}
            (write-Ends flash e p.critical_metadata 4096 _ (omega (arith, layout.critical_aligned))
              (rw erased (page-IsErased flash layout d.nand))
              (erased-Recovers old next d.nand e held erased) (λ power. rw erased))
            λ _ f unmarked.
              (bind {P = λ _ g. g.nand ≡ rewritten p d.nand next}
                (write-Ends flash f (p.critical_metadata + at_valid) 8 _
                  (omega (arith, layout.critical_aligned))
                  (rw unmarked
                    (flag-IsErased flash layout (fill d.nand p.critical_metadata 4096 0xff) next))
                  (written-Recovers old next d.nand f held unmarked) (λ power. rw unmarked))
                (λ _ g marked. ended marked)))
