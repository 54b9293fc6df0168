-- ===== src/Critical.antt =====
-- The critical metadata of munin/core.c: startUpdate, requestUpdate, concludeUpdate and
-- validateCriticalMetadata.
pub mod Recovery
pub mod Install
pub mod Found
pub mod Start
pub mod Conclude
use ravens.Base.{ℕ, ◌+◌, ◌*◌, ◌%◌, ◌^◌, Bool, true, false, not, ◌&&◌, ◌||◌, ◌==◌, if◌then◌else◌}
use ravens.Base.Memory.{Bytes, shift, blit}
use ravens.Device.{Device, M, pure, skip, get, ◌>>=◌, ◌>>◌, read_le, le_bytes, erase, write}
use ravens.Flash.{block_size}
use ravens.Metadata.{
  valid_64b_value, default_64b_flash_value, signature_length, at_location, header_update_signature,
  version_id_of, get_metadata, set_metadata_page, reset_metadata_page,
}
use ravens.Platform.{Platform}

-- Offsets in CriticalMetadata.
abbrev pub at_device_public_key : ℕ
at_device_public_key = 0

abbrev pub at_update_challenge : ℕ
at_update_challenge = 32

abbrev pub at_version_id : ℕ
at_version_id = 96

abbrev pub at_format_version : ℕ
at_format_version = 100

abbrev pub at_update_in_progress : ℕ
at_update_in_progress = 104

abbrev pub at_valid : ℕ
at_valid = 112

-- The fields of a copy of the page.
unfoldable pub page_valid : Bytes → ℕ
page_valid page = read_le page at_valid 8

unfoldable pub page_version_id : Bytes → ℕ
page_version_id page = read_le page at_version_id 4

unfoldable pub page_update_in_progress : Bytes → ℕ
page_update_in_progress page = read_le page at_update_in_progress 8

-- `copy.valid = v` and `copy.updateInProgress = v`
unfoldable pub set_valid : Bytes → ℕ → Bytes
set_valid page v = blit page at_valid 8 (le_bytes v)

unfoldable pub set_update_in_progress : Bytes → ℕ → Bytes
set_update_in_progress page v = blit page at_update_in_progress 8 (le_bytes v)

-- The next challenge and version, from the header of the update that was installed.
unfoldable pub set_installed : Bytes → Bytes → ℕ → Bytes
set_installed page nand header =
    blit
      (blit page at_update_challenge signature_length
        (shift nand (header + header_update_signature)))
      at_version_id 4 (le_bytes (version_id_of nand header))

-- The update ended well, or it never started.
unfoldable pub concludes : Bool → Bytes → Bool
concludes with_error copy =
    not with_error || page_update_in_progress copy == default_64b_flash_value

module _ (p : Platform) where
  -- Both functions that replace the page write it with an invalid flag, and then the flag.
  unfoldable pub write_critical : Bytes → M (Unit {0})
  write_critical copy = do
    erase p p.critical_metadata
    write p p.critical_metadata block_size (set_valid copy default_64b_flash_value)
    write p (p.critical_metadata + at_valid) 8 (le_bytes valid_64b_value)
    skip

  -- startUpdate
  unfoldable pub start_update : M Bool
  start_update = do
    d ← get
    if page_update_in_progress (shift d.nand p.critical_metadata) == 0 then pure true else do
      erase p p.backup_cache1
      erase p p.backup_cache2
      current ← get_metadata p
      reset_metadata_page p current 0
      write p (p.critical_metadata + at_update_in_progress) 8 (le_bytes 0)
      pure true

  -- requestUpdate
  unfoldable pub request_update : ℕ → M (Unit {0})
  request_update location = do current ← get_metadata p; set_metadata_page p current location 0

  -- The copy that concludeUpdate makes of the page.
  unfoldable pub concluded_copy : Bool → M Bytes
  concluded_copy with_error = do
    d ← get
    let copy = shift d.nand p.critical_metadata
    if with_error then pure copy else do
      current ← get_metadata p
      pure (set_installed copy d.nand (read_le d.nand (current + at_location) 4))

  -- enableIRQ and disableIRQ
  abbrev pub set_irq : Bool → M (Unit {0})
  set_irq on d = pure tt (record d { irq_enabled = on })

  -- What concludeUpdate does with the copy: the backup first, then the page itself.
  unfoldable pub install_page : Bytes → M (Unit {0})
  install_page copy = do
    let next = set_update_in_progress copy default_64b_flash_value
    write p p.backup_cache1 block_size next
    write_critical next

  -- concludeUpdate
  unfoldable pub conclude_update : Bool → M (Unit {0})
  conclude_update with_error = do
    erase p p.backup_cache1
    copy ← concluded_copy with_error
    (if concludes with_error copy then install_page copy else skip)
    set_irq true

  -- validateCriticalMetadata
  unfoldable pub validate_critical_metadata : M (Unit {0})
  validate_critical_metadata = do
    d ← get
    if page_valid (shift d.nand p.critical_metadata) == valid_64b_value then skip else do
      erase p p.critical_metadata
      e ← get
      write p p.critical_metadata block_size
          (set_valid (shift e.nand p.backup_cache1) default_64b_flash_value)
      write p (p.critical_metadata + at_valid) 8 (le_bytes valid_64b_value)
      skip
