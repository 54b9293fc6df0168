-- ===== src/Critical/Recovery.antt =====
-- validateCriticalMetadata: it leaves a valid page alone, and replaces any other by the backup.
use ravens.Base.{ℕ, ◌+◌, ◌-◌, ◌<◌, ◌≡◌, ◌≢◌, ap, none, arith}
use ravens.Base.Memory.{Bytes, shift, blit, fill}
use ravens.Critical.{at_valid, page_valid, set_valid, validate_critical_metadata}
use ravens.Device.{Device, ok, le_bytes}
use ravens.Device.Ends.{erase-powered, write-powered}
use ravens.Device.Fields.{le_bytes_default}
use ravens.Metadata.{valid_64b_value, default_64b_flash_value}
use ravens.Platform.{Platform, IsFlash, IsLayout, IsErased}

-- The block at `start` holds a page.
abbrev pub Holds : Bytes → ℕ → Bytes → Type 0
Holds nand start page = (i : ℕ) → i < 4096 → nand (start + i) ≡ page i

-- The flash after the three writes that put a copy of the page in its place.
abbrev pub rewritten : Platform → Bytes → Bytes → Bytes
rewritten p nand copy =
    blit
      (blit (fill nand p.critical_metadata 4096 0xff) p.critical_metadata 4096
        (set_valid copy default_64b_flash_value))
      (p.critical_metadata + at_valid) 8 (le_bytes valid_64b_value)

module _ {p : Platform} (flash : IsFlash p) (layout : IsLayout p) where
  pub validate-kept :
      (d : Device)
      → page_valid (shift d.nand p.critical_metadata) ≡ valid_64b_value
      → validate_critical_metadata p d ≡ ok tt d
  unfolding validate_critical_metadata
  validate-kept d valid = ground arith

  -- Erasing the page makes room for the copy, whose flag is still erased.
  pub page-IsErased :
      (nand : Bytes) → IsErased (fill nand p.critical_metadata 4096 0xff) p.critical_metadata 4096
  unfolding fill
  page-IsErased nand i h = ground arith

  pub flag-IsErased :
      (nand copy : Bytes)
      → IsErased
          (blit nand p.critical_metadata 4096 (set_valid copy default_64b_flash_value))
          (p.critical_metadata + at_valid)
          8
  unfolding blit set_valid
  flag-IsErased nand copy i h =
      ground (arith, le_bytes_default i h, ap (le_bytes default_64b_flash_value) the_byte)
    where
      the_byte : p.critical_metadata + 112 + i - p.critical_metadata - 112 ≡ i
      the_byte = omega arith

  pub validate-restored :
      (d : Device)
      → d.power ≡ none
      → page_valid (shift d.nand p.critical_metadata) ≢ valid_64b_value
      → validate_critical_metadata p d
        ≡ ok tt (record d {
          nand =
              rewritten p d.nand
                (shift (fill d.nand p.critical_metadata 4096 0xff) p.backup_cache1);
        })
  unfolding validate_critical_metadata
  validate-restored d on invalid =
      let erased : Bytes = fill d.nand p.critical_metadata 4096 0xff in
      let copy : Bytes = shift erased p.backup_cache1 in
      let unmarked : Bytes =
        blit erased p.critical_metadata 4096 (set_valid copy default_64b_flash_value) in
      ground (
        arith,
        erase-powered flash d p.critical_metadata layout.critical_aligned on,
        write-powered flash (record d { nand = erased }) p.critical_metadata 4096
            (set_valid copy default_64b_flash_value) (omega (arith, layout.critical_aligned))
            (page-IsErased d.nand) on,
        write-powered flash (record d { nand = unmarked }) (p.critical_metadata + at_valid) 8
            (le_bytes valid_64b_value) (omega (arith, layout.critical_aligned))
            (flag-IsErased erased copy) on,
      )

  -- What such writes leave in the page.
  pub rewritten-Holds :
      (nand copy : Bytes)
      → Holds (rewritten p nand copy) p.critical_metadata (set_valid copy valid_64b_value)
  unfolding blit set_valid
  rewritten-Holds nand copy i h = ground arith
