-- ===== src/Boot/Authentic.antt =====
-- Which updates the boot loader starts.
use ravens.Base.{◌+◌, ◌%◌, ◌≡◌, true, false, ◌&&◌, none, some, arith, ◌==◌, ltb, if◌then◌else◌}
use ravens.Base.Memory.{shift}
use ravens.Boot.{authentic_update}
use ravens.Critical.{page_valid}
use ravens.Critical.Recovery.{validate-kept}
use ravens.Device.{Device, ok, read_le}
use ravens.Metadata.{is_metadata_valid, get_metadata, valid_64b_value}
use ravens.Platform.{Platform, IsFlash, IsLayout}
use ravens.Validation.{validate_header, validate_image}

-- On a device whose critical page is valid, as is the main page of its metadata: the boot loader goes
-- on, with interrupts disabled, exactly if the location is a block of the flash with a valid header
-- and a valid image; else it returns with interrupts enabled. It changes nothing on the flash.
pub authentic_update-validated :
    {p : Platform}
    → IsFlash p
    → IsLayout p
    → (d : Device) → page_valid (shift d.nand p.critical_metadata) ≡ valid_64b_value
    → is_metadata_valid d.nand p.update_metadata_main ≡ true
    → let header = read_le d.nand (p.update_metadata_main + 0) 4 in
      authentic_update p d ≡ (
        if header % 4096 == 0
          && ltb header 0x100000
          && (validate_header p d.nand header && validate_image p d.nand header)
        then ok (some header) (record d { irq_enabled = false })
        else ok none (record d { irq_enabled = true }))
unfolding authentic_update get_metadata
authentic_update-validated {p} flash layout d valid main =
    rw (validate-kept flash layout d valid, main) (ground arith)
