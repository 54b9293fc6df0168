-- ===== src/Examples.antt =====
-- A board on which the theorems are applied: flash that is programmed and erased at once, with the
-- pages of munin/core.c at consecutive blocks, and toy primitives for the cryptography.
mod Update
mod Steps
use ravens.Base.{ℕ, ◌+◌, ◌*◌, ◌/◌, ◌%◌, Bool, true, ◌≡◌, refl, none, inl, inr, arith, ◌==◌}
use ravens.Base.Memory.{Bytes, shift, blit, fill}
use ravens.Device.{Device, le_bytes, read_le}
use ravens.Critical.{page_valid}
use ravens.Metadata.{is_metadata_valid, valid_64b_value}
use ravens.Platform.{Platform, IsFlash, IsLayout}

-- Signatures are checked on their first byte, and the hash repeats the message.
abbrev pub board : Platform
board = record {
  erase_sector = λ nand address. fill nand (address / 4096 * 4096) 4096 0xff;
  program_flash = λ nand address source length. blit nand address length source;
  sign_verify = λ message length signature key. signature 0 == key 0;
  sha256 = λ message length i. message (i % 16);
  update_metadata_main = 0x1000;
  critical_metadata = 0x2000;
  update_metadata_sec = 0x3000;
  backup_cache1 = 0x4000;
  backup_cache2 = 0x5000;
}

pub board-IsFlash : IsFlash board
board-IsFlash = record {
  erase = λ nand address. refl;
  program = λ nand address source length h k erased. refl;
}

pub board-IsLayout : IsLayout board
board-IsLayout = record {
  main_aligned = refl;
  sec_aligned = refl;
  critical_aligned = refl;
  backup1_aligned = refl;
  backup2_aligned = refl;
  main_sec = inl (omega arith);
  critical_backup1 = inl (omega arith);
  critical_backup2 = inl (omega arith);
  critical_main = inr (omega arith);
  critical_sec = inl (omega arith);
  backup1_main = inr (omega arith);
  backup1_sec = inr (omega arith);
  backup2_main = inr (omega arith);
  backup2_sec = inr (omega arith);
  backups = inl (omega arith);
}

abbrev pub blank : Bytes
blank a = 0xff

-- Erased flash, but for the flags of the main metadata page and of the critical one, and the
-- location of an update.
abbrev pub installed_flash : Bytes
installed_flash =
    blit (blit (blit blank 0x1ff0 8 (le_bytes valid_64b_value)) 0x2070 8 (le_bytes valid_64b_value))
      0x1000 4 (le_bytes 0x6000)

abbrev pub device : Device
device = record {
  nand = installed_flash;
  cache_ram = λ i. i % 256;
  write_cache = blank;
  write_cache_pos = 0;
  prev_dest = 0;
  write_buffer = blank;
  irq_enabled = true;
  power = none;
}

pub main-valid : is_metadata_valid installed_flash 0x1000 ≡ true
unfolding is_metadata_valid read_le blit le_bytes
main-valid = refl

pub critical-valid : page_valid (shift installed_flash 0x2000) ≡ valid_64b_value
unfolding page_valid read_le blit le_bytes
critical-valid = refl
