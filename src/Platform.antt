-- ===== src/Platform.antt =====
-- What the code takes from outside: the device's flash driver (munin/driver_api.h), the signatures
-- of libhydrogen, the SHA-256 of mbed TLS and the linker's addresses. What is relied on is a hypothesis,
-- `IsFlash` and `IsLayout`.
use ravens.Base.{ℕ, ◌+◌, ◌*◌, ◌/◌, ◌%◌, ◌<◌, ◌≤◌, ◌≡◌, ◌⊎◌, Bool}
use ravens.Base.Memory.{Bytes, blit, fill}

pub record Platform : Type 0 where
  -- eraseSector(address)
  pub erase_sector : Bytes → ℕ → Bytes
  -- programFlash(address, data, length)
  pub program_flash : Bytes → ℕ → Bytes → ℕ → Bytes
  -- hydro_sign_verify(signature, message, length, context, key) == 0
  pub sign_verify : (message : Bytes) → ℕ → (signature key : Bytes) → Bool
  -- SHA-256 of a range of memory
  pub sha256 : Bytes → ℕ → Bytes
  -- The addresses that the linker gives to the pages of munin/core.c.
  pub update_metadata_main : ℕ
  pub update_metadata_sec : ℕ
  pub critical_metadata : ℕ
  pub backup_cache1 : ℕ
  pub backup_cache2 : ℕ

-- `length` bytes from an address on are erased.
abbrev pub IsErased : Bytes → ℕ → ℕ → Type 0
IsErased nand address length = (i : ℕ) → i < length → nand (address + i) ≡ 0xff

-- A sector is a block and is erased to ones; an aligned range that is erased can be programmed.
pub record IsFlash (p : Platform) : Type 0 where
  pub erase :
      (nand : Bytes) (address : ℕ)
      → p.erase_sector nand address ≡ fill nand (address / 4096 * 4096) 4096 0xff
  pub program :
      (nand : Bytes) (address : ℕ) (source : Bytes) (length : ℕ)
      → address % 8 ≡ 0
      → length % 8 ≡ 0
      → IsErased nand address length
      → p.program_flash nand address source length ≡ blit nand address length source

abbrev Apart : ℕ → ℕ → Type 0
Apart a b = (a + 4096 ≤ b) ⊎ (b + 4096 ≤ a)

-- Every page is a block of its own.
pub record IsLayout (p : Platform) : Type 0 where
  pub main_aligned : p.update_metadata_main % 4096 ≡ 0
  pub sec_aligned : p.update_metadata_sec % 4096 ≡ 0
  pub critical_aligned : p.critical_metadata % 4096 ≡ 0
  pub backup1_aligned : p.backup_cache1 % 4096 ≡ 0
  pub backup2_aligned : p.backup_cache2 % 4096 ≡ 0
  pub main_sec : Apart p.update_metadata_main p.update_metadata_sec
  pub critical_backup1 : Apart p.critical_metadata p.backup_cache1
  pub critical_backup2 : Apart p.critical_metadata p.backup_cache2
  pub critical_main : Apart p.critical_metadata p.update_metadata_main
  pub critical_sec : Apart p.critical_metadata p.update_metadata_sec
  pub backup1_main : Apart p.backup_cache1 p.update_metadata_main
  pub backup1_sec : Apart p.backup_cache1 p.update_metadata_sec
  pub backup2_main : Apart p.backup_cache2 p.update_metadata_main
  pub backup2_sec : Apart p.backup_cache2 p.update_metadata_sec
  pub backups : Apart p.backup_cache1 p.backup_cache2
