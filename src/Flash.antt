-- ===== src/Flash.antt =====
-- munin/io_management.h, munin/driver_api.h, and writeToNAND and erasePage of
-- munin/Bytecode/execution_utils.c, in the configuration of
-- munin/integration/drivers/K64F/device_config.h.
pub mod Write
use ravens.Base.{
  ℕ, zero, suc, ◌+◌, ◌-◌, ◌*◌, ◌/◌, ◌%◌, min, Bool, true, false, not, Option, none, some, ◌==◌,
  if◌then◌else◌,
}
use ravens.Base.Memory.{Bytes, shift, blit, fill}
use ravens.Platform.{Platform}

-- WRITE_GRANULARITY, ADDRESSING_GRANULARITY, BLOCK_SIZE, FLASH_SIZE, BLOCK_ID_SPACE; a mask of
-- them is the remainder by them.
abbrev pub write_granularity : ℕ
write_granularity = 8

abbrev pub addressing_granularity : ℕ
addressing_granularity = 4

abbrev pub block_size : ℕ
block_size = 4096

abbrev pub flash_size : ℕ
flash_size = 0x100000

abbrev pub block_id_space : ℕ
block_id_space = 8

-- `length & ~WRITE_GRANULARITY_MASK`
abbrev pub whole_part : ℕ → ℕ
whole_part length = length / write_granularity * write_granularity

-- The `missing` of a misaligned head: what the flash holds before the address, and 0xff from it on.
-- Where only `misalignment` bytes are read from the flash, `memset` sets all the others.
unfoldable pub pad_head : Bytes → ℕ → ℕ → Bytes
pad_head nand address copied =
    let misalignment = address % write_granularity in
    fill (shift nand (address - misalignment)) misalignment copied 0xff

-- The `missing` of a misaligned end: the last bytes of the source, and 0xff behind them.
unfoldable pub pad_tail : Bytes → ℕ → Bytes
pad_tail source length =
    let rest = length - whole_part length in
    fill (shift source (whole_part length)) rest (write_granularity - rest) 0xff

abbrev pub NandWrite : Type 0
NandWrite = Bytes → ℕ → ℕ → Bytes → Bool × Bytes

-- writeToNAND from `lengthToWrite` on, with the call of itself that it makes for the end.
unfoldable pub write_aligned : Platform → NandWrite → Bytes → ℕ → ℕ → Bytes → Bytes
write_aligned p inner nand address length source =
    let written =
      if whole_part length == 0
      then nand
      else p.program_flash nand address source (whole_part length) in
    if length - whole_part length == 0
    then written
    else (inner written (address + whole_part length) write_granularity (pad_tail source length)).1

-- The calls that writeToNAND makes of itself are aligned, so that they make no other.
unfoldable pub write_depth : Platform → ℕ → NandWrite
write_depth p zero nand address length source = (false, nand)
write_depth p (suc depth) nand address length source =
    let inner = write_depth p depth in
    let misalignment = address % write_granularity in
    let copied = min (write_granularity - misalignment) length in
    let padded =
      (inner nand (address - misalignment) write_granularity (pad_head nand address copied)).1 in
    if misalignment == 0
    then (true, write_aligned p inner nand address length source)
    else if not (misalignment % addressing_granularity == 0)
    then (false, nand)
    else if copied == length
    then (true, padded)
    else (
      true,
      write_aligned p inner padded (address + copied) (length - copied) (shift source copied),
    )

-- writeToNAND: what it returns, and the flash behind it.
unfoldable pub write_to_nand : Platform → NandWrite
write_to_nand p = write_depth p 2

-- erasePage; `none` is the failed assertion.
unfoldable pub erase_page : Platform → Bytes → ℕ → Option Bytes
erase_page p nand address =
    if address % block_size == 0 then some (p.erase_sector nand address) else none
