-- ===== src/Copy.antt =====
-- The copies of munin/Bytecode/execution.c, and the write cache that joins misaligned ones.
pub mod Halts
pub mod Flush
use ravens.Base.{
  ℕ, zero, suc, ◌+◌, ◌-◌, ◌*◌, ◌/◌, ◌%◌, ◌^◌, Bool, true, false, not, ◌&&◌, ◌||◌, Option, none,
  some, ◌==◌, ltb, leb, if◌then◌else◌,
}
use ravens.Base.Memory.{Bytes, shift, blit, fill}
use ravens.Counter.{get_current_counter, increment_counter, backup_cache, restore_cache}
use ravens.Decoder.{
  Opcode, erase, load_flush, commit, flush_commit, use_block, release, rebase, illegal, copy_nn,
  copy_nc, copy_cn, copy_cc, chained_copy_n, chained_copy_c, chained_skip, end_of_stream, Command,
  Context, decode_instruction,
}
use ravens.Decoder.Reader.{size_mod}
use ravens.Device.{
  Device, Run, M, pure, skip, fails, assertion, null_pointer, overrun, out_of_fuel, get, ◌>>=◌,
  ◌>>◌, fault, write,
}
use ravens.Flash.{block_size, block_id_space, write_granularity, whole_part}
use ravens.Platform.{Platform}

-- A pointer to read from: into `cacheRAM`, or into the flash.
pub data Source : Type 0 where
  ram nand : ℕ → Source

abbrev pub bytes_at : Source → Device → Bytes
bytes_at (ram offset) d = shift d.cache_ram offset
bytes_at (nand address) d = shift d.nand address

abbrev pub advance : Source → ℕ → Source
advance (ram offset) n = ram (offset + n)
advance (nand address) n = nand (address + n)

-- An access that leaves an array.
abbrev pub within : ℕ → ℕ → M (Unit {0})
within last size = if leb last size then skip else fails overrun

-- Writes to `writeCache`, its position and `prevDest`.
abbrev pub set_write_cache : Bytes → ℕ → M (Unit {0})
set_write_cache cache pos d = pure tt (record d { write_cache = cache; write_cache_pos = pos })

abbrev pub set_pos : ℕ → M (Unit {0})
set_pos pos d = pure tt (record d { write_cache_pos = pos })

abbrev pub set_prev_dest : ℕ → M (Unit {0})
set_prev_dest dest d = pure tt (record d { prev_dest = dest })

abbrev pub set_cache_ram : Bytes → M (Unit {0})
set_cache_ram cache d = pure tt (record d { cache_ram = cache })

module _ (p : Platform) where
  -- performCopyWithCache from its aligned write on.
  unfoldable pub copy_aligned : (dest : ℕ) → Source → (length : ℕ) → M (Unit {0})
  copy_aligned dest source length = do
    d ← get
    write p dest (whole_part length) (bytes_at source d)
    if length % write_granularity == 0 then skip else do
      e ← get
      let rest = length - whole_part length
      set_write_cache (blit e.write_cache 0 rest (shift (bytes_at source e) (whole_part length)))
          rest
      set_prev_dest ((dest + whole_part length) % size_mod)

  -- The padding of `writeCache` where the next write leaves a gap.
  unfoldable pub pad_write_cache : ℕ → M (Unit {0})
  pad_write_cache dest = do
    d ← get
    if (d.prev_dest + d.write_cache_pos) % size_mod == dest then skip else do
      within (d.write_cache_pos + (write_granularity - dest % write_granularity)) write_granularity
      set_write_cache
          (fill d.write_cache d.write_cache_pos (write_granularity - dest % write_granularity) 0xff)
          ((d.write_cache_pos + dest % write_granularity) % 256)

  -- performCopyWithCache where the write goes on in the phrase that `writeCache` holds.
  unfoldable pub copy_continued : (dest : ℕ) → Source → (length : ℕ) → M (Unit {0})
  copy_continued dest source length = do
    pad_write_cache dest
    d ← get
    let pos = d.write_cache_pos
    let length_left = (write_granularity + 256 - pos) % 256
    if ltb length length_left
        then (do
          within (pos + length) write_granularity
          set_write_cache (blit d.write_cache pos length (bytes_at source d))
              ((pos + length) % 256))
        else (do
          within (pos + length_left) write_granularity
          set_write_cache (blit d.write_cache pos length_left (bytes_at source d)) pos
          e ← get
          write p e.prev_dest write_granularity e.write_cache
          set_pos 0
          copy_aligned (dest + length_left) (advance source length_left) (length - length_left))

  -- performCopyWithCache
  unfoldable pub perform_copy_with_cache : (dest : ℕ) → Source → (length : ℕ) → M (Unit {0})
  perform_copy_with_cache dest source length = do
    d ← get
    if d.write_cache_pos == 0
        then copy_aligned dest source length
        else if leb dest d.prev_dest || leb ((d.prev_dest + write_granularity) % size_mod) dest
        then (do
          write p dest d.write_cache_pos d.write_cache
          set_pos 0
          copy_aligned dest source length)
        else copy_continued dest source length

  -- flushCopyCache
  unfoldable pub flush_copy_cache : M (Unit {0})
  flush_copy_cache = do
    d ← get
    if d.write_cache_pos == 0 then skip else do
      let padded = fill d.write_cache d.write_cache_pos (write_granularity - d.write_cache_pos) 0xff
      set_write_cache padded d.write_cache_pos
      write p d.prev_dest write_granularity padded
      set_pos 0

  -- performCopy. All `length` bytes of a source in `cacheRAM` are read on every path.
  unfoldable pub perform_copy : Opcode → Command → M (Unit {0})
  perform_copy copy_cc c = do
    within (c.main_address + c.length) block_size
    within (c.secondary_address + c.length) block_size
    d ← get
    set_cache_ram (blit d.cache_ram c.secondary_address c.length (shift d.cache_ram c.main_address))
  perform_copy copy_cn c = do
    within (c.main_address + c.length) block_size
    perform_copy_with_cache c.secondary_address (ram c.main_address) c.length
  perform_copy copy_nc c = do
    within (c.secondary_address + c.length) block_size
    d ← get
    set_cache_ram (blit d.cache_ram c.secondary_address c.length (shift d.nand c.main_address))
  perform_copy copy_nn c =
      perform_copy_with_cache c.secondary_address (nand c.main_address) c.length
  perform_copy _ c = skip
