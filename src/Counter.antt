-- ===== src/Counter.antt =====
-- The step counter in the bit field of the metadata page, and the two backups of `cacheRAM`:
-- incrementCounter, getCurrentCounter, backupCache and restoreCache of
-- munin/Bytecode/execution_utils.c.
pub mod Backup
pub mod Halts
pub mod Lost
pub mod Forward
use ravens.Base.{
  ℕ, zero, suc, ◌+◌, ◌-◌, ◌*◌, ◌/◌, ◌%◌, Bool, true, false, not, ◌&&◌, Option, none, some, ◌==◌,
  ltb, if◌then◌else◌,
}
use ravens.Base.Memory.{Bytes, shift, blit}
use ravens.Decoder.Reader.{size_mod}
use ravens.Device.{Device, M, pure, skip, assert, get, ◌>>=◌, ◌>>◌, read_le, le_bytes, erase, write}
use ravens.Flash.{block_size}
use ravens.Metadata.{
  at_bit_field, bit_field_size, at_footer, is_metadata_valid, get_metadata, reset_metadata_page,
}
use ravens.Platform.{Platform}

-- CURRENT_COUNTER_WIDTH and USABLE_BIT_FIELD_COUNTER, for MIN_BIT_WRITE_SIZE = 64
abbrev pub counter_width : ℕ
counter_width = 8

abbrev pub usable_bit_field_counter : ℕ
usable_bit_field_counter = 508

-- The inner loop of getCurrentCounter: whether the next bytes of a cell, `left` of them, are zero.
unfoldable pub cell_is_zero : Bytes → ℕ → ℕ → Bool
cell_is_zero field i zero = true
cell_is_zero field i (suc left) = field i == 0 && cell_is_zero field (i + 1) left

-- The outer loop, which stops at the first cell that is not zero. It has at most one round for each
-- whole cell.
unfoldable pub count_cells : Bytes → ℕ → ℕ → ℕ
count_cells field i zero = 0
count_cells field i (suc rounds) =
    let rest = count_cells field (i + counter_width) rounds in
    if ltb (i + counter_width) bit_field_size && cell_is_zero field i counter_width
    then suc rest
    else 0

-- getCurrentCounter on a page.
unfoldable pub counter_of : Bytes → ℕ → ℕ
counter_of nand page =
    (read_le nand (page + at_footer) 4 * usable_bit_field_counter
      + count_cells (shift nand (page + at_bit_field)) 0 usable_bit_field_counter)
    % size_mod

-- `!*fastForward` of a pointer that may be NULL, under a guard that it is not.
abbrev pub goes_fast : Option Bool → Bool
goes_fast none = false
goes_fast (some fast) = fast

module _ (p : Platform) where
  -- getCurrentCounter
  unfoldable pub get_current_counter : M ℕ
  get_current_counter = do
    page ← get_metadata p
    d ← get
    assert (is_metadata_valid d.nand page)
    pure (counter_of d.nand page)

  -- The write of incrementCounter, for the counter after its increment.
  unfoldable pub record_step : ℕ → M (Unit {0})
  record_step counter = do
    page ← get_metadata p
    d ← get
    if (counter + size_mod - 1) % size_mod / usable_bit_field_counter
          == counter / usable_bit_field_counter
        then (do
          write p
              (page + at_bit_field + (counter + size_mod - 1) % size_mod * counter_width % size_mod)
              counter_width (le_bytes 0)
          skip)
        else reset_metadata_page p page ((read_le d.nand (page + at_footer) 4 + 1) % size_mod)

  -- incrementCounter: the counter and the flag that it leaves.
  unfoldable pub increment_counter : (counter old_counter : ℕ) → Option Bool → M (ℕ × Option Bool)
  increment_counter counter old_counter fast_forward =
      let next = (counter + 1) % size_mod in
      if goes_fast fast_forward
      then pure (next, if next == old_counter then some false else fast_forward)
      else do record_step next; pure (next, fast_forward)

  -- The page that backupCache writes: the second if bit 1 of the counter is set.
  abbrev pub saved_to : ℕ → ℕ
  saved_to counter = if counter / 2 % 2 == 1 then p.backup_cache2 else p.backup_cache1

  -- backupCache
  unfoldable pub backup_cache : ℕ → M (Unit {0})
  backup_cache counter = do
    erase p (saved_to counter)
    d ← get
    write p (saved_to counter) block_size d.cache_ram
    skip

  -- restoreCache
  unfoldable pub restore_cache : ℕ → M (Unit {0})
  restore_cache counter d =
      let from = if counter / 2 % 2 == 1 then p.backup_cache1 else p.backup_cache2 in
      pure tt (record d { cache_ram = blit d.cache_ram 0 block_size (shift d.nand from) })
