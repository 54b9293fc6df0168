-- ===== src/Delta.antt =====
-- munin/Delta/bsdiff.c: the readers of the decompressed patch, its checks and the buffer of its output.
mod Examples
pub mod Words
pub mod Patch
pub mod Apply
pub mod InPage
pub mod Dry
use ravens.Base.{
  ℕ, zero, suc, ◌+◌, ◌-◌, ◌*◌, ◌/◌, ◌%◌, ◌^◌, Bool, true, false, not, Option, none, some, ◌==◌, leb,
  ltb, if◌then◌else◌,
}
use ravens.Base.Memory.{Bytes, shift}
use ravens.Decoder.Reader.{size_mod}
use ravens.Device.{
  Device, M, ok, pure, skip, fails, overrun, get, ◌>>=◌, ◌>>◌, read_le, erase, write,
}
use ravens.Flash.{block_size, write_granularity}
use ravens.Lzfx.{Stream, Result, lzfx_decompress, update}
use ravens.Metadata.{hash_length}
use ravens.Platform.{Platform}
use ravens.Validation.{hash_memory, same_bytes}

-- BSDiffContext. The offset stays up to `length_left`, which has 16 bits, so that it does not wrap.
-- `lzfx.input` points to `input_address` in the flash, and is read there at each call.
pub record Context : Type 0 where
  pub lzfx : Stream
  pub input_address : ℕ
  pub current_cache_offset : ℕ
  pub length_left : ℕ
  pub is_out_of_data : Bool

abbrev pub length_or : ℕ → Option ℕ → ℕ
length_or n none = n
length_or n (some length) = length

abbrev pub refilled : Context → Option Result → M Context
refilled c none d = fails overrun d
refilled c (some (code, length, s, buffer)) d =
    ok (record c { lzfx = s; current_cache_offset = 0; length_left = length_or block_size length })
      (record d { cache_ram = buffer })

-- The refill of `cacheRAM`, whose status consumeByte does not look at.
unfoldable pub refill : Context → M Context
refill c d =
    refilled c
      (lzfx_decompress (record c.lzfx { input = some (shift d.nand c.input_address) }) d.cache_ram
        (some block_size))
      d

abbrev pub next_byte : Context → M (ℕ × Context)
next_byte c d =
    ok
      (
        d.cache_ram c.current_cache_offset,
        record c { current_cache_offset = c.current_cache_offset + 1 },
      )
      d

-- consumeByte
unfoldable pub consume_byte : Context → M (ℕ × Context)
consume_byte c = if ltb c.current_cache_offset c.length_left then next_byte c else do
  e ← refill c
  if ltb e.length_left 1 then pure (0, record e { is_out_of_data = true }) else next_byte e

-- The number in the buffer at the offset.
abbrev pub next_number : ℕ → Context → M (ℕ × Context)
next_number n c d =
    ok
      (
        read_le d.cache_ram c.current_cache_offset n,
        record c { current_cache_offset = c.current_cache_offset + n },
      )
      d

-- consumeWord
unfoldable pub consume_word : Context → M (ℕ × Context)
consume_word c =
    if leb (c.current_cache_offset + 2) c.length_left
    then next_number 2 c
    else do (low, e) ← consume_byte c; (high, f) ← consume_byte e; pure (low + 256 * high, f)

-- consumeDWord
unfoldable pub consume_dword : Context → M (ℕ × Context)
consume_dword c =
    if leb (c.current_cache_offset + 4) c.length_left
    then next_number 4 c
    else do (low, e) ← consume_word c; (high, f) ← consume_word e; pure (low + 2 ^ 16 * high, f)

-- consumeQWord
unfoldable pub consume_qword : Context → M (ℕ × Context)
consume_qword c = do
  (low, e) ← consume_dword c
  (high, f) ← consume_dword e
  pure (low + 2 ^ 32 * high, f)

-- The reference hash of performValidation, from its byte `i` on; `none` where the data has ended.
unfoldable pub consume_hash : (left i : ℕ) → Bytes → Context → M (Option Bytes × Context)
consume_hash zero i hash c = pure (some hash, c)
consume_hash (suc left) i hash c =
    if c.is_out_of_data
    then pure (none, c)
    else do (byte, e) ← consume_byte c; consume_hash left (i + 1) (update hash i byte) e

module _ (p : Platform) where
  -- getBuffer
  unfoldable pub get_buffer : ℕ → ℕ
  get_buffer trace = if trace / 2 % 2 == 1 then p.backup_cache2 else p.backup_cache1

  -- savePageToBuffer
  unfoldable pub save_page_to_buffer : (block_address trace : ℕ) → M (Unit {0})
  save_page_to_buffer block_address trace = do
    erase p (get_buffer trace)
    d ← get
    write p (get_buffer trace) block_size
        (shift d.nand (block_address - block_address % block_size))
    skip

  abbrev pub hash_agrees : (dry_run : Bool) → (start length : ℕ) → Option Bytes → M Bool
  hash_agrees dry_run start length none d = ok false d
  hash_agrees dry_run start length (some hash) d =
      ok
        (if dry_run
          then true
          else same_bytes (hash_memory p (shift d.nand start) length) hash hash_length)
        d

  -- The loop of performValidation, for the hashes that are left.
  unfoldable pub validate_hashes : (left : ℕ) → (dry_run : Bool) → Context → M (Bool × Context)
  validate_hashes zero dry_run c = pure (true, c)
  validate_hashes (suc left) dry_run c = do
    (start, e) ← consume_dword c
    (length, f) ← consume_word e
    (hash, g) ← consume_hash hash_length 0 (λ _. 0) f
    good ← hash_agrees dry_run start (length + 1) hash
    if good then validate_hashes left dry_run g else pure (false, g)

  -- performValidation
  unfoldable pub perform_validation : (dry_run : Bool) → Context → M (Bool × Context)
  perform_validation dry_run c =
      if c.is_out_of_data
      then pure (false, c)
      else do (number, e) ← consume_word c; validate_hashes number dry_run e

  -- addByteToOutputBuffer: the counter that it leaves.
  unfoldable pub add_byte_to_output_buffer : (byte virtual_address counter : ℕ) → M ℕ
  add_byte_to_output_buffer byte virtual_address counter d =
      let buffer = update d.write_buffer counter byte in
      (if leb write_granularity counter then pure counter else do
        (λ e. ok tt (record e { write_buffer = buffer }))
        (if counter == write_granularity - 1
            then (do
              write p (virtual_address - virtual_address % write_granularity) write_granularity
                  buffer
              pure 0)
            else pure (counter + 1)))
        d
