-- ===== src/Delta/Apply.antt =====
-- The rest of applyDeltaPatch of munin/Delta/bsdiff.c: the start of the stream and the end of the page.
use ravens.Base.{
  ℕ, zero, suc, ◌+◌, ◌-◌, ◌*◌, ◌%◌, Bool, false, not, ◌||◌, Option, none, some, ◌==◌, ltb,
  if◌then◌else◌,
}
use ravens.Base.Memory.{shift}
use ravens.Decoder.Reader.{size_mod}
use ravens.Delta.{Context, length_or, consume_dword, perform_validation}
use ravens.Device.{Device, M, ok, pure, skip, fails, overrun, get, ◌>>=◌, ◌>>◌, read_le, write}
use ravens.Flash.{block_size}
use ravens.Lzfx.{Result, code_ok, lzfx_ok, lzfx_decompress}
use ravens.Metadata.{header_size, header_manifest_length}
use ravens.Platform.{Platform}
use ravens.Delta.Patch.{Patch, old_data, put_byte, patch_loop}

-- BSDIFF_MAGIC
abbrev pub bsdiff_magic : ℕ
bsdiff_magic = 0x5ec1_714e

module _ (p : Platform) (dry_run : Bool) (page previous : ℕ) where
  -- The padding of the current qword with old bytes, for as many bytes as it lacks.
  unfoldable pub pad_qword : (left : ℕ) → Patch → M Patch
  pad_qword zero s = pure s
  pad_qword (suc left) s = do
    d ← get
    t ← put_byte p dry_run page previous (old_data p dry_run page previous s d s.output_offset) s
    pad_qword left t

  -- What is left of the page.
  unfoldable pub finish_page : Patch → M Patch
  finish_page s = if s.output_offset == block_size || s.context.is_out_of_data then pure s else do
    t ← pad_qword ((8 - s.output_offset % 8) % 8) s
    d ← get
    (if t.resuming then skip else do
      write p (page + t.output_offset) (block_size - t.output_offset)
          (shift (old_data p dry_run page previous t d) t.output_offset)
      skip)
    pure t

  -- From the first double words on.
  unfoldable pub run_patch : (fuel trace : ℕ) → (resuming : Bool) → Context → M Bool
  run_patch fuel trace resuming c = do
    (segments, e) ← consume_dword c
    (length, f) ← consume_dword e
    s ← patch_loop p dry_run page previous fuel segments (record {
      context = f;
      trace = trace;
      resuming = resuming;
      have_cached_page = false;
      did_delta = false;
      write_counter = 0;
      segment = 0;
      output_offset = 0;
      segment_offset = 0;
      subsegment_length = length;
    })
    t ← finish_page s
    (good, g) ← perform_validation p dry_run t.context
    pure good

-- The first decompression, which has to succeed.
unfoldable pub started : Context → Option Result → (Context → M Bool) → M Bool
started c none next d = fails overrun d
started c (some (code_ok, length, s, buffer)) next d =
    next (record c { lzfx = s; length_left = length_or block_size length })
      (record d { cache_ram = buffer })
started c (some (code, length, s, buffer)) next d = ok false (record d { cache_ram = buffer })

-- The context at first, for a stream of `length` bytes at an address.
abbrev pub start_stream : Device → (address length : ℕ) → Context
start_stream d address length = record {
  lzfx = record {
    input = some (shift d.nand address);
    current_input_offset = 0;
    input_length = length;
    output = some 0;
    output_real_size = block_size;
    status = lzfx_ok;
    length_to_read = 0;
    back_ref = 0;
  };
  input_address = address;
  current_cache_offset = 0;
  length_left = block_size;
  is_out_of_data = false;
}

-- `manifestLength - currentIndex - 2 * sizeof(uint32_t)`
abbrev pub input_length_of : (manifest_length index : ℕ) → ℕ
input_length_of manifest_length index = (manifest_length + 2 * size_mod - index - 8) % size_mod

-- applyDeltaPatch. `fuel` bounds the rounds of its loop.
unfoldable pub apply_delta_patch :
    Platform → (fuel header index trace previous : ℕ) → (dry_run : Bool) → M Bool
apply_delta_patch p fuel header index trace previous dry_run d =
    let base = header + header_size + index in
    let c =
      start_stream d (base + 8)
        (input_length_of (read_le d.nand (header + header_manifest_length) 4) index) in
    (if not (read_le d.nand base 4 == bsdiff_magic)
        then pure false
        else started c (lzfx_decompress c.lzfx d.cache_ram (some block_size)) (
            run_patch p dry_run (read_le d.nand (base + 4) 4 * block_size % size_mod) previous fuel
              trace (dry_run || ltb trace previous)))
      d
