-- ===== src/Copy/Halts.antt =====
-- The copies need no fuel.
use ravens.Base.{ℕ, ◌+◌, ◌-◌, ◌%◌, ◌||◌, ◌==◌, leb, ltb, if◌then◌else◌}
use ravens.Base.Memory.{blit, fill}
use ravens.Copy.{
  Source, bytes_at, advance, ram, nand, set_write_cache, set_pos, within, copy_aligned,
  pad_write_cache, copy_continued, perform_copy_with_cache, flush_copy_cache, perform_copy,
}
use ravens.Decoder.{Opcode, Command, copy_nn, copy_nc, copy_cn, copy_cc}
use ravens.Decoder.Reader.{size_mod}
use ravens.Device.Halts.{Halts, seq, branch, write-Halts}
use ravens.Device.{Device, overrun, M, skip, get, fails, ◌>>=◌, ◌>>◌, write}
use ravens.Platform.{Platform}

within-Halts : (last size : ℕ) → Halts (within last size)
within-Halts last size = branch (leb last size) skip (fails overrun) (λ d. tt) (λ d. tt)

module _ (p : Platform) where
  pub copy_aligned-Halts :
      (dest : ℕ) (source : Source) (length : ℕ) → Halts (copy_aligned p dest source length)
  unfolding copy_aligned
  copy_aligned-Halts dest source length d =
      seq (write p dest _ _) _ (write-Halts p dest _ _)
        (branch (length % 8 == 0) skip _ (λ e. tt) (λ e. tt)) d

  pub pad_write_cache-Halts : (dest : ℕ) → Halts (pad_write_cache p dest)
  unfolding pad_write_cache
  pad_write_cache-Halts dest d =
      let gap = 8 - dest % 8 in
      branch ((d.prev_dest + d.write_cache_pos) % size_mod == dest) skip
        (within (d.write_cache_pos + gap) 8
          >> set_write_cache (fill d.write_cache d.write_cache_pos gap 0xff)
              ((d.write_cache_pos + dest % 8) % 256))
        (λ e. tt)
        (seq (within (d.write_cache_pos + gap) 8) _ (within-Halts (d.write_cache_pos + gap) 8)
          (λ e. tt))
        d

  pub copy_continued-Halts :
      (dest : ℕ) (source : Source) (length : ℕ) → Halts (copy_continued p dest source length)
  unfolding copy_continued
  copy_continued-Halts dest source length =
      seq (pad_write_cache p dest) _ (pad_write_cache-Halts dest) λ d.
        let left = (264 - d.write_cache_pos) % 256 in
        branch (ltb length left)
          (within (d.write_cache_pos + length) 8
            >> set_write_cache (blit d.write_cache d.write_cache_pos length (bytes_at source d))
                ((d.write_cache_pos + length) % 256))
          (within (d.write_cache_pos + left) 8 >> last d left)
          (seq (within (d.write_cache_pos + length) 8) _
            (within-Halts (d.write_cache_pos + length) 8) (λ e. tt))
          (seq (within (d.write_cache_pos + left) 8) (last d left)
            (within-Halts (d.write_cache_pos + left) 8) (last-Halts d left))
          d
    where
      last : Device → ℕ → M (Unit {0})
      last d left = do
        set_write_cache (blit d.write_cache d.write_cache_pos left (bytes_at source d))
            d.write_cache_pos
        e ← get
        write p e.prev_dest 8 e.write_cache
        set_pos 0
        copy_aligned p (dest + left) (advance source left) (length - left)

      last-Halts : (d : Device) (left : ℕ) → Halts (last d left)
      last-Halts d left e =
          seq (write p e.prev_dest 8 _) _ (write-Halts p e.prev_dest 8 _)
            (λ f.
              copy_aligned-Halts (dest + left) (advance source left) (length - left)
                (record f { write_cache_pos = 0 }))
            (record e {
              write_cache = blit d.write_cache d.write_cache_pos left (bytes_at source d);
              write_cache_pos = d.write_cache_pos;
            })

  pub perform_copy_with_cache-Halts :
      (dest : ℕ) (source : Source) (length : ℕ)
      → Halts (perform_copy_with_cache p dest source length)
  unfolding perform_copy_with_cache
  perform_copy_with_cache-Halts dest source length d =
      branch (d.write_cache_pos == 0) (copy_aligned p dest source length)
        (if leb dest d.prev_dest || leb ((d.prev_dest + 8) % size_mod) dest
          then flushed
          else copy_continued p dest source length)
        (copy_aligned-Halts dest source length)
        (branch (leb dest d.prev_dest || leb ((d.prev_dest + 8) % size_mod) dest) flushed
          (copy_continued p dest source length)
          (seq (write p dest d.write_cache_pos d.write_cache) _
            (write-Halts p dest d.write_cache_pos d.write_cache)
            (λ e. copy_aligned-Halts dest source length (record e { write_cache_pos = 0 })))
          (copy_continued-Halts dest source length))
        d
    where
      flushed : M (Unit {0})
      flushed = do
        write p dest d.write_cache_pos d.write_cache
        set_pos 0
        copy_aligned p dest source length

  pub flush_copy_cache-Halts : Halts (flush_copy_cache p)
  unfolding flush_copy_cache
  flush_copy_cache-Halts d =
      branch (d.write_cache_pos == 0) skip _ (λ e. tt)
        (λ e. seq (write p _ 8 _) _ (write-Halts p _ 8 _) (λ f. tt) _) d

  pub perform_copy-Halts : (op : Opcode) (c : Command) → Halts (perform_copy p op c)
  unfolding perform_copy
  perform_copy-Halts copy_cc c =
      seq (within (c.main_address + c.length) 4096) _
        (within-Halts (c.main_address + c.length) 4096)
        (seq (within (c.secondary_address + c.length) 4096) _
          (within-Halts (c.secondary_address + c.length) 4096) (λ d. tt))
  perform_copy-Halts copy_cn c =
      seq (within (c.main_address + c.length) 4096) _
        (within-Halts (c.main_address + c.length) 4096)
        (perform_copy_with_cache-Halts c.secondary_address (ram c.main_address) c.length)
  perform_copy-Halts copy_nc c =
      seq (within (c.secondary_address + c.length) 4096) _
        (within-Halts (c.secondary_address + c.length) 4096) (λ d. tt)
  perform_copy-Halts copy_nn c =
      perform_copy_with_cache-Halts c.secondary_address (nand c.main_address) c.length
  perform_copy-Halts _ c = λ d. tt
