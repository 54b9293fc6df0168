-- ===== src/Copy/Flush.antt =====
-- The write cache is transparent: a copy and the flush after it write the source, whatever its
-- length.
use ravens.Base.{
  ℕ, ◌+◌, ◌-◌, ◌*◌, ◌/◌, ◌%◌, ◌^◌, ◌≡◌, ◌≢◌, ◌<◌, refl, ap, fun_ext, inl, inr, true, none, arith,
  ◌==◌, Bool-cases, leb, if◌then◌else◌,
}
use ravens.Base.Memory.{Bytes, shift, blit, fill}
use ravens.Copy.{ram, copy_aligned, perform_copy_with_cache, flush_copy_cache}
use ravens.Decoder.Reader.{size_mod}
use ravens.Device.{Device, ok, ◌>>◌, write}
use ravens.Device.Ends.{write-powered}
use ravens.Flash.{whole_part}
use ravens.Platform.{Platform, IsFlash, IsErased}

module _ {p : Platform} (flash : IsFlash p) (d : Device) (on : d.power ≡ none)
    (dest offset length : ℕ) (aligned : dest % 8 ≡ 0) (fits : dest + length < 2 ^ 31)
    (erased : IsErased d.nand dest ((length + 7) / 8 * 8)) where
  abbrev source : Bytes
  source = shift d.cache_ram offset

  abbrev rest : ℕ
  rest = length - whole_part length

  -- The aligned part of the copy.
  abbrev wrote : Bytes
  wrote = blit d.nand dest (whole_part length) source

  wrote_lem : write p dest (whole_part length) source d ≡ ok true (record d { nand = wrote })
  wrote_lem =
      write-powered flash d dest (whole_part length) source aligned (λ i h. erased i (omega arith))
        on

  copied_whole :
      rest ≡ 0
      → d.write_cache_pos ≡ 0
      → (perform_copy_with_cache p dest (ram offset) length >> flush_copy_cache p) d
        ≡ ok tt (record d { nand = wrote })
  unfolding perform_copy_with_cache copy_aligned flush_copy_cache
  copied_whole even empty = ground (arith, wrote_lem)

  -- The device between the copy and the flush, if some bytes wait in the write cache.
  abbrev waiting : Device
  waiting = record d {
    nand = wrote;
    write_cache = blit d.write_cache 0 rest (shift source (whole_part length));
    write_cache_pos = rest;
    prev_dest = (dest + whole_part length) % size_mod;
  }

  copied_waiting :
      rest ≢ 0
      → d.write_cache_pos ≡ 0
      → perform_copy_with_cache p dest (ram offset) length d ≡ ok tt waiting
  unfolding perform_copy_with_cache copy_aligned
  copied_waiting odd empty = ground (arith, wrote_lem)

  abbrev padded : Bytes
  padded = fill waiting.write_cache rest (8 - rest) 0xff

  flushed_lem :
      rest ≢ 0
      → flush_copy_cache p waiting
        ≡ ok tt (record waiting {
          nand = blit wrote (dest + whole_part length) 8 padded;
          write_cache = padded;
          write_cache_pos = 0;
        })
  unfolding flush_copy_cache
  flushed_lem odd = ground (
    arith,
    write-powered flash (record waiting { write_cache = padded }) (dest + whole_part length) 8
        padded (omega arith)
        (λ i h.
          unfold blit in ground (arith, erased (whole_part length + i), ap d.nand (the_address i)))
        on,
    ap (λ (a : ℕ). write p a 8 padded (record waiting { write_cache = padded })) no_wrap,
  )
    where
      no_wrap : (dest + whole_part length) % size_mod ≡ dest + whole_part length
      no_wrap = omega arith

      the_address : (i : ℕ) → dest + (whole_part length + i) ≡ dest + whole_part length + i
      the_address i = omega arith

  end_joined :
      rest ≢ 0 → blit wrote (dest + whole_part length) 8 padded ≡ blit d.nand dest length source
  unfolding blit fill
  end_joined odd = fun_ext λ a.
      ground (arith, erased (a - dest), ap d.nand (the_address a), ap d.cache_ram (the_offset a))
    where
      the_address : (a : ℕ) → dest + (a - dest) ≡ (if leb dest a then a else dest)
      the_address a = ground arith

      the_offset :
          (a : ℕ)
          → offset + (whole_part length + (a - (dest + whole_part length))) ≡ (
              if leb (dest + whole_part length) a
              then offset + (a - dest)
              else offset + whole_part length)
      the_offset a = ground arith

  -- With power, an empty write cache and flash that is erased up to the end of the last phrase, below
  -- 2 GB: a copy from `cacheRAM` to an aligned address, and the flush that ERASE makes, write `length`
  -- bytes of the cache there and nothing else, whatever the length: the bytes of an incomplete
  -- phrase wait in the write cache, which is empty again at the end.
  pub copy-flush :
      d.write_cache_pos ≡ 0
      → (e : Device) × ((perform_copy_with_cache p dest (ram offset) length >> flush_copy_cache p) d
          ≡ ok tt e)
        × (e.nand ≡ blit d.nand dest length source)
        × (e.write_cache_pos ≡ 0)
  copy-flush empty = elim (Bool-cases (rest == 0)) [
    | inl even ↦ (
      _,
      copied_whole (ground arith) empty,
      ap (λ (n : ℕ). blit d.nand dest n source) (ground arith),
      empty,
    )
    | inr odd ↦ (
      record waiting {
        nand = blit wrote (dest + whole_part length) 8 padded;
        write_cache = padded;
        write_cache_pos = 0;
      },
      rw (copied_waiting (ground arith) empty) (flushed_lem (ground arith)),
      end_joined (ground arith),
      refl,
    )
  ]
