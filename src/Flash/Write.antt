-- ===== src/Flash/Write.antt =====
-- writeToNAND on erased flash.
use ravens.Base.{
  ℕ, suc, ◌+◌, ◌-◌, ◌*◌, ◌/◌, ◌%◌, ◌≤◌, ◌<◌, min, ◌≡◌, refl, ap, ◌∙◌, fun_ext, inl, inr, Bool, true,
  arith, ◌==◌, Bool-cases, if◌then◌else◌, leb,
}
use ravens.Base.Memory.{Bytes, shift, blit, fill}
use ravens.Flash.{whole_part, pad_head, pad_tail, write_aligned, write_depth, write_to_nand}
use ravens.Platform.{Platform, IsErased, IsFlash}

blit-zero : (m : Bytes) (start : ℕ) (src : Bytes) → blit m start 0 src ≡ m
unfolding blit
blit-zero m start src = fun_ext λ a. ground arith

-- The bytes of an address before the one that is written are kept.
blit_before :
    (m : Bytes) (start len : ℕ) (src : Bytes) (a : ℕ) → a < start → blit m start len src a ≡ m a
unfolding blit
blit_before m start len src a h = ground arith

blit_behind :
    (m : Bytes) (start len : ℕ) (src : Bytes) (a : ℕ)
    → start + len ≤ a
    → blit m start len src a ≡ m a
unfolding blit
blit_behind m start len src a h = ground arith

-- The padding behind the end of a write is what erased flash holds.
blit-pad_tail :
    (nand : Bytes) (address length : ℕ) (source : Bytes)
    → IsErased nand address ((length + 7) / 8 * 8)
    → 0 < length % 8
    → blit
        (blit nand address (whole_part length) source)
        (address + whole_part length)
        8
        (pad_tail source length)
      ≡ blit nand address length source
unfolding blit pad_tail fill
blit-pad_tail nand address length source erased more =
    fun_ext
      λ a. ground (arith, erased (a - address), ap nand (the_address a), ap source (the_offset a))
  where
    the_address : (a : ℕ) → address + (a - address) ≡ (if leb address a then a else address)
    the_address a = ground arith

    the_offset :
        (a : ℕ)
        → whole_part length + (a - (address + whole_part length))
          ≡ (if leb (address + whole_part length) a then a - address else whole_part length)
    the_offset a = ground arith

module _ {p : Platform} (flash : IsFlash p) where
  -- One phrase, at an aligned address.
  write_phrase :
      (depth : ℕ) (nand : Bytes) (address : ℕ) (source : Bytes)
      → address % 8 ≡ 0
      → IsErased nand address 8
      → write_depth p (suc depth) nand address 8 source ≡ (true, blit nand address 8 source)
  unfolding write_depth write_aligned
  write_phrase depth nand address source aligned erased =
      ground (arith, flash.program nand address source 8 aligned refl erased)

  program_whole :
      (nand : Bytes) (address length : ℕ) (source : Bytes)
      → address % 8 ≡ 0
      → IsErased nand address ((length + 7) / 8 * 8)
      → (if whole_part length == 0
          then nand
          else p.program_flash nand address source (whole_part length))
        ≡ blit nand address (whole_part length) source
  program_whole nand address length source aligned erased = ground (
    arith,
    blit-zero nand address source,
    flash.program nand address source (whole_part length) aligned (omega arith)
        (λ i h. erased i (omega arith)),
  )

  -- The whole phrases of a write, and the padded one at its end.
  write_aligned-blit :
      (depth : ℕ) (nand : Bytes) (address length : ℕ) (source : Bytes)
      → address % 8 ≡ 0
      → IsErased nand address ((length + 7) / 8 * 8)
      → write_aligned p (write_depth p (suc depth)) nand address length source
        ≡ blit nand address length source
  unfolding write_aligned
  write_aligned-blit depth nand address length source aligned erased =
      simp (program_whole nand address length source aligned erased)
        (elim (Bool-cases (length - whole_part length == 0)) [
          | inl even ↦ rw even (ap (λ (n : ℕ). blit nand address n source) (ground arith))
          | inr odd ↦
              rw
                (
                  odd,
                  write_phrase depth (blit nand address (whole_part length) source)
                      (address + whole_part length) (pad_tail source length) (omega arith)
                      (behind (ground arith)),
                )
                (blit-pad_tail nand address length source erased (ground arith))
        ])
    where
      behind :
          0 < length % 8
          → IsErased (blit nand address (whole_part length) source) (address + whole_part length) 8
      behind more i h =
          blit_behind nand address (whole_part length) source (address + whole_part length + i)
            (omega arith)
          ∙ ap nand (omega arith)
          ∙ erased (whole_part length + i) (omega arith)

  -- On flash as required, a write to an aligned address writes its source, whatever its length, and nothing else, if the
  -- flash is erased up to the end of the last phrase.
  pub write_to_nand-blit :
      (nand : Bytes) (address length : ℕ) (source : Bytes)
      → address % 8 ≡ 0
      → IsErased nand address ((length + 7) / 8 * 8)
      → write_to_nand p nand address length source ≡ (true, blit nand address length source)
  unfolding write_to_nand write_depth
  write_to_nand-blit nand address length source aligned erased = ground (arith, unfold_aligned)
    where
      unfold_aligned :
          write_aligned p (write_depth p 1) nand address length source
          ≡ blit nand address length source
      unfold_aligned = write_aligned-blit 0 nand address length source aligned erased

  -- On erased flash the padded head of a misaligned write is 0xff throughout.
  blit-pad_head :
      (nand : Bytes) (address copied : ℕ)
      → address % 8 ≡ 4
      → IsErased nand (address - 4) 8
      → blit nand (address - 4) 8 (pad_head nand address copied) ≡ nand
  unfolding blit pad_head fill
  blit-pad_head nand address copied half erased = fun_ext λ a. ground (
    arith,
    erased (a - (address - 4)),
    ap nand (the_address a),
    ap (λ (t : ℕ). nand (address - t + (a - (address - 4)))) half,
  )
    where
      the_address :
          (a : ℕ)
          → address - 4 + (a - (address - 4)) ≡ (if leb (address - 4) a then a else address - 4)
      the_address a = ground arith

  padded_head :
      (nand : Bytes) (address copied : ℕ)
      → address % 8 ≡ 4
      → IsErased nand (address - 4) 8
      → (write_depth p 1 nand (address - address % 8) 8 (pad_head nand address copied)).1 ≡ nand
  padded_head nand address copied half erased = rw half (
      ap (λ (r : Bool × Bytes). r.1)
        (write_phrase 0 nand (address - 4) (pad_head nand address copied) (omega arith) erased)
      ∙ blit-pad_head nand address copied half erased)

  from_fifth :
      (nand : Bytes) (address length : ℕ) (source : Bytes)
      → address % 8 ≡ 4
      → IsErased nand (address - 4) ((length + 11) / 8 * 8)
      → write_aligned p (write_depth p 1) nand (address + 4) (length - 4) (shift source 4)
        ≡ blit nand (address + 4) (length - 4) (shift source 4)
  from_fifth nand address length source half erased =
      write_aligned-blit 0 nand (address + 4) (length - 4) (shift source 4) (omega arith)
        (λ i h. ap nand (omega arith) ∙ erased (8 + i) (omega arith))

  -- On flash that is erased around it, a write to an address in the middle of a phrase loses the bytes that should go into that
  -- phrase: it writes the source from its fifth byte on, and leaves the first four erased.
  pub write_to_nand_misaligned :
      (nand : Bytes) (address length : ℕ) (source : Bytes)
      → address % 8 ≡ 4
      → IsErased nand (address - 4) ((length + 11) / 8 * 8)
      → write_to_nand p nand address length source
        ≡ (true, blit nand (address + 4) (length - 4) (shift source 4))
  unfolding write_to_nand write_depth
  write_to_nand_misaligned nand address length source half erased = ground (
    arith,
    padded_head nand address (min (8 - address % 8) length) half (λ i h. erased i (omega arith)),
    from_fifth nand address length source half erased,
    ap (λ (n : ℕ). blit nand (address + 4) n (shift source 4)) (short length),
    blit-zero nand (address + 4) (shift source 4),
    half,
  )
    where
      short : (n : ℕ) → n - 4 ≡ (if leb n 4 then 0 else n - 4)
      short n = ground arith
