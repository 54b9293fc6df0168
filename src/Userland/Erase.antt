-- ===== src/Userland/Erase.antt =====
-- eraseNecessarySpace of munin/Userland/userland_utils.c.
use ravens.Base.{
  ℕ, zero, suc, ◌+◌, ◌-◌, ◌*◌, ◌/◌, ◌%◌, ◌≤◌, ◌<◌, ◌≡◌, refl, fun_ext, inl, inr, Bool-cases, true,
  some, arith, ◌==◌, ltb,
}
use ravens.Base.Memory.{Bytes, fill}
use ravens.Flash.{block_size, erase_page}
use ravens.Platform.{Platform, IsFlash}
use ravens.Userland.{erase_loop, erase_necessary_space}

fill_next :
    (nand : Bytes) (base count : ℕ)
    → fill (fill nand base block_size 0xff) (base + block_size) (count * block_size) 0xff
      ≡ fill nand base ((count + 1) * block_size) 0xff
unfolding fill
fill_next nand base count = fun_ext λ a. ground arith

module _ (p : Platform) (flash : IsFlash p) where
  erase_page-fill :
      (nand : Bytes) (base : ℕ)
      → base % block_size ≡ 0
      → erase_page p nand base ≡ some (fill nand base block_size 0xff)
  unfolding erase_page
  erase_page-fill nand base aligned =
      let here : base / 4096 * 4096 ≡ base = omega arith in
      let test : (base % block_size == 0) ≡ true = ground arith in
      rw (test, flash.erase nand base, here) refl

  erase_loop-fill :
      (fuel : ℕ) (nand : Bytes) (base length : ℕ)
      → base % block_size ≡ 0
      → length ≤ (fuel + 1) * block_size
      → erase_loop fuel p nand base length
        ≡ some (fill nand base (((length - 1) / block_size + 1) * block_size) 0xff)
  unfolding erase_loop
  erase_loop-fill zero nand base length aligned short =
      let one : ((length - 1) / block_size + 1) * block_size ≡ block_size = omega arith in
      rw (one, erase_page-fill nand base aligned) refl
  erase_loop-fill (suc fuel) nand base length aligned short =
      elim (Bool-cases (ltb block_size length)) [
        | inl more ↦
            let h : block_size < length = ground (arith, more) in
            let left : (length - block_size - 1) / block_size + 1 ≡ (length - 1) / block_size =
              omega arith in
            rw
              (
                more,
                erase_page-fill nand base aligned,
                erase_loop-fill fuel (fill nand base block_size 0xff) (base + block_size)
                    (length - block_size) (omega arith) (omega arith),
                left,
                fill_next nand base ((length - 1) / block_size),
              )
              refl
        | inr last ↦
            let h : length ≤ block_size = ground (arith, last) in
            let one : ((length - 1) / block_size + 1) * block_size ≡ block_size = omega arith in
            rw (last, one, erase_page-fill nand base aligned) refl
      ]

  -- eraseNecessarySpace ends, and it erases as many blocks as the length takes up, one at least, and
  -- nothing else. It begins at a block.
  pub erase_necessary_space-fill :
      (nand : Bytes) (base length : ℕ)
      → base % block_size ≡ 0
      → erase_necessary_space p nand base length
        ≡ some (fill nand base (((length - 1) / block_size + 1) * block_size) 0xff)
  unfolding erase_necessary_space
  erase_necessary_space-fill nand base length aligned =
      erase_loop-fill (length / block_size) nand base length aligned (omega arith)
