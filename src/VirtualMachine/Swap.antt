-- ===== src/VirtualMachine/Swap.antt =====
-- Blocks that change places through the cache.
use ravens.Base.{
  ℕ, ◌+◌, ◌%◌, ◌≤◌, ◌<◌, ◌≡◌, ◌≢◌, refl, ◌⊎◌, fun_ext, true, some, List, [], ◌∷◌, ◌++◌, ap, ◌∙◌,
  arith,
}
use ravens.Base.Memory.{Bytes, blit, fill, shift}
use ravens.Encoder.{Instr, PublicCommand, cache_address}
use ravens.Flash.{block_size}
use ravens.VirtualMachine.{
  Vm, Pointer, plus, unchain, chain, erased, copy_bytes, perform_copy, fits, is_cache,
  check_aligned, step_as, run, start, is_flash_length, virtual_machine,
}
use ravens.VirtualMachine.Write.{all_erased, all_erased-fill, blitted, write_flash-blit}

abbrev command : Instr → (main secondary length : ℕ) → PublicCommand
command i main secondary length = record {
  command = i;
  main_address = main;
  secondary_address = secondary;
  length = length;
}

-- Block `a` to the cache, block `b` to where it was, and the cache to block `b`, which it erases.
abbrev pub swaps : (pairs : List (ℕ × ℕ)) → List PublicCommand
swaps [] = []
swaps ((a, b) ∷ rest) =
    command Instr.load_and_flush a 0 0
    ∷ command Instr.copy b a block_size
    ∷ command Instr.flush_and_partial_commit b 0 block_size
    ∷ swaps rest

-- The flash with two blocks exchanged.
abbrev pub swapped : Bytes → (a b : ℕ) → Bytes
swapped flash a b = blit (blit flash a block_size (shift flash b)) b block_size (shift flash a)

-- The flash with one pair of blocks exchanged after the other.
abbrev pub all_swapped : Bytes → (pairs : List (ℕ × ℕ)) → Bytes
all_swapped flash [] = flash
all_swapped flash ((a, b) ∷ rest) = all_swapped (swapped flash a b) rest

-- Two different blocks of the flash.
pub record Blocks (n a b : ℕ) : Type 0 where
  pub first_whole : a % block_size ≡ 0
  pub second_whole : b % block_size ≡ 0
  pub first_in : a < n
  pub second_in : b < n
  pub apart : a ≢ b

abbrev pub AllBlocks : (n : ℕ) (pairs : List (ℕ × ℕ)) → Type 0
AllBlocks n [] = Unit
AllBlocks n ((a, b) ∷ rest) = Blocks n a b × AllBlocks n rest

module _ (n : ℕ) (low : n ≤ cache_address) where
  check_aligned_passes :
      (address : ℕ) → address % block_size ≡ 0 → address < n → check_aligned n address ≡ some tt
  unfolding check_aligned
  check_aligned_passes address h g = ground arith

  perform_copy-blocks :
      (a b : ℕ) (vm : Vm)
      → a % block_size ≡ 0
      → a + block_size ≤ n
      → b + block_size ≤ n
      → all_erased vm.flash a block_size ≡ true
      → (a ≤ b) ⊎ (b + block_size ≤ a)
      → perform_copy n b block_size a vm ≡ some (blitted vm a block_size (shift vm.flash b))
  unfolding perform_copy fits copy_bytes is_cache
  perform_copy-blocks a b vm whole fit_a fit_b clean apart =
      rw (write_flash-blit block_size a (Pointer.in_flash b) vm apart, clean) (ground arith)

module _ (n : ℕ) (low : n ≤ cache_address) (blocks : n % block_size ≡ 0) (vm : Vm) (a b : ℕ)
    (h : Blocks n a b) where
  abbrev loaded : Vm
  loaded = unchain (record vm {
    flash = fill vm.flash a block_size 0xff;
    cache = blit vm.cache 0 block_size (shift vm.flash a);
  })

  abbrev copied : Vm
  copied = chain (plus a block_size) (blitted loaded a block_size (shift loaded.flash b))

  abbrev exchanged : Vm
  exchanged =
      chain (plus b block_size) (blitted (erased b copied) b block_size (shift copied.cache 0))

  apart_blocks : a + block_size ≤ b ⊎ b + block_size ≤ a
  apart_blocks = omega (arith, h.first_whole, h.second_whole, h.apart)

  inside : (c : ℕ) → c % block_size ≡ 0 → c < n → c + block_size ≤ n
  inside c whole under = omega (arith, whole, under, blocks)

  exchanged-flash : exchanged.flash ≡ swapped vm.flash a b
  unfolding blit fill
  exchanged-flash = fun_ext λ x. ground (arith, apart_blocks)

  run-exchanged :
      (rest : List PublicCommand) → run n (swaps ((a, b) ∷ []) ++ rest) vm ≡ run n rest exchanged
  unfolding run step_as
  run-exchanged rest =
      rw
        (
          check_aligned_passes n low a h.first_whole h.first_in,
          perform_copy-blocks n low a b loaded h.first_whole (inside a h.first_whole h.first_in)
              (inside b h.second_whole h.second_in)
              (all_erased-fill vm.flash a block_size block_size a (omega arith) (omega arith))
              (ground (arith, apart_blocks)),
          check_aligned_passes n low b h.second_whole h.second_in,
          write_flash-blit block_size b (Pointer.in_cache 0) (erased b copied) tt,
          all_erased-fill copied.flash b block_size block_size b (omega arith) (omega arith),
        )
        refl

run-swaps :
    (n : ℕ)
    → n ≤ cache_address
    → n % block_size ≡ 0
    → (pairs : List (ℕ × ℕ)) (vm : Vm) → AllBlocks n pairs
    → (last : Vm) × (run n (swaps pairs) vm ≡ some (true, last))
      × (last.flash ≡ all_swapped vm.flash pairs)
run-swaps n low blocks [] vm h = (vm, unfold run in refl, refl)
run-swaps n low blocks ((a, b) ∷ rest) vm (h, more) =
    let (last, ran, same) = run-swaps n low blocks rest (exchanged n low blocks vm a b h) more in
    (
      last,
      run-exchanged n low blocks vm a b h (swaps rest) ∙ ran,
      same ∙ ap (λ f. all_swapped f rest) (exchanged-flash n low blocks vm a b h),
    )

-- Any sequence of exchanges, each of which loads a block and erases it, copies another one to its place
-- and erases the other one to write the cache there, exchanges these pairs of blocks of the flash in
-- turn and keeps every other byte, with no assertion failing. Every write is one of writeFlash, which
-- fails on a byte that is not erased. The flash consists of whole blocks and ends below the addresses
-- of the cache.
pub virtual_machine-swaps :
    (flash : Bytes) (n : ℕ) (pairs : List (ℕ × ℕ))
    → n ≤ cache_address
    → is_flash_length n ≡ true
    → AllBlocks n pairs
    → virtual_machine (swaps pairs) flash n ≡ some (true, all_swapped flash pairs)
unfolding virtual_machine
virtual_machine-swaps flash n pairs low right h =
    let (last, ran, same) = run-swaps n low (ground (arith, right)) pairs (start flash) h in
    rw (right, ran, same) refl
