-- ===== src/VirtualMachine/Write.antt =====
-- writeFlash and the loop of virtualMachine.
use ravens.Base.{
  ℕ, zero, suc, ◌+◌, ◌-◌, ◌≤◌, ◌<◌, ◌≡◌, refl, sym, ap, ◌⊎◌, inl, inr, fun_ext, Bool-cases, Bool,
  true, ◌&&◌, none, some, arith, ◌==◌, if◌then◌else◌,
}
use ravens.Base.Memory.{Bytes, blit, fill}
use ravens.VirtualMachine.{Vm, Pointer, next, at_pointer, write_flash}

-- The bytes from `dest` on are erased.
unfoldable pub all_erased : Bytes → (dest length : ℕ) → Bool
all_erased m dest zero = true
all_erased m dest (suc length) = m dest == 0xff && all_erased m (dest + 1) length

-- A part of what was just erased.
pub all_erased-fill :
    (m : Bytes) (start len length dest : ℕ)
    → start ≤ dest
    → dest + length ≤ start + len
    → all_erased (fill m start len 0xff) dest length ≡ true
unfolding all_erased fill
all_erased-fill m start len zero dest h g = refl
all_erased-fill m start len (suc length) dest h g =
    ground (arith, all_erased-fill m start len length (dest + 1))

-- The loop does not read a byte behind the one that it has written.
abbrev pub Ahead : (dest : ℕ) → Pointer → (length : ℕ) → Type 0
Ahead dest (Pointer.in_flash a) length = (dest ≤ a) ⊎ (a + length ≤ dest)
Ahead dest (Pointer.in_cache a) length = Unit

abbrev pub blitted : Vm → (dest length : ℕ) → Bytes → Vm
blitted vm dest length bytes = record vm { flash = blit vm.flash dest length bytes }

blit_split :
    (m : Bytes) (dest length : ℕ) (bytes : Bytes) (later : Bytes)
    → ((i : ℕ) → i < length → later i ≡ bytes (i + 1))
    → blit (blit m dest 1 bytes) (dest + 1) length later ≡ blit m dest (suc length) bytes
unfolding blit
blit_split m dest length bytes later same = fun_ext λ a. ground (
  arith,
  same (a - (dest + 1)),
  λ (e : a ≡ dest). ap bytes (first a e),
  λ (h : dest < a). ap bytes (behind a h),
)
  where
    first : (a : ℕ) → a ≡ dest → a - dest ≡ a - dest
    first a e = refl

    behind : (a : ℕ) → dest < a → a - (dest + 1) + 1 ≡ a - dest
    behind a h = omega arith

blit_nothing : (m : Bytes) (dest : ℕ) (bytes : Bytes) → blit m dest 0 bytes ≡ m
unfolding blit
blit_nothing m dest bytes = fun_ext λ a. ground arith

all_erased-blit :
    (m : Bytes) (dest at : ℕ) (bytes : Bytes) (length : ℕ)
    → at < dest
    → all_erased (blit m at 1 bytes) dest length ≡ all_erased m dest length
unfolding all_erased blit
all_erased-blit m dest at bytes zero h = refl
all_erased-blit m dest at bytes (suc length) h =
    let ih = all_erased-blit m (dest + 1) at bytes length (omega arith) in ground (arith, ih)

at_pointer-next :
    (source : Pointer) (vm : Vm) (dest length i : ℕ) (bytes : Bytes)
    → Ahead dest source (suc length)
    → i < length
    → at_pointer (next source) (blitted vm dest 1 bytes) i ≡ at_pointer source vm (i + 1)
unfolding blit
at_pointer-next (Pointer.in_flash a) vm dest length i bytes h under =
    ground (arith, h, ap vm.flash (moved))
  where
    moved : a + 1 + i ≡ a + (i + 1)
    moved = omega arith
at_pointer-next (Pointer.in_cache a) vm dest length i bytes h under = ap vm.cache moved
  where
    moved : a + 1 + i ≡ a + (i + 1)
    moved = omega arith

Ahead-next :
    (source : Pointer) (dest length : ℕ)
    → Ahead dest source (suc length)
    → Ahead (dest + 1) (next source) length
Ahead-next (Pointer.in_flash a) dest length h = ground (arith, h)
Ahead-next (Pointer.in_cache a) dest length h = tt

-- writeFlash fails if a byte of the destination is not erased, and otherwise it copies the source as
-- memmove does, unless it would read what it wrote.
pub write_flash-blit :
    (length dest : ℕ) (source : Pointer) (vm : Vm)
    → Ahead dest source length
    → write_flash dest source length vm ≡ (
        if all_erased vm.flash dest length
        then some (blitted vm dest length (at_pointer source vm))
        else none)
unfolding write_flash all_erased
write_flash-blit zero dest source vm h =
    ap (λ (f : Bytes). some (record vm { flash = f }))
      (sym (blit_nothing vm.flash dest (at_pointer source vm)))
write_flash-blit (suc length) dest source vm h =
    let vm' = blitted vm dest 1 (at_pointer source vm) in
    elim (Bool-cases (vm.flash dest == 0xff)) [
      | inr programmed ↦ simp programmed
      | inl erased ↦
          rw
            (
              erased,
              write_flash-blit length (dest + 1) (next source) vm'
                  (Ahead-next source dest length h),
              all_erased-blit vm.flash (dest + 1) dest (at_pointer source vm) length (omega arith),
              blit_split vm.flash dest length (at_pointer source vm) (at_pointer (next source) vm')
                  (λ i under.
                    at_pointer-next source vm dest length i (at_pointer source vm) h under),
            )
            refl
    ]
