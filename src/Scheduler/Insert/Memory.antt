-- ===== src/Scheduler/Insert/Memory.antt =====
-- Erasing, writing and loading a block on virtualMachine.
use ravens.Base.{
  ℕ, ◌+◌, ◌-◌, ◌%◌, ◌≤◌, ◌<◌, ◌≡◌, refl, sym, ap, ◌∙◌, inl, inr, fun_ext, Bool-cases, Bool, true,
  false, Option, none, some, arith, ◌==◌, leb, ltb,
}
use ravens.Base.Maybe.{◌>>=◌, ◌>>◌, check, some_injective, none-some}
use ravens.Base.Memory.{Bytes, blit, fill, shift}
use ravens.Encoder.{cache_address}
use ravens.Flash.{block_size}
use ravens.VirtualMachine.{
  Vm, Pointer, plus, erased, write_flash, check_aligned, perform_copy, copy_bytes, fits, is_cache,
}
use ravens.VirtualMachine.Write.{all_erased, all_erased-fill, blitted, write_flash-blit}

-- A check that passed.
pub unguarded :
    {A : Type 0} (o : Option (Unit {0})) (r : Option A) (a : A)
    → (o >> r) ≡ some a
    → (o ≡ some tt) × (r ≡ some a)
unguarded none r a h = absurd (none-some h)
unguarded (some u) r a h = (refl, h)

pub checked : (test : Bool) → check test ≡ some tt → test ≡ true
checked true h = refl
checked false h = absurd (none-some h)

pub bound :
    {A B : Type 0} (o : Option A) (k : A → Option B) (b : B)
    → (o >>= k) ≡ some b
    → (a : A) × (o ≡ some a) × (k a ≡ some b)
bound none k b h = absurd (none-some h)
bound (some a) k b h = (a, refl, h)

pub shift_nothing : (m : Bytes) → shift m 0 ≡ m
shift_nothing m = fun_ext λ a. ap m (same a)
  where
    same : (a : ℕ) → 0 + a ≡ a
    same a = omega arith

pub write_flash-some :
    (length dest from : ℕ) (vm after : Vm)
    → write_flash dest (Pointer.in_cache from) length vm ≡ some after
    → after ≡ blitted vm dest length (shift vm.cache from)
write_flash-some length dest from vm after h =
    let whole = sym (write_flash-blit length dest (Pointer.in_cache from) vm tt) ∙ h in
    elim (Bool-cases (all_erased vm.flash dest length)) [
      | inl clean ↦ sym (some_injective (simp clean at whole))
      | inr programmed ↦ absurd (none-some (simp programmed at whole))
    ]

-- writeFlash from the cache to a block that was just erased.
pub write_flash-erased :
    (m length : ℕ) (vm : Vm)
    → length ≤ block_size
    → write_flash m (Pointer.in_cache 0) length (erased m vm)
      ≡ some (blitted (erased m vm) m length vm.cache)
write_flash-erased m length vm inside =
    rw
      (
        write_flash-blit length m (Pointer.in_cache 0) (erased m vm) tt,
        all_erased-fill vm.flash m block_size length m (omega arith) (omega arith),
        shift_nothing vm.cache,
      )
      refl

-- Flash is not the cache.
pub flash_address :
    (n m : ℕ)
    → n ≤ cache_address
    → check_aligned n m ≡ some tt
    → (m < cache_address) × (m % block_size ≡ 0)
unfolding check_aligned
flash_address n m low h =
    let (aligned, rest) = unguarded (check (m % block_size == 0)) _ tt h in
    let whole = checked (m % block_size == 0) aligned in
    let under = checked (ltb m n) rest in (ground (arith, under), ground (arith, whole))

pub below_cache : (a : ℕ) → a < cache_address → is_cache a ≡ false
unfolding is_cache
below_cache a h = ground arith

cache_is_cache :
    (offset : ℕ)
    → offset < block_size
    → (is_cache (cache_address + offset) ≡ true) × ((cache_address + offset) % block_size ≡ offset)
unfolding is_cache
cache_is_cache offset h = (ground arith, omega arith)

-- What a copy that ends well tells.
pub perform_copy-some :
    (n source length dest : ℕ) (vm after : Vm)
    → perform_copy n source length dest vm ≡ some after
    → (plus (dest % block_size) length ≤ block_size)
      × (copy_bytes source length dest vm ≡ some after)
unfolding perform_copy
perform_copy-some n source length dest vm after h =
    let (inside, rest) =
      unguarded (check (leb (plus (dest % block_size) length) block_size)) _ after h in
    let (_, rest') = unguarded (check (fits n source length)) _ after rest in
    let (_, last) = unguarded (check (fits n dest length)) _ after rest' in
    let test = checked (leb (plus (dest % block_size) length) block_size) inside in
    (ground (arith, test), last)

-- A copy from the cache to the flash.
pub copy_from_cache :
    (length dest offset : ℕ) (vm after : Vm)
    → offset < block_size
    → is_cache dest ≡ false
    → copy_bytes (cache_address + offset) length dest vm ≡ some after
    → after ≡ blitted vm dest length (shift vm.cache offset)
unfolding copy_bytes
copy_from_cache length dest offset vm after small out h =
    let (inside, rest) = cache_is_cache offset small in
    write_flash-some length dest offset vm after (simp (out, inside, rest) at h)

pub erased_again :
    (f : Bytes) (m length : ℕ) (bytes : Bytes)
    → length ≤ block_size
    → fill f m block_size 0xff
      ≡ fill (blit (fill f m block_size 0xff) m length bytes) m block_size 0xff
unfolding fill blit
erased_again f m length bytes h = fun_ext λ a. ground arith

reload :
    (f cache : Bytes) (m : ℕ)
    → cache
      ≡ blit cache 0 block_size
          (shift (blit (fill f m block_size 0xff) m block_size (shift cache 0)) m)
unfolding blit
reload f cache m = fun_ext λ a. ground (arith, ap cache (same a))
  where
    same : (a : ℕ) → a ≡ 0 + (m + (a - 0) - m)
    same a = omega arith

-- The cache is loaded with what it held.
pub loaded_again :
    (f cache : Bytes) (m : ℕ)
    → ◌≡◌ {A = Bytes × Bytes}
        (fill f m block_size 0xff, cache)
        (
          fill (blit (fill f m block_size 0xff) m block_size (shift cache 0)) m block_size 0xff,
          blit cache 0 block_size
              (shift (blit (fill f m block_size 0xff) m block_size (shift cache 0)) m),
        )
loaded_again f cache m =
    rw (← erased_again f m block_size (shift cache 0) (omega arith), ← reloaded) refl
  where
    reloaded :
        cache
        ≡ blit cache 0 block_size
            (shift (blit (fill f m block_size 0xff) m block_size (shift cache 0)) m)
    reloaded = reload f cache m
