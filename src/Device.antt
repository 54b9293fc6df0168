-- ===== src/Device.antt =====
-- The state that Munin works on, and its runs: they end well, at a fault, or in a loss of power
-- before one of the operations on the flash.
pub mod Ends
pub mod Halts
pub mod Fields
use ravens.Base.{
  ℕ, zero, suc, ◌+◌, ◌*◌, ◌/◌, ◌%◌, ◌^◌, Bool, true, false, Option, none, some, ◌==◌, leb,
  if◌then◌else◌,
}
use ravens.Base.Memory.{Bytes, shift, blit}
use ravens.Flash.{erase_page, write_to_nand}
use ravens.Platform.{Platform}

-- The flash, `cacheRAM`, the static variables of munin/Bytecode/execution.c and of
-- munin/Delta/bsdiff.c, the interrupts, and how many operations on the flash the power lasts for
-- (`none`: for all).
pub record Device : Type 0 where
  pub nand : Bytes
  pub cache_ram : Bytes
  pub write_cache : Bytes
  pub write_cache_pos : ℕ
  pub prev_dest : ℕ
  pub write_buffer : Bytes
  pub irq_enabled : Bool
  pub power : Option ℕ

-- `overrun` is an access outside an array.
pub data Fault : Type 0 where
  assertion null_pointer overrun out_of_fuel : Fault

pub data Run (A : Type 0) : Type 0 where
  ok : A → Device → Run A
  fault : Fault → Run A
  cut : Device → Run A

abbrev pub M : Type 0 → Type 0
M A = Device → Run A

abbrev pub pure : {A : Type 0} → A → M A
pure = ok

module _ {A B : Type 0} where
  abbrev pub and_then : Run A → (A → M B) → Run B
  and_then (ok a d) k = k a d
  and_then (fault f) k = fault f
  and_then (cut d) k = cut d

  infixl 5 ◌>>=◌ ◌>>◌
  abbrev pub ◌>>=◌ : M A → (A → M B) → M B
  ◌>>=◌ m k d = and_then (m d) k

  abbrev pub ◌>>◌ : M A → M B → M B
  ◌>>◌ m k d = and_then (m d) (λ _. k)

abbrev pub skip : M (Unit {0})
skip = ok tt

abbrev pub fails : {A : Type 0} → Fault → M A
fails f d = fault f

-- `assert(b)`
abbrev pub assert : Bool → M (Unit {0})
assert true d = ok tt d
assert false d = fault assertion

abbrev pub get : M Device
get d = ok d d

-- An operation on the flash begins, if there is power.
unfoldable pub spend : M (Unit {0})
spend d = elim d.power [
  | none ↦ ok tt d
  | some n ↦ elim n [ zero ↦ cut d | suc k ↦ ok tt (record d { power = some k }) ]
]

-- A little-endian number of `n` bytes, and the bytes of one.
unfoldable pub read_le : Bytes → ℕ → ℕ → ℕ
read_le m a zero = 0
read_le m a (suc n) = m a + 256 * read_le m (a + 1) n

unfoldable pub le_bytes : ℕ → Bytes
le_bytes v i = v / 256 ^ i % 256

abbrev pub put_nand : Option Bytes → M (Unit {0})
put_nand none d = fault assertion
put_nand (some nand) d = ok tt (record d { nand = nand })

abbrev pub put_written : Bool × Bytes → M Bool
put_written (done, nand) d = ok done (record d { nand = nand })

module _ (p : Platform) where
  -- erasePage on the device.
  unfoldable pub erase : ℕ → M (Unit {0})
  erase address = spend >> λ d. put_nand (erase_page p d.nand address) d

  -- writeToNAND on the device, from bytes that are read before the flash is changed.
  unfoldable pub write : ℕ → ℕ → Bytes → M Bool
  write address length source =
      spend >> λ d. put_written (write_to_nand p d.nand address length source) d
