-- ===== src/Device/Halts.antt =====
-- Runs that do not end for want of fuel, with a rule for each composition.
use ravens.Base.{ℕ, zero, suc, Bool, true, false, Option, none, some, if◌then◌else◌}
use ravens.Base.Memory.{Bytes}
use ravens.Device.{
  Device, Run, ok, fault, cut, Fault, out_of_fuel, M, assert, and_then, ◌>>=◌, ◌>>◌, spend,
  put_nand, put_written, erase, write,
}
use ravens.Flash.{erase_page, write_to_nand}
use ravens.Platform.{Platform}

abbrev pub InTime : Fault → Type 0
InTime out_of_fuel = ⊥
InTime f = Unit

-- A run that did not end for want of fuel.
abbrev pub Done : {A : Type 0} → Run A → Type 0
Done (ok a d) = Unit
Done (fault f) = InTime f
Done (cut d) = Unit

abbrev pub Halts : {A : Type 0} → M A → Type 0
Halts m = (d : Device) → Done (m d)

pub bind-Done :
    {A B : Type 0} (r : Run A) (f : A → M B)
    → Done r
    → ((a : A) → Halts (f a))
    → Done (and_then r f)
bind-Done (ok a d) f first next = next a d
bind-Done (fault e) f first next = first
bind-Done (cut d) f first next = tt

pub bind :
    {A B : Type 0} (m : M A) (f : A → M B) → Halts m → ((a : A) → Halts (f a)) → Halts (m >>= f)
bind m f first next d = bind-Done (m d) f (first d) next

pub seq : {A B : Type 0} (m : M A) (n : M B) → Halts m → Halts n → Halts (m >> n)
seq m n first next d = bind-Done (m d) (λ _. n) (first d) (λ _. next)

pub branch : {A : Type 0} (b : Bool) (m n : M A) → Halts m → Halts n → Halts (if b then m else n)
branch true m n p q = p
branch false m n p q = q

pub assert-Halts : (b : Bool) → Halts (assert b)
assert-Halts true d = tt
assert-Halts false d = tt

pub spend-Halts : Halts spend
unfolding spend
spend-Halts d = by_power d.power
  where
    by_power :
        (power : Option ℕ)
        → Done (elim power [
          | none ↦ ok tt d
          | some n ↦ elim n [ zero ↦ cut d | suc k ↦ ok tt (record d { power = some k }) ]
        ])
    by_power none = tt
    by_power (some zero) = tt
    by_power (some (suc n)) = tt

pub put_nand-Halts : (nand : Option Bytes) → Halts (put_nand nand)
put_nand-Halts none d = tt
put_nand-Halts (some nand) d = tt

pub put_written-Halts : (written : Bool × Bytes) → Halts (put_written written)
put_written-Halts (done, nand) d = tt

-- The operations on the flash, and what is made of them.
module _ (p : Platform) where
  pub erase-Halts : (address : ℕ) → Halts (erase p address)
  unfolding erase
  erase-Halts address d =
      bind-Done (spend d) _ (spend-Halts d) (λ _ e. put_nand-Halts (erase_page p e.nand address) e)

  pub write-Halts : (address length : ℕ) (source : Bytes) → Halts (write p address length source)
  unfolding write
  write-Halts address length source d =
      bind-Done (spend d) _ (spend-Halts d)
        (λ _ e. put_written-Halts (write_to_nand p e.nand address length source) e)
