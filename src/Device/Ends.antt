-- ===== src/Device/Ends.antt =====
-- How a run ends when the power may be lost at any operation on the flash: with `P` where it ends
-- well, with `I` where it is cut, and never at a fault.
use ravens.Base.{
  ℕ, zero, suc, ◌+◌, ◌*◌, ◌/◌, ◌%◌, ◌≡◌, refl, ap, Bool, true, Option, none, some, arith,
}
use ravens.Base.Memory.{Bytes, blit, fill}
use ravens.Device.{Device, Run, ok, cut, M, and_then, spend, erase, write}
use ravens.Flash.{erase_page}
use ravens.Flash.Write.{write_to_nand-blit}
use ravens.Platform.{Platform, IsFlash, IsErased}

pub data Ends {A : Type 0} (I : Device → Type 0) (P : A → Device → Type 0) : Run A → Type 0 where
  ended : {a : A} {d : Device} → P a d → Ends I P (ok a d)
  lost : {d : Device} → I d → Ends I P (cut d)

module _ {A B : Type 0} {I : Device → Type 0} {P : A → Device → Type 0}
    {Q : B → Device → Type 0} where
  pub bind :
      {r : Run A} {k : A → M B}
      → Ends I P r
      → ((a : A) (d : Device) → P a d → Ends I Q (k a d))
      → Ends I Q (and_then r k)
  bind (ended e) next = next _ _ e
  bind (lost i) next = lost i

pub mono :
    {A : Type 0} {I : Device → Type 0} {P Q : A → Device → Type 0} {r : Run A}
    → Ends I P r
    → ((a : A) (d : Device) → P a d → Q a d)
    → Ends I Q r
mono (ended e) f = ended (f _ _ e)
mono (lost i) f = lost i

-- The device behind an operation on the flash.
abbrev pub flashed : Device → Bytes → Option ℕ → Device
flashed d nand power = record d { nand = nand; power = power }

fill_sector :
    {p : Platform} (flash : IsFlash p) (nand : Bytes) (address : ℕ)
    → address % 4096 ≡ 0
    → erase_page p nand address ≡ some (fill nand address 4096 0xff)
unfolding erase_page
fill_sector flash nand address aligned =
    ground (arith, flash.erase nand address, ap (λ (a : ℕ). fill nand a 4096 0xff) block)
  where
    block : address / 4096 * 4096 ≡ address
    block = omega arith

abbrev Powered : Device → Unit {0} → Device → Type 0
Powered d _ e = (power : Option ℕ) × (e ≡ record d { power = power })

spend-Ends : (d : Device) {I : Device → Type 0} → I d → Ends I (Powered d) (spend d)
spend-Ends d {I} safe = at_power d.power refl
  where
    at_power : (power : Option ℕ) → d.power ≡ power → Ends I (Powered d) (spend d)
    at_power none e = unfold spend in rw (e, spend) (ended (none, rw (← e)))
    at_power (some zero) e = unfold spend in rw (e, spend) (lost safe)
    at_power (some (suc n)) e = unfold spend in rw (e, spend) (ended (some n, refl))

module _ {p : Platform} (flash : IsFlash p) (d : Device) where
  pub erase-Ends :
      {I : Device → Type 0} {P : Unit {0} → Device → Type 0} (address : ℕ)
      → address % 4096 ≡ 0
      → I d
      → ((power : Option ℕ) → P tt (flashed d (fill d.nand address 4096 0xff) power))
      → Ends I P (erase p address d)
  unfolding erase
  erase-Ends {I} {P} address aligned safe next =
      bind (spend-Ends d safe) λ u e (power, same).
        rw (same, fill_sector flash d.nand address aligned) (ended (next power))

  pub erase-powered :
      (address : ℕ)
      → address % 4096 ≡ 0
      → d.power ≡ none
      → erase p address d ≡ ok tt (record d { nand = fill d.nand address 4096 0xff })
  unfolding erase spend
  erase-powered address aligned on = ground (arith, fill_sector flash d.nand address aligned)

  pub write-Ends :
      {I : Device → Type 0} {P : Bool → Device → Type 0} (address length : ℕ) (source : Bytes)
      → address % 8 ≡ 0
      → IsErased d.nand address ((length + 7) / 8 * 8)
      → I d
      → ((power : Option ℕ) → P true (flashed d (blit d.nand address length source) power))
      → Ends I P (write p address length source d)
  unfolding write
  write-Ends address length source aligned erased safe next =
      bind (spend-Ends d safe) λ u e (power, same).
        rw (same, write_to_nand-blit flash d.nand address length source aligned erased)
          (ended (next power))

  pub write-powered :
      (address length : ℕ) (source : Bytes)
      → address % 8 ≡ 0
      → IsErased d.nand address ((length + 7) / 8 * 8)
      → d.power ≡ none
      → write p address length source d
        ≡ ok true (record d { nand = blit d.nand address length source })
  unfolding write spend
  write-powered address length source aligned erased on =
      ground (arith, write_to_nand-blit flash d.nand address length source aligned erased)
