-- ===== src/Base/Bits.antt =====
-- `|` of a shifted word with the bits that the shift freed, at every width.
use Prim.Native.Nat.{max, digits, bit_or-bitwise}
use native.Mathlib.Nat.{pow-suc}
use ravens.Base.{ℕ, zero, suc, ◌+◌, ◌*◌, ◌/◌, ◌^◌, ◌≤◌, ◌<◌, bit_or, ◌≡◌, refl, ap, arith}

-- The digit by digit definition, with any fuel that is enough.
abbrev digitwise : (fuel left right : ℕ) → ℕ
digitwise fuel left right = digits (λ rest. rest) max fuel left right

digitwise_nothing : (fuel word : ℕ) → word ≤ fuel → digitwise fuel word 0 ≡ word
digitwise_nothing fuel zero enough = cases fuel
  where
    cases : (fuel : ℕ) → digitwise fuel 0 0 ≡ 0
    cases zero = refl
    cases (suc fuel) = refl
digitwise_nothing zero (suc word) enough = absurd (omega arith)
digitwise_nothing (suc fuel) (suc word) enough =
    omega (arith, digitwise_nothing fuel (suc word / 2) (omega arith))

digitwise_shifted :
    (width fuel word q r : ℕ)
    → word ≡ q * 2 ^ width
    → word ≤ fuel
    → r < 2 ^ width
    → digitwise fuel word r ≡ word + r
digitwise_shifted width zero zero q r is enough fits = omega arith
digitwise_shifted width (suc fuel) zero q r is enough fits = omega arith
digitwise_shifted width zero (suc word) q r is enough fits = absurd (omega arith)
digitwise_shifted zero (suc fuel) (suc word) q r is enough fits = ground (
  arith,
  digitwise_nothing fuel (suc word / 2) (omega arith),
  ap (λ (rest : ℕ). digitwise fuel (suc word / 2) rest) (halved r fits),
)
  where
    halved : (r : ℕ) → r < 2 ^ 0 → r / 2 ≡ 0
    halved r fits = omega arith
digitwise_shifted (suc width) (suc fuel) (suc word) q r is enough fits = omega (
  arith,
  pow-suc 2 width,
  ap (λ (power : ℕ). q * power) (pow-suc 2 width),
  digitwise_shifted width fuel (suc word / 2) q (r / 2)
      (omega (arith, is, ap (λ (power : ℕ). q * power) (pow-suc 2 width))) (omega arith)
      (omega (arith, pow-suc 2 width)),
)

-- The low `k` bits of the left operand are clear and the right one fits them: `|` is a sum.
pub bit_or-shifted : (k q r : ℕ) → r < 2 ^ k → bit_or (q * 2 ^ k) r ≡ q * 2 ^ k + r
bit_or-shifted k q r fits =
    rw (bit_or-bitwise (q * 2 ^ k) r)
      (digitwise_shifted k (q * 2 ^ k) (q * 2 ^ k) q r refl (omega arith) fits)
