-- ===== src/Base/Powers.antt =====
-- Numbers in parts: the low bits and those above them.
use native.Mathlib.Nat.{
  pow-suc, add-suc, add-zero, div-add-mod', mul-add-div_right, mul-add-mod_self_right, one-le-pow,
  mod-lt, mod-eq_of_lt, mul-le-mul_right, div-eq_of_lt, mul_assoc,
}
use ravens.Base.{ℕ, zero, suc, ◌+◌, ◌*◌, ◌/◌, ◌%◌, ◌^◌, ◌≤◌, ◌<◌, ◌≡◌, ap, ◌∙◌, arith}

pub pow_positive : (n : ℕ) → 0 < 2 ^ n
pow_positive n = one-le-pow n 2 (omega arith)

pub pow_add : (m n : ℕ) → 2 ^ (m + n) ≡ 2 ^ m * 2 ^ n
pow_add m zero = omega (arith, ap (λ (k : ℕ). 2 ^ k) (add-zero m))
pow_add m (suc n) = omega (
  arith,
  ap (λ (k : ℕ). 2 ^ k) (add-suc m n),
  pow-suc 2 (m + n),
  pow_add m n,
  ap (λ (k : ℕ). 2 ^ m * k) (pow-suc 2 n),
  mul_assoc (2 ^ m) (2 ^ n) 2,
)

-- The parts of a number are determined.
pub high_part : (p a b : ℕ) → b < p → (a * p + b) / p ≡ a
high_part p a b h = mul-add-div_right (omega arith) a b ∙ omega (arith, div-eq_of_lt h)

pub low_part : (p a b : ℕ) → b < p → (a * p + b) % p ≡ b
low_part p a b h = mul-add-mod_self_right a p b ∙ mod-eq_of_lt h

-- A sum of parts stays in its width.
pub join-lt : (m n a b : ℕ) → a < 2 ^ m → b < 2 ^ n → a * 2 ^ n + b < 2 ^ (m + n)
join-lt m n a b p q =
    omega (arith, pow_add m n, mul-le-mul_right (2 ^ n) (above p), distributed a (2 ^ n))
  where
    above : a < 2 ^ m → a + 1 ≤ 2 ^ m
    above p = omega arith

    distributed : (a c : ℕ) → (a + 1) * c ≡ a * c + c
    distributed a c = grind arith

-- The low bits of a number in two steps.
pub mod_split : (q a b : ℕ) → q % 2 ^ (a + b) ≡ q / 2 ^ b % 2 ^ a * 2 ^ b + q % 2 ^ b
mod_split q a b =
    ap (λ (t : ℕ). t % 2 ^ (a + b)) parts
    ∙ low_part (2 ^ (a + b)) (q / 2 ^ b / 2 ^ a) (q / 2 ^ b % 2 ^ a * 2 ^ b + q % 2 ^ b) (
        join-lt a b (q / 2 ^ b % 2 ^ a) (q % 2 ^ b) (mod-lt (q / 2 ^ b) (pow_positive a))
          (mod-lt q (pow_positive b)))
  where
    parts : q ≡ q / 2 ^ b / 2 ^ a * 2 ^ (a + b) + (q / 2 ^ b % 2 ^ a * 2 ^ b + q % 2 ^ b)
    parts = omega (
      arith,
      div-add-mod' q (2 ^ b),
      ap (λ (t : ℕ). t * 2 ^ b) (div-add-mod' (q / 2 ^ b) (2 ^ a)),
      ap (λ (t : ℕ). q / 2 ^ b / 2 ^ a * t) (pow_add a b),
      sum_times (q / 2 ^ b / 2 ^ a) (2 ^ a) (q / 2 ^ b % 2 ^ a) (2 ^ b),
    )
      where
        sum_times : (x y z w : ℕ) → (x * y + z) * w ≡ x * (y * w) + z * w
        sum_times x y z w = grind arith
