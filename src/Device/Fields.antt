-- ===== src/Device/Fields.antt =====
-- Numbers that are read from memory: they depend on their bytes alone.
use native.Mathlib.Nat.{add-zero}
use ravens.Base.{
  ℕ, zero, suc, ◌+◌, ◌<◌, ◌≡◌, ◌≢◌, refl, ap, ◌∙◌, true, ◌==◌, ==_iff, passes, passes_at, arith,
}
use ravens.Base.Memory.{Bytes}
use ravens.Device.{read_le, le_bytes}
use ravens.Metadata.{valid_64b_value, default_64b_flash_value}

pub read_le-eq :
    (m m' : Bytes) (a a' n : ℕ)
    → ((i : ℕ) → i < n → m (a + i) ≡ m' (a' + i))
    → read_le m a n ≡ read_le m' a' n
unfolding read_le
read_le-eq m m' a a' zero h = refl
read_le-eq m m' a a' (suc n) h = omega (
  arith,
  ap m (add-zero a),
  ap m' (add-zero a'),
  h 0 (omega arith),
  read_le-eq m m' (a + 1) (a' + 1) n
      (λ i lt. ap m (omega arith) ∙ h (suc i) (omega arith) ∙ ap m' (omega arith)),
)

-- Erased flash does not hold the mark of a valid page.
pub read_le_erased :
    (m : Bytes) (a : ℕ) → ((i : ℕ) → i < 8 → m (a + i) ≡ 0xff) → read_le m a 8 ≢ valid_64b_value
read_le_erased m a h e =
    let all_ones : read_le m a 8 ≡ read_le (λ _. 0xff) 0 8 = read_le-eq m (λ _. 0xff) a 0 8 h in
    unfold read_le in omega (arith, e, all_ones)

pub read_le_marked :
    (m : Bytes) (a : ℕ)
    → ((i : ℕ) → i < 8 → m (a + i) ≡ le_bytes valid_64b_value i)
    → read_le m a 8 ≡ valid_64b_value
read_le_marked m a h =
    read_le-eq m (le_bytes valid_64b_value) a 0 8
      (λ i lt. h i lt ∙ ap (le_bytes valid_64b_value) (omega arith))
    ∙ unfold read_le le_bytes in refl

-- The default value of a field of flash is that of erased flash.
default_table : passes (λ i. le_bytes default_64b_flash_value i == 0xff) 8 ≡ true
unfolding passes le_bytes
default_table = refl

pub le_bytes_default : (i : ℕ) → i < 8 → le_bytes default_64b_flash_value i ≡ 0xff
le_bytes_default i h =
    (==_iff _ 0xff).0
      (passes_at (λ i. le_bytes default_64b_flash_value i == 0xff) 8 default_table i h)
