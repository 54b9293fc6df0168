-- ===== src/Encoder/Fields.antt =====
-- The number that a list of bit fields denotes, and what writeBits makes of them.
use native.Mathlib.Nat.{
  add-zero, add_assoc, mod-lt, mod-eq_of_lt, pow-le-pow_right, mul_assoc, add-mul,
}
use ravens.Base.{
  ℕ, zero, suc, ◌+◌, ◌*◌, ◌%◌, ◌^◌, ◌≤◌, ◌<◌, bit_or, ◌≡◌, refl, sym, ap, ◌∙◌, some, List, [], ◌∷◌,
  ◌++◌, arith,
}
use ravens.Base.Bits.{bit_or-shifted}
use ravens.Base.Powers.{pow_positive, pow_add, join-lt}
use ravens.Encoder.{BitField, write_bits, write_fields, word_mod}

-- How many bits the fields have, and the number that they denote behind `v`.
abbrev pub fields_width : List (ℕ × ℕ) → ℕ
fields_width [] = 0
fields_width ((bits, width) ∷ rest) = width + fields_width rest

abbrev pub fields_value : ℕ → List (ℕ × ℕ) → ℕ
fields_value v [] = v
fields_value v ((bits, width) ∷ rest) = fields_value (v * 2 ^ width + bits % 2 ^ width) rest

pub fields_value-lt :
    (fields : List (ℕ × ℕ)) (v n : ℕ)
    → v < 2 ^ n
    → fields_value v fields < 2 ^ (n + fields_width fields)
fields_value-lt [] v n h = rw (add-zero n) h
fields_value-lt ((bits, width) ∷ rest) v n h = rw (sym (add_assoc n width (fields_width rest))) (
    fields_value-lt rest (v * 2 ^ width + bits % 2 ^ width) (n + width)
      (join-lt n width v (bits % 2 ^ width) h (mod-lt bits (pow_positive width))))

-- The number is a part before and a part of the fields themselves.
pub fields_value-split :
    (fields : List (ℕ × ℕ)) (v : ℕ)
    → fields_value v fields ≡ v * 2 ^ fields_width fields + fields_value 0 fields
fields_value-split [] v = omega arith
fields_value-split ((bits, width) ∷ rest) v = omega (
  arith,
  fields_value-split rest (v * 2 ^ width + bits % 2 ^ width),
  fields_value-split rest (0 * 2 ^ width + bits % 2 ^ width),
  ap (λ (t : ℕ). t * 2 ^ fields_width rest) (zero_times (2 ^ width) (bits % 2 ^ width)),
  add-mul (v * 2 ^ width) (bits % 2 ^ width) (2 ^ fields_width rest),
  mul_assoc v (2 ^ width) (2 ^ fields_width rest),
  ap (λ (t : ℕ). v * t) (pow_add width (fields_width rest)),
)
  where
    zero_times : (a b : ℕ) → 0 * a + b ≡ b
    zero_times a b = omega arith

pub fields_value-append :
    (fields more : List (ℕ × ℕ)) (v : ℕ)
    → fields_value v (fields ++ more) ≡ fields_value (fields_value v fields) more
fields_value-append [] more v = refl
fields_value-append ((bits, width) ∷ rest) more v =
    fields_value-append rest more (v * 2 ^ width + bits % 2 ^ width)

pub fields_width-append :
    (fields more : List (ℕ × ℕ))
    → fields_width (fields ++ more) ≡ fields_width fields + fields_width more
fields_width-append [] more = omega arith
fields_width-append ((bits, width) ∷ rest) more = omega (arith, fields_width-append rest more)

-- In one qword.
abbrev pub one_qword : (value width : ℕ) → BitField
one_qword value width = record { front = []; back = value; bit_width = width }

write_bits-value :
    (bits length v n : ℕ)
    → n + length ≤ 64
    → v < 2 ^ n
    → write_bits bits length (one_qword v n)
      ≡ some (one_qword (v * 2 ^ length + bits % 2 ^ length) (n + length))
unfolding write_bits
write_bits-value bits zero v n fits small = ground (arith, add-zero n)
write_bits-value bits (suc k) v n fits small = ground (arith, joined, mod-eq_of_lt kept)
  where
    joined : bit_or (v * 2 ^ suc k) (bits % 2 ^ suc k) ≡ v * 2 ^ suc k + bits % 2 ^ suc k
    joined = bit_or-shifted (suc k) v (bits % 2 ^ suc k) (mod-lt bits (pow_positive (suc k)))

    kept : v * 2 ^ suc k < word_mod
    kept = omega (
      arith,
      join-lt n (suc k) v 0 small (pow_positive (suc k)),
      pow-le-pow_right {n = 2} (omega arith) fits,
    )

pub write_fields-value :
    (fields : List (ℕ × ℕ)) (v n : ℕ)
    → n + fields_width fields ≤ 64
    → v < 2 ^ n
    → write_fields fields (one_qword v n)
      ≡ some (one_qword (fields_value v fields) (n + fields_width fields))
unfolding write_fields
write_fields-value [] v n fits small = rw (add-zero n) refl
write_fields-value ((bits, width) ∷ rest) v n fits small =
    rw (write_bits-value bits width v n (omega arith) small) (
      write_fields-value rest (v * 2 ^ width + bits % 2 ^ width) (n + width) (omega arith)
        (join-lt n width v (bits % 2 ^ width) small (mod-lt bits (pow_positive width)))
      ∙ ap (λ (t : ℕ). some (one_qword (fields_value (v * 2 ^ width + bits % 2 ^ width) rest) t))
          (add_assoc n width (fields_width rest)))
