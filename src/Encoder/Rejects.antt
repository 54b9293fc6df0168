-- ===== src/Encoder/Rejects.antt =====
-- A REBASE that fails the assertion of extractBlockID.
use native.Mathlib.Nat.{pow-suc, pow-le-pow_right}
use ravens.Base.{
  ℕ, zero, suc, ◌+◌, ◌-◌, ◌/◌, ◌%◌, ◌^◌, ◌≤◌, ◌<◌, ◌≡◌, refl, ap, inl, inr, Bool-cases, Bool, true,
  false, Option, none, arith, ◌==◌, leb,
}
use ravens.Base.Maybe.{◌>>◌, check}
use ravens.Encoder.{
  rebase, PublicCommand, Encoder, number_of_bits_necessary, bits_necessary, extract_block_id,
  encode_as, encode_rebase, encode_instruction,
}

doubled : (x n : ℕ) → x / 2 < 2 ^ n → x < 2 ^ (n + 1)
doubled x n h = omega (arith, ap (λ (k : ℕ). 2 ^ k) (one_more n), pow-suc 2 n)
  where
    one_more : (n : ℕ) → n + 1 ≡ suc n
    one_more n = omega arith

bits_necessary-lt : (fuel x : ℕ) → x < 2 ^ fuel → x < 2 ^ bits_necessary fuel x
unfolding bits_necessary
bits_necessary-lt zero x h = h
bits_necessary-lt (suc fuel) x h = elim (Bool-cases (x == 0)) [
  | inl nothing ↦ simp nothing (ground arith)
  | inr something ↦ simp something (
      doubled x (bits_necessary fuel (x / 2))
        (bits_necessary-lt fuel (x / 2) (omega (arith, pow-suc 2 fuel))))
]

-- A number of 64 bits is under the power of two that its number of bits gives.
pub number_of_bits_necessary-lt : (x : ℕ) → x < 2 ^ 64 → x < 2 ^ number_of_bits_necessary x
unfolding number_of_bits_necessary
number_of_bits_necessary-lt x h = bits_necessary-lt 64 x h

too_wide : (x n : ℕ) → x < 2 ^ 64 → 2 ^ n ≤ x → leb (number_of_bits_necessary x) n ≡ false
too_wide x n h wide = elim (Bool-cases (leb (number_of_bits_necessary x) n)) [
  | inr over ↦ over
  | inl under ↦ absurd (
      omega
        (arith, number_of_bits_necessary-lt x h, pow-le-pow_right {n = 2} (omega arith) (le under)))
]
  where
    le : {a b : ℕ} → leb a b ≡ true → a ≤ b
    le e = ground (arith, e)

check-none : {B : Type 0} (b : Bool) (m : Option B) → m ≡ none → (check b >> m) ≡ none
check-none true m e = e
check-none false m e = refl

extract_block_id-fails :
    (e : Encoder) (a : ℕ)
    → e.block_base ≡ 0
    → a < 2 ^ 64
    → 2 ^ e.block_id_bits ≤ a / 4096
    → extract_block_id e a ≡ none
unfolding extract_block_id
extract_block_id-fails e a start small high =
    rw (the_id, too_wide (a / 4096) e.block_id_bits (omega arith) high) refl
  where
    the_id : (a + 2 ^ 64 - e.block_base) % 2 ^ 64 / 2 ^ 12 ≡ a / 4096
    the_id = omega (arith, start)

encode_rebase-fails :
    (e : Encoder) (c : PublicCommand)
    → c.main_address < 2 ^ 64
    → 2 ^ (number_of_bits_necessary c.length % 256) ≤ c.main_address / 4096
    → encode_rebase e c ≡ none
unfolding encode_rebase
encode_rebase-fails e c small high =
    rw
      (extract_block_id-fails
        (record e { block_id_bits = number_of_bits_necessary c.length % 256; block_base = 0 })
        c.main_address refl small high)
      (check-none
        (leb
          (number_of_bits_necessary
            ((number_of_bits_necessary c.length % 256 + 2 ^ 32 - 1) % 2 ^ 32))
          4)
        none refl)

-- REBASE names the first block of the range and how many blocks it has. encodeInstruction fails
-- an assertion, whatever the encoder's state, where the number of the first block has more bits than
-- the length of the range: the block is measured with the new width, although 8 bits are written.
pub encode_instruction-rebase_fails :
    (e : Encoder) (c : PublicCommand)
    → c.command ≡ rebase
    → c.main_address < 2 ^ 64
    → 2 ^ (number_of_bits_necessary c.length % 256) ≤ c.main_address / 4096
    → encode_instruction e c ≡ none
unfolding encode_instruction encode_as
encode_instruction-rebase_fails e c is_rebase small high =
    rw (is_rebase, encode_rebase-fails e (record c { command = rebase }) small high) refl
