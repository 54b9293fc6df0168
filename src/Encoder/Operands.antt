-- ===== src/Encoder/Operands.antt =====
-- What the encoder writes for an operand, and that the decoder reads it back.
use native.Mathlib.Nat.{pow-suc, mod-eq_of_lt, pow-le-pow_right, add-zero}
use ravens.Base.{
  ℕ, zero, suc, ◌+◌, ◌-◌, ◌*◌, ◌/◌, ◌%◌, ◌^◌, ◌≤◌, ◌<◌, bit_or, ◌≡◌, refl, sym, ap, ◌∙◌, Bool, true,
  false, not, ◌&&◌, some, List, [], ◌∷◌, ◌++◌, arith, ◌==◌, leb, if◌then◌else◌, length, passes,
  passes_at,
}
use ravens.Base.Bits.{bit_or-shifted}
use ravens.Base.Memory.{of_list}
use ravens.Decoder.{
  Context, read, read_block_id, block_operand, read_length, first_address, second_address, pure,
}
use ravens.Decoder.Reader.{size_mod}
use ravens.Encoder.{
  bits_necessary, number_of_bits_necessary, extract_block_id, block_field, offset_field,
  length_field, cache_address, block_size_bit,
}
use ravens.Encoder.Encodable.{encoder_of, IsContext, InBlock, IsOperandOf, IsLengthUpTo}
use ravens.Encoder.Stream.{in_cache}
use ravens.Encoder.Fields.{fields_width}
use ravens.Encoder.Located.{At, At-append, At-read}

-- A number under `2 ^ n` needs no more than `n` bits.
bits_necessary-le : (fuel x n : ℕ) → x < 2 ^ n → bits_necessary fuel x ≤ n
unfolding bits_necessary
bits_necessary-le zero x n h = omega arith
bits_necessary-le (suc fuel) x zero h = ground arith
bits_necessary-le (suc fuel) x (suc n) h =
    let half = bits_necessary-le fuel (x / 2) n (omega (arith, pow-suc 2 n)) in ground (arith, half)

pub number_of_bits_necessary-le : (x n : ℕ) → x < 2 ^ n → leb (number_of_bits_necessary x) n ≡ true
unfolding number_of_bits_necessary
number_of_bits_necessary-le x n h = ground (arith, bits_necessary-le 64 x n h)

-- The number of the block, from the base on.
abbrev pub block_id : Context → ℕ → ℕ
block_id ctx a = (a - ctx.block_base) / 4096

pub extract_block_id-lem :
    (ctx : Context) (a : ℕ)
    → IsContext ctx
    → InBlock false ctx a
    → extract_block_id (encoder_of ctx) a ≡ some (block_id ctx a)
unfolding extract_block_id
extract_block_id-lem ctx a ok (above, named) =
    rw (the_id, number_of_bits_necessary-le (block_id ctx a) ctx.block_id_bits named) refl
  where
    the_id : (a + 2 ^ 64 - ctx.block_base) % 2 ^ 64 / 2 ^ 12 ≡ block_id ctx a
    the_id =
        omega
          (arith, ok.base_small, above, named, pow-le-pow_right {n = 2} (omega arith) ok.id_bits)

-- The fields of a block: its ID, unless it is in use.
abbrev pub block_fields : (in_use : Bool) → Context → ℕ → List (ℕ × ℕ)
block_fields true ctx a = []
block_fields false ctx a = (block_id ctx a, ctx.block_id_bits) ∷ []

pub block_field-lem :
    (in_use : Bool) (ctx : Context) (a : ℕ)
    → IsContext ctx
    → InBlock in_use ctx a
    → block_field (not in_use) (encoder_of ctx) a ≡ some (block_fields in_use ctx a)
unfolding block_field
block_field-lem true ctx a ok h = refl
block_field-lem false ctx a ok h = rw (extract_block_id-lem ctx a ok h) refl

-- The address that the decoder makes of the ID.
block_address :
    (ctx : Context) (a : ℕ)
    → IsContext ctx
    → InBlock false ctx a
    → (ctx.block_base
          + block_id ctx a
            % 2 ^ ctx.block_id_bits
            % 2 ^ ctx.block_id_bits
            * 2 ^ ctx.block_size_bits_ref
            % size_mod)
        % size_mod
      ≡ a / 4096 * 4096
block_address ctx a ok (above, named) =
    rw (ok.size_bits_ref, mod-eq_of_lt named, mod-eq_of_lt named)
      (omega (arith, ok, above, named, pow-le-pow_right {n = 2} (omega arith) ok.id_bits))

-- The fields of an operand before its offset, and the base that they give.
abbrev pub base_fields : (is_cache in_use : Bool) → Context → ℕ → List (ℕ × ℕ)
base_fields true in_use ctx a = []
base_fields false in_use ctx a = block_fields in_use ctx a

pub base_field-lem :
    (is_cache in_use : Bool) (ctx : Context) (a : ℕ)
    → IsContext ctx
    → IsOperandOf is_cache in_use ctx a
    → block_field (not is_cache && not in_use) (encoder_of ctx) a
      ≡ some (base_fields is_cache in_use ctx a)
base_field-lem true in_use ctx a ok h = unfold block_field in refl
base_field-lem false in_use ctx a ok h = block_field-lem in_use ctx a ok h

abbrev base_value : Bool → ℕ → ℕ
base_value true a = 0
base_value false a = a / 4096 * 4096

-- The operand as the decoder returns it, without the address of the cache.
abbrev pub stored : Bool → ℕ → ℕ
stored true a = a % 4096
stored false a = a

base-stored :
    (is_cache : Bool) (a : ℕ) → bit_or (base_value is_cache a) (a % 4096) ≡ stored is_cache a
base-stored true a = omega (arith, bit_or-shifted 12 0 (a % 4096) (omega arith))
base-stored false a = omega (arith, bit_or-shifted 12 (a / 4096) (a % 4096) (omega arith))

-- The offset in the cache joins the address of the cache.
cache_table : passes (λ o. bit_or o cache_address == cache_address + o) 4096 ≡ true
unfolding passes
cache_table = refl

pub in_cache-stored :
    (is_cache in_use : Bool) (ctx : Context) (a : ℕ)
    → IsOperandOf is_cache in_use ctx a
    → in_cache is_cache (stored is_cache a) ≡ a
in_cache-stored false in_use ctx a h = refl
in_cache-stored true in_use ctx a (lower, upper) = ground (
  arith,
  passes_at (λ o. bit_or o cache_address == cache_address + o) 4096 cache_table (a % 4096)
      (omega arith),
)

module _ (bytes : List ℕ) (ctx : Context) (ok : IsContext ctx) where
  pub read_block_id-At :
      (a off : ℕ) (more : List (ℕ × ℕ))
      → InBlock false ctx a
      → At bytes off ((block_id ctx a, ctx.block_id_bits) ∷ more)
      → read_block_id (of_list bytes) (length bytes) ctx off
        ≡ some (a / 4096 * 4096, off + ctx.block_id_bits)
  unfolding read_block_id
  read_block_id-At a off more h at =
      rw (At-read bytes (block_id ctx a) ctx.block_id_bits more off (omega (arith, ok.id_bits)) at)
        (ap (λ (t : ℕ). some (t, off + ctx.block_id_bits)) (block_address ctx a ok h))

  -- The reading of a block, the one in use if there is one.
  pub block_reading :
      (in_use : Bool) (a off : ℕ) (more : List (ℕ × ℕ))
      → InBlock in_use ctx a
      → At bytes off (block_fields in_use ctx a ++ more)
      → (if in_use then pure ctx.block_in_use else read_block_id (of_list bytes) (length bytes) ctx)
          off
        ≡ some (a / 4096 * 4096, off + fields_width (block_fields in_use ctx a))
  block_reading true a off more h at =
      ap (λ (t : ℕ × ℕ). some t)
        (ap (λ (o : ℕ). (ctx.block_in_use, o)) (sym (add-zero off))
          ∙ ap (λ (b : ℕ). (b, off + 0)) (sym h))
  block_reading false a off more h at =
      read_block_id-At a off more h at
      ∙ ap (λ (o : ℕ). some (a / 4096 * 4096, off + o)) (sym (add-zero ctx.block_id_bits))

  base_reading :
      (is_cache in_use : Bool) (a off : ℕ) (more : List (ℕ × ℕ))
      → IsOperandOf is_cache in_use ctx a
      → At bytes off (base_fields is_cache in_use ctx a ++ more)
      → (if is_cache
            then pure 0
            else if in_use
            then pure ctx.block_in_use
            else read_block_id (of_list bytes) (length bytes) ctx)
          off
        ≡ some (base_value is_cache a, off + fields_width (base_fields is_cache in_use ctx a))
  base_reading true in_use a off more h at = ap (λ (o : ℕ). some (0, o)) (sym (add-zero off))
  base_reading false in_use a off more h at = block_reading in_use a off more h at

  -- The length of an instruction.
  pub read_length-At :
      (max width n off : ℕ) (more : List (ℕ × ℕ))
      → max ≡ 2 ^ width
      → width ≤ 16
      → IsLengthUpTo max n
      → At bytes off (length_field width n ∷ more)
      → read_length (of_list bytes) (length bytes) width off ≡ some (n, off + width)
  unfolding read_length
  read_length-At max width n off more is_max narrow (some_n, small) at =
      rw (At-read bytes ((n + 2 ^ 64 - 1) % 2 ^ 64) width more off narrow at)
        (ap (λ (t : ℕ). some (t, off + width)) the_length)
    where
      power : 2 ^ width ≤ 2 ^ 16
      power = pow-le-pow_right {n = 2} (omega arith) narrow

      less_one : (n + 2 ^ 64 - 1) % 2 ^ 64 ≡ n - 1
      less_one = omega (arith, power, is_max, small, some_n)

      the_length : ((n + 2 ^ 64 - 1) % 2 ^ 64 % 2 ^ width + 1) % size_mod ≡ n
      the_length =
          rw
            (
              less_one,
              mod-eq_of_lt {n = n - 1} {m = 2 ^ width} (omega (arith, is_max, small, some_n)),
            )
            (omega (arith, power, is_max, small, some_n))

  -- The length of a copy or of a commit.
  pub length_reading :
      (n off : ℕ) (more : List (ℕ × ℕ))
      → IsLengthUpTo 4096 n
      → At bytes off (length_field block_size_bit n ∷ more)
      → read_length (of_list bytes) (length bytes) ctx.block_size_bits_ref off ≡ some (n, off + 12)
  length_reading n off more h at =
      rw ok.size_bits_ref (read_length-At 4096 12 n off more refl (omega arith) h at)

  -- The offset behind the base of an operand.
  offset_reading :
      (a off : ℕ) (base more : List (ℕ × ℕ))
      → At bytes off (base ++ (offset_field a ∷ more))
      → read (of_list bytes) (length bytes) ctx.block_size_bits_ref (off + fields_width base)
        ≡ some (a % 4096, off + fields_width base + 12)
  offset_reading a off base more at = rw ok.size_bits_ref (
      At-read bytes a 12 more (off + fields_width base) (omega arith)
        ((At-append bytes base (offset_field a ∷ more) off at).1))

  pub first_address-At :
      (is_cache : Bool) (a off : ℕ) (more : List (ℕ × ℕ))
      → IsOperandOf is_cache ctx.using_block ctx a
      → At bytes off (base_fields is_cache ctx.using_block ctx a ++ (offset_field a ∷ more))
      → first_address (of_list bytes) (length bytes) is_cache ctx off
        ≡ some (
          stored is_cache a,
          off + fields_width (base_fields is_cache ctx.using_block ctx a) + 12,
        )
  unfolding first_address block_operand
  first_address-At is_cache a off more h at =
      rw
        (
          base_reading is_cache ctx.using_block a off (offset_field a ∷ more) h at,
          offset_reading a off (base_fields is_cache ctx.using_block ctx a) more at,
          base-stored is_cache a,
        )
        refl

  pub second_address-At :
      (is_main_cache is_cache : Bool) (a off : ℕ) (more : List (ℕ × ℕ))
      → IsOperandOf is_cache (ctx.using_block && is_main_cache) ctx a
      → At bytes off
          (base_fields is_cache (ctx.using_block && is_main_cache) ctx a ++ (offset_field a ∷ more))
      → second_address (of_list bytes) (length bytes) is_main_cache is_cache ctx off
        ≡ some (
          stored is_cache a,
          off + fields_width (base_fields is_cache (ctx.using_block && is_main_cache) ctx a) + 12,
        )
  unfolding second_address
  second_address-At is_main_cache is_cache a off more h at =
      rw
        (
          base_reading is_cache (ctx.using_block && is_main_cache) a off (offset_field a ∷ more) h
              at,
          offset_reading a off (base_fields is_cache (ctx.using_block && is_main_cache) ctx a) more
              at,
          base-stored is_cache a,
        )
        refl
