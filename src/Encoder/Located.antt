-- ===== src/Encoder/Located.antt =====
-- Where the fields of a stream stand, and what the decoder reads there.
use native.Mathlib.Nat.{add_assoc, add-zero, add-mul, mul_assoc, pow-le-pow_right, zero-add}
use ravens.Base.{
  ℕ, zero, suc, ◌+◌, ◌*◌, ◌/◌, ◌%◌, ◌^◌, ◌≤◌, ◌<◌, ◌≡◌, refl, sym, subst, ap, ◌∙◌, some, List, [],
  ◌∷◌, ◌++◌, arith, length,
}
use ravens.Base.Memory.{Bytes, AllBytes, of_list, of_list-lt}
use ravens.Base.Powers.{pow_add, high_part, low_part}
use ravens.Decoder.{read}
use ravens.Decoder.Reader.{size_mod}
use ravens.Decoder.Reader.Correct.{read_bits-value}
use ravens.Decoder.Reader.Value.{
  bit_at, bits_value, bits_value-lt, bits_value_add, bits_value-chunk,
}
use ravens.Encoder.Fields.{
  fields_value, fields_width, fields_value-split, fields_value-lt, fields_width-append,
}
use ravens.Encoder.Output.{bytes_value}

-- The bits of a stream from `off` on are those of the fields.
abbrev pub FieldsAt : Bytes → ℕ → List (ℕ × ℕ) → Type 0
FieldsAt stream off [] = Unit
FieldsAt stream off ((bits, width) ∷ rest) =
    (bits_value stream off width ≡ bits % 2 ^ width) × FieldsAt stream (off + width) rest

-- Numbers in two parts are equal where the parts are.
parts_unique : (p a b c d : ℕ) → b < p → d < p → a * p + b ≡ c * p + d → (a ≡ c) × (b ≡ d)
parts_unique p a b c d h k e = (
  sym (high_part p a b h) ∙ ap (λ (t : ℕ). t / p) e ∙ high_part p c d k,
  sym (low_part p a b h) ∙ ap (λ (t : ℕ). t % p) e ∙ low_part p c d k,
)

fields_small : (fields : List (ℕ × ℕ)) → fields_value 0 fields < 2 ^ fields_width fields
fields_small fields =
    subst (λ (k : ℕ). fields_value 0 fields < 2 ^ k) (zero-add (fields_width fields))
      (fields_value-lt fields 0 0 (omega arith))

value-FieldsAt :
    (stream : Bytes) (fields : List (ℕ × ℕ)) (off : ℕ)
    → bits_value stream off (fields_width fields) ≡ fields_value 0 fields
    → FieldsAt stream off fields
value-FieldsAt stream [] off e = tt
value-FieldsAt stream ((bits, width) ∷ rest) off e =
    let (high, low) =
      parts_unique (2 ^ fields_width rest) (bits_value stream off width)
        (bits_value stream (off + width) (fields_width rest)) (0 * 2 ^ width + bits % 2 ^ width)
        (fields_value 0 rest) (bits_value-lt stream (off + width) (fields_width rest))
        (fields_small rest)
        (sym (bits_value_add stream off width (fields_width rest))
          ∙ e
          ∙ fields_value-split rest (0 * 2 ^ width + bits % 2 ^ width)) in
    (omega (arith, high), value-FieldsAt stream rest (off + width) low)

pub FieldsAt-append :
    (stream : Bytes) (fields more : List (ℕ × ℕ)) (off : ℕ)
    → FieldsAt stream off (fields ++ more)
    → FieldsAt stream off fields × FieldsAt stream (off + fields_width fields) more
FieldsAt-append stream [] more off h =
    (tt, subst (λ (o : ℕ). FieldsAt stream o more) (sym (add-zero off)) h)
FieldsAt-append stream ((bits, width) ∷ rest) more off (e, h) =
    let (first, second) = FieldsAt-append stream rest more (off + width) h in
    (
      (e, first),
      subst (λ (o : ℕ). FieldsAt stream o more) (add_assoc off width (fields_width rest)) second,
    )

-- A stream without its first byte.
bits_value-tail :
    (x : ℕ) (rest : List ℕ) (off n : ℕ)
    → bits_value (of_list (x ∷ rest)) (8 + off) n ≡ bits_value (of_list rest) off n
unfolding bits_value bit_at
bits_value-tail x rest off zero = refl
bits_value-tail x rest off (suc n) = omega (arith, bits_value-tail x rest off n, same_bit)
  where
    same_bit : bit_at (of_list (x ∷ rest)) (8 + off + n) ≡ bit_at (of_list rest) (off + n)
    same_bit = rw (byte_index, bit_index) refl
      where
        byte_index : (8 + off + n) / 8 ≡ suc ((off + n) / 8)
        byte_index = omega arith

        bit_index : (8 + off + n) % 8 ≡ (off + n) % 8
        bit_index = omega arith

first_byte : (x : ℕ) (rest : List ℕ) → x < 256 → bits_value (of_list (x ∷ rest)) 0 8 ≡ x
first_byte x rest small =
    sym (bits_value-chunk (of_list (x ∷ rest)) 0 8 small (omega arith)) ∙ omega arith

bytes_split :
    (x : ℕ) (rest : List ℕ)
    → x < 256
    → bits_value (of_list (x ∷ rest)) 0 (8 * suc (length rest))
      ≡ x * 2 ^ (8 * length rest) + bits_value (of_list rest) 0 (8 * length rest)
bytes_split x rest small = omega (
  arith,
  ap (λ (k : ℕ). bits_value (of_list (x ∷ rest)) 0 k) (eight (length rest)),
  bits_value_add (of_list (x ∷ rest)) 0 8 (8 * length rest),
  ap (λ (t : ℕ). t * 2 ^ (8 * length rest)) (first_byte x rest small),
  bits_value-tail x rest 0 (8 * length rest),
)
  where
    eight : (n : ℕ) → 8 * suc n ≡ 8 + 8 * n
    eight n = omega arith

bytes_value-bits :
    (bytes : List ℕ) (v : ℕ)
    → AllBytes bytes
    → bytes_value v bytes
      ≡ v * 2 ^ (8 * length bytes) + bits_value (of_list bytes) 0 (8 * length bytes)
bytes_value-bits [] v h = unfold bits_value in omega arith
bytes_value-bits (x ∷ rest) v (small, h) = omega (
  arith,
  bytes_value-bits rest (v * 256 + x) h,
  bytes_split x rest small,
  add-mul (v * 256) x (2 ^ (8 * length rest)),
  mul_assoc v 256 (2 ^ (8 * length rest)),
  ap (λ (t : ℕ). v * t)
      (sym (pow_add 8 (8 * length rest)) ∙ ap (λ (k : ℕ). 2 ^ k) (eight (length rest))),
)
  where
    eight : (n : ℕ) → 8 + 8 * n ≡ 8 * suc n
    eight n = omega arith

-- Fields that the decoder can read where they stand, in the stream of `bytes`.
pub record At (bytes : List ℕ) (off : ℕ) (fields : List (ℕ × ℕ)) : Type 0 where
  pub are_bytes : AllBytes bytes
  pub here : FieldsAt (of_list bytes) off fields
  pub inside : off + fields_width fields ≤ 8 * length bytes
  pub fits : off + fields_width fields < size_mod

pub stream-At :
    (bytes : List ℕ) (fields : List (ℕ × ℕ))
    → AllBytes bytes
    → bytes_value 0 bytes ≡ fields_value 0 fields
    → 8 * length bytes ≡ fields_width fields
    → FieldsAt (of_list bytes) 0 fields
stream-At bytes fields ok value count = value-FieldsAt (of_list bytes) fields 0 (
    ap (bits_value (of_list bytes) 0) (sym count)
    ∙ sym (zero_front (2 ^ (8 * length bytes)) (bytes_value-bits bytes 0 ok))
    ∙ value)
  where
    zero_front : {a b : ℕ} (p : ℕ) → a ≡ 0 * p + b → a ≡ b
    zero_front p e = omega (arith, e)

pub At-append :
    (bytes : List ℕ) (fields more : List (ℕ × ℕ)) (off : ℕ)
    → At bytes off (fields ++ more)
    → At bytes off fields × At bytes (off + fields_width fields) more
At-append bytes fields more off at =
    let (first, second) = FieldsAt-append (of_list bytes) fields more off at.here in
    (
      record {
        are_bytes = at.are_bytes;
        here = first;
        inside = omega (arith, at.inside, fields_width-append fields more);
        fits = omega (arith, at.fits, fields_width-append fields more);
      },
      record {
        are_bytes = at.are_bytes;
        here = second;
        inside = omega (arith, at.inside, fields_width-append fields more);
        fits = omega (arith, at.fits, fields_width-append fields more);
      },
    )

pub At-rest :
    (bytes : List ℕ) (bits width : ℕ) (more : List (ℕ × ℕ)) (off : ℕ)
    → At bytes off ((bits, width) ∷ more)
    → At bytes (off + width) more
At-rest bytes bits width more off at = record {
  are_bytes = at.are_bytes;
  here = at.here.1;
  inside = omega (arith, at.inside);
  fits = omega (arith, at.fits);
}

-- The decoder reads the first field.
pub At-read :
    (bytes : List ℕ) (bits width : ℕ) (more : List (ℕ × ℕ)) (off : ℕ)
    → width ≤ 16
    → At bytes off ((bits, width) ∷ more)
    → read (of_list bytes) (length bytes) width off ≡ some (bits % 2 ^ width, off + width)
unfolding read
At-read bytes bits width more off narrow at =
    rw
      (read_bits-value (of_list bytes) (length bytes) (of_list-lt bytes at.are_bytes) off width
        (omega arith) (omega (arith, at.inside)) (omega (arith, at.fits)))
      (ap (λ (t : ℕ). some (t, off + width)) the_bits)
  where
    the_bits : bits_value (of_list bytes) off width % size_mod ≡ bits % 2 ^ width
    the_bits = omega (
      arith,
      at.here.0,
      bits_value-lt (of_list bytes) off width,
      pow-le-pow_right {n = 2} (omega arith) narrow,
    )

-- The same fields, however they are grouped.
pub regroup :
    (first second more : List (ℕ × ℕ)) → (first ++ second) ++ more ≡ first ++ (second ++ more)
regroup [] second more = refl
regroup (x ∷ rest) second more = ap (λ (l : List (ℕ × ℕ)). x ∷ l) (regroup rest second more)

pub At-regroup :
    (bytes : List ℕ) (first second more : List (ℕ × ℕ)) (off : ℕ)
    → At bytes off ((first ++ second) ++ more)
    → At bytes off (first ++ (second ++ more))
At-regroup bytes first second more off at =
    subst (λ (fields : List (ℕ × ℕ)). At bytes off fields) (regroup first second more) at

-- A field behind others.
pub At-behind :
    (bytes : List ℕ) (first : List (ℕ × ℕ)) (off : ℕ) (more : List (ℕ × ℕ))
    → At bytes off (first ++ more)
    → At bytes (off + fields_width first) more
At-behind bytes first off more at = (At-append bytes first more off at).1
