-- ===== src/Encoder/Output.antt =====
-- appendInstruction appends the bits of an instruction to those of the stream.
use native.Mathlib.Nat.{mod-lt, mul_assoc, add-mul}
use ravens.Base.{
  ℕ, zero, suc, ◌+◌, ◌-◌, ◌*◌, ◌/◌, ◌%◌, ◌^◌, ◌≤◌, ◌<◌, bit_or, ◌≡◌, refl, sym, subst, ap, ◌∙◌, inl,
  inr, Bool-cases, List, [], ◌∷◌, ◌++◌, arith, ltb, length, length-append,
}
use ravens.Base.Bits.{bit_or-shifted}
use ravens.Base.Memory.{AllBytes}
use ravens.Base.Powers.{pow_positive, pow_add, join-lt, mod_split}
use ravens.Encoder.Stream.{Output, append_qword}

-- The number that bytes denote, the first one the most significant, behind `v`.
abbrev pub bytes_value : ℕ → List ℕ → ℕ
bytes_value v [] = v
bytes_value v (b ∷ rest) = bytes_value (v * 256 + b) rest

bytes_value-append :
    (bytes : List ℕ) (v b : ℕ) → bytes_value v (bytes ++ (b ∷ [])) ≡ bytes_value v bytes * 256 + b
bytes_value-append [] v b = refl
bytes_value-append (x ∷ rest) v b = bytes_value-append rest (v * 256 + x) b

AllBytes-append : (bytes : List ℕ) (b : ℕ) → AllBytes bytes → b < 256 → AllBytes (bytes ++ (b ∷ []))
AllBytes-append [] b h k = (k, tt)
AllBytes-append (x ∷ rest) b h k = (h.0, AllBytes-append rest b h.1 k)

-- An output of whole bytes and the upper `used` bits of the next one, which hold `partial`.
abbrev pub output_of : List ℕ → (partial used : ℕ) → Output
output_of bytes partial used = record {
  byte_stream = bytes;
  current_byte = partial * 2 ^ (8 - used);
  space_left = 8 - used;
}

pub record IsOutput (bytes : List ℕ) (partial used value count : ℕ) : Type 0 where
  pub bytes_ok : AllBytes bytes
  pub used_le : used ≤ 8
  pub partial_lt : partial < 2 ^ used
  pub denotes : bytes_value 0 bytes * 2 ^ used + partial ≡ value
  pub counts : 8 * length bytes + used ≡ count

-- Outputs that denote `value` in `count` bits.
pub record Denotes (o : Output) (value count : ℕ) : Type 0 where
  pub bytes : List ℕ
  pub partial : ℕ
  pub used : ℕ
  pub is_output : o ≡ output_of bytes partial used
  pub well : IsOutput bytes partial used value count

-- The bits fit the byte.
joined_byte :
    (partial used bits n : ℕ)
    → used + n ≤ 8
    → bits < 2 ^ n
    → bit_or (partial * 2 ^ (8 - used)) (bits * 2 ^ (8 - used - n))
      ≡ (partial * 2 ^ n + bits) * 2 ^ (8 - (used + n))
joined_byte partial used bits n fits small =
    bit_or-shifted (8 - used) partial (bits * 2 ^ (8 - used - n)) below
    ∙ sym (
        ap (λ (k : ℕ). (partial * 2 ^ n + bits) * 2 ^ k) rest
        ∙ add-mul (partial * 2 ^ n) bits (2 ^ (8 - used - n))
        ∙ ap (λ (t : ℕ). t + bits * 2 ^ (8 - used - n))
            (mul_assoc partial (2 ^ n) (2 ^ (8 - used - n))
              ∙ ap (λ (t : ℕ). partial * t) (sym whole)))
  where
    rest : 8 - (used + n) ≡ 8 - used - n
    rest = omega arith

    room : 2 ^ (8 - used) ≡ 2 ^ (n + (8 - used - n))
    room = ap (λ (k : ℕ). 2 ^ k) (omega arith)

    whole : 2 ^ (8 - used) ≡ 2 ^ n * 2 ^ (8 - used - n)
    whole = room ∙ pow_add n (8 - used - n)

    below : bits * 2 ^ (8 - used - n) < 2 ^ (8 - used)
    below = omega (arith, room, join-lt n (8 - used - n) bits 0 small (pow_positive (8 - used - n)))

append_last :
    (fuel qword n : ℕ) (bytes : List ℕ) (partial used value count : ℕ)
    → used + n ≤ 8
    → IsOutput bytes partial used value count
    → Denotes
        (append_qword (suc fuel) qword n (output_of bytes partial used))
        (value * 2 ^ n + qword % 2 ^ n)
        (count + n)
unfolding append_qword
append_last fuel qword n bytes partial used value count fits ok = record {
  bytes = bytes;
  partial = partial * 2 ^ n + qword % 2 ^ n;
  used = used + n;
  is_output =
      ground
        (arith, joined_byte partial used (qword % 2 ^ n) n fits (mod-lt qword (pow_positive n)));
  well = record {
    bytes_ok = ok.bytes_ok;
    used_le = fits;
    partial_lt =
        join-lt used n partial (qword % 2 ^ n) ok.partial_lt (mod-lt qword (pow_positive n));
    denotes = omega (
      arith,
      ap (λ (t : ℕ). t * 2 ^ n) ok.denotes,
      add-mul (bytes_value 0 bytes * 2 ^ used) partial (2 ^ n),
      mul_assoc (bytes_value 0 bytes) (2 ^ used) (2 ^ n),
      ap (λ (t : ℕ). bytes_value 0 bytes * t) (pow_add used n),
    );
    counts = omega (arith, ok.counts);
  };
}

-- The byte is filled.
unfoldable pub filled : List ℕ → (partial used top : ℕ) → List ℕ
filled bytes partial used top = bytes ++ (bit_or (partial * 2 ^ (8 - used)) top ∷ [])

pub filled-IsOutput :
    (top : ℕ) (bytes : List ℕ) (partial used value count : ℕ)
    → top < 2 ^ (8 - used)
    → IsOutput bytes partial used value count
    → IsOutput
        (filled bytes partial used top)
        0
        0
        (value * 2 ^ (8 - used) + top)
        (count + (8 - used))
unfolding filled
filled-IsOutput top bytes partial used value count below ok = record {
  bytes_ok = AllBytes-append bytes _ ok.bytes_ok (rw byte_lem byte_lt);
  used_le = omega arith;
  partial_lt = omega arith;
  denotes = omega (
    arith,
    bytes_value-append bytes 0 (bit_or (partial * 2 ^ (8 - used)) top),
    byte_lem,
    ap (λ (t : ℕ). t * 2 ^ (8 - used)) ok.denotes,
    add-mul (bytes_value 0 bytes * 2 ^ used) partial (2 ^ (8 - used)),
    mul_assoc (bytes_value 0 bytes) (2 ^ used) (2 ^ (8 - used)),
    ap (λ (t : ℕ). bytes_value 0 bytes * t) (sym (pow_add used (8 - used)) ∙ eight),
  );
  counts = omega (
    arith,
    ok.counts,
    ok.used_le,
    length-append {0} bytes (bit_or (partial * 2 ^ (8 - used)) top ∷ []),
  );
}
  where
    byte_lem : bit_or (partial * 2 ^ (8 - used)) top ≡ partial * 2 ^ (8 - used) + top
    byte_lem = bit_or-shifted (8 - used) partial top below

    eight : 2 ^ (used + (8 - used)) ≡ 256
    eight = ap (λ (k : ℕ). 2 ^ k) (whole used ok.used_le)
      where
        whole : (u : ℕ) → u ≤ 8 → u + (8 - u) ≡ 8
        whole u h = omega arith

    byte_lt : partial * 2 ^ (8 - used) + top < 256
    byte_lt = omega (arith, join-lt used (8 - used) partial top ok.partial_lt below, eight)

append_round :
    (fuel qword n : ℕ) (bytes : List ℕ) (partial used : ℕ)
    → 8 - used < n
    → append_qword (suc fuel) qword n (output_of bytes partial used)
      ≡ append_qword fuel qword (n - (8 - used)) (
          output_of (filled bytes partial used (qword / 2 ^ (n - (8 - used)) % 2 ^ (8 - used))) 0 0)
unfolding append_qword filled
append_round fuel qword n bytes partial used more = ground arith

-- The bits of a qword are appended to what the output denotes.
append_qword-Denotes :
    (fuel qword n : ℕ) (bytes : List ℕ) (partial used value count : ℕ)
    → n + used / 8 < fuel
    → IsOutput bytes partial used value count
    → Denotes
        (append_qword fuel qword n (output_of bytes partial used))
        (value * 2 ^ n + qword % 2 ^ n)
        (count + n)
append_qword-Denotes zero qword n bytes partial used value count enough ok = absurd (omega arith)
append_qword-Denotes (suc fuel) qword n bytes partial used value count enough ok =
    elim (Bool-cases (ltb (8 - used) n)) [
      | inr last ↦
          append_last fuel qword n bytes partial used value count (ground (arith, ok.used_le)) ok
      | inl more ↦
          let top = qword / 2 ^ (n - (8 - used)) % 2 ^ (8 - used) in
          rw (append_round fuel qword n bytes partial used (ground arith)) (
            moved (the_value (ground arith)) (the_count (ground arith)) (
              append_qword-Denotes fuel qword (n - (8 - used)) (filled bytes partial used top) 0 0
                (value * 2 ^ (8 - used) + top) (count + (8 - used)) (ground (arith, ok.used_le))
                (filled-IsOutput top bytes partial used value count
                  (mod-lt (qword / 2 ^ (n - (8 - used))) (pow_positive (8 - used))) ok)))
    ]
  where
    moved : {o : Output} {v w c d : ℕ} → v ≡ w → c ≡ d → Denotes o v c → Denotes o w d
    moved {o} {v} {w} {c} e f h =
        subst (λ (d : ℕ). Denotes o w d) f (subst (λ (u : ℕ). Denotes o u c) e h)

    the_count : 8 - used < n → count + (8 - used) + (n - (8 - used)) ≡ count + n
    the_count h = omega arith

    the_value :
        8 - used < n
        → (value * 2 ^ (8 - used) + qword / 2 ^ (n - (8 - used)) % 2 ^ (8 - used))
              * 2 ^ (n - (8 - used))
            + qword % 2 ^ (n - (8 - used))
          ≡ value * 2 ^ n + qword % 2 ^ n
    the_value h = parts (8 - used) (n - (8 - used)) n (omega arith)
      where
        parts :
            (a b n : ℕ)
            → a + b ≡ n
            → (value * 2 ^ a + qword / 2 ^ b % 2 ^ a) * 2 ^ b + qword % 2 ^ b
              ≡ value * 2 ^ n + qword % 2 ^ n
        parts a b n e = omega (
          arith,
          add-mul (value * 2 ^ a) (qword / 2 ^ b % 2 ^ a) (2 ^ b),
          mul_assoc value (2 ^ a) (2 ^ b),
          ap (λ (t : ℕ). value * t) (sym (pow_add a b) ∙ ap (λ (k : ℕ). 2 ^ k) e),
          mod_split qword a b,
          ap (λ (k : ℕ). qword % 2 ^ k) e,
        )

-- The same for an output that denotes a number, with the fuel of appendInstruction.
pub append_qword-appends :
    (qword n value count : ℕ) (o : Output)
    → Denotes o value count
    → Denotes (append_qword (n + 2) qword n o) (value * 2 ^ n + qword % 2 ^ n) (count + n)
append_qword-appends qword n value count o d = rw d.is_output (
    append_qword-Denotes (n + 2) qword n d.bytes d.partial d.used value count
      (omega (arith, d.well.used_le)) d.well)
