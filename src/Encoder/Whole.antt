-- ===== src/Encoder/Whole.antt =====
-- The stream that encode makes, as a list of bit fields.
use native.Mathlib.Nat.{mul_assoc, add-mul, add-zero, mod-eq_of_lt, zero-add}
use ravens.Base.{
  ℕ, zero, suc, ◌+◌, ◌-◌, ◌*◌, ◌%◌, ◌^◌, ◌≤◌, ◌<◌, min, ◌≡◌, ◌≢◌, refl, sym, subst, ap, ◌∙◌, inl,
  inr, Bool-cases, Option, some, ◌||◌, List, [], ◌∷◌, ◌++◌, arith, ◌==◌, ltb, length,
}
use ravens.Base.Maybe.{◌>>=◌}
use ravens.Base.Memory.{AllBytes}
use ravens.Base.Powers.{pow_positive, pow_add}
use ravens.Encoder.{Encoder, PublicCommand, encode_as, encode_instruction}
use ravens.Encoder.Fields.{
  fields_value, fields_width, fields_value-split, fields_value-lt, fields_value-append,
  fields_width-append, write_fields-value,
}
use ravens.Encoder.Output.{
  Denotes, IsOutput, output_of, filled, filled-IsOutput, bytes_value, append_qword-appends,
}
use ravens.Encoder.Stream.{
  Output, append_qword, append_qwords, append_instruction, append_instructions, encode, reset,
  end_instruction, pad_byte, end_command,
}

-- The fields of the instructions, one after another, and the encoder behind them.
unfoldable pub all_fields : Encoder → List PublicCommand → Option (List (ℕ × ℕ) × Encoder)
all_fields e [] = some ([], e)
all_fields e (c ∷ rest) = do
  (fields, e') ← encode_as c.command e c
  (more, e'') ← all_fields e' rest
  some (fields ++ more, e'')

abbrev pub FitsQword : List (ℕ × ℕ) → Type 0
FitsQword fields = fields_width fields ≤ 64

-- The bits of one instruction, which fit a qword, are appended.
append_instruction-Denotes :
    (e e' : Encoder) (c : PublicCommand) (fields : List (ℕ × ℕ)) (o : Output) (value count : ℕ)
    → encode_as c.command e c ≡ some (fields, e')
    → FitsQword fields
    → Denotes o value count
    → (o' : Output) × (append_instruction e c o ≡ some (o', e'))
      × Denotes o' (fields_value value fields) (count + fields_width fields)
unfolding append_instruction encode_instruction append_qwords
append_instruction-Denotes e e' c fields o value count encoded fits d =
    let v = fields_value 0 fields in
    let n = fields_width fields in
    (
      append_qword (n + 2) v n o,
      rw (encoded, write_fields-value fields 0 0 (omega arith) (omega arith))
          (ap (λ (k : ℕ). some (append_qword (k + 2) v k o, e')) (width n fits)),
      subst (λ (w : ℕ). Denotes (append_qword (n + 2) v n o) w (count + n))
          (the_value v n refl refl) (append_qword-appends v n value count o d),
    )
  where
    width : (n : ℕ) → n ≤ 64 → min (0 + n) 64 ≡ n
    width n h = omega arith

    the_value :
        (v n : ℕ)
        → v ≡ fields_value 0 fields
        → n ≡ fields_width fields
        → value * 2 ^ n + v % 2 ^ n ≡ fields_value value fields
    the_value v n is_v is_n =
        rw (is_v, is_n) (omega (arith, fields_value-split fields value, mod-eq_of_lt small))
      where
        small : fields_value 0 fields < 2 ^ fields_width fields
        small =
            subst (λ (k : ℕ). fields_value 0 fields < 2 ^ k) (zero-add (fields_width fields))
              (fields_value-lt fields 0 0 (omega arith))

-- Each instruction fits a qword.
unfoldable pub AllFit : Encoder → List PublicCommand → Type 0
AllFit e [] = Unit
AllFit e (c ∷ rest) =
    (fields : List (ℕ × ℕ)) × (e' : Encoder) × (encode_as c.command e c ≡ some (fields, e'))
    × FitsQword fields
    × AllFit e' rest

append_instructions-Denotes :
    (e : Encoder) (commands : List PublicCommand) (o : Output) (value count : ℕ)
    → AllFit e commands
    → Denotes o value count
    → (fields : List (ℕ × ℕ)) × (e' : Encoder) × (o' : Output) × (all_fields e commands
        ≡ some (fields, e'))
      × (append_instructions e commands o ≡ some (o', e'))
      × Denotes o' (fields_value value fields) (count + fields_width fields)
unfolding append_instructions all_fields AllFit
append_instructions-Denotes e [] o value count h d =
    ([], e, o, refl, refl, subst (λ (k : ℕ). Denotes o value k) (sym (add-zero count)) d)
append_instructions-Denotes e (c ∷ rest) o value count (fields, e', encoded, fits, more) d =
    let (o', appended, d') =
      append_instruction-Denotes e e' c fields o value count encoded fits d in
    let (fields', e'', o'', all, appends, d'') =
      append_instructions-Denotes e' rest o' (fields_value value fields)
        (count + fields_width fields) more d' in
    (
      fields ++ fields',
      e'',
      o'',
      rw (encoded, all) refl,
      rw (appended) appends,
      subst (λ (k : ℕ). Denotes o'' (fields_value value (fields ++ fields')) k)
          (omega (arith, fields_width-append fields fields'))
          (subst (λ (w : ℕ). Denotes o'' w (count + fields_width fields + fields_width fields'))
            (sym (fields_value-append fields fields' value)) d''),
    )

pad_part :
    (bytes : List ℕ) (partial k : ℕ)
    → pad_byte (output_of bytes partial (suc k))
      ≡ filled bytes partial (suc k) (2 ^ (8 - suc k) - 1)
unfolding pad_byte filled
pad_part bytes partial k = ground arith

-- The padding with ones, on an output that is whole and on one that is not.
record Padded (bytes : List ℕ) (value count r : ℕ) : Type 0 where
  bytes_ok : AllBytes bytes
  denotes : bytes_value 0 bytes ≡ value * 2 ^ r + (2 ^ r - 1)
  counts : 8 * length bytes ≡ count + r
  less_than_byte : r < 8

pad_output :
    (bytes : List ℕ) (partial used value count : ℕ)
    → IsOutput bytes partial used value count
    → (r : ℕ) × Padded (pad_byte (output_of bytes partial used)) value count r
      × (8 - used ≢ 8 → r ≡ 8 - used)
pad_output bytes partial zero value count ok = (
  0,
  unfold pad_byte in
      record {
        bytes_ok = ok.bytes_ok;
        denotes = omega (arith, ok.denotes, ok.partial_lt);
        counts = omega (arith, ok.counts);
        less_than_byte = omega arith;
      },
  λ h. absurd (h refl),
)
pad_output bytes partial (suc k) value count ok =
    let ones = 2 ^ (8 - suc k) - 1 in
    let full =
      filled-IsOutput ones bytes partial (suc k) value count
        (omega (arith, pow_positive (8 - suc k))) ok in
    (
      8 - suc k,
      subst (λ (b : List ℕ). Padded b value count (8 - suc k)) (sym (pad_part bytes partial k))
          (record {
            bytes_ok = full.bytes_ok;
            denotes = omega (arith, full.denotes);
            counts = omega (arith, full.counts);
            less_than_byte = omega arith;
          }),
      λ h. refl,
    )

pad_byte-Padded :
    (o : Output) (value count : ℕ)
    → Denotes o value count
    → (r : ℕ) × Padded (pad_byte o) value count r × (o.space_left ≢ 8 → r ≡ o.space_left)
pad_byte-Padded o value count d =
    rw d.is_output (pad_output d.bytes d.partial d.used value count d.well)

-- The end of the stream: ones, four of them or more.
abbrev pub end_fields : ℕ → List (ℕ × ℕ)
end_fields r = (0b1111, 4) ∷ (2 ^ r - 1, r) ∷ []

end_value : (r v : ℕ) → fields_value v (end_fields r) ≡ (v * 16 + 15) * 2 ^ r + (2 ^ r - 1)
end_value r v =
    ap (λ (t : ℕ). (v * 16 + 15) * 2 ^ r + t) (mod-eq_of_lt (omega (arith, pow_positive r)))

ones_split :
    (r : ℕ)
    → 4 ≤ r
    → (v : ℕ) → v * 2 ^ r + (2 ^ r - 1) ≡ (v * 16 + 15) * 2 ^ (r - 4) + (2 ^ (r - 4) - 1)
ones_split r h v = omega (
  arith,
  four,
  ap (λ (t : ℕ). v * t) four,
  mul_assoc v 16 (2 ^ (r - 4)),
  add-mul (v * 16) 15 (2 ^ (r - 4)),
  pow_positive (r - 4),
)
  where
    four : 2 ^ r ≡ 16 * 2 ^ (r - 4)
    four = ap (λ (k : ℕ). 2 ^ k) (omega arith) ∙ pow_add 4 (r - 4)

ones-Padded :
    (bytes : List ℕ) (value count r : ℕ)
    → 4 ≤ r
    → Padded bytes value count r
    → Padded bytes (value * 16 + 15) (count + 4) (r - 4)
ones-Padded bytes value count r four p = record {
  bytes_ok = p.bytes_ok;
  denotes = p.denotes ∙ ones_split r four value;
  counts = omega (arith, p.counts);
  less_than_byte = omega (arith, p.less_than_byte);
}

-- The bytes of a stream denote its fields and the end.
pub record IsStream (bytes : List ℕ) (fields : List (ℕ × ℕ)) (r : ℕ) : Type 0 where
  pub bytes_ok : AllBytes bytes
  pub denotes : bytes_value 0 bytes ≡ fields_value 0 (fields ++ end_fields r)
  pub counts : 8 * length bytes ≡ fields_width (fields ++ end_fields r)
  pub less_than_byte : r < 8

Padded-IsStream :
    (bytes : List ℕ) (fields : List (ℕ × ℕ)) (r : ℕ)
    → Padded bytes (fields_value 0 fields * 16 + 15) (0 + fields_width fields + 4) r
    → IsStream bytes fields r
Padded-IsStream bytes fields r p = record {
  bytes_ok = p.bytes_ok;
  denotes =
      p.denotes
      ∙ sym (end_value r (fields_value 0 fields))
      ∙ sym (fields_value-append fields (end_fields r) 0);
  counts = omega (arith, p.counts, fields_width-append fields (end_fields r));
  less_than_byte = p.less_than_byte;
}

empty-Denotes : Denotes (record { byte_stream = []; current_byte = 0; space_left = 8 }) 0 0
empty-Denotes = record {
  bytes = [];
  partial = 0;
  used = 0;
  is_output = refl;
  well = record {
    bytes_ok = tt;
    used_le = omega arith;
    partial_lt = omega arith;
    denotes = refl;
    counts = refl;
  };
}

abbrev Ended : Encoder → Output → (value count : ℕ) → Type 0
Ended e o value count =
    (o' : Output) × (r : ℕ) × (end_instruction e o ≡ some o')
    × Padded (pad_byte o') (value * 16 + 15) (count + 4) r

end_instruction-Ended :
    (e : Encoder) (o : Output) (value count : ℕ) → Denotes o value count → Ended e o value count
unfolding end_instruction
end_instruction-Ended e o value count d =
    elim (Bool-cases (o.space_left == 8 || ltb o.space_left 4)) [
      | inl room ↦
          let (o', appended, d') =
            append_instruction-Denotes e e end_command ((0b1111, 4) ∷ []) o value count
              (unfold encode_as in refl) (omega arith) d in
          let (r, padded, same) = pad_byte-Padded o' (value * 16 + 15) (count + 4) d' in
          (o', r, rw (room, appended) refl, padded)
      | inr fits ↦
          let (r, padded, same) = pad_byte-Padded o value count d in
          (
            o,
            r - 4,
            rw fits refl,
            ones-Padded (pad_byte o) value count r (ground (arith, same (ground arith))) padded,
          )
    ]

-- Where every instruction fits a qword, encode accepts the commands, and its bytes denote the bit
-- fields of the instructions, one after another and high bit first, then four ones, and fewer than
-- eight more to the end of the byte.
pub encode-IsStream :
    (commands : List PublicCommand)
    → AllFit reset commands
    → (fields : List (ℕ × ℕ)) × (e : Encoder) × (bytes : List ℕ) × (r : ℕ) × (all_fields reset
          commands
        ≡ some (fields, e))
      × (encode commands ≡ some bytes)
      × IsStream bytes fields r
unfolding encode
encode-IsStream commands h =
    let (fields, e, o, all, appended, d) =
      append_instructions-Denotes reset commands
        (record { byte_stream = []; current_byte = 0; space_left = 8 }) 0 0 h empty-Denotes in
    let (o', r, ended, padded) =
      end_instruction-Ended e o (fields_value 0 fields) (0 + fields_width fields) d in
    (
      fields,
      e,
      pad_byte o',
      r,
      all,
      rw (appended, ended) refl,
      Padded-IsStream (pad_byte o') fields r padded,
    )
