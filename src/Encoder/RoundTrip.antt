-- ===== src/Encoder/RoundTrip.antt =====
-- encode, then decode.
use native.Mathlib.Nat.{add_assoc}
use ravens.Base.{
  ℕ, zero, suc, ◌+◌, ◌-◌, ◌*◌, ◌%◌, ◌^◌, ◌≤◌, ◌<◌, ◌≡◌, refl, sym, subst, ap, ◌∙◌, true, some, List,
  [], ◌∷◌, ◌++◌, arith, length,
}
use ravens.Base.Maybe.{some_injective}
use ravens.Base.Memory.{of_list}
use ravens.Decoder.Reader.{size_mod}
use ravens.Decoder.{Context, decode_operands, decode_instruction, opcode_of}
use ravens.Encoder.{Encoder, Instr, PublicCommand, opcode_field}
use ravens.Encoder.Copies.{chained_copy-Codes, copy-Codes}
use ravens.Encoder.Encodable.{encoder_of, IsContext, EncodableAs, Encodable, context_after}
use ravens.Encoder.Fields.{fields_width, fields_width-append}
use ravens.Encoder.Instructions.{
  Codes, erase-Codes, load_and_flush-Codes, commit-Codes, flush_commit-Codes, use_block-Codes,
  release_block-Codes, chained_skip-Codes,
}
use ravens.Encoder.Located.{
  At, At-read, At-rest, At-behind, At-regroup, regroup, FieldsAt, FieldsAt-append, stream-At,
}
use ravens.Encoder.Rebase.{rebase-Codes, rebase_bits}
use ravens.Encoder.Stream.{public_of, start_context, decode_loop, decode, encode}
use ravens.Encoder.Whole.{all_fields, AllFit, IsStream, end_fields, encode-IsStream}

instruction-Codes :
    (i : Instr) (ctx : Context) (c : PublicCommand)
    → IsContext ctx
    → EncodableAs i ctx c
    → Codes i ctx c
instruction-Codes Instr.erase ctx c ok h = erase-Codes ctx ok c h
instruction-Codes Instr.commit ctx c ok h = commit-Codes ctx ok c h
instruction-Codes Instr.flush_and_partial_commit ctx c ok h = flush_commit-Codes ctx ok c h
instruction-Codes Instr.load_and_flush ctx c ok h = load_and_flush-Codes ctx ok c h
instruction-Codes Instr.copy ctx c ok h = copy-Codes ctx ok c h
instruction-Codes Instr.chained_copy ctx c ok h = chained_copy-Codes ctx ok c h
instruction-Codes Instr.chained_copy_skip ctx c ok h = chained_skip-Codes ctx ok c h
instruction-Codes Instr.use_block ctx c ok h = use_block-Codes ctx ok c h
instruction-Codes Instr.release_block ctx c ok h = release_block-Codes ctx ok c h
instruction-Codes Instr.rebase ctx c ok h = rebase-Codes ctx ok c h
instruction-Codes Instr.end_of_stream ctx c ok h = absurd h

-- The context stays one.
after-IsContext :
    (i : Instr) (ctx : Context) (c : PublicCommand)
    → IsContext ctx
    → EncodableAs i ctx c
    → IsContext (context_after i ctx c)
after-IsContext Instr.use_block ctx c ok h = record {
  id_bits = ok.id_bits;
  id_bits_ref = ok.id_bits_ref;
  size_bits_ref = ok.size_bits_ref;
  base_aligned = ok.base_aligned;
  base_small = ok.base_small;
}
after-IsContext Instr.release_block ctx c ok h = record {
  id_bits = ok.id_bits;
  id_bits_ref = ok.id_bits_ref;
  size_bits_ref = ok.size_bits_ref;
  base_aligned = ok.base_aligned;
  base_small = ok.base_small;
}
after-IsContext Instr.rebase ctx c ok (bits, h) = record {
  id_bits = omega (arith, rebase_bits c bits h, h.0);
  id_bits_ref = ok.id_bits_ref;
  size_bits_ref = ok.size_bits_ref;
  base_aligned = h.2;
  base_small = h.3;
}
after-IsContext Instr.erase ctx c ok h = ok
after-IsContext Instr.commit ctx c ok h = ok
after-IsContext Instr.flush_and_partial_commit ctx c ok h = ok
after-IsContext Instr.load_and_flush ctx c ok h = ok
after-IsContext Instr.copy ctx c ok h = ok
after-IsContext Instr.chained_copy ctx c ok h = ok
after-IsContext Instr.chained_copy_skip ctx c ok h = ok
after-IsContext Instr.end_of_stream ctx c ok h = absurd h

module _ (ctx : Context) (c : PublicCommand) (codes : Codes c.command ctx c) where
  -- The bits of the instruction.
  abbrev pub bits_of : List (ℕ × ℕ)
  bits_of = opcode_field codes.opcode ∷ codes.operands

  decode_instruction-At :
      (bytes : List ℕ) (off : ℕ) (more : List (ℕ × ℕ))
      → At bytes off (bits_of ++ more)
      → decode_instruction (of_list bytes) (length bytes) ctx off
        ≡ some ((true, context_after c.command ctx c, codes.decoded), off + fields_width bits_of)
  unfolding decode_instruction
  decode_instruction-At bytes off more at =
      rw (At-read bytes codes.opcode 4 (codes.operands ++ more) off (omega arith) at, small)
        (codes.decodes bytes (off + 4) more
            (At-rest bytes codes.opcode 4 (codes.operands ++ more) off at)
          ∙ ap (λ (o : ℕ). some ((true, context_after c.command ctx c, codes.decoded), o))
              (add_assoc off 4 (fields_width codes.operands)))
    where
      small : codes.opcode % 2 ^ 4 ≡ codes.opcode
      small = omega (arith, codes.is_opcode)

-- Every instruction has four bits or more and fits a qword.
record Coded (ctx : Context) (commands : List PublicCommand) : Type 0 where
  fields : List (ℕ × ℕ)
  last : Context
  all : all_fields (encoder_of ctx) commands ≡ some (fields, encoder_of last)
  fit : AllFit (encoder_of ctx) commands
  lower : 4 * length commands ≤ fields_width fields
  upper : fields_width fields ≤ 64 * length commands
  decodes :
      (bytes : List ℕ) (fuel off : ℕ)
      → At bytes off (fields ++ ((0b1111, 4) ∷ []))
      → length commands < fuel
      → decode_loop fuel (of_list bytes) (length bytes) ctx off ≡ some commands

abbrev at_end : List (ℕ × ℕ)
at_end = (0b1111, 4) ∷ []

-- The four ones at the end are END_OF_STREAM.
decode_loop-end :
    (ctx : Context) (bytes : List ℕ) (fuel off : ℕ)
    → At bytes off at_end
    → 0 < fuel
    → decode_loop fuel (of_list bytes) (length bytes) ctx off ≡ some []
unfolding decode_loop decode_instruction decode_operands opcode_of public_of
decode_loop-end ctx bytes zero off at enough = absurd (omega arith)
decode_loop-end ctx bytes (suc fuel) off at enough =
    rw (decode_loop, At-read bytes 15 4 [] off (omega arith) at) refl

decode_loop-next :
    (ctx : Context) (c : PublicCommand) (rest : List PublicCommand) (codes : Codes c.command ctx c)
    (next : Coded (context_after c.command ctx c) rest) (bytes : List ℕ) (fuel off : ℕ)
    → At bytes off ((bits_of ctx c codes ++ next.fields) ++ at_end)
    → length (c ∷ rest) < fuel
    → decode_loop fuel (of_list bytes) (length bytes) ctx off ≡ some (c ∷ rest)
unfolding decode_loop
decode_loop-next ctx c rest codes next bytes zero off at enough = absurd (omega arith)
decode_loop-next ctx c rest codes next bytes (suc fuel) off at enough =
    let bits = bits_of ctx c codes in
    let at' = At-regroup bytes bits next.fields at_end off at in
    rw
      (
        decode_loop,
        decode_instruction-At ctx c codes bytes off (next.fields ++ at_end) at',
        codes.returns,
        next.decodes bytes fuel (off + fields_width bits)
            (At-behind bytes bits off (next.fields ++ at_end) at') (omega arith),
      )
      refl

Coded-next :
    (ctx : Context) (c : PublicCommand) (rest : List PublicCommand)
    → Codes c.command ctx c
    → Coded (context_after c.command ctx c) rest
    → Coded ctx (c ∷ rest)
Coded-next ctx c rest codes next = record {
  fields = bits_of ctx c codes ++ next.fields;
  last = next.last;
  all = unfold all_fields in rw (codes.encodes, next.all) refl;
  fit =
      unfold AllFit in
      (
        bits_of ctx c codes,
        encoder_of (context_after c.command ctx c),
        codes.encodes,
        omega (arith, codes.narrow),
        next.fit,
      );
  lower = omega (arith, next.lower, fields_width-append (bits_of ctx c codes) next.fields);
  upper =
      omega
        (arith, next.upper, codes.narrow, fields_width-append (bits_of ctx c codes) next.fields);
  decodes = decode_loop-next ctx c rest codes next;
}

Encodable-Coded :
    (commands : List PublicCommand) (ctx : Context)
    → IsContext ctx
    → Encodable ctx commands
    → Coded ctx commands
unfolding Encodable
Encodable-Coded [] ctx ok h = record {
  fields = [];
  last = ctx;
  all = unfold all_fields in refl;
  fit = unfold AllFit in tt;
  lower = omega arith;
  upper = omega arith;
  decodes = decode_loop-end ctx;
}
Encodable-Coded (c ∷ rest) ctx ok (h, more) =
    Coded-next ctx c rest (instruction-Codes c.command ctx c ok h) (
      Encodable-Coded rest (context_after c.command ctx c) (after-IsContext c.command ctx c ok h)
        more)

start-IsContext : IsContext start_context
start-IsContext = record {
  id_bits = omega arith;
  id_bits_ref = refl;
  size_bits_ref = refl;
  base_aligned = refl;
  base_small = omega arith;
}

-- The fields and the four ones stand at the start of the stream.
stream-start :
    (bytes : List ℕ) (fields : List (ℕ × ℕ)) (r : ℕ)
    → IsStream bytes fields r
    → fields_width fields + 4 < size_mod
    → At bytes 0 (fields ++ at_end)
stream-start bytes fields r stream fits = record {
  are_bytes = stream.bytes_ok;
  here =
      (FieldsAt-append (of_list bytes) (fields ++ at_end) ((2 ^ r - 1, r) ∷ []) 0 (
        subst (λ (l : List (ℕ × ℕ)). FieldsAt (of_list bytes) 0 l)
          (sym (regroup fields at_end ((2 ^ r - 1, r) ∷ [])))
          (stream-At bytes (fields ++ end_fields r) stream.bytes_ok stream.denotes
            stream.counts))).0;
  inside = omega (
    arith,
    stream.counts,
    fields_width-append fields (end_fields r),
    fields_width-append fields at_end,
  );
  fits = omega (arith, fits, fields_width-append fields at_end);
}

decode-stream :
    (commands : List PublicCommand) (coded : Coded start_context commands) (bytes : List ℕ) (r : ℕ)
    → IsStream bytes coded.fields r
    → length commands < 2 ^ 25
    → decode bytes ≡ some commands
unfolding decode
decode-stream commands coded bytes r stream short =
    coded.decodes bytes (8 * length bytes + 1) 0
      (stream-start bytes coded.fields r stream (omega (arith, coded.upper)))
      (omega (arith, coded.lower, stream.counts, fields_width-append coded.fields (end_fields r)))

-- encode accepts every sequence of fewer than 2 ^ 25 commands that can be expressed, in the context
-- that each one finds, and decode makes the same commands of the bytes. A command can be expressed
-- where its fields are in range, those that its instruction leaves out are 0, its blocks have an ID
-- behind the base, or are the block in use where the instruction omits it, and a REBASE chooses a
-- width of 1 to 12 bits, given as 2 ^ bits - 1, that its own block's number fits.
pub decode-encode :
    (commands : List PublicCommand)
    → Encodable start_context commands
    → length commands < 2 ^ 25
    → (bytes : List ℕ) × (encode commands ≡ some bytes) × (decode bytes ≡ some commands)
decode-encode commands h short =
    let coded = Encodable-Coded commands start_context start-IsContext h in
    let (fields, e, bytes, r, all, encoded, stream) = encode-IsStream commands coded.fit in
    (
      bytes,
      encoded,
      decode-stream commands coded bytes r
          (subst (λ (l : List (ℕ × ℕ)). IsStream bytes l r)
            (ap (λ (p : List (ℕ × ℕ) × Encoder). p.0) (some_injective (sym all ∙ coded.all)))
            stream)
          short,
    )

-- The stream of such a sequence has more than half as many bytes as commands, and at most eight for
-- each command and one more.
pub length-encode :
    (commands : List PublicCommand)
    → Encodable start_context commands
    → (bytes : List ℕ) × (encode commands ≡ some bytes)
      × (length commands < 2 * length bytes)
      × (length bytes ≤ 8 * length commands + 1)
length-encode commands h =
    let coded = Encodable-Coded commands start_context start-IsContext h in
    let (fields, e, bytes, r, all, encoded, stream) = encode-IsStream commands coded.fit in
    let width : fields_width fields ≡ fields_width coded.fields =
      ap (λ (p : List (ℕ × ℕ) × Encoder). fields_width p.0)
        (some_injective (sym all ∙ coded.all)) in
    (
      bytes,
      encoded,
      omega (arith, width, coded.lower, stream.counts, fields_width-append fields (end_fields r)),
      omega (
        arith,
        width,
        coded.upper,
        stream.counts,
        stream.less_than_byte,
        fields_width-append fields (end_fields r),
      ),
    )
