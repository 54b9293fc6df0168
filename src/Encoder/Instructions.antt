-- ===== src/Encoder/Instructions.antt =====
-- Each instruction: the decoder reads back what encodeInstruction writes.
use native.Mathlib.Nat.{add-zero}
use ravens.Base.{
  ℕ, ◌+◌, ◌*◌, ◌/◌, ◌%◌, ◌≤◌, ◌<◌, ◌≡◌, refl, sym, ap, Bool, true, false, some, List, [], ◌∷◌, ◌++◌,
  arith, length,
}
use ravens.Base.Memory.{of_list}
use ravens.Decoder.{
  Opcode, Command, Context, bare, decode_block, decode_flush_commit, decode_use_block,
  decode_chained_skip, decode_operands, opcode_of, block_operand,
}
use ravens.Encoder.{
  Instr, PublicCommand, opcode_field, length_field, encode_as, encode_block, encode_flush_commit,
}
use ravens.Encoder.Encodable.{encoder_of, IsContext, IsBlockOperand, EncodableAs, context_after}
use ravens.Encoder.Fields.{fields_width, fields_width-append}
use ravens.Encoder.Located.{At, At-regroup, At-behind}
use ravens.Encoder.Operands.{
  block_fields, block_field-lem, block_reading, read_length-At, length_reading,
}
use ravens.Encoder.Stream.{public_of}

-- The bits of command `c` as instruction `i`: an opcode and operands, which the decoder reads and
-- makes the command of.
pub record Codes (i : Instr) (ctx : Context) (c : PublicCommand) : Type 0 where
  pub opcode : ℕ
  pub is_opcode : opcode < 16
  pub operands : List (ℕ × ℕ)
  pub narrow : fields_width operands ≤ 60
  pub encodes :
      encode_as i (encoder_of ctx) c
      ≡ some (opcode_field opcode ∷ operands, encoder_of (context_after i ctx c))
  pub decoded : Command
  pub decodes :
      (bytes : List ℕ) (off : ℕ) (more : List (ℕ × ℕ))
      → At bytes off (operands ++ more)
      → decode_operands (of_list bytes) (length bytes) (opcode_of opcode) ctx off
        ≡ some ((true, context_after i ctx c, decoded), off + fields_width operands)
  pub returns : public_of decoded.command decoded ≡ some (record c { command = i })

pub block_fields-narrow :
    (in_use : Bool) (ctx : Context) (a : ℕ)
    → IsContext ctx
    → fields_width (block_fields in_use ctx a) ≤ 12
block_fields-narrow true ctx a ok = omega arith
block_fields-narrow false ctx a ok = omega (arith, ok.id_bits)

pub whole : (a : ℕ) → a % 4096 ≡ 0 → a / 4096 * 4096 ≡ a
whole a h = omega arith

module _ (ctx : Context) (ok : IsContext ctx) (c : PublicCommand) where
  -- ERASE, LOAD_AND_FLUSH and COMMIT
  encode_block-lem :
      (opcode : ℕ)
      → IsBlockOperand ctx.using_block ctx c
      → encode_block opcode (encoder_of ctx) c
        ≡ some (opcode_field opcode ∷ block_fields ctx.using_block ctx c.main_address)
  unfolding encode_block
  encode_block-lem opcode h = rw (block_field-lem ctx.using_block ctx c.main_address ok h.1) refl

  decode_block-At :
      (op : Opcode) (bytes : List ℕ) (off : ℕ) (more : List (ℕ × ℕ))
      → IsBlockOperand ctx.using_block ctx c
      → At bytes off (block_fields ctx.using_block ctx c.main_address ++ more)
      → decode_block (of_list bytes) (length bytes) op ctx off
        ≡ some (
          (true, ctx, record (bare op) { main_address = c.main_address }),
          off + fields_width (block_fields ctx.using_block ctx c.main_address),
        )
  unfolding decode_block block_operand
  decode_block-At op bytes off more h at =
      rw
        (
          block_reading bytes ctx ok ctx.using_block c.main_address off more h.1 at,
          whole c.main_address h.0,
        )
        refl

  pub erase-Codes : EncodableAs Instr.erase ctx c → Codes Instr.erase ctx c
  erase-Codes (h, no_length) = record {
    opcode = 0;
    is_opcode = omega arith;
    operands = block_fields ctx.using_block ctx c.main_address;
    narrow = omega (arith, block_fields-narrow ctx.using_block ctx c.main_address ok);
    encodes = unfold encode_as in rw (encode_block-lem 0 h) refl;
    decoded = record (bare Opcode.erase) { main_address = c.main_address };
    decodes = λ bytes off more at.
        unfold decode_operands opcode_of in decode_block-At Opcode.erase bytes off more h at;
    returns = unfold public_of in rw (h.2, no_length) refl;
  }

  pub load_and_flush-Codes :
      EncodableAs Instr.load_and_flush ctx c → Codes Instr.load_and_flush ctx c
  load_and_flush-Codes (h, no_length) = record {
    opcode = 1;
    is_opcode = omega arith;
    operands = block_fields ctx.using_block ctx c.main_address;
    narrow = omega (arith, block_fields-narrow ctx.using_block ctx c.main_address ok);
    encodes = unfold encode_as in rw (encode_block-lem 1 h) refl;
    decoded = record (bare Opcode.load_flush) { main_address = c.main_address };
    decodes = λ bytes off more at.
        unfold decode_operands opcode_of in decode_block-At Opcode.load_flush bytes off more h at;
    returns = unfold public_of in rw (h.2, no_length) refl;
  }

  pub commit-Codes : EncodableAs Instr.commit ctx c → Codes Instr.commit ctx c
  commit-Codes (h, no_length) = record {
    opcode = 2;
    is_opcode = omega arith;
    operands = block_fields ctx.using_block ctx c.main_address;
    narrow = omega (arith, block_fields-narrow ctx.using_block ctx c.main_address ok);
    encodes = unfold encode_as in rw (encode_block-lem 2 h) refl;
    decoded = record (bare Opcode.commit) { main_address = c.main_address };
    decodes = λ bytes off more at.
        unfold decode_operands opcode_of in decode_block-At Opcode.commit bytes off more h at;
    returns = unfold public_of in rw (h.2, no_length) refl;
  }

  -- FLUSH_AND_PARTIAL_COMMIT
  pub flush_commit-Codes :
      EncodableAs Instr.flush_and_partial_commit ctx c → Codes Instr.flush_and_partial_commit ctx c
  flush_commit-Codes (h, is_length) =
      let block = block_fields ctx.using_block ctx c.main_address in
      let size = length_field 12 c.length in
      record {
        opcode = 3;
        is_opcode = omega arith;
        operands = block ++ (size ∷ []);
        narrow = omega (
          arith,
          fields_width-append block (size ∷ []),
          block_fields-narrow ctx.using_block ctx c.main_address ok,
        );
        encodes =
            unfold encode_as encode_flush_commit in
            rw (block_field-lem ctx.using_block ctx c.main_address ok h.1) refl;
        decoded = record (bare Opcode.flush_commit) {
          main_address = c.main_address;
          length = c.length;
        };
        decodes = λ bytes off more at.
            let at' = At-regroup bytes block (size ∷ []) more off at in
            unfold decode_operands opcode_of decode_flush_commit block_operand in
            rw
              (
                block_reading bytes ctx ok ctx.using_block c.main_address off (size ∷ more) h.1 at',
                whole c.main_address h.0,
                length_reading bytes ctx ok c.length (off + fields_width block) more is_length
                    (At-behind bytes block off (size ∷ more) at'),
              )
              (ap
                (λ (o : ℕ). some (
                  (
                    true,
                    ctx,
                    record (bare Opcode.flush_commit) {
                      main_address = c.main_address;
                      length = c.length;
                    },
                  ),
                  o,
                ))
                (omega (arith, fields_width-append block (size ∷ []))));
        returns = unfold public_of in rw (h.2) refl;
      }

  -- USE_BLOCK
  pub use_block-Codes : EncodableAs Instr.use_block ctx c → Codes Instr.use_block ctx c
  use_block-Codes (h, no_length) = record {
    opcode = 4;
    is_opcode = omega arith;
    operands = block_fields false ctx c.main_address;
    narrow = omega (arith, ok.id_bits);
    encodes = unfold encode_as in rw (block_field-lem false ctx c.main_address ok h.1) refl;
    decoded = record (bare Opcode.use_block) { main_address = c.main_address };
    decodes = λ bytes off more at.
        unfold decode_operands opcode_of decode_use_block in
        rw
          (
            block_reading bytes ctx ok false c.main_address off more h.1 at,
            whole c.main_address h.0,
          )
          refl;
    returns = unfold public_of in rw (h.2, no_length) refl;
  }

  pub release_block-Codes : EncodableAs Instr.release_block ctx c → Codes Instr.release_block ctx c
  release_block-Codes (no_main, no_secondary, no_length) = record {
    opcode = 5;
    is_opcode = omega arith;
    operands = [];
    narrow = omega arith;
    encodes = unfold encode_as in refl;
    decoded = bare Opcode.release;
    decodes = λ bytes off more at.
        unfold decode_operands opcode_of in
        ap (λ (o : ℕ). some ((true, record ctx { using_block = false }, bare Opcode.release), o))
          (sym (add-zero off));
    returns = unfold public_of in rw (no_main, no_secondary, no_length) refl;
  }

  pub chained_skip-Codes :
      EncodableAs Instr.chained_copy_skip ctx c → Codes Instr.chained_copy_skip ctx c
  chained_skip-Codes (no_main, no_secondary, is_length) = record {
    opcode = 14;
    is_opcode = omega arith;
    operands = length_field 6 c.length ∷ [];
    narrow = omega arith;
    encodes = unfold encode_as in refl;
    decoded = record (bare Opcode.chained_skip) { length = c.length };
    decodes = λ bytes off more at.
        unfold decode_operands opcode_of decode_chained_skip in
        rw (read_length-At bytes ctx ok 64 6 c.length off more refl (omega arith) is_length at)
          refl;
    returns = unfold public_of in rw (no_main, no_secondary) refl;
  }
