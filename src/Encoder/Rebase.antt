-- ===== src/Encoder/Rebase.antt =====
-- REBASE: the decoder reads back what encodeInstruction writes.

use ravens.Base.{
  ℕ, ◌+◌, ◌-◌, ◌*◌, ◌/◌, ◌%◌, ◌^◌, ◌≤◌, ◌<◌, ◌≡◌, refl, ap, ◌∙◌, subst, true, Option, some, List,
  [], ◌∷◌, arith, ◌==◌, length, passes, passes_at,
}
use ravens.Base.Memory.{of_list}
use ravens.Decoder.{Opcode, Context, bare, decode_rebase, decode_operands, opcode_of, read_block_id}
use ravens.Encoder.{
  Instr, PublicCommand, opcode_field, encode_as, encode_rebase, number_of_bits_necessary,
  bits_necessary,
}
use ravens.Encoder.Encodable.{encoder_of, IsContext, IsRebase, EncodableAs}
use ravens.Encoder.Instructions.{Codes, whole}
use ravens.Encoder.Located.{At, At-read, At-rest}
use ravens.Encoder.Operands.{number_of_bits_necessary-le, extract_block_id-lem, read_block_id-At}
use ravens.Encoder.Stream.{public_of}

-- `(1 << bits) - 1` needs `bits` bits.
bits_table : passes (λ k. number_of_bits_necessary (2 ^ k - 1) == k) 13 ≡ true
unfolding passes number_of_bits_necessary bits_necessary
bits_table = refl

pub rebase_bits :
    (c : PublicCommand) (bits : ℕ) → IsRebase c bits → number_of_bits_necessary c.length ≡ bits
rebase_bits c bits h = rw (h.1) (
    ground (
      arith,
      passes_at (λ k. number_of_bits_necessary (2 ^ k - 1) == k) 13 bits_table bits
          (omega (arith, h.0)),
    ))

module _ (ctx : Context) (ok : IsContext ctx) (c : PublicCommand) (bits : ℕ)
    (h : IsRebase c bits) where
  -- The context in which the block of REBASE is written and read.
  abbrev from_start : (width : ℕ) → Context
  from_start width = record ctx { block_id_bits = width; block_base = 0 }

  from_start-IsContext : (width : ℕ) → width ≤ 12 → IsContext (from_start width)
  from_start-IsContext width narrow = record {
    id_bits = narrow;
    id_bits_ref = ok.id_bits_ref;
    size_bits_ref = ok.size_bits_ref;
    base_aligned = refl;
    base_small = omega arith;
  }

  encode_rebase-lem :
      encode_rebase (encoder_of ctx) c
      ≡ some (
        opcode_field 6 ∷ (c.main_address / 4096, 8) ∷ (bits - 1, 4) ∷ [],
        encoder_of (record ctx { block_id_bits = bits; block_base = c.main_address }),
      )
  unfolding encode_rebase
  encode_rebase-lem =
      rw
        (
          rebase_bits c bits h,
          byte,
          less_one,
          number_of_bits_necessary-le (bits - 1) 4 (omega (arith, h.0)),
          extract_block_id-lem (from_start bits) c.main_address
              (from_start-IsContext bits (omega (arith, h.0))) (omega arith, omega (arith, h.4)),
          base,
        )
        (ap
          (λ (a : ℕ). some (
            opcode_field 6 ∷ (a / 4096, 8) ∷ (bits - 1, 4) ∷ [],
            encoder_of (record ctx { block_id_bits = bits; block_base = c.main_address }),
          ))
          (omega arith))
    where
      byte : bits % 256 ≡ bits
      byte = omega (arith, h.0)

      less_one : (bits + 2 ^ 32 - 1) % 2 ^ 32 ≡ bits - 1
      less_one = omega (arith, h.0)

      base : c.main_address % 2 ^ 32 - c.main_address % 4096 ≡ c.main_address
      base = omega (arith, h)

  module _ (bytes : List ℕ) (off : ℕ) (more : List (ℕ × ℕ))
      (at : At bytes off ((c.main_address / 4096, 8) ∷ (bits - 1, 4) ∷ more)) where
    rebase_block :
        (width : ℕ)
        → width ≡ 8
        → read_block_id (of_list bytes) (length bytes) (from_start width) off
          ≡ some (c.main_address, off + 8)
    rebase_block width e =
        read_block_id-At bytes (from_start width) (from_start-IsContext width (omega (arith, e)))
          c.main_address off ((bits - 1, 4) ∷ more) (omega arith, small)
          (subst (λ (field : ℕ × ℕ). At bytes off (field ∷ (bits - 1, 4) ∷ more)) field at)
        ∙ result
      where
        field : ◌≡◌ {A = ℕ × ℕ} (c.main_address / 4096, 8) ((c.main_address - 0) / 4096, width)
        field = rw (e, minus_nothing) refl
          where
            minus_nothing : c.main_address - 0 ≡ c.main_address
            minus_nothing = omega arith

        small : (c.main_address - 0) / 4096 < 2 ^ width
        small = rw e (omega (arith, h))

        result :
            ◌≡◌ {A = Option (ℕ × ℕ)}
              (some (c.main_address / 4096 * 4096, off + width))
              (some (c.main_address, off + 8))
        result = rw (e, whole c.main_address (h.2)) refl

    decode_rebase-At :
        decode_rebase (of_list bytes) (length bytes) ctx off
        ≡ some (
          (
            true,
            record ctx { block_id_bits = bits; block_base = c.main_address },
            record (bare Opcode.rebase) { main_address = c.main_address; length = c.length },
          ),
          off + 12,
        )
    unfolding decode_rebase
    decode_rebase-At =
        rw
          (
            rebase_block ctx.block_id_bits_ref ok.id_bits_ref,
            At-read bytes (bits - 1) 4 more (off + 8) (omega arith)
                (At-rest bytes (c.main_address / 4096) 8 ((bits - 1, 4) ∷ more) off at),
            width,
            h.1,
          )
          (ap
            (λ (o : ℕ). some (
              (
                true,
                record ctx { block_id_bits = bits; block_base = c.main_address },
                record (bare Opcode.rebase) {
                  main_address = c.main_address;
                  length = 2 ^ bits - 1;
                },
              ),
              o,
            ))
            (omega arith))
      where
        width : ((bits - 1) % 2 ^ 4 + 1) % 256 ≡ bits
        width = omega (arith, h.0)

module _ (ctx : Context) (ok : IsContext ctx) (c : PublicCommand) where
  pub rebase-Codes : EncodableAs Instr.rebase ctx c → Codes Instr.rebase ctx c
  rebase-Codes (bits, h) = record {
    opcode = 6;
    is_opcode = omega arith;
    operands = (c.main_address / 4096, 8) ∷ (bits - 1, 4) ∷ [];
    narrow = omega arith;
    encodes = unfold encode_as in rw (rebase_bits c bits h) (encode_rebase-lem ctx ok c bits h);
    decoded = record (bare Opcode.rebase) { main_address = c.main_address; length = c.length };
    decodes = λ bytes off more at.
        unfold decode_operands opcode_of in
        rw (rebase_bits c bits h) (decode_rebase-At ctx ok c bits h bytes off more at);
    returns = unfold public_of in rw (h.5) refl;
  }
