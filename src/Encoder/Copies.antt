-- ===== src/Encoder/Copies.antt =====
-- The copies: the decoder reads back what encodeInstruction writes.

use ravens.Base.{
  ℕ, ◌+◌, ◌≤◌, ◌<◌, ◌≡◌, refl, subst, ap, ◌∙◌, Bool, true, false, not, ◌&&◌, ◌||◌, Option, some,
  List, [], ◌∷◌, ◌++◌, arith, if◌then◌else◌, length,
}
use ravens.Base.Memory.{of_list}
use ravens.Decoder.{
  Opcode, Command, Context, bare, decode_chained_copy, decode_copy, decode_operands, opcode_of,
}
use ravens.Encoder.{
  Instr, PublicCommand, offset_field, length_field, encode_as, copy_opcode, encode_copy,
  encode_chained_copy,
}
use ravens.Encoder.Encodable.{IsContext, IsOperandOf, is_cached, IsLengthUpTo, EncodableAs}
use ravens.Encoder.Fields.{fields_width, fields_width-append}
use ravens.Encoder.Instructions.{Codes, block_fields-narrow}
use ravens.Encoder.Located.{At, regroup, At-regroup, At-behind, At-rest}
use ravens.Encoder.Operands.{
  base_fields, base_field-lem, stored, in_cache-stored, length_reading, first_address-At,
  second_address-At,
}
use ravens.Encoder.Stream.{in_cache, public_of}

base_fields-narrow :
    (is_cache in_use : Bool) (ctx : Context) (a : ℕ)
    → IsContext ctx
    → fields_width (base_fields is_cache in_use ctx a) ≤ 12
base_fields-narrow true in_use ctx a ok = omega arith
base_fields-narrow false in_use ctx a ok = block_fields-narrow in_use ctx a ok

-- The opcodes by the operands that are in the cache.
abbrev chained_copy_op : Bool → Opcode
chained_copy_op true = Opcode.chained_copy_c
chained_copy_op false = Opcode.chained_copy_n

chained_opcode :
    (bytes : List ℕ) (ctx : Context) (is_cache : Bool)
    → decode_operands (of_list bytes) (length bytes) (opcode_of (if is_cache then 13 else 12)) ctx
      ≡ decode_chained_copy (of_list bytes) (length bytes) (chained_copy_op is_cache) is_cache ctx
unfolding decode_operands opcode_of
chained_opcode bytes ctx true = refl
chained_opcode bytes ctx false = refl

abbrev copy_op : (is_main_cache is_sec_cache : Bool) → Opcode
copy_op false false = Opcode.copy_nn
copy_op false true = Opcode.copy_nc
copy_op true false = Opcode.copy_cn
copy_op true true = Opcode.copy_cc

copy_opcode-lem :
    (bytes : List ℕ) (ctx : Context) (m s : Bool)
    → decode_operands (of_list bytes) (length bytes) (opcode_of (copy_opcode m s)) ctx
      ≡ decode_copy (of_list bytes) (length bytes) (copy_op m s) m s ctx
unfolding decode_operands opcode_of
copy_opcode-lem bytes ctx false false = refl
copy_opcode-lem bytes ctx false true = refl
copy_opcode-lem bytes ctx true false = refl
copy_opcode-lem bytes ctx true true = refl

copy_opcode-lt : (m s : Bool) → copy_opcode m s < 16
copy_opcode-lt false false = omega arith
copy_opcode-lt false true = omega arith
copy_opcode-lt true false = omega arith
copy_opcode-lt true true = omega arith

-- What the decoder returns, and the host's addresses for it.
abbrev stored_copy : (op : Opcode) (m s : Bool) → PublicCommand → Command
stored_copy op m s c = record {
  command = op;
  main_address = stored m c.main_address;
  secondary_address = stored s c.secondary_address;
  length = c.length;
}

public_of-copy :
    (c : PublicCommand) (m s : Bool)
    → in_cache m (stored m c.main_address) ≡ c.main_address
    → in_cache s (stored s c.secondary_address) ≡ c.secondary_address
    → public_of (copy_op m s) (stored_copy (copy_op m s) m s c)
      ≡ some (record c { command = Instr.copy })
unfolding public_of
public_of-copy c false false p q = refl
public_of-copy c false true p q =
    ap (λ (a : ℕ). some (record c { command = Instr.copy; secondary_address = a })) q
public_of-copy c true false p q =
    ap (λ (a : ℕ). some (record c { command = Instr.copy; main_address = a })) p
public_of-copy c true true p q =
    ap
      (λ (a : ℕ). some (record c {
        command = Instr.copy;
        main_address = a;
        secondary_address = in_cache true (stored true c.secondary_address);
      }))
      p
    ∙ ap (λ (a : ℕ). some (record c { command = Instr.copy; secondary_address = a })) q

public_of-chained :
    (c : PublicCommand) (m : Bool)
    → in_cache m (stored m c.main_address) ≡ c.main_address
    → c.secondary_address ≡ 0
    → public_of (chained_copy_op m) (record (bare (chained_copy_op m)) {
      main_address = stored m c.main_address;
      length = c.length;
    })
      ≡ some (record c { command = Instr.chained_copy })
unfolding public_of
public_of-chained c false p q = rw q refl
public_of-chained c true p q = rw q (
    ap
      (λ (a : ℕ).
        some (record c { command = Instr.chained_copy; main_address = a; secondary_address = 0 }))
      p)

-- A second block ID is written, unless the first operand was in the cache and a block is in use.
second_wanted : (u m s : Bool) → (not s && (not u || (u && not m))) ≡ (not s && not (u && m))
second_wanted true m s = refl
second_wanted false m s = refl

-- The fields of a copy, regrouped.
At-inner :
    (bytes : List ℕ) (first second : List (ℕ × ℕ)) (a b d : ℕ × ℕ) (more : List (ℕ × ℕ)) (off : ℕ)
    → At bytes off ((first ++ (a ∷ b ∷ (second ++ (d ∷ [])))) ++ more)
    → At bytes off (first ++ (a ∷ b ∷ (second ++ (d ∷ more))))
At-inner bytes first second a b d more off at =
    subst (λ (l : List (ℕ × ℕ)). At bytes off (first ++ (a ∷ b ∷ l))) (regroup second (d ∷ []) more)
      (At-regroup bytes first (a ∷ b ∷ (second ++ (d ∷ []))) more off at)

module _ (ctx : Context) (ok : IsContext ctx) (c : PublicCommand) where
  decode_chained_copy-At :
      (op : Opcode) (m : Bool) (bytes : List ℕ) (off : ℕ) (more : List (ℕ × ℕ))
      → IsOperandOf m ctx.using_block ctx c.main_address
      → IsLengthUpTo 4096 c.length
      → let base = base_fields m ctx.using_block ctx c.main_address in
        At bytes off (base ++ (offset_field c.main_address ∷ length_field 12 c.length ∷ more))
        → decode_chained_copy (of_list bytes) (length bytes) op m ctx off
          ≡ some (
            (
              true,
              ctx,
              record (bare op) { main_address = stored m c.main_address; length = c.length },
            ),
            off + fields_width base + 12 + 12,
          )
  unfolding decode_chained_copy
  decode_chained_copy-At op m bytes off more main is_length at =
      let base = base_fields m ctx.using_block ctx c.main_address in
      let size = length_field 12 c.length in
      rw
        (
          first_address-At bytes ctx ok m c.main_address off (size ∷ more) main at,
          length_reading bytes ctx ok c.length (off + fields_width base + 12) more is_length (
              At-rest bytes c.main_address 12 (size ∷ more) (off + fields_width base)
                (At-behind bytes base off (offset_field c.main_address ∷ size ∷ more) at)),
        )
        refl

  pub chained_copy-Codes : EncodableAs Instr.chained_copy ctx c → Codes Instr.chained_copy ctx c
  chained_copy-Codes (main, no_secondary, is_length) =
      let m = is_cached c.main_address in
      let base = base_fields m ctx.using_block ctx c.main_address in
      let tail = offset_field c.main_address ∷ length_field 12 c.length ∷ [] in
      let result = record (bare (chained_copy_op m)) {
        main_address = stored m c.main_address;
        length = c.length;
      } in
      record {
        opcode = if m then 13 else 12;
        is_opcode = ground arith;
        operands = base ++ tail;
        narrow = omega (
          arith,
          fields_width-append base tail,
          base_fields-narrow m ctx.using_block ctx c.main_address ok,
        );
        encodes =
            unfold encode_as encode_chained_copy in
            rw (base_field-lem m ctx.using_block ctx c.main_address ok main) refl;
        decoded = result;
        decodes = λ bytes off more at.
            ap (λ (f : ℕ → Option ((Bool × Context × Command) × ℕ)). f off)
              (chained_opcode bytes ctx m)
            ∙ decode_chained_copy-At (chained_copy_op m) m bytes off more main is_length
                (At-regroup bytes base tail more off at)
            ∙ ap (λ (o : ℕ). some ((true, ctx, result), o))
                (omega (arith, fields_width-append base tail));
        returns =
            public_of-chained c m (in_cache-stored m ctx.using_block ctx c.main_address main)
              no_secondary;
      }

  decode_copy-At :
      (op : Opcode) (m s : Bool) (bytes : List ℕ) (off : ℕ) (more : List (ℕ × ℕ))
      → IsOperandOf m ctx.using_block ctx c.main_address
      → IsOperandOf s (ctx.using_block && m) ctx c.secondary_address
      → IsLengthUpTo 4096 c.length
      → let first = base_fields m ctx.using_block ctx c.main_address in
        let second = base_fields s (ctx.using_block && m) ctx c.secondary_address in
        At bytes off (
          first
          ++ (offset_field c.main_address
              ∷ length_field 12 c.length
              ∷ (second ++ (offset_field c.secondary_address ∷ more))))
        → decode_copy (of_list bytes) (length bytes) op m s ctx off
          ≡ some (
            (true, ctx, stored_copy op m s c),
            off + fields_width first + 12 + 12 + fields_width second + 12,
          )
  unfolding decode_copy
  decode_copy-At op m s bytes off more main secondary is_length at =
      let first = base_fields m ctx.using_block ctx c.main_address in
      let second = base_fields s (ctx.using_block && m) ctx c.secondary_address in
      let size = length_field 12 c.length in
      let last = second ++ (offset_field c.secondary_address ∷ more) in
      let off1 = off + fields_width first in
      let at1 =
        At-rest bytes c.main_address 12 (size ∷ last) off1
          (At-behind bytes first off (offset_field c.main_address ∷ size ∷ last) at) in
      rw
        (
          first_address-At bytes ctx ok m c.main_address off (size ∷ last) main at,
          length_reading bytes ctx ok c.length (off1 + 12) last is_length at1,
          second_address-At bytes ctx ok m s c.secondary_address (off1 + 12 + 12) more secondary
              (At-rest bytes size.0 12 last (off1 + 12) at1),
        )
        refl

  pub copy-Codes : EncodableAs Instr.copy ctx c → Codes Instr.copy ctx c
  copy-Codes (main, secondary, is_length) =
      let m = is_cached c.main_address in
      let s = is_cached c.secondary_address in
      let first = base_fields m ctx.using_block ctx c.main_address in
      let second = base_fields s (ctx.using_block && m) ctx c.secondary_address in
      let last = second ++ (offset_field c.secondary_address ∷ []) in
      let tail = offset_field c.main_address ∷ length_field 12 c.length ∷ last in
      record {
        opcode = copy_opcode m s;
        is_opcode = copy_opcode-lt m s;
        operands = first ++ tail;
        narrow = omega (
          arith,
          fields_width-append first tail,
          fields_width-append second (offset_field c.secondary_address ∷ []),
          base_fields-narrow m ctx.using_block ctx c.main_address ok,
          base_fields-narrow s (ctx.using_block && m) ctx c.secondary_address ok,
        );
        encodes =
            unfold encode_as encode_copy in
            rw
              (
                base_field-lem m ctx.using_block ctx c.main_address ok main,
                second_wanted ctx.using_block m s,
                base_field-lem s (ctx.using_block && m) ctx c.secondary_address ok secondary,
              )
              refl;
        decoded = stored_copy (copy_op m s) m s c;
        decodes = λ bytes off more at.
            ap (λ (f : ℕ → Option ((Bool × Context × Command) × ℕ)). f off)
              (copy_opcode-lem bytes ctx m s)
            ∙ decode_copy-At (copy_op m s) m s bytes off more main secondary is_length (
                At-inner bytes first second (offset_field c.main_address) (length_field 12 c.length)
                  (offset_field c.secondary_address) more off at)
            ∙ ap (λ (o : ℕ). some ((true, ctx, stored_copy (copy_op m s) m s c), o))
                (omega (
                  arith,
                  fields_width-append first tail,
                  fields_width-append second (offset_field c.secondary_address ∷ []),
                ));
        returns =
            public_of-copy c m s (in_cache-stored m ctx.using_block ctx c.main_address main)
              (in_cache-stored s (ctx.using_block && m) ctx c.secondary_address secondary);
      }
