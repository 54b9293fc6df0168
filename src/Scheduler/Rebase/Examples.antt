-- ===== src/Scheduler/Rebase/Examples.antt =====
-- updateLastRebase on two overlapping ranges.
use ravens.Base.{◌≡◌, refl, none, List, [], ◌∷◌, map}
use ravens.Encoder.{
  Instr, number_of_bits_necessary, bits_necessary, encode_instruction, encode_as, encode_rebase,
  encode_block, block_field, extract_block_id, write_fields, write_bits,
}
use ravens.Encoder.Stream.{
  encode, append_instructions, append_instruction, append_qwords, append_qword, end_instruction,
}
use ravens.Scheduler.{Command, get_public_command}
use ravens.Scheduler.Blocks.{block_command}
use ravens.Scheduler.Rebase.Spans.{uses, plain}
use ravens.Scheduler.Rebase.Covers.{Covering, update_last_rebase-Covering}
use ravens.Scheduler.Rebase.{
  update_last_rebase, update_from, place_rebase, with_previous, merge_rebase, widen_by, widen,
}

-- A REBASE of the blocks 0 to 3, and one in front of commands on the blocks 1 to 4.
abbrev overlapping : List Command
overlapping =
    record (block_command Instr.rebase 0) { length = 3 }
    ∷ block_command Instr.rebase 0
    ∷ block_command Instr.erase 0x1000
    ∷ block_command Instr.erase 0x4000
    ∷ []

abbrev merged : List Command
merged =
    record (block_command Instr.rebase 0) { length = 3 }
    ∷ block_command Instr.erase 0x1000
    ∷ block_command Instr.erase 0x4000
    ∷ []

-- The merged REBASE has two bits for the blocks and leaves out block 4.
merged_ranges : update_last_rebase overlapping ≡ merged
unfolding update_last_rebase update_from place_rebase with_previous merge_rebase widen_by widen
    number_of_bits_necessary bits_necessary
merged_ranges = refl

-- The encoder has no block ID for block 4.
merged_fails : encode (map get_public_command merged) ≡ none
unfolding encode append_instructions append_instruction encode_instruction encode_as encode_rebase
    encode_block block_field extract_block_id write_fields write_bits append_qwords append_qword
    end_instruction number_of_bits_necessary bits_necessary
merged_fails = refl

abbrev later : List Command
later = block_command Instr.erase 0x1000 ∷ block_command Instr.erase 0x4000 ∷ []

update_last_rebase-Covering_example :
    Covering
      (block_command Instr.rebase 0)
      later
      (update_last_rebase (block_command Instr.rebase 0 ∷ later))
unfolding plain uses
update_last_rebase-Covering_example =
    update_last_rebase-Covering (block_command Instr.rebase 0) []
      (block_command Instr.erase 0x4000 ∷ []) (block_command Instr.erase 0x1000) 0x1000 refl refl
      refl
