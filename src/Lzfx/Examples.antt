-- ===== src/Lzfx/Examples.antt =====
-- The decompressor on a literal of six bytes and a back-reference that repeats four of them, with a
-- ring of eight bytes: in one call, and in two with the output at the start of the ring again.
use ravens.Base.{ℕ, ◌≡◌, refl, Option, none, some, List, [], ◌∷◌, arith}
use ravens.Base.Memory.{Bytes, of_list}
use ravens.Lzfx.{
  Stream, lzfx_ok, lzfx_decompress, Result, output_pointer_with_back_offset,
  available_room_before_loopback, copy_back, copy_literal, copy_ring, resume_current_segment,
  copy_reference, copy_string, decompress_round, decompress_loop,
}
use ravens.Lzfx.Copies.{Repeats, copy_back-Repeats}

abbrev compressed : Bytes
compressed = of_list (0x05 ∷ 10 ∷ 11 ∷ 12 ∷ 13 ∷ 14 ∷ 15 ∷ 0x89 ∷ 0x01 ∷ [])

abbrev context : (size : ℕ) → Stream
context size = record {
  input = some compressed;
  current_input_offset = 0;
  input_length = 9;
  output = some 0;
  output_real_size = size;
  status = lzfx_ok;
  length_to_read = 0;
  back_ref = 0;
}

abbrev cells : Bytes → List ℕ
cells m = m 0 ∷ m 1 ∷ m 2 ∷ m 3 ∷ m 4 ∷ m 5 ∷ m 6 ∷ m 7 ∷ m 8 ∷ m 9 ∷ []

abbrev zeroes : Bytes
zeroes a = 0

abbrev outcome : Option Result → List ℕ
outcome none = []
outcome (some (code, length, s, buffer)) = cells buffer

abbrev again : Option Result → Option Result
again none = none
again (some (code, length, s, buffer)) =
    lzfx_decompress (record s { output = some 0 }) buffer (some 2)

at_once :
    outcome (lzfx_decompress (context 16) zeroes (some 16))
    ≡ 10 ∷ 11 ∷ 12 ∷ 13 ∷ 14 ∷ 15 ∷ 10 ∷ 11 ∷ 12 ∷ 13 ∷ []
unfolding lzfx_decompress decompress_loop decompress_round copy_reference copy_string
    resume_current_segment copy_ring copy_literal copy_back available_room_before_loopback
    output_pointer_with_back_offset
at_once = refl

-- The last two bytes should be 12 and 13.
resumed :
    outcome (again (lzfx_decompress (context 8) zeroes (some 8)))
    ≡ 14 ∷ 15 ∷ 12 ∷ 13 ∷ 14 ∷ 15 ∷ 10 ∷ 11 ∷ 0 ∷ 0 ∷ []
unfolding lzfx_decompress decompress_loop decompress_round copy_reference copy_string
    resume_current_segment copy_ring copy_literal copy_back available_room_before_loopback
    output_pointer_with_back_offset
resumed = refl

copy_back-Repeats_example :
    (after : Bytes) × (copy_back 10 4 1 2 (of_list (7 ∷ 8 ∷ [])) ≡ some after)
    × Repeats (of_list (7 ∷ 8 ∷ [])) after 1 2 4
copy_back-Repeats_example =
    copy_back-Repeats 10 4 1 2 (of_list (7 ∷ 8 ∷ [])) (omega arith) (omega arith)
