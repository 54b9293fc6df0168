-- ===== src/Delta/Patch.antt =====
-- The loop of applyDeltaPatch of munin/Delta/bsdiff.c.
use ravens.Base.{
  ℕ, zero, suc, ◌+◌, ◌-◌, ◌/◌, ◌%◌, ◌^◌, min, Bool, true, false, not, ◌&&◌, Option, none, some,
  ◌==◌, ltb, if◌then◌else◌,
}
use ravens.Base.Memory.{Bytes, shift}
use ravens.Counter.{increment_counter}
use ravens.Decoder.Reader.{size_mod}
use ravens.Delta.{
  Context, consume_byte, consume_dword, consume_qword, get_buffer, save_page_to_buffer,
  add_byte_to_output_buffer,
}
use ravens.Device.{Device, M, pure, skip, fails, out_of_fuel, get, ◌>>=◌, ◌>>◌, erase, write}
use ravens.Flash.{block_size}
use ravens.Platform.{Platform}

-- The local variables of applyDeltaPatch, but for those that stay as they are.
pub record Patch : Type 0 where
  pub context : Context
  pub trace : ℕ
  pub resuming : Bool
  pub have_cached_page : Bool
  pub did_delta : Bool
  pub write_counter : ℕ
  pub segment : ℕ
  pub output_offset : ℕ
  pub segment_offset : ℕ
  pub subsegment_length : ℕ

-- `pResuming`
abbrev pub p_resuming : (dry_run : Bool) → Patch → Option Bool
p_resuming true s = none
p_resuming false s = some s.resuming

abbrev pub resuming_after : Patch → Option Bool → Bool
resuming_after s none = s.resuming
resuming_after s (some resuming) = resuming

-- The byte that is written for one of the data: `data[offset]` of the insert, and of the patch the
-- sum with the old byte.
abbrev pub patched : (did_delta : Bool) → (old : Bytes) → (offset value : ℕ) → ℕ
patched true old offset value = value
patched false old offset value = (value + old offset) % 256

module _ (p : Platform) (dry_run : Bool) (page previous : ℕ) where
  -- `incrementCounter(&traceCounter, previousCounter, pResuming)`
  unfoldable pub increment : Patch → M Patch
  increment s = do
    (trace, flag) ← increment_counter p s.trace previous (p_resuming dry_run s)
    pure (record s { trace = trace; resuming = resuming_after s flag })

  -- The new page to patch. `page` is never moved on.
  unfoldable pub start_page : Patch → M Patch
  start_page s = if s.have_cached_page then pure s else do
    s1 ← if s.trace % 2 == 0 then increment s else pure s
    (if not s1.resuming then save_page_to_buffer p page s1.trace else skip)
    s2 ← increment s1
    (if not s2.resuming then erase p page else skip)
    pure (record s2 { have_cached_page = true; output_offset = 0 })

  -- `getBuffer(traceCounter - 1)`
  abbrev pub old_data : Patch → Device → Bytes
  old_data s d = shift d.nand (get_buffer p ((s.trace + size_mod - 1) % size_mod))

  -- `if(!resuming) addByteToOutputBuffer(…); currentOutputOffset += 1`
  unfoldable pub put_byte : (byte : ℕ) → Patch → M Patch
  put_byte byte s = do
    counter ←
        if s.resuming
        then pure s.write_counter
        else add_byte_to_output_buffer p byte (page + s.output_offset) s.write_counter
    pure (record s { write_counter = counter; output_offset = s.output_offset + 1 })

  -- A round of the loops over single bytes.
  unfoldable pub patch_byte : Patch → M Patch
  patch_byte s = do
    (value, c) ← consume_byte s.context
    d ← get
    put_byte (patched s.did_delta (old_data s d) s.output_offset value) (record s { context = c })

  -- The first loop, up to a multiple of eight: the state and the length left.
  unfoldable pub patch_head : (left : ℕ) → Patch → M (Patch × ℕ)
  patch_head zero s = pure (s, zero)
  patch_head (suc left) s =
      if s.output_offset % 8 == 0
      then pure (s, suc left)
      else do t ← patch_byte s; patch_head left t

  -- The eight bytes of a qword.
  abbrev pub qword_bytes : (did_delta : Bool) → (old : Bytes) → (offset qword : ℕ) → Bytes
  qword_bytes did_delta old offset qword i =
      patched did_delta old (offset + i) (qword / 256 ^ i % 256)

  -- A round of the loop over qwords.
  unfoldable pub patch_qword : Patch → M Patch
  patch_qword s = do
    (qword, c) ← consume_qword s.context
    d ← get
    (if s.resuming then skip else do
      write p (page + s.output_offset) 8
          (qword_bytes s.did_delta (old_data s d) s.output_offset qword)
      skip)
    pure (record s { context = c; output_offset = s.output_offset + 8 })

  unfoldable pub patch_qwords : (rounds : ℕ) → Patch → M Patch
  patch_qwords zero s = pure s
  patch_qwords (suc rounds) s = do t ← patch_qword s; patch_qwords rounds t

  -- The last loop.
  unfoldable pub patch_tail : (left : ℕ) → Patch → M Patch
  patch_tail zero s = pure s
  patch_tail (suc left) s = do t ← patch_byte s; patch_tail left t

  -- The three loops, for an insert or a patch.
  unfoldable pub patch_bytes : (left : ℕ) → Patch → M Patch
  patch_bytes left s = do
    (s1, left1) ← patch_head left s
    s2 ← patch_qwords (left1 / 8) s1
    patch_tail (left1 % 8) s2

  -- `lengthLeft`
  abbrev pub round_length : Patch → ℕ
  round_length s = min (s.subsegment_length - s.segment_offset) (block_size - s.output_offset)

  -- The length of the next subsegment.
  unfoldable pub next_length : Patch → M Patch
  next_length s = do
    (length, c) ← consume_dword s.context
    pure (record s { context = c; subsegment_length = length })

  abbrev pub next_subsegment : Patch → Patch
  next_subsegment s = record s {
    segment = if s.did_delta then (s.segment + 1) % 2 ^ 16 else s.segment;
    did_delta = not s.did_delta;
    segment_offset = 0;
  }

  -- The end of a subsegment, or of a segment.
  unfoldable pub end_subsegment : (segments : ℕ) → Patch → M Patch
  end_subsegment segments s =
      if not (s.segment_offset == s.subsegment_length)
      then pure s
      else if ltb (next_subsegment s).segment segments
      then next_length (next_subsegment s)
      else pure (next_subsegment s)

  -- The end of a page.
  unfoldable pub end_page : Patch → M Patch
  end_page s =
      if s.output_offset == block_size
      then (do t ← increment s; pure (record t { have_cached_page = false }))
      else pure s

  -- A round of the loop of applyDeltaPatch.
  unfoldable pub patch_round : (segments : ℕ) → Patch → M Patch
  patch_round segments s = do
    s1 ← start_page s
    s2 ←
        patch_bytes (round_length s1)
          (record s1 { segment_offset = s1.segment_offset + round_length s1 })
    s3 ← end_subsegment segments s2
    end_page s3

  unfoldable pub patch_loop : (fuel segments : ℕ) → Patch → M Patch
  patch_loop zero segments s = fails out_of_fuel
  patch_loop (suc fuel) segments s =
      if ltb s.segment segments && not s.context.is_out_of_data
      then (do t ← patch_round segments s; patch_loop fuel segments t)
      else pure s
