-- ===== src/Lzfx.antt =====
-- munin/Delta/lzfx_light.c: the streaming LZFX decompressor over a ring buffer. Pointers into the
-- output are offsets from `referenceOutput`; pointers into the input are offsets from `input`.
mod Examples
pub mod Copies
use ravens.Base.{
  ℕ, zero, suc, ◌+◌, ◌-◌, ◌*◌, ◌/◌, ◌%◌, ◌^◌, bit_and, bit_or, Bool, true, false, not, ◌&&◌, Option,
  none, some, ◌==◌, ltb, leb, if◌then◌else◌,
}
use ravens.Base.Memory.{Bytes}

-- LZFX_STATUS
pub data Status : Type 0 where
  lzfx_ok suspend_literal suspend_decompress lzfx_done : Status

-- The codes that lzfx_decompress returns.
pub data Code : Type 0 where
  code_ok ecorrupt eargs : Code

-- Lzfx4KContext, with `none` for a pointer that is NULL.
pub record Stream : Type 0 where
  pub input : Option Bytes
  pub current_input_offset : ℕ
  pub input_length : ℕ
  pub output : Option ℕ
  pub output_real_size : ℕ
  pub status : Status
  pub length_to_read : ℕ
  pub back_ref : ℕ

-- MAX_OFF_FORMAT_1
abbrev pub max_off_format_1 : ℕ
max_off_format_1 = 2 ^ 11

abbrev pub is_ok : Status → Bool
is_ok lzfx_ok = true
is_ok _ = false

abbrev pub is_done : Status → Bool
is_done lzfx_done = true
is_done _ = false

abbrev pub is_reuse : Status → Bool
is_reuse suspend_decompress = true
is_reuse _ = false

-- `*context->output = v`
abbrev pub update : Bytes → ℕ → ℕ → Bytes
update buffer at v a = if a == at then v else buffer a

-- getOutputPointerWithBackOffset, for the output pointer of the context.
unfoldable pub output_pointer_with_back_offset : (size output back_offset : ℕ) → ℕ
output_pointer_with_back_offset size output back_offset =
    let current = output % 2 ^ 16 in
    let back = bit_and back_offset (size - 1) in
    if leb back current then output - back else size + current - back

-- availableRoomBeforeLoopback
unfoldable pub available_room_before_loopback : (size ptr : ℕ) → ℕ
available_room_before_loopback size ptr = if leb size ptr then 0 else (size - ptr) % 2 ^ 16

-- `while(n--) *context->output++ = *ref++;` in the buffer; `none` for a write outside of it.
unfoldable pub copy_back : (size n ref output : ℕ) → Bytes → Option Bytes
copy_back size zero ref output buffer = some buffer
copy_back size (suc n) ref output buffer =
    let rest = copy_back size n (ref + 1) (output + 1) (update buffer output (buffer ref)) in
    if ltb output size then rest else none

-- The same from the input.
unfoldable pub copy_literal : (size : ℕ) (input : Bytes) (n from output : ℕ) → Bytes → Option Bytes
copy_literal size input zero from output buffer = some buffer
copy_literal size input (suc n) from output buffer =
    let rest =
      copy_literal size input n (from + 1) (output + 1) (update buffer output (input from)) in
    if ltb output size then rest else none

-- The loops that copy from the ring, going on at its start. Only the first round can be empty.
unfoldable pub copy_ring : (fuel size length ref output : ℕ) → Bytes → Option Bytes
copy_ring zero size length ref output buffer = none
copy_ring (suc fuel) size length ref output buffer =
    let room = available_room_before_loopback size ref in
    let now = if leb length room then length else room in
    elim (length == 0) [
      | true ↦ some buffer
      | false ↦ elim (copy_back size now ref output buffer) [
        | none ↦ none
        | some buffer' ↦ copy_ring fuel size (length - now) 0 (output + now) buffer'
      ]
    ]

-- A context and its buffer; `none` for a write outside of the buffer.
abbrev pub Buffered : Type 0
Buffered = Option (Stream × Bytes)

abbrev pub moved : Stream → ℕ → Option Bytes → Buffered
moved s output none = none
moved s output (some buffer) = some (record s { output = some output }, buffer)

-- resumeCurrentSegment, at an output pointer that is not NULL.
unfoldable pub resume_current_segment : Stream → Bytes → ℕ → Bytes → (output_length : ℕ) → Buffered
resume_current_segment s input output buffer output_length =
    let length = s.length_to_read in
    let suspended = ltb output_length length in
    let now = if suspended then output_length else length in
    let back =
      if suspended && is_reuse s.status
      then bit_and ((output_length + s.back_ref) % 2 ^ 16) (s.output_real_size - 1)
      else s.back_ref in
    let s' =
      if suspended
      then record s { length_to_read = length - output_length; back_ref = back }
      else record s { status = lzfx_ok } in
    if is_ok s.status
    then some (s, buffer)
    else if is_reuse s.status
    then moved s' (output + now) (
        copy_ring (now + 2) s.output_real_size now
          (output_pointer_with_back_offset s.output_real_size output s.back_ref) output buffer)
    else moved (record s' { current_input_offset = s.current_input_offset + now }) (output + now)
        (copy_literal s.output_real_size input now s.current_input_offset output buffer)

-- A back-reference: its offset and its length. Formats 1 and 2 differ in the first byte.
abbrev pub is_format_2 : ℕ → Bool
is_format_2 ctrl = ctrl / 2 ^ 3 == 0b11111

abbrev pub reference_1 : (ctrl second : ℕ) → ℕ × ℕ
reference_1 ctrl second = (ctrl % 4 + second * 4 + 1, ctrl / 4 % 32 + 2)

abbrev pub reference_2 : (ctrl second third : ℕ) → ℕ × ℕ
reference_2 ctrl second third =
    let offset = ctrl % 4 + second * 4 + third / 64 * 2 ^ 10 in
    let length = third % 64 * 2 + ctrl / 4 % 2 in
    (offset + 1, (if ltb offset max_off_format_1 then length + 0b11110 else length) + 2)

-- The loop of lzfx_decompress: the context, the buffer, the output and the input pointer.
pub data Loop : Type 0 where
  going : Stream → Bytes → (output at : ℕ) → Loop
  corrupt : Stream → Bytes → Loop
  overrun : Loop

abbrev pub from_buffer : Stream → (output at : ℕ) → Option Bytes → Loop
from_buffer s output at none = overrun
from_buffer s output at (some buffer) = going s buffer output at

-- The copy of a back-reference, of which `room` bytes are possible now.
unfoldable pub copy_reference : Stream → Bytes → (output at room : ℕ) → (reference : ℕ × ℕ) → Loop
copy_reference s buffer output at room (offset, length) =
    let suspended = ltb room length in
    let now = if suspended then room else length in
    let s' =
      if suspended
      then record s {
        status = suspend_decompress;
        length_to_read = length - room;
        back_ref = (offset + 2 ^ 16 - room) % 2 ^ 16;
      }
      else s in
    from_buffer s' (output + now) at (
      copy_ring (now + 2) s.output_real_size now
        (output_pointer_with_back_offset s.output_real_size output offset) output buffer)

-- A literal of `ctrl + 1` bytes. The do-while loop makes 256 rounds if no byte is possible.
unfoldable pub copy_string : Stream → (input : Bytes) → Bytes → (output at room ctrl : ℕ) → Loop
copy_string s input buffer output at room ctrl =
    let length = ctrl + 1 in
    let suspended = ltb room length in
    let now = if suspended then room else length in
    let s' =
      if suspended
      then record s { status = suspend_literal; length_to_read = length - room }
      else s in
    let rounds = if now == 0 then 256 else now in
    if ltb s.input_length (at + now)
    then corrupt (record s' { output = some output }) buffer
    else from_buffer s' (output + rounds) (at + rounds)
        (copy_literal s.output_real_size input rounds at output buffer)

-- A round, for the byte `ctrl` in front of `at`.
unfoldable pub decompress_round : Stream → (input : Bytes) → Bytes → (output at room : ℕ) → Loop
decompress_round s input buffer output from room =
    let ctrl = input from in
    let at = from + 1 in
    if ltb ctrl 0x80
    then copy_string s input buffer output at room ctrl
    else if leb s.input_length at
    then corrupt (record s { output = some output }) buffer
    else if not (is_format_2 ctrl)
    then copy_reference s buffer output (at + 1) room (reference_1 ctrl (input at))
    else if leb s.input_length (at + 1)
    then corrupt (record s { output = some output }) buffer
    else copy_reference s buffer output (at + 2) room (reference_2 ctrl (input at) (input (at + 1)))

-- The loop. Each round takes a byte of the input, so that its length is enough fuel.
unfoldable pub decompress_loop : (fuel : ℕ) (input : Bytes) (output_end : ℕ) → Loop → Loop
decompress_loop zero input output_end l = l
decompress_loop (suc fuel) input output_end (corrupt s buffer) = corrupt s buffer
decompress_loop (suc fuel) input output_end overrun = overrun
decompress_loop (suc fuel) input output_end (going s buffer output at) =
    let next =
      decompress_loop fuel input output_end
        (decompress_round s input buffer output at ((output_end + 2 ^ 32 - output) % 2 ^ 32)) in
    if ltb at s.input_length && is_ok s.status then next else going s buffer output at

-- What lzfx_decompress returns: a code, `*outputLength`, the context and the buffer.
abbrev pub Result : Type 0
Result = Code × Option ℕ × Stream × Bytes

abbrev pub finished : (output_length start : ℕ) → Loop → Option Result
finished output_length start (going s buffer output at) = some (
  code_ok,
  some ((output + 2 ^ 16 - start) % 2 ^ 16),
  record s {
    status = if is_ok s.status then lzfx_done else s.status;
    output = some output;
    current_input_offset = at;
  },
  buffer,
)
finished output_length start (corrupt s buffer) = some (ecorrupt, some output_length, s, buffer)
finished output_length start overrun = none

abbrev pub start_loop : Buffered → Loop
start_loop none = overrun
start_loop (some (s, buffer)) = elim s.output [
  | none ↦ overrun
  | some output ↦ going s buffer output s.current_input_offset
]

-- lzfx_decompress: its code, `*outputLength`, the context and the buffer; `none` for a write outside
-- of the buffer. An `outputLength` of `none` is a NULL pointer.
unfoldable pub lzfx_decompress : Stream → Bytes → (output_length : Option ℕ) → Option Result
lzfx_decompress s buffer none = some (eargs, none, s, buffer)
lzfx_decompress s buffer (some length) = elim s.output [
  | none ↦ some (eargs, some 0, s, buffer)
  | some output ↦ if is_done s.status then some (eargs, some 0, s, buffer) else elim s.input [
    | none ↦ some ((if s.input_length == 0 then code_ok else eargs), some 0, s, buffer)
    | some input ↦ finished length output (
        decompress_loop (s.input_length + 1) input (output + length)
          (start_loop (resume_current_segment s input output buffer length)))
  ]
]
