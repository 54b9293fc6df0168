-- ===== src/Examples/Update.antt =====
-- The conclusion of an update, its dry run and its validation on the board.
use ravens.Base.{
  ℕ, ◌+◌, ◌≡◌, ◌<◌, refl, ap, ◌-◌, fun_ext, sym, subst, ◌∙◌, ◌≤◌, ◌%◌, ◌^◌, ◌⊎◌, inl, inr, true,
  false, some, none, arith, ◌&&◌, ◌==◌, ltb, if◌then◌else◌,
}
use ravens.Base.Memory.{Bytes, shift, blit}
use ravens.Bytecode.{run_commands}
use ravens.Bytecode.Halts.{run_commands-Halts}
use ravens.Device.Halts.{Done}
use ravens.Critical.{page_valid, page_version_id, concludes, conclude_update, set_valid}
use ravens.Critical.Conclude.{conclude_update-Recovers}
use ravens.Critical.Install.{Recovers, copied, next_page}
use ravens.Critical.Recovery.{Holds}
use ravens.Counter.{counter_of, get_current_counter}
use ravens.Critical.{at_update_in_progress, page_update_in_progress}
use ravens.Decoder.{
  decode_instruction, read, opcode_of, decode_operands, decode_copy, first_address, second_address,
  read_length, block_operand, read_block_id,
}
use ravens.Decoder.Reader.{read_bits, read_loop, read_round}
use ravens.Device.{Device, ok, fault, null_pointer, read_le, le_bytes}
use ravens.Device.Ends.{Ends}
use ravens.Device.Fields.{read_le-eq}
use ravens.Examples.{
  board, board-IsFlash, board-IsLayout, installed_flash, device, main-valid, critical-valid,
}
use ravens.Metadata.{get_metadata, is_metadata_valid, valid_64b_value, version_id_of}
use ravens.Base.Memory.{fill}
use ravens.Validation.{
  validate_header, validate_image, validate_signature, challenge_of, hash_memory,
}
use ravens.Boot.{authentic_update, try_update}
use ravens.Boot.Null.{BeginsWithCopy, try_update_null}
use ravens.Boot.Authentic.{authentic_update-validated}
use ravens.Validation.Binding.{challenge_of-binds}
use ravens.Validation.Accept.{joined, reply, validate_header_iff, validate_image_iff}

abbrev after_erase : Bytes
after_erase = fill installed_flash 0x4000 4096 0xff

abbrev next : Bytes
next = set_valid (next_page board after_erase false) valid_64b_value

conclude_update-Recovers_example :
    Ends
      (Recovers board (shift installed_flash 0x2000) next)
      (λ _ e.
        (e.irq_enabled ≡ true)
        × Recovers board (shift installed_flash 0x2000) next e
        × (concludes false (copied board after_erase false) ≡ true → Holds e.nand 0x2000 next))
      (conclude_update board false (record device { power = some 2 }))
conclude_update-Recovers_example =
    conclude_update-Recovers board-IsFlash board-IsLayout false (record device { power = some 2 })
      critical-valid (inl main-valid)

run_commands-Halts_example :
    Done (run_commands board 0x60d6 0 40 (some 0) 3 false (false, 0) device)
run_commands-Halts_example =
    run_commands-Halts board 0x60d6 0 40 (some 0) 3 false (false, 0) (omega arith) (omega arith)
      device

-- The installed version is 1, and the update at 0x6000 goes from 1 to 2.
abbrev update_flash : Bytes
update_flash =
    blit (blit (blit installed_flash 0x2060 4 (le_bytes 1)) 0x6086 4 (le_bytes 1)) 0x608a 4
      (le_bytes 2)

same_format : read_le update_flash (0x6000 + 64) 2 ≡ read_le update_flash (0x2000 + 100) 2
unfolding read_le blit le_bytes
same_format = refl

same_version : read_le update_flash (0x6000 + 134) 4 ≡ page_version_id (shift update_flash 0x2000)
unfolding read_le blit le_bytes page_version_id
same_version = refl

raised : page_version_id (shift update_flash 0x2000) < version_id_of update_flash 0x6000
unfolding read_le blit le_bytes page_version_id version_id_of
raised = omega arith

signed :
    validate_signature board
      (shift update_flash (0x6000 + 64))
      78
      (shift update_flash 0x6000)
      (shift update_flash (0x2000 + 0))
    ≡ true
unfolding blit le_bytes validate_signature
signed = refl

challenge_signed :
    validate_signature board
      (joined (reply board update_flash 0x6000))
      112
      (shift update_flash (0x6000 + 142))
      (shift update_flash (0x6000 + 66))
    ≡ true
unfolding blit le_bytes validate_signature
challenge_signed = refl

validate_header_iff_example : validate_header board update_flash 0x6000 ≡ true
validate_header_iff_example =
    (validate_header_iff board update_flash 0x6000).1
      (same_format, signed, challenge_signed, same_version, raised)

-- The flash with another block at 0x9000.
abbrev other_flash : Bytes
other_flash = fill update_flash 0x9000 4096 0

same_challenge :
    (m : Bytes) → challenge_of board m 0x6000 ≡ challenge_of board (fill m 0x9000 4096 0) 0x6000
unfolding challenge_of blit fill
same_challenge m = fun_ext λ a. ground (arith, ap (λ (v : ℕ). le_bytes v (a - 68)) versions)
  where
    versions : version_id_of m 0x6000 ≡ version_id_of (fill m 0x9000 4096 0) 0x6000
    versions =
        unfold version_id_of in
        ap (λ (v : ℕ). v % 2 ^ 31)
          (read_le-eq m (fill m 0x9000 4096 0) 0x608a 0x608a 4
            (λ i under. unfold fill in ground (arith, under)))

challenge_of-binds_example :
    (read_le update_flash (0x6000 + 134) 4 ≡ read_le other_flash (0x6000 + 134) 4)
    × (version_id_of update_flash 0x6000 ≡ version_id_of other_flash 0x6000)
    × ((i : ℕ) → i < 32 → update_flash (0x6000 + 66 + i) ≡ other_flash (0x6000 + 66 + i))
    × ((i : ℕ) → i < 8 → update_flash (0x6000 + 206 + i) ≡ other_flash (0x6000 + 206 + i))
    × ((i : ℕ) → i < 64 → update_flash (0x2000 + 32 + i) ≡ other_flash (0x2000 + 32 + i))
challenge_of-binds_example =
    challenge_of-binds board update_flash other_flash 0x6000 0x6000 (same_challenge update_flash)

erased_around : (a : ℕ) → 0x6000 ≤ a → (a < 0x6086) ⊎ (0x608e ≤ a) → update_flash a ≡ 0xff
unfolding blit
erased_around a h apart = ground arith

same_hash :
    (i : ℕ)
    → i < 32
    → hash_memory board
        (shift update_flash (0x6000 + 214))
        (read_le update_flash (0x6000 + 130) 4)
        i
      ≡ update_flash (0x6000 + 98 + i)
unfolding hash_memory
same_hash i h =
    erased_around (0x6000 + 214 + i % 16) (omega arith) (inr (omega arith))
    ∙ sym (erased_around (0x6000 + 98 + i) (omega arith) (inl (omega arith)))

validate_image_iff_example : validate_image board update_flash 0x6000 ≡ true
validate_image_iff_example = (validate_image_iff board update_flash 0x6000).1 same_hash

-- The location of the update is 0x6000.
abbrev update_device : Device
update_device = record device { nand = update_flash }

critical_kept : page_valid (shift update_flash 0x2000) ≡ valid_64b_value
unfolding page_valid read_le blit le_bytes
critical_kept = refl

main_kept : is_metadata_valid update_flash 0x1000 ≡ true
unfolding is_metadata_valid read_le blit le_bytes
main_kept = refl

abbrev location : ℕ
location = read_le update_flash (0x1000 + 0) 4

authentic_update-validated_example : authentic_update board update_device ≡ (
    if location % 4096 == 0
      && ltb location 0x100000
      && (validate_header board update_flash location && validate_image board update_flash location)
    then ok (some location) (record update_device { irq_enabled = false })
    else ok none (record update_device { irq_enabled = true }))
authentic_update-validated_example =
    authentic_update-validated board-IsFlash board-IsLayout update_device critical_kept main_kept

-- An update in progress at 0x6000, which begins with COPY_NN.
abbrev in_progress : Device
in_progress = record device {
  nand =
      blit
        (blit (blit installed_flash (0x2000 + at_update_in_progress) 8 (λ _. 0)) 0x6082 4
          (le_bytes 100))
        0x60d6 1 (λ _. 0x80);
}

in_progress-counter :
    get_current_counter board in_progress ≡ ok (counter_of in_progress.nand 0x1000) in_progress
unfolding get_current_counter get_metadata is_metadata_valid read_le blit le_bytes
in_progress-counter = refl

in_progress-going : page_update_in_progress (shift in_progress.nand 0x2000) ≡ 0
unfolding page_update_in_progress read_le blit le_bytes
in_progress-going = refl

in_progress-copies : BeginsWithCopy in_progress 0x60d6 100
unfolding decode_instruction read read_bits read_loop read_round opcode_of decode_operands
    decode_copy first_address second_address read_length block_operand read_block_id blit le_bytes
in_progress-copies = (_, _, _, refl, tt)

in_progress-length : read_le in_progress.nand 0x6082 4 ≡ 100
unfolding read_le blit le_bytes
in_progress-length = refl

try_update_null_example :
    try_update board 9 0x6000 (false, 0) (false, 0) in_progress ≡ fault null_pointer
try_update_null_example =
    try_update_null board 9 0x6000 (counter_of in_progress.nand 0x1000) (false, 0) (false, 0)
      in_progress in_progress-going in_progress-counter
      (subst (λ (n : ℕ). BeginsWithCopy in_progress 0x60d6 n) (sym in_progress-length)
        in_progress-copies)
