-- ===== src/Examples/Steps.antt =====
-- The flash writes, the counter, the cache and the copies on the board.
use ravens.Base.{ℕ, ◌+◌, ◌≡◌, ◌<◌, refl, inl, true, false, some, none, arith, ◌%◌, ◌*◌}
use ravens.Base.Memory.{Bytes, shift, blit}
use ravens.Copy.{ram, perform_copy_with_cache, flush_copy_cache}
use ravens.Copy.Flush.{copy-flush}
use ravens.Counter.{
  cell_is_zero, increment_counter, backup_cache, restore_cache, saved_to, counter_of,
}
use ravens.Counter.Backup.{restore_cache-backup_cache}
use ravens.Counter.Forward.{increments, increments-fast}
use ravens.Counter.Lost.{Marks, HalfMarked, counter_of-Marks, increment_counter_lost}
use ravens.Decoder.Reader.{size_mod}
use ravens.Device.{Device, ok, ◌>>◌, read_le, le_bytes}
use ravens.Examples.{
  board, board-IsFlash, board-IsLayout, blank, installed_flash, device, main-valid,
}
use ravens.Flash.{write_to_nand}
use ravens.Flash.Write.{write_to_nand-blit, write_to_nand_misaligned}
use ravens.Device.Ends.{Ends}
use ravens.Critical.{page_update_in_progress, start_update}
use ravens.Critical.Start.{start_update-Located}
use ravens.Metadata.{get_metadata, set_metadata_page}
use ravens.Metadata.Memories.{Locates}
use ravens.Metadata.Replace.{Replaced, set_metadata_page-Replaced}
use ravens.Platform.{IsErased}

abbrev source : Bytes
source i = i % 7

write_to_nand-blit_example :
    write_to_nand board blank 0x1000 21 source ≡ (true, blit blank 0x1000 21 source)
write_to_nand-blit_example =
    write_to_nand-blit board-IsFlash blank 0x1000 21 source refl (λ i h. refl)

write_to_nand_misaligned_example :
    write_to_nand board blank 0x1004 21 source ≡ (true, blit blank 0x1008 17 (shift source 4))
write_to_nand_misaligned_example =
    write_to_nand_misaligned board-IsFlash blank 0x1004 21 source refl (λ i h. refl)

fast_forwarding : increments board 3 2 5 (some true) device ≡ ok (5, some false) device
fast_forwarding = increments-fast board 3 2 5 device (omega arith) (omega arith) (omega arith)

restore_cache-backup_cache_example :
    (e : Device) × (backup_cache board 7 device ≡ ok tt e)
    × ((junk : Bytes) (i : ℕ)
        → i < 4096
        → (f g : Device) × (restore_cache board 8 (record e { cache_ram = junk }) ≡ ok tt f)
          × (f.cache_ram i ≡ device.cache_ram i)
          × (restore_cache board 7 (record e { cache_ram = junk }) ≡ ok tt g)
          × (g.cache_ram i ≡ device.nand (saved_to board 9 + i)))
restore_cache-backup_cache_example =
    restore_cache-backup_cache board-IsFlash board-IsLayout 6 device refl refl

-- A page on which three cells are marked.
abbrev marked_page : Bytes
marked_page = blit (blit blank 4 24 (λ _. 0)) 4072 4 (λ _. 0)

three-Marks : Marks (shift marked_page (0 + 4)) 3
unfolding blit
three-Marks = record {
  marked = λ i h. ground arith;
  next = 0;
  next_in = omega arith;
  unmarked = λ e. omega (arith, e);
}

counter_of-Marks_example :
    counter_of marked_page 0 ≡ (read_le marked_page 4072 4 * 508 + 3) % size_mod
counter_of-Marks_example = counter_of-Marks marked_page 0 3 (omega arith) three-Marks

field-IsErased : IsErased installed_flash (0x1000 + 4) 4068
unfolding blit
field-IsErased i h = ground arith

increment_counter_lost_example :
    (e : Device) × (increment_counter board 1 9 none device ≡ ok (2, none) e)
    × HalfMarked installed_flash e.nand (0x1000 + 4 + 1 * 8)
    × (cell_is_zero (shift e.nand (0x1000 + 4)) (1 * 8) 8 ≡ false)
    × (counter_of e.nand 0x1000 ≡ counter_of installed_flash 0x1000)
increment_counter_lost_example =
    increment_counter_lost board-IsFlash board-IsLayout device refl main-valid field-IsErased 1
      (omega arith) (omega arith) 9

behind-IsErased : IsErased installed_flash 0x7000 24
unfolding blit
behind-IsErased i h = ground arith

copy-flush_example :
    (e : Device) × ((perform_copy_with_cache board 0x7000 (ram 5) 21 >> flush_copy_cache board)
        device
      ≡ ok tt e)
    × (e.nand ≡ blit installed_flash 0x7000 21 (shift device.cache_ram 5))
    × (e.write_cache_pos ≡ 0)
copy-flush_example =
    copy-flush board-IsFlash device refl 0x7000 5 21 refl (omega arith) behind-IsErased refl

main-found : get_metadata board device ≡ ok 0x1000 device
unfolding get_metadata
main-found = rw main-valid refl

set_metadata_page-Replaced_example :
    Ends
      (Locates board (read_le installed_flash 0x1000 4) 0x8000)
      (λ _ e. Replaced board 0x3000 0x8000 1 e)
      (set_metadata_page board 0x1000 0x8000 1 device)
set_metadata_page-Replaced_example =
    set_metadata_page-Replaced board-IsFlash board-IsLayout 0x1000 0x3000 0x8000 1 device
      (inl (refl, refl)) main-found main-valid (λ i h. unfold blit in ground arith) (omega arith)
      (omega arith)

device-location : read_le installed_flash 0x1000 4 ≡ 0x6000
unfolding read_le blit le_bytes
device-location = refl

start_update-Located_example :
    Ends
      (Locates board (read_le installed_flash 0x1000 4) (read_le installed_flash 0x1000 4))
      (λ started e.
        (started ≡ true)
        × Replaced board 0x3000 (read_le installed_flash 0x1000 4) 0 e
        × (page_update_in_progress (shift e.nand 0x2000) ≡ 0))
      (start_update board device)
start_update-Located_example =
    start_update-Located board-IsFlash board-IsLayout 0x1000 0x3000 device (inl (refl, refl))
      main-found main-valid (λ i h. unfold blit in ground arith)
      (λ i h. unfold blit in ground arith) (omega (arith, device-location))
