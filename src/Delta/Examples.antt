-- ===== src/Delta/Examples.antt =====
-- A double word of which two bytes are in the buffer, at the end of the data, and pages of a patch.
use ravens.Base.{arith, ◌≡◌, none, some, false, true}
use ravens.Delta.{Context, consume_dword}
use ravens.Delta.Words.{four_bytes, consume_dword-bytes}
use ravens.Delta.InPage.{Keeps, InPage, patch_round-InPage}
use ravens.Delta.Patch.{Patch, patch_round}
use ravens.Device.{Device}
use ravens.Examples.{board}
use ravens.Lzfx.{lzfx_done}

abbrev context : Context
context = record {
  lzfx = record {
    input = some (λ i. 0xff);
    current_input_offset = 9;
    input_length = 9;
    output = some 4096;
    output_real_size = 4096;
    status = lzfx_done;
    length_to_read = 0;
    back_ref = 0;
  };
  input_address = 0x8000;
  current_cache_offset = 4094;
  length_left = 4096;
  is_out_of_data = false;
}

abbrev erased_device : Device
erased_device = record {
  nand = λ a. 0xff;
  cache_ram = λ i. 7;
  write_cache = λ i. 0xff;
  write_cache_pos = 0;
  prev_dest = 0;
  write_buffer = λ i. 0xff;
  irq_enabled = true;
  power = none;
}

consume_dword-bytes_example : consume_dword context erased_device ≡ four_bytes context erased_device
consume_dword-bytes_example = consume_dword-bytes context erased_device

-- A patch of which a page is half done.
abbrev patch : Patch
patch = record {
  context = context;
  trace = 2;
  resuming = false;
  have_cached_page = true;
  did_delta = false;
  write_counter = 3;
  segment = 0;
  output_offset = 2051;
  segment_offset = 51;
  subsegment_length = 60;
}

patch_round-InPage_example : Keeps InPage (patch_round board false 0x8000 1 2 patch erased_device)
patch_round-InPage_example =
    patch_round-InPage board false 0x8000 1 2 patch erased_device
      (record { page = omega arith; subsegment = omega arith; counter = omega arith })

-- A dry run that begins a page at the first counter.
abbrev dry_patch : Patch
dry_patch = record patch { trace = 1; resuming = true; have_cached_page = false }
