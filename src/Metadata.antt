-- ===== src/Metadata.antt =====
-- common/layout.h with 32-bit pointers, and the metadata pages: getMetadata of munin/core.c,
-- setMetadataPage and resetMetadataPage of munin/Bytecode/execution_utils.c.
pub mod Memories
pub mod Replace
use ravens.Base.{ℕ, ◌+◌, ◌-◌, ◌%◌, ◌^◌, Bool, ◌&&◌, ◌==◌, if◌then◌else◌}
use ravens.Base.Memory.{Bytes}
use ravens.Device.{M, pure, assert, get, ◌>>=◌, ◌>>◌, read_le, le_bytes, erase, write}
use ravens.Platform.{Platform}

-- VALID_64B_VALUE and DEFAULT_64B_FLASH_VALUE
abbrev pub valid_64b_value : ℕ
valid_64b_value = 0x5A5A_A5A5_5A5A_A5A5

abbrev pub default_64b_flash_value : ℕ
default_64b_flash_value = 0xFFFF_FFFF_FFFF_FFFF

-- Offsets in UpdateMetadata: a pointer, the bit field, and the padded UpdateMetadataFooter.
abbrev pub at_location : ℕ
at_location = 0

abbrev pub at_bit_field : ℕ
at_bit_field = 4

abbrev pub bit_field_size : ℕ
bit_field_size = 4096 - 4 - 24

abbrev pub at_footer : ℕ
at_footer = 4072

abbrev pub footer_valid : ℕ
footer_valid = 8

abbrev pub footer_not_expired : ℕ
footer_not_expired = 16

-- Offsets in UpdateHeader, which is packed; libhydrogen documents signatures of 64 bytes and public
-- keys of 32, a SHA-256 has 32.
abbrev pub signature_length : ℕ
signature_length = 64

abbrev pub public_key_length : ℕ
public_key_length = 32

abbrev pub hash_length : ℕ
hash_length = 32

abbrev pub header_format_version : ℕ
header_format_version = 64

abbrev pub header_update_pub_key : ℕ
header_update_pub_key = 66

abbrev pub header_update_hash : ℕ
header_update_hash = 98

abbrev pub header_manifest_length : ℕ
header_manifest_length = 130

abbrev pub header_old_version_id : ℕ
header_old_version_id = 134

abbrev pub header_version_id : ℕ
header_version_id = 138

abbrev pub header_update_signature : ℕ
header_update_signature = 142

abbrev pub header_random : ℕ
header_random = 206

-- `sizeof(UpdateHeader)`
abbrev pub header_size : ℕ
header_size = 214

-- `versionID : 31` and `haveExtra : 1` share a word.
unfoldable pub version_id_of : Bytes → ℕ → ℕ
version_id_of m header = read_le m (header + header_version_id) 4 % 2 ^ 31

-- isMetadataValid
unfoldable pub is_metadata_valid : Bytes → ℕ → Bool
is_metadata_valid m page =
    read_le m (page + at_footer + footer_valid) 8 == valid_64b_value
    && read_le m (page + at_footer + footer_not_expired) 8 == default_64b_flash_value

module _ (p : Platform) where
  -- getMetadata: the address of the valid page.
  unfoldable pub get_metadata : M ℕ
  get_metadata = do
    d ← get
    if is_metadata_valid d.nand p.update_metadata_main
        then pure p.update_metadata_main
        else do assert (is_metadata_valid d.nand p.update_metadata_sec); pure p.update_metadata_sec

  -- The page that setMetadataPage writes.
  abbrev pub other_page : ℕ → ℕ
  other_page current =
      if current == p.update_metadata_main then p.update_metadata_sec else p.update_metadata_main

  -- setMetadataPage
  unfoldable pub set_metadata_page : (current location multiplier : ℕ) → M (Unit {0})
  set_metadata_page current location multiplier = do
    let new_metadata = other_page current
    erase p new_metadata
    write p new_metadata 4 (le_bytes location)
    write p (new_metadata + at_footer) 4 (le_bytes multiplier)
    write p (new_metadata + at_footer + footer_valid) 8 (le_bytes valid_64b_value)
    write p (current + at_footer + footer_not_expired) 8 (le_bytes 0)
    pure tt

  -- resetMetadataPage
  unfoldable pub reset_metadata_page : (current multiplier : ℕ) → M (Unit {0})
  reset_metadata_page current multiplier = do
    d ← get
    set_metadata_page current (read_le d.nand (current + at_location) 4) multiplier
