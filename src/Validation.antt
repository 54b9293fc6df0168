-- ===== src/Validation.antt =====
-- munin/validation.c: the authentication of the header and of the image of an update, and
-- validateSignature and hashMemory of common/crypto.
pub mod Accept
pub mod Binding
use ravens.Base.{
  ℕ, zero, suc, ◌+◌, ◌-◌, ◌*◌, ◌%◌, ◌^◌, Bool, true, false, not, ◌&&◌, ◌||◌, ◌==◌, leb,
  if◌then◌else◌,
}
use ravens.Base.Memory.{Bytes, shift, blit}
use ravens.Critical.{at_device_public_key, at_update_challenge, at_format_version, page_version_id}
use ravens.Device.{read_le, le_bytes}
use ravens.Metadata.{
  signature_length, public_key_length, hash_length, header_size, header_format_version,
  header_update_pub_key, header_update_hash, header_manifest_length, header_old_version_id,
  header_update_signature, header_random, version_id_of,
}
use ravens.Platform.{Platform}

-- `memcmp(a, b, n) == 0`
unfoldable pub same_bytes : Bytes → Bytes → ℕ → Bool
same_bytes a b zero = true
same_bytes a b (suc n) = a n == b n && same_bytes a b n

-- The challenge that the update key signs: challenge, old version, new version, key, random value.
unfoldable pub challenge_of : Platform → Bytes → ℕ → Bytes
challenge_of p nand header =
    blit
      (blit
        (blit
          (blit
            (blit (λ _. 0) 0 signature_length
              (shift nand (p.critical_metadata + at_update_challenge)))
            signature_length 4 (shift nand (header + header_old_version_id)))
          (signature_length + 4) 4 (le_bytes (version_id_of nand header)))
        (signature_length + 8) public_key_length (shift nand (header + header_update_pub_key)))
      (signature_length + 8 + public_key_length) 8 (shift nand (header + header_random))

module _ (p : Platform) where
  -- validateSignature
  unfoldable pub validate_signature : (message : Bytes) → ℕ → (signature key : Bytes) → Bool
  validate_signature message length signature key = p.sign_verify message length signature key

  -- hashMemory
  unfoldable pub hash_memory : Bytes → ℕ → Bytes
  hash_memory message length = p.sha256 message length

  -- validateSectionSignedWithDeviceKey; `sizeof(header->sectionSignedDeviceKey)` is 142.
  unfoldable pub validate_section_signed_with_device_key : Bytes → ℕ → Bool
  validate_section_signed_with_device_key nand header =
      if not (
        read_le nand (header + header_format_version) 2
        == read_le nand (p.critical_metadata + at_format_version) 2)
      then false
      else validate_signature (shift nand (header + signature_length))
          (header_update_signature - signature_length) (shift nand header)
          (shift nand (p.critical_metadata + at_device_public_key))

  -- validateSectionSignedWithUpdateKey
  unfoldable pub validate_section_signed_with_update_key : Bytes → ℕ → Bool
  validate_section_signed_with_update_key nand header =
      validate_signature (challenge_of p nand header) (signature_length + 8 + public_key_length + 8)
        (shift nand (header + header_update_signature))
        (shift nand (header + header_update_pub_key))

  -- validateImage
  unfoldable pub validate_image : Bytes → ℕ → Bool
  validate_image nand header =
      same_bytes
        (hash_memory (shift nand (header + header_size))
          (read_le nand (header + header_manifest_length) 4))
        (shift nand (header + header_update_hash)) hash_length

  -- validateHeader
  unfoldable pub validate_header : Bytes → ℕ → Bool
  validate_header nand header =
      let current = page_version_id (shift nand p.critical_metadata) in
      if not (validate_section_signed_with_device_key nand header)
      then false
      else if not (validate_section_signed_with_update_key nand header)
      then false
      else if not (read_le nand (header + header_old_version_id) 4 == current)
          || leb (version_id_of nand header) current
      then false
      else true

  -- validateExtraValidation; a SingleHashRequest, which is packed, has 6 bytes.
  unfoldable pub validate_extra_validation : Bytes → (request : ℕ) → Bool
  validate_extra_validation memory request =
      validate_signature (shift memory (request + signature_length))
        (read_le memory (request + signature_length) 2 * 6 + 2) (shift memory request)
        (shift memory (p.critical_metadata + at_device_public_key))
