-- ===== src/Validation/Accept.antt =====
-- Which updates are accepted.
use ravens.Base.{
  ℕ, zero, suc, ◌+◌, ◌≡◌, ◌↔◌, ◌<◌, ◌-◌, ◌%◌, ◌^◌, List, [], ◌∷◌, if◌then◌else◌, ltb, ap, fun_ext,
  ◌≤◌, refl, inl, inr, true, arith, ◌==◌, Bool-cases,
}
use ravens.Base.Memory.{Bytes, shift, blit}
use ravens.Critical.{at_format_version, page_version_id}
use ravens.Device.{read_le, le_bytes}
use ravens.Metadata.{
  header_format_version, header_old_version_id, header_update_hash, version_id_of,
}
use ravens.Platform.{Platform}
use ravens.Validation.{
  same_bytes, challenge_of, validate_signature, hash_memory,
  validate_section_signed_with_device_key, validate_section_signed_with_update_key, validate_header,
  validate_image,
}

-- Fields one behind the other, each with its length, and zeros behind them.
abbrev pub joined : List (ℕ × Bytes) → Bytes
joined [] a = 0
joined ((length, field) ∷ rest) a = if ltb a length then field a else joined rest (a - length)

-- What the update key signs: the challenge of the device, the old version, the new version, in four
-- bytes without the flag above it, the update key and the random value of the header.
abbrev pub reply : Platform → Bytes → (header : ℕ) → List (ℕ × Bytes)
reply p nand header =
    (64, shift nand (p.critical_metadata + 32))
    ∷ (4, shift nand (header + 134))
    ∷ (4, le_bytes (read_le nand (header + 138) 4 % 2 ^ 31))
    ∷ (32, shift nand (header + 66))
    ∷ (8, shift nand (header + 206))
    ∷ []

pub challenge_of-joined :
    (p : Platform) (nand : Bytes) (header : ℕ)
    → challenge_of p nand header ≡ joined (reply p nand header)
unfolding challenge_of blit version_id_of
challenge_of-joined p nand header = fun_ext λ a.
    ground
      (arith, λ (h : 64 ≤ a). ap (le_bytes (read_le nand (header + 138) 4 % 2 ^ 31)) (place a h))
  where
    place : (a : ℕ) → 64 ≤ a → a - 68 ≡ a - 64 - 4
    place a h = omega arith

-- validateHeader accepts exactly the headers of the device's format, signed by the device key, for the
-- installed version, that raise it, and whose update key has signed these 112 bytes: the challenge of
-- the device, the old version, the new version, the update key and the random value, in this order.
pub validate_header_iff :
    (p : Platform) (nand : Bytes) (header : ℕ)
    → (validate_header p nand header ≡ true) ↔ (
        (read_le nand (header + header_format_version) 2
          ≡ read_le nand (p.critical_metadata + at_format_version) 2)
        × (validate_signature p
              (shift nand (header + 64))
              78
              (shift nand header)
              (shift nand (p.critical_metadata + 0))
            ≡ true)
        × (validate_signature p
              (joined (reply p nand header))
              112
              (shift nand (header + 142))
              (shift nand (header + 66))
            ≡ true)
        × (read_le nand (header + header_old_version_id) 4
            ≡ page_version_id (shift nand p.critical_metadata))
        × (page_version_id (shift nand p.critical_metadata) < version_id_of nand header))
unfolding validate_header validate_section_signed_with_device_key
    validate_section_signed_with_update_key
validate_header_iff p nand header =
    rw (← challenge_of-joined p nand header) (λ h. ground arith, λ h. ground arith)

same_bytes-eq : (a b : Bytes) (n : ℕ) → (same_bytes a b n ≡ true) ↔ ((i : ℕ) → i < n → a i ≡ b i)
unfolding same_bytes
same_bytes-eq a b n = (forward n, backward n)
  where
    forward : (n : ℕ) → same_bytes a b n ≡ true → (i : ℕ) → i < n → a i ≡ b i
    forward zero h i lt = absurd (omega arith)
    forward (suc n) h i lt = elim (Bool-cases (i == n)) [
      | inl last ↦ ground arith
      | inr before ↦ forward n (ground arith) i (ground arith)
    ]

    backward : (n : ℕ) → ((i : ℕ) → i < n → a i ≡ b i) → same_bytes a b n ≡ true
    backward zero h = refl
    backward (suc n) h = ground (arith, h n, backward n (λ i lt. h i (omega arith)))

-- validateImage accepts exactly the images whose SHA-256, over the length that the header gives, is
-- the hash in the header.
pub validate_image_iff :
    (p : Platform) (nand : Bytes) (header : ℕ)
    → (validate_image p nand header ≡ true) ↔ (
        (i : ℕ)
        → i < 32
        → hash_memory p (shift nand (header + 214)) (read_le nand (header + 130) 4) i
          ≡ nand (header + header_update_hash + i))
unfolding validate_image
validate_image_iff p nand header = same_bytes-eq _ _ 32
