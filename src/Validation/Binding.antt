-- ===== src/Validation/Binding.antt =====
-- What the signature of the update key is bound to.
use ravens.Base.{ℕ, ◌+◌, ◌-◌, ◌^◌, ◌<◌, ◌≡◌, sym, ap, ◌∙◌, arith}
use ravens.Base.Memory.{Bytes}
use ravens.Device.{read_le, le_bytes}
use ravens.Device.Fields.{read_le-eq}
use ravens.Metadata.{version_id_of}
use ravens.Platform.{Platform}
use ravens.Validation.{challenge_of}
use ravens.Validation.Accept.{joined, reply, challenge_of-joined}

-- The fields in the message.
module _ (p : Platform) (nand : Bytes) (header : ℕ) where
  abbrev message : Bytes
  message = joined (reply p nand header)

  message_challenge : (i : ℕ) → i < 64 → message i ≡ nand (p.critical_metadata + 32 + i)
  message_challenge i under = ground (arith, under)

  message_old_version : (i : ℕ) → i < 4 → message (64 + i) ≡ nand (header + 134 + i)
  message_old_version i under = ground (arith, under, ap nand place)
    where
      place : header + 134 + (64 + i - 64) ≡ header + 134 + i
      place = omega arith

  message_version : (i : ℕ) → i < 4 → message (68 + i) ≡ le_bytes (version_id_of nand header) i
  unfolding version_id_of
  message_version i under = ground (arith, under, ap (le_bytes (version_id_of nand header)) place)
    where
      place : 68 + i - 64 - 4 ≡ i
      place = omega arith

  message_key : (i : ℕ) → i < 32 → message (72 + i) ≡ nand (header + 66 + i)
  message_key i under = ground (arith, under, ap nand place)
    where
      place : header + 66 + (72 + i - 64 - 4 - 4) ≡ header + 66 + i
      place = omega arith

  message_random : (i : ℕ) → i < 8 → message (104 + i) ≡ nand (header + 206 + i)
  message_random i under = ground (arith, under, ap nand place)
    where
      place : header + 206 + (104 + i - 64 - 4 - 4 - 32) ≡ header + 206 + i
      place = omega arith

same_word :
    (v w : ℕ) → v < 2 ^ 31 → w < 2 ^ 31 → ((i : ℕ) → i < 4 → le_bytes v i ≡ le_bytes w i) → v ≡ w
unfolding le_bytes
same_word v w small small' h =
    omega (arith, h 0 (omega arith), h 1 (omega arith), h 2 (omega arith), h 3 (omega arith))

version_id-small : (nand : Bytes) (header : ℕ) → version_id_of nand header < 2 ^ 31
unfolding version_id_of
version_id-small nand header = omega arith

-- The message that validateSectionSignedWithUpdateKey checks is the same for two headers, also of two
-- states of the flash, only if both have the same old version, new version, update key and random
-- value, and the challenge of the device is the same.
pub challenge_of-binds :
    (p : Platform) (nand nand' : Bytes) (header header' : ℕ)
    → challenge_of p nand header ≡ challenge_of p nand' header'
    → (read_le nand (header + 134) 4 ≡ read_le nand' (header' + 134) 4)
      × (version_id_of nand header ≡ version_id_of nand' header')
      × ((i : ℕ) → i < 32 → nand (header + 66 + i) ≡ nand' (header' + 66 + i))
      × ((i : ℕ) → i < 8 → nand (header + 206 + i) ≡ nand' (header' + 206 + i))
      × ((i : ℕ)
          → i < 64
          → nand (p.critical_metadata + 32 + i) ≡ nand' (p.critical_metadata + 32 + i))
challenge_of-binds p nand nand' header header' e = (
  read_le-eq nand nand' (header + 134) (header' + 134) 4 (λ i under.
      sym (message_old_version p nand header i under)
      ∙ same (64 + i)
      ∙ message_old_version p nand' header' i under),
  same_word (version_id_of nand header) (version_id_of nand' header') (version_id-small nand header)
      (version_id-small nand' header')
      (λ i under.
        sym (message_version p nand header i under)
        ∙ same (68 + i)
        ∙ message_version p nand' header' i under),
  λ i under.
      sym (message_key p nand header i under) ∙ same (72 + i) ∙ message_key p nand' header' i under,
  λ i under.
      sym (message_random p nand header i under)
      ∙ same (104 + i)
      ∙ message_random p nand' header' i under,
  λ i under.
      sym (message_challenge p nand header i under)
      ∙ same i
      ∙ message_challenge p nand' header' i under,
)
  where
    same : (i : ℕ) → joined (reply p nand header) i ≡ joined (reply p nand' header') i
    same i =
        ap (λ (f : Bytes). f i)
          (sym (challenge_of-joined p nand header) ∙ e ∙ challenge_of-joined p nand' header')
