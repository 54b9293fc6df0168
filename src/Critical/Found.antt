-- ===== src/Critical/Found.antt =====
-- What getMetadata and the flag of an update in progress say while startUpdate runs.
use native.Mathlib.Nat.{zero-div}
use ravens.Base.{
  ℕ, ◌+◌, ◌-◌, ◌/◌, ◌^◌, ◌≡◌, refl, ap, ◌∙◌, ◌⊎◌, inl, inr, false, arith, ◌==◌, Bool-cases,
}
use ravens.Base.Memory.{Bytes, shift, blit, fill}
use ravens.Critical.{at_update_in_progress, page_update_in_progress}
use ravens.Device.{Device, Fault, ok, fault, read_le, le_bytes}
use ravens.Device.Fields.{read_le-eq}
use ravens.Metadata.{is_metadata_valid, get_metadata}
use ravens.Metadata.Memories.{Same}
use ravens.Platform.{Platform, IsFlash, IsLayout, IsErased}

module _ {p : Platform} (flash : IsFlash p) (layout : IsLayout p) where
  -- Both backups erased.
  abbrev pub backups_erased : Bytes → Bytes
  backups_erased nand = fill (fill nand p.backup_cache1 4096 0xff) p.backup_cache2 4096 0xff

  pub first-Same :
      (nand : Bytes) (page : ℕ)
      → (page ≡ p.update_metadata_main) ⊎ (page ≡ p.update_metadata_sec)
      → Same (fill nand p.backup_cache1 4096 0xff) nand page
  unfolding fill
  first-Same nand page h i lt = ground (arith, h, layout.backup1_main, layout.backup1_sec)

  pub both-Same :
      (nand : Bytes) (page : ℕ)
      → (page ≡ p.update_metadata_main) ⊎ (page ≡ p.update_metadata_sec)
      → Same (backups_erased nand) nand page
  unfolding fill
  both-Same nand page h i lt =
      ground
        (arith, h, layout.backup1_main, layout.backup1_sec, layout.backup2_main, layout.backup2_sec)

  -- getMetadata finds the same page where the validity of both is the same.
  pub still_found :
      (d e : Device) (current : ℕ)
      → is_metadata_valid e.nand p.update_metadata_main
        ≡ is_metadata_valid d.nand p.update_metadata_main
      → is_metadata_valid e.nand p.update_metadata_sec
        ≡ is_metadata_valid d.nand p.update_metadata_sec
      → get_metadata p d ≡ ok current d
      → get_metadata p e ≡ ok current e
  unfolding get_metadata
  still_found d e current main sec found =
      elim (Bool-cases (is_metadata_valid d.nand p.update_metadata_main)) [
        | inl valid ↦
            let is_main : p.update_metadata_main ≡ current = ok_injective (simp valid at found) in
            rw (main, valid) (ap (λ (page : ℕ). ok page e) is_main)
        | inr invalid ↦ elim (Bool-cases (is_metadata_valid d.nand p.update_metadata_sec)) [
          | inl valid ↦
              let is_sec : p.update_metadata_sec ≡ current =
                ok_injective (simp (invalid, valid) at found) in
              rw (main, invalid, sec, valid) (ap (λ (page : ℕ). ok page e) is_sec)
          | inr other ↦ absurd (fault-ok (simp (invalid, other) at found))
        ]
      ]
    where
      ok_injective : {a b : ℕ} {d e : Device} → ok a d ≡ ok b e → a ≡ b
      ok_injective {a} {b} {d} {e} h = cc

      fault-ok : {f : Fault} {a : ℕ} {d : Device} → fault f ≡ ok a d → ⊥
      fault-ok {f} {a} {d} h = cc

  -- The flag of an update in progress, before and after its write.
  pub unset_progress :
      (nand : Bytes)
      → IsErased nand (p.critical_metadata + at_update_in_progress) 8
      → (page_update_in_progress (shift nand p.critical_metadata) == 0) ≡ false
  unfolding page_update_in_progress
  unset_progress nand erased =
      rw
        (read_le-eq (shift nand p.critical_metadata) (λ _. 0xff) 104 0 8
          (λ i h. ap nand (omega arith) ∙ erased i h))
        (unfold read_le in refl)

  pub set_progress :
      (nand : Bytes)
      → page_update_in_progress (
          shift
            (blit nand (p.critical_metadata + at_update_in_progress) 8 (le_bytes 0))
            p.critical_metadata)
        ≡ 0
  unfolding page_update_in_progress
  set_progress nand =
      read_le-eq (shift (blit nand (p.critical_metadata + 104) 8 (le_bytes 0)) p.critical_metadata)
        (λ _. 0) 104 0 8 (λ i h. unfold blit le_bytes in ground (arith, nothing i))
      ∙ unfold read_le in refl
    where
      nothing :
          (i : ℕ) → 0 / 256 ^ (p.critical_metadata + (104 + i) - (p.critical_metadata + 104)) ≡ 0
      nothing i = zero-div (256 ^ (p.critical_metadata + (104 + i) - (p.critical_metadata + 104)))
