-- ===== src/Critical/Start.antt =====
-- startUpdate against a loss of power.

use ravens.Base.{ℕ, ◌+◌, ◌^◌, ◌<◌, ◌≡◌, refl, subst, ◌∙◌, ◌⊎◌, inl, inr, true, arith}
use ravens.Base.Memory.{Bytes, shift, blit, fill}
use ravens.Critical.{at_update_in_progress, page_update_in_progress, start_update}
use ravens.Device.{Device, ok, ◌>>=◌, ◌>>◌, pure, read_le, le_bytes, write}
use ravens.Device.Ends.{Ends, ended, bind, erase-Ends, write-Ends}
use ravens.Metadata.{
  at_location, at_footer, footer_not_expired, is_metadata_valid, get_metadata, reset_metadata_page,
  set_metadata_page,
}
use ravens.Metadata.Memories.{ArePages, Locates, Same, Same-read, Same-valid, expired}
use ravens.Metadata.Replace.{Replaced, expired-Replaced, replaced-Ends}
use ravens.Platform.{Platform, IsFlash, IsLayout, IsErased}
use ravens.Critical.Found.{
  backups_erased, first-Same, both-Same, still_found, unset_progress, set_progress,
}

module _ {p : Platform} (flash : IsFlash p) (layout : IsLayout p) where
  module _ (current other : ℕ) (d : Device) (pages : ArePages p current other)
      (found : get_metadata p d ≡ ok current d) (valid : is_metadata_valid d.nand current ≡ true)
      (unexpired : IsErased d.nand (current + at_footer + footer_not_expired) 8)
      (small : read_le d.nand (current + at_location) 4 < 2 ^ 32)
      (idle : IsErased d.nand (p.critical_metadata + at_update_in_progress) 8) where
    abbrev location : ℕ
    location = read_le d.nand (current + at_location) 4

    is_page : (current ≡ p.update_metadata_main) ⊎ (current ≡ p.update_metadata_sec)
    is_page = ground (arith, pages)

    -- The metadata are found as long as both pages are the same.
    Same-Locates :
        (e : Device)
        → Same e.nand d.nand p.update_metadata_main
        → Same e.nand d.nand p.update_metadata_sec
        → Same e.nand d.nand current
        → Locates p location location e
    Same-Locates e main sec here = (
      current,
      still_found flash layout d e current (Same-valid e.nand d.nand p.update_metadata_main main)
          (Same-valid e.nand d.nand p.update_metadata_sec sec) found,
      inl (Same-read e.nand d.nand current 0 4 (omega arith) here),
    )

    -- Replaced pages stay so, whatever is written to the critical page.
    abbrev flagged : Bytes → Bytes
    flagged nand = blit nand (p.critical_metadata + at_update_in_progress) 8 (le_bytes 0)

    flagged-Same :
        (nand : Bytes) (page : ℕ)
        → (page ≡ p.update_metadata_main) ⊎ (page ≡ p.update_metadata_sec)
        → Same (flagged nand) nand page
    flagged-Same nand page h i lt =
        unfold blit in ground (arith, h, layout.critical_main, layout.critical_sec)

    flagged-Replaced :
        (g h : Device)
        → h.nand ≡ flagged g.nand
        → Replaced p other location 0 g
        → Replaced p other location 0 h
    flagged-Replaced g h is_flagged r =
        let same = flagged-Same g.nand other (ground (arith, pages)) in
        record {
          found =
              still_found flash layout g h other
                (rw is_flagged (
                  Same-valid (flagged g.nand) g.nand p.update_metadata_main
                    (flagged-Same g.nand p.update_metadata_main (inl refl))))
                (rw is_flagged (
                  Same-valid (flagged g.nand) g.nand p.update_metadata_sec
                    (flagged-Same g.nand p.update_metadata_sec (inr refl))))
                r.found;
          has_location =
              rw is_flagged
                (Same-read (flagged g.nand) g.nand other 0 4 (omega arith) same ∙ r.has_location);
          has_multiplier = rw is_flagged (
              Same-read (flagged g.nand) g.nand other 4072 4 (omega arith) same ∙ r.has_multiplier);
        }

    module _ (f : Device) (both : f.nand ≡ backups_erased flash layout d.nand) where
      page-Same : Same f.nand d.nand current
      page-Same = rw both (both-Same flash layout d.nand current is_page)

      found_still : get_metadata p f ≡ ok current f
      found_still =
          still_found flash layout d f current
            (rw both (
              Same-valid (backups_erased flash layout d.nand) d.nand p.update_metadata_main
                (both-Same flash layout d.nand p.update_metadata_main (inl refl))))
            (rw both (
              Same-valid (backups_erased flash layout d.nand) d.nand p.update_metadata_sec
                (both-Same flash layout d.nand p.update_metadata_sec (inr refl))))
            found

      valid_still : is_metadata_valid f.nand current ≡ true
      valid_still = Same-valid f.nand d.nand current page-Same ∙ valid

      idle_still :
          IsErased
            (expired f.nand current other location 0)
            (p.critical_metadata + at_update_in_progress)
            8
      idle_still i h = rw both (
          unfold blit fill in
          ground (
            arith,
            pages,
            idle i h,
            layout.critical_main,
            layout.critical_sec,
            layout.critical_backup1,
            layout.critical_backup2,
          ))

      unexpired_still : IsErased f.nand (current + at_footer + footer_not_expired) 8
      unexpired_still i h = rw both (
          unfold fill in
          ground (
            arith,
            is_page,
            unexpired i h,
            layout.backup1_main,
            layout.backup1_sec,
            layout.backup2_main,
            layout.backup2_sec,
          ))

      reset-Ends :
          Ends
            (Locates p location location)
            (λ _ g. g.nand ≡ expired f.nand current other location 0)
            (reset_metadata_page p current 0 f)
      unfolding reset_metadata_page
      reset-Ends =
          let same : read_le f.nand (current + at_location) 4 ≡ location =
            Same-read f.nand d.nand current 0 4 (omega arith) page-Same in
          rw same (
            subst
              (λ (old : ℕ).
                Ends (Locates p old location)
                  (λ _ g. g.nand ≡ expired f.nand current other location 0)
                  (set_metadata_page p current location 0 f))
              same
              (replaced-Ends flash layout current other location 0 f pages valid_still small
                found_still unexpired_still))

      restarted :
          Ends
            (Locates p location location)
            (λ started e.
              (started ≡ true)
              × Replaced p other location 0 e
              × (page_update_in_progress (shift e.nand p.critical_metadata) ≡ 0))
            ((get_metadata p >>= λ page.
                reset_metadata_page p page 0
                >> (write p (p.critical_metadata + at_update_in_progress) 8 (le_bytes 0)
                    >> pure true))
              f)
      restarted = rw found_still (
          bind reset-Ends λ _ g is_expired.
            let r =
              expired-Replaced flash layout current other location 0 f pages valid_still small g
                (omega arith) is_expired in
            bind {P = λ _ h. h.nand ≡ flagged g.nand}
              (write-Ends flash g (p.critical_metadata + at_update_in_progress) 8 (le_bytes 0)
                (omega (arith, layout.critical_aligned)) (rw is_expired idle_still)
                (other, r.found, inr r.has_location) (λ power. refl))
              λ _ h is_flagged. ended (
                refl,
                flagged-Replaced g h is_flagged r,
                rw is_flagged (set_progress flash layout g.nand),
              ))

    start_update-Ends :
        Ends
          (Locates p location location)
          (λ started e.
            (started ≡ true)
            × Replaced p other location 0 e
            × (page_update_in_progress (shift e.nand p.critical_metadata) ≡ 0))
          (start_update p d)
    unfolding start_update
    start_update-Ends =
        let m = d.nand in
        rw (unset_progress flash layout d.nand idle) (
          bind {P = λ _ e. e.nand ≡ fill m p.backup_cache1 4096 0xff}
            (erase-Ends flash d p.backup_cache1 layout.backup1_aligned
              (Same-Locates d (λ i h. refl) (λ i h. refl) (λ i h. refl)) (λ power. refl))
            λ _ e first.
              bind {P = λ _ f. f.nand ≡ backups_erased flash layout m}
                (erase-Ends flash e p.backup_cache2 layout.backup2_aligned
                  (Same-Locates e
                    (rw first (first-Same flash layout m p.update_metadata_main (inl refl)))
                    (rw first (first-Same flash layout m p.update_metadata_sec (inr refl)))
                    (rw first (first-Same flash layout m current is_page)))
                  (λ power. rw first))
                λ _ f both. restarted f both)

-- Where getMetadata finds a valid page whose flag of expiry is erased, as is the critical flag of an
-- update in progress, startUpdate never faults; a loss of power before any of its operations on the
-- flash leaves a device on which getMetadata finds the location of the update; and where it ends, it
-- returns true, getMetadata finds the other page, with that location and the multiplier 0, and the
-- critical page says that an update is in progress.
pub start_update-Located :
    {p : Platform}
    → IsFlash p
    → IsLayout p
    → (current other : ℕ) (d : Device) → ArePages p current other
    → get_metadata p d ≡ ok current d
    → is_metadata_valid d.nand current ≡ true
    → IsErased d.nand (current + at_footer + footer_not_expired) 8
    → IsErased d.nand (p.critical_metadata + at_update_in_progress) 8
    → read_le d.nand (current + at_location) 4 < 2 ^ 32
    → Ends
        (Locates p
          (read_le d.nand (current + at_location) 4)
          (read_le d.nand (current + at_location) 4))
        (λ started e.
          (started ≡ true)
          × Replaced p other (read_le d.nand (current + at_location) 4) 0 e
          × (page_update_in_progress (shift e.nand p.critical_metadata) ≡ 0))
        (start_update p d)
start_update-Located flash layout current other d pages found valid unexpired idle small =
    start_update-Ends flash layout current other d pages found valid unexpired small idle
