-- ===== src/Metadata/Replace.antt =====
-- setMetadataPage against a loss of power.

use ravens.Base.{ℕ, ◌+◌, ◌%◌, ◌^◌, ◌<◌, ◌≡◌, refl, ◌∙◌, inl, inr, true, false, arith}
use ravens.Base.Memory.{Bytes, blit, fill}
use ravens.Device.{Device, ok, ◌>>◌, pure, read_le, le_bytes, write}
use ravens.Device.Ends.{Ends, ended, bind, mono, erase-Ends, write-Ends}
use ravens.Metadata.{
  at_location, at_footer, footer_valid, footer_not_expired, valid_64b_value, is_metadata_valid,
  get_metadata, set_metadata_page,
}
use ravens.Platform.{Platform, IsFlash, IsLayout, IsErased}
use ravens.Metadata.Memories.{
  ArePages, Locates, Same, Same-read, Same-valid, apart, counted, counted-Same, counted-other,
  erased, erased-Same, erased-other, expired, expired-Same, expired-current, finds_current,
  finds_either, finds_other, located, located-Same, located-other, marked, marked-Same,
  marked-location, marked-multiplier, marked-other, other_page-lem,
}

-- The new page is the one that getMetadata finds.
pub record Replaced (p : Platform) (page location multiplier : ℕ) (d : Device) : Type 0 where
  pub found : get_metadata p d ≡ ok page d
  pub has_location : read_le d.nand (page + at_location) 4 ≡ location
  pub has_multiplier : read_le d.nand (page + at_footer) 4 ≡ multiplier

module _ {p : Platform} (flash : IsFlash p) (layout : IsLayout p)
    (current other location multiplier : ℕ) (d : Device) (pages : ArePages p current other)
    (valid : is_metadata_valid d.nand current ≡ true) (small : location < 2 ^ 32) where
  -- Before the new page is marked, and after.
  kept :
      (m : Bytes) (e : Device)
      → Same m d.nand current
      → is_metadata_valid m other ≡ false
      → e.nand ≡ m
      → Locates p (read_le d.nand (current + at_location) 4) location e
  kept m e same invalid is_m = (
    current,
    finds_current layout current other pages e (rw is_m (Same-valid m d.nand current same ∙ valid))
        (rw is_m invalid),
    inl (rw is_m (Same-read m d.nand current 0 4 (omega arith) same)),
  )

  marked-Locates :
      (e : Device)
      → e.nand ≡ marked d.nand current other location multiplier
      → Locates p (read_le d.nand (current + at_location) 4) location e
  marked-Locates e is_m =
      let m = marked d.nand current other location multiplier in
      let same =
        marked-Same d.nand current other location multiplier (apart layout current other pages) in
      elim (finds_either layout current other pages e
        (rw is_m (Same-valid m d.nand current same ∙ valid))
        (rw is_m (marked-other d.nand current other location multiplier))) [
          | inl found ↦
              (current, found, inl (rw is_m (Same-read m d.nand current 0 4 (omega arith) same)))
          | inr found ↦ (
            other,
            found,
            inr (rw is_m (marked-location d.nand current other location multiplier small)),
          )
        ]

  pub expired-Replaced :
      (e : Device)
      → multiplier < 2 ^ 32
      → e.nand ≡ expired d.nand current other location multiplier
      → Replaced p other location multiplier e
  expired-Replaced e narrow is_m =
      let m = expired d.nand current other location multiplier in
      let n = marked d.nand current other location multiplier in
      let same =
        expired-Same d.nand current other location multiplier (apart layout current other pages) in
      record {
        found =
            finds_other layout current other pages e
              (rw is_m (
                expired-current d.nand current other location multiplier
                  (apart layout current other pages)))
              (rw is_m (
                Same-valid m n other same ∙ marked-other d.nand current other location multiplier));
        has_location = rw is_m (
            Same-read m n other 0 4 (omega arith) same
            ∙ marked-location d.nand current other location multiplier small);
        has_multiplier = rw is_m (
            Same-read m n other 4072 4 (omega arith) same
            ∙ marked-multiplier d.nand current other location multiplier narrow);
      }

  -- The last write, which discards the old page.
  expires :
      (e : Device)
      → e.nand ≡ marked d.nand current other location multiplier
      → IsErased d.nand (current + at_footer + footer_not_expired) 8
      → Ends
          (Locates p (read_le d.nand (current + at_location) 4) location)
          (λ _ f. f.nand ≡ expired d.nand current other location multiplier)
          ((write p (current + at_footer + footer_not_expired) 8 (le_bytes 0) >> pure tt) e)
  expires e is_marked unexpired =
      let two = apart layout current other pages in
      let block : current % 4096 ≡ 0 =
        ground (arith, pages, layout.main_aligned, layout.sec_aligned) in
      bind {P = λ _ f. f.nand ≡ expired d.nand current other location multiplier}
        (write-Ends flash e (current + at_footer + footer_not_expired) 8 (le_bytes 0)
          (omega (arith, block))
          (λ i h. rw is_marked (unfold blit fill in ground (arith, two, unexpired i h)))
          (marked-Locates e is_marked) (λ power. rw is_marked))
        λ _ f is_expired. ended is_expired

  pub replaced-Ends :
      get_metadata p d ≡ ok current d
      → IsErased d.nand (current + at_footer + footer_not_expired) 8
      → Ends
          (Locates p (read_le d.nand (current + at_location) 4) location)
          (λ _ e. e.nand ≡ expired d.nand current other location multiplier)
          (set_metadata_page p current location multiplier d)
  unfolding set_metadata_page
  replaced-Ends found unexpired =
      let m = d.nand in
      let two = apart layout current other pages in
      let block : other % 4096 ≡ 0 =
        ground (arith, pages, layout.main_aligned, layout.sec_aligned) in
      rw (other_page-lem layout current other pages) (
        bind {P = λ _ e. e.nand ≡ erased m current other location multiplier}
          (erase-Ends flash d other block (current, found, inl refl) (λ power. refl))
          λ _ e is_erased.
            bind {P = λ _ f. f.nand ≡ located m current other location multiplier}
              (write-Ends flash e other 4 (le_bytes location) (omega (arith, block))
                (λ i h. rw is_erased (unfold fill in ground arith))
                (kept (erased m current other location multiplier) e
                  (erased-Same m current other location multiplier two)
                  (erased-other m current other location multiplier) is_erased)
                (λ power. rw is_erased))
              λ _ f is_located.
                bind {P = λ _ g. g.nand ≡ counted m current other location multiplier}
                  (write-Ends flash f (other + at_footer) 4 (le_bytes multiplier)
                    (omega (arith, block)) (λ i h. rw is_located (unfold blit fill in ground arith))
                    (kept (located m current other location multiplier) f
                      (located-Same m current other location multiplier two)
                      (located-other m current other location multiplier) is_located)
                    (λ power. rw is_located))
                  λ _ g is_counted.
                    bind {P = λ _ h. h.nand ≡ marked m current other location multiplier}
                      (write-Ends flash g (other + at_footer + footer_valid) 8
                        (le_bytes valid_64b_value) (omega (arith, block))
                        (λ i h. rw is_counted (unfold blit fill in ground arith))
                        (kept (counted m current other location multiplier) g
                          (counted-Same m current other location multiplier two)
                          (counted-other m current other location multiplier) is_counted)
                        (λ power. rw is_counted))
                      λ _ h is_marked. expires h is_marked unexpired)

-- Where getMetadata finds a valid page, whose flag of expiry is erased, setMetadataPage on that page
-- never faults, and a loss of power before any of its operations on the flash leaves a device on
-- which getMetadata finds a page with the old location or with the new one; where it ends,
-- getMetadata finds the other page, with the new location and the new multiplier.
pub set_metadata_page-Replaced :
    {p : Platform}
    → IsFlash p
    → IsLayout p
    → (current other location multiplier : ℕ) (d : Device) → ArePages p current other
    → get_metadata p d ≡ ok current d
    → is_metadata_valid d.nand current ≡ true
    → IsErased d.nand (current + at_footer + footer_not_expired) 8
    → location < 2 ^ 32
    → multiplier < 2 ^ 32
    → Ends
        (Locates p (read_le d.nand (current + at_location) 4) location)
        (λ _ e. Replaced p other location multiplier e)
        (set_metadata_page p current location multiplier d)
set_metadata_page-Replaced flash layout current other location multiplier d pages found valid
      unexpired small narrow =
    mono
      (replaced-Ends flash layout current other location multiplier d pages valid small found
        unexpired)
      (λ _ e.
        expired-Replaced flash layout current other location multiplier d pages valid small e
          narrow)
