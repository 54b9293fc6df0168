-- ===== src/Metadata/Memories.antt =====
-- The memories between the operations of setMetadataPage, and what getMetadata finds on them.
use native.Mathlib.Nat.{zero-div}
use ravens.Base.{
  ℕ, ◌+◌, ◌-◌, ◌/◌, ◌^◌, ◌≤◌, ◌<◌, ◌≡◌, refl, sym, ap, ◌∙◌, ◌⊎◌, inl, inr, true, false, arith,
}
use ravens.Base.Memory.{Bytes, blit, fill}
use ravens.Device.{Device, ok, read_le, le_bytes}
use ravens.Device.Fields.{read_le-eq, read_le_erased, read_le_marked}
use ravens.Metadata.{
  at_location, at_footer, footer_valid, footer_not_expired, valid_64b_value,
  default_64b_flash_value, is_metadata_valid, get_metadata, other_page,
}
use ravens.Platform.{Platform, IsLayout}

-- The current page and the other one.
abbrev pub ArePages : Platform → (current other : ℕ) → Type 0
ArePages p current other =
    ((current ≡ p.update_metadata_main) × (other ≡ p.update_metadata_sec))
    ⊎ ((current ≡ p.update_metadata_sec) × (other ≡ p.update_metadata_main))

-- getMetadata finds a page that has one of two locations.
abbrev pub Locates : Platform → (old new : ℕ) → Device → Type 0
Locates p old new d =
    (page : ℕ) × (get_metadata p d ≡ ok page d)
    × ((read_le d.nand (page + at_location) 4 ≡ old)
        ⊎ (read_le d.nand (page + at_location) 4 ≡ new))

-- A page that a memory shares with another one.
abbrev pub Same : (m n : Bytes) → ℕ → Type 0
Same m n page = (i : ℕ) → i < 4096 → m (page + i) ≡ n (page + i)

pub Same-read :
    (m n : Bytes) (page a k : ℕ)
    → a + k ≤ 4096
    → Same m n page
    → read_le m (page + a) k ≡ read_le n (page + a) k
Same-read m n page a k h same =
    read_le-eq m n (page + a) (page + a) k
      (λ i lt. ap m (shifted i) ∙ same (a + i) (omega arith) ∙ sym (ap n (shifted i)))
  where
    shifted : (i : ℕ) → page + a + i ≡ page + (a + i)
    shifted i = omega arith

pub Same-valid :
    (m n : Bytes) (page : ℕ) → Same m n page → is_metadata_valid m page ≡ is_metadata_valid n page
unfolding is_metadata_valid
Same-valid m n page same = ground (
  arith,
  Same-read m n page 4080 8 (omega arith) same,
  Same-read m n page 4088 8 (omega arith) same,
)

module _ {p : Platform} (layout : IsLayout p) (current other : ℕ)
    (pages : ArePages p current other) where
  pub apart : (current + 4096 ≤ other) ⊎ (other + 4096 ≤ current)
  apart = ground (arith, pages, layout.main_sec)

  pub other_page-lem : other_page p current ≡ other
  other_page-lem = ground (arith, pages, layout.main_sec)

  pub finds_current :
      (d : Device)
      → is_metadata_valid d.nand current ≡ true
      → is_metadata_valid d.nand other ≡ false
      → get_metadata p d ≡ ok current d
  unfolding get_metadata
  finds_current d valid invalid = elim pages [
    | inl (e, f) ↦ rw (sym e, valid) refl
    | inr (e, f) ↦ rw (sym e, sym f, valid, invalid) refl
  ]

  pub finds_other :
      (d : Device)
      → is_metadata_valid d.nand current ≡ false
      → is_metadata_valid d.nand other ≡ true
      → get_metadata p d ≡ ok other d
  unfolding get_metadata
  finds_other d invalid valid = elim pages [
    | inl (e, f) ↦ rw (sym e, sym f, valid, invalid) refl
    | inr (e, f) ↦ rw (sym f, valid) refl
  ]

  pub finds_either :
      (d : Device)
      → is_metadata_valid d.nand current ≡ true
      → is_metadata_valid d.nand other ≡ true
      → (get_metadata p d ≡ ok current d) ⊎ (get_metadata p d ≡ ok other d)
  unfolding get_metadata
  finds_either d valid new = elim pages [
    | inl (e, f) ↦ inl (rw (sym e, valid) refl)
    | inr (e, f) ↦ inr (rw (sym f, new) refl)
  ]

-- Flags of a page.
pub unset-invalid :
    (m : Bytes) (page : ℕ)
    → ((i : ℕ) → i < 8 → m (page + 4080 + i) ≡ 0xff)
    → is_metadata_valid m page ≡ false
unfolding is_metadata_valid
unset-invalid m page h = let unset = read_le_erased m (page + 4080) h in ground (arith, unset)

pub expired-invalid :
    (m : Bytes) (page : ℕ)
    → ((i : ℕ) → i < 8 → m (page + 4088 + i) ≡ 0)
    → is_metadata_valid m page ≡ false
unfolding is_metadata_valid
expired-invalid m page h =
    let nothing : read_le m (page + 4088) 8 ≡ 0 =
      read_le-eq m (λ _. 0) (page + 4088) 0 8 h ∙ unfold read_le in refl in
    ground (arith, nothing)

pub set-valid :
    (m : Bytes) (page : ℕ)
    → ((i : ℕ) → i < 8 → m (page + 4080 + i) ≡ le_bytes valid_64b_value i)
    → ((i : ℕ) → i < 8 → m (page + 4088 + i) ≡ 0xff)
    → is_metadata_valid m page ≡ true
unfolding is_metadata_valid
set-valid m page h k =
    let marked = read_le_marked m (page + 4080) h in
    let current : read_le m (page + 4088) 8 ≡ default_64b_flash_value =
      read_le-eq m (λ _. 0xff) (page + 4088) 0 8 k ∙ unfold read_le in refl in
    ground (arith, marked, current)

-- A number of four bytes reads back.
pub read_le-le_bytes :
    (m : Bytes) (a v : ℕ)
    → v < 2 ^ 32
    → ((i : ℕ) → i < 4 → m (a + i) ≡ le_bytes v i)
    → read_le m a 4 ≡ v
read_le-le_bytes m a v small h =
    read_le-eq m (le_bytes v) a 0 4 (λ i lt. h i lt ∙ ap (le_bytes v) (omega arith))
    ∙ unfold read_le le_bytes in omega arith

-- The memories that setMetadataPage makes, one after another.
module _ (nand : Bytes) (current other location multiplier : ℕ) where
  abbrev pub erased : Bytes
  erased = fill nand other 4096 0xff

  abbrev pub located : Bytes
  located = blit erased other 4 (le_bytes location)

  abbrev pub counted : Bytes
  counted = blit located (other + at_footer) 4 (le_bytes multiplier)

  abbrev pub marked : Bytes
  marked = blit counted (other + at_footer + footer_valid) 8 (le_bytes valid_64b_value)

  abbrev pub expired : Bytes
  expired = blit marked (current + at_footer + footer_not_expired) 8 (le_bytes 0)

  module _ (apart : (current + 4096 ≤ other) ⊎ (other + 4096 ≤ current)) where
    pub erased-Same : Same erased nand current
    erased-Same i h = unfold fill in ground (arith, apart)

    pub located-Same : Same located nand current
    located-Same i h = unfold blit fill in ground (arith, apart)

    pub counted-Same : Same counted nand current
    counted-Same i h = unfold blit fill in ground (arith, apart)

    pub marked-Same : Same marked nand current
    marked-Same i h = unfold blit fill in ground (arith, apart)

    pub expired-Same : Same expired marked other
    expired-Same i h = unfold blit in ground (arith, apart)

    pub expired-current : is_metadata_valid expired current ≡ false
    expired-current =
        expired-invalid expired current (λ i h. unfold blit le_bytes in ground (arith, nothing i))
      where
        nothing : (i : ℕ) → 0 / 256 ^ (current + 4088 + i - (current + 4088)) ≡ 0
        nothing i = zero-div (256 ^ (current + 4088 + i - (current + 4088)))

  pub erased-other : is_metadata_valid erased other ≡ false
  erased-other = unset-invalid erased other (λ i h. unfold fill in ground arith)

  pub located-other : is_metadata_valid located other ≡ false
  located-other = unset-invalid located other (λ i h. unfold blit fill in ground arith)

  pub counted-other : is_metadata_valid counted other ≡ false
  counted-other = unset-invalid counted other (λ i h. unfold blit fill in ground arith)

  pub marked-other : is_metadata_valid marked other ≡ true
  marked-other =
      set-valid marked other
        (λ i h. unfold blit in ground (arith, ap (le_bytes valid_64b_value) (the_byte i)))
        (λ i h. unfold blit fill in ground arith)
    where
      the_byte : (i : ℕ) → other + 4080 + i - (other + 4080) ≡ i
      the_byte i = omega arith

  pub marked-location : location < 2 ^ 32 → read_le marked (other + at_location) 4 ≡ location
  marked-location small =
      read_le-le_bytes marked (other + 0) location small
        (λ i h. unfold blit fill in ground (arith, ap (le_bytes location) (the_byte i)))
    where
      the_byte : (i : ℕ) → other + 0 + i - other ≡ i
      the_byte i = omega arith

  pub marked-multiplier : multiplier < 2 ^ 32 → read_le marked (other + at_footer) 4 ≡ multiplier
  marked-multiplier small =
      read_le-le_bytes marked (other + 4072) multiplier small
        (λ i h. unfold blit in ground (arith, ap (le_bytes multiplier) (the_byte i)))
    where
      the_byte : (i : ℕ) → other + 4072 + i - (other + 4072) ≡ i
      the_byte i = omega arith
