-- ===== src/Counter/Lost.antt =====
-- What getCurrentCounter reads, and what incrementCounter records with 32-bit pointers.
use native.Mathlib.Nat.{add-zero, zero-add}
use ravens.Base.{
  ℕ, zero, suc, ◌+◌, ◌-◌, ◌*◌, ◌%◌, ◌≡◌, ◌≢◌, ◌≤◌, ◌<◌, ◌⊎◌, refl, ap, ◌∙◌, true, false, none,
  arith,
}
use ravens.Base.Memory.{Bytes, shift, blit}
use ravens.Counter.{cell_is_zero, count_cells, counter_of, record_step, increment_counter}
use ravens.Decoder.Reader.{size_mod}
use ravens.Device.{Device, ok, read_le, le_bytes, spend, write}
use ravens.Device.Fields.{read_le-eq}
use ravens.Flash.Write.{write_to_nand_misaligned}
use ravens.Metadata.{is_metadata_valid, get_metadata}
use ravens.Platform.{Platform, IsFlash, IsLayout, IsErased}

-- The bytes of the first `k` cells are zero, and the next cell holds a byte that is not.
pub record Marks (field : Bytes) (k : ℕ) : Type 0 where
  pub marked : (i : ℕ) → i < 8 * k → field i ≡ 0
  pub next : ℕ
  pub next_in : next < 8
  pub unmarked : field (8 * k + next) ≢ 0

cell_is_zero_of :
    (field : Bytes) (i left : ℕ)
    → ((j : ℕ) → j < left → field (i + j) ≡ 0)
    → cell_is_zero field i left ≡ true
unfolding cell_is_zero
cell_is_zero_of field i zero h = refl
cell_is_zero_of field i (suc left) h = ground (
  arith,
  ap field (add-zero i),
  h 0 (omega arith),
  cell_is_zero_of field (i + 1) left (λ j lt. ap field (omega arith) ∙ h (suc j) (omega arith)),
)

cell_is_zero_not :
    (field : Bytes) (i left j : ℕ)
    → j < left
    → field (i + j) ≢ 0
    → cell_is_zero field i left ≡ false
unfolding cell_is_zero
cell_is_zero_not field i zero j h ne = absurd (omega arith)
cell_is_zero_not field i (suc left) zero h ne = ground (arith, ap field (add-zero i))
cell_is_zero_not field i (suc left) (suc j) h ne = ground (
  arith,
  cell_is_zero_not field (i + 1) left j (omega arith) (λ e. ne (ap field (omega arith) ∙ e)),
)

count_cells-marked :
    (field : Bytes) (start k rounds : ℕ)
    → k < rounds
    → start + rounds ≤ 508
    → Marks field (start + k)
    → count_cells field (8 * start) rounds ≡ k
unfolding count_cells
count_cells-marked field start k zero h fits m = absurd (omega arith)
count_cells-marked field start zero (suc rounds) h fits m = ground (
  arith,
  ap (λ (t : ℕ). field (8 * t + m.next)) (add-zero start),
  m.unmarked,
  cell_is_zero_not field (8 * start) 8 m.next m.next_in,
)
count_cells-marked field start (suc k) (suc rounds) h fits m = ground (
  arith,
  cell_is_zero_of field (8 * start) 8 (λ j lt. m.marked (8 * start + j) (omega arith)),
  ap (λ (t : ℕ). count_cells field t rounds) (next_cell start),
  count_cells-marked field (start + 1) k rounds (omega arith) (omega arith)
      (rw (shifted start k) m),
)
  where
    next_cell : (start : ℕ) → 8 * start + 8 ≡ 8 * (start + 1)
    next_cell start = omega arith

    shifted : (start k : ℕ) → start + 1 + k ≡ start + suc k
    shifted start k = omega arith

-- Where fewer than 508 cells are marked: getCurrentCounter reads the number of cells that are marked, in order, from the first on, on top
-- of 508 for each page that was filled before.
pub counter_of-Marks :
    (nand : Bytes) (page k : ℕ)
    → k < 508
    → Marks (shift nand (page + 4)) k
    → counter_of nand page ≡ (read_le nand (page + 4072) 4 * 508 + k) % size_mod
unfolding counter_of
counter_of-Marks nand page k h m =
    rw (count_cells-marked (shift nand (page + 4)) 0 k 508 h (omega arith) (rw (zero-add k) m))

-- A cell of which only the second half was marked, and nothing else.
pub record HalfMarked (nand after : Bytes) (cell : ℕ) : Type 0 where
  first_half : (i : ℕ) → i < 4 → after (cell + i) ≡ 0xff
  second_half : (i : ℕ) → i < 4 → after (cell + 4 + i) ≡ 0
  elsewhere : (a : ℕ) → a < cell + 4 ⊎ cell + 8 ≤ a → after a ≡ nand a

-- Where `current` is the valid page of the metadata, with no cell marked.
module _ {p : Platform} (flash : IsFlash p) (layout : IsLayout p) (d : Device) (on : d.power ≡ none)
    (valid : is_metadata_valid d.nand p.update_metadata_main ≡ true)
    (unmarked : IsErased d.nand (p.update_metadata_main + 4) 4068) (counter : ℕ)
    (later : 1 ≤ counter) (room : counter + 1 < 508) where
  abbrev marked_half : Bytes
  marked_half = blit d.nand (p.update_metadata_main + 4 + counter * 8 + 4) 4 (shift (le_bytes 0) 4)

  half_written :
      write p (p.update_metadata_main + 4 + counter * 8) 8 (le_bytes 0) d
      ≡ ok true (record d { nand = marked_half })
  unfolding write spend
  half_written = ground (
    arith,
    write_to_nand_misaligned flash d.nand (p.update_metadata_main + 4 + counter * 8) 8 (le_bytes 0)
        (omega (arith, layout.main_aligned))
        (λ i h. ap d.nand (omega arith) ∙ unmarked (counter * 8 - 4 + i) (omega arith)),
  )

  none_marked :
      (m : Bytes)
      → m (p.update_metadata_main + 4) ≡ 0xff
      → Marks (shift m (p.update_metadata_main + 4)) 0
  none_marked m h = record {
    marked = λ i lt. absurd (omega arith);
    next = 0;
    next_in = omega arith;
    unmarked = λ e. omega (arith, h, e, ap m (add-zero (p.update_metadata_main + 4)));
  }

  recorded : record_step p (counter + 1) d ≡ ok tt (record d { nand = marked_half })
  unfolding record_step get_metadata
  recorded =
      ground (arith, valid, half_written, ap (λ (a : ℕ). write p a 8 (le_bytes 0) d) the_cell)
    where
      the_cell :
          p.update_metadata_main + 4 + (counter + 1 + size_mod - 1) % size_mod * 8 % size_mod
          ≡ p.update_metadata_main + 4 + counter * 8
      the_cell = omega arith

  abbrev cell : ℕ
  cell = p.update_metadata_main + 4 + counter * 8

  half_marked : HalfMarked d.nand marked_half cell
  unfolding blit le_bytes
  half_marked = record {
    first_half = λ i under.
        ground (arith, under, ap d.nand (place i) ∙ unmarked (counter * 8 + i) (omega arith));
    second_half = λ i under. ground (arith, under);
    elsewhere = λ a outside. ground (arith, outside);
  }
    where
      place : (i : ℕ) → cell + i ≡ p.update_metadata_main + 4 + (counter * 8 + i)
      place i = omega arith

  unread : cell_is_zero (shift marked_half (p.update_metadata_main + 4)) (counter * 8) 8 ≡ false
  unread =
      cell_is_zero_not (shift marked_half (p.update_metadata_main + 4)) (counter * 8) 8 0
        (omega arith)
        (λ e. omega (arith, e, half_marked.first_half 0 (omega arith), ap marked_half place))
    where
      place : p.update_metadata_main + 4 + (counter * 8 + 0) ≡ cell + 0
      place = omega arith

  -- With 32-bit pointers and power, the main page valid and no cell marked, for a counter from 1 to 506:
  -- incrementCounter, not fast-forwarding, returns the next counter, zeroes the last four bytes of the
  -- cell of the old one and changes no other byte of the flash. The first four bytes of the cell stay
  -- erased, so that the loop of getCurrentCounter takes it for a cell that is not marked, and
  -- getCurrentCounter reads the same number as before.
  pub increment_counter_lost :
      (old_counter : ℕ)
      → (e : Device) × (increment_counter p counter old_counter none d ≡ ok (counter + 1, none) e)
        × HalfMarked d.nand e.nand (p.update_metadata_main + 4 + counter * 8)
        × (cell_is_zero (shift e.nand (p.update_metadata_main + 4)) (counter * 8) 8 ≡ false)
        × (counter_of e.nand p.update_metadata_main ≡ counter_of d.nand p.update_metadata_main)
  unfolding increment_counter
  increment_counter_lost old_counter =
      (record d { nand = marked_half }, incremented, half_marked, unread, same)
    where
      incremented :
          increment_counter p counter old_counter none d
          ≡ ok (counter + 1, none) (record d { nand = marked_half })
      incremented = ground (arith, recorded, ap (λ (c : ℕ). record_step p c d) small)
        where
          small : (counter + 1) % size_mod ≡ counter + 1
          small = omega arith

      same :
          counter_of marked_half p.update_metadata_main ≡ counter_of d.nand p.update_metadata_main
      same = omega (
        arith,
        counter_of-Marks marked_half p.update_metadata_main 0 (omega arith) (
            none_marked marked_half (
              unfold blit in
              ground (arith, unmarked 0, ap d.nand (add-zero (p.update_metadata_main + 4))))),
        counter_of-Marks d.nand p.update_metadata_main 0 (omega arith)
            (none_marked d.nand (ap d.nand (omega arith) ∙ unmarked 0 (omega arith))),
        read_le-eq marked_half d.nand (p.update_metadata_main + 4072)
            (p.update_metadata_main + 4072) 4 (λ i h. unfold blit in ground arith),
      )
