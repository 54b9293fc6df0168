-- ===== src/Lzfx/Copies.antt =====
-- What the loops of the decompressor make of the buffer.
use native.Mathlib.Nat.{add-zero}
use ravens.Base.{ℕ, zero, suc, ◌+◌, ◌≤◌, ◌<◌, ◌≡◌, refl, ap, ◌∙◌, ◌⊎◌, inl, some, arith}
use ravens.Base.Memory.{Bytes}
use ravens.Lzfx.{update, copy_back}

-- A run of `n` bytes that repeats what stands `distance` before it, in a buffer that is else as before.
pub record Repeats (before after : Bytes) (ref output n : ℕ) : Type 0 where
  pub repeated : (i : ℕ) → i < n → after (output + i) ≡ after (ref + i)
  pub kept : (a : ℕ) → (a < output) ⊎ (output + n ≤ a) → after a ≡ before a

-- The copy loop of a back-reference that does not loop back writes `n` bytes in the buffer, each of
-- them the one that stands at the same distance before it, also where the run overlaps with what it
-- repeats, and leaves the rest as it was.
pub copy_back-Repeats :
    (size n ref output : ℕ) (buffer : Bytes)
    → ref < output
    → output + n ≤ size
    → (after : Bytes) × (copy_back size n ref output buffer ≡ some after)
      × Repeats buffer after ref output n
unfolding copy_back
copy_back-Repeats size zero ref output buffer before room =
    (buffer, refl, record { repeated = λ i h. absurd (omega arith); kept = λ a h. refl })
copy_back-Repeats size (suc n) ref output buffer before room =
    let (after, same, rest) =
      copy_back-Repeats size n (ref + 1) (output + 1) (update buffer output (buffer ref))
        (omega arith) (omega arith) in
    (
      after,
      ground (arith, same),
      record { repeated = repeat after rest; kept = λ a h. ground (arith, rest.kept a) },
    )
  where
    repeat :
        (after : Bytes)
        → Repeats (update buffer output (buffer ref)) after (ref + 1) (output + 1) n
        → (i : ℕ) → i < suc n
        → after (output + i) ≡ after (ref + i)
    repeat after rest zero h = ground (
      arith,
      rest.kept output (inl (omega arith)),
      rest.kept ref (inl (omega arith)),
      ap after (add-zero output),
      ap after (add-zero ref),
    )
    repeat after rest (suc i) h =
        ap after (omega arith) ∙ rest.repeated i (omega arith) ∙ ap after (omega arith)
