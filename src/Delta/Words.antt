-- ===== src/Delta/Words.antt =====
-- The readers of words against the reader of bytes.
use ravens.Base.{
  ℕ, ◌+◌, ◌*◌, ◌^◌, ◌≤◌, ◌<◌, ◌≡◌, refl, sym, ap, fun_ext, inl, inr, Bool-cases, arith, leb,
}
use ravens.Delta.{Context, consume_byte, consume_word, consume_dword, next_byte, next_number}
use ravens.Device.{Device, M, ok, ◌>>=◌, pure, read_le}

-- Two bytes in a row, the low one first, and four of them.
abbrev pub two_bytes : Context → M (ℕ × Context)
two_bytes c = do (low, e) ← consume_byte c; (high, f) ← consume_byte e; pure (low + 256 * high, f)

abbrev pub four_bytes : Context → M (ℕ × Context)
four_bytes c = do (low, e) ← two_bytes c; (high, f) ← two_bytes e; pure (low + 2 ^ 16 * high, f)

-- A byte that is in the buffer.
consume_byte-next :
    (c : Context) (d : Device)
    → c.current_cache_offset < c.length_left
    → consume_byte c d ≡ next_byte c d
unfolding consume_byte
consume_byte-next c d h = ground arith

abbrev pub at_next : Context → Context
at_next c = record c { current_cache_offset = c.current_cache_offset + 1 }

two_bytes-next :
    (c : Context) (d : Device)
    → c.current_cache_offset + 2 ≤ c.length_left
    → two_bytes c d ≡ next_number 2 c d
unfolding read_le
two_bytes-next c d h =
    rw (consume_byte-next c d (omega arith), consume_byte-next (at_next c) d (omega arith))
      (ap (λ (r : ℕ × ℕ). ok (r.0, record c { current_cache_offset = r.1 }) d)
        (simp
          (the_sum (d.cache_ram c.current_cache_offset) (d.cache_ram (c.current_cache_offset + 1)))
          (ap
            (λ (n : ℕ). (
              d.cache_ram c.current_cache_offset + 256 * d.cache_ram (c.current_cache_offset + 1),
              n,
            ))
            (omega arith))))
  where
    the_sum : (low high : ℕ) → low + 256 * (high + 256 * 0) ≡ low + 256 * high
    the_sum low high = omega arith

-- A double word out of two words, low one first.
abbrev in_words : (Context → M (ℕ × Context)) → Context → M (ℕ × Context)
in_words word c = do (low, e) ← word c; (high, f) ← word e; pure (low + 2 ^ 16 * high, f)

consume_word-bytes : (c : Context) (d : Device) → consume_word c d ≡ two_bytes c d
unfolding consume_word
consume_word-bytes c d = elim (Bool-cases (leb (c.current_cache_offset + 2) c.length_left)) [
  | inl inside ↦ simp inside (sym (two_bytes-next c d (ground arith)))
  | inr outside ↦ simp outside refl
]

four_bytes-next :
    (c : Context) (d : Device)
    → c.current_cache_offset + 4 ≤ c.length_left
    → four_bytes c d ≡ next_number 4 c d
unfolding read_le
four_bytes-next c d h =
    rw
      (
        two_bytes-next c d (omega arith),
        two_bytes-next (record c { current_cache_offset = c.current_cache_offset + 2 }) d
            (omega arith),
      )
      (ap (λ (r : ℕ × ℕ). ok (r.0, record c { current_cache_offset = r.1 }) d)
        (ground (
          arith,
          ap d.cache_ram (the_third c.current_cache_offset),
          ap d.cache_ram (the_fourth c.current_cache_offset),
        )))
  where
    the_third : (n : ℕ) → n + 1 + 1 ≡ n + 2
    the_third n = omega arith

    the_fourth : (n : ℕ) → n + 1 + 1 + 1 ≡ n + 2 + 1
    the_fourth n = omega arith

-- consumeDWord reads the same four bytes, the lowest first, as four calls of consumeByte, wherever the
-- end of the buffer falls between them, and leaves the same context and device.
pub consume_dword-bytes : (c : Context) (d : Device) → consume_dword c d ≡ four_bytes c d
unfolding consume_dword
consume_dword-bytes c d = elim (Bool-cases (leb (c.current_cache_offset + 4) c.length_left)) [
  | inl inside ↦ simp inside (sym (four_bytes-next c d (ground arith)))
  | inr outside ↦ simp outside (
      ap (λ (word : Context → M (ℕ × Context)). in_words word c d)
        (fun_ext λ e. fun_ext λ f. consume_word-bytes e f))
]
