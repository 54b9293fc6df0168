-- ===== src/Decoder/Reads.antt =====
-- What a reading of the decoder returns and how many bits it takes, with a rule for each
-- composition.
use ravens.Base.{ℕ, ◌+◌, ◌*◌, ◌≤◌, ◌<◌, ◌^◌, ◌%◌, Option, some, arith}
use ravens.Base.Memory.{Bytes}
use ravens.Decoder.{Reading, read, and_then}
use ravens.Decoder.Reader.{size_mod}
use ravens.Decoder.Reader.Correct.{IsByteStream, read_bits-value}
use ravens.Decoder.Reader.Value.{bits_value, bits_value-lt}
use native.Mathlib.Nat.{pow-le-pow_right}

-- The reading that began at `off` returned a value with `P`, at most `n` bits further on.
pub data Reads {A : Type 0} (off n : ℕ) (P : A → Type 0) : Option (A × ℕ) → Type 0 where
  reads : {a : A} {off' : ℕ} → off ≤ off' → off' ≤ off + n → P a → Reads off n P (some (a, off'))

pub bind :
    {A B : Type 0} {off n k : ℕ} {P : A → Type 0} {Q : B → Type 0} {r : Option (A × ℕ)}
    {f : A → Reading B}
    → Reads off n P r
    → ((a : A) (off' : ℕ) → off ≤ off' → off' ≤ off + n → P a → Reads off' k Q (f a off'))
    → Reads off (n + k) Q (and_then r f)
bind {A} {B} {off} {n} {k} {P} {Q} (reads lo hi p) next = widen lo hi (next _ _ lo hi p)
  where
    widen :
        {off' : ℕ} {r : Option (B × ℕ)}
        → off ≤ off'
        → off' ≤ off + n
        → Reads off' k Q r
        → Reads off (n + k) Q r
    widen lo hi (reads lo' hi' q) = reads (omega arith) (omega arith) q

pub weaken :
    {A : Type 0} {off n k : ℕ} {P Q : A → Type 0} {r : Option (A × ℕ)}
    → Reads off n P r
    → n ≤ k
    → ((a : A) → P a → Q a)
    → Reads off k Q r
weaken (reads lo hi p) h f = reads lo (omega arith) (f _ p)

pub pure-Reads :
    {A : Type 0} {off : ℕ} {P : A → Type 0} {a : A} → P a → Reads off 0 P (some (a, off))
pure-Reads p = reads (omega arith) (omega arith) p

module _ (stream : Bytes) (size : ℕ) (bytes : IsByteStream stream) where
  -- A read of at most 16 bits ahead of the assertion's bound.
  pub read-Reads :
      (width off : ℕ)
      → width ≤ 16
      → off + width ≤ 256 * size
      → off + width < size_mod
      → Reads off width (λ v. v < 2 ^ width) (read stream size width off)
  unfolding read
  read-Reads width off w inside fits =
      rw (read_bits-value stream size bytes off width (omega arith) inside fits)
        (reads (omega arith) (omega arith) small)
    where
      small : bits_value stream off width % size_mod < 2 ^ width
      small =
          omega (arith, bits_value-lt stream off width, pow-le-pow_right {n = 2} (omega arith) w)
