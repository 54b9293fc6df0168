-- ===== src/Base/Memory.antt =====
-- Byte memory as a function of the address, and what `memcpy` and `memset` make of it.
use Prim.Native.Nat.{ℕ, zero, suc, ◌+◌, ◌-◌, ◌<◌}
use mathlib.Core.Bool.{◌&&◌}
use mathlib.Core.List.{List, [], ◌∷◌}
use native.Mathlib.Omega.{arith}
use ravens.Base.Tests.{ltb, leb, if◌then◌else◌}

-- The byte at each address, or at each offset from a pointer.
abbrev pub Bytes : Type 0
Bytes = ℕ → ℕ

-- `p + k` for a pointer `p`.
abbrev pub shift : Bytes → ℕ → Bytes
shift f k a = f (k + a)

-- `memcpy(&m[start], src, len)`
unfoldable pub blit : Bytes → ℕ → ℕ → Bytes → Bytes
blit m start len src a = if leb start a && ltb a (start + len) then src (a - start) else m a

-- `memset(&m[start], v, len)`
unfoldable pub fill : Bytes → ℕ → ℕ → ℕ → Bytes
fill m start len v a = if leb start a && ltb a (start + len) then v else m a

-- Memory that begins with given bytes, and is erased flash behind them.
abbrev pub of_list : List ℕ → Bytes
of_list [] a = 0xff
of_list (x ∷ xs) zero = x
of_list (x ∷ xs) (suc a) = of_list xs a

abbrev pub AllBytes : List ℕ → Type 0
AllBytes [] = Unit
AllBytes (x ∷ xs) = (x < 256) × AllBytes xs

pub of_list-lt : (xs : List ℕ) → AllBytes xs → (a : ℕ) → of_list xs a < 256
of_list-lt [] h a = omega arith
of_list-lt (x ∷ xs) h zero = h.0
of_list-lt (x ∷ xs) h (suc a) = of_list-lt xs h.1 a
