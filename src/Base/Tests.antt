-- ===== src/Base/Tests.antt =====
-- Boolean tests on the native numbers, the conditional, and evaluation over a small range.
use Prim.Native.Nat.{ℕ, zero, suc, ◌<◌, ◌+◌, compare, Ordering}
use mathlib.Core.Path.{◌≡◌, refl, ap}
use mathlib.Core.Logic.{◌↔◌, ◌⊎◌, inl, inr}
use mathlib.Core.Bool.{Bool, true, false, ◌&&◌}
use mathlib.Core.List.{List, [], ◌∷◌, ◌++◌}
use native.Mathlib.Omega.{arith}

abbrev pub ltb : ℕ → ℕ → Bool
ltb a b = elim (compare a b) [ Ordering.lt ↦ true | _ ↦ false ]

abbrev pub leb : ℕ → ℕ → Bool
leb a b = elim (compare a b) [ Ordering.gt ↦ false | _ ↦ true ]

infix 50 ◌==◌
abbrev pub ◌==◌ : ℕ → ℕ → Bool
a == b = elim (compare a b) [ Ordering.eq ↦ true | _ ↦ false ]

infix 1 if◌then◌else◌
abbrev pub if◌then◌else◌ {ℓ} : {A : Type ℓ} → Bool → A → A → A
if true then x else y = x
if false then x else y = y

pub Bool-cases : (b : Bool) → (b ≡ true) ⊎ (b ≡ false)
Bool-cases true = inl refl
Bool-cases false = inr refl

pub ==_iff : (a b : ℕ) → ((a == b) ≡ true) ↔ (a ≡ b)
==_iff a b = ground arith

-- A test on the numbers under a bound, by evaluation.
unfoldable pub passes : (test : ℕ → Bool) → (bound : ℕ) → Bool
passes test zero = true
passes test (suc last) = passes test last && test last

pub passes_at :
    (test : ℕ → Bool) (bound : ℕ)
    → passes test bound ≡ true
    → (at : ℕ) → at < bound
    → test at ≡ true
unfolding passes
passes_at test zero pass at under = absurd (omega arith)
passes_at test (suc last) pass at under = elim (Bool-cases (at == last)) [
  | inl here ↦ ground (arith, ap test (the_last here))
  | inr before ↦ passes_at test last (ground arith) at (ground arith)
]
  where
    the_last : {a b : ℕ} → (a == b) ≡ true → a ≡ b
    the_last same = ground arith

-- Over the native numbers.
abbrev pub length {ℓ} : {A : Type ℓ} → List A → ℕ
length [] = 0
length (x ∷ xs) = suc (length xs)

pub length-append {ℓ} : {A : Type ℓ} (xs ys : List A) → length (xs ++ ys) ≡ length xs + length ys
length-append [] ys = omega arith
length-append (x ∷ xs) ys = omega (arith, length-append xs ys)
