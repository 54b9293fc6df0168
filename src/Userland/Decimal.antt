-- ===== src/Userland/Decimal.antt =====
-- itoa of munin/Userland/userland_utils.c.
use native.Mathlib.Nat.{add-zero}
use ravens.Base.{
  ℕ, zero, suc, ◌+◌, ◌-◌, ◌*◌, ◌^◌, ◌≤◌, ◌<◌, ◌≡◌, refl, sym, subst, ap, ◌∙◌, inl, inr, Bool-cases,
  arith, ◌==◌, ltb, leb, ◌&&◌, if◌then◌else◌,
}
use ravens.Base.Memory.{Bytes, blit, shift}
use ravens.Userland.Digits.{little, IsDigit, Written, digit_loop-Written}
use ravens.Userland.{digit_loop, swap_loop, itoa}

-- The value of digits, the most significant one first.
unfoldable pub number : (base : ℕ) → Bytes → (count : ℕ) → ℕ
number base m zero = 0
number base m (suc count) = number base m count * base + (m count - 48)

number-little :
    (base count : ℕ) (d e : Bytes)
    → ((i : ℕ) → i < count → d i ≡ e (count - 1 - i))
    → number base d count ≡ little base e count
unfolding number little
number-little base zero d e h = refl
number-little base (suc count) d e h =
    let ih =
      number-little base count d (shift e 1) (λ i under. h i (omega arith) ∙ ap e (omega arith)) in
    let last : d count ≡ e 0 = h count (omega arith) ∙ ap e (omega arith) in
    rw (ih, last) (ground arith)

-- The bytes from `lo` to `hi` in their reversed order.
abbrev reversed : (lo hi : ℕ) → Bytes → Bytes
reversed lo hi m x = if leb lo x && leb x hi then m (lo + hi - x) else m x

reversed_nothing : (lo hi x : ℕ) (m : Bytes) → hi ≤ lo → m x ≡ reversed lo hi m x
reversed_nothing lo hi x m h = ground (arith, λ (p : lo ≤ x) (q : x ≤ hi). ap m (middle p q))
  where
    middle : lo ≤ x → x ≤ hi → x ≡ lo + hi - x
    middle p q = omega arith

reversed_step :
    (lo hi x : ℕ) (m : Bytes)
    → lo < hi
    → reversed (lo + 1) (hi - 1) (blit (blit m hi 1 (λ _. m lo)) lo 1 (λ _. m hi)) x
      ≡ reversed lo hi m x
unfolding blit
reversed_step lo hi x m h = ground (
  arith,
  λ (p : x ≡ lo). ap m (from_low p),
  λ (p : x ≡ hi). ap m (from_high p),
  λ (p : lo < x) (q : x < hi). ap m (between p q),
)
  where
    from_low : x ≡ lo → hi ≡ lo + hi - x
    from_low p = omega arith

    from_high : x ≡ hi → lo ≡ lo + hi - x
    from_high p = omega arith

    between : lo < x → x < hi → lo + 1 + (hi - 1) - x ≡ lo + hi - x
    between p q = omega arith

swap_loop-reversed :
    (fuel lo hi x : ℕ) (m : Bytes) → hi ≤ lo + fuel → swap_loop fuel lo hi m x ≡ reversed lo hi m x
unfolding swap_loop
swap_loop-reversed zero lo hi x m h = reversed_nothing lo hi x m (omega arith)
swap_loop-reversed (suc fuel) lo hi x m h = elim (Bool-cases (ltb lo hi)) [
  | inr met ↦ simp met (reversed_nothing lo hi x m (ground (arith, met)))
  | inl apart ↦ simp apart (
      swap_loop-reversed fuel (lo + 1) (hi - 1) x (blit (blit m hi 1 (λ _. m lo)) lo 1 (λ _. m hi))
        (ground (arith, apart))
      ∙ reversed_step lo hi x m (ground (arith, apart)))
]

-- The digits of `value`, the most significant one first, and a NUL from `string` on.
pub record Decimal (value string : ℕ) (m : Bytes) (r : Bytes) : Type 0 where
  count : ℕ
  some_digit : 0 < count
  few : count ≤ 32
  digits : number 10 (shift r string) count ≡ value
  in_range : (i : ℕ) → i < count → IsDigit (r (string + i))
  no_leading_zero : 1 < count → 48 < r string
  end : r (string + count) ≡ 0
  before : (a : ℕ) → a < string → r a ≡ m a

-- What the second loop makes of the digits.
module _ (value string : ℕ) (m : Bytes) (r : ℕ × Bytes) (w : Written 32 value string m r) where
  abbrev ended : Bytes
  ended = blit r.1 r.0 1 (λ _. 0)

  abbrev result : Bytes
  result = swap_loop 32 string (r.0 - 1) ended

  turned : (x : ℕ) → result x ≡ reversed string (r.0 - 1) ended x
  turned x = swap_loop-reversed 32 string (r.0 - 1) x ended (omega (arith, w.end, w.few))

  turned_inside : (i : ℕ) → i < w.count → result (string + i) ≡ r.1 (string + (w.count - 1 - i))
  unfolding blit
  turned_inside i under =
      turned (string + i)
      ∙ ground (arith, w.end, under, w.some_digit, λ (p : 0 < w.count). ap r.1 place)
    where
      place : string + (r.0 - 1) - (string + i) ≡ string + (w.count - 1 - i)
      place = omega (arith, w.end, under)

  turned_end : result (string + w.count) ≡ 0
  unfolding blit
  turned_end = turned (string + w.count) ∙ ground (arith, w.end, w.some_digit)

  turned_before : (a : ℕ) → a < string → result a ≡ m a
  unfolding blit
  turned_before a under = turned a ∙ ground (arith, w.end, under) ∙ w.before a under

  some_value : 1 < w.count → 0 < value
  some_value several = elim (Bool-cases (value == 0)) [
    | inl nothing ↦ omega (arith, several, w.no_more (ground (arith, nothing)))
    | inr something ↦ ground (arith, something)
  ]

  first_place : string + (w.count - 1 - 0) ≡ string + (w.count - 1)
  first_place = omega arith

  digits_turned : Decimal value string m result
  digits_turned = record {
    count = w.count;
    some_digit = w.some_digit;
    few = w.few;
    digits =
        number-little 10 w.count (shift result string) (shift r.1 string) turned_inside ∙ w.digits;
    in_range = λ i under.
        subst IsDigit (sym (turned_inside i under)) (w.in_range (w.count - 1 - i) (omega arith));
    no_leading_zero = λ several. omega (
      arith,
      w.last_digit (some_value several),
      turned_inside 0 (omega arith),
      ap r.1 first_place,
      ap result (add-zero string),
    );
    end = turned_end;
    before = turned_before;
  }

-- itoa in base 10 of a word of 32 bits writes between one and 32 characters from '0' to '9', the first
-- of which is '0' only if it is the only one, and a NUL behind them: the digits denote the word, the
-- most significant one first, and nothing before the string changes.
pub itoa-Decimal :
    (value string : ℕ) (m : Bytes)
    → value < 2 ^ 32
    → Decimal value string m (itoa value string 10 m)
unfolding itoa
itoa-Decimal value string m small =
    digits_turned value string m (digit_loop 32 10 value string m)
      (digit_loop-Written 31 value string m small)
