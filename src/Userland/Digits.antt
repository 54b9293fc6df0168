-- ===== src/Userland/Digits.antt =====
-- The first loop of itoa of munin/Userland/userland_utils.c.
use native.Mathlib.Nat.{add-zero, pow-suc}
use ravens.Base.{
  ℕ, zero, suc, ◌+◌, ◌-◌, ◌*◌, ◌/◌, ◌^◌, ◌≤◌, ◌<◌, ◌≡◌, refl, subst, ap, ◌∙◌, inl, inr, false,
  Bool-cases, arith, ◌==◌,
}
use ravens.Base.Memory.{Bytes, blit, shift}
use ravens.Userland.{digit_loop}

-- The value of digits, the least significant one first.
unfoldable pub little : (base : ℕ) → Bytes → (count : ℕ) → ℕ
little base m zero = 0
little base m (suc count) = (m 0 - 48) + base * little base (shift m 1) count

-- The characters '0' to '9'.
abbrev pub IsDigit : ℕ → Type 0
IsDigit c = 48 ≤ c × c ≤ 57

-- What the first loop wrote from `string` on.
pub record Written (fuel value string : ℕ) (m : Bytes) (r : ℕ × Bytes) : Type 0 where
  pub count : ℕ
  pub some_digit : 0 < count
  pub few : count ≤ fuel
  pub end : r.0 ≡ string + count
  pub digits : little 10 (shift r.1 string) count ≡ value
  pub in_range : (i : ℕ) → i < count → IsDigit (r.1 (string + i))
  pub last_digit : 0 < value → 48 < r.1 (string + (count - 1))
  pub no_more : value ≡ 0 → count ≡ 1
  pub before : (a : ℕ) → a < string → r.1 a ≡ m a

little-agree :
    (base count : ℕ) (d e : Bytes)
    → ((i : ℕ) → i < count → d i ≡ e i)
    → little base d count ≡ little base e count
unfolding little
little-agree base zero d e h = refl
little-agree base (suc count) d e h =
    rw
      (
        h 0 (omega arith),
        little-agree base count (shift d 1) (shift e 1) (λ i under. h (1 + i) (omega arith)),
      )
      refl

-- The bytes after the digit of `value` is written at `string`.
abbrev digit_written : (value string : ℕ) → Bytes → Bytes
digit_written value string m = blit m string 1 (λ _. 48 + (value - value / 10 * 10))

digit_written-before :
    (value string a : ℕ) (m : Bytes) → a < string → digit_written value string m a ≡ m a
unfolding blit
digit_written-before value string a m under = ground (arith, under)

digit_written-at :
    (value string : ℕ) (m : Bytes)
    → digit_written value string m string ≡ 48 + (value - value / 10 * 10)
unfolding blit
digit_written-at value string m = ground arith

is_digit : (value : ℕ) {c : ℕ} → c ≡ 48 + (value - value / 10 * 10) → IsDigit c
is_digit value h = omega (arith, h)

Written-last :
    (fuel value string : ℕ) (m : Bytes)
    → value / 10 ≡ 0
    → Written (suc fuel) value string m (string + 1, digit_written value string m)
unfolding little
Written-last fuel value string m last = record {
  count = 1;
  some_digit = omega arith;
  few = omega arith;
  end = refl;
  digits = omega (
    arith,
    last,
    digit_written-at value string m,
    ap (digit_written value string m) (add-zero string),
  );
  in_range = λ i under.
      is_digit value
        (ap (digit_written value string m) (omega arith) ∙ digit_written-at value string m);
  last_digit = λ some_value. omega (
    arith,
    last,
    digit_written-at value string m,
    ap (digit_written value string m) (add-zero string),
  );
  no_more = λ _. refl;
  before = λ a under. digit_written-before value string a m under;
}

Written-more :
    (fuel value string : ℕ) (m : Bytes) (r : ℕ × Bytes)
    → (value / 10 == 0) ≡ false
    → Written fuel (value / 10) (string + 1) (digit_written value string m) r
    → Written (suc fuel) value string m r
unfolding little
Written-more fuel value string m r more rest = record {
  count = suc rest.count;
  some_digit = omega arith;
  few = omega (arith, rest.few);
  end = omega (arith, rest.end);
  digits = omega (
    arith,
    digit_written-at value string m,
    rest.before string (omega arith),
    ap r.1 (add-zero string),
    rest.digits,
    little-agree 10 rest.count (shift (shift r.1 string) 1) (shift r.1 (string + 1))
        (λ i under. ap r.1 (omega arith)),
  );
  in_range = in_range;
  last_digit = λ some_value. omega (
    arith,
    rest.last_digit (ground (arith, more)),
    rest.some_digit,
    ap r.1 (behind rest.count rest.some_digit),
  );
  no_more = λ none_left. ground (arith, more, none_left);
  before = λ a under. rest.before a (omega arith) ∙ digit_written-before value string a m under;
}
  where
    behind : (count : ℕ) → 0 < count → string + (suc count - 1) ≡ string + 1 + (count - 1)
    behind count h = omega (arith, h)

    in_range : (i : ℕ) → i < suc rest.count → IsDigit (r.1 (string + i))
    in_range zero under = is_digit value (
        ap r.1 (add-zero string)
        ∙ rest.before string (omega arith)
        ∙ digit_written-at value string m)
    in_range (suc i) under =
        subst (λ (a : ℕ). IsDigit (r.1 a)) (shifted i) (rest.in_range i (omega arith))
      where
        shifted : (i : ℕ) → string + 1 + i ≡ string + suc i
        shifted i = omega arith

next_small : (fuel value : ℕ) → value < 2 ^ suc (suc fuel) → value / 10 < 2 ^ suc fuel
next_small fuel value small = omega (arith, pow-suc 2 (suc fuel))

pub digit_loop-Written :
    (fuel value string : ℕ) (m : Bytes)
    → value < 2 ^ suc fuel
    → Written (suc fuel) value string m (digit_loop (suc fuel) 10 value string m)
unfolding digit_loop
digit_loop-Written zero value string m small = elim (Bool-cases (value / 10 == 0)) [
  | inl last ↦ simp last (Written-last 0 value string m (ground (arith, last)))
  | inr more ↦ simp more (Written-last 0 value string m (omega (arith, small)))
]
digit_loop-Written (suc fuel) value string m small = elim (Bool-cases (value / 10 == 0)) [
  | inl last ↦ simp last (Written-last (suc fuel) value string m (ground (arith, last)))
  | inr more ↦ simp more (
      Written-more (suc fuel) value string m _ more (
        digit_loop-Written fuel (value / 10) (string + 1) (digit_written value string m)
          (next_small fuel value small)))
]
