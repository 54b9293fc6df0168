-- ===== src/Scheduler/Rebase/Covers.antt =====
-- The range that updateLastRebase gives to the first REBASE.
use mathlib.Core.List.{append_assoc, reverse, reverse-cons, reverse-append, reverse-reverse}
use ravens.Base.{
  ℕ, ◌+◌, ◌*◌, ◌≤◌, ◌<◌, ◌≡◌, refl, ap, ◌∙◌, true, false, List, [], ◌∷◌, ◌++◌, ltb, if◌then◌else◌,
  arith,
}
use ravens.Encoder.{Instr, word_mod}
use ravens.Scheduler.{Command, ◌is◌}
use ravens.Scheduler.Rebase.Spans.{uses, Holds, span, span-takes, span-bounded, plain}
use ravens.Scheduler.Rebase.{
  Blocks, no_blocks, widen_by, update_from, place_rebase, blocks_between, update_last_rebase,
}

plain-append : (l r : List Command) → plain l ≡ true → plain r ≡ true → plain (l ++ r) ≡ true
unfolding plain
plain-append [] r p q = q
plain-append (c ∷ l) r p q = ground (arith, p, plain-append l r (ground (arith, p)) q)

plain-reverse : (l : List Command) → plain l ≡ true → plain (reverse l) ≡ true
unfolding plain
plain-reverse [] p = refl
plain-reverse (c ∷ l) p =
    rw (reverse-cons c l)
      (plain-append (reverse l) (c ∷ []) (plain-reverse l (ground (arith, p))) (ground (arith, p)))

abbrev ranged : Command → Blocks → Command
ranged c s = record c { main_block = s.smallest; length = blocks_between s.smallest s.largest }

-- The REBASE that the walk reaches first, where no command stands before it.
abbrev first_rebase : Command → Blocks → List Command
first_rebase c s = if ltb s.largest s.smallest then [] else ranged c s ∷ []

first_rebase-kept :
    (c : Command) (s : Blocks)
    → ltb s.largest s.smallest ≡ false
    → first_rebase c s ≡ ranged c s ∷ []
first_rebase-kept c s kept = simp kept refl

update_from-first :
    (c : Command) (later : List Command) (s : Blocks)
    → c is Instr.rebase ≡ true
    → plain later ≡ true
    → update_from (later ++ (c ∷ [])) s ≡ later ++ first_rebase c (span later s)
unfolding update_from place_rebase plain
update_from-first c [] s base p = simp base refl
update_from-first c (d ∷ later) s base p =
    let other : d is Instr.rebase ≡ false = ground (arith, p) in
    simp other (
      ap (λ l. d ∷ l) (update_from-first c later (widen_by d.command d s) base (ground (arith, p))))

-- A REBASE in front of the commands, whose range holds each block that they use.
pub record Covering (c : Command) (commands result : List Command) : Type 0 where
  first : ℕ
  count : ℕ
  placed : result ≡ record c { main_block = first; length = count } ∷ commands
  covers :
      (before after : List Command) (d : Command) (b : ℕ)
      → commands ≡ before ++ (d ∷ after)
      → uses d.command d b ≡ true
      → first ≤ b × b < first + (count + 1) * 4096

reversed_split :
    (before after : List Command) (d : Command)
    → reverse (before ++ (d ∷ after)) ≡ reverse after ++ (d ∷ reverse before)
reversed_split before after d =
    reverse-append before (d ∷ after)
    ∙ ap (λ l. l ++ reverse before) (reverse-cons d after)
    ∙ append_assoc (reverse after) (d ∷ []) (reverse before)

span-used :
    (before after commands : List Command) (d : Command) (b : ℕ)
    → commands ≡ before ++ (d ∷ after)
    → uses d.command d b ≡ true
    → Holds (span (reverse commands) no_blocks) b
span-used before after commands d b split h =
    rw (split, reversed_split before after d)
      (span-takes (reverse after) (reverse before) d b no_blocks h)

in_range :
    (s : Blocks) (b : ℕ)
    → s.largest < word_mod
    → Holds s b
    → s.smallest ≤ b × b < s.smallest + (blocks_between s.smallest s.largest + 1) * 4096
in_range s b bound (low, high) = (low, omega (arith, low, high, bound))

-- updateLastRebase on a REBASE in front of commands without one, one of which uses a block of the
-- flash, gives it a range that holds every block of the flash that a command uses. The blocks of the
-- commands have 64 bits.
pub update_last_rebase-Covering :
    (c : Command) (before after : List Command) (d : Command) (b : ℕ)
    → c is Instr.rebase ≡ true
    → plain (before ++ (d ∷ after)) ≡ true
    → uses d.command d b ≡ true
    → Covering c (before ++ (d ∷ after)) (update_last_rebase (c ∷ (before ++ (d ∷ after))))
unfolding update_last_rebase
update_last_rebase-Covering c before after d b base p h =
    let commands = before ++ (d ∷ after) in
    let s = span (reverse commands) no_blocks in
    let some_block = span-used before after commands d b refl h in
    let kept : ltb s.largest s.smallest ≡ false = ground (arith, some_block.0, some_block.1) in
    let result : update_last_rebase (c ∷ commands)
        ≡ reverse (reverse commands ++ first_rebase c s) =
      ap reverse (
        ap (λ l. update_from l no_blocks) (reverse-cons c commands)
        ∙ update_from-first c (reverse commands) no_blocks base (plain-reverse commands p)) in
    record {
      first = s.smallest;
      count = blocks_between s.smallest s.largest;
      placed =
          result
          ∙ ap (λ l. reverse (reverse commands ++ l)) (first_rebase-kept c s kept)
          ∙ reverse-append (reverse commands) (ranged c s ∷ [])
          ∙ ap (λ l. ranged c s ∷ l) (reverse-reverse commands);
      covers = λ before' after' d' b' split h'.
          in_range s b'
            (span-bounded (reverse commands) no_blocks (plain-reverse commands p) (omega arith))
            (span-used before' after' commands d' b' split h');
    }
