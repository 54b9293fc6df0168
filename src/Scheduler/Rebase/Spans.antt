-- ===== src/Scheduler/Rebase/Spans.antt =====
-- The blocks that the walk of updateLastRebase finds.

use ravens.Base.{
  ℕ, ◌≤◌, ◌<◌, ◌≡◌, Bool, true, false, not, ◌&&◌, ◌||◌, List, [], ◌∷◌, ◌++◌, ◌==◌, ltb, arith, inl,
  inr, Bool-cases,
}
use ravens.Encoder.{Instr, cache_address, word_mod}
use ravens.Scheduler.{Command, ◌is◌}
use ravens.Scheduler.Rebase.{Blocks, widen, widen_unless_cache, widen_by}

-- The blocks of the flash that a command names.
unfoldable pub uses : Instr → Command → (block : ℕ) → Bool
uses Instr.copy c b = not (b == cache_address) && (b == c.main_block || b == c.secondary_block)
uses Instr.chained_copy c b = not (b == cache_address) && b == c.main_block
uses Instr.erase c b = not (b == cache_address) && b == c.main_block
uses Instr.commit c b = not (b == cache_address) && b == c.main_block
uses Instr.flush_and_partial_commit c b = not (b == cache_address) && b == c.main_block
uses Instr.load_and_flush c b = not (b == cache_address) && b == c.main_block
uses _ c b = false

abbrev pub Holds : Blocks → ℕ → Type 0
Holds s b = s.smallest ≤ b × b ≤ s.largest

widen-keeps : (x b : ℕ) (s : Blocks) → Holds s b → Holds (widen x s) b
unfolding widen
widen-keeps x b s (low, high) = ground (arith, low, high)

widen-takes : (x b : ℕ) (s : Blocks) → b ≡ x → Holds (widen x s) b
unfolding widen
widen-takes x b s p = ground (arith, p)

unless_cache-keeps : (x b : ℕ) (s : Blocks) → Holds s b → Holds (widen_unless_cache x s) b
unfolding widen_unless_cache
unless_cache-keeps x b s h = elim (Bool-cases (x == cache_address)) [
  | inl cached ↦ simp cached h
  | inr apart ↦ simp apart (widen-keeps x b s h)
]

unless_cache-takes :
    (x b : ℕ) (s : Blocks)
    → (not (b == cache_address) && b == x) ≡ true
    → Holds (widen_unless_cache x s) b
unfolding widen_unless_cache
unless_cache-takes x b s h = elim (Bool-cases (x == cache_address)) [
  | inl cached ↦ ground (arith, h, cached)
  | inr apart ↦ simp apart (widen-takes x b s (ground (arith, h)))
]

widen_by-keeps :
    (i : Instr) (c : Command) (b : ℕ) (s : Blocks) → Holds s b → Holds (widen_by i c s) b
unfolding widen_by
widen_by-keeps Instr.copy c b s h =
    unless_cache-keeps c.main_block b _ (unless_cache-keeps c.secondary_block b s h)
widen_by-keeps Instr.chained_copy c b s h = unless_cache-keeps c.main_block b s h
widen_by-keeps Instr.erase c b s h = widen-keeps c.main_block b s h
widen_by-keeps Instr.commit c b s h = widen-keeps c.main_block b s h
widen_by-keeps Instr.flush_and_partial_commit c b s h = widen-keeps c.main_block b s h
widen_by-keeps Instr.load_and_flush c b s h = widen-keeps c.main_block b s h
widen_by-keeps _ c b s h = h

widen_by-takes :
    (i : Instr) (c : Command) (b : ℕ) (s : Blocks) → uses i c b ≡ true → Holds (widen_by i c s) b
unfolding widen_by uses
widen_by-takes Instr.copy c b s h = elim (Bool-cases (b == c.main_block)) [
  | inl main ↦ unless_cache-takes c.main_block b _ (ground (arith, h, main))
  | inr other ↦
      unless_cache-keeps c.main_block b _
        (unless_cache-takes c.secondary_block b s (ground (arith, h, other)))
]
widen_by-takes Instr.chained_copy c b s h = unless_cache-takes c.main_block b s h
widen_by-takes Instr.erase c b s h = widen-takes c.main_block b s (ground (arith, h))
widen_by-takes Instr.commit c b s h = widen-takes c.main_block b s (ground (arith, h))
widen_by-takes Instr.flush_and_partial_commit c b s h =
    widen-takes c.main_block b s (ground (arith, h))
widen_by-takes Instr.load_and_flush c b s h = widen-takes c.main_block b s (ground (arith, h))
widen_by-takes Instr.rebase c b s h = ground (arith, h)
widen_by-takes Instr.chained_copy_skip c b s h = ground (arith, h)
widen_by-takes Instr.use_block c b s h = ground (arith, h)
widen_by-takes Instr.release_block c b s h = ground (arith, h)
widen_by-takes Instr.end_of_stream c b s h = ground (arith, h)

-- The blocks after the commands, the last command first.
abbrev pub span : List Command → Blocks → Blocks
span [] s = s
span (c ∷ earlier) s = span earlier (widen_by c.command c s)

span-keeps : (l : List Command) (b : ℕ) (s : Blocks) → Holds s b → Holds (span l s) b
span-keeps [] b s h = h
span-keeps (c ∷ earlier) b s h = span-keeps earlier b _ (widen_by-keeps c.command c b s h)

pub span-takes :
    (later earlier : List Command) (d : Command) (b : ℕ) (s : Blocks)
    → uses d.command d b ≡ true
    → Holds (span (later ++ (d ∷ earlier)) s) b
span-takes [] earlier d b s h = span-keeps earlier b _ (widen_by-takes d.command d b s h)
span-takes (c ∷ later) earlier d b s h = span-takes later earlier d b _ h

-- The commands hold no REBASE, and their blocks have 64 bits.
unfoldable pub plain : List Command → Bool
plain [] = true
plain (c ∷ rest) =
    not (c is Instr.rebase)
    && ltb c.main_block word_mod
    && ltb c.secondary_block word_mod
    && plain rest

widen-bounded :
    (x : ℕ) (s : Blocks) → x < word_mod → s.largest < word_mod → (widen x s).largest < word_mod
unfolding widen
widen-bounded x s m h = ground (arith, m, h)

unless_cache-bounded :
    (x : ℕ) (s : Blocks)
    → x < word_mod
    → s.largest < word_mod
    → (widen_unless_cache x s).largest < word_mod
unfolding widen_unless_cache
unless_cache-bounded x s m h = elim (Bool-cases (x == cache_address)) [
  | inl cached ↦ simp cached h
  | inr apart ↦ simp apart (widen-bounded x s m h)
]

widen_by-bounded :
    (i : Instr) (c : Command) (s : Blocks)
    → c.main_block < word_mod
    → c.secondary_block < word_mod
    → s.largest < word_mod
    → (widen_by i c s).largest < word_mod
unfolding widen_by
widen_by-bounded Instr.copy c s m n h =
    unless_cache-bounded c.main_block _ m (unless_cache-bounded c.secondary_block s n h)
widen_by-bounded Instr.chained_copy c s m n h = unless_cache-bounded c.main_block s m h
widen_by-bounded Instr.erase c s m n h = widen-bounded c.main_block s m h
widen_by-bounded Instr.commit c s m n h = widen-bounded c.main_block s m h
widen_by-bounded Instr.flush_and_partial_commit c s m n h = widen-bounded c.main_block s m h
widen_by-bounded Instr.load_and_flush c s m n h = widen-bounded c.main_block s m h
widen_by-bounded _ c s m n h = h

pub span-bounded :
    (l : List Command) (s : Blocks)
    → plain l ≡ true
    → s.largest < word_mod
    → (span l s).largest < word_mod
unfolding plain
span-bounded [] s p h = h
span-bounded (c ∷ earlier) s p h =
    span-bounded earlier _ (ground (arith, p))
      (widen_by-bounded c.command c s (ground (arith, p)) (ground (arith, p)) h)
