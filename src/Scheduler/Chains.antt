-- ===== src/Scheduler/Chains.antt =====
-- createChains of hugin/Scheduler/scheduler_codegen_optim.cpp.
pub mod Returns
use ravens.Base.{
  ℕ, ◌+◌, ◌%◌, ◌^◌, ◌≤◌, ◌<◌, ◌≡◌, refl, sym, ap, ◌∙◌, inl, inr, Bool-cases, Bool, true, false,
  ◌&&◌, ◌||◌, Option, none, some, List, [], ◌∷◌, map, arith, ◌==◌, leb, if◌then◌else◌,
}
use ravens.Base.Maybe.{◌>>◌, check, Option-cases, some_injective, none-some}
use ravens.Encoder.{Instr, PublicCommand, cache_address, word_mod}
use ravens.Encoder.Validate.{instr_number_injective}
use ravens.Flash.{block_size}
use ravens.Scheduler.{
  Command, ◌is◌, address, block_of, could_convert, could_chain, as_chained, skip_command, delta_of,
  end_of, chain_loop, create_chains, get_public_command,
}
use ravens.VirtualMachine.{plus, max_skip_length}
use ravens.VirtualMachine.Explicit.{explicit, explicit_as}

-- A block of the flash or of the cache.
abbrev pub IsBlock : ℕ → Type 0
IsBlock block = (block % block_size ≡ 0) × (block ≤ cache_address)

-- A command as the scheduler makes them: not chained yet, and inside the blocks that it names.
pub record WellFormed (c : Command) : Type 0 where
  pub not_chained : (c is Instr.chained_copy) ≡ false
  pub not_skip : (c is Instr.chained_copy_skip) ≡ false
  pub main_IsBlock : IsBlock c.main_block
  pub secondary_IsBlock : IsBlock c.secondary_block
  pub offset_small : c.secondary_offset < block_size
  pub copy_fits : c is Instr.copy ≡ true → c.secondary_offset + c.length ≤ block_size
  pub flush_fits : c is Instr.flush_and_partial_commit ≡ true → c.length ≤ block_size
  pub flush_start : c is Instr.flush_and_partial_commit ≡ true → c.main_block_offset ≡ 0

abbrev pub AllWellFormed : List Command → Type 0
AllWellFormed [] = Unit
AllWellFormed (c ∷ rest) = WellFormed c × AllWellFormed rest

-- Where the copies end behind a command that is not chained.
abbrev pub next_end : Command → ℕ → ℕ
next_end c e =
    if c is Instr.copy
    then plus (address c.secondary_block c.secondary_offset) c.length
    else if c is Instr.flush_and_partial_commit
    then plus (address c.main_block c.main_block_offset) c.length
    else e

-- What the loop's `endPreviousCopy` has to do with the end `e` of the last copy.
pub record Linked (prev : Command) (end e : ℕ) : Type 0 where
  pub copied :
      prev is Instr.copy ≡ true
      → (e ≡ prev.secondary_block + (prev.secondary_offset + prev.length))
        × (end ≡ prev.secondary_block + (prev.secondary_offset + prev.length) % block_size)
        × IsBlock prev.secondary_block
        × (prev.secondary_offset + prev.length ≤ block_size)
  pub continued : prev is Instr.chained_copy ≡ true → (e ≡ end) × (end ≤ cache_address + block_size)
  pub flushed :
      prev is Instr.flush_and_partial_commit ≡ true
      → (e ≡ prev.main_block + prev.length)
        × (end ≡ prev.main_block + prev.length % block_size)
        × IsBlock prev.main_block
        × (prev.length ≤ block_size)

pub Linked-plain : (c : Command) (end e : ℕ) → WellFormed c → Linked c (end_of c end) (next_end c e)
unfolding end_of
Linked-plain c end e h = record {
  copied = λ is_copy. ground (arith, h.copy_fits is_copy, h.secondary_IsBlock, h.offset_small);
  continued = λ is_chained. absurd (ground (arith, h.not_chained));
  flushed =
      λ is_flush. ground (arith, h.flush_fits is_flush, h.flush_start is_flush, h.main_IsBlock);
}

explicit_as-plain :
    (i : Instr) (c : Command) (e : ℕ) (k : ℕ → List PublicCommand)
    → c.command ≡ i
    → WellFormed c
    → explicit_as i e (get_public_command c) k ≡ get_public_command c ∷ k (next_end c e)
explicit_as-plain Instr.chained_copy c e k same h =
    absurd (let wrong : true ≡ false = simp same at h.not_chained in cc)
explicit_as-plain Instr.chained_copy_skip c e k same h =
    absurd (let wrong : true ≡ false = simp same at h.not_skip in cc)
explicit_as-plain Instr.erase c e k same h = simp same
explicit_as-plain Instr.commit c e k same h = simp same
explicit_as-plain Instr.load_and_flush c e k same h = simp same
explicit_as-plain Instr.flush_and_partial_commit c e k same h = simp same
explicit_as-plain Instr.copy c e k same h = simp same
explicit_as-plain Instr.rebase c e k same h = simp same
explicit_as-plain Instr.use_block c e k same h = simp same
explicit_as-plain Instr.release_block c e k same h = simp same
explicit_as-plain Instr.end_of_stream c e k same h = simp same

-- What the loop relies on where it chains a copy.
abbrev pub Continues : Command → (end e : ℕ) → Type 0
Continues c end e =
    (c is Instr.copy ≡ true)
    × (end ≡ e)
    × (plus e (delta_of c end) ≡ address c.secondary_block c.secondary_offset)
    × (delta_of c end ≤ max_skip_length)

pub converted :
    (c prev : Command) (end e : ℕ)
    → WellFormed c
    → Linked prev end e
    → could_convert c prev end ≡ true
    → Continues c end e
unfolding could_convert
converted c prev end e h link conv =
    elim (Bool-cases (prev is Instr.copy && c.secondary_block == prev.secondary_block)) [
      | inl a ↦ ground (arith, link.copied (ground (arith, a)), h.secondary_IsBlock, h.offset_small)
      | inr a ↦
          elim (Bool-cases (prev is Instr.chained_copy && block_of end == c.secondary_block)) [
            | inl b ↦
                ground
                  (arith, link.continued (ground (arith, b)), h.secondary_IsBlock, h.offset_small)
            | inr b ↦ ground (
              arith,
              link.flushed (ground (arith, a, b, conv)),
              h.secondary_IsBlock,
              h.offset_small,
            )
          ]
    ]

LinkedAll : Option Command → (end e : ℕ) → Type 0
LinkedAll none end e = Unit
LinkedAll (some prev) end e = Linked prev end e

could_chain-Continues :
    (back : Option Command) (c : Command) (end e : ℕ)
    → WellFormed c
    → LinkedAll back end e
    → could_chain c back end ≡ some true
    → Continues c end e
unfolding could_chain LinkedAll
could_chain-Continues none c end e h link conv = elim (Bool-cases (c is Instr.copy)) [
  | inl is_copy ↦ absurd (none-some (simp is_copy at conv))
  | inr other ↦ absurd (let wrong : false ≡ true = some_injective (simp other at conv) in cc)
]
could_chain-Continues (some prev) c end e h link conv =
    converted c prev end e h link (some_injective conv)

pub Linked-chained :
    (c : Command) (end e : ℕ)
    → WellFormed c
    → Continues c end e
    → Linked
        (as_chained c)
        (plus (plus end (delta_of c end)) c.length)
        (plus (plus e (delta_of c end)) c.length)
Linked-chained c end e h (is_copy, same, target, short) = record {
  copied = λ x. absurd cc;
  continued = λ _. ground (arith, same, target, h.secondary_IsBlock, h.copy_fits is_copy);
  flushed = λ x. absurd cc;
}

-- A chained copy is the copy again.
as_copy :
    (c : Command) (e : ℕ)
    → c is Instr.copy ≡ true
    → e ≡ address c.secondary_block c.secondary_offset
    → ◌≡◌ {A = PublicCommand}
        (record (get_public_command (as_chained c)) { command = Instr.copy; secondary_address = e })
        (get_public_command c)
as_copy c e is_copy target =
    let same : c.command ≡ Instr.copy =
      instr_number_injective c.command Instr.copy (ground (arith, is_copy)) in
    rw (same, target) refl

passed : {A : Type 0} (test : Bool) (r : Option A) (a : A) → (check test >> r) ≡ some a → r ≡ some a
passed true r a h = h
passed false r a h = absurd (none-some h)

-- The conversion of a command, read back.
explicit-converted :
    (c : Command) (end e : ℕ) (later : List Command)
    → e < word_mod
    → Continues c end e
    → explicit e (
        map get_public_command (
          if delta_of c end == 0
          then as_chained c ∷ later
          else (skip_command (delta_of c end) ∷ as_chained c ∷ later)))
      ≡ get_public_command c
        ∷ explicit (plus (plus e (delta_of c end)) c.length) (map get_public_command later)
unfolding explicit
explicit-converted c end e later small (is_copy, same, target, short) =
    let at = plus e (delta_of c end) in
    let after = λ (p : PublicCommand) (at : ℕ).
      p ∷ explicit (plus at c.length) (map get_public_command later) in
    let read_back = ap (λ p. after p at) (as_copy c at is_copy target) in
    elim (Bool-cases (delta_of c end == 0)) [
      | inr more ↦ simp more read_back
      | inl no_skip ↦
          let here : e ≡ at = ground (arith, small, no_skip) in
          simp no_skip (
            ap
              (λ (x : ℕ).
                after
                  (record (get_public_command (as_chained c)) {
                    command = Instr.copy;
                    secondary_address = x;
                  })
                  x)
              here
            ∙ read_back)
    ]

chain_loop-explicit :
    (commands : List Command) (back : Option Command) (end e : ℕ) (chains : List Command)
    → AllWellFormed commands
    → LinkedAll back end e
    → e < word_mod
    → chain_loop back end commands ≡ some chains
    → explicit e (map get_public_command chains) ≡ map get_public_command commands
unfolding chain_loop explicit LinkedAll
chain_loop-explicit [] back end e chains h link small ran =
    ap (λ (l : List Command). explicit e (map get_public_command l)) (sym (some_injective ran))
chain_loop-explicit (c ∷ rest) back end e chains h link small ran =
    elim (Option-cases (could_chain c back end)) [
      | inl failed ↦ absurd (none-some (simp failed at ran))
      | inr (false, converts) ↦ elim (Option-cases (chain_loop (some c) (end_of c end) rest)) [
        | inl failed ↦ absurd (none-some (simp (converts, failed) at ran))
        | inr (later, ran') ↦
            let whole : c ∷ later ≡ chains = some_injective (simp (converts, ran') at ran) in
            let ih =
              chain_loop-explicit rest (some c) (end_of c end) (next_end c e) later h.1
                (Linked-plain c end e h.0) (ground (arith, small)) ran' in
            rw
              (
                ← whole,
                explicit_as-plain c.command c e (λ at. explicit at (map get_public_command later))
                    refl h.0,
                ih,
              )
              refl
      ]
      | inr (true, converts) ↦
          let d = delta_of c end in
          let next = plus (plus end d) c.length in
          let continues = could_chain-Continues back c end e h.0 link converts in
          elim (Option-cases (chain_loop (some (as_chained c)) next rest)) [
            | inl failed ↦
                absurd (none-some (passed _ none chains (simp (converts, failed) at ran)))
            | inr (later, ran') ↦
                let whole =
                  some_injective (passed _ (some _) chains (simp (converts, ran') at ran)) in
                rw
                  (
                    ← whole,
                    explicit-converted c end e later small continues,
                    chain_loop-explicit rest (some (as_chained c)) next (plus (plus e d) c.length)
                        later h.1 (Linked-chained c end e h.0 continues) (omega arith) ran',
                  )
                  refl
          ]
    ]

-- The chains of createChains abbreviate the commands: as virtualMachine follows them, each chained
-- copy is the copy that it was made of, to the same address. The commands are those of the
-- scheduler: not chained yet, and inside blocks of the flash or the cache.
pub create_chains-explicit :
    (commands chains : List Command)
    → AllWellFormed commands
    → create_chains commands ≡ some chains
    → explicit 0 (map get_public_command chains) ≡ map get_public_command commands
unfolding create_chains LinkedAll
create_chains-explicit commands chains h ran =
    chain_loop-explicit commands none 0 0 chains h tt (omega arith) ran
