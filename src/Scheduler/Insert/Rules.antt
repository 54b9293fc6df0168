-- ===== src/Scheduler/Insert/Rules.antt =====
-- The rules of insertCommand that change the previous command, one by one.
use ravens.Base.{
  ℕ, ◌≤◌, ◌≡◌, refl, subst, sym, ap, ◌∙◌, inl, inr, Bool-cases, Bool, true, false, ◌&&◌, some,
  arith, ◌==◌, if◌then◌else◌,
}
use ravens.Encoder.{Instr, cache_address}
use ravens.Encoder.Validate.{instr_number_injective}
use ravens.Flash.{block_size}
use ravens.Scheduler.{Command, ◌is◌, address, is_load, is_commit_like, get_public_command}
use ravens.Scheduler.Chains.{WellFormed}
use ravens.Scheduler.Insert.{Edit}
use ravens.Scheduler.Insert.Amend.{
  erase_commit, flush_erase, flush_load, erase_copy, flush_copy, load_erase,
}
use ravens.VirtualMachine.{Vm, plus, step_as, step}
use ravens.VirtualMachine.Explicit.{Shadows}

-- A command of the scheduler that is no copy names the beginning of its block.
pub record Insertable (c : Command) : Type 0 where
  pub well_formed : WellFormed c
  pub block_start : c is Instr.copy ≡ false → c.main_block_offset ≡ 0

abbrev target : Edit → Command → Command
target (Edit.amend p) q = p
target _ q = q

abbrev is_amend : Edit → Bool
is_amend (Edit.amend p) = true
is_amend _ = false

pub not_amend : (e : Edit) (p : Command) → is_amend e ≡ false → e ≡ Edit.amend p → ⊥
not_amend e p h g = let wrong : false ≡ true = sym h ∙ ap is_amend g in cc

-- The cases of insertCommand from the erasing of a block that was loaded on.
abbrev kept_cases : (prev c : Command) → Edit
kept_cases prev c =
    if c is Instr.commit && prev is Instr.load_and_flush
    then Edit.remove
    else if c is Instr.erase && prev is Instr.erase
    then Edit.keep
    else Edit.add

abbrev pub last_cases : (prev c : Command) → Edit
last_cases prev c =
    if c is Instr.erase && is_load prev
    then Edit.amend (record prev {
      command = Instr.load_and_flush;
      secondary_block = 0;
      secondary_offset = 0;
      length = 0;
    })
    else if c is Instr.commit && prev is Instr.erase
    then Edit.amend (record prev { command = Instr.flush_and_partial_commit; length = block_size })
    else if c is Instr.load_and_flush && is_commit_like prev
    then (if prev is Instr.flush_and_partial_commit && prev.length == block_size
        then Edit.amend (record prev { command = Instr.erase })
        else Edit.keep)
    else kept_cases prev c

pub kept_cases-amend : (prev c p : Command) → kept_cases prev c ≡ Edit.amend p → ⊥
kept_cases-amend prev c p e =
    elim (Bool-cases (c is Instr.commit && prev is Instr.load_and_flush)) [
      | inl r7 ↦ not_amend Edit.remove p refl (simp r7 at e)
      | inr r7 ↦
          let e7 = simp r7 at e in
          elim (Bool-cases (c is Instr.erase && prev is Instr.erase)) [
            | inl r8 ↦ not_amend Edit.keep p refl (simp r8 at e7)
            | inr r8 ↦ not_amend Edit.add p refl (simp r8 at e7)
          ]
    ]

module _ (n : ℕ) (low : n ≤ cache_address) (vm middle after : Vm) where
  abbrev Performs : Command → Vm → Vm → Type 0
  Performs c before behind = step n (get_public_command c) before ≡ some behind

  as_instr :
      (c : Command) (i : Instr) (before behind : Vm)
      → c is i ≡ true
      → Performs c before behind
      → step_as i n (get_public_command c) before ≡ some behind
  as_instr c i before behind is_i h =
      subst (λ (j : Instr). step_as j n (get_public_command c) before ≡ some behind)
        (instr_number_injective c.command i (ground (arith, is_i))) h

  pub lands :
      (x p : Command)
      → Edit.amend x ≡ Edit.amend p
      → Shadows (step n (get_public_command x) vm) after
      → Shadows (step n (get_public_command p) vm) after
  lands x p e h =
      subst (λ (y : Command). Shadows (step n (get_public_command y) vm) after)
        (ap (λ (d : Edit). target d x) e) h

  module _ (prev c : Command) (ok_prev : Insertable prev) (ok_c : Insertable c)
      (h : Performs prev vm middle) (g : Performs c middle after) where
    same_start :
        prev.main_block ≡ c.main_block
        → prev.main_block_offset ≡ 0
        → c.main_block_offset ≡ 0
        → address c.main_block c.main_block_offset ≡ address prev.main_block prev.main_block_offset
    same_start same at_prev at_c = rw (same, at_prev, at_c) refl

    pub flushed_erase :
        prev.main_block ≡ c.main_block
        → prev is Instr.flush_and_partial_commit ≡ true
        → c is Instr.erase ≡ true
        → Shadows (step n (get_public_command (record prev { command = Instr.erase })) vm) after
    flushed_erase same flushes erases =
        flush_erase n (get_public_command prev) (get_public_command c) _ vm middle after
          (same_start same (ok_prev.block_start (ground (arith, flushes)))
            (ok_c.block_start (ground (arith, erases))))
          refl (as_instr prev Instr.flush_and_partial_commit vm middle flushes h)
          (as_instr c Instr.erase middle after erases g)

    pub flushed_load :
        prev.main_block ≡ c.main_block
        → prev is Instr.flush_and_partial_commit ≡ true
        → prev.length ≡ block_size
        → c is Instr.load_and_flush ≡ true
        → Shadows (step n (get_public_command (record prev { command = Instr.erase })) vm) after
    flushed_load same flushes whole loads =
        flush_load n (get_public_command prev) (get_public_command c) _ vm middle after
          (same_start same (ok_prev.block_start (ground (arith, flushes)))
            (ok_c.block_start (ground (arith, loads))))
          refl whole (as_instr prev Instr.flush_and_partial_commit vm middle flushes h)
          (as_instr c Instr.load_and_flush middle after loads g)

    pub erased_commit :
        prev.main_block ≡ c.main_block
        → prev is Instr.erase ≡ true
        → c is Instr.commit ≡ true
        → Shadows
            (step n
              (get_public_command
                (record prev { command = Instr.flush_and_partial_commit; length = block_size }))
              vm)
            after
    erased_commit same erases commits =
        erase_commit n (get_public_command prev) (get_public_command c) _ vm middle after
          (same_start same (ok_prev.block_start (ground (arith, erases)))
            (ok_c.block_start (ground (arith, commits))))
          refl refl (as_instr prev Instr.erase vm middle erases h)
          (as_instr c Instr.commit middle after commits g)

    pub loaded_erase :
        prev.main_block ≡ c.main_block
        → is_load prev ≡ true
        → c is Instr.erase ≡ true
        → Shadows
            (step n
              (get_public_command (record prev {
                command = Instr.load_and_flush;
                secondary_block = 0;
                secondary_offset = 0;
                length = 0;
              }))
              vm)
            after
    loaded_erase same loads erases =
        load_erase n (get_public_command prev) (get_public_command c) _ vm middle after low
          (same_start same (ground (arith, loads)) (ok_c.block_start (ground (arith, erases)))) refl
          (ground (arith, loads)) (ground (arith, loads))
          (as_instr prev Instr.copy vm middle (ground (arith, loads)) h)
          (as_instr c Instr.erase middle after erases g)

    pub erased_copy :
        prev is Instr.erase ≡ true
        → c is Instr.copy ≡ true
        → c.main_block ≡ cache_address
        → c.main_block_offset ≡ 0
        → c.secondary_block ≡ prev.main_block
        → c.secondary_offset ≡ 0
        → Shadows
            (step n
              (get_public_command
                (record prev { command = Instr.flush_and_partial_commit; length = c.length }))
              vm)
            after
    erased_copy erases copies from at to dest =
        erase_copy n 0 (get_public_command prev) (get_public_command c) _ vm middle after low
          (omega arith) refl (rw (from, at) refl)
          (omega (
            arith,
            to,
            dest,
            ok_prev.block_start (ground (arith, erases)),
            ok_prev.well_formed.main_IsBlock,
          ))
          (omega (arith, ok_c.well_formed.copy_fits copies)) refl refl
          (as_instr prev Instr.erase vm middle erases h)
          (as_instr c Instr.copy middle after copies g)

    pub flushed_copy :
        prev is Instr.flush_and_partial_commit ≡ true
        → c is Instr.copy ≡ true
        → c.main_block ≡ cache_address
        → c.secondary_block ≡ prev.main_block
        → c.main_block_offset ≡ c.secondary_offset
        → c.main_block_offset ≡ prev.length
        → Shadows
            (step n (get_public_command (record prev { length = plus prev.length c.length })) vm)
            after
    unfolding step_as
    flushed_copy flushes copies from to at begin =
        let start = ok_prev.block_start (ground (arith, flushes)) in
        let fits = ok_c.well_formed.copy_fits copies in
        let flush : prev.command ≡ Instr.flush_and_partial_commit =
          instr_number_injective prev.command Instr.flush_and_partial_commit
            (ground (arith, flushes)) in
        rw flush (
          flush_copy n prev.length (get_public_command prev) (get_public_command c)
            (get_public_command (record prev { length = plus prev.length c.length })) vm middle
            after low (omega (arith, fits, ok_c.well_formed.offset_small)) refl
            (omega (arith, from, begin, ok_c.well_formed.offset_small))
            (omega (arith, to, at, begin, start, ok_prev.well_formed.main_IsBlock))
            (omega (arith, fits)) refl (omega (arith, fits, begin, at))
            (as_instr prev Instr.flush_and_partial_commit vm middle flushes h)
            (as_instr c Instr.copy middle after copies g))
