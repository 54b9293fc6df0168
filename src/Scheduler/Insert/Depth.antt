-- ===== src/Scheduler/Insert/Depth.antt =====
-- The call that insertCommand makes of itself.
use ravens.Base.{
  ◌≡◌, refl, inl, inr, Bool-cases, Bool, true, false, ◌&&◌, Option, some, arith, ◌==◌,
}
use ravens.Base.Maybe.{Option-cases}
use ravens.Encoder.{Instr}
use ravens.Scheduler.{Command, ◌is◌, is_erase_like, perform_trivial_optimization}
use ravens.VirtualMachine.{plus}
use ravens.Scheduler.Insert.{
  SchedulerData, Edit, Insert, continues, edit_same_block, edit_from_cache, edit_of, previous,
  set_previous, pop_back, append_command, perform_edit, insert_optimized, insert_depth,
  insert_command, back_is_rebase, erases_same,
}

abbrev is_extend : Edit → Bool
is_extend (Edit.extend p) = true
is_extend _ = false

-- Only a copy extends a copy.
edit_of-no_copy :
    (in_progress : Bool) (prev c : Command)
    → c is Instr.copy ≡ false
    → is_extend (edit_of in_progress prev c) ≡ false
unfolding edit_of edit_same_block edit_from_cache
edit_of-no_copy in_progress prev c no_copy =
    let apart : continues prev c ≡ false = ground (arith, no_copy) in rw apart (ground arith)

perform_edit-no_copy :
    (again again' : Insert) (e : Edit) (c : Command) (s : SchedulerData)
    → is_extend e ≡ false
    → perform_edit again e c s ≡ perform_edit again' e c s
unfolding perform_edit
perform_edit-no_copy again again' Edit.add c s h = refl
perform_edit-no_copy again again' Edit.keep c s h = refl
perform_edit-no_copy again again' Edit.remove c s h = refl
perform_edit-no_copy again again' (Edit.amend p) c s h = refl
perform_edit-no_copy again again' (Edit.extend p) c s h = absurd cc

-- It returns.
abbrev Returns : Option SchedulerData → Type 0
Returns r = (s : SchedulerData) × (r ≡ some s)

-- What the previous copy becomes where it is extended.
abbrev Extends : Edit → Type 0
Extends (Edit.extend p) = is_erase_like false p ≡ false
Extends _ = Unit

extended-Extends :
    (prev c : Command)
    → prev is Instr.copy ≡ true
    → is_erase_like false
        (perform_trivial_optimization (record prev { length = plus prev.length c.length }))
      ≡ false
unfolding perform_trivial_optimization
extended-Extends prev c copies = ground (arith, copies)

Extends-no_extend : (e : Edit) → is_extend e ≡ false → Extends e
Extends-no_extend Edit.add h = tt
Extends-no_extend Edit.keep h = tt
Extends-no_extend Edit.remove h = tt
Extends-no_extend (Edit.amend p) h = tt
Extends-no_extend (Edit.extend p) h = absurd cc

edit_same_block-Extends :
    (in_progress : Bool) (prev c : Command) → Extends (edit_same_block in_progress prev c)
unfolding edit_same_block
edit_same_block-Extends in_progress prev c = elim (Bool-cases (continues prev c)) [
  | inl goes_on ↦ elim (Bool-cases in_progress) [
    | inl runs ↦ simp (goes_on, runs) (extended-Extends prev c (ground (arith, goes_on)))
    | inr waits ↦ simp (goes_on, waits) tt
  ]
  | inr apart ↦ Extends-no_extend _ (rw apart (ground arith))
]

edit_of-Extends : (in_progress : Bool) (prev c : Command) → Extends (edit_of in_progress prev c)
unfolding edit_of edit_from_cache
edit_of-Extends in_progress prev c = elim (Bool-cases (prev.main_block == c.main_block)) [
  | inl same ↦ simp same (edit_same_block-Extends in_progress prev c)
  | inr other ↦ Extends-no_extend _ (rw other (ground arith))
]

-- The call that insertCommand makes of itself returns, on commands like those that it is about.
abbrev Again : Insert → Type 0
Again again =
    (p : Command) (s : SchedulerData)
    → p is Instr.copy ≡ false
    → is_erase_like false p ≡ false
    → Returns (again p s)

perform_edit-Returns :
    (again : Insert) (e : Edit) (c : Command) (s : SchedulerData)
    → Again again
    → Extends e
    → Returns (perform_edit again e c s)
unfolding perform_edit
perform_edit-Returns again Edit.add c s h ext = (_, refl)
perform_edit-Returns again Edit.keep c s h ext = (_, refl)
perform_edit-Returns again Edit.remove c s h ext = (_, refl)
perform_edit-Returns again (Edit.amend p) c s h ext = (_, refl)
perform_edit-Returns again (Edit.extend p) c s h ext = elim (Bool-cases (p is Instr.copy)) [
  | inl copies ↦ (record s { commands = set_previous p s.commands }, simp copies)
  | inr other ↦
      let (behind, returns) =
        h p (record s { commands = pop_back (set_previous p s.commands) }) other ext in
      (behind, simp other returns)
]

-- The assertion of insertCommand holds.
abbrev Asserts : Command → SchedulerData → Type 0
Asserts c s = (prev : Command) → previous s.commands ≡ some prev → erases_same prev c ≡ true

insert_optimized-Returns :
    (again : Insert) (c : Command) (s : SchedulerData)
    → ((prev : Command)
        → Returns (perform_edit again (edit_of s.transaction_in_progress prev c) c s))
    → Asserts c s
    → Returns (insert_optimized again c s)
unfolding insert_optimized
insert_optimized-Returns again c s h holds = elim (Bool-cases (c is Instr.copy && c.length == 0)) [
  | inl empty ↦ (s, simp empty)
  | inr some_length ↦ elim (Bool-cases (c is Instr.rebase)) [
    | inl base ↦ elim (Bool-cases (back_is_rebase s.commands)) [
      | inl again ↦ (s, simp (some_length, base, again))
      | inr new ↦ (append_command c s, simp (some_length, base, new))
    ]
    | inr other ↦ elim (Option-cases (previous s.commands)) [
      | inl first ↦ (append_command c s, simp (some_length, other, first))
      | inr (prev, before) ↦
          let (behind, returns) = h prev in
          (behind, simp (some_length, other, before, holds prev before, returns))
    ]
  ]
]

-- The optimization of a command makes no other command that erases, and no copy.
trivial-erases_same :
    (prev c : Command)
    → erases_same prev c ≡ true
    → erases_same prev (perform_trivial_optimization c) ≡ true
unfolding perform_trivial_optimization
trivial-erases_same prev c h = ground (arith, h)

trivial-no_copy :
    (c : Command) → c is Instr.copy ≡ false → (perform_trivial_optimization c is Instr.copy) ≡ false
unfolding perform_trivial_optimization
trivial-no_copy c h = ground (arith, h)

trivial-no_erase :
    (c : Command)
    → is_erase_like false c ≡ false
    → is_erase_like false (perform_trivial_optimization c) ≡ false
unfolding perform_trivial_optimization
trivial-no_erase c h = ground (arith, h)

insert_depth-Again : Again (insert_depth 1)
unfolding insert_depth
insert_depth-Again p s no_copy no_erase =
    let c = perform_trivial_optimization p in
    insert_optimized-Returns (insert_depth 0) c s
      (λ prev.
        rw
          (perform_edit-no_copy (insert_depth 0) (λ _ s. some s)
            (edit_of s.transaction_in_progress prev c) c s
            (edit_of-no_copy s.transaction_in_progress prev c (trivial-no_copy p no_copy)))
          (perform_edit-Returns (λ _ s. some s) _ c s (λ _ s _ _. (s, refl))
            (edit_of-Extends s.transaction_in_progress prev c)))
      (λ prev before. ground (arith, trivial-no_erase p no_erase))

-- insertCommand returns on every data where its assertion holds of the command: the call that it makes
-- of itself returns without another one.
pub insert_command-Returns :
    (c : Command) (s : SchedulerData) → Asserts c s → Returns (insert_command c s)
unfolding insert_command insert_depth
insert_command-Returns c s holds =
    let d = perform_trivial_optimization c in
    insert_optimized-Returns (insert_depth 1) d s
      (λ prev.
        perform_edit-Returns (insert_depth 1) _ d s insert_depth-Again
          (edit_of-Extends s.transaction_in_progress prev d))
      (λ prev before. trivial-erases_same prev c (holds prev before))
