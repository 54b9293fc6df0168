-- ===== src/Scheduler/Chains/Returns.antt =====
-- createChains returns.
use ravens.Base.{
  ℕ, ◌^◌, ◌≡◌, refl, inl, inr, Bool-cases, true, false, ◌||◌, some, List, [], ◌∷◌, arith, ◌==◌, leb,
  if◌then◌else◌,
}
use ravens.Encoder.{Instr}
use ravens.Scheduler.{
  Command, ◌is◌, could_convert, could_chain, as_chained, skip_command, delta_of, end_of, chain_loop,
  create_chains,
}
use ravens.VirtualMachine.{max_skip_length}
use ravens.Scheduler.Chains.{
  Linked, Linked-plain, Linked-chained, converted, next_end, AllWellFormed,
}

chain_loop-returns :
    (commands : List Command) (prev : Command) (end e : ℕ)
    → AllWellFormed commands
    → Linked prev end e
    → (chains : List Command) × (chain_loop (some prev) end commands ≡ some chains)
unfolding chain_loop could_chain
chain_loop-returns [] prev end e h link = ([], refl)
chain_loop-returns (c ∷ rest) prev end e h link = elim (Bool-cases (could_convert c prev end)) [
  | inr plain ↦
      let (later, ran) =
        chain_loop-returns rest c (end_of c end) (next_end c e) h.1 (Linked-plain c end e h.0) in
      (c ∷ later, simp (plain, ran))
  | inl converts ↦
      let d = delta_of c end in
      let continues = converted c prev end e h.0 link converts in
      let (later, ran) =
        chain_loop-returns rest (as_chained c) _ _ h.1 (Linked-chained c end e h.0 continues) in
      let short : (d == 0 || leb d max_skip_length || leb (2 ^ 63) d) ≡ true =
        ground (arith, continues.3) in
      (
        (if d == 0 then as_chained c ∷ later else (skip_command d ∷ as_chained c ∷ later)),
        rw (converts, short, ran) refl,
      )
]

-- createChains returns on every sequence of the scheduler's commands that does not begin with a
-- copy: none of its assertions fails.
pub create_chains-returns :
    (c : Command) (rest : List Command)
    → AllWellFormed (c ∷ rest)
    → c is Instr.copy ≡ false
    → (chains : List Command) × (create_chains (c ∷ rest) ≡ some chains)
unfolding create_chains chain_loop could_chain
create_chains-returns c rest h no_copy =
    let (later, ran) =
      chain_loop-returns rest c (end_of c 0) (next_end c 0) h.1 (Linked-plain c 0 0 h.0) in
    (c ∷ later, simp (no_copy, ran))
