-- ===== src/Scheduler/Blocks/Starts.antt =====
-- createChains keeps what the commands begin with.
use ravens.Base.{
  ℕ, ◌≡◌, sym, ap, ◌∙◌, ◌⊎◌, inl, inr, Bool-cases, Bool, true, false, Option, none, some, List, [],
  ◌∷◌, arith,
}
use ravens.Base.Maybe.{Option-cases, some_injective, none-some}
use ravens.Encoder.{Instr}
use ravens.Scheduler.{Command, ◌is◌, could_convert, could_chain, chain_loop, create_chains, end_of}
use ravens.Scheduler.Blocks.Unbracketed.{starts_on_block}

-- No command yet, or a base.
abbrev Based : Option Command → Type 0
Based none = Unit
Based (some prev) = prev is Instr.rebase ≡ true

could_chain-Based :
    (back : Option Command) (c : Command) (end : ℕ)
    → Based back
    → (could_chain c back end ≡ none) ⊎ (could_chain c back end ≡ some false)
unfolding could_chain could_convert
could_chain-Based none c end h = elim (Bool-cases (c is Instr.copy)) [
  | inl is_copy ↦ inl (simp is_copy)
  | inr other ↦ inr (simp other)
]
could_chain-Based (some prev) c end h = inr (ap (λ (b : Bool). some b) (ground (arith, h)))

chain_loop-starts :
    (commands : List Command) (back : Option Command) (end : ℕ) (chains : List Command)
    → Based back
    → starts_on_block commands ≡ true
    → chain_loop back end commands ≡ some chains
    → starts_on_block chains ≡ true
unfolding chain_loop starts_on_block
chain_loop-starts [] back end chains h starts ran =
    ap starts_on_block (sym (some_injective ran)) ∙ starts
chain_loop-starts (c ∷ rest) back end chains h starts ran = elim (could_chain-Based back c end h) [
  | inl failed ↦ absurd (none-some (simp failed at ran))
  | inr plain ↦ elim (Option-cases (chain_loop (some c) (end_of c end) rest)) [
    | inl failed ↦ absurd (none-some (simp (plain, failed) at ran))
    | inr (later, ran') ↦
        let whole : c ∷ later ≡ chains = some_injective (simp (plain, ran') at ran) in
        elim (Bool-cases (c is Instr.rebase)) [
          | inl base ↦
              rw (← whole, base)
                (chain_loop-starts rest (some c) (end_of c end) later base (simp base at starts)
                  ran')
          | inr other ↦ rw (← whole, other) (simp other at starts)
        ]
  ]
]

pub create_chains-starts :
    (commands chains : List Command)
    → starts_on_block commands ≡ true
    → create_chains commands ≡ some chains
    → starts_on_block chains ≡ true
unfolding create_chains
create_chains-starts commands chains starts ran =
    chain_loop-starts commands none 0 chains tt starts ran
