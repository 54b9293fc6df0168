-- ===== src/Bytecode/Halts.antt =====
-- runCommands terminates: every instruction takes bits from a stream that is bounded.
use ravens.Base.{
  ℕ, zero, suc, ◌+◌, ◌*◌, ◌≤◌, ◌<◌, not, ◌&&◌, arith, ◌%◌, ◌^◌, Bool, true, false, Option, none,
  some, ◌==◌, if◌then◌else◌,
}
use ravens.Base.Memory.{shift}
use ravens.Bytecode.{
  Progress, deref, command, chained_opcode, is_end, erase_with_backup, copy_step, process_basic,
  process_as, process_instruction, command_round, command_loop, run_commands,
}
use ravens.Copy.{perform_copy, flush_copy_cache}
use ravens.Copy.Halts.{perform_copy-Halts, flush_copy_cache-Halts}
use ravens.Counter.{get_current_counter, increment_counter, backup_cache, restore_cache}
use ravens.Counter.Halts.{get_current_counter-Halts, increment_counter-Halts, backup_cache-Halts}
use ravens.Decoder.{
  Opcode, Context, Command, load_flush, commit, flush_commit, copy_nn, copy_nc, copy_cn, copy_cc,
  chained_copy_n, chained_copy_c, decode_instruction,
}
use ravens.Decoder.Forward.{Between}
use ravens.Decoder.Forward.Instruction.{decode_instruction-Between}
use ravens.Decoder.Reader.{size_mod}
use ravens.Device.Halts.{Halts, bind, seq, branch, erase-Halts}
use ravens.Device.{M, pure, skip, ◌>>=◌, ◌>>◌, erase}
use ravens.Platform.{Platform}

deref-Halts : (fast : Option Bool) → Halts (deref fast)
deref-Halts none d = tt
deref-Halts (some fast) d = tt

module _ (p : Platform) where
  erase_with_backup-Halts :
      (c : Command) (steps : ℕ) (s : Progress) → Halts (erase_with_backup p c steps s)
  unfolding erase_with_backup
  erase_with_backup-Halts c steps s = seq (flush_copy_cache p) _ (flush_copy_cache-Halts p) (
      bind (get_current_counter p) _ (get_current_counter-Halts p) λ old.
        bind (increment_counter p steps old s.fast_forward) _
          (increment_counter-Halts p steps old s.fast_forward)
          λ (steps1, fast1). bind (deref fast1) _ (deref-Halts fast1) λ skip_backup.
            seq (if skip_backup then skip else backup_cache p steps1) _
              (branch skip_backup skip (backup_cache p steps1) (λ d. tt)
                (backup_cache-Halts p steps1))
              (bind (increment_counter p steps1 old fast1) _
                (increment_counter-Halts p steps1 old fast1)
                λ (steps2, fast2). bind (deref fast2) _ (deref-Halts fast2) λ skip_erase.
                  seq (if skip_erase then skip else erase p c.main_address) _
                    (branch skip_erase skip (erase p c.main_address) (λ d. tt)
                      (erase-Halts p c.main_address))
                    (λ d. tt)))

  copy_step-Halts :
      (op : Opcode) (to_cache : Bool) (c : Command) (s : Progress)
      → Halts (copy_step p op to_cache c s)
  unfolding copy_step
  copy_step-Halts op to_cache c s = by_count s.step_count
    where
      next : Progress
      next = record s {
        is_cache = to_cache;
        chain_address = (c.secondary_address + c.length) % size_mod % 2 ^ 31;
      }

      by_count :
          (count : Option ℕ)
          → Halts {A = Bool × Progress} (elim count [
            | none ↦ pure (true, next)
            | some steps ↦ do
              fast ← deref s.fast_forward
              (if fast then skip else perform_copy p op c)
              pure (true, next)
          ])
      by_count none = λ d. tt
      by_count (some steps) = bind (deref s.fast_forward) _ (deref-Halts s.fast_forward) λ fast.
          seq (if fast then skip else perform_copy p op c) _
            (branch fast skip (perform_copy p op c) (λ d. tt) (perform_copy-Halts p op c)) (λ d. tt)

  erase_step-Halts :
      (c : Command) (s : Progress) (count : Option ℕ)
      → Halts {A = Bool × Progress}
          (elim count [ none ↦ pure (true, s) | some steps ↦ erase_with_backup p c steps s ])
  erase_step-Halts c s none = λ d. tt
  erase_step-Halts c s (some steps) = erase_with_backup-Halts c steps s

  process_basic-Halts : (op : Opcode) (c : Command) (s : Progress) → Halts (process_basic p op c s)
  unfolding process_basic
  process_basic-Halts Opcode.erase c s = erase_step-Halts c s s.step_count
  process_basic-Halts copy_nc c s = copy_step-Halts copy_nc true c s
  process_basic-Halts copy_cc c s = copy_step-Halts copy_cc true c s
  process_basic-Halts copy_nn c s = copy_step-Halts copy_nn false c s
  process_basic-Halts copy_cn c s = copy_step-Halts copy_cn false c s
  process_basic-Halts _ c s = λ d. tt

  both-Halts :
      (first second : Command) (s : Progress)
      → Halts (
          process_basic p first.command first s >>= λ (good, s').
          if good then process_basic p second.command second s' else pure (false, s'))
  both-Halts first second s =
      bind (process_basic p first.command first s) _ (process_basic-Halts first.command first s)
        λ (good, s').
          branch good (process_basic p second.command second s') (pure (false, s'))
            (process_basic-Halts second.command second s') (λ d. tt)

  process_as-Halts : (op : Opcode) (c : Command) (s : Progress) → Halts (process_as p op c s)
  unfolding process_as
  process_as-Halts flush_commit c s =
      both-Halts (command Opcode.erase c.main_address 0 0)
        (command copy_cn 0 c.main_address c.length) s
  process_as-Halts load_flush c s =
      both-Halts (command copy_nc c.main_address 0 4096) (command Opcode.erase c.main_address 0 0) s
  process_as-Halts commit c s =
      process_basic-Halts copy_cn (command copy_cn 0 c.main_address 4096) s
  process_as-Halts chained_copy_c c s =
      process_basic-Halts (chained_opcode true s.is_cache)
        (command (chained_opcode true s.is_cache) c.main_address s.chain_address c.length) s
  process_as-Halts chained_copy_n c s =
      process_basic-Halts (chained_opcode false s.is_cache)
        (command (chained_opcode false s.is_cache) c.main_address s.chain_address c.length) s
  process_as-Halts op c s = process_basic-Halts op c s

  -- One round takes four bits, so that the fuel goes down with the bits that are left.
  command_round-Halts :
      (next : Context → Progress → ℕ → M (Bool × ℕ × Progress)) (s : Progress) (low high : ℕ)
      (decoded : Option ((Bool × Context × Command) × ℕ))
      → Between low high decoded
      → ((ctx : Context) (t : Progress) (off : ℕ) → low ≤ off → off ≤ high → Halts (next ctx t off))
      → Halts (command_round p next s decoded)
  unfolding command_round process_instruction
  command_round-Halts next s low high none b more = λ d. tt
  command_round-Halts next s low high (some ((good, ctx, c), off)) b more =
      branch (good && not (is_end c.command)) _ _
        (bind (process_as p c.command c s) _ (process_as-Halts c.command c s) λ (done, t).
          branch done (next ctx t off) (pure (false, off, t)) (more ctx t off b.0 b.1) (λ d. tt))
        (λ d. tt)

  command_loop-Halts :
      (fuel base length : ℕ) (ctx : Context) (s : Progress) (off : ℕ)
      → 256 * length < size_mod
      → off ≤ 256 * length
      → 256 * length < off + 4 * fuel
      → Halts (command_loop p fuel base length ctx s off)
  unfolding command_loop
  command_loop-Halts zero base length ctx s off fits inside enough d = absurd (omega arith)
  command_loop-Halts (suc fuel) base length ctx s off fits inside enough d =
      command_round-Halts (command_loop p fuel base length) s (off + 4) (256 * length)
        (decode_instruction (shift d.nand base) length ctx off)
        (decode_instruction-Between (shift d.nand base) length fits ctx off inside)
        (λ ctx' t off' lo hi. command_loop-Halts fuel base length ctx' t off' fits hi (omega arith))
        d

  -- runCommands terminates on every stream of less than 16 MB, whatever its bytes and the device: its
  -- loop ends before the fuel does.
  pub run_commands-Halts :
      (base off length : ℕ) (trace : Option ℕ) (old_counter : ℕ) (dry_run : Bool) (chain : Bool × ℕ)
      → 256 * length < size_mod
      → off ≤ 256 * length
      → Halts (run_commands p base off length trace old_counter dry_run chain)
  unfolding run_commands restore_cache
  run_commands-Halts base off length trace old_counter dry_run chain fits inside =
      seq (if not dry_run && not (old_counter == 0) then skip_or_restore else skip) _
        (branch (not dry_run && not (old_counter == 0)) skip_or_restore skip (λ d. tt) (λ d. tt))
        (bind (command_loop p (64 * length + 1) base length _ _ off) _
          (command_loop-Halts (64 * length + 1) base length _ _ off fits inside (omega arith))
          (λ out d. tt))
    where
      skip_or_restore : M (Unit {0})
      skip_or_restore = restore_cache p old_counter
