-- ===== src/Boot.antt =====
-- bootloaderPerformUpdate of munin/core.c.
pub mod Authentic
pub mod Null
use ravens.Base.{
  ℕ, ◌+◌, ◌%◌, Bool, true, false, not, ◌||◌, Option, none, some, ◌==◌, leb, if◌then◌else◌,
}
use ravens.Bytecode.{run_commands}
use ravens.Counter.{get_current_counter}
use ravens.Critical.{set_irq, start_update, conclude_update, validate_critical_metadata}
use ravens.Delta.Apply.{apply_delta_patch}
use ravens.Device.{M, pure, get, ◌>>=◌, ◌>>◌, read_le}
use ravens.Flash.{block_size, flash_size}
use ravens.Metadata.{at_location, get_metadata, header_size, header_manifest_length}
use ravens.Platform.{Platform}
use ravens.Validation.{validate_header, validate_image}

-- How bootloaderPerformUpdate ends.
pub data Outcome : Type 0 where
  returned rebooted : Outcome

-- `traceCounter`, whose address is never NULL here.
abbrev pub trace_or_zero : Option ℕ → ℕ
trace_or_zero none = 0
trace_or_zero (some trace) = trace

module _ (p : Platform) where
  -- `return enableIRQ();`
  abbrev pub no_update : M (Option ℕ)
  no_update = do set_irq p true; pure none

  -- The header of the update to install, or `none` where bootloaderPerformUpdate returns.
  unfoldable pub authentic_update : M (Option ℕ)
  authentic_update = do
    validate_critical_metadata p
    set_irq p false
    current ← get_metadata p
    d ← get
    let header = read_le d.nand (current + at_location) 4
    if not (header % block_size == 0) || leb flash_size header
        then no_update
        else if not (validate_header p d.nand header)
        then no_update
        else if not (validate_image p d.nand header)
        then no_update
        else pure (some header)

  -- `return concludeUpdate(true);`
  abbrev pub give_up : M Outcome
  give_up = do conclude_update p true; pure returned

  -- runCommands on the bytecode behind the header, from its start.
  abbrev pub run_update :
      (header permanent : ℕ) (dry_run : Bool) → (chain : Bool × ℕ) → M (Bool × ℕ × Option ℕ)
  run_update header permanent dry_run chain d =
      run_commands p (header + header_size) 0 (read_le d.nand (header + header_manifest_length) 4)
        (some 0) permanent dry_run chain d

  -- The update, once both dry runs have succeeded.
  unfoldable pub install : (fuel header permanent : ℕ) → (chain : Bool × ℕ) → M Outcome
  install fuel header permanent chain = do
    (good, index, trace) ← run_update header permanent false chain
    apply_delta_patch p fuel header index (trace_or_zero trace) permanent false
    conclude_update p false
    pure rebooted

  -- The dry runs, and the update.
  unfoldable pub try_update : (fuel header : ℕ) → (chain chain' : Bool × ℕ) → M Outcome
  try_update fuel header chain chain' = do
    started ← start_update p
    if not started then give_up else do
      permanent ← get_current_counter p
      (good, index, trace) ← run_update header permanent true chain
      if not good then give_up else do
        patches ← apply_delta_patch p fuel header index (trace_or_zero trace) permanent true
        if not patches then give_up else install fuel header permanent chain'

  -- bootloaderPerformUpdate. `fuel` bounds the rounds of applyDeltaPatch, and the chains are the
  -- uninitialised variables of the two calls of runCommands.
  unfoldable pub bootloader_perform_update : (fuel : ℕ) → (chain chain' : Bool × ℕ) → M Outcome
  bootloader_perform_update fuel chain chain' = do
    update ← authentic_update
    elim update [ none ↦ pure returned | some header ↦ try_update fuel header chain chain' ]
