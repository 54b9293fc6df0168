-- ===== src/VirtualMachine.antt =====
-- hugin/Scheduler/virtual_machine.cpp: the machine that the host runs a patch on before it sends it.
-- `none` is a failed assertion. The pointers are valid and malloc returns memory.
pub mod Write
pub mod Explicit
pub mod Frame
pub mod Swap
pub mod Chains
pub mod Patch
mod Examples
use ravens.Base.{
  ℕ, zero, suc, ◌+◌, ◌-◌, ◌%◌, ◌*◌, ◌≤◌, ◌<◌, Bool, true, false, not, ◌&&◌, ◌||◌, Option, none,
  some, List, [], ◌∷◌, ◌==◌, leb, ltb, if◌then◌else◌,
}
use ravens.Base.Memory.{Bytes, shift, blit, fill}
use ravens.Base.Maybe.{◌>>=◌, ◌>>◌, check}
use ravens.Encoder.{Instr, PublicCommand, cache_address, word_mod}
use ravens.Flash.{block_size}

-- isCache
unfoldable pub is_cache : ℕ → Bool
is_cache address = leb cache_address address && leb address (cache_address + 4095)

-- MAX_SKIP_LENGTH
abbrev pub max_skip_length : ℕ
max_skip_length = 63

-- Addition of `size_t`.
abbrev pub plus : ℕ → ℕ → ℕ
plus a b = (a + b) % word_mod

-- `&flash[a]` or `&cache[a]`.
pub data Pointer : Type 0 where
  in_flash in_cache : ℕ → Pointer

-- The flash, the cache and the locals of virtualMachine.
pub record Vm : Type 0 where
  pub flash : Bytes
  pub cache : Bytes
  pub previous_write_was_copy : Bool
  pub end_previous_copy : ℕ

-- The memory behind a pointer as it is now.
abbrev pub at_pointer : Pointer → Vm → Bytes
at_pointer (in_flash a) vm = shift vm.flash a
at_pointer (in_cache a) vm = shift vm.cache a

abbrev pub next : Pointer → Pointer
next (in_flash a) = in_flash (a + 1)
next (in_cache a) = in_cache (a + 1)

-- writeFlash with STRICT_VM: byte by byte, so that a byte that it wrote may be one that it reads.
unfoldable pub write_flash : (dest : ℕ) (source : Pointer) (length : ℕ) → Vm → Option Vm
write_flash dest source zero vm = some vm
write_flash dest source (suc length) vm = do
  check (vm.flash dest == 0xff)
  write_flash (dest + 1) (next source) length
      (record vm { flash = blit vm.flash dest 1 (at_pointer source vm) })

-- The assertions of performCopy on one of its addresses.
unfoldable pub fits : (flash_length address length : ℕ) → Bool
fits flash_length address length =
    if is_cache address
    then is_cache ((address + length + word_mod - 1) % word_mod)
    else (ltb address flash_length && leb (plus address length) flash_length)

-- The end of performCopy: memmove, memcpy or writeFlash.
unfoldable pub copy_bytes : (source length dest : ℕ) → Vm → Option Vm
copy_bytes source length dest vm =
    if is_cache dest
    then some (record vm {
      cache =
          blit vm.cache (dest % block_size) length (
            if is_cache source
            then shift vm.cache (source % block_size)
            else shift vm.flash source);
    })
    else if is_cache source
    then write_flash dest (in_cache (source % block_size)) length vm
    else write_flash dest (in_flash source) length vm

-- performCopy
unfoldable pub perform_copy : (flash_length source length dest : ℕ) → Vm → Option Vm
perform_copy flash_length source length dest vm = do
  check (leb (plus (dest % block_size) length) block_size)
  check (fits flash_length source length)
  check (fits flash_length dest length)
  copy_bytes source length dest vm

-- checkAligned
unfoldable pub check_aligned : (flash_length address : ℕ) → Option (Unit {0})
check_aligned flash_length address = do
  check (address % block_size == 0)
  check (ltb address flash_length)

-- `memset(&flash[address], DEFAULT_NAND_VALUE, BLOCK_SIZE)`
abbrev pub erased : ℕ → Vm → Vm
erased address vm = record vm { flash = fill vm.flash address block_size 0xff }

-- `isChainCompatibleOperation` is true, and a copy ends at `end`.
abbrev pub chain : ℕ → Vm → Vm
chain end vm = record vm { previous_write_was_copy = true; end_previous_copy = end }

abbrev pub unchain : Vm → Vm
unchain vm = record vm { previous_write_was_copy = false }

-- The assertions of CHAINED_COPY_SKIP.
unfoldable pub may_skip : (flash_length end length : ℕ) → Bool
may_skip flash_length end length =
    leb length max_skip_length
    && (if is_cache end
        then is_cache (plus end length)
        else (ltb end flash_length && ltb (plus end length) flash_length))

-- The switch of virtualMachine, but for END_OF_STREAM.
unfoldable pub step_as : Instr → (flash_length : ℕ) → PublicCommand → Vm → Option Vm
step_as Instr.commit n c vm = do
  check_aligned n c.main_address
  some (unchain (record vm { flash = blit vm.flash c.main_address block_size vm.cache }))
step_as Instr.erase n c vm = do
  check_aligned n c.main_address
  some (unchain (erased c.main_address vm))
step_as Instr.load_and_flush n c vm = do
  check_aligned n c.main_address
  let loaded = record vm { cache = blit vm.cache 0 block_size (shift vm.flash c.main_address) }
  some (unchain (erased c.main_address loaded))
step_as Instr.flush_and_partial_commit n c vm = do
  check_aligned n c.main_address
  check (leb c.length block_size)
  after ← write_flash c.main_address (in_cache 0) c.length (erased c.main_address vm)
  some (chain (plus c.main_address c.length) after)
step_as Instr.chained_copy n c vm = do
  check vm.previous_write_was_copy
  after ← perform_copy n c.main_address c.length vm.end_previous_copy vm
  some (chain (plus vm.end_previous_copy c.length) after)
step_as Instr.copy n c vm = do
  after ← perform_copy n c.main_address c.length c.secondary_address vm
  some (chain (plus c.secondary_address c.length) after)
step_as Instr.chained_copy_skip n c vm = do
  check (may_skip n vm.end_previous_copy c.length)
  some (chain (plus vm.end_previous_copy c.length) vm)
step_as Instr.rebase n c vm = some (record vm { previous_write_was_copy = true })
step_as Instr.use_block n c vm = some (record vm { previous_write_was_copy = true })
step_as Instr.release_block n c vm = some (record vm { previous_write_was_copy = true })
step_as Instr.end_of_stream n c vm = some vm

abbrev pub ends_stream : Instr → Bool
ends_stream Instr.end_of_stream = true
ends_stream _ = false

abbrev pub step : (flash_length : ℕ) → PublicCommand → Vm → Option Vm
step n c vm = step_as c.command n c vm

-- The loop of virtualMachine: what it returns, and the machine behind it.
unfoldable pub run : (flash_length : ℕ) → List PublicCommand → Vm → Option (Bool × Vm)
run n [] vm = some (true, vm)
run n (c ∷ rest) vm =
    if ends_stream c.command then some (false, vm) else (do after ← step n c vm; run n rest after)

-- The locals before the loop.
abbrev pub start : Bytes → Vm
start flash = record {
  flash = flash;
  cache = λ _. 0xff;
  previous_write_was_copy = false;
  end_previous_copy = 0;
}

-- The length is a block's multiple, and not 0.
abbrev pub is_flash_length : ℕ → Bool
is_flash_length n = not (n == 0) && n % block_size == 0

abbrev pub outcome : Bool × Vm → Bool × Bytes
outcome (result, vm) = (result, vm.flash)

-- virtualMachine: what it returns, and the flash behind it.
unfoldable pub virtual_machine :
    List PublicCommand → (flash : Bytes) (flash_length : ℕ) → Option (Bool × Bytes)
virtual_machine commands flash n =
    if is_flash_length n
    then (do end ← run n commands (start flash); some (outcome end))
    else some (false, flash)
