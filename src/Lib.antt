-- ===== src/Lib.antt =====
-- RAVENS: over-the-air updates of microcontrollers. A host tool (hugin) compiles the difference of
-- two images to a bytecode that moves blocks of flash; the boot loader on the device (munin)
-- authenticates an update, checks it with a dry run and executes the bytecode in place, so that a
-- loss of power at any time can be recovered from.
--
-- The development is about the device, and of the host about the encoder of the bytecode, the end of
-- the code generation and the machine that checks it. Its modules, each
-- with the code that it models:
--
--   Base         shared names, C's tests and bits, and byte memory as a function of the address.
--   Decoder      common/decoding/decoder.c: readBits (Decoder/Reader), readBlockID and
--                decodeInstruction. A reading takes the offset in bits and returns a value with the
--                next offset, or `none` where the assertion of readBits fails.
--   Encoder      hugin/Scheduler/Encoding: encodeInstruction and what it calls (Encoder), appendInstruction,
--                encode, _decodeInstruction, decode and validate (Encoder/Stream). `size_t` has 64 bits,
--                a failed assertion is `none`, and the stream is allocated. The decoder is the device's;
--                its offsets have 32 bits, enough for the streams of the theorems. decode has fuel for
--                one instruction for each bit. An instruction has at most 64 bits where block IDs have
--                at most 12 (Encoder/Encodable), and the flash of the K64F has 8.
--   Platform     what is not in the repository, as a record: the flash driver, the signatures of
--                libhydrogen, the SHA-256 of mbed TLS and the addresses of the linker. `IsFlash` and
--                `IsLayout` state what is relied on: a sector is erased to ones, an aligned range that
--                is erased can be programmed, and the pages are aligned blocks of their own.
--   Flash        writeToNAND and erasePage of munin/Bytecode/execution_utils.c on a memory. writeToNAND
--                calls itself only with aligned addresses and whole phrases, so that a depth of 2 is
--                enough.
--   Device       the state of the device and its runs, which end well, at a fault, or in a loss of
--                power before an operation on the flash (`power` counts the operations left).
--   Metadata     common/layout.h; getMetadata of munin/core.c, setMetadataPage and resetMetadataPage,
--                with a loss of power in Metadata/Replace.
--   Critical     the critical metadata of munin/core.c: startUpdate, requestUpdate, concludeUpdate and
--                validateCriticalMetadata; Critical/Start, Critical/Install and Critical/Conclude are
--                about a loss of power.
--   Counter      incrementCounter, getCurrentCounter, backupCache and restoreCache of
--                munin/Bytecode/execution_utils.c.
--   Copy         performCopyWithCache, flushCopyCache and performCopy of munin/Bytecode/execution.c.
--   Bytecode     processInstruction and runCommands of munin/Bytecode/execution.c, on the decoder, the
--                copies and the counter. The loop has fuel for more instructions than the assertion of
--                the decoder lets through.
--   Validation   munin/validation.c.
--   Lzfx         munin/Delta/lzfx_light.c, the streaming decompressor: pointers are offsets, and a write
--                outside of the buffer ends it. Its loop has fuel for each byte of the input.
--   Delta        munin/Delta/bsdiff.c: the readers of the patch (consumeByte to consumeQWord),
--                performValidation and addByteToOutputBuffer; applyDeltaPatch is Delta/Patch, its loop,
--                and Delta/Apply. The fuel of the loop is an argument, and the theorems are about its
--                rounds.
--   Boot         bootloaderPerformUpdate of munin/core.c.
--   Userland     munin/Userland/userland_utils.c: base64_encode, eraseNecessarySpace, whose loop has
--                fuel for each block, and itoa in a base from 2 to 10, whose loops have fuel for 32
--                digits, as many as a word can have.
--   VirtualMachine
--                hugin/Scheduler/virtual_machine.cpp: writeFlash, performCopy and virtualMachine, on
--                which the host runs a patch before it sends it; executeBSDiffPatch is
--                VirtualMachine/Patch. A failed assertion is `none`. As in the code, only writeFlash
--                fails on bytes that are not erased: COMMIT is a memcpy.
--   Scheduler    the commands of hugin/Scheduler/scheduler.h before they are encoded:
--                insertCommand (Scheduler/Insert), createChains (Scheduler), addUseBlocks,
--                normalizeRebase and generateInstructions (Scheduler/Blocks), and updateLastRebase
--                (Scheduler/Rebase) of scheduler_codegen_optim.cpp. insertCommand calls itself
--                once at most, so that a depth of 2 is enough.
--   Examples     a board on which the theorems are applied.
--
-- Pointers and size_t have 32 bits, and the constants are those of the K64F configuration
-- (munin/integration/drivers/K64F/device_config.h). Arithmetic on them wraps around where the code
-- can reach the end of the word. A loss of power is modelled between operations on the flash, not
-- within one.
--
-- Not modelled: the assembly around bootloaderPerformUpdate, the download of updates
-- (munin/Userland/userland.c), the drivers and the mbedOS integration, and the rest of the host (hugin without
-- the parts above, common/lzfx-4k and the command line of common/crypto).
pub mod Base
pub mod Decoder
pub mod Encoder
pub mod Platform
pub mod Flash
pub mod Device
pub mod Metadata
pub mod Critical
pub mod Counter
pub mod Copy
pub mod Bytecode
pub mod Validation
pub mod Lzfx
pub mod Delta
pub mod Boot
pub mod VirtualMachine
pub mod Scheduler
pub mod Userland
pub mod Examples
