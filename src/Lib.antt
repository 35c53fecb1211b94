-- ===== src/Lib.antt =====
-- A model of the RISC-V emulator (RV64GC with the M, S and U modes, its interrupt controllers, memory
-- and devices), translated from the C++ sources, and what is proved of it.
--
-- The program. `Hart` (include/core/hart.hpp, src/core/hart.cpp) holds the registers, the CSRs and the
-- privilege. The execution loop fetches through the MMU, decodes (src/core/decoder.cpp) and executes
-- (src/core/execute.cpp) one instruction at a time; an instruction, the MMU or the interrupt check
-- throws a `Trap`, which `Hart::handle_trap` turns into a jump to a trap handler of the guest. Memory
-- accesses go over `Bus` (include/core/bus.hpp) to the memory or to a device, and devices drive the
-- hart's interrupt lines, the most of them through the PLIC.
--
-- The files.
-- - Base: Boolean tests on numbers, lists by index, binary digits and machine words. A `uint64_t` is a
--   number whose wrap-around is written out; `Base.Digits.digit x k` is binary digit `k` of `x`.
-- - BitOps: include/common/bit.hpp.
-- - Core: the hart. Core.Trap has the causes and `Result`, the ways in which a call can end; Core.Monad
--   chains calls that change a state and may throw. Core.State has the records of the hart, the TLBs
--   and the CLINT; Core.Mstatus, Core.Mip and Core.Menvcfg the fields of those CSRs. Core.Csr has
--   `read_unchecked` and `write_unchecked` of every CSR class, Core.Csr.Access the table of addresses,
--   `check_permissions`, `read_checked` and `write_checked`. Core.Clint is the tick of
--   src/device/clint.cpp, Core.Interrupts `handle_trap` and `check_interrupts`. Core.Memory is the
--   interface of the MMU that instructions use: its read, write and probe, and that they leave the
--   registers and the pc alone.
-- - Decoder: Decoder.Names has the instructions and the decoded instruction of
--   include/core/decoder.hpp, Decoder.Pattern `parse_pattern` of src/core/decoder.cpp, Decoder.Table the
--   patterns of `decode`, Decoder.Operands `decode_operand_32` and `decode_operand_16`, and
--   Decoder.Decode `decode`. Decoder.Unique, Decoder.Immediates and Decoder.Total have its properties.
-- - Mmu: `translate` of include/core/mmu.hpp; Mmu.Access has `read`, `write`, `probe_store` and
--   `ifetch`, Mmu.Cases the ways in which a translation can end, Mmu.Frame the MMU as a `Memory`.
-- - Float: include/common/float.hpp and src/common/float.cpp.
-- - Execute: src/core/execute.cpp. Execute.System has the CSR and privileged instructions,
--   Execute.Integer RV64I, Execute.Multiply the M extension, Execute.Atomic the A extension,
--   Execute.Float the F and D extensions, Execute.Compressed the C extension, with the instructions that
--   the manual gives for the compressed ones in Execute.Compressed.Manual.
-- - Memory: include/core/dram.hpp and include/core/bus.hpp, and what the bus calls of a device. The
--   devices share a state of a type that is a parameter.
-- - Device: Device.Clint has the registers of src/device/clint.cpp; Device.Plic is
--   include/device/plic.hpp and src/device/plic.cpp, Device.GoldfishEvents is
--   include/device/goldfish_events.hpp and src/device/goldfish_events.cpp, Device.GoldfishRtc is
--   include/device/goldfish_rtc.hpp and src/device/goldfish_rtc.cpp.
-- - Engine: `cpu_thread` of src/execution_engine.cpp, a round of its loop at a time, and the advance of
--   MCYCLE and MINSTRET. Engine.Shutdown, Engine.Interrupt and Engine.Blame have its properties; the
--   last rests on Core.Blame, Mmu.Blame, Execute.Blame and Decoder.Origin, which follow the pc of traps.
-- - Examples: runs on concrete states.
--
-- Loops. The loops of the source are bounded, and are recursion on the number of rounds or on a
-- list; no fuel is used. The walk of a page table is recursion on its level. The loop of
-- `cpu_thread` does not end by itself, and is a function of one round. Locks and atomic words make
-- the operations that use them single steps.
--
-- Parameters. The host's clock and floating-point arithmetic, which the CLINT uses, are the fields of
-- `TimeBase`. The operations of the SoftFloat library are the fields of `Operations` and `Softfloat`.
-- The fields of a `DecodedInsn` that `decode` leaves without a value are an argument of it. An integer
-- division or shift is that of the C++ type written out on its bit pattern.
--
-- Not modelled: the other devices, the threads around the execution loop, and the set-up, loaders and
-- windows, which are input and output. In the model of the bus an access changes the memory and the
-- state of the devices; what a device does to the interrupt lines of the hart within the access is a
-- step of its own (`set_interrupt_pending` and the register window of Device.Clint).
pub mod Base
pub mod BitOps
pub mod Core
pub mod Decoder
pub mod Execute
pub mod Examples
pub mod Device
pub mod Float
pub mod Memory
pub mod Mmu
pub mod Engine
