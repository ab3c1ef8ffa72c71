-- ===== src/Lib.antt =====
-- gonidbg: an emulator for Android AArch64 libraries, in Go. This library models parts of it.
--
-- The program. The loader (internal/loader) reads an ELF image and its relocations and reserves
-- ranges of the guest address space in the allocator (internal/memory). The interpreter
-- (internal/arm64) fetches 32-bit words, decodes each into an instruction, that is, a handler
-- and its operands, and runs it on the register state. System calls (internal/kernel) use the
-- allocator and a file system (internal/vfs); the emulator (emulator) and the Java side (dvm)
-- stand around these.
--
-- The files.
--   Base        shared helpers: Boolean tests, lists and the signed numbers over the native
--               numbers, words with their wrap-around (Base/Word), laws of the bit operations
--               (Base/Bits), finite tables that are checked by evaluation (Base/Finite)
--   Space       internal/memory/memory.go: `Space` with map, mmap, munmap, protect, find,
--               set_layout under their Go names; Space/Chain is the well-formedness of the
--               table, Space/View what a table says of each byte
--   Packed      internal/loader/packed.go: `sleb.next` (Packed/Sleb), `decodeAPS2`
--               (Packed/Groups), `decodeRELR` and `decodeREL` (Packed/Relr)
--   Arm64       internal/arm64: Cpu and Cpu/Context (cpu.go, registers and snapshots), Inst
--               (`inst`, with one constructor for each handler), Flags (`condTab`, `addFlags`),
--               BitMasks (`decodeBitMasks`), DpImm, Branch and System (decode.go), DpReg
--               (dpreg.go), Step (`decode` and one round of `Run`). The `exec` functions give
--               each handler its meaning. State and Slots hold what is true of the register
--               state and of decoded operands.
--   Arm64/Mem   internal/arm64/mem.go: Mem (`Memory`, `page`, the entries of the caches), Table
--               (`lookup`, `setPage`), Tlb (`flushTLB`, `writable`, `dropCode`), Range (`Map`,
--               `Unmap`, `Protect`), Guest (`guestPage`, the slow paths), Guest/Lanes (`loadN`,
--               `storeN`), Guest/Access (`Read8` to `WriteN`, `checkWrite`), Host (`HostRead`,
--               `HostWrite`, `DropCode`, the hook lists). Coherent is the invariant that ties
--               the caches to the table, View the flat memory that a guest sees; Reads,
--               ReadSizes, Writes, RoundTrip, Hooks, Hooked, Lawful, Reachable and the children
--               of Range and Coherent are proofs
--   Arm64/LdSt  internal/arm64/ldst.go: Decode (the decoders), Access (single registers), Pairs,
--               Exclusive (with the atomics), Lanes (`getLane`, `setLane` of vec.go), Multi
--               (structures), Hot (the TLB inline), Handlers (one name for each handler of single
--               registers), Exec (the call of a handler);
--               Faults, Agree and Monitor are proofs
--
-- How the code is rendered. A method that mutates its receiver returns the new record. A word is
-- a native number below 2^w, and each operation wraps as in Go; int64 is its 64-bit pattern. An
-- error result is a sum with what the message prints; the panic of an undefined instruction is an
-- outcome of `step`. `sort.Slice`, which leaves equal keys in any order, is insertion sort, and
-- `sort.Search` is its binary search. `hash/crc32` and `math/bits` are written out. Arrays of bytes
-- are shared between pages and TLB entries, so they stand in a heap under numbers, and number 0 is
-- the shared page of zeros. A hook is a number; what its code does to the memory is a parameter
-- (`HookCode`), and it is taken to leave the registers alone. A guest access ends with a value or
-- with a fault, and keeps what it changed of the memory, as the panic does in Go.
--
-- Fuel. The loop of `replicate` takes as many rounds as its width, and `sleb.next` eleven, after
-- which its shift is past the limit; the outer loop of `decodeAPS2` takes the declared count,
-- since each group has an entry; the bitmap loop of `decodeRELR` takes 63, one
-- for each digit of a bitmap. The loops of `HostRead` and `HostWrite` take the number of bytes,
-- since a round copies at least one.
--
-- Not modelled. Floating point and SIMD of internal/arm64 but for the loads and stores of
-- vectors. Step runs on the registers only: for a load or a store, which it decodes, and for the
-- group of SIMD its outcome is `outside`, and the handlers of ldst.go are run by LdSt/Exec. The code hooks and the loop around
-- one round of `Run`, the decoding and caching of code pages, the exceptions SVC, BRK and HLT and
-- the DC ZVA store, `implicitAddendFunc` (a parameter `implicit`), ELF parsing and linking, the
-- system calls, the file system, the other engines, the emulator, the Java side, and the commands.
mod Base
pub mod Space
pub mod Packed
pub mod Arm64
