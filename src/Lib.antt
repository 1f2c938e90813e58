-- ===== src/Lib.antt =====
-- A model of aarchvm, an AArch64 full-system emulator in C++ (src/ and include/aarchvm/), with theorems.
--
-- The emulator's processors fetch and translate addresses through the MMU (src/cpu.cpp), reach RAM and
-- devices over the bus (src/bus.cpp), and take the interrupts that the interrupt controller
-- (src/gicv3.cpp) ranks; the devices, among them the timer (src/generic_timer.cpp), raise lines that the
-- system (src/soc.cpp) hands to the controller. The parts that are modelled:
--
--   Base     numbers, tests, fixed arrays as functions, words and their bits; shared lemmas.
--   Gic      src/gicv3.cpp, include/aarchvm/gicv3.hpp. `Gic.Gic` is the class's state, `LocalCpu` one
--            element of its per-processor vector. Gic has the setters of single bits, Gic/Query the
--            queries and acknowledge, Gic/Lines levels, SGIs and ends, Gic/Ranges and Gic/Mmio the
--            registers. Gic/Best, Gic/Lifecycle, Gic/Held, Gic/Bitmap, Gic/Priority and Gic/Cache prove.
--   Mmu      src/cpu.cpp, include/aarchvm/cpu.hpp. Mmu has the types and what is decoded from system
--            registers, Mmu/Access the permission check, Mmu/Walk the table walk, Mmu/Tlb the
--            translation lookaside buffer, Mmu/Translate the translations that use both. Mmu/Pages,
--            Mmu/Output, Mmu/Tlb/Insert, Mmu/Flush and Mmu/Cached prove.
--   Timer    src/generic_timer.cpp, include/aarchvm/generic_timer.hpp. Timer has the state, the counter
--            and the search for the next interrupt, Timer/Channel one channel, Timer/Registers the
--            system registers and the memory-mapped ones. Timer/Deadline, Timer/All and Timer/Lines
--            prove.
--   Ram      src/ram.cpp, include/aarchvm/ram.hpp. Ram has the memory and its operations, Ram/Access
--            and Ram/Copy prove.
--   Snapshot include/aarchvm/snapshot_io.hpp: the stream of a snapshot as bytes, and the loads that read
--            it; Snapshot/Laws has the lemmas.
--   Uart     src/uart_pl011.cpp, include/aarchvm/uart_pl011.hpp. Uart has the port and its operations;
--            Uart/Calls (interrupts), Uart/Queue and Uart/Saved (snapshots) prove.
--   Kmi      src/pl050_kmi.cpp, include/aarchvm/pl050_kmi.hpp. Kmi has the interface and the keyboard's
--            commands; Kmi/Protocol and Kmi/Saved prove.
--   Cpu      src/cpu.cpp, include/aarchvm/cpu.hpp: instructions. Cpu has the registers, the flags and the
--            arithmetic they share, Cpu/Masks the masks of immediates and Cpu/Multiply the high products.
--            Cpu/Decode and Cpu/Word decode a word, Cpu/Exec executes the record; Cpu/Slow and
--            Cpu/SlowRegisters execute the word. Cpu/Compare proves the flags, Cpu/Fields the fields,
--            Cpu/Loops the repeated elements of masks; Cpu/Same, Cpu/SameRegisters, Cpu/Kinds, Cpu/Cases
--            and Cpu/Whole prove that both ways agree.
--   Framebuffer include/aarchvm/framebuffer_dirty_tracker.hpp. Framebuffer has the tracker, and
--            Framebuffer/Rows proves.
--   Exclusive src/cpu.cpp, include/aarchvm/cpu.hpp: the exclusive monitor of a processor. Exclusive has
--            its state and operations, Exclusive/Writes (the stores of others) and Exclusive/Pair prove.
--   Bus      src/bus.cpp, include/aarchvm/bus_fast_path.hpp, and of src/soc.cpp the memory map and the
--            loads of images, over Ram and Framebuffer. Bus has the map, Bus/FastPath the accesses
--            answered without it, Bus/Image the pointers and loads; Bus/Find, Bus/Agree and Bus/Loads
--            prove.
--   System   src/system_registers.cpp. System has the registers, System/Sanitize the masks, System/Register
--            the names, System/Read and System/Write both switches, System/State the processor state,
--            System/Exception entry and return; System/Step has them all as steps. System/Flags and
--            System/Return prove the way to a handler and back, System/Kept what every step keeps, and
--            System/Again and System/Restore what is written back.
--   Interrupt src/cpu.cpp, include/aarchvm/cpu.hpp: how a processor takes interrupts and exceptions, over
--            Gic and System. Interrupt has its state and operations; Interrupt/Taken (which one is taken)
--            and Interrupt/Cycle (the way back) prove.
--   Rtc      src/rtc_pl031.cpp. Rtc has the clock and its registers, and Rtc/Seconds proves.
--   Block    src/block_mmio.cpp: the simple block device, over Bus. Block has its registers and commands,
--            and Block/Commands proves.
--
-- How code becomes a model. An object's state is a record, a method a function from the state to the
-- new state and its result, with the names of the code. A fixed array or vector is a function on its
-- index, with the code's clamp of an index written out; a set of the lookaside buffer is a list. Numbers
-- are natural numbers, with the reduction modulo 2^32 or 2^64 written where the code's type wraps. A
-- loop with a counter is a recursion on the iterations left, so no fuel is needed: the walk recurses on
-- the table levels left (at most four), the interrupt loops on the numbers left (1024 or 988).
--
-- What the code takes from elsewhere is a parameter: a read of guest memory in a walk, and the
-- host's clock of the timer and of the real-time clock. The instructions that touch memory are a
-- parameter of the decoded path, which no theorem constrains, and so is the translation of an
-- address in the exclusive monitor. Where the code adds a signed offset to an address, the sum
-- wraps at 64 bits. The loop of replicate has fuel, as many passes as there are bits, which
-- is enough since the position grows by the size of an element in each.
--
-- Not modelled: output on the host's streams, traces and performance counters outside the interrupt
-- controller; the snapshots of the interrupt controller, the timer, the memory, the clock, the simple
-- block device and the system registers; the devices on virtio and the run loop; and of the processor
-- what stands under no part above. The bus reaches the devices behind registers by an interface.
pub mod Base
pub mod Gic
pub mod Mmu
pub mod Timer
pub mod Ram
pub mod Snapshot
pub mod Uart
pub mod Kmi
pub mod Cpu
pub mod Framebuffer
pub mod Exclusive
pub mod Bus
pub mod System
pub mod Interrupt
pub mod Rtc
pub mod Block
