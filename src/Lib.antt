-- ===== src/Lib.antt =====
-- The core of VitaDebugger: the gdb remote protocol's frames and packets, the memory that breakpoints
-- and writes change and restore, the gate of the protocol session and the guard of the exception
-- handlers, the console's queue, the step over exclusive sequences, the encodings of hardware
-- comparators and the leases of the performance counters. The program is C for a 32-bit target; each
-- C function has a definition of its name, without the prefix of its file, and its outcome is a
-- value: the result code, what is written through pointers, and the state after the call.
--
-- Parts, with their files of the repository:
--   Rsp/Hex, Rsp/Numbers   hexadecimal texts and numbers: src/uvdb_rsp.c
--   Rsp/Frame              the frame scanner and the request lifetime: src/uvdb_rsp_frame.c; the
--                          output buffer's packet functions: src/uvdb.c
--   Rsp/Packets            the parsers of m, M, Z0, z0, qXfer ranges and F packets: src/uvdb_rsp.c
--   Rsp/Registers          the g, G, p and P register packets: src/uvdb_rsp.c
--   Spans                  the overlap test of src/uvdb_rsp.c and src/uvdb_memory_transaction.c
--   Target                 the callbacks to the debugged target that the next two use
--   Patch                  breakpoint slots: src/uvdb_breakpoint_patch.c
--   Transaction            writes that are undone when they fail: src/uvdb_memory_transaction.c
--   Gate                   the session's gate, with its threads: src/uvdb_protocol_gate.c
--   Guard                  the guard of the exception handlers: src/uvdb_exception_guard.c
--   Codec                  breakpoint and watchpoint registers: kernel/src/armv7_debug_codec.c
--   Console                the capture queue of stdout and stderr: src/uvdb_console.c
--   Exclusive              stepping over exclusive sequences: src/uvdb_exclusive_step.c
--   Pmu                    leases of the performance counters: kernel/src/pmu_session.c
--   Policies               small decisions: src/uvdb_fileio_flow.c and src/uvdb_registers.c
--   Prelude, Tests         shared lemmas; each theorem at a concrete input
--
-- How they meet: the scanner cuts the input into frames, the packet parsers read a frame's payload,
-- and the handlers answer through the output buffer; a write or a breakpoint that a packet asks for
-- goes through Transaction or Patch to the target. The gate lets one thread at a time do all this, and
-- the guard one exception. A step of a packet asks Exclusive where an exclusive sequence ends. What
-- the program prints waits in Console until the session's thread has sent it.
--
-- The target's read, write and cache callbacks, and the owner's identity test, are parameters. A
-- target is faithful if a read of the full size gives the bytes in memory and a read changes none;
-- nothing is assumed of operations that fail. It is working if every operation also succeeds. A
-- breakpoint's owner observes if asking it changes no memory. Tests/Ram has a target that is both.
--
-- The callbacks of a counters' backend are parameters too. It is read-only if a snapshot that succeeds
-- shows the counters, and neither a snapshot nor a reading nor the clock changes them; nothing is
-- assumed of configuring and restoring. Tests/Counters has such a backend.
--
-- Numbers are natural numbers, with the wrap-around of the C types written out where a computation
-- can reach it. A text is the list of its bytes; where a function tests buffers for overlap, their
-- addresses are arguments. Loops are recursion on the bytes, but the chunked comparison of a
-- transaction, which runs on fuel: one pass for each byte, where each pass takes at least one;
-- the loops of the console run on as much fuel as there are records, or slots, and those of the
-- exclusive scan on what the limit leaves of instructions. In the middle of a call of the console, what
-- other threads store and lock is an argument; a read of the target in the exclusive scan is a
-- parameter, a function of the address and the size.
-- In the gate and the guard, an atomic operation is one step of one thread or handler, and steps
-- interleave freely.
--
-- Not modelled: pointers that are NULL where the caller always passes one; the output buffer's
-- growth and its failures; the counters of the guard's entries; the debugger's own buffers as part
-- of the target's memory; the memory orders of the atomic operations; the handlers of src/uvdb.c,
-- thread control, the exception handlers, the console's transports, the monitor commands, the
-- kernel plugin's other parts, the attach broker, the deployment agent, the profiler, and the host
-- tools, which are other programs or mostly calls of the console's firmware.
pub mod Codec
pub mod Console
pub mod Exclusive
pub mod Gate
pub mod Guard
pub mod Patch
pub mod Pmu
pub mod Policies
pub mod Prelude
pub mod Rsp
pub mod Spans
pub mod Target
pub mod Tests
pub mod Transaction
