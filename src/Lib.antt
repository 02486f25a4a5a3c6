-- ===== src/Lib.antt =====
-- Tiny Wasm reads a WebAssembly module, compiles each function to A64 machine code and runs it. The
-- machine code is kept as text: eight hexadecimal digits to an instruction, in memory order.
--
-- The parts, and the files that model them:
-- - include/Opcode/: `Arm64Opcode` and the encoders. Opcode/Base.antt has `setField` (`set_field`) and
--   its wrappers; Opcode/Arithmetic, Compare, Mov, Branch and LoadStore have one function
--   per encoder (`encodeAddSubImm` is `encode_add_sub_imm`). Opcode/Fields.antt reasons about a field,
--   Opcode/IsWord.antt about the length of the text, Opcode/Layout/ about the words.
-- - include/Utils.h: Utils/Hex.antt and Utils/Parse.antt, the printers and readers of digits,
--   Utils/Binary.antt those of bits, Utils/Leb.antt LEB128, and Utils/Lower.antt `readBinary` with
--   include/FloatUtils.h.
-- - include/Wasm/WasmFunction.hpp: the record `WasmFunction` of Wasm/Function.antt is the state of the
--   class. Wasm/Branch.antt is Branch.hpp, Wasm/Stack.antt Stack.hpp, Wasm/Initialize.antt
--   Initialize.hpp, Wasm/Emit.antt Emit.hpp, Wasm/Jit.antt the loop `jiting_wasm_code`,
--   Wasm/Process.antt `processCodeVec` and CommonHeader.hpp, Wasm/Execute.antt Execute.hpp.
--   A method is a function from the state to a `Result` of the state, in the order of the statements
--   of the source; a throw is an error value and an unchecked access out of range is `undefined`.
-- - include/Parser.hpp and include/WasmType.hpp: Parser.antt and Parser/Process.antt. The parser fills a
--   list of functions, gives each its type, and calls `prepareParams`, `processCodeVec` and
--   `executeWasmInstr` of it.
--   Parser/Binary.antt has modules in the binary format, with an encoder and what is kept of each section;
--   Parser/Binary/Numbers has those whose numbers are one byte of LEB128, which is all the parser reads.
-- - main.cpp: Runner.antt, `test_chapter`. It collects the commands of a chapter, which a JSON library has
--   read, and has each function compiled and run with the arguments of a command.
-- Wasm/Assemble.antt has the abstract view of the emitted text: a list of finished words and
-- of branches by the name of their label. Its child modules relate every emitter to that view; Present
-- is about the labels of the routines, Landing about where a branch leads, AnyOrder and FixUp about
-- the fix-up, and Finished about the whole.
-- The proofs stand below the part they are about: Wasm/Stack/Frame, Wasm/Branch/Labels,
-- Wasm/Initialize/Slots, Wasm/Jit/Termination, Parser/Termination, Parser/Binary/, and Wasm/Execute/,
-- whose Loading is about the bytes, Run about one run, and Compiled about a run of what was compiled.
-- A64.antt is the part of the Arm manual that straight-line code needs: the instructions with their
-- words, and what they do to registers, memory and flags; A64/Decode has a processor that follows it.
-- Wasm/Operands.antt is the part of the WebAssembly specification about integer constants, arithmetic
-- and comparisons. Its child modules take both together: Emitted has the instructions of each
-- operator's emitter, Conditions the choice of a condition, Stacked the stack in memory, Simulation the
-- instructions on a machine, Bytes the compiler's loop, and Programs the operators one after the other.
-- Wasm/Statements.antt adds the variables of a function. Emitted and Emitted/Bytes have the instructions
-- and the bytes of an access, Frame the variables in memory, Simulation an access on a machine, Loop
-- the compiler's loop, Programs the statements one after the other, Prologue
-- `main_entry_initialize`, and Epilogue `restoreSP`. What stands between these pieces in a compiled
-- function, the calls of the setjmp routines and the branches, is in Wasm/Assemble only.
-- Base/ has what the parts share: lists, integers, text, errors. Tests/ has runs at concrete inputs.
--
-- Numbers: an `int` that may be negative is an integer of Base/Int.antt, cut to its width where the
-- source passes it on as a narrower type; offsets into the frame and sizes are natural numbers.
-- A float is its bits.
--
-- Loops: `jit_loop` and `parse_loop` run on fuel and give `none` when it has run out. The loop over the
-- wasm code starts with one more than the bytes of the code, and each round of supported code
-- moves on by a byte at least. The loop over the sections starts with one more than the digits of the
-- text, and each round that goes on drops four digits at least. The other loops are structural.
--
-- Not modelled: what is only printed, with the disassembly; the mapping of memory; the processor:
-- a parameter of `execute_wasm_instr` for a whole run, and in Wasm/Operands and Wasm/Statements a
-- function of a word and a state that `IsA64` says to follow the manual; the copies of include/FloatUtils.h between a float and
-- its bits; include/OverloadOperator.h, whose table nothing reads; `decodeLEB128`, which is marked as
-- unfinished and which nothing calls; the JSON library, `main`, and wasmtest.cc, whose `test_chapter`
-- has the steps of main.cpp.
-- The table of open branches is kept in the order of insertion, where the source has the order of a
-- hash: Wasm/Assemble/AnyOrder is about every order of the same branches.
pub mod A64
pub mod Base
pub mod Utils
pub mod Opcode
pub mod Wasm
pub mod Parser
pub mod Runner
pub mod Tests
