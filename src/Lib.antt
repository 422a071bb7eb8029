-- ===== src/Lib.antt =====
-- Verification of parts of the Lodtalk virtual machine, a Smalltalk implementation in C++.
--
-- The compiler (vm/Compiler.cpp) drives an assembler (vm/MethodBuilder.cpp), which lays out and
-- encodes the instructions of a method in the bytecode set of vm/SistaV1BytecodeSet.inc and makes a
-- compiled method object (vm/Method.cpp). The stack interpreter (vm/StackInterpreter.cpp) decodes and
-- runs these bytes. All values are tagged words (include/Lodtalk/ObjectModel.hpp). The memory manager
-- (vm/MemoryManager.cpp) allocates the objects, keeps the classes by their indices, and collects what
-- is not reachable from the roots by marking and then sliding the rest to the front of the heap.
--
-- The files:
-- - Prelude: numbers, lists, Boolean tests, integers and bit operations.
-- - Outcome: how a run of the source ends, `abort()` included.
-- - Bytecode: the opcodes and field layouts, one definition for each entry of the bytecode set.
-- - Assembler: `Instruction` has a constructor for each subclass of `InstructionNode`, `Node` its
--   layout fields. `Sizes` and `Layout` are `computeMaxSize`, `computeBetterSize` and
--   `computeInstructionsSize`; `Encode` and `Generate` are `encode` and `generate`. Each
--   class that overrides `encode` or `computeMaxSize` has a definition of its own. `Builder` is the
--   literal table and the methods that add instructions. `Relaxation` is about the layout, `Emission`
--   about the bytes.
-- - ObjectModel: tagged words, small integers, characters, small floats and the method header word,
--   all for the 64-bit object model (OBJECT_MODEL_SPUR_64).
-- - Interpreter: `Handlers` are the bytecode handlers up to the point where their operands are
--   fetched, `Decode` the dispatch table. `Meaning` says what each instruction of the assembler should
--   be to the interpreter; `RoundTrip`, `Jumps` and `Closures` relate the encoded bytes to it. `Special`
--   has the argument counts of the special messages.
-- - Math: the rounded division of include/Lodtalk/Math.hpp; each operation that overflows the 64-bit
--   word, which is undefined in C++, ends the run.
-- - Memory: `ClassTable` are the pages of the class table and `Registry` the map that they stand for.
--   `VmHeap` is `VMHeap`, with `allocateVirtualAddressRegion`, a system call, as a parameter.
--   `References` is the doubly linked list of `OopRef`s. `Collector` has the objects as `markObject`
--   reads them (`Objects`), `markObject` and `mark` (`Marking`), and the root arrays (`Roots`).
--   `Compaction` has `AllocatedObject` (`Blocks`) and the three passes of `compact` (`Passes`): the
--   heap is the list of its objects in the order of their addresses, which the loops of the source
--   find by adding up sizes, and the result is the list of calls of `memmove`, whose effect on bytes is
--   in `Moves` and `Bytes`; `Big` is about big objects. `Collection` composes the
--   two, and has the requests and `allocateObjectMemory`.
-- - Stack: `Frames` has the offsets, the metadata and `oopElementsDo` of vm/StackMemory.hpp, and
--   `Calls` what vm/StackInterpreter.cpp does with frames: `activateMethodFrame`, `localReturnValue`
--   and, in `Temporaries`, `getTemporary` and `setTemporary`. The words of the stack and those of the
--   objects are two maps from addresses, since no object is on the stack. `garbageCollectionSafePoint`,
--   `baseReturnValue` and what `checkForOveflowOrEvent` does below the limit are parameters, and the
--   fetch of the next opcode, which is part of `Interpreter`, is left out. Addresses do not wrap: the
--   theorems say how much room there is below the stack pointer. `Marriage` is `marryFrame` and
--   `updateMarriedSpouseState` of vm/StackMemory.cpp, with what `Context::create` returns for a number
--   of slots as a parameter; a write past the slots ends the run as corrupted memory.
--
-- Numbers: a `size_t` or an index of the assembler is a natural number without wrap-around, since it
-- counts instructions, literals or bytes in memory. Words of the object model wrap at 2 ^ 64.
-- Differences of positions are signed. Bits of a `double` are a number below 2 ^ 64.
--
-- Fuel: the loops that divide by 256 have fuel 8, enough for 64 bits. The loop of the layout has the
-- size of the first pass and one more as fuel, since each further round lowers the size.
--
-- The fuel of `mark_object` is the depth of its recursion, which is at most the number of objects; that
-- of `visit_references` is the length of the list and one more; that of `unregister_loop` one round for
-- each root and one more; that of `copy_temporaries` one round for each word of memory below the
-- receiver and one more. The source has no such limits; the stack of the C++ program is not modelled.
--
-- A label is a number, which stands for the pointer to the label's node; its position is that of its
-- node in the stream. Reading the position of a label that is in no stream is an abort of its own,
-- since that field is not initialised.
--
-- The words of the stack frames, among the roots of a collection, and the colours and addresses of
-- objects outside of the heap are given. The operating system is a function that grants or refuses
-- memory. Indices of the class table and sizes of compactions are unbounded; the allocation of the heap
-- wraps at 2 ^ 64.
--
-- Not modelled: the compiler, the syntax tree, stack pages, the activation of blocks and native
-- methods, sends, primitives, locks and threads, and what the handlers of the interpreter do to the
-- stack once their operands are fetched.
-- The scanner and parser are generated, and files and console are only system calls.
pub mod Prelude
pub mod Outcome
pub mod Bytecode
pub mod Assembler
pub mod ObjectModel
pub mod Interpreter
pub mod Math
pub mod Memory
pub mod Stack
