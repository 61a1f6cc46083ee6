-- ===== src/Lib.antt =====
-- The OCaml bytecode interpreter of interp.c with its opcode counters, the interpreter of OCaml 4 in
-- interp-ali.c, and the two small stack programs simple-stack.c and stack-skeleton.c.
--
-- The interpreter is the function `caml_interprete`: a loop that fetches an opcode and runs it on a
-- few registers, a stack, and blocks of the heap. With DEBUG, the repository's configuration, each
-- round also counts the opcode, in total and for the function that runs: a function stack holds the
-- addresses of the called functions, and a hash table maps an address to its array of counts. APPLY,
-- APPLY1, APPLY2 and APPLY3 push the called function and create its array; RETURN pops it.
--
-- Files:
--   Prelude      shared names, lists over native numbers, and the results of loops (`Run`: a value,
--                a failed assertion or exit, or a loop that does not end within the fuel)
--   Word         64-bit arithmetic and the tagging of integers (ocaml/runtime/caml/mlvalues.h)
--   HashTable    interp.c, `ht_create` to `ht_next`. `HashTable/Hash` is about `hash_key`, `Probe` and
--                `Placed` about the probe loop, `Expand` about `ht_expand`, `Laws` about the whole
--                table against a map, `Refine` about sequences of calls, and `Iterator` holds
--                `ht_iterator` and `ht_next`.
--   FuncStack    interp.c, `create_func_stack` to `func_stack_pop`
--   Profile      interp.c, `ht_curr_inc_opcount`, `array_alloc_op_counts`, and the counters of the loop;
--                `Laws`, `Start`, `Calls` and `Counts` are about its invariant, and `History` about
--                whole sequences of calls, returns and dispatches
--   Interp       interp.c, `caml_interprete`. `Machine` is the state and `Memory` its access. The
--                instructions stand in `Basic` (stack, globals, atoms, branches, constants), `Apply`
--                (calls and returns), `Control` (traps, exceptions, signals, C calls), `Blocks`
--                (closures, blocks, arrays, bytes), `Ints`, `Objects` (methods) and `Effects` (stacks
--                that are suspended and resumed). An instruction is the function of its name in lower
--                case; instructions that differ in a number share a function with that number, such as
--                `acc_at` for ACC0 to ACC7. `Opcodes` is ocaml/runtime/caml/instruct.h, and `Step` is
--                the dispatch and the loop. `Runtime` is the interface to the runtime system.
--   Interp/Sound is about live words: pointers to blocks and stacks that exist, with a module for each group of
--                instructions, and `Runs` and `Counters` for what the rounds of the loop come to.
--                `Post` says what an operation leaves, and `Interp/Sound/Runtime` what the runtime
--                system is trusted with.
--   Interp/Programs is about programs of integers, `let`, `if`, `raise` and `try`: what they mean, their
--                bytecode in the shape that ocaml/bytecomp/bytegen.ml gives it, but for the call of
--                `caml_ensure_stack_capacity` in front of deep code, in place of which the stack has
--                room from the start; and how a loop runs it.
--                `Engine` is the interface to an interpreter, which `Compiled` fills for interp.c.
--   InterpAli    interp-ali.c: `Control` holds its traps and exceptions, `Apply` its calls, and `Step` its
--                loop. It has the machine of interp.c, with `stack_low` as the base of its one
--                stack, and shares with it the instructions whose
--                statements are the same. `Programs` fills `Engine` for it,
--                and `Alike` is about its calls beside those of interp.c.
--   SimpleStack  simple-stack.c; `Lines` is the reading of its file
--   SkeletonStack stack-skeleton.c
--
-- State: a pointer of the hash table is its 64-bit address, and 0 is NULL. In the interpreter a word
-- of the stack or of a block is a `Value`, a block of the heap has an index in place of an address,
-- and a code pointer is a position in the code. The record of a stack has its size, and a round begins
-- with the assertion that the stack pointer is not below its base. An access above the stack or outside
-- the code or a block, which C leaves undefined, is `fault`, and so is a failed assertion; a push below
-- the base of the stack is found by the assertion of the next round. An exception that C code raises is
-- `raised`, and the loop takes it to the landing of `sigsetjmp`.
--
-- Fuel: the probe loops get as many rounds as the table has slots, which is enough on a table with a
-- free slot. `ht_next` recurs on the number of slots that are left, the method search on the number
-- of fields, the walk along parent stacks on the number of stacks, and `run` on a number of rounds
-- that its caller gives. A rehash recurs on the entries of the old array.
--
-- Parameters: the allocators (as flags for their success), and the runtime system with the C
-- primitives, the collector, signals, the debugger and the growth of stacks (a `Runtime`).
--
-- Not modelled: output and traces, the freeing of tables and stacks of functions, addresses of the
-- heap and the moving of blocks, the variant of the loop with THREADED_CODE, updates/interp.c,
-- which is a second copy of interp.c, the copy of the OCaml compiler under ocaml/, and the scripts.
pub mod Prelude
pub mod Word
pub mod HashTable
pub mod FuncStack
pub mod Profile
pub mod Interp
pub mod InterpAli
pub mod SimpleStack
pub mod SkeletonStack
