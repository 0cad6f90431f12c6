-- ===== src/Lib.antt =====
-- maniTC: the T3 machine of the compiler, and the arithmetic that its checker and its machine share.
--
-- maniTC compiles a language of balanced ternary words to LLVM and to T3ISA, the instruction set of
-- a machine with 27-trit words that an emulator runs. The development is about the second target,
-- the optimizer before it, and the definitional interpreter that states the language:
--
--   Isa         src/codegen_t3/isa.rs: the word (Word: `clamp27`, `sign_i64`), its 27 trits (Trits:
--               `trits27`, `from_trits27`), the lane functions (Lanes, with those of execute.rs), the
--               opcode table (Opcode) and the encoder and decoder (Encoding). The proofs are in
--               Trits, Lanes/Laws, Lanes/Algebra, Opcode/Table, Encoding/RoundTrip, Encoding/Wide.
--   Lang        src/lang.rs: `div_nearest` and `rem_balanced`, which TDIVN and TMODN execute. Wrap
--               and Nearest hold the lemmas, Division the theorems.
--   Interval    src/semantic/interval.rs: what the checker knows of an integer. The proofs
--               about sums and differences are in Sound, about products in Product, about the tests
--               in Decide.
--   Emulator    src/codegen_t3/emulator: State (mod.rs: `Emulator`, `new`, `heap_reserve`), Switch
--               and Sched (sched.rs), Execute and Control (execute.rs: `step` and its opcodes).
--               Invariant, Exact, Switch/Window and Sched/Tasks, Moves, Saved, Held, Turns hold the proofs.
--   Channels    src/codegen_t3/emulator/syscall_proc.rs (Emulator/Channels): the syscalls on channels
--               (70 to 74, 108, 137) and tasks (80 to 82, 122 to 126, 138 to 140), with the
--               collection objects of mod.rs. Frame, Fits, Bounded and Order hold the proofs.
--   Ordered     src/codegen_t3/emulator/ordered.rs: maps and sets that iterate in insertion order;
--               Compare is about the tests of two sets.
--   Bytes       src/codegen_t3/emulator/mod.rs: `bytes_find`, `bytes_split` and `bytes_replace`;
--               Find and Split hold the proofs.
--   Reference   src/reference/eval.rs and ast.rs: the syntax (Syntax), values, operators and casts
--               (Ops, Bin, Ty, Cast), the computations that a task asks the scheduler to go on with
--               (Comp), scopes (Env), the rules of expressions (Rules), calls and methods (Calls), the
--               evaluator (Eval), the scheduler (Scheduler), and the steps of a program and
--               `run_with` (System). Division, Lanes and Machine set the operators beside the compiler's
--               arithmetic and the instructions; Valid, Behaves and the modules in System hold the
--               proofs about programs.
--   Ir          src/ir: the data of types.rs (Types, Ty, BinOp, LaneOp); the passes of optimize.rs:
--               Operands (the walks over instructions), Fold, Propagate, Dead, TritIdentities,
--               Strength, Reach (dead blocks); merge_blocks.rs (Merge). Semantics is what a program
--               does, for any meaning of its instructions, which the passes are compared with.
--   Semantic    src/semantic: the types and their compatibility (types.rs; Types, Compatible), the
--               symbol table (scope.rs; Scope, Scope/Bindings), and the two evaluators of constants,
--               const_eval.rs (ConstEval; Run is its evaluator, the others hold the proofs) and
--               const_fold.rs (ConstFold; Agree), with what they read of src/ast.rs (Syntax).
--   Prelude     the integers with Rust's divisions, association lists and Boolean tests.
--
-- How the state corresponds. `Emulator` has the fields of the struct that instructions and the
-- scheduler use; the registers and the memory are functions, with the length of the memory beside
-- them and each access guarded as in the code; `call_stack` and `output` have the latest entry first.
-- A `BTreeMap` is an association list. A message is a constructor of `Message` with the values it
-- prints. `step` is a function of the machine: a `return` inside an opcode is the end of its clause,
-- and the match over opcodes is a chain of five functions (arithmetic, lanes, words, memory,
-- control), each of which passes on the opcodes that are not its own. A blocking operation of the
-- scheduler gives the machine with the task switched, and a Boolean or an `Option` as in the code.
--
-- Integers. An `i64` is an integer of the model; `wrapping_`, `saturating_` and `checked_` operations
-- are written out as `wrap64`, `saturate` and `checked`, `as usize` as `as_usize`, and the casts to
-- bits as `bits64`. Plain `+` and `*` are exact, as they are in the builds that check for overflow
-- where they do not stop. Words are within 3812798742493 of zero.
--
-- The reference interpreter. In the code each task is a thread, and the scheduler lets one of them run
-- at a time; its recursive evaluator blocks inside `yield`, `send` and `recv`. Here a task is what it has
-- left to do, a tree (`Comp`) whose nodes are the calls of the scheduler: a tick of the step budget,
-- output, a new channel or task, a send, a receive, a close, a yield. `>>=` is the operator `?` of Rust,
-- and `handle` a match on a result. A step of the system does the operation at the root of the tree of
-- the task at the head of the run queue. The five vectors that `Shared` has for its channels grow
-- together and are one list of rows. A string is a list of bytes, a name a string, a message that a
-- trap prints is a constructor of `Why`.
--
-- The IR. Names of temps, blocks and strings are numbers, a `HashMap` is an association list, a
-- `HashSet` a list, and a float is the number of its bits, whose arithmetic is a parameter. A pass
-- that changes a function in place is a function on it. In Semantics the phis of a block read the
-- temps as they were when the block was entered.
--
-- The checker. A name in the symbol table is a number and a name inside a type a list of bytes; the
-- scopes stand innermost first. An evaluation of a constant gives a value or an error with the state
-- after it, since const_eval.rs goes on after some errors; the text of `NotConstant` is a constructor.
--
-- Loops. The loop over lanes is structural recursion on the count 27; the loops over queues, stack
-- windows and sets are structural recursion on the list. The loops of
-- `bytes_split` and `bytes_replace` run on fuel, the length of the string and one more: each round
-- drops a separator, which is not empty, so they end before it is used up.
--
-- The evaluator of the reference interpreter runs on fuel, one unit more than the budget of steps
-- (200000000): whatever takes a unit of fuel asks for a tick, so that the budget ends first.
-- `steps` is a run of at most n steps of the scheduler.
--
-- The evaluator of const_eval.rs runs on fuel in the same way, one unit more than its budget of 100000.
--
-- The loops of the IR run on fuel too: dead code elimination on one unit more than there are
-- instructions, since each round but the last drops one; block merging on one more than there are
-- blocks, since each merge drops one; the worklist of dead block elimination on two more than the
-- labels that its blocks can push, since a block pushes once; the division by three of `pow3_shift`
-- on 40, since 3^40 is greater than every `i64`.
--
-- Not modelled: the other syscalls, on the remaining collections, strings, mutexes, files, sockets,
-- clocks and processes, which are a parameter of `step`; the profiler and the debugger; the layout of strings in memory; the rest
-- of the front end; the parser of the reference interpreter and the cancellation of its tasks; the
-- lowering to the IR and its passes on SSA form (dominators, promotion of memory, inlining), the sign
-- trichotomy and the walk over dominators of common subexpressions; the LLVM
-- back end and the assembler.
pub mod Prelude
pub mod Isa
pub mod Lang
pub mod Interval
pub mod Emulator
pub mod Ordered
pub mod Bytes
pub mod Reference
pub mod Semantic
pub mod Ir
