-- ===== src/Lib.antt =====
-- A model of zust: a scripting language with dynamic values (dynamic), a parser and a compiler, a JIT
-- virtual machine (vm), and a tree of shared data with a vector index (root).
--
-- The parts and their files:
--   * Dynamic.Fault      dynamic/src/fault.rs: the flag of a thread in which a runtime fault is kept.
--     `set_fault`, `take_fault` and `has_fault` take the flag and return it.
--   * Dynamic.Value      dynamic/src/lib.rs: `Dynamic`, the values. Texts are their UTF-8 bytes, typed
--     vectors and floats their bit patterns; a map is a list of entries in the order of IndexMap.
--   * Dynamic.Msgpack    dynamic/src/msgpack.rs: `encode` and its helpers in Encode, the reads of
--     fixed width in Read, `decode` and its ranges of codes in Decode. A decoder returns a value
--     with the number of bytes that it read, an error, or a panic (Prelude.Outcome).
--   * Dynamic.Json       dynamic/src/json.rs: `get_string`, `get_token` and `from_json` in Strings,
--     Numbers and Read, `to_json` in Write. A loop over `buf[pos..]` takes the rest of the buffer and
--     the position; a reader returns a value with the number of bytes that it counts as read.
--   * Dynamic.FixVec     dynamic/src/fixvec.rs: `FixVec`, the slots with their bit vector of used
--     places and the list of free ones; Slots has the steps on one place.
--   * Dynamic.Types      dynamic/src/types.rs: `Type` as `Ty`, widths and layouts in u32 arithmetic,
--     equality (`ty_eq`) and the type of a sum (`sum_type`).
--   * Dynamic.Ops        dynamic/src/ops.rs: the operators on values, with the fault flag passed on;
--     Checked has the integer operations they call, Operators the operators whole.
--   * Parser             parser/src: Reading has the smallest steps of the parser (lib.rs) on the rest
--     of its buffer, Operators the binary operators and their reading (expr.rs), Space white space and
--     comments, Idents identifiers, Strings the text literals, and Numbers the number literals
--     (lib.rs). `ParseErr` has the kinds of errors, without their texts and positions. Expr has the
--     expressions, Combining and Climbing the reading of operators by weight,
--     `expr_with_min_weight` (expr.rs): Combining what it does at an operator and behind an operand,
--     Climbing the rest and the recursion. The readers of operands that it calls (`base_expr`,
--     `postfix_expr`, lists, dicts, blocks and closures) are its interface `Operands`; a theorem says
--     what it asks of them.
--   * Compiler.Consts    compiler/src/symbol.rs: constant array lengths and the replacement of type
--     parameters.
--   * Compiler.Symbols   compiler/src/symbol.rs: `SymbolTable`. `Names` is what a lookup reads, the
--     table in Table adds the lookup cache with its epoch, Run the sequences of calls.
--   * Vm.Memory          vm/src/memory.rs: `VmMemory`, the arena of a thread. It is a record with the
--     chunks, the index of the current one, the offset in it, the Dynamics that are alive and the
--     marks of open scopes. A scope is entered when a script function is called, and left when it
--     returns; `run` plays such a call with the allocations and the calls inside it, and keeps the
--     pointers that were handed out and dropped. It is no function of the code; nor are `apply` of
--     Dynamic.Ops and `calls` of Compiler.Symbols, which range over its operations.
--   * Vm.Fuel            vm/src/memory.rs: the quota of loop rounds, which sets the fault flag of
--     Dynamic.Fault when it is used up.
--   * Vm.GpuLayout       vm/src/gpu_layout.rs: the layout of a struct (by Dynamic.Types) and `unpack_map`,
--     which reads its fields from bytes.
--   * Root.Arrow         root/src/arrow: `Points` has the word with a level and an identifier
--     (order_id.rs), `LevelVec` the neighbours of a point (order_id.rs), `QueryId` the generator of
--     query numbers (unique_id.rs) with the interleavings of its two atomic operations.
--   * Root.Paths         root/src/directory.rs: paths and the keys of directories. Paths.Names shows how
--     a path falls apart into names.
--   * Root.Redis         the commands of redis that are called, over an unknown state.
--   * Root.Directory     root/src/directory.rs: `add_path`, `remove_path`, `rebuild` and `children`, the
--     index of directories beside the values; a command may fail. `Exact` is the agreement of the
--     index with the keys.
--   * Prelude            what all of them share: lists, bits as arithmetic, integers, outcomes.
--
-- Fuel and bounds. The loop of `alloc_raw` is on fuel of two rounds: a new chunk is as large as
-- the request with its alignment, so that the second round fits. `decode` is on fuel of one more
-- than the number of bytes, since each nested value stands behind the byte of its container; so
-- is `from_json`, and its loops on the number of bytes that are left. `remove_empty_entry` is on
-- fuel of one more than the length of the path, as each round takes a name off it, and the loops of
-- `whitespace`, `ident` and `string` on one more than the bytes that are left. The fuel of
-- `expr_with_min_weight` is the depth that is left of `MAX_PARSE_DEPTH`, and where it is used up the
-- parser says so too. Words of the machine wrap around as written in the definitions (`% 2 ^ w`);
-- sizes of an allocation are far below 2^64 where a theorem says so.
--
-- Parameters, code that is not in the repository: where the allocator of the system places a chunk
-- (`Placement`), with the size and the alignment of a Dynamic; the UTF-8 check, the widening of
-- f32, the text of a float (`Platform` and, for JSON, `Text`); the vector of bits of FixVec
-- (`BitVec`), the map of a symbol table (`IndexMap`), each with its laws; the arithmetic of floats
-- (`Floats`), and for literals their reading and conversion (`Reals`) and the UTF-8 of texts
-- (`Utf8`); the order on distances; a redis server (`Redis`), what its state shows (`View`) and
-- what its commands do (`IsRedis`). Also a parameter is the conversion of half floats
-- (dynamic/src/lib.rs), which computes with floats.
--
-- Not modelled: the bytes behind a pointer of the arena, and with them `scope_exit_dynamic`,
-- `scope_exit_bytes` and `take_dynamic_return`; the texts of errors; the reservation of capacity;
-- the iterators of FixVec that hand out references; code generation with Cranelift and for GPUs,
-- and the packing of values for a GPU; input and output. Of the operators on values, addition (it
-- appends to shared lists) and the bitwise ones; of the parser, base expressions and their postfix
-- forms, types, statements and patterns; of the compiler, inference, and the lookups of fields and
-- types of the symbol table; the tree of root apart from the index of its directories. Three
-- simplifications: the flag `fatal` of the parser, by which each call of `expr_with_min_weight` fails
-- once the limit on the depth was met, also where a base expression passed over that error, is left
-- out, so that the model reads on there; `ty_eq` compares the parts of types, where the code takes two
-- pointers to one type as equal at once; and `to_json` does not have the panic of `cast_slice` on a
-- typed vector whose bytes lie at an address that is not aligned.
pub mod Prelude
pub mod Dynamic
pub mod Vm
pub mod Root
pub mod Parser
pub mod Compiler
