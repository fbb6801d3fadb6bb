-- ===== src/Lib.antt =====
-- A verification library of radixox, an in-memory key-value server on a compressed radix tree.
--
-- The program. `oxidart` is the tree: nodes in one slab, each with a compressed part of the keys, a
-- table of its first six children, and an index of an overflow table for more. The overflow tables
-- stand in an arena; a table keeps ten children in arrays and the others in a huge table of a slab
-- that belongs to the thread. A node's packed word has the time at which it expires and the radix
-- under which its parent has it. `radixox-lib` parses commands and has an arena for the connections,
-- and `radixox` serves them.
--
-- The files, and the code they are about:
--   Childs        `Childs` of oxidart/src/node_childs.rs: `find`, `push`, `remove`, `iter`, ...
--   Overflow      `HugeOverflow` and `Overflow` of the same file. Overflow/Vector is the interface of
--                 the crate arrayvec.
--   Arena         `OverflowArena` of the same file. Arena/Store takes it together with the huge
--                 tables, as all further children of a tree, and so do Arena/First and Arena/Release.
--   CompactStr    `CompactStr` of oxidart/src/compact_str.rs
--   Expiry        `ExpAndRadix` of oxidart/src/lib.rs
--   Node          `Node` of oxidart/src/lib.rs. Node/Compare is about `compare_compression_key`.
--   Tree          `OxidArt` of oxidart/src/lib.rs: `find` and the descent along a key. Tree/Link
--                 has `push_child_idx`, `remove_child` and `try_recompress`; Tree/Insert has
--                 `set`, `set_ttl`, `split_node` and `ensure_key`; Tree/Remove has `get` and
--                 `del`; Tree/Clock has `get_ttl`, `expire`, `persist` and
--                 `delete_node_for_eviction`; Tree/Sweep has `getn` and `deln`, and Tree/Chunks
--                 the tasks of oxidart/src/async_command.rs that do the same in chunks, between
--                 which other tasks run. Tree/Shape says what a well-formed tree is, and
--                 Tree/Descent which node a key leads to; Tree/Ttl is about `get_ttl`, and
--                 Tree/Write about a `set` and the `get` after it.
--   GenArena      `GenArena` of radixox-lib/src/gen_arena.rs: `insert`, `remove`, `get`, ...
--   Hash          `InnerHCommand` of oxidart/src/hcommand.rs, a vector or a hash map, as a map
--   BTree         the ordered map and set of the standard library, as a list in order. BTree/Bytes has
--                 the order of byte strings, BTree/Pop the first and the last entry.
--   ZSet          `InnerZCommand` of oxidart/src/zcommand.rs and `ZSetInner` of zset_inner.rs: a vector
--                 or two maps. ZSet/Entries has the order by score and member.
--   Value         `Value` of oxidart/src/value.rs, and in Value/Counter the counters of
--                 oxidart/src/counter.rs. Value/HashCommands, Value/SetCommands and Value/ZSetCommands
--                 have the commands of hcommand.rs, scommand.rs and zcommand.rs on a tree of values;
--                 Value/Borrowed has the value that they read or change in place.
--   Command       `Cmd` of radixox-lib/src/cmd.rs and its parser. Command/Request has `parse_uint`,
--                 `expect_crlf` and `from_slice`, Command/Dispatch and Command/Words have
--                 `dispatch`, Command/Args has
--                 `arg_u64` and `arg_i64`, Command/Options has `parse_set_opts`.
--   Frame         `SharedFrame` of radixox-lib/src/shared_frame.rs: `extend_encode` and `encode_len`.
--                 Frame/Sent is about frames that the parser of commands reads.
--   Handlers      the handlers of radixox/src/bin/resp_cmd. Handlers/Strings, Handlers/Expiry and
--                 Handlers/Server are about string.rs, Handlers/Hashes about hash.rs, Handlers/Sets
--                 about sset.rs and zset.rs. Of radixox/src/bin/resp.rs, Handlers/Options has
--                 `parse_set_options`, Handlers/Table the table of commands, Handlers/Connection
--                 what a connection does with one command, and Handlers/Connection/Buffer what it
--                 does with all commands in its buffer. Handlers/Numbers has the parsers of numbers.
--   PubSub        `Conn`, `ConnState` and `CancelationFutur` of radixox/src/bin/utils/mod.rs.
--                 PubSub/Registry and PubSub/Channels have `SubRegistry`; PubSub/Writer has
--                 `trigger_write`, `handle_pubsub_write` and `write_task`, cut into steps.
--   Slab          the interface of the crate hislab, and in Slab/Bounded an allocator that has its laws
--   FreeList      the lists of vacant places
--   Common        names of the libraries, Boolean tests, lists, association lists, the codes of a text,
--                 and `Run`, a value or a panic
--   Tests         runs on small inputs
--
-- State and errors. A method that takes `&mut self` is a function from the state to the state, beside
-- what it returns. A failed `assert!`, `expect` or index is `panic`. Numbers are natural numbers;
-- where a field is narrower than what is stored in it, the remainder is written out. A value has any
-- type in the tree: tag and union of a node stand for an optional value. A hash map is a list of
-- entries under distinct keys. `debug_assert!` is left out.
--
-- Crates. `hislab` and `arrayvec` are records of operations and laws. The laws say what an operation
-- does while there is room, and what it reads back. The definitions take them as a parameter. So they
-- do with floating-point numbers (a type with its sum, its parser and printer, and the place that
-- `OrderedFloat` gives a number in the order), with `from_utf8_lossy`, and with the encoder and the
-- decoder of redis_protocol. What an action of a connection does to the registry and the sockets is a
-- parameter of `handle_buffer`. Write halves and wakers have any type.
--
-- Tasks. The code of a task between two awaits is one step. `PubSub.Writer.Step` lets the steps of the
-- tasks that write for one connection, of publishers and of the connection interleave in any order.
-- A task that gives way between chunks takes a list of turns, of what other tasks do to the tree.
--
-- Fuel. `Tree.descend` has one unit for each byte of the key, as each round of the loop uses up
-- at least the radix that it follows; running out of it is `panic`. `Frame.write_loop` has one
-- unit for each cell of the buffer, twenty, which a number of 64 bits does not use up.
-- `Tree.Sweep.collect_all` has the depth of the stack, since a deeper recursion overflows it;
-- the handlers take that depth as a field of `Handlers.Server.Limits`. `Tree.Sweep.free_loop`
-- has the number of nodes, and gives `none` once it runs out.
-- `Handlers.Connection.Buffer.handle_buffer` has one unit more than the buffer has bytes, as each
-- command that is decoded uses up a byte at least.
--
-- Not modelled: eviction by sampling (`evict_cycle`), whose choice of nodes is a random number
-- generator's; the patterns that KEYS matches; the handlers of subscriptions and of delayed
-- commands, `ConnState::send` and the clean-up of a connection. Sockets and the runtime are left
-- out, and so are freeing of memory and layout tricks, those of shared bytes and small vectors
-- among them.
pub mod Common
pub mod Slab
pub mod Childs
pub mod Overflow
pub mod FreeList
pub mod Arena
pub mod GenArena
pub mod Command
pub mod BTree
pub mod Hash
pub mod ZSet
pub mod Value
pub mod Frame
pub mod PubSub
pub mod Expiry
pub mod CompactStr
pub mod Node
pub mod Tree
pub mod Handlers
pub mod Tests
