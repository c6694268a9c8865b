-- ===== src/Lib.antt =====
-- The storage, the commands and the server of simple-c-database.
--
-- The program is a key-value server: src/server.c reads requests from sockets, src/command.c turns them
-- into commands and runs them, and src/hashtable.c keeps the data. This library models the hash table
-- with its locks, the strings, the hash, the rounding of capacities, the commands, and the parser and the
-- callbacks of the server.
--
-- Prelude holds what the modules share: names of the standard library, tests on numbers, lists over the
-- native numbers and the integers. Bits has lemmas on masks and on the bits of a number.
--
-- Bitwise is src/bitwise_functionality.c (`next_power_of_2`), Hashing is src/hashing_functionality.c
-- (`hash`), Strings is src/string_functionality.c: a pointer to bytes is the list of the bytes that
-- follow it, `c_str` is the string before its first NUL, and NULL is `none`. `strtok`, which keeps a state
-- of its own, is a parameter of `tokenize_string`.
--
-- Table is src/hashtable.c and src/hashtable.h.
--   Table.Data: the types. A bucket is a list of 8 slots where the source has four arrays of 8; a
--     `void*` is an `Option V`. An operation returns its result, the table afterwards, the values that
--     it handed to the destroyer and its events (locks, allocations) in order, or `fault` where the
--     source accesses memory out of bounds or divides by zero.
--   Table.Scan, Table.Keys: `table_set`, `table_add`, `table_get`, `table_exist`, `table_delete`,
--     `table_replace`, and the loops and the locking that they share.
--   Table.Life: `table_create`, `table_destroy`, `table_clear`. Table.Resize: `table_resize`.
--   Table.Monitor: `table_capacity`, `table_total_elem`, `table_memory_usage`, `table_load_factor` and
--     `table_occupied_bucket_counter`.
--   Table.Slots, Table.Buckets, Table.Valid: the invariant of a slot, a bucket and a table, and the
--     abstract view of a table as a partial map from strings to values (`contents`), which reads all
--     buckets and uses no hash. Table.Writes, Table.Outcomes: the writes of the operations on a valid
--     table. Table.Calls: calls in turn on one table, and what each says of its entries. Table.Order: the
--     order in which events take and release locks. Table.Threads: threads whose events interleave. The
--     other modules have the theorems on the operations.
--
-- Command is src/command.c and src/command.h: a request, as a name and arguments with their lengths,
-- becomes an operation of Table and a response.
--   Command.Data: the types of the header. The unions have one field for each kind of content.
--   Command.Procs: the handlers `cmd_...`. Command.Registry: the table of commands, `registry_create`,
--     `find_command_index`, `stocmdcount`. Command.Build: `build_command_data`. Command.Execute:
--     `execute_command`. The other modules have the theorems.
--   The lengths of the arguments are what the caller says: where one is more than its argument or the block
--   for it has, the copy of the bytes is a fault.
--   Of the C library, `strcmp`, `bsearch`, `toupper`, `strtoul` and `snprintf` of "%zu" are written out;
--     `bsearch` has one step of fuel more than there are commands, and its range gets smaller at each
--     step. A `double` is the parameter `Floats`.
--
-- Server is src/server.c and src/server.h: a connection collects bytes until a request is whole, runs its
-- command and writes the response.
--   Server.Data: the context of a connection; the block of its buffer is the used bytes and the rest,
--     and an array that is being filled has `none` where nothing was written. Server.Buffer:
--     `append_to_buffer`, the moves of the buffer, and `strtol`. Server.Arrays: the arrays of the
--     arguments, `free_parser_resources`, `reset_parser`, and the `realloc` of a response. Server.Parse:
--     `parse_buffer`, an iteration by each state of the parser; the loop runs on fuel, and one iteration
--     more than there are bytes is enough, since each that goes on takes bytes off the buffer.
--     Server.Handlers: the callbacks. Server.Main: `main`, with the results of libuv and what the event
--     loop leaves as a parameter, and the messages as values.
--   libuv is not modelled: what it hands to a callback is an argument, and the calls of it are events.
--   A byte that is written past the end of the block of a response is an event with its index, not a
--   fault, so that what follows it can be stated.
--   Server.Run: iterations one after the other. Server.Progress: what the parser holds of a request that
--     has come in part. Server.Response: what a client gets of a result. Server.Reads: reads one after the
--     other, which the event loop hands to `on_read`. The other modules have the theorems.
--
-- Sizes, hashes and counts are natural numbers with the wrap at 2^64 written out, as on x86-64 (so the
-- branch of `next_power_of_2` for it is taken, and ENABLE_ONLY_POWER_2_SIZE is 1 as in the header).
-- The other loops are structural recursion on a string, a bucket, the list of buckets or the count of what
-- is left.
--
-- Allocation and the threads library are parameters, the record `Env` (in Server also `Net`): whether an
-- allocation of a size succeeds, and whether each function on a lock returns 0. That `calloc` fails where
-- its product overflows is written out. The destroyer of values is known by the arguments it is called
-- with, the sizer and the copy of a value are functions, and the division of doubles is a parameter.
--
-- Not modelled: what an operation does to the table is one step, so that threads interleave in their events
-- (Table.Threads) but not in the reads and writes between them; the messages but those of `main`; that
-- `execute_command` does not free what it allocates (its source frees nothing but the body of a response,
-- in `free_execute_result`); the event loop, the sockets and libuv, which are not of this repository.
pub mod Prelude
pub mod Bits
pub mod Bitwise
pub mod Hashing
pub mod Strings
pub mod Table
pub mod Command
pub mod Server
