-- ===== src/Lib.antt =====
-- A model of the simpleHttp server: what the C code under src/ does from the configuration and the
-- listening sockets to a request, from the bytes of the client to the bytes of the answer, with the
-- theorems that hold of it.
--
-- The parts and how they interact. `main` (src/main.c) runs a configuration, whose calls
-- (src/lua/setup.c) fill the driver's state, opens the listening sockets (src/socket.c) and accepts
-- clients; a child process serves each. `threadJob` (src/threadJob.c) polls a client's connection
-- and serves its requests. A request is read by `parse_request` (src/parser.c), which splits lines
-- with `splitOn_c` and takes the connection's descriptor over. `process_request` (src/parser.c) asks
-- `virtual_path_resolv` (src/lua/virtual_path.c) for a route; a route's Lua handler answers, or
-- leaves the request to the static files. A response (src/write_response.c) is filled with headers,
-- a file or a page (src/spec.h), and `write_response` sends it. The list of src/link_list.c carries
-- words, headers and plugins; src/plugin/plugin.c finds and loads plugins; src/stack.c keeps what
-- the quit handler frees.
--
-- The files:
--   Base, Printf      shared names, C's `int`, Boolean tests, `snprintf` with `%d` and `%s`
--   Effects           the surroundings as a state: which allocations, writes and `dup`s succeed, the open
--                     descriptors, what the client sent and what was sent to it. A run is `done`,
--                     `aborted` (the `abort` of `log_fatal`) or `fault` (undefined behaviour).
--                     Effects/Outcomes has the calm surroundings, where nothing fails; Effects/Returns
--                     has total correctness: a run that is `done`, with a condition; Effects/Safe has runs
--                     that may abort but meet no undefined behaviour
--   System            what is read of the machine: the file system, libmagic, the commit
--   LinkList          src/link_list.c on a heap of nodes: `create_node`, `insert_node`, `free_list`
--   FreeStack         src/stack.c, and the loop of `ctrl_c_h` in src/quit_handler.c
--   Itoa              src/itoa.c; the digits against their value, and against `%d`
--   Status, Mime      the tables of src/write_response.h and src/mime_guess.h with `lookup_status` and
--                     `ContentType`
--   Response          the record `response` of src/write_response.c and its operations; Response/Head is
--                     `gen_header`, Response/Write is `write_response`, Response/Blocks has the blocks of
--                     memory that each operation allocates and `free_response` gives back
--   Spec              `sr` of src/spec.h
--   Parser            src/parser.c up to `parse_request`; Parser/Lines is `fgets`, Parser/Tokens is
--                     `strtok` and `splitOn_c`
--   VirtualPath       src/lua/virtual_path.c; Lua and `fnmatch` are a record of functions
--   Process           `process_request` and `free_request` of src/parser.c
--   Socket            src/socket.c: `createSocket` against the table of open sockets, the addresses;
--                     Socket/Protocol has `atoproto` and `prototoa`
--   Setup             src/lua/setup.c: the functions that a configuration calls, and `init`; a script
--                     is the list of its calls, and what the Lua API says of an argument is a record
--   Main              src/main.c: the set-up as a run, the loop as steps on the server's state and its
--                     surroundings. What a poll reports, who waits at a socket and whether a child comes
--                     to its end are part of a step; the parent waits for the child.
--                     Main/Start is the set-up, Main/Start/Reached joins it with the loop
--   Quit              `ctrl_c_h` of src/quit_handler.c
--   Bindings          `lua_write_` of src/lua/lua_.c and `lua_scan_` of src/lua/scan.c
--   Job               src/threadJob.c: the keep-alive loop and the single request
--   Plugin            src/plugin/plugin.c; Plugin/Search has its searches, Plugin/Events has
--                     `trigger_event` of src/plugin/plugin_event.c with the call of the handler that
--                     the build puts in (tools/pre_proc.sh)
--   Examples          the theorems at concrete inputs
--
-- Bounds and fuel. The loop of `splitOn_c` runs on a fuel above the length of the text and the header
-- loop on one above the length of the input: each round takes a byte or more. The write loops run on
-- the number of bytes, each round writes one or more. The heap's walks run on the number of addresses
-- in use, which no list exceeds. A loop that ran out of fuel would be a fault, and the theorems show that
-- none does. Sizes of type `size_t` wrap at 2^64, and an `int` is a signed number of 32 bits.
--
-- Not modelled: memory that is given back, but for a response's and where the code uses it
-- afterwards (the headers of a request, the nodes of the list, the handle of a plugin, the path of a
-- request) or gives it back when it quits; the log, but for the abort of `log_fatal`, and with it
-- `lua_log_log` and the level that `lua_set_log_level` sets; the Lua state and its registration in
-- `lua_init`, which is glue; signals that arrive while a function runs; a poll of an empty table;
-- the vendored logger in src/log. A fault of libc that the code does not provoke by its arguments is
-- left out.
mod Base
pub mod Printf
pub mod Itoa
pub mod LinkList
pub mod FreeStack
pub mod Effects
pub mod Status
pub mod Mime
pub mod System
pub mod Response
pub mod Socket
pub mod Setup
pub mod Quit
pub mod Main
pub mod Bindings
pub mod Spec
pub mod Parser
pub mod VirtualPath
pub mod Process
pub mod Job
pub mod Plugin
pub mod Examples
