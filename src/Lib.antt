-- ===== src/Lib.antt =====
-- A verification of mcl, a C library of containers (util/) and of an event loop (net/).
--
-- Parts. An array (util/mcl_array.c) keeps pointers in one block that doubles when it is full. A
-- list (util/mcl_list.c) is a ring of nodes around a head that stands in the list itself. A hash
-- table (util/mcl_hash.c) keeps pairs of a key and a value in 1021 such lists. They hand out
-- iterators, by which the macros of util/mcl_iterator.h walk, and call a free function that the
-- client gives, or registers for the iterator's erasing. A counted string (util/mcl_string.c) keeps
-- its characters behind its length and a reference count. A log (util/mcl_log.c) writes lines to a
-- file. The event loop has a core (net/mcl_event.c) that hands each operation to a backend, by a
-- table of functions. The backend for select (net/mcl_select.c) keeps its events in three hash
-- tables, by their descriptors, and frees an event through the table's erase function; that for
-- kqueue (net/mcl_kqueue.c) keeps two tables. The sockets (net/mcl_net_raw.c) wrap system calls.
--
-- Files.
--   Base: numbers, C's integers and pointers (Base/CTypes), tests, lists over the native numbers,
--     and Base/Faults, in which a run gives a value or a fault. A fault is undefined behaviour in
--     C.
--   Block: what malloc and realloc give for an array. A cell is indeterminate until it is written.
--     Block/Moves has the loops that shift cells.
--   Array: `mcl_array` and its operations under the names of the source without `mcl_array_`;
--     Array/Insert and Array/Delete continue it. Array/View relates an array to the list of its
--     elements, and the files below Insert and Delete go operation by operation. Array/Limits and
--     Array/Sizes are about indices out of bounds, construction and capacity. Array/Iter is the
--     iterator and its loops. Array/Api puts all calls into one step, with a specification over
--     lists (Api/Spec), the refinement (Api/Refines) and sequences of calls (Api/Session).
--   Heap: the memory in which a list has its nodes; Heap/Chain is about chains of nodes in it.
--   LinkedList: `mcl_list` and its operations under the names of the source without `mcl_list_`;
--     LinkedList/Iter is the iterator and `find`. LinkedList/Ring says when a heap holds a list.
--     LinkedList/Freeing has the calls of a free function case by case, LinkedList/Calls the calls
--     of a client, with a specification over plain sequences, and LinkedList/Session is about
--     sequences of them.
--   Keys: the two types of keys of a table, with their hashes and their comparison; Keys/Elf is
--     about the hash of a string, Keys/Compare about equality.
--   Hash: `mcl_hash` and its operations under the names of the source without `mcl_int_hash_` or
--     `mcl_hash_`, with `str_` for `mcl_str_hash_`; `delete_key` and `find_key` stand for both
--     types. A bucket is the sequence of its pairs. Hash/Buckets is about one bucket, Hash/Map
--     about the table as a map; Hash/Insert, Hash/Delete and Hash/Clean are named for the
--     operations. Hash/EraseFn is about the registered function. Hash/InMemory relates a bucket to
--     a list on the heap. Hash/Iter is the iterator with the loops over a table; Hash/Iter/Middle,
--     Walk and Sweep go from a node in a bucket over the place in the table to a whole loop;
--     Members and Removed relate its pairs to the lookup. Hash/Calls has the calls of a client,
--     with a specification, and Hash/Session is about sequences of them.
--   Str: `mcl_string` and `mcl_trim` of util/mcl_string.c; Str/Trim is about the latter.
--     Str/Counted has the other operations, under the names of the source without `mcl_string_`;
--     Copies and Compare are about them.
--   Log: `mcl_log` and its operations under the names of the source without `mcl_log_`, `info`
--     being `log_info`; Log/Buffers is about the text in them, Log/Messages about the lines and the
--     file.
--   Sockets: the wrappers under the names of the source without `mcl_`, over a record of system
--     calls; Sockets/Connect and Sockets/Send are about the two loops, Sockets/Addresses makes an
--     address.
--   Event: the events, the table of a backend's functions as a record (`EvOps`, for `mcl_evops`),
--     and the core's operations under the names of the source without `mcl_`. Event/Calls has the
--     calls of a callback case by case.
--   Select: the sets of the select backend; Select/Update adds and deletes, Select/Dispatch is the
--     event loop and Select/Ops the backend's table. Select/Registered, Adding and Deleting go
--     operation by operation; Select/Bits, Entries, Handling and Round go from one set to a round
--     of the loop, Waiting to rounds before it, and Select/Opened is about a base of the core over
--     the backend. Select/Registry says when a table and the memory fit; Listing and Serving go
--     from there to a round, Safety to the loop, Lifetime and Reach to the states that the backend
--     comes to, Cleaning is about its end, and Closing about a base of the core from its loop to
--     its end.
--   Kqueue: the kqueue backend under the names of the source; Kqueue/Deleting is about `kq_del`,
--     Kqueue/Round about a round of its loop; Kqueue/Ops is the backend's table.
--   Tests: arrays, lists, tables, strings, loggers, sockets and events at concrete values.
--
-- Modelling. A pointer is a number, 0 being NULL; memory that a pointer of the client leads to is
-- not modelled. A call of a free function is recorded, with its argument, in the order of calls,
-- and does not touch the container. A comparison function is a pure function of the two pointers.
-- malloc and realloc succeed, as the source assumes. What malloc returns for a list or a node is an
-- argument `fresh`. Sizes of arrays are `unsigned int`, with the wrap-around written out; an index
-- is an `int`. The list functions that test for a NULL list are modelled on one that is not NULL,
-- those of the array on both. The event loop has a memory of events and of the nodes that the
-- tables' values point to, in which access to what is not allocated is a fault; the tables of
-- kqueue lead to the events themselves. Its callbacks are recorded with their arguments; one may
-- ask for the end of the loop, and none adds or deletes an event. select(2) is a function of its
-- arguments and of a state of the system, without the timeout; so are kevent(2) and the calls that
-- the sockets make. The C library's snprintf is a definition, and the formatted content of a
-- message and its time are arguments.
--
-- Bounds and fuel. An array that an insertion is proved for has fewer than 2^30 elements, so that
-- doubling its capacity stays below 2^31 and each index is an `int`. A list has at most 2^20 nodes,
-- the bound in the source. A loop that does not count takes fuel; the theorems ask for more fuel
-- than there are elements, and give a result under that condition. A key of type `int` is an
-- integer without bounds; for an `int` its product with the multiplier fits in the `long` of the
-- source. The hash of a string is computed in 64 bits. `mcl_connect` needs fuel for one round per
-- 10 ms of its timeout. The event loop itself may run on; a theorem that it returns says after how
-- many rounds.
--
-- Not modelled: the asserts of the hash table on the type of keys, so that a table may have keys of
-- both types; strings with a NUL before their end as keys, which the source compares up to the NUL
-- only; the overflow of the difference of the indices in `mcl_array_delete_range`, which the source
-- computes before it tests the bounds; the access out of range when the select backend tests or
-- clears the bit of a descriptor from `FD_SETSIZE` on, which none that is registered is (`FD_SET`
-- has that fault); callbacks that add or delete events; a backend for epoll (its file is empty);
-- and what only reads one member, only allocates or only does I/O.
pub mod Base
pub mod Block
pub mod Array
pub mod Heap
pub mod LinkedList
pub mod Keys
pub mod Hash
pub mod Str
pub mod Sockets
pub mod Log
pub mod Event
pub mod Kqueue
pub mod Select
pub mod Tests
