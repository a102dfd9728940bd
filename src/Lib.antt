-- ===== src/Lib.antt =====
-- Verification of memqueue, an in-memory queue server with an HTTP interface.
--
-- The program. A client creates queues, posts messages to them and polls them over HTTP. The server
-- (src/http_impl.c, src/http_parser.c, src/router.c) reads a request, finds its route and calls the
-- route's handler (src/memqueue.c), which works on the queues and answers. A queue gives each message
-- the next revision; a poller waits with a binder on each queue and is woken by a new message. Queues,
-- messages and consumers expire by deadlines that are kept in trees (src/memqueue_expiry.c), which a
-- cleaner empties. Queues are found by name in a hash table that keeps its order (src/hash.c).
--
-- The files.
--   Base: Boolean tests, lists by native numbers, C strings as lists of bytes, integers, and `Run`,
--     which is what a C function ends in: a value or a fault.
--   Hash: src/hash.c. `Hash` is `struct h_hash` with its items by value; the pointer `order_next` is
--     the key of its item. The loop `while ((item = h_next(h)))` is `traverse`, on one round for each
--     item and one more.
--   Expiry: the search and the insertion walk of src/memqueue_expiry.c over a tree. The kernel's
--     rebalancing is the parameter `RbTree`: it keeps the nodes from left to right.
--   Memqueue: src/memqueue.c. `Ins` is `struct memqueue_ins` with a heap for queues, clients and
--     consumers; a pointer is an address, and a read of a freed one is a fault, as is a write that a list macro makes to a
--     freed neighbour. The binders of a freed queue stay in its list, which is kept by itself. A message is found by
--     its queue and number. Handlers are functions from a state to a reply and a state. Refs has the
--     reference counts, Sched and Cleaner the deadlines, Message a post, Poll a poll, Respond the
--     replies, Args src/args_parser.c, Handlers the routes. Invariant says when a state is in order,
--     Ledger who holds the references of each message, Links how a binder stands in two lists, and
--     Steps puts the operations together, in any order.
--   Http: Response, Receive, Connection, Path and Handle for src/http_impl.c, Str for src/http_str.c,
--     Request for src/http_parser.c, whose strings are positions in the header's buffer, and Router
--     for src/router.c, with PCRE as a parameter.
--
-- Bounds. Deadlines are of 32 bits, message numbers of 64, and wrap around; a revision is an `int`,
-- whose overflow is a fault. Loops of the cleaner run on one round for each node of the tree. A header
-- has at most 8192 bytes; a receive loop waits where the socket gives nothing more. Lengths and counts
-- of references are natural numbers.
--
-- Not modelled: sockets and threads (a handler runs to its end, and a poll is cut at its wait), the
-- clock, the JSON library, logging, the failure of an allocation, the loop of a chunked body behind its
-- first round and src/main.c.
pub mod Base
pub mod Hash
pub mod Expiry
pub mod Memqueue
pub mod Http
