-- ===== src/Lib.antt =====
-- network_pool: an asynchronous TCP and UDP pool over libuv, and what can be proved of it.
--
-- The program. A client thread calls the public members of CnetworkPool (network_pool.h): bind, send
-- and close queue a request under a lock and wake the loop thread. The loop thread runs libuv;
-- network_pool.cpp is the callbacks that libuv makes there: on_wakeup takes the queued requests up,
-- the others serve accepted, connected, read, written, timed out and closed handles. Handles are the
-- objects of uv_wrapper.h and uv_wrapper.cpp; nodes, which name peers and key every table, are those
-- of network_node.h; what happens is reported through the callback object of network_callback.h.
--
-- The files.
--   Common, Common/*      the libraries' names, Boolean tests and measures on the native numbers.
--   Node, Node/*          network_node.h: Csockaddr (Node/Address, Node/Text), CnetworkNode (Node,
--                         Node/Hash) and CnetworkPair (Node/Pair), with their comparisons and hashes.
--   Table, Table/*        std::unordered_map keyed by a node, as an association list.
--   Handle, Handle/*      uv_wrapper.h and uv_wrapper.cpp: Ctcp with its timer (Handle/Stream), Cudp
--                         and Casync (Handle/Datagram); what an operation on handles leaves alone
--                         (Handle/Extends), and the close callbacks (Handle/Closing).
--   Pool                  the members of CnetworkPool as a record, and the calls of
--                         CnetworkPoolCallback (network_callback.h) as data.
--   Pool/Connection       getStreamByNode, dropWaiting, pushWaiting, getWriteFromWaitingByNode,
--                         startupTcpConnection_may_set_nullptr, shutdownTcpConnection_set_nullptr.
--   Pool/Setup            bindAndListenTcp, connectTcp, bindAndListenUdp.
--   Pool/Wakeup, Wakeup/* on_wakeup: its loops over the binds, the sends and the closes, and the
--                         branch that stops the pool.
--   Pool/Events           the other callbacks of network_pool.cpp.
--   Pool/Api              bind, send, close, the fields of the constructor, the destructor and
--                         internalThread.
--   Pool/Start            the constructor with the thread that it waits for.
--   Pool/Step             one step for each entry point, and histories of steps.
--   Pool/Messages/*       the account of the messages and of their memory.
--   Pool/Status/*         what connectionStatus tells the client, against the table of connections.
--   Pool/Shutdown,        shutdownTcpConnection_set_nullptr alone, and twice.
--     Pool/Shutdown/Twice
--   Pool/Exit             the wakeup that stops the pool.
--   Buffer, Buffer/*      buffer.h: Cbuffer over memory that an allocation gives or fails to give.
--   WorkQueue,            work_queue.h: CworkQueue and its threads; what is run and deleted
--     WorkQueue/*         (WorkQueue/Account), in which order (WorkQueue/Order), and how they
--                         return (WorkQueue/Join).
--   Allocator,            fast_allocator.cpp: __alloc, __free and the store of each size.
--     Allocator/Store
--   MemoryTrace,          memory_trace.h: the allocations and releases of CmemoryTrace, its counters
--     MemoryTrace/*       (Account), and the objects in its memory (Objects).
--   Heap, Heap/*          CmemoryTrace and the class operators of fast_allocator.h over the stores of
--                         fast_allocator.cpp, and where each block is.
--   Http                  http_context.h: the members of ChttpContext as a record.
--   Http/Text, Header     the text functions, kvDecoder and decoderHeaderAndUpdateState.
--   Http/Analysis         analysis, one pass at a time and all passes with fuel.
--   Http/Memory, Safety/* its accesses to the memory, and the context that makes them safe.
--   Http/Progress,        the passes end (Progress, its Steps); the whole call.
--     Rounds
--   Http/Arrival,         the same call when more has arrived (Arrival, its Steps), and a message in
--     Streaming           pieces.
--   Http/Receive,         init, prepareBuffer and recvPush, the room that there is (Room), and the
--     Receive/*           context from its construction on (Kept, Ready).
--   Http/Content,         getInfo, getParameter (Content/Info, Content/Fields), getContent
--     Content/*           (Content/Merge) and reinitForNext (Content/Next, Next/Parting).
--   Http/Parts, Parts/*   the parts of the body that analysis finds, for one pass (Steps) and for a
--                         whole call (Whole).
--   Http/Chunks,          a body in chunks as it is written, against analysis (Sizes, Lines, Reading)
--     Chunks/*            and getContent (RoundTrip).
--   HttpServer,           http_server.h: the loop of ChttpServer::message (HttpServer, Serve, Loop);
--     HttpServer/*        its tasks, and ChttpTask of http_server.cpp (Tasks, Cancel); its callbacks
--                         over the table of connections (Connections, Invariant, Safety).
--   Peer, Peer/*          peer_server.h: CpeerContext; the packets of bytes (Peer/Frames), the loop of
--                         getContent (Peer/Rounds, Peer/Loop), what it finds (Peer/RoundTrip,
--                         Peer/Packets), and prepareBuffer (Peer/Shrink); CpeerServer (Peer/Server).
--   Tests/*               a pool, a history, and the theorems at concrete inputs.
--
-- How state and calls correspond. A handle is a number; `Loop` holds the flags of each handle, the
-- calls made of libuv and of the allocator, newest first, and `answers`, which gives the result of
-- each call still to come, 0 for success. libuv is not part of the repository: nothing is assumed of
-- its answers, and every theorem holds for all of them. An operation takes a pool and gives the pool
-- after it; a pointer that may be null is an Option, and the jumps to an error label are branches.
-- The calls of the callback object are collected in `notices`, and the message buffers that were
-- given back in `freed`, both newest first. A message buffer is its bytes; moving a Cbuffer into a
-- request moves the bytes. libuv keeps the requests that it has not called back in `writes` and
-- `udp_sends`. An unordered_map is a list, of which the order stands for the order of iteration.
--
-- In Buffer, Http and Peer an access outside of the memory is a fault, and the memory that an
-- allocation gives is an argument. The parts besides the pool are modelled apart from it: of an
-- allocation the pool sees only whether it succeeds. In Heap a block is a number, what `malloc` gives
-- is an argument of each call, and the bytes that it was asked for are kept beside the block.
--
-- The functions of libuv and of the system that read and write the text of an address are the
-- parameter `Names` of Node/Text, and a text is its bytes.
--
-- In Http a place in the buffer is an index and a byte is its value from 0 to 255; the lines and the
-- parts of the body are newest first, and the length -1 of a line is `none`. A pass is what stands
-- between two tests of the state or of a loop over the bytes, and ends with the next pass, with a
-- return, or with a fault. The bytes of a piece of a message are in the memory from the start,
-- behind those that have arrived; m_nowIndex says which have. The multimap of getParameter is a
-- list.
--
-- Concurrency. The callbacks run on the loop thread alone. A client call touches only the queue that
-- it appends to, under the lock that on_wakeup holds while it takes the queues: so calls and
-- callbacks are steps, and a history is any sequence of them. A call that the callback object makes
-- from within a callback is a step after it. A wakeup may come at any time, since libuv merges them.
-- In WorkQueue each critical section of a thread is a step, a history is any interleaving, and a thread
-- that waits on the condition variable goes on once a notice or a wakeup of its own has woken it.
--
-- The store of a size in Allocator is a list, where the source links the blocks through their own
-- bytes. The two agree as long as no block is freed while it is in a store: that would close the links
-- of the source to a circle, and is left out by the hypotheses of the theorems that need it.
--
-- Peer takes the low byte of a length first, as the machines do that the program is built for, and
-- takes the misspelled names of peer_server.h for what they mean. Whether there is memory for the
-- Cbuffer of a packet and its place in the vector is an argument, one answer for each packet.
--
-- In HttpServer what `_new_no_throw` and the allocation for a task give is an argument, one for each
-- task, and the task is its context. In its Connections the arrival of bytes is the call of
-- allocateMemoryForMessage, what libuv then leaves in the memory, and the call of message.
--
-- Bounds. Every loop runs over a list, but for three. The fuel of analysis (Http) is twice the
-- number of bytes that are not analysed yet, and 2, which is enough since each pass takes a byte or
-- leaves one of two states that a pass without a byte cannot enter again; the fuel of getContent
-- (Peer) is one more than the number of bytes, of which a packet takes at least 4; that of message
-- (HttpServer) is one more than the number of bytes that have arrived, of which a message takes at
-- least one. Sizes and ports are native numbers; the hash is kept modulo 2 ^ 64 and the timeouts
-- modulo 2 ^ 32 as in the source, and the counters of CmemoryTrace wrap as theirs do.
--
-- Not modelled. The branch `default` of the switches over the protocol, which no node reaches; the
-- size in bytes of allocations of requests in the pool; logging, and np_dbg.h with it; the sign of
-- the status of a connect, of which the code reads only whether it is below 0, given as 0 or not 0;
-- the value of atoi for a number that does not fit an int, cut to 32 bits here; what a constructor or a
-- destructor of an object does to the memory, which is an argument in MemoryTrace/Objects.
pub mod Common
pub mod Node
pub mod Buffer
pub mod Table
pub mod Handle
pub mod Heap
pub mod Pool
pub mod Http
pub mod HttpServer
pub mod Peer
pub mod MemoryTrace
pub mod Allocator
pub mod WorkQueue
mod Tests
