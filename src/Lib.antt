-- ===== src/Lib.antt =====
-- Verification of locasta, a collection of RPC libraries over RDMA and shared memory.
--
-- The program's parts, and the files that model them:
--
-- FastMap models fastmap/src/lib.rs, `FastMap`: the vector of optional values that starts at the
-- key `base`, with `insert`, `get`, `remove`, `contains_key` and `iter`. Keys are u32.
--
-- Copyrpc/Encoding models copyrpc/src/encoding.rs: immediate values, message headers, flow
-- metadata and response ids, over lists of bytes in little-endian order. Copyrpc/Ring models
-- copyrpc/src/ring.rs: `RingBufferState` with positions that wrap as u64, `RingBuffer::write` with
-- its split at the end of the buffer, and `RemoteRingInfo`.
--
-- Copyrpc/Endpoint models one end of a connection, `EndpointInner` of copyrpc/src/rc.rs, and
-- Copyrpc/Context the `Context` that its endpoints share. Endpoint has the state, `emit_raw`,
-- `prepare_next_batch` and `compute_credit_grant`; Endpoint/Sending the closing of a batch
-- (`fill_metadata`, `emit_wqe`, `flush`, `emit_wrap`, `handle_wrap_if_needed`); Endpoint/Calls
-- `connect_ex`, `call` and `RecvHandle::reply`; Endpoint/Receiving `process_cqe_static`. The queue
-- pair is the list of the entries posted and the number that the send queue still takes, and the
-- table of pending calls (package slab) is a parameter with its `insert` and `try_remove`. The
-- other files below Endpoint carry the proofs: the shape of a batch (Batches, Wrapping), the
-- credit invariant (Credit, Reservation, Exchange, Calling, Connecting), the bytes of a batch and
-- their way to the peer (Contents, Delivery, Transfer), the wrap mark on both ends (Skipping,
-- Marking), and where the code departs from them (Failing). Context has the queue of endpoints with something to send, which
-- `flush_endpoints` empties, the stack behind `recv`, and the count of receive buffers.
--
-- Mempc/Lamport models the channel of mempc/src/lamport.rs between two threads: `Channel` joins
-- `Inner`, `LamportSender` and `LamportReceiver`. Each of `send`, `recv` and the two `sync` makes
-- one access to what the other thread writes, so the threads' runs are sequences of whole
-- operations: `Op`, `step` and `run` give every such sequence. Mempc/Onesided models the ring of
-- mempc/src/onesided.rs, where only the sender writes, with a step for each store and each load;
-- Onesided/Lanes its callers and its server, with the limit of calls in flight. Mempc/FetchAdd
-- models the request ring of mempc/src/fetch_add.rs, which many callers fill: every access of a
-- thread to what others write is a step, and a run is a sequence of steps of any callers and the
-- server. Positions are plain numbers there, which do not reach 2 ^ 64. Mempc/UserData models
-- mempc/src/user_data.rs, the table of user data over any caller.
--
-- Inproc/Flux models, of inproc/src/flux.rs, how the nodes of a network are connected by such
-- callers, and how a node finds the caller for a peer.
--
-- Ipc models ipc/src/lib.rs, remote calls through shared memory with the same rings: `create` and
-- `connect` on the header and the clients' blocks; Ipc/Layout where these lie; Ipc/Client `call`,
-- `poll` and `call_blocking` over a client's block; Ipc/Server `poll`, `poll_with_skip`, `recv`
-- and `reply` over all blocks. Ipc/Session joins one client and the server: `Op`, `step` and `run`
-- give every order of their steps, of which a turn of a waiting loop is one. The files below it
-- carry the invariant: which slots of `user_data` belong to requests in the ring, with the server,
-- or answered.
--
-- Scalerpc/Protocol models scalerpc/src/protocol.rs: `MessageTrailer`, `RequestHeader`,
-- `ResponseHeader` (all constructors and accessors), `EndpointEntry` and `ContextSwitchEvent`,
-- with the bytes that `repr(C)` lays out on a little-endian machine. Scalerpc/Mapping models
-- scalerpc/src/mapping.rs, `VirtualMapping`: which connection owns which slot of the message
-- pools; Steps gives the mappings that sequences of calls reach. Scalerpc/Pool models
-- scalerpc/src/pool.rs: the slots' headers, the free list, and the ways to take and free a slot.
-- Scalerpc/Scheduler models `GroupContext` and `GroupScheduler` of scalerpc/src/server.rs, which
-- serve groups of connections in turn; the clock is an argument.
--
-- Aggfs/Store models aggfs/src/store.rs, `PmemStore`: chunks of files in a region of bytes that
-- are allocated once, written, read and removed. A failed `assert!` or `expect` is `none`. The
-- region itself is a list of bytes; that it is made persistent changes no byte a read sees.
-- Aggfs/Routing models aggfs/src/routing.rs: `koyama_hash`, `route` and `global_to_local`.
--
-- Benchkv/Storage models benchkv/src/storage.rs, `ShardedStore`.
--
-- Base holds what these share: the libraries' names, Boolean tests on the native numbers, vectors
-- as lists with native indices, bit masks and fields, and bytes read and written in place.
--
-- Machine integers keep their wrap-around: u64 and usize results are taken modulo 2 ^ 64 where the
-- source wraps or masks. Loops are structural; the loop on fuel, the search for a group with
-- connections in the scheduler's switch, has the bound of the source, the number of groups. The
-- loop of `flush_endpoints` has fuel too, for which one more than the length of the queue is shown
-- to be enough. Positions of an endpoint are plain numbers, since they grow from 0 by what is sent
-- and do not reach 2 ^ 64.
--
-- Not modelled: of copyrpc, setting up devices, polling completion queues, raw RDMA operations and
-- the second transport (copyrpc/src/dc.rs); the other lock-free queues of mempc and its response
-- rings, the server and client loops of scalerpc, the daemon of aggfs, and the other ways to
-- connect threads of inproc, which are left for later; the drivers and bindings (mlx5, mlx5_sys,
-- ibverbs_sys, ucx_sys), the mapping and flushing of persistent memory (pmem), and the benchmarks
-- (rpc_bench, the rest of benchkv, sola, tbb_bench), which are calls of devices, system calls and
-- measuring.
pub mod Base
pub mod FastMap
pub mod Copyrpc
pub mod Mempc
pub mod Scalerpc
pub mod Aggfs
pub mod Benchkv
pub mod Inproc
pub mod Ipc
