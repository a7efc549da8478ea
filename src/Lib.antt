-- ===== src/Lib.antt =====
-- A verification library for the C++ storage helpers: how files are read and written on remote
-- storages, and how a client keeps its messages to and from a provider in order.
--
-- The program. A storage helper (src/storageHelper.cc) gives files on some storage. For object
-- storages the key-value adapter (src/keyValueAdapter.cc) cuts a file into objects of one block
-- each, through the interface of src/keyValueHelper.h. A file that is reached through a provider is
-- buffered (src/buffering): the write buffer joins writes and hands them on in batches, which
-- multiwrite of src/storageHelper.cc writes, and the read cache reads ahead and is cleared by them.
-- The null device (src/nullDeviceHelper.cc) stands in for a storage in tests. Operations of any
-- thread reach an asynchronous storage through a scheduler (src/flatOpScheduler.h). Messages
-- travel through layers over a pool of connections (src/communication): an incoming stream of
-- messages passes the sequencer, which forwards it in order, asks for what is missing and
-- acknowledges what was taken; an outgoing stream numbers its messages and keeps them until they are
-- acknowledged. The inbox matches replies with requests, and the retrier sends a message again that
-- could not be sent.
--
-- The files.
--   Prelude: shared names, Boolean tests, products modulo a number and lists over native numbers,
--     association lists.
--   Communication/PriorityQueue: tbb::concurrent_priority_queue, of which only the documented
--     order is used, as an interface; Listed fills it with a list.
--   Communication/Sequencer: src/communication/layers/sequencer.h. `push`, `clear` and
--     `reset_sequence_number_ack` are the operations of `Buffer`; `on_message` is the callback of
--     `setOnMessageCallback`; `periodic_message_request` and `connect` are the members of that name.
--   Communication/TypedStream: src/communication/streaming/typedStream.h, with `send`, `close`,
--     `reset`, `handle_message_request` and `handle_message_acknowledgement`.
--   Communication/StreamManager: src/communication/streaming/streamManager.h, over any streams that
--     meet its interface; Typed fills it with those of Communication/TypedStream. `predicate` and
--     `callback` are those of the subscription, and `on_server_message` is a message that arrives.
--   Communication/Inbox: src/communication/layers/inbox.h, how replies are matched with requests;
--     Communication/Retrier: src/communication/layers/retrier.h.
--   Communication/Codec: src/communication/codec/packetEncoder.h and packetDecoder.h; Wire is a
--     connection between the two.
--   Communication/Client: src/communication/clprotoClientBootstrap.cc (Connect) and the handlers of
--     the upgrade response and of the handshake in src/communication/codec (Handlers).
--   Communication/ConnectionPool: src/communication/connectionPool.cc. A call of `send` is `send`,
--     then `check` and `pop` for each round of its loop; `written`, `returned` and `reconnected` are
--     the continuations that the executors run; Steps has the runs.
--   KeyValue: src/keyValueAdapter.cc. KeyValue/Helper is the storage as an interface with named
--     laws, and KeyValue/Memory fills it; KeyValue/Batches is `deleteObjects` of src/s3Helper.cc,
--     whose loop src/swiftHelper.cc and src/cephRadosHelper.cc have too. `read`, `write`, `unlink` and `truncate` are the members
--     of `KeyValueFileHandle` and `KeyValueAdapter`. KeyValue/Key is `getKey` and `getObjectId` of
--     src/keyValueHelper.h.
--   Buffering/WriteBuffer: src/buffering/writeBuffer.h, with `write`, `fsync`, `push_buffer` and
--     `confirm`; a run is a sequence of calls, delayed flushes and measurements.
--   Buffering/ReadCache: src/buffering/readCache.h, with `read`, `clear` and `would_prefetch`;
--     `completed` is the continuation of a read of the wrapped handle.
--   Buffering/BufferAgent: src/buffering/bufferAgent.h. Guard is `BufferAgentsMemoryLimitGuard`;
--     Handle is `BufferedFileHandle`, a write buffer and a read cache over one file, where
--     `batch_ended` and `block_read` are what the wrapped handle does in between; `write` is a call
--     alone, and `write_waited` one whose future is waited for.
--   Storage: src/storageHelper.cc, `multiwrite` and `getParam`, over a handle that is a parameter.
--   FlatOpScheduler: src/flatOpScheduler.h, operations of any thread that one task at a time
--     visits; `advance` is one step of the task.
--   NullDevice: src/nullDeviceHelper.cc. Tree is the simulated tree of directories; each operation
--     takes what the random generator draws.
--
-- Fuel. A loop over a priority queue takes one element out in each round, and its fuel is one more
-- than what the queue holds; a loop over a range of bytes takes at least one byte in each round,
-- and its fuel is the number of bytes; the printing of a number takes a digit off in each round, and
-- its fuel is one more than the number. The attempts at connecting end with the list of delays, and
-- their fuel is one more than its length.
--
-- Not modelled: concurrency but for that of the connection pool, of the flat scheduler and of a
-- buffered handle with its batches and blocks (elsewhere each operation runs alone, and the pieces
-- of a read or a write run in order; of the mutex of an outgoing stream, what the thread of the
-- operation owns itself is modelled), batches that fail, logging, timers, sockets, the generated
-- protobuf classes, and the client libraries of S3, Swift, Ceph, GlusterFS and WebDAV with the calls
-- of them. Sequence numbers, stream ids, the sizes that the memory guard reserves and the counts of
-- the null device wrap at 64 bits; block numbers, offsets and other sizes do not, as they stay below
-- MAX_OBJECT_ID blocks or are bounded by the memory. Of the inbox, subscriptions are left out.
pub mod Buffering
pub mod Communication
pub mod FlatOpScheduler
pub mod KeyValue
pub mod NullDevice
pub mod Prelude
pub mod Storage
