-- ===== src/Communication.antt =====
-- src/communication: the layers between a message and the connections that carry it.
pub mod PriorityQueue
pub mod Sequencer
pub mod TypedStream
pub mod Retrier
pub mod Inbox
pub mod Codec
pub mod Client
pub mod ConnectionPool
pub mod StreamManager
