-- ===== src/Buffering.antt =====
-- src/buffering: what a proxied file keeps in memory.
pub mod WriteBuffer
pub mod ReadCache
pub mod BufferAgent
