-- ===== src/Protocol.antt =====
-- src/protocol.c and src/protocol.h: the frames and the payloads of the wire protocol.
pub mod Words
pub mod Frame
pub mod Kv
pub mod Request
pub mod Report
pub mod Stream
