-- ===== src/Responder.antt =====
-- src/responder.c: the runtime that receives frames and answers them.
pub mod Rx
pub mod Reply
pub mod Transfers
pub mod Queries
pub mod Commands
pub mod Device
pub mod Dispatch
pub mod Answers
pub mod Loop
