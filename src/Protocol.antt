-- ===== src/Protocol.antt =====
-- src/protocol.h and src/protocol.c: the text protocol.
pub mod Types
pub mod Numbers
pub mod Line
pub mod Tokens
pub mod Header
pub mod Frame
pub mod Keys
pub mod Write
