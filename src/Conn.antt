-- ===== src/Conn.antt =====
-- src/conn.h and src/conn.c: the buffers of a connection and its socket calls.
pub mod Buffer
pub mod Life
pub mod World
pub mod Receive
pub mod Send
