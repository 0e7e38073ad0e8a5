-- ===== src/Tests.antt =====
-- The theorems at concrete inputs, and runs of the modelled functions.
mod Protocol
mod Conn
mod Slab
mod Pool
mod Kv
mod Config
mod Flag
mod HashTable
