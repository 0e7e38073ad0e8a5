-- ===== src/HashTable.antt =====
-- src/hashtable.c: a hash table of chained buckets with tag words that grows by migration.
pub mod Bucket
pub mod Probe
pub mod Table
pub mod Migrate
pub mod Api
