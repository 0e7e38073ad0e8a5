-- ===== src/Lib.antt =====
-- A verification library for kvx, an in-memory key-value server in C.
--
-- The program's parts. A connection (src/conn.c) buffers the bytes of a socket; the protocol
-- (src/protocol.c) parses commands in the unread bytes and writes responses; the store (src/kv.c)
-- keeps items in 256 shards, each a hash table (src/hashtable.c) over items of a slab allocator
-- (src/slab_alloc.c).
--
-- Common: the names that all modules share, Boolean tests, lists over the native numbers, byte
-- strings with memcmp and memcpy.
--
-- Protocol: src/protocol.c and src/protocol.h. Types has the enumerations, structures and tables;
-- Numbers has proto_parse_uint and proto_format_uint; Line has proto_find_line; Tokens has
-- proto_is_separator and proto_tokenize; Header has proto_parse_header and what it calls; Frame has
-- proto_parse_body and protocol_parse_command; Keys has protocol_next_key; Write has the response
-- writers. A buffer is the list of its valid bytes, a pointer into it is an offset, NULL is `none`,
-- and an error code with output parameters is a `Result`. The outer loops of proto_tokenize and
-- proto_parse_get_keys take one more round of fuel than the line has bytes, and the loop of
-- proto_format_uint takes one more than the number; the theorems show that these are enough. Sizes
-- have 64 bits. `uint8_t` values are numbers; no theorem needs their bound.
--
-- Conn: src/conn.h and src/conn.c. Buffer has buffer_grow and buffer_compact, Life the functions
-- without a loop, World the calls outside the repository with their laws, Receive conn_recv and Send
-- conn_write and conn_flush. A `conn_t` is a record with one Buffer for each direction; a memory block
-- is the list of its bytes, NULL is `none`, and errno comes back with the result. The static
-- `max_buffer_size` is an argument. The loops of conn_recv and conn_flush take fuel: a call ends
-- within the bytes that it can still move plus the signals that interrupt it, and the theorems show
-- that this is enough. The loop of buffer_grow doubles a positive capacity, so the number of bytes
-- wanted bounds its rounds.
--
-- Slab: the size classes of src/slab_alloc.c. The allocator is the list of the `data_chunk_size` of its
-- classes, in their order; `alloc_class` is slab_allocator_alloc_item up to the class that it
-- allocates from. The fuel of count_slab_classes is 64 rounds for 42 classes, and that of the binary
-- search one more than the classes. Slab/Pool has the slabs behind the classes: a slab is named by its
-- number among all slabs, in the order of their malloc calls, and an item by its address, which is also
-- its handle in Item. The first word of a free chunk is the link to the next one; it is the `slab_ptr`
-- of the item there, as in the source, where 0 is NULL. malloc is a parameter, `block` its addresses and
-- `junk` what fresh memory holds; it does not fail, as the code aborts then. `free_stack` is a list with
-- the top first, and a write behind an array is a fault, `none`. Invariant states which chunks were cut
-- off and which of them are free again; an item is handed out, Live, where it was cut off and is not
-- free. slab_allocator_destroy and what it calls only free.
--
-- Flag: src/flag.h and src/flag.c. The table is the list of its entries, C strings are the bytes before
-- the NUL, the variables that flags set are indices, and the writes to them are a list. Values has the
-- conversions with the behaviour of strtoimax and strtoumax for decimal text. flag_parse takes one
-- round of fuel for each argument.
--
-- Config: src/config.h and src/config.c. Config has parse_port with the behaviour of strtoul, the two forms
-- of a listener address and parse_config over the table of Flag.
--
-- Item: src/item.h. The bytes behind the header are a list, and a pointer to an item is a number, its
-- handle; a function `mem` gives the items of the handles.
--
-- Pages: the size of a mapping in src/pages.c. Whether mmap succeeds is a parameter.
--
-- HashTable: src/hashtable.c. Bucket has the functions of one bucket, Probe the searches along a chain,
-- Table the state with hashtable_init and the access to one array of chains, Migrate the growth and Api
-- the public functions. The four fields `old_*` and the four `new_*` are a Half each, so that the pairs
-- of functions that differ in these names are one: hashtable_set_old and hashtable_set_new are set_in,
-- and get_in and delete_in likewise. An element of an array is the list of the buckets of its chain, so a
-- bucket is named by its depth. hashtable_set returns a slot, which the caller writes: write_slot. The
-- hash function is a parameter, an array has less than 2^64 bytes, and calloc and malloc do not fail,
-- as the code aborts then. The loop over the candidates of a bucket takes 9 rounds of fuel for 8 bits,
-- and ctz 8. `none` is a read through a NULL item. Table/View states what is stored under a key: the
-- item of a busy slot in the chain of the key's hash; Migrate/Whole states it of both arrays, a key
-- belonging to the new one where its chain has been moved.
--
-- Kv: src/kv.c and src/kv.h. A Shard has its table and its allocator, and the allocator the memory of
-- the items. kv_shard_set is cut at its branches: set_through tests the slot, new_item and store_item are
-- the two ways on, replace_item takes a larger item and fill writes it. A key or a value is the bytes
-- that its pointer and its length delimit, XXH3_64bits is a parameter, and every shard has malloc calls
-- of its own. A call holds the mutex of its shard from its first access to its last, so calls on a shard
-- are one behind the other. `none` is a fault: a NULL table, or a read through a NULL item. Shards states
-- when a shard is well-formed, with exactly the items of its table handed out by its allocator, and what
-- the entry of a key is; Whole states both of the store.
--
-- Not modelled: the destroy functions, which only free; listeners, pollers, unmapping and threads, which
-- are calls of the operating system; the mutexes of the shards, since the model has one call behind the
-- other; the output of help and errors; the benchmarks; and xxHash, which is another project's code.
pub mod Common
pub mod Flag
pub mod HashTable
pub mod Kv
pub mod Config
pub mod Item
pub mod Pages
pub mod Protocol
pub mod Slab
pub mod Conn
pub mod Tests
