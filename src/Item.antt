-- ===== src/Item.antt =====
-- src/item.h: the header of an item and the accessors of its key and value.
pub mod Laws
use kvx.Common.{
  ℕ, ◌+◌, ◌%◌, ◌^◌, Bool, false, Bytes, take, slice, memcpy, same_bytes, ◌==◌, if◌then◌else◌,
}

-- `slab_ptr` is the number of the slab, and `payload` the bytes of the flexible array `data`.
pub record Item : Type 0 where
  pub slab_ptr : ℕ
  pub key_len : ℕ
  pub flags : ℕ
  pub data_size : ℕ
  pub value_len : ℕ
  pub expire_at : ℕ
  pub payload : Bytes

-- The bytes that the pointer and the length of item_key delimit, and those of item_value.
abbrev pub item_key : Item → Bytes
item_key item = take item.key_len item.payload

abbrev pub item_value : Item → Bytes
item_value item = slice item.payload item.key_len item.value_len

-- `key_len` has 16 bits and `value_len` 32.
unfoldable pub item_set_key : Item → Bytes → ℕ → Item
item_set_key item key len = record item {
  key_len = len % 2 ^ 16;
  payload = memcpy item.payload 0 (take len key);
}

unfoldable pub item_set_value : Item → Bytes → ℕ → Item
item_set_value item value len = record item {
  value_len = len % 2 ^ 32;
  payload = memcpy item.payload item.key_len (take len value);
}

unfoldable pub item_key_matches : Item → Bytes → ℕ → Bool
item_key_matches item compared_key len =
    if len == item.key_len
    then same_bytes (take len item.payload) (take len compared_key)
    else false
