-- ===== src/Shm/Layout.antt =====
-- The control block of include/hyperamp_shm_queue.h as bytes, and the operations of
-- src/hyperamp_shm_queue.c that work on them: hyperamp_queue_init and
-- hyperamp_queue_is_initialized. Address 0 is the block's first byte. The structure is packed:
-- queue_lock lies at 4036 = 36 + 2 * 125 * 16 and magic at 4052.
pub mod Init
use high_speed_cproxy.Base.{
  ℕ, ◌%◌, ◌^◌, Bool, true, false, ◌||◌, Option, none, some, ltb, ◌==◌, if◌then◌else◌,
}
use high_speed_cproxy.Memory.{Memory, store, write_le, read_le, hyperamp_safe_read_u16}
use high_speed_cproxy.Spinlock.{HyperampRet, hyperamp_ok, hyperamp_error}
use high_speed_cproxy.Shm.{HyperampShmQueue}

-- `HyperampQueueConfig`: map_mode, capacity and block_size are uint16_t, the addresses uint64_t.
pub record HyperampQueueConfig : Type 0 where
  pub map_mode : ℕ
  pub capacity : ℕ
  pub block_size : ℕ
  pub phy_addr : ℕ
  pub virt_addr : ℕ

-- HYPERAMP_QUEUE_MAGIC.
abbrev pub hyperamp_queue_magic : ℕ
hyperamp_queue_magic = 1212240208

-- What each field's bytes say.
unfoldable pub queue_at : Memory → HyperampShmQueue
unfolding read_le
queue_at p = record {
  map_mode1 = p 0;
  map_mode2 = p 1;
  header = read_le p 2 2;
  tail = read_le p 4 2;
  capacity = read_le p 6 2;
  block_size = read_le p 8 2;
  reserved = read_le p 10 2;
  phy_addr = read_le p 12 8;
  virt_addr1 = read_le p 20 8;
  virt_addr2 = read_le p 28 8;
  queue_lock = record {
    lock_value = read_le p 4036 4;
    owner_zone_id = read_le p 4040 4;
    lock_count = read_le p 4044 4;
    contention_count = read_le p 4048 4;
  };
  magic = read_le p 4052 4;
  version = read_le p 4056 4;
  enqueue_count = read_le p 4060 4;
  dequeue_count = read_le p 4064 4;
}

-- The creator's writes, in the code's order. The 16-bit fields are written byte by byte, which is
-- what `write_le` writes; the lock's four words are hyperamp_spinlock_init's.
pub write_fields : Memory → HyperampQueueConfig → Memory
unfolding write_le
write_fields p config =
    let p = store p 0 (config.map_mode % 256) in
    let p = store p 1 (config.map_mode % 256) in
    let p = write_le p 2 0 2 in
    let p = write_le p 4 0 2 in
    let p = write_le p 6 config.capacity 2 in
    let p = write_le p 8 config.block_size 2 in
    let p = write_le p 10 0 2 in
    let p = write_le p 12 config.phy_addr 8 in
    let p = write_le p 20 config.virt_addr 8 in
    let p = write_le p 28 0 8 in
    let p = write_le p 4036 0 4 in
    let p = write_le p 4040 0 4 in
    let p = write_le p 4044 0 4 in
    let p = write_le p 4048 0 4 in
    let p = write_le p 4052 hyperamp_queue_magic 4 in
    let p = write_le p 4056 1 4 in let p = write_le p 4060 0 4 in write_le p 4064 0 4

-- A NULL `config` is `none`.
pub hyperamp_queue_init :
    Memory → Option HyperampQueueConfig → (is_creator : Bool) → HyperampRet × Memory
unfolding write_fields write_le
hyperamp_queue_init p none is_creator = (hyperamp_error, p)
hyperamp_queue_init p (some config) is_creator =
    if config.block_size == 0 || config.capacity == 0
    then (hyperamp_error, p)
    else if is_creator
    then (hyperamp_ok, write_fields p config)
    else (hyperamp_ok, write_le p 28 config.virt_addr 8)

pub hyperamp_queue_is_initialized : Memory → Bool
unfolding hyperamp_safe_read_u16
hyperamp_queue_is_initialized p = ltb 0 (hyperamp_safe_read_u16 p 6)
