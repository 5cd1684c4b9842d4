-- ===== src/Shm.antt =====
-- The shared-memory queue of include/hyperamp_shm_queue.h and src/hyperamp_shm_queue.c: the control
-- block as a record, the data region as bytes, and the operations under the queue's lock. `header`
-- is the slot written next and `tail` the slot read next.
--
-- An operation is `none` where the caller spins in `hyperamp_spinlock_lock`. A pointer argument that
-- the code compares with NULL is an `Option`; the queue itself is there. Printing, barriers and
-- cache maintenance change nothing here.
pub mod Layout
pub mod Bounds
pub mod Slots
pub mod Fifo
pub mod Take
pub mod Reread
pub mod ZeroCopy
pub mod Shared
pub mod Linux
mod Examples
use high_speed_cproxy.Base.{
  ℕ, ◌+◌, ◌-◌, ◌*◌, ◌%◌, ◌^◌, Bool, true, false, ◌||◌, Option, none, some, ◌>>=◌, ltb, leb, ◌==◌,
  if◌then◌else◌,
}
use high_speed_cproxy.Memory.{Memory, hyperamp_safe_memcpy}
use high_speed_cproxy.Spinlock.{
  HyperampRet, hyperamp_ok, hyperamp_error, hyperamp_again, HyperampSpinlock,
  hyperamp_spinlock_lock, hyperamp_spinlock_unlock,
}

-- `HyperampShmQueue`. The address tables, which no operation reads or writes, are left out.
pub record HyperampShmQueue : Type 0 where
  pub map_mode1 : ℕ  -- uint8_t
  pub map_mode2 : ℕ  -- uint8_t
  pub header : ℕ  -- uint16_t, as are the next four
  pub tail : ℕ
  pub capacity : ℕ
  pub block_size : ℕ
  pub reserved : ℕ
  pub phy_addr : ℕ  -- uint64_t, as are the next two
  pub virt_addr1 : ℕ
  pub virt_addr2 : ℕ
  pub queue_lock : HyperampSpinlock
  pub magic : ℕ  -- uint32_t, as are the last three
  pub version : ℕ
  pub enqueue_count : ℕ
  pub dequeue_count : ℕ

-- The control block and the bytes of the mapped data region.
pub record Shm : Type 0 where
  pub queue : HyperampShmQueue
  pub open queue use *
  pub region : Memory

-- HYPERAMP_QUEUE_IS_EMPTY, HYPERAMP_QUEUE_IS_FULL and HYPERAMP_QUEUE_LENGTH.
pub hyperamp_queue_is_empty : HyperampShmQueue → Bool
hyperamp_queue_is_empty q = q.tail == q.header

pub hyperamp_queue_is_full : HyperampShmQueue → Bool
hyperamp_queue_is_full q = (q.header + 1) % q.capacity == q.tail

pub hyperamp_queue_length : HyperampShmQueue → ℕ
hyperamp_queue_length q =
    if leb q.tail q.header then q.header - q.tail else q.capacity - q.tail + q.header

-- `(uint64_t)virt_base + (uint64_t)(index + 1) * queue->block_size`
abbrev pub slot_addr : ℕ → ℕ → ℕ → ℕ
slot_addr virt_base block_size index = (virt_base + (index + 1) * block_size) % 2 ^ 64

-- `uint16_t next = index + 1; if (next >= capacity) next -= capacity;`
abbrev pub next_index : ℕ → ℕ → ℕ
next_index capacity index =
    let next = (index + 1) % 2 ^ 16 in if leb capacity next then next - capacity else next

-- `lock ← hyperamp_spinlock_lock(...)` on the queue's lock.
pub lock_queue : Shm → ℕ → Option Shm
lock_queue s zone_id = do
  lock ← hyperamp_spinlock_lock s.queue_lock zone_id
  some (record s { queue = record (s.queue) { queue_lock = lock } })

pub unlock_queue : Shm → Shm
unlock_queue s = record s {
  queue = record (s.queue) { queue_lock = hyperamp_spinlock_unlock s.queue_lock };
}

-- `queue->header = new_header; queue->enqueue_count++;`
pub push_header : Shm → ℕ → Shm
push_header s new_header = record s {
  queue = record (s.queue) { header = new_header; enqueue_count = (s.enqueue_count + 1) % 2 ^ 32 };
}

-- `queue->tail = new_tail; queue->dequeue_count++;`
pub pop_tail : Shm → ℕ → Shm
pop_tail s new_tail = record s {
  queue = record (s.queue) { tail = new_tail; dequeue_count = (s.dequeue_count + 1) % 2 ^ 32 };
}

-- From the full test to the unlock.
pub enqueue_locked : Shm → Memory → ℕ → ℕ → HyperampRet × Shm
unfolding push_header unlock_queue
enqueue_locked s buf data_len virt_base =
    let new_header = next_index s.capacity s.header in
    let write_addr = slot_addr virt_base s.block_size s.header in
    let written = record s { region = hyperamp_safe_memcpy s.region write_addr buf 0 data_len } in
    if new_header == s.tail
    then (hyperamp_again, unlock_queue s)
    else (hyperamp_ok, unlock_queue (push_header written new_header))

-- `buf` (`data` in the code) is the caller's buffer, from its start.
pub hyperamp_queue_enqueue :
    Shm → (zone_id : ℕ) → Option Memory → (data_len virt_base : ℕ) → Option (HyperampRet × Shm)
unfolding enqueue_locked lock_queue
hyperamp_queue_enqueue s zone_id none data_len virt_base = some (hyperamp_error, s)
hyperamp_queue_enqueue s zone_id (some buf) data_len virt_base =
    if data_len == 0 || ltb s.block_size data_len
    then some (hyperamp_error, s)
    else (do locked ← lock_queue s zone_id; some (enqueue_locked locked buf data_len virt_base))

-- What a receiving call leaves: its code, the queue, the caller's buffer, and `*actual_len` (`none`
-- for a NULL pointer).
pub record Received : Type 0 where
  pub ret : HyperampRet
  pub shm : Shm
  pub buf : Option Memory
  pub actual_len : Option ℕ

-- `(max_len < queue->block_size) ? max_len : queue->block_size`
abbrev pub read_len : ℕ → ℕ → ℕ
read_len max_len block_size = if ltb max_len block_size then max_len else block_size

-- `if (actual_len) *actual_len = n;`
abbrev pub set_len : Option ℕ → ℕ → Option ℕ
set_len none n = none
set_len (some _) n = some n

-- The block at `tail`, copied to the caller's buffer.
pub read_tail : Shm → Memory → (max_len virt_base : ℕ) → Memory
read_tail s buf max_len virt_base =
    hyperamp_safe_memcpy buf 0 s.region (slot_addr virt_base s.block_size s.tail)
      (read_len max_len s.block_size)

pub dequeue_locked : Shm → Memory → ℕ → Option ℕ → ℕ → Received
unfolding read_tail pop_tail unlock_queue
dequeue_locked s buf max_len actual_len virt_base =
    if s.tail == s.header
    then record {
      ret = hyperamp_again;
      shm = unlock_queue s;
      buf = some buf;
      actual_len = actual_len;
    }
    else record {
      ret = hyperamp_ok;
      shm = unlock_queue (pop_tail s (next_index s.capacity s.tail));
      buf = some (read_tail s buf max_len virt_base);
      actual_len = set_len actual_len (read_len max_len s.block_size);
    }

pub hyperamp_queue_dequeue :
    Shm
    → (zone_id : ℕ) → Option Memory
    → (max_len : ℕ) → Option ℕ
    → (virt_base : ℕ) → Option Received
unfolding dequeue_locked lock_queue
hyperamp_queue_dequeue s zone_id none max_len actual_len virt_base =
    some (record { ret = hyperamp_error; shm = s; buf = none; actual_len = actual_len })
hyperamp_queue_dequeue s zone_id (some buf) max_len actual_len virt_base =
    if max_len == 0
    then some (record { ret = hyperamp_error; shm = s; buf = some buf; actual_len = actual_len })
    else (do
      locked ← lock_queue s zone_id
      some (dequeue_locked locked buf max_len actual_len virt_base))

pub peek_locked : Shm → Memory → ℕ → Option ℕ → ℕ → Received
unfolding read_tail unlock_queue
peek_locked s buf max_len actual_len virt_base =
    if s.tail == s.header
    then record {
      ret = hyperamp_error;
      shm = unlock_queue s;
      buf = some buf;
      actual_len = actual_len;
    }
    else record {
      ret = hyperamp_ok;
      shm = unlock_queue s;
      buf = some (read_tail s buf max_len virt_base);
      actual_len = set_len actual_len (read_len max_len s.block_size);
    }

pub hyperamp_queue_peek :
    Shm
    → (zone_id : ℕ) → Option Memory
    → (max_len : ℕ) → Option ℕ
    → (virt_base : ℕ) → Option Received
unfolding peek_locked lock_queue
hyperamp_queue_peek s zone_id none max_len actual_len virt_base =
    some (record { ret = hyperamp_error; shm = s; buf = none; actual_len = actual_len })
hyperamp_queue_peek s zone_id (some buf) max_len actual_len virt_base =
    if max_len == 0
    then some (record { ret = hyperamp_error; shm = s; buf = some buf; actual_len = actual_len })
    else (do
      locked ← lock_queue s zone_id
      some (peek_locked locked buf max_len actual_len virt_base))

pub alloc_locked : Shm → ℕ → HyperampRet × Shm × Option ℕ
unfolding push_header unlock_queue
alloc_locked s virt_base =
    let next_header = (s.header + 1) % s.capacity % 2 ^ 16 in
    if next_header == s.tail then (hyperamp_error, unlock_queue s, none) else (
      hyperamp_ok,
      unlock_queue (push_header s next_header),
      some (slot_addr virt_base s.block_size s.header),
    )

-- `slot_addr` is given by whether it is NULL; the last result is what is stored through it, if
-- anything is.
pub hyperamp_queue_alloc_slot :
    Shm
    → (zone_id : ℕ) → (has_slot_addr : Bool) → (virt_base : ℕ)
    → Option (HyperampRet × Shm × Option ℕ)
unfolding alloc_locked lock_queue
hyperamp_queue_alloc_slot s zone_id false virt_base = some (hyperamp_error, s, none)
hyperamp_queue_alloc_slot s zone_id true virt_base = do
  locked ← lock_queue s zone_id
  some (alloc_locked locked virt_base)

pub release_locked : Shm → HyperampRet × Shm
unfolding pop_tail unlock_queue
release_locked s =
    if s.tail == s.header
    then (hyperamp_error, unlock_queue s)
    else (hyperamp_ok, unlock_queue (pop_tail s ((s.tail + 1) % s.capacity % 2 ^ 16)))

pub hyperamp_queue_release_slot : Shm → (zone_id : ℕ) → Option (HyperampRet × Shm)
unfolding release_locked lock_queue
hyperamp_queue_release_slot s zone_id = do
  locked ← lock_queue s zone_id
  some (release_locked locked)
