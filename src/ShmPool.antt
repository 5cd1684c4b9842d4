-- ===== src/ShmPool.antt =====
-- The older shared-memory queue of include/shared_mem_io.h and src/shared_mem_io.c: its macros on the indices, and
-- shared_mem_pool_queue_create_backend, _initialize, _send_oc and _recv_zc. Its memory pool is a placeholder
-- whose functions do nothing.
pub mod Indices
pub mod Order
mod Examples
use high_speed_cproxy.Base.{
  ℕ, ◌+◌, ◌-◌, ◌*◌, ◌%◌, ◌^◌, Bool, true, false, not, ◌&&◌, ◌||◌, Option, none, some, ltb, leb,
  ◌==◌, if◌then◌else◌,
}
use high_speed_cproxy.Memory.{Memory, hyperamp_safe_memcpy}
use high_speed_cproxy.Selector.{Ret, process_ok, process_error, process_again}

-- `struct SharedMemoryPoolQueue`: a byte, four uint16_t, addresses, and the virtual addresses of the two tables.
pub record SharedMemoryPoolQueue : Type 0 where
  pub map_mode1 : ℕ
  pub header : ℕ
  pub tail : ℕ
  pub capacity : ℕ
  pub block_size : ℕ
  pub phy_addr : ℕ
  pub virt_addr1 : ℕ
  pub table1 : ℕ → ℕ
  pub table2 : ℕ → ℕ
  pub pool : Bool

-- `SharedMemoryPoolQueueConfig`; capacity and block_size are size_t.
pub record SharedMemoryPoolQueueConfig : Type 0 where
  pub pool : Bool
  pub map_mode : ℕ
  pub phy_addr : ℕ
  pub virt_addr : ℕ
  pub capacity : ℕ
  pub block_size : ℕ

-- SHMP_QUEUE_ENQUEUE and SHMP_QUEUE_DEQUEUE, with their results.
unfoldable pub shmp_queue_enqueue : SharedMemoryPoolQueue → Ret × SharedMemoryPoolQueue
shmp_queue_enqueue queue =
    let header = (queue.header + 1) % 2 ^ 16 in
    let header = if leb queue.capacity header then header - queue.capacity else header in
    if header == queue.tail || leb queue.capacity header
    then (process_error, queue)
    else (process_ok, record queue { header = header })

unfoldable pub shmp_queue_dequeue : SharedMemoryPoolQueue → Ret × SharedMemoryPoolQueue
shmp_queue_dequeue queue =
    let tail = (queue.tail + 1) % 2 ^ 16 in
    if queue.tail == queue.header then (process_error, queue) else (
      process_ok,
      record queue { tail = if leb queue.capacity tail then tail - queue.capacity else tail },
    )

-- SHMP_QUEUE_USED_MEMORY and SHMP_QUEUE_SURPLUS_MEMORY.
unfoldable pub shmp_queue_used_memory : SharedMemoryPoolQueue → ℕ
shmp_queue_used_memory queue =
    (if leb queue.header queue.tail
      then queue.tail - queue.header
      else queue.capacity - queue.header + queue.tail)
    * queue.block_size

unfoldable pub shmp_queue_surplus_memory : SharedMemoryPoolQueue → ℕ
shmp_queue_surplus_memory queue =
    (if leb queue.header queue.tail
      then queue.capacity - (queue.tail - queue.header)
      else queue.header - queue.tail)
    * queue.block_size

-- SHM_POOL_QUEUE_LOOKUP_VIRTADDR; `none` is ERROR_SHARED_MEM_ADDR.
unfoldable pub shm_pool_queue_lookup_virtaddr :
    SharedMemoryPoolQueue → (table_id idx : ℕ) → Option ℕ
shm_pool_queue_lookup_virtaddr queue table_id idx =
    if not (table_id == 1) && not (table_id == 2)
    then none
    else (if leb queue.capacity idx
        then none
        else (if table_id == 1 then some (queue.table1 idx) else some (queue.table2 idx)))

-- `(queue->header + 1) % (uint16_t)queue->capacity`, for a capacity above 0.
abbrev pub next_header : SharedMemoryPoolQueue → ℕ
next_header queue = (queue.header + 1) % queue.capacity

-- SHM_POOL_QUEUE_HEAD_ALLOC and SHM_POOL_QUEUE_ALLOC_FROM_HEADER, for pointers that are not NULL: the
-- address, `none` for ERROR_SHARED_MEM_ADDR. The first also has a code.
unfoldable pub shm_pool_queue_head_alloc :
    SharedMemoryPoolQueue → Ret × Option ℕ × SharedMemoryPoolQueue
shm_pool_queue_head_alloc queue =
    if not (next_header queue == queue.tail)
    then (
      process_ok,
      some (queue.virt_addr1 + (queue.header + 1) * queue.block_size),
      record queue { header = next_header queue },
    )
    else (process_error, none, queue)

unfoldable pub shm_pool_queue_alloc_from_header :
    SharedMemoryPoolQueue → Option ℕ × SharedMemoryPoolQueue
unfolding shm_pool_queue_lookup_virtaddr
shm_pool_queue_alloc_from_header queue =
    if not (next_header queue == queue.tail)
    then (if queue.map_mode1 == 0
        then (
          some (queue.virt_addr1 + (queue.header + 1) * queue.block_size),
          record queue { header = next_header queue },
        )
        else (if queue.map_mode1 == 1
            then (
              shm_pool_queue_lookup_virtaddr queue 1 queue.header,
              record queue { header = next_header queue },
            )
            else (none, queue)))
    else (none, queue)

-- SHM_POOL_QUEUE_HEAD_ROLLBACK.
unfoldable pub shm_pool_queue_head_rollback : SharedMemoryPoolQueue → SharedMemoryPoolQueue
shm_pool_queue_head_rollback queue = if queue.header == queue.tail then queue else record queue {
  header = if queue.header == 0 then queue.capacity - 1 else queue.header - 1;
}

-- shared_mem_pool_queue_create_backend: `queue_mem` is the memory that the first malloc returns, with what is in it,
-- `block_mem` the address that the second returns, `none` for NULL.
unfoldable pub shared_mem_pool_queue_create_backend :
    (queue_mem : Option SharedMemoryPoolQueue)
    → (block_mem : Option ℕ) → Option SharedMemoryPoolQueueConfig
    → Option SharedMemoryPoolQueue
shared_mem_pool_queue_create_backend queue_mem block_mem none = none
shared_mem_pool_queue_create_backend none block_mem (some config) = none
shared_mem_pool_queue_create_backend (some queue) none (some config) = none
shared_mem_pool_queue_create_backend (some queue) (some virt_addr) (some config) =
    if not (config.map_mode == 0 || config.map_mode == 1)
    then none
    else some (record queue {
      map_mode1 = config.map_mode;
      pool = config.pool;
      block_size = config.block_size % 2 ^ 16;
      capacity = config.capacity % 2 ^ 16;
      virt_addr1 = virt_addr;
      phy_addr = config.phy_addr;
      header = 0;
      tail = 0;
    })

-- shared_mem_pool_queue_initialize, whose second store to the capacity is the last.
unfoldable pub shared_mem_pool_queue_initialize :
    Option SharedMemoryPoolQueue
    → Option SharedMemoryPoolQueueConfig
    → Ret × Option SharedMemoryPoolQueue
shared_mem_pool_queue_initialize none config = (process_error, none)
shared_mem_pool_queue_initialize (some queue) none = (process_error, some queue)
shared_mem_pool_queue_initialize (some queue) (some config) =
    if not config.pool || config.block_size == 0 then (process_error, some queue) else (
      process_ok,
      some (record queue {
        pool = config.pool;
        phy_addr = config.phy_addr;
        virt_addr1 = config.virt_addr;
        capacity = config.block_size % 2 ^ 16;
        block_size = config.block_size % 2 ^ 16;
        header = 0;
        tail = 0;
      }),
    )

-- shared_mem_pool_queue_send_oc, on the memory at the queue's addresses.
unfoldable pub shared_mem_pool_queue_send_oc :
    Option SharedMemoryPoolQueue
    → Memory
    → (buf : Option Memory) → (data_size : ℕ) → Ret × Option SharedMemoryPoolQueue × Memory
unfolding shmp_queue_enqueue
shared_mem_pool_queue_send_oc none m buf data_size = (process_error, none, m)
shared_mem_pool_queue_send_oc (some queue) m none data_size = (process_error, some queue, m)
shared_mem_pool_queue_send_oc (some queue) m (some buf) data_size =
    let (ret, queue') = shmp_queue_enqueue queue in
    if queue.block_size == 0
    then (process_error, some queue, m)
    else (if data_size == 0 || ltb queue.block_size data_size
        then (process_error, some queue, m)
        else (if (queue.header + 1) % queue.capacity == queue.tail
            then (process_again, some queue, m)
            else (
              ret,
              some queue',
              hyperamp_safe_memcpy m (queue.virt_addr1 + queue.header * queue.block_size) buf 0
                  data_size,
            )))

-- shared_mem_pool_queue_recv_zc, for a queue and pointers that are there: the code, what is stored at `buffer`, if anything
-- is, and the queue. Nothing is stored at `out_data_size`.
unfoldable pub shared_mem_pool_queue_recv_zc :
    SharedMemoryPoolQueue → Ret × Option ℕ × SharedMemoryPoolQueue
unfolding shmp_queue_dequeue
shared_mem_pool_queue_recv_zc queue =
    let (ret, queue') = shmp_queue_dequeue queue in
    if queue.block_size == 0
    then (process_error, none, queue)
    else (if queue.header == queue.tail
        then (process_again, none, queue)
        else (ret, some (queue.virt_addr1 + (queue.tail + 1) * queue.block_size), queue'))
