-- ===== src/ShmPool/Examples.antt =====
-- Runs of the older queue.
use high_speed_cproxy.Base.{ℕ, ◌<◌, ◌≡◌, arith, true, some}
use high_speed_cproxy.Memory.{Memory}
use high_speed_cproxy.Selector.{process_ok}
use high_speed_cproxy.ShmPool.{
  SharedMemoryPoolQueue, shm_pool_queue_head_alloc, shared_mem_pool_queue_recv_zc,
}
use high_speed_cproxy.ShmPool.Indices.{IsValid}
use high_speed_cproxy.ShmPool.Order.{received, alloc_received}

-- A queue of four slots of 16 bytes at address 1000, which holds the messages from slot `tail` to slot 3.
abbrev queue : (tail : ℕ) → SharedMemoryPoolQueue
queue tail = record {
  map_mode1 = 0;
  header = 3;
  tail = tail;
  capacity = 4;
  block_size = 16;
  phy_addr = 0;
  virt_addr1 = 1000;
  table1 = λ _. 0;
  table2 = λ _. 0;
  pool = true;
}

queue-IsValid : (tail : ℕ) → tail < 4 → IsValid (queue tail)
queue-IsValid tail h = record { capacity_u16 = omega arith; header_in = omega arith; tail_in = h }

alloc_received_example :
    (q1 : SharedMemoryPoolQueue) × (q2 : SharedMemoryPoolQueue) × (received 1
        (shm_pool_queue_head_alloc (queue 2)).2
      ≡ some q1)
    × (shared_mem_pool_queue_recv_zc q1 ≡ (process_ok, (shm_pool_queue_head_alloc (queue 2)).1, q2))
    × (q2.header ≡ q2.tail)
alloc_received_example =
    alloc_received (queue 2) (queue-IsValid 2 (omega arith)) (omega arith)
      (λ e. absurd (ground (arith, e)))

abbrev fives : Memory
fives = λ _. 5
