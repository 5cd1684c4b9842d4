-- ===== src/Shm/Layout/Init.antt =====
-- What hyperamp_queue_init of src/hyperamp_shm_queue.c leaves in the control block.
use native.Mathlib.Nat.{mod-eq_of_lt}
use high_speed_cproxy.Base.{
  ℕ, ◌+◌, ◌*◌, ◌%◌, ◌^◌, ◌≤◌, ◌<◌, ◌≡◌, refl, sym, ◌∙◌, subst, true, false, ◌||◌, some, arith, ◌==◌,
  [],
}
use high_speed_cproxy.Memory.{Memory, read_le, write_le, hyperamp_safe_read_u16}
use high_speed_cproxy.Memory.Words.{read_le-write_le, write_le_ne}
use high_speed_cproxy.Spinlock.{hyperamp_ok}
use high_speed_cproxy.Shm.{HyperampShmQueue}
use high_speed_cproxy.Shm.Layout.{
  HyperampQueueConfig, queue_at, write_fields, hyperamp_queue_init, hyperamp_queue_is_initialized,
  hyperamp_queue_magic,
}
use high_speed_cproxy.Shm.Fifo.{Rep}

-- A configuration whose fields have their C types' widths, and which the code accepts.
pub record IsConfig (config : HyperampQueueConfig) : Type 0 where
  pub capacity_pos : 0 < config.capacity
  pub capacity_u16 : config.capacity < 2 ^ 16
  pub block_size_pos : 0 < config.block_size
  pub block_size_u16 : config.block_size < 2 ^ 16
  pub phy_addr_u64 : config.phy_addr < 2 ^ 64
  pub virt_addr_u64 : config.virt_addr < 2 ^ 64

-- The queue that a creator is to leave.
abbrev pub fresh : HyperampQueueConfig → HyperampShmQueue
fresh config = record {
  map_mode1 = config.map_mode % 256;
  map_mode2 = config.map_mode % 256;
  header = 0;
  tail = 0;
  capacity = config.capacity;
  block_size = config.block_size;
  reserved = 0;
  phy_addr = config.phy_addr;
  virt_addr1 = config.virt_addr;
  virt_addr2 = 0;
  queue_lock = record { lock_value = 0; owner_zone_id = 0; lock_count = 0; contention_count = 0 };
  magic = hyperamp_queue_magic;
  version = 1;
  enqueue_count = 0;
  dequeue_count = 0;
}

module _ (p : Memory) (config : HyperampQueueConfig) (c : IsConfig config) where
  capacity_lem : read_le (write_fields p config) 6 2 ≡ config.capacity
  unfolding read_le write_le write_fields
  capacity_lem = omega arith

  block_size_lem : read_le (write_fields p config) 8 2 ≡ config.block_size
  unfolding read_le write_le write_fields
  block_size_lem = omega arith

  phy_addr_lem : read_le (write_fields p config) 12 8 ≡ config.phy_addr
  unfolding read_le write_le write_fields
  phy_addr_lem = read_le-write_le p 12 config.phy_addr 8 c.phy_addr_u64

  virt_addr_lem : read_le (write_fields p config) 20 8 ≡ config.virt_addr
  unfolding read_le write_le write_fields
  virt_addr_lem = read_le-write_le p 20 config.virt_addr 8 c.virt_addr_u64

  fields : queue_at (write_fields p config) ≡ fresh config
  unfolding read_le write_le write_fields queue_at
  fields = rw (capacity_lem, block_size_lem, phy_addr_lem, virt_addr_lem) refl

  accepted : (config.block_size == 0 || config.capacity == 0) ≡ false
  accepted = ground (arith, c.block_size_pos, c.capacity_pos)

-- The bytes of the mapping tables are the same.
pub record Tables (p w : Memory) : Type 0 where
  pub kept : (j : ℕ) → 36 ≤ j → j < 4036 → w j ≡ p j

Tables-kept : (p : Memory) (config : HyperampQueueConfig) → Tables p (write_fields p config)
unfolding write_fields
Tables-kept p config = high _ 4064 0 4 (omega arith) (
    high _ 4060 0 4 (omega arith) (
      high _ 4056 1 4 (omega arith) (
        high _ 4052 hyperamp_queue_magic 4 (omega arith) (
          high _ 4048 0 4 (omega arith) (
            high _ 4044 0 4 (omega arith) (
              high _ 4040 0 4 (omega arith) (
                high _ 4036 0 4 (omega arith) (
                  low _ 28 0 8 (omega arith) (
                    low _ 20 config.virt_addr 8 (omega arith) (
                      low _ 12 config.phy_addr 8 (omega arith) (
                        low _ 10 0 2 (omega arith) (
                          low _ 8 config.block_size 2 (omega arith) (
                            low _ 6 config.capacity 2 (omega arith) (
                              low _ 4 0 2 (omega arith) (
                                low _ 2 0 2 (omega arith)
                                  (record { kept = λ j l u. ground arith }))))))))))))))))
  where
    high : (m : Memory) (a v n : ℕ) → 4036 ≤ a → Tables p m → Tables p (write_le m a v n)
    high m a v n h t = record { kept = λ j l u. write_le_ne m a v n j (omega arith) ∙ t.kept j l u }

    low : (m : Memory) (a v n : ℕ) → a + n ≤ 36 → Tables p m → Tables p (write_le m a v n)
    low m a v n h t = record { kept = λ j l u. write_le_ne m a v n j (omega arith) ∙ t.kept j l u }

-- The creator's hyperamp_queue_init, for a configuration that the code accepts, returns HYPERAMP_OK
-- and a control block in which every field reads as configured: indices, counters and lock 0, the
-- magic number and version 1. It writes no byte of the mapping tables. With the data region in reach,
-- the queue is then a valid one that holds no message, and hyperamp_queue_is_initialized says so.
pub init_creator :
    (p : Memory) (config : HyperampQueueConfig)
    → IsConfig config
    → (w : Memory) × (hyperamp_queue_init p (some config) true ≡ (hyperamp_ok, w))
      × (queue_at w ≡ fresh config)
      × Tables p w
      × (hyperamp_queue_is_initialized w ≡ true)
      × ((virt_base : ℕ) (region : Memory)
          → virt_base + (config.capacity + 1) * config.block_size < 2 ^ 64
          → Rep virt_base (record { queue = queue_at w; region = region }) [])
unfolding hyperamp_queue_init hyperamp_queue_is_initialized hyperamp_safe_read_u16
init_creator p config c = (
  write_fields p config,
  rw (accepted p config c) refl,
  fields p config c,
  Tables-kept p config,
  ground (arith, capacity_lem p config c, c.capacity_pos),
  λ virt_base region h.
      subst (λ q. Rep virt_base (record { queue = q; region = region }) [])
        (sym (fields p config c))
        (record {
          valid = record {
            capacity_pos = c.capacity_pos;
            capacity_u16 = c.capacity_u16;
            header_in = c.capacity_pos;
            tail_in = c.capacity_pos;
            fits = h;
            unlocked = refl;
          };
          room = c.capacity_pos;
          place = ground (arith, mod-eq_of_lt c.capacity_pos);
          slots = tt;
        }),
)

-- For everybody else it returns HYPERAMP_OK and changes virt_addr2 only.
init_other :
    (p : Memory) (config : HyperampQueueConfig)
    → IsConfig config
    → (w : Memory) × (hyperamp_queue_init p (some config) false ≡ (hyperamp_ok, w))
      × (queue_at w ≡ record (queue_at p) { virt_addr2 = config.virt_addr })
      × Tables p w
unfolding hyperamp_queue_init queue_at read_le write_le
init_other p config c = (
  write_le p 28 config.virt_addr 8,
  rw (accepted p config c) refl,
  rw (read_le-write_le p 28 config.virt_addr 8 c.virt_addr_u64) refl,
  record { kept = λ j l u. grind arith },
)
