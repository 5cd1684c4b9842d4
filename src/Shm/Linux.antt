-- ===== src/Shm/Linux.antt =====
-- The Linux side's mapping and set-up of the shared memory in src/hyperamp_shm_queue.c:
-- map_physical_memory, unmap_physical_memory and hyperamp_linux_init, with the sizes and addresses
-- of include/hyperamp_shm_queue.h. What the system calls return is an argument.
pub mod Setup
use high_speed_cproxy.Base.{
  ℕ, ◌+◌, ◌-◌, ◌*◌, ◌/◌, ◌%◌, ◌^◌, Bool, true, false, ◌&&◌, Option, none, some, ltb, leb, ◌==◌,
  if◌then◌else◌,
}
use high_speed_cproxy.Memory.{Memory, hyperamp_safe_memset}
use high_speed_cproxy.Spinlock.{HyperampRet, hyperamp_ok, hyperamp_error, hyperamp_again}
use high_speed_cproxy.Shm.Layout.{HyperampQueueConfig, hyperamp_queue_init}

-- SHM_QUEUE_SIZE, DEFAULT_QUEUE_CAPACITY, DEFAULT_BLOCK_SIZE, SHM_START_PADDR, SHM_CH1_PADDR and
-- SHM_CH2_PADDR.
abbrev pub shm_queue_size : ℕ
shm_queue_size = 4096

abbrev pub default_queue_capacity : ℕ
default_queue_capacity = 256

abbrev pub default_block_size : ℕ
default_block_size = 4096

abbrev pub shm_start_paddr : ℕ
shm_start_paddr = 2113929216

abbrev pub shm_ch1_paddr : ℕ
shm_ch1_paddr = 2116026368

abbrev pub shm_ch2_paddr : ℕ
shm_ch2_paddr = 2117074944

-- `HyperampLinuxContext`. `fd_mem` is `none` for -1; the pointers are addresses, 0 for NULL.
pub record HyperampLinuxContext : Type 0 where
  pub fd_mem : Option ℕ
  pub shm_base : ℕ
  pub shm_size : ℕ
  pub phys_addr : ℕ
  pub tx_queue : ℕ
  pub rx_queue : ℕ
  pub data_region : ℕ
  pub initialized : Bool
  pub tx_count : ℕ
  pub rx_count : ℕ
  pub tx_errors : ℕ
  pub rx_errors : ℕ

-- What the system answers: the descriptor that `open("/dev/hvisor")` returns, the page size, and
-- where `mmap` puts so many bytes of physical memory from an address on.
pub record Platform : Type 0 where
  pub opened : Option ℕ
  pub page_size : ℕ
  pub mmap : (size phys_addr : ℕ) → Option ℕ

-- `phys_addr & (page_size - 1)`: a page size is a power of two.
abbrev pub page_offset : Platform → ℕ → ℕ
page_offset platform phys_addr = phys_addr % platform.page_size

-- From the result of `mmap` on.
pub mapped_at :
    HyperampLinuxContext
    → (phys_addr size offset : ℕ) → Option ℕ
    → HyperampRet × HyperampLinuxContext
mapped_at ctx phys_addr size offset none = (hyperamp_error, record ctx { fd_mem = none })
mapped_at ctx phys_addr size offset (some mapped) =
    (hyperamp_ok, record ctx { shm_base = mapped + offset; shm_size = size; phys_addr = phys_addr })

pub opened_with :
    Platform
    → HyperampLinuxContext
    → (phys_addr size : ℕ) → Option ℕ
    → HyperampRet × HyperampLinuxContext
unfolding mapped_at
opened_with platform ctx phys_addr size none = (hyperamp_error, record ctx { fd_mem = none })
opened_with platform ctx phys_addr size (some fd) =
    let offset = page_offset platform phys_addr in
    mapped_at (record ctx { fd_mem = some fd }) phys_addr size offset
      (platform.mmap (size + offset) phys_addr)

pub map_physical_memory :
    Platform → HyperampLinuxContext → (phys_addr size : ℕ) → HyperampRet × HyperampLinuxContext
unfolding opened_with
map_physical_memory platform ctx phys_addr size =
    opened_with platform ctx phys_addr size platform.opened

-- The context after it, what it passes to `munmap` (base and size) and what it passes to `close`.
pub unmap_physical_memory :
    Platform → HyperampLinuxContext → HyperampLinuxContext × Option (ℕ × ℕ) × Option ℕ
unmap_physical_memory platform ctx =
    let offset = page_offset platform ctx.phys_addr in
    if ctx.shm_base == 0 then (record ctx { fd_mem = none }, none, ctx.fd_mem) else (
      record ctx { shm_base = 0; fd_mem = none },
      some (ctx.shm_base - offset, ctx.shm_size + offset),
      ctx.fd_mem,
    )

-- The bytes from an address on, and the memory with a control area there replaced.
abbrev pub block : Memory → ℕ → Memory
block m a j = m (a + j)

abbrev pub put_block : Memory → ℕ → Memory → Memory
put_block m a w j = if leb a j && ltb j (a + shm_queue_size) then w (j - a) else m j

abbrev pub map_size : ℕ → ℕ
map_size phys_addr =
    if phys_addr == shm_ch1_paddr
    then 1048576
    else if phys_addr == shm_ch2_paddr
    then 1048576
    else 2097152

abbrev pub data_size : ℕ → ℕ
data_size phys_addr = map_size phys_addr - shm_queue_size * 2

-- The capacity, cut to what the data region holds.
pub queue_capacity : ℕ → ℕ
queue_capacity phys_addr =
    let max_capacity = data_size phys_addr / default_block_size % 2 ^ 16 in
    let max_capacity = if ltb 0 max_capacity then max_capacity - 1 else max_capacity in
    if ltb max_capacity default_queue_capacity then max_capacity else default_queue_capacity

-- The context with the three addresses set, and the configurations. HYPERAMP_MAP_MODE_CONTIGUOUS_BOTH is 0.
pub set_queues : HyperampLinuxContext → HyperampLinuxContext
set_queues ctx = record ctx {
  tx_queue = ctx.shm_base + shm_queue_size;
  rx_queue = ctx.shm_base;
  data_region = ctx.shm_base + 2 * shm_queue_size;
}

pub tx_config : HyperampLinuxContext → ℕ → HyperampQueueConfig
tx_config ctx phys_addr = record {
  map_mode = 0;
  capacity = queue_capacity phys_addr;
  block_size = default_block_size;
  phy_addr = phys_addr + shm_queue_size;
  virt_addr = ctx.tx_queue;
}

pub rx_config : HyperampLinuxContext → ℕ → HyperampQueueConfig
rx_config ctx phys_addr = record {
  map_mode = 0;
  capacity = queue_capacity phys_addr;
  block_size = default_block_size;
  phy_addr = phys_addr;
  virt_addr = ctx.rx_queue;
}

pub ready : HyperampLinuxContext → HyperampLinuxContext
ready ctx = record ctx {
  initialized = true;
  tx_count = 0;
  rx_count = 0;
  tx_errors = 0;
  rx_errors = 0;
}

-- After the second queue's initialisation: the clearing of the data region, and the last settings.
pub rx_done :
    Platform
    → HyperampLinuxContext
    → (phys_addr : ℕ) → Memory
    → HyperampRet × Memory
    → HyperampRet × HyperampLinuxContext × Memory
unfolding unmap_physical_memory ready
rx_done platform ctx phys_addr m (hyperamp_ok, w) = (
  hyperamp_ok,
  ready ctx,
  hyperamp_safe_memset (put_block m ctx.rx_queue w) ctx.data_region 0 (data_size phys_addr),
)
rx_done platform ctx phys_addr m (hyperamp_error, w) =
    (hyperamp_error, (unmap_physical_memory platform ctx).0, put_block m ctx.rx_queue w)
rx_done platform ctx phys_addr m (hyperamp_again, w) =
    (hyperamp_error, (unmap_physical_memory platform ctx).0, put_block m ctx.rx_queue w)

pub init_rx :
    Platform
    → HyperampLinuxContext
    → (phys_addr : ℕ) → Memory
    → HyperampRet × HyperampLinuxContext × Memory
unfolding rx_done rx_config
init_rx platform ctx phys_addr m =
    rx_done platform ctx phys_addr m
      (hyperamp_queue_init (block m ctx.rx_queue) (some (rx_config ctx phys_addr)) true)

pub tx_done :
    Platform
    → HyperampLinuxContext
    → (phys_addr : ℕ) → Memory
    → HyperampRet × Memory
    → HyperampRet × HyperampLinuxContext × Memory
unfolding unmap_physical_memory init_rx
tx_done platform ctx phys_addr m (hyperamp_ok, w) =
    init_rx platform ctx phys_addr (put_block m ctx.tx_queue w)
tx_done platform ctx phys_addr m (hyperamp_error, w) =
    (hyperamp_error, (unmap_physical_memory platform ctx).0, put_block m ctx.tx_queue w)
tx_done platform ctx phys_addr m (hyperamp_again, w) =
    (hyperamp_error, (unmap_physical_memory platform ctx).0, put_block m ctx.tx_queue w)

-- What the branch of a caller that is not the creator reads and prints changes nothing.
pub map_done :
    Platform
    → (phys_addr : ℕ) → (is_creator : Bool) → Memory
    → HyperampRet × HyperampLinuxContext
    → HyperampRet × HyperampLinuxContext × Memory
unfolding set_queues tx_done tx_config ready
map_done platform phys_addr true m (hyperamp_ok, mapped) =
    let ctx = set_queues mapped in
    tx_done platform ctx phys_addr m
      (hyperamp_queue_init (block m ctx.tx_queue) (some (tx_config ctx phys_addr)) true)
map_done platform phys_addr false m (hyperamp_ok, mapped) =
    (hyperamp_ok, ready (set_queues mapped), m)
map_done platform phys_addr is_creator m (hyperamp_error, ctx) = (hyperamp_error, ctx, m)
map_done platform phys_addr is_creator m (hyperamp_again, ctx) = (hyperamp_error, ctx, m)

-- The default address, TX Queue's start, for 0.
abbrev pub selected : (phys_addr : ℕ) → ℕ
selected phys_addr = if phys_addr == 0 then shm_start_paddr else phys_addr

-- A context that is initialised stays as it is.
pub hyperamp_linux_init :
    Platform
    → HyperampLinuxContext
    → (phys_addr : ℕ) → (is_creator : Bool) → Memory
    → HyperampRet × HyperampLinuxContext × Memory
unfolding map_physical_memory map_done
hyperamp_linux_init platform ctx phys_addr is_creator m =
    let phys_addr = selected phys_addr in
    if ctx.initialized
    then (hyperamp_ok, ctx, m)
    else map_done platform phys_addr is_creator m
        (map_physical_memory platform ctx phys_addr (map_size phys_addr))
