-- ===== src/Shm/Linux/Setup.antt =====
-- What the set-up of src/hyperamp_shm_queue.c leaves: two empty queues and a cleared data region that
-- their slots do not leave, and what unmapping gives back.
use high_speed_cproxy.Base.{Bool}
use high_speed_cproxy.Shm.Linux.{selected}
use high_speed_cproxy.Base.{false}
use high_speed_cproxy.Base.{
  ℕ, ◌+◌, ◌*◌, ◌^◌, ◌≤◌, ◌<◌, ◌≡◌, ◌⊎◌, inl, inr, refl, ap, ◌∙◌, fun_ext, dec_lt, true, none, some,
  arith, ltb, if◌then◌else◌, [],
}
use high_speed_cproxy.Memory.{Memory, hyperamp_safe_memset}
use high_speed_cproxy.Memory.Copy.{hyperamp_safe_memset_ne, hyperamp_safe_memset_at}
use high_speed_cproxy.Spinlock.{hyperamp_ok}
use high_speed_cproxy.Shm.Fifo.{Rep}
use high_speed_cproxy.Shm.Layout.{queue_at, hyperamp_queue_init}
use high_speed_cproxy.Shm.Layout.Init.{IsConfig, init_creator}
use high_speed_cproxy.Shm.Linux.{
  HyperampLinuxContext, Platform, page_offset, map_physical_memory, unmap_physical_memory,
  mapped_at, opened_with, block, put_block, map_size, data_size, queue_capacity, set_queues,
  tx_config, rx_config, ready, init_rx, tx_done, rx_done, map_done, hyperamp_linux_init,
  shm_queue_size, default_block_size,
}

-- Every slot of a queue of the capacity that hyperamp_linux_init chooses lies in the data region, for
-- every physical address, and the capacity is at least 2 and at most 256.
pub queue_capacity_fits :
    (phys_addr : ℕ)
    → ((queue_capacity phys_addr + 1) * default_block_size ≤ data_size phys_addr)
      × (2 ≤ queue_capacity phys_addr)
      × (queue_capacity phys_addr ≤ 256)
unfolding queue_capacity
queue_capacity_fits phys_addr = (ground arith, ground arith, ground arith)

-- The context once the memory is mapped.
abbrev mapped_context :
    Platform → HyperampLinuxContext → (phys_addr size fd mapped : ℕ) → HyperampLinuxContext
mapped_context platform ctx phys_addr size fd mapped = record ctx {
  fd_mem = some fd;
  shm_base = mapped + page_offset platform phys_addr;
  shm_size = size;
  phys_addr = phys_addr;
}

map_physical_memory_lem :
    (platform : Platform) (ctx : HyperampLinuxContext) (phys_addr size fd mapped : ℕ)
    → platform.opened ≡ some fd
    → platform.mmap (size + page_offset platform phys_addr) phys_addr ≡ some mapped
    → map_physical_memory platform ctx phys_addr size
      ≡ (hyperamp_ok, mapped_context platform ctx phys_addr size fd mapped)
unfolding map_physical_memory opened_with mapped_at
map_physical_memory_lem platform ctx phys_addr size fd mapped ho hm = rw (ho, hm) refl

-- After a successful map_physical_memory into an unmapped context, unmap_physical_memory passes to
-- `munmap` the base and the size that `mmap` was used with, closes the descriptor that was opened, and
-- leaves nothing mapped and nothing open.
map_unmap :
    (platform : Platform) (ctx : HyperampLinuxContext) (phys_addr size fd mapped : ℕ)
    → platform.opened ≡ some fd
    → platform.mmap (size + page_offset platform phys_addr) phys_addr ≡ some mapped
    → 0 < mapped
    → (ctx' : HyperampLinuxContext) × (map_physical_memory platform ctx phys_addr size
        ≡ (hyperamp_ok, ctx'))
      × ((unmap_physical_memory platform ctx').1
          ≡ some (mapped, size + page_offset platform phys_addr))
      × ((unmap_physical_memory platform ctx').2 ≡ some fd)
      × ((unmap_physical_memory platform ctx').0.shm_base ≡ 0)
      × ((unmap_physical_memory platform ctx').0.fd_mem ≡ none)
unfolding unmap_physical_memory
map_unmap platform ctx phys_addr size fd mapped ho hm hp = (
  mapped_context platform ctx phys_addr size fd mapped,
  map_physical_memory_lem platform ctx phys_addr size fd mapped ho hm,
  ground arith,
  ground arith,
  ground arith,
  ground arith,
)

-- A field's value depends on the bytes of the control area only.
queue_at-agree :
    (p w : Memory) → ((j : ℕ) → j < shm_queue_size → w j ≡ p j) → queue_at w ≡ queue_at p
unfolding queue_at
queue_at-agree p w h =
    ap (λ q. queue_at q) {x = cut w} {y = cut p}
      (fun_ext (λ j. elim (dec_lt j shm_queue_size) [
        | yes l ↦ ground (arith, h j l)
        | no l ↦ ground arith
      ]))
  where
    cut : Memory → Memory
    cut q j = if ltb j shm_queue_size then q j else 0

module _ (m : Memory) (a : ℕ) (w : Memory) where
  put_block_in : (j : ℕ) → j < shm_queue_size → put_block m a w (a + j) ≡ w j
  put_block_in j l = ground arith

  put_block_out : (j : ℕ) → (j < a) ⊎ (a + shm_queue_size ≤ j) → put_block m a w j ≡ m j
  put_block_out j h = ground arith

module _ (platform : Platform) (base phys_addr : ℕ) (m : Memory) (ctx : HyperampLinuxContext)
    (set : ctx.tx_queue ≡ base + shm_queue_size) (set_rx : ctx.rx_queue ≡ base)
    (set_data : ctx.data_region ≡ base + 2 * shm_queue_size)
    (in_phys : phys_addr + shm_queue_size < 2 ^ 64)
    (in_virt : base + map_size phys_addr < 2 ^ 64) where
  tx_config-IsConfig : IsConfig (tx_config ctx phys_addr)
  unfolding tx_config
  tx_config-IsConfig = record {
    capacity_pos = omega (arith, queue_capacity_fits phys_addr);
    capacity_u16 = omega (arith, queue_capacity_fits phys_addr);
    block_size_pos = omega arith;
    block_size_u16 = omega arith;
    phy_addr_u64 = in_phys;
    virt_addr_u64 = ground (arith, set, in_virt);
  }

  rx_config-IsConfig : IsConfig (rx_config ctx phys_addr)
  unfolding rx_config
  rx_config-IsConfig = record {
    capacity_pos = omega (arith, queue_capacity_fits phys_addr);
    capacity_u16 = omega (arith, queue_capacity_fits phys_addr);
    block_size_pos = omega arith;
    block_size_u16 = omega arith;
    phy_addr_u64 = omega arith;
    virt_addr_u64 = omega arith;
  }

  w_tx : Memory
  w_tx = (init_creator (block m ctx.tx_queue) (tx_config ctx phys_addr) tx_config-IsConfig).0

  m_tx : Memory
  m_tx = put_block m ctx.tx_queue w_tx

  w_rx : Memory
  w_rx = (init_creator (block m_tx ctx.rx_queue) (rx_config ctx phys_addr) rx_config-IsConfig).0

  m_rx : Memory
  m_rx = put_block m_tx ctx.rx_queue w_rx

  m_end : Memory
  m_end = hyperamp_safe_memset m_rx ctx.data_region 0 (data_size phys_addr)

  tx_bytes : (j : ℕ) → j < shm_queue_size → block m_end ctx.tx_queue j ≡ w_tx j
  unfolding m_end m_rx m_tx
  tx_bytes j l =
      hyperamp_safe_memset_ne m_rx ctx.data_region 0 (data_size phys_addr) (ctx.tx_queue + j)
        (inl (omega arith))
      ∙ put_block_out m_tx ctx.rx_queue w_rx (ctx.tx_queue + j) (inr (omega arith))
      ∙ put_block_in m ctx.tx_queue w_tx j l

  rx_bytes : (j : ℕ) → j < shm_queue_size → block m_end ctx.rx_queue j ≡ w_rx j
  unfolding m_end m_rx
  rx_bytes j l =
      hyperamp_safe_memset_ne m_rx ctx.data_region 0 (data_size phys_addr) (ctx.rx_queue + j)
        (inl (omega arith))
      ∙ put_block_in m_tx ctx.rx_queue w_rx j l

  tx_done_lem :
      tx_done platform ctx phys_addr m
        (hyperamp_queue_init (block m ctx.tx_queue) (some (tx_config ctx phys_addr)) true)
      ≡ (hyperamp_ok, ready ctx, m_end)
  unfolding tx_done init_rx rx_done m_end m_rx m_tx w_tx w_rx
  tx_done_lem =
      ap (λ r. tx_done platform ctx phys_addr m r)
        (init_creator (block m ctx.tx_queue) (tx_config ctx phys_addr) tx_config-IsConfig).1
      ∙ ap (λ r. rx_done platform ctx phys_addr m_tx r)
          (init_creator (block m_tx ctx.rx_queue) (rx_config ctx phys_addr) rx_config-IsConfig).1

  reach : ctx.data_region + (queue_capacity phys_addr + 1) * default_block_size < 2 ^ 64
  reach = omega (arith, queue_capacity_fits phys_addr)

  tx_Rep :
      Rep ctx.data_region
        (record { queue = queue_at (block m_end ctx.tx_queue); region = m_end })
        []
  unfolding w_tx tx_config
  tx_Rep = rw (queue_at-agree w_tx (block m_end ctx.tx_queue) tx_bytes) (
      (init_creator (block m ctx.tx_queue) (tx_config ctx phys_addr) tx_config-IsConfig).5
        ctx.data_region m_end reach)

  rx_Rep :
      Rep ctx.data_region
        (record { queue = queue_at (block m_end ctx.rx_queue); region = m_end })
        []
  unfolding w_rx rx_config
  rx_Rep = rw (queue_at-agree w_rx (block m_end ctx.rx_queue) rx_bytes) (
      (init_creator (block m_tx ctx.rx_queue) (rx_config ctx phys_addr) rx_config-IsConfig).5
        ctx.data_region m_end reach)

  cleared : (j : ℕ) → ctx.data_region ≤ j → j < ctx.data_region + data_size phys_addr → m_end j ≡ 0
  unfolding m_end
  cleared = hyperamp_safe_memset_at m_rx ctx.data_region 0 (data_size phys_addr)

  outside : (j : ℕ) → (j < base) ⊎ (base + map_size phys_addr ≤ j) → m_end j ≡ m j
  unfolding m_end m_rx m_tx
  outside j h =
      hyperamp_safe_memset_ne m_rx ctx.data_region 0 (data_size phys_addr) j
        (ground (arith, h, set_data))
      ∙ put_block_out m_tx ctx.rx_queue w_rx j (ground (arith, h, set_rx))
      ∙ put_block_out m ctx.tx_queue w_tx j (ground (arith, h, set))

-- What a creator's set-up leaves in a mapping of `map_size` bytes: two control blocks that read as empty
-- queues, a data region of zeros, and every byte outside the mapping as it was.
pub record IsSetUp (base phys_addr : ℕ) (ctx : HyperampLinuxContext) (before after : Memory)
    : Type 0 where
  pub initialized : ctx.initialized ≡ true
  pub tx_Rep :
      Rep ctx.data_region
        (record { queue = queue_at (block after ctx.tx_queue); region = after })
        []
  pub rx_Rep :
      Rep ctx.data_region
        (record { queue = queue_at (block after ctx.rx_queue); region = after })
        []
  pub cleared :
      (j : ℕ) → ctx.data_region ≤ j → j < ctx.data_region + data_size phys_addr → after j ≡ 0
  pub outside : (j : ℕ) → (j < base) ⊎ (base + map_size phys_addr ≤ j) → after j ≡ before j

-- The first set-up by a creator, at an address other than 0.
first-IsSetUp :
    (platform : Platform) (ctx : HyperampLinuxContext) (phys_addr fd mapped : ℕ) (m : Memory)
    → platform.opened ≡ some fd
    → platform.mmap (map_size phys_addr + page_offset platform phys_addr) phys_addr ≡ some mapped
    → phys_addr + shm_queue_size < 2 ^ 64
    → mapped + page_offset platform phys_addr + map_size phys_addr < 2 ^ 64
    → (ctx' : HyperampLinuxContext) × (m' : Memory) × (map_done platform phys_addr true m
          (map_physical_memory platform ctx phys_addr (map_size phys_addr))
        ≡ (hyperamp_ok, ctx', m'))
      × IsSetUp (mapped + page_offset platform phys_addr) phys_addr ctx' m m'
unfolding map_done set_queues ready
first-IsSetUp platform ctx phys_addr fd mapped m ho hm hp hv = (
  ready c,
  m_end platform base phys_addr m c refl refl refl hp hv,
  ap (λ r. map_done platform phys_addr true m r)
        (map_physical_memory_lem platform ctx phys_addr (map_size phys_addr) fd mapped ho hm)
      ∙ tx_done_lem platform base phys_addr m c refl refl refl hp hv,
  record {
    initialized = refl;
    tx_Rep = tx_Rep platform base phys_addr m c refl refl refl hp hv;
    rx_Rep = rx_Rep platform base phys_addr m c refl refl refl hp hv;
    cleared = cleared platform base phys_addr m c refl refl refl hp hv;
    outside = outside platform base phys_addr m c refl refl refl hp hv;
  },
)
  where
    base : ℕ
    base = mapped + page_offset platform phys_addr

    c : HyperampLinuxContext
    c = set_queues (mapped_context platform ctx phys_addr (map_size phys_addr) fd mapped)

-- The context is not initialised, the device opens, and `mmap` maps the shared memory at the address that is selected,
-- the given one or SHM_START_PADDR for 0, below 2^64 both physically and virtually. Then a creator's hyperamp_linux_init
-- returns HYPERAMP_OK: the two control blocks read as valid empty queues, the data region is cleared, and no
-- byte outside the mapping has changed. Calling it again, with any arguments, returns HYPERAMP_OK and
-- changes nothing.
pub linux_init_creator :
    (platform : Platform) (ctx : HyperampLinuxContext) (phys_addr fd mapped : ℕ) (m : Memory)
    → ctx.initialized ≡ false
    → platform.opened ≡ some fd
    → platform.mmap
        (map_size (selected phys_addr) + page_offset platform (selected phys_addr))
        (selected phys_addr)
      ≡ some mapped
    → selected phys_addr + shm_queue_size < 2 ^ 64
    → mapped + page_offset platform (selected phys_addr) + map_size (selected phys_addr) < 2 ^ 64
    → (ctx' : HyperampLinuxContext) × (m' : Memory) × (hyperamp_linux_init platform ctx phys_addr
          true m
        ≡ (hyperamp_ok, ctx', m'))
      × IsSetUp (mapped + page_offset platform (selected phys_addr)) (selected phys_addr) ctx' m m'
      × ((platform' : Platform) (phys_addr' : ℕ) (is_creator : Bool)
          → hyperamp_linux_init platform' ctx' phys_addr' is_creator m' ≡ (hyperamp_ok, ctx', m'))
unfolding hyperamp_linux_init
linux_init_creator platform ctx phys_addr fd mapped m fresh ho hm hp hv =
    let (ctx', m', run, set_up) =
      first-IsSetUp platform ctx (selected phys_addr) fd mapped m ho hm hp hv in
    (
      ctx',
      m',
      ap
            (λ t.
              if t
              then (hyperamp_ok, ctx, m)
              else map_done platform (selected phys_addr) true m (
                  map_physical_memory platform ctx (selected phys_addr)
                    (map_size (selected phys_addr))))
            fresh
          ∙ run,
      set_up,
      λ platform' phys_addr' is_creator. rw (set_up.initialized) refl,
    )
