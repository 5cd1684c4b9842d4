-- ===== src/Shm/Examples.antt =====
-- Runs of the shared-memory queue on small concrete queues.
use high_speed_cproxy.Base.{Bool}
use high_speed_cproxy.Base.{
  ℕ, ◌+◌, ◌*◌, ◌^◌, ◌≤◌, ◌<◌, ◌≡◌, refl, true, false, none, some, List, [], ◌∷◌, arith, length,
  take,
}
use high_speed_cproxy.Memory.{Memory}
use high_speed_cproxy.Memory.Copy.{Holds, bytes}
use high_speed_cproxy.Spinlock.{hyperamp_ok, hyperamp_error, hyperamp_again}
use high_speed_cproxy.Shm.{
  HyperampShmQueue, Shm, hyperamp_queue_is_empty, hyperamp_queue_is_full, hyperamp_queue_length,
  hyperamp_queue_enqueue, hyperamp_queue_dequeue, hyperamp_queue_peek, hyperamp_queue_alloc_slot,
  hyperamp_queue_release_slot, set_len, read_len,
}
use high_speed_cproxy.Shm.Fifo.{Rep, enqueue_fifo}
use high_speed_cproxy.Shm.Take.{dequeue_fifo, peek_keeps}
use high_speed_cproxy.Shm.ZeroCopy.{Filled, alloc_fifo, release_fifo}
use high_speed_cproxy.Shm.Shared.{Meet, over, tx_overwrites_rx}
use high_speed_cproxy.Shm.Layout.{
  HyperampQueueConfig, queue_at, hyperamp_queue_init, hyperamp_queue_is_initialized,
}
use high_speed_cproxy.Shm.Layout.Init.{IsConfig, Tables, fresh, init_creator}
use high_speed_cproxy.Shm.Linux.{HyperampLinuxContext, Platform, page_offset, hyperamp_linux_init}
use high_speed_cproxy.Shm.Linux.Setup.{IsSetUp, linux_init_creator}

abbrev sevens : Memory
sevens = λ _. 7

-- Four slots of eight bytes, with the next slot to write and to read given.
abbrev queue4 : ℕ → ℕ → HyperampShmQueue
queue4 header tail = record {
  map_mode1 = 0;
  map_mode2 = 0;
  header = header;
  tail = tail;
  capacity = 4;
  block_size = 8;
  reserved = 0;
  phy_addr = 0;
  virt_addr1 = 0;
  virt_addr2 = 0;
  queue_lock = record { lock_value = 0; owner_zone_id = 0; lock_count = 0; contention_count = 0 };
  magic = 1212240208;
  version = 1;
  enqueue_count = 0;
  dequeue_count = 0;
}

abbrev empty4 : Shm
empty4 = record { queue = queue4 0 0; region = sevens }

abbrev one4 : Shm
one4 = record { queue = queue4 1 0; region = sevens }

abbrev message7 : List ℕ
message7 = 7 ∷ 7 ∷ []

empty4-Rep : Rep 100 empty4 []
empty4-Rep = record {
  valid = record {
    capacity_pos = omega arith;
    capacity_u16 = omega arith;
    header_in = omega arith;
    tail_in = omega arith;
    fits = omega arith;
    unlocked = refl;
  };
  room = omega arith;
  place = refl;
  slots = tt;
}

one4-Rep : Rep 100 one4 (message7 ∷ [])
one4-Rep = record {
  valid = record {
    capacity_pos = omega arith;
    capacity_u16 = omega arith;
    header_in = omega arith;
    tail_in = omega arith;
    fits = omega arith;
    unlocked = refl;
  };
  room = omega arith;
  place = refl;
  slots = (omega arith, (refl, (refl, tt)), tt);
}

-- HYPERAMP_QUEUE_IS_EMPTY, HYPERAMP_QUEUE_IS_FULL and HYPERAMP_QUEUE_LENGTH, also where the indices have wrapped.
queue_tests :
    (hyperamp_queue_is_empty (queue4 0 0) ≡ true)
    × (hyperamp_queue_is_full (queue4 2 3) ≡ true)
    × (hyperamp_queue_length (queue4 3 1) ≡ 2)
    × (hyperamp_queue_length (queue4 1 3) ≡ 2)
unfolding hyperamp_queue_is_empty hyperamp_queue_is_full hyperamp_queue_length
queue_tests = (refl, refl, refl, refl)

enqueue_fifo_example :
    (length {A = List ℕ} [] + 1 < 4
      → (s' : Shm) × (hyperamp_queue_enqueue empty4 0 (some sevens) 2 100 ≡ some (hyperamp_ok, s'))
        × Rep 100 s' (bytes sevens 0 2 ∷ [])
        × (s'.block_size ≡ 8)
        × (s'.capacity ≡ 4))
    × (length {A = List ℕ} [] + 1 ≡ 4
        → (s' : Shm) × (hyperamp_queue_enqueue empty4 0 (some sevens) 2 100
            ≡ some (hyperamp_again, s'))
          × Rep 100 s' []
          × (s'.block_size ≡ 8)
          × (s'.capacity ≡ 4))
enqueue_fifo_example = enqueue_fifo 100 empty4 [] 0 sevens 2 empty4-Rep (omega arith) (omega arith)

dequeue_fifo_example :
    (s' : Shm) × (buf' : Memory) × (hyperamp_queue_dequeue one4 0 (some sevens) 8 none 100
      ≡ some (record {
        ret = hyperamp_ok;
        shm = s';
        buf = some buf';
        actual_len = set_len none (read_len 8 8);
      }))
    × Holds buf' 0 (take 8 message7)
    × Rep 100 s' []
dequeue_fifo_example =
    (dequeue_fifo 100 one4 (message7 ∷ []) 0 sevens 8 none one4-Rep (omega arith)).0 message7 []
      refl

peek_keeps_example :
    (s' : Shm) × Rep 100 s' []
    × ((m : List ℕ) (rest : List (List ℕ))
        → [] ≡ m ∷ rest
        → (buf' : Memory) × (hyperamp_queue_peek empty4 0 (some sevens) 8 none 100
            ≡ some (record {
              ret = hyperamp_ok;
              shm = s';
              buf = some buf';
              actual_len = set_len none (read_len 8 8);
            }))
          × Holds buf' 0 (take 8 m))
    × (◌≡◌ {A = List (List ℕ)} [] []
        → hyperamp_queue_peek empty4 0 (some sevens) 8 none 100
          ≡ some (record { ret = hyperamp_error; shm = s'; buf = some sevens; actual_len = none }))
peek_keeps_example = peek_keeps 100 empty4 [] 0 sevens 8 none empty4-Rep (omega arith)

alloc_fifo_example :
    (s' : Shm) × (a : ℕ) × (hyperamp_queue_alloc_slot one4 0 true 100
      ≡ some (hyperamp_ok, s', some a))
    × (100 + 8 ≤ a)
    × (a + 8 ≤ 100 + (4 + 1) * 8)
    × ((w : Shm) (x : List ℕ) → Filled a 8 s' w x → Rep 100 w (message7 ∷ x ∷ []))
alloc_fifo_example = (alloc_fifo 100 one4 (message7 ∷ []) 0 one4-Rep).0 (omega arith)

release_fifo_example :
    (s' : Shm) × (hyperamp_queue_release_slot one4 0 ≡ some (hyperamp_ok, s')) × Rep 100 s' []
release_fifo_example = (release_fifo 100 one4 (message7 ∷ []) 0 one4-Rep).0 message7 [] refl

-- The sending queue is about to write slot 0, which the receiving queue is about to read.
meet4 : Meet 100 empty4 (queue4 1 0) [] message7
meet4 = record {
  sending = empty4-Rep;
  receiving = one4-Rep;
  room = omega arith;
  same_block = refl;
  same_slot = refl;
}

tx_overwrites_rx_example :
    (tx' : Shm) × (hyperamp_queue_enqueue empty4 0 (some (λ _. 9)) 2 100 ≡ some (hyperamp_ok, tx'))
    × Rep 100 (over (queue4 1 0) tx') (bytes (λ _. 9) 0 2 ∷ [])
tx_overwrites_rx_example =
    tx_overwrites_rx 100 empty4 (queue4 1 0) [] message7 0 (λ _. 9) 2 meet4 (omega arith)
      (omega arith)

abbrev config4 : HyperampQueueConfig
config4 = record { map_mode = 0; capacity = 4; block_size = 8; phy_addr = 4096; virt_addr = 8192 }

config4-IsConfig : IsConfig config4
config4-IsConfig = record {
  capacity_pos = omega arith;
  capacity_u16 = omega arith;
  block_size_pos = omega arith;
  block_size_u16 = omega arith;
  phy_addr_u64 = omega arith;
  virt_addr_u64 = omega arith;
}

init_creator_example :
    (w : Memory) × (hyperamp_queue_init sevens (some config4) true ≡ (hyperamp_ok, w))
    × (queue_at w ≡ fresh config4)
    × Tables sevens w
    × (hyperamp_queue_is_initialized w ≡ true)
    × ((virt_base : ℕ) (region : Memory)
        → virt_base + (4 + 1) * 8 < 2 ^ 64
        → Rep virt_base (record { queue = queue_at w; region = region }) [])
init_creator_example = init_creator sevens config4 config4-IsConfig

-- A device that opens as 3 and maps at 65536.
abbrev platform : Platform
platform = record { opened = some 3; page_size = 4096; mmap = λ size phys_addr. some 65536 }

abbrev no_context : HyperampLinuxContext
no_context = record {
  fd_mem = none;
  shm_base = 0;
  shm_size = 0;
  phys_addr = 0;
  tx_queue = 0;
  rx_queue = 0;
  data_region = 0;
  initialized = false;
  tx_count = 0;
  rx_count = 0;
  tx_errors = 0;
  rx_errors = 0;
}

linux_init_creator_example :
    (ctx' : HyperampLinuxContext) × (m' : Memory) × (hyperamp_linux_init platform no_context 0 true
        sevens
      ≡ (hyperamp_ok, ctx', m'))
    × IsSetUp (65536 + page_offset platform 2113929216) 2113929216 ctx' sevens m'
    × ((platform' : Platform) (phys_addr' : ℕ) (is_creator : Bool)
        → hyperamp_linux_init platform' ctx' phys_addr' is_creator m' ≡ (hyperamp_ok, ctx', m'))
linux_init_creator_example =
    linux_init_creator platform no_context 0 3 65536 sevens refl refl refl (omega arith)
      (ground arith)
