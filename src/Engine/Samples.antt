-- ===== src/Engine/Samples.antt =====
-- Queues and pools for the runs of the engine's steps.
use high_speed_cproxy.Base.{none}
use high_speed_cproxy.Base.{false, true, update}
use high_speed_cproxy.Pool.{BackendSessionPool}
use high_speed_cproxy.Handler.Samples.{session, pool}
use high_speed_cproxy.Base.{ℕ, refl, some, List, [], ◌∷◌, arith}
use high_speed_cproxy.Memory.{Memory}
use high_speed_cproxy.Shm.{Shm}
use high_speed_cproxy.Shm.Fifo.{Rep}
use high_speed_cproxy.Pool.{BackendSession, SessMsgSeg}
use high_speed_cproxy.Pool.Links.{IsLinked}

abbrev pub threes : Memory
threes = λ _. 3

-- A queue of four slots, two of which hold a message of two bytes.
abbrev pub queue4 : Shm
queue4 = record {
  queue = record {
    map_mode1 = 0;
    map_mode2 = 0;
    header = 2;
    tail = 0;
    capacity = 4;
    block_size = 8;
    reserved = 0;
    phy_addr = 0;
    virt_addr1 = 0;
    virt_addr2 = 0;
    queue_lock = record { lock_value = 0; owner_zone_id = 0; lock_count = 0; contention_count = 0 };
    magic = 1212240208;
    version = 1;
    enqueue_count = 2;
    dequeue_count = 0;
  };
  region = threes;
}

abbrev pub messages : List (List ℕ)
messages = (3 ∷ 3 ∷ []) ∷ (3 ∷ 3 ∷ []) ∷ []

pub queue4-Rep : Rep 100 queue4 messages
queue4-Rep = record {
  valid = record {
    capacity_pos = omega arith;
    capacity_u16 = omega arith;
    header_in = omega arith;
    tail_in = omega arith;
    fits = omega arith;
    unlocked = refl;
  };
  room = omega arith;
  place = refl;
  slots = (omega arith, (refl, (refl, tt)), (omega arith, (refl, (refl, tt)), tt));
}

-- A segment of threes.
abbrev pub segment : ℕ → SessMsgSeg
segment len = record { len = len; shared_mem = false; payload = some threes }

-- A session in both queues with messages for both sides, at the address 500.
abbrev pub busy : BackendSession
busy = record (session 0) {
  state_f2b = true;
  state_b2f = true;
  msg_f2b = segment 4 ∷ [];
  msg_b2f = segment 3 ∷ segment 5 ∷ [];
}

abbrev pub busy_pool : BackendSessionPool
busy_pool = record (pool ((5, 500) ∷ []) (update (λ _. none) 500 (some busy))) {
  queue_f2b = 500 ∷ [];
  queue_b2f = 500 ∷ [];
}

pub busy_pool-IsLinked : IsLinked busy_pool
busy_pool-IsLinked = record { f2b = λ a. ground arith; b2f = λ a. ground arith }
