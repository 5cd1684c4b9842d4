-- ===== src/Build/Samples.antt =====
-- A queue and buffers for the runs of the builders.
use high_speed_cproxy.Base.{refl, arith, []}
use high_speed_cproxy.Memory.{Memory}
use high_speed_cproxy.Shm.{Shm}
use high_speed_cproxy.Shm.Fifo.{Rep}
use high_speed_cproxy.Build.{GeneralProxyMsgHeader}

abbrev pub threes : Memory
threes = λ _. 3

-- An empty queue with two slots of 32 bytes.
abbrev pub empty_queue : Shm
empty_queue = record {
  queue = record {
    map_mode1 = 0;
    map_mode2 = 0;
    header = 0;
    tail = 0;
    capacity = 2;
    block_size = 32;
    reserved = 0;
    phy_addr = 0;
    virt_addr1 = 0;
    virt_addr2 = 0;
    queue_lock = record { lock_value = 0; owner_zone_id = 0; lock_count = 0; contention_count = 0 };
    magic = 1212240208;
    version = 1;
    enqueue_count = 0;
    dequeue_count = 0;
  };
  region = threes;
}

pub empty_queue-Rep : Rep 100 empty_queue []
empty_queue-Rep = record {
  valid = record {
    capacity_pos = omega arith;
    capacity_u16 = omega arith;
    header_in = omega arith;
    tail_in = omega arith;
    fits = omega arith;
    unlocked = refl;
  };
  room = omega arith;
  place = refl;
  slots = tt;
}

abbrev pub stack : GeneralProxyMsgHeader
stack = record {
  outer_header = record {
    version = 7;
    proxy_msg_type = 7;
    frontend_sess_id = 7;
    backend_sess_id = 7;
    payload_len = 7;
  };
  inner_header = threes;
  addr_info = threes;
  iot_addr_len = 3;
}
