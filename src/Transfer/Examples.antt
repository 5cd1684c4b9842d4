-- ===== src/Transfer/Examples.antt =====
-- Runs of the transfer functions.
use high_speed_cproxy.Base.{
  ℕ, ◌≤◌, ◌≡◌, refl, Option, none, some, false, true, List, [], ◌∷◌, arith,
}
use high_speed_cproxy.Memory.{Memory}
use high_speed_cproxy.Shm.{Shm}
use high_speed_cproxy.Shm.Fifo.{Rep}
use high_speed_cproxy.Selector.{Ret, process_error, process_ok}
use high_speed_cproxy.Pool.{SessMsgSeg}
use high_speed_cproxy.Transfer.{high_speed_data_process_b2f, high_speed_data_process_f2b}
use high_speed_cproxy.Transfer.Drain.{IsDrained, b2f_drains}
use high_speed_cproxy.Transfer.Split.{Parts, kept, total, f2b_in_order, f2b_budget}
use high_speed_cproxy.Transfer.Drain.{Fit}
use high_speed_cproxy.Transfer.Receive.{high_speed_data_process_nns}
use high_speed_cproxy.Transfer.Frames.{Chunks, Frames, rounds_of, nns_forwards}
use high_speed_cproxy.Pool.{BackendSession, link_to_queue}

abbrev threes : Memory
threes = λ _. 3

abbrev segment : ℕ → SessMsgSeg
segment len = record { len = len; shared_mem = false; payload = some threes }

-- An empty queue of two slots, which holds one message.
abbrev queue2 : Shm
queue2 = record {
  queue = record {
    map_mode1 = 0;
    map_mode2 = 0;
    header = 0;
    tail = 0;
    capacity = 2;
    block_size = 8;
    reserved = 0;
    phy_addr = 0;
    virt_addr1 = 0;
    virt_addr2 = 0;
    queue_lock = record { lock_value = 0; owner_zone_id = 0; lock_count = 0; contention_count = 0 };
    magic = 1212240208;
    version = 1;
    enqueue_count = 0;
    dequeue_count = 0;
  };
  region = threes;
}

queue2-Rep : Rep 100 queue2 []
queue2-Rep = record {
  valid = record {
    capacity_pos = omega arith;
    capacity_u16 = omega arith;
    header_in = omega arith;
    tail_in = omega arith;
    fits = omega arith;
    unlocked = refl;
  };
  room = omega arith;
  place = refl;
  slots = tt;
}

b2f_drains_example :
    (ret : Ret) × (left : List SessMsgSeg) × (s' : Shm) × (high_speed_data_process_b2f queue2 100
        (segment 2 ∷ segment 5 ∷ [])
      ≡ some (ret, left, s'))
    × IsDrained 100 queue2 s' [] (segment 2 ∷ segment 5 ∷ []) left ret
b2f_drains_example =
    b2f_drains 100 queue2 [] (segment 2 ∷ segment 5 ∷ []) queue2-Rep
      ((threes, refl), omega arith, omega arith, ((threes, refl), omega arith, omega arith, tt))

f2b_in_order_example :
    ((n : ℕ)
      → ◌≡◌ {A = Option ℕ} (some 6) (some n)
      → Parts
          (kept (segment 2 ∷ segment 5 ∷ []))
          (high_speed_data_process_f2b (λ seg. some seg.len) (some 6) (segment 2 ∷ segment 5 ∷ [])))
    × (◌≡◌ {A = Option ℕ} (some 6) none
        → high_speed_data_process_f2b (λ seg. some seg.len) (some 6) (segment 2 ∷ segment 5 ∷ [])
          ≡ (process_error, segment 2 ∷ segment 5 ∷ [], []))
f2b_in_order_example = f2b_in_order (λ seg. some seg.len) (some 6) (segment 2 ∷ segment 5 ∷ [])

some_len : (seg : SessMsgSeg) (n : ℕ) → some seg.len ≡ some n → n ≡ seg.len
some_len seg n e = ground (arith, e)

f2b_budget_example :
    total
      (high_speed_data_process_f2b (λ seg. some seg.len) (some 6) (segment 2 ∷ segment 5 ∷ [])).2
    ≤ 6
f2b_budget_example = f2b_budget (λ seg. some seg.len) 6 (segment 2 ∷ segment 5 ∷ []) some_len

-- A session that holds no message, and two reads into blocks of threes.
abbrev session : BackendSession
session = record {
  dev_id = 0;
  proto_type = 1;
  establish_mode = 1;
  sock_fd = 12;
  ip_version = 4;
  frontend_sess_id = 700;
  backend_sess_id = 5;
  state_f2b = false;
  state_b2f = false;
  sess_dev_link_state = true;
  sess_node = none;
  status = true;
  msg_f2b = [];
  msg_b2f = [];
}

abbrev chunks : Chunks
chunks = (threes, 1 ∷ 2 ∷ []) ∷ (threes, 4 ∷ []) ∷ []

nns_forwards_example :
    (segs : List SessMsgSeg) × (high_speed_data_process_nns
        (9 ∷ [])
        500
        session
        (some 3)
        (rounds_of chunks)
      ≡ some (process_ok, record session { msg_b2f = segs; state_b2f = true }, 9 ∷ 500 ∷ []))
    × Frames 700 5 chunks segs
    × Fit 4096 segs
unfolding link_to_queue
nns_forwards_example =
    nns_forwards (9 ∷ []) 500 session chunks (omega arith) (omega arith)
      (omega arith, omega arith, (omega arith, omega arith, tt))
