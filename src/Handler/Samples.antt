-- ===== src/Handler/Samples.antt =====
-- A pool and messages for the runs of the handlers.
use high_speed_cproxy.Base.{ℕ, true, false, Option, none, some, List, [], ◌∷◌}
use high_speed_cproxy.Pool.{BackendSession, HighSpeedNetDevice, BackendSessionPool}

-- A device with one free node, 8.
abbrev pub device : HighSpeedNetDevice
device = record {
  active = true;
  ns_id = some 3;
  udp_node_queue = [];
  tcp_node_queue = 4 ∷ [];
  free_node_queue = 8 ∷ [];
}

-- A session over the given device that holds no message.
abbrev pub session : (dev_id : ℕ) → BackendSession
session dev_id = record {
  dev_id = dev_id;
  proto_type = 1;
  establish_mode = 0;
  sock_fd = 12;
  ip_version = 4;
  frontend_sess_id = 700;
  backend_sess_id = 5;
  state_f2b = false;
  state_b2f = false;
  sess_dev_link_state = false;
  sess_node = none;
  status = false;
  msg_f2b = [];
  msg_b2f = [];
}

-- A pool with these entries in its table and this heap.
abbrev pub pool : (htable : List (ℕ × ℕ)) → (heap : ℕ → Option BackendSession) → BackendSessionPool
pool htable heap = record {
  wired = true;
  dev_num = 1;
  sess_num = 0;
  id_queue = 1 ∷ 2 ∷ [];
  queue_f2b = [];
  queue_b2f = [];
  htable = htable;
  heap = heap;
  hs_net_dev = λ _. device;
  node_sess = λ _. none;
  epoll = [];
  fds = [];
  sent = [];
}

-- The session at the address 500 has the id 5.
abbrev pub one_session : BackendSessionPool
one_session = pool ((5, 500) ∷ []) (λ _. some (session 0))
