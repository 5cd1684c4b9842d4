-- ===== src/Pool/Create/Samples.antt =====
-- A pool and what its environment answers, for the runs of high_speed_create_sess_active.
use high_speed_cproxy.Base.{refl, ℕ, Bool, none, some, true, false, [], ◌∷◌}
use high_speed_cproxy.Pool.{BackendSession, HighSpeedNetDevice, BackendSessionPool}
use high_speed_cproxy.Pool.Nodes.{IsApart}
use high_speed_cproxy.Pool.Create.{SessMsgPara, Answers}

-- A device with one free node, 8.
abbrev pub device : HighSpeedNetDevice
device = record {
  active = true;
  ns_id = some 3;
  udp_node_queue = 4 ∷ [];
  tcp_node_queue = [];
  free_node_queue = 8 ∷ [];
}

pub apart8 : IsApart device 8
apart8 = record { udp = refl; tcp = refl }

-- A pool with the ids 1 and 2 free and nothing else in use.
abbrev pub pool : BackendSessionPool
pool = record {
  wired = true;
  dev_num = 1;
  sess_num = 0;
  id_queue = 1 ∷ 2 ∷ [];
  queue_f2b = [];
  queue_b2f = [];
  htable = [];
  heap = λ _. none;
  hs_net_dev = λ _. device;
  node_sess = λ _. none;
  epoll = [];
  fds = [];
  sent = [];
}

abbrev pub para : SessMsgPara
para = record { frontend_sess_id = 77; ip_version = 4; dev_id = 0; trans_proto = 1 }

-- What the block holds: the number given as `dev_id`.
abbrev pub rubbish : ℕ → BackendSession
rubbish dev_id = record {
  dev_id = dev_id;
  proto_type = 9;
  establish_mode = 9;
  sock_fd = 9;
  ip_version = 9;
  frontend_sess_id = 9;
  backend_sess_id = 9;
  state_f2b = false;
  state_b2f = false;
  sess_dev_link_state = true;
  sess_node = none;
  status = true;
  msg_f2b = [];
  msg_b2f = [];
}

abbrev pub answers : (dev_id : ℕ) → (epoll_ok sent_ok : Bool) → Answers
answers dev_id epoll_ok sent_ok = record {
  block = some (500, rubbish dev_id);
  junk_id = 0;
  junk_resp = record { op_status = 9; code = 9 };
  auto_dev = some 0;
  socket = some 12;
  connects = true;
  epoll_ok = epoll_ok;
  sent_ok = sent_ok;
}
