-- ===== src/Passive.antt =====
-- Sessions for connections that the backend accepts: high_speed_create_sess_passive of src/session_pool.c, which asks the
-- frontend with a message to create its side, and engine_listener_run of src/engine.c, which accepts the connections.
pub mod Outcome
pub mod Request
mod Examples
use high_speed_cproxy.Base.{
  ℕ, zero, suc, ◌+◌, ◌-◌, Bool, true, false, not, Option, none, some, ◌>>=◌, List, [], ◌∷◌, ltb,
  ◌==◌, if◌then◌else◌, update, remove,
}
use high_speed_cproxy.Memory.{Memory, write_le, hyperamp_safe_memcpy}
use high_speed_cproxy.Shm.{Shm}
use high_speed_cproxy.Selector.{Ret, process_ok, process_error}
use high_speed_cproxy.Pool.{
  BackendSession, BackendSessionPool, HighSpeedNetDevice, allocate_id, release_id,
  pop_free_session_node, push_free_session_node, insert_session_node,
}
use high_speed_cproxy.Build.{
  GeneralProxyMsgHeader, EngineTx, put_words, build_proxy_general_message,
}

-- `PassiveSessParaIP`; `endpoint` is the IPv4 address and the port, six bytes.
pub record PassiveSessParaIp : Type 0 where
  pub fd : ℕ
  pub dev_id : ℕ
  pub trans_proto : ℕ
  pub ip_version : ℕ
  pub endpoint : Memory

-- What one call meets: the block that `malloc` returns and what it holds, and `new_sess_id`, the header of the message and
-- the parameters of the session as the stack has them.
pub record PassiveStack : Type 0 where
  pub block : Option (ℕ × BackendSession)
  pub junk_id : ℕ
  pub msg_header : GeneralProxyMsgHeader
  pub paras : Memory

-- The label create_sess_passive_error: `addr` and `node` are `none` for NULL. At each jump the node is in no queue of the
-- device.
unfoldable pub create_sess_passive_error :
    BackendSessionPool
    → (addr : Option ℕ) → (id dev_id : ℕ) → (node : Option ℕ) → BackendSessionPool
create_sess_passive_error p none id dev_id other = record p {
  id_queue = if id == 0 then p.id_queue else release_id p.id_queue id;
}
create_sess_passive_error p (some addr) id dev_id none = record p {
  id_queue = if id == 0 then p.id_queue else release_id p.id_queue id;
  heap = update p.heap addr none;
}
create_sess_passive_error p (some addr) id dev_id (some spare) = record p {
  id_queue = if id == 0 then p.id_queue else release_id p.id_queue id;
  node_sess = update p.node_sess spare none;
  hs_net_dev = update p.hs_net_dev dev_id (push_free_session_node (p.hs_net_dev dev_id) spare);
  heap = update p.heap addr none;
}

-- The members of the session that are set; SESS_ESTABLISH_PASSIVE is 0. Of the two state fields stays the flag that the
-- block holds, and the queues of messages stay what the block holds.
unfoldable pub passive_filled : BackendSession → PassiveSessParaIp → (id : ℕ) → BackendSession
passive_filled raw para id = record raw {
  backend_sess_id = id;
  dev_id = para.dev_id;
  ip_version = para.ip_version;
  sock_fd = para.fd;
  establish_mode = 0;
  proto_type = para.trans_proto;
  sess_dev_link_state = false;
}

-- The header and the parameters of the message; FRONTEND_HANDOVER_SESSION_ID is 65535.
unfoldable pub request_header : PassiveStack → (id ip_version : ℕ) → GeneralProxyMsgHeader
request_header stack id ip_version = record (stack.msg_header) {
  outer_header = record (stack.msg_header.outer_header) {
    version = 1;
    proxy_msg_type = 2;
    frontend_sess_id = 65535;
    backend_sess_id = id;
  };
  inner_header = put_words stack.msg_header.inner_header 0 1 1 0 ip_version 10;
}

unfoldable pub sess_ipv4_paras :
    PassiveStack → (dev_id trans_proto : ℕ) → (endpoint : Memory) → Memory
sess_ipv4_paras stack dev_id trans_proto endpoint =
    let m = write_le stack.paras 0 dev_id 2 in
    let m = write_le m 2 trans_proto 2 in hyperamp_safe_memcpy m 4 endpoint 0 6

-- From the message on, whose code is the function's.
unfoldable pub request :
    BackendSessionPool
    → EngineTx
    → Shm
    → (global_amp_tx_buf : Memory) → PassiveSessParaIp
    → PassiveStack
    → (id : ℕ) → Option (Ret × BackendSessionPool × Shm)
unfolding request_header sess_ipv4_paras
request p engine s buf para stack id = do
  (ret, s') ←
      build_proxy_general_message (some engine) s (request_header stack id para.ip_version)
        (some (sess_ipv4_paras stack para.dev_id para.trans_proto para.endpoint)) 10 buf
  some (ret, p, s')

-- From the node on.
unfoldable pub with_node :
    BackendSessionPool
    → EngineTx
    → Shm
    → (global_amp_tx_buf : Memory) → PassiveSessParaIp
    → PassiveStack
    → (addr id : ℕ) → BackendSession
    → Option ℕ × HighSpeedNetDevice
    → Option (Ret × BackendSessionPool × Shm)
unfolding request create_sess_passive_error passive_filled
with_node p engine s buf para stack addr id raw (none, dev) =
    some (process_error, create_sess_passive_error p (some addr) id para.dev_id none, s)
with_node p engine s buf para stack addr id raw (some node, dev) =
    let sess = passive_filled raw para id in
    let (inserted, dev', linked) = insert_session_node dev node sess.proto_type false in
    let p = record p {
      node_sess = update p.node_sess node (some addr);
      hs_net_dev = update p.hs_net_dev para.dev_id dev';
      heap =
          update p.heap addr
            (some (record sess { sess_node = some node; sess_dev_link_state = linked }));
    } in
    let asked = request p engine s buf para stack id in
    if inserted
    then asked
    else some (process_error, create_sess_passive_error p (some addr) id para.dev_id (some node), s)

-- From the id on.
unfoldable pub passive_id :
    BackendSessionPool
    → EngineTx
    → Shm
    → (global_amp_tx_buf : Memory) → PassiveSessParaIp
    → PassiveStack
    → (addr : ℕ) → BackendSession
    → ℕ × List ℕ
    → Option (Ret × BackendSessionPool × Shm)
unfolding with_node create_sess_passive_error
passive_id p engine s buf para stack addr raw (id, id_queue) =
    let p = record p { id_queue = id_queue } in
    let popped =
      with_node p engine s buf para stack addr id raw
        (pop_free_session_node (p.hs_net_dev para.dev_id)) in
    if id == 0
    then some (process_error, create_sess_passive_error p (some addr) id para.dev_id none, s)
    else popped

-- `sess` is there, and `para` is `none` for NULL. SESS_IPV4_PROTO is 4 and MAX_HS_DEV_NUM is 16.
unfoldable pub high_speed_create_sess_passive :
    BackendSessionPool
    → EngineTx
    → Shm
    → (global_amp_tx_buf : Memory) → Option PassiveSessParaIp
    → PassiveStack
    → Option (Ret × BackendSessionPool × Shm)
unfolding passive_id create_sess_passive_error
high_speed_create_sess_passive p engine s buf none stack = some (process_error, p, s)
high_speed_create_sess_passive p engine s buf (some para) stack =
    if not p.wired
    then some (process_error, p, s)
    else (if not (para.ip_version == 4)
        then some (process_error, p, s)
        else (if not (ltb para.dev_id 16) then some (process_error, p, s) else elim stack.block [
          | none ↦
              some
                (process_error, create_sess_passive_error p none stack.junk_id para.dev_id none, s)
          | some (addr, raw) ↦
              passive_id (record p { heap = update p.heap addr (some raw) }) engine s buf para stack
                addr raw (allocate_id p.id_queue)
        ]))

-- What a device's listener has: none, no connection (EAGAIN), an error of another kind, or a connection with its socket and
-- where it comes from.
pub data Accept : Type 0 where
  no_listener : Accept
  no_connection : Accept
  broken : Accept
  connection : (sock_fd : ℕ) → (endpoint : Memory) → Accept

-- After create_sess_passive: the socket is closed if it failed. SESS_TCP_PROTO is 1.
unfoldable pub listened : (sock_fd : ℕ) → Ret → BackendSessionPool → BackendSessionPool
listened sock_fd process_ok p = p
listened sock_fd _ p = record p { fds = remove sock_fd p.fds }

-- The loop over the devices from `dev_cnt` on. `dev_id` is a device's own number. `none`: an error of `accept` ends the
-- program, or the caller spins on the queue's lock.
unfoldable pub listener_loop :
    (dev_id : ℕ → ℕ)
    → (accept : ℕ → Accept) → (stack : ℕ → PassiveStack) → EngineTx
    → (global_amp_tx_buf : Memory) → BackendSessionPool
    → Shm
    → (dev_cnt rounds : ℕ) → Option (BackendSessionPool × Shm)
unfolding high_speed_create_sess_passive listened
listener_loop dev_id accept stack engine buf p s dev_cnt zero = some (p, s)
listener_loop dev_id accept stack engine buf p s dev_cnt (suc n) = elim (accept dev_cnt) [
  | no_listener ↦ listener_loop dev_id accept stack engine buf p s (dev_cnt + 1) n
  | no_connection ↦ listener_loop dev_id accept stack engine buf p s (dev_cnt + 1) n
  | broken ↦ none
  | connection sock_fd endpoint ↦ (do
    (ret, p', s') ←
        high_speed_create_sess_passive (record p { fds = sock_fd ∷ p.fds }) engine s buf
          (some (record {
            fd = sock_fd;
            dev_id = dev_id dev_cnt;
            trans_proto = 1;
            ip_version = 4;
            endpoint = endpoint;
          }))
          (stack dev_cnt)
    listener_loop dev_id accept stack engine buf (listened sock_fd ret p') s' (dev_cnt + 1) n)
]

-- The engine and its parts are there; `wired` says that the pool has its operations.
unfoldable pub engine_listener_run :
    (dev_id : ℕ → ℕ)
    → (accept : ℕ → Accept) → (stack : ℕ → PassiveStack) → EngineTx
    → (global_amp_tx_buf : Memory) → BackendSessionPool
    → Shm
    → Option (BackendSessionPool × Shm)
unfolding listener_loop
engine_listener_run dev_id accept stack engine buf p s =
    let run = listener_loop dev_id accept stack engine buf p s 0 p.dev_num in
    if not p.wired then some (p, s) else (if p.dev_num == 0 then some (p, s) else run)
