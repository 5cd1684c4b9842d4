-- ===== src/Passive/Outcome.antt =====
-- What high_speed_create_sess_passive of src/session_pool.c leaves behind.
use high_speed_cproxy.Base.{not}
use high_speed_cproxy.Base.{
  ℕ, ◌+◌, ◌<◌, ◌≤◌, ◌≡◌, ◌≢◌, ◌∙◌, refl, arith, Bool, true, false, none, some, List, [], ◌∷◌, ◌++◌,
  ◌==◌, ◌||◌, ltb, length, update,
}
use high_speed_cproxy.Memory.{Memory}
use high_speed_cproxy.Shm.{Shm}
use high_speed_cproxy.Shm.Fifo.{Rep}
use high_speed_cproxy.Selector.{process_ok, process_error, process_again}
use high_speed_cproxy.Pool.{
  BackendSession, BackendSessionPool, HighSpeedNetDevice, allocate_id, append_node,
  pop_free_session_node, insert_session_node,
}
use high_speed_cproxy.Pool.Table.{high_speed_search_sess}
use high_speed_cproxy.Handler.Session.{with_session, passive_create}
use high_speed_cproxy.Build.Response.Sent.{wired}
use high_speed_cproxy.Passive.{
  PassiveSessParaIp, PassiveStack, passive_filled, request, with_node, passive_id,
  high_speed_create_sess_passive,
}
use high_speed_cproxy.Passive.Request.{create_command, request_lem}

-- A call that finds memory, an id, a free node of the device, and a protocol that there is.
pub record IsAccepting (p : BackendSessionPool) (para : PassiveSessParaIp) (stack : PassiveStack)
    (addr id node : ℕ) (raw : BackendSession) (rest nodes : List ℕ) : Type 0 where
  pub has_ops : p.wired ≡ true
  pub ipv4 : para.ip_version ≡ 4
  pub dev_in : para.dev_id < 16
  pub block : stack.block ≡ some (addr, raw)
  pub ids : p.id_queue ≡ id ∷ rest
  pub id_pos : id ≢ 0
  pub free : (p.hs_net_dev para.dev_id).free_node_queue ≡ node ∷ nodes
  pub proto : para.trans_proto ≤ 1

-- The pool with the session on the heap and its node in the device's queue.
abbrev pub accepted :
    BackendSessionPool
    → PassiveSessParaIp
    → (addr id node : ℕ) → BackendSession
    → (rest nodes : List ℕ) → BackendSessionPool
accepted p para addr id node raw rest nodes = record p {
  id_queue = rest;
  node_sess = update p.node_sess node (some addr);
  hs_net_dev = update p.hs_net_dev para.dev_id (
      append_node (record (p.hs_net_dev para.dev_id) { free_node_queue = nodes }) node
        para.trans_proto);
  heap = update (update p.heap addr (some raw)) addr (
      some (record (passive_filled raw para id) {
        sess_node = some node;
        sess_dev_link_state = true;
      }));
}

pop_lem :
    (dev : HighSpeedNetDevice) (node : ℕ) (nodes : List ℕ)
    → dev.free_node_queue ≡ node ∷ nodes
    → pop_free_session_node dev ≡ (some node, record dev { free_node_queue = nodes })
unfolding pop_free_session_node
pop_lem dev node nodes e = rw e refl

insert_lem :
    (dev : HighSpeedNetDevice) (node proto_type : ℕ)
    → proto_type ≤ 1
    → insert_session_node dev node proto_type false ≡ (true, append_node dev node proto_type, true)
unfolding insert_session_node
insert_lem dev node proto_type h =
    let test : (proto_type == 0 || proto_type == 1) ≡ true = ground (arith, h) in rw test refl

module _ (p : BackendSessionPool) (para : PassiveSessParaIp) (stack : PassiveStack)
    (addr id node : ℕ) (raw : BackendSession) (rest nodes : List ℕ)
    (h : IsAccepting p para stack addr id node raw rest nodes) (data_region : ℕ) (s : Shm)
    (buf : Memory) where
  abbrev q : BackendSessionPool
  q = accepted p para addr id node raw rest nodes

  asked :
      high_speed_create_sess_passive p (wired data_region) s buf (some para) stack
      ≡ request q (wired data_region) s buf para stack id
  unfolding high_speed_create_sess_passive passive_id with_node allocate_id passive_filled
  asked =
      let ops : not p.wired ≡ false = ground (arith, h.has_ops) in
      let v4 : (para.ip_version == 4) ≡ true = ground (arith, h.ipv4) in
      let dev : ltb para.dev_id 16 ≡ true = ground (arith, h.dev_in) in
      let id_test : (id == 0) ≡ false = ground (arith, h.id_pos) in
      rw
        (
          ops,
          v4,
          dev,
          h.block,
          h.ids,
          id_test,
          pop_lem (p.hs_net_dev para.dev_id) node nodes h.free,
          insert_lem (record (p.hs_net_dev para.dev_id) { free_node_queue = nodes }) node
              para.trans_proto h.proto,
        )
        refl

  -- A call of high_speed_create_sess_passive that finds memory, an id, a free node of a device that there is, TCP or UDP over
  -- IPv4, and a valid queue with blocks of at least 28 bytes. If the queue has room, the command to create the
  -- session with the new id, the device, the protocol and the other end's address is appended to it and the code
  -- is BACKEND_PROXY_PROCESS_OK. If it is full the code is BACKEND_PROXY_PROCESS_AGAIN and nothing is queued, but the pool
  -- is the same: the id, the node and the session's memory stay taken. In either case the table of sessions is
  -- what it was, so where the id is not in the table no session answers to it, and the frontend's response
  -- to the command is refused.
  pub passive_created :
      (ms : List (List ℕ))
      → Rep data_region s ms
      → 28 ≤ s.block_size
      → (length ms + 1 < s.capacity
          → (s' : Shm) × (high_speed_create_sess_passive p
                (wired data_region)
                s
                buf
                (some para)
                stack
              ≡ some (process_ok, q, s'))
            × Rep data_region s'
                (ms ++ (create_command id para.dev_id para.trans_proto para.endpoint ∷ [])))
        × (length ms + 1 ≡ s.capacity
            → (s' : Shm) × (high_speed_create_sess_passive p
                  (wired data_region)
                  s
                  buf
                  (some para)
                  stack
                ≡ some (process_again, q, s'))
              × Rep data_region s' ms)
        × (high_speed_search_sess p id ≡ none
            → (mem_pool epoll_ok : Bool)
            → passive_create q mem_pool epoll_ok id ≡ some (process_error, q))
  unfolding high_speed_search_sess passive_create with_session
  passive_created ms r fits =
      let (room, full) = request_lem para stack buf id q data_region s ms r fits h.ipv4 in
      (
        λ l. let (s', e, r') = room l in (s', asked ∙ e, r'),
        λ l. let (s', e, r') = full l in (s', asked ∙ e, r'),
        λ unknown mem_pool epoll_ok. rw unknown (ground arith),
      )
