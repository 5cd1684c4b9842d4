-- ===== src/Pool/Create/Success.antt =====
-- A call of high_speed_create_sess_active of src/session_pool.c in which nothing fails up to the response,
-- and what a failed response then leaves.
use high_speed_cproxy.Base.{
  ℕ, ◌+◌, ◌≡◌, ◌≢◌, ◌<◌, ◌⊎◌, refl, ap, ◌∙◌, fun_ext, true, false, none, some, List, [], ◌∷◌, ◌++◌,
  arith, ltb, ◌==◌, if◌then◌else◌, update,
}
use high_speed_cproxy.Pool.{
  BackendSession, HighSpeedNetDevice, created, BackendSessionPool, allocate_id, release_id,
  search_in, pop_free_session_node, append_node,
}
use high_speed_cproxy.Pool.Create.{
  SessMsgPara, Answers, create_sess_error, put_sess, put_dev, recycle_sess_node, respond, inserted,
  register, filled, node_inserted, node_popped, connected, socket_made, on_device, with_id,
  allocated, high_speed_create_sess_active,
}
use high_speed_cproxy.Pool.Create.Clean.{insert_new}
use high_speed_cproxy.Pool.Create.Stages.{insert_known, update_here, update_there}

-- Nothing fails before the response: a block, an id, an active device with a namespace, a socket that
-- connects, a free node, a known protocol, and an id that the table does not have.
pub record IsSmooth (p : BackendSessionPool) (para : SessMsgPara) (a : Answers)
    (addr id d ns fd node : ℕ) (raw : BackendSession) (rest nodes : List ℕ) : Type 0 where
  pub wired : p.wired ≡ true
  pub block : a.block ≡ some (addr, raw)
  pub ids : p.id_queue ≡ id ∷ rest
  pub id_pos : id ≢ 0
  pub dev_num_pos : p.dev_num ≢ 0
  pub dev_id : (if para.dev_id == 255 then a.auto_dev else some para.dev_id) ≡ some d
  pub dev_in : d < 16
  pub active : (p.hs_net_dev d).active ≡ true
  pub ns_id : (p.hs_net_dev d).ns_id ≡ some ns
  pub socket : a.socket ≡ some fd
  pub connects : a.connects ≡ true
  pub nodes_free : (p.hs_net_dev d).free_node_queue ≡ node ∷ nodes
  pub known : (para.trans_proto ≡ 0) ⊎ (para.trans_proto ≡ 1)
  pub epoll_ok : a.epoll_ok ≡ true
  pub id_new : search_in p.htable id ≡ none

module _ (p : BackendSessionPool) (para : SessMsgPara) (a : Answers) (addr id d ns fd node : ℕ)
    (raw : BackendSession) (rest nodes : List ℕ)
    (h : IsSmooth p para a addr id d ns fd node raw rest nodes) where
  -- The session, and the pool in which the response is sent.
  abbrev new_sess : BackendSession
  new_sess = record (filled raw para id fd) {
    sess_dev_link_state = true;
    sess_node = some node;
    status = true;
  }

  abbrev entered_dev : HighSpeedNetDevice
  entered_dev =
      append_node (record (p.hs_net_dev d) { free_node_queue = nodes }) node para.trans_proto

  connected_pool : BackendSessionPool
  connected_pool = record p {
    heap = update p.heap addr (some raw);
    id_queue = rest;
    fds = fd ∷ p.fds;
  }

  allocated_lem :
      high_speed_create_sess_active p para a
      ≡ some (connected connected_pool para a true d addr id fd raw)
  unfolding high_speed_create_sess_active allocated with_id on_device socket_made allocate_id
      connected_pool
  allocated_lem = simp (
    h.wired, h.block, h.ids, zero_test, dev_test, h.dev_id, in_test, h.active, h.ns_id, h.socket,
    h.connects,
  )
    where
      zero_test : (id == 0) ≡ false
      zero_test = ground (arith, h.id_pos)

      dev_test : (p.dev_num == 0) ≡ false
      dev_test = ground (arith, h.dev_num_pos)

      in_test : ltb d 16 ≡ true
      in_test = ground (arith, h.dev_in)

  abbrev start : BackendSession
  start = filled raw para id fd

  abbrev joined : BackendSession
  joined = record (filled raw para id fd) { sess_dev_link_state = true; sess_node = some node }

  -- The pool after the session is filled in, after its node has it, and once it is registered.
  abbrev filled_pool : BackendSessionPool
  filled_pool = put_sess connected_pool addr (filled raw para id fd)

  abbrev node_pool : BackendSessionPool
  node_pool = record filled_pool { node_sess = update p.node_sess node (some addr) }

  abbrev joined_pool : BackendSessionPool
  joined_pool = put_sess (put_dev node_pool d entered_dev) addr joined

  abbrev epoll_pool : BackendSessionPool
  epoll_pool = put_sess (record joined_pool { epoll = fd ∷ p.epoll }) addr new_sess

  abbrev sent_pool : BackendSessionPool
  sent_pool = record epoll_pool { htable = (id, addr) ∷ p.htable; sess_num = p.sess_num + 1 }

  popped_lem :
      pop_free_session_node (p.hs_net_dev d)
      ≡ (some node, record (p.hs_net_dev d) { free_node_queue = nodes })
  unfolding pop_free_session_node
  popped_lem =
      ap (λ q. pop_free_session_node (record (p.hs_net_dev d) { free_node_queue = q })) h.nodes_free

  connected_lem :
      connected connected_pool para a true d addr id fd raw
      ≡ respond sent_pool para a.sent_ok d addr node fd new_sess
  unfolding connected connected_pool filled node_popped node_inserted register inserted
  connected_lem =
      ap (λ o. node_popped filled_pool para a d addr fd start o) popped_lem
      ∙ ap (λ o. node_inserted node_pool para a d addr node fd start o)
          (insert_known (record (p.hs_net_dev d) { free_node_queue = nodes }) node para.trans_proto
            h.known)
      ∙ ap (λ b. register joined_pool para a b d addr node fd joined) h.epoll_ok
      ∙ ap (λ o. inserted epoll_pool para a d addr node fd new_sess o)
          (insert_new epoll_pool id addr h.id_new)

  run_lem :
      high_speed_create_sess_active p para a
      ≡ some (respond sent_pool para a.sent_ok d addr node fd new_sess)
  run_lem = allocated_lem ∙ ap (λ r. some r) connected_lem

-- The session as the call leaves it, and where the pool has it.
pub record IsCreated (p : BackendSessionPool) (para : SessMsgPara) (addr id d fd node : ℕ)
    (raw : BackendSession) (rest nodes : List ℕ) (q : BackendSessionPool) : Type 0 where
  pub wired : q.wired ≡ p.wired
  pub found : search_in q.htable id ≡ some addr
  pub table : q.htable ≡ (id, addr) ∷ p.htable
  pub heap_rest : update q.heap addr none ≡ update p.heap addr none
  pub other_devices : (e : ℕ) → d ≢ e → q.hs_net_dev e ≡ p.hs_net_dev e
  pub node_rest : q.node_sess ≡ update p.node_sess node (some addr)
  pub queue_f2b : q.queue_f2b ≡ p.queue_f2b
  pub queue_b2f : q.queue_b2f ≡ p.queue_b2f
  pub stored :
      q.heap addr
      ≡ some (record (filled raw para id fd) {
        sess_dev_link_state = true;
        sess_node = some node;
        status = true;
      })
  pub ids_left : q.id_queue ≡ rest
  pub counted : q.sess_num ≡ p.sess_num + 1
  pub node_joined :
      q.hs_net_dev d
      ≡ append_node (record (p.hs_net_dev d) { free_node_queue = nodes }) node para.trans_proto
  pub watched : q.epoll ≡ fd ∷ p.epoll
  pub opened : q.fds ≡ fd ∷ p.fds
  pub answered :
      q.sent ≡ created para.frontend_sess_id id (record { op_status = 0; code = 0 }) ∷ p.sent

-- When nothing fails and the response is passed on, high_speed_create_sess_active returns
-- BACKEND_PROXY_PROCESS_OK: the table finds the new session under the id that the frontend is told, its
-- node has moved from the device's free nodes to the end of the protocol's queue, and its socket is open
-- and watched by epoll.
pub create_succeeds :
    (p : BackendSessionPool) (para : SessMsgPara) (a : Answers) (addr id d ns fd node : ℕ)
    (raw : BackendSession) (rest nodes : List ℕ)
    → IsSmooth p para a addr id d ns fd node raw rest nodes
    → a.sent_ok ≡ true
    → (q : BackendSessionPool) × (high_speed_create_sess_active p para a ≡ some (true, q))
      × IsCreated p para addr id d fd node raw rest nodes q
unfolding respond connected_pool filled search_in
create_succeeds p para a addr id d ns fd node raw rest nodes h s = (
  (respond (sent_pool p para a addr id d ns fd node raw rest nodes h) para true d addr node fd
      (new_sess p para a addr id d ns fd node raw rest nodes h)).1,
  run_lem p para a addr id d ns fd node raw rest nodes h
      ∙ ap
          (λ b. some (
            respond (sent_pool p para a addr id d ns fd node raw rest nodes h) para b d addr node fd
              (new_sess p para a addr id d ns fd node raw rest nodes h)))
          s,
  record {
    wired = refl;
    found = ground arith;
    table = refl;
    heap_rest = fun_ext (λ j. ground arith);
    other_devices =
        update_there p.hs_net_dev d (entered_dev p para a addr id d ns fd node raw rest nodes h);
    node_rest = refl;
    queue_f2b = refl;
    queue_b2f = refl;
    stored = ground arith;
    ids_left = refl;
    counted = refl;
    node_joined =
        update_here p.hs_net_dev d (entered_dev p para a addr id d ns fd node raw rest nodes h);
    watched = refl;
    opened = refl;
    answered = refl;
  },
)

-- When nothing fails but the response, high_speed_create_sess_active returns BACKEND_PROXY_PROCESS_ERROR, closes
-- the socket, and frees the session and its id, but leaves both in the table: the table still finds the address,
-- the heap has no session there, and the id waits in the queue to be given out again.
pub response_failure_dangles :
    (p : BackendSessionPool) (para : SessMsgPara) (a : Answers) (addr id d ns fd node : ℕ)
    (raw : BackendSession) (rest nodes : List ℕ)
    → IsSmooth p para a addr id d ns fd node raw rest nodes
    → a.sent_ok ≡ false
    → (q : BackendSessionPool) × (high_speed_create_sess_active p para a ≡ some (false, q))
      × (search_in q.htable id ≡ some addr)
      × (q.heap addr ≡ none)
      × (q.id_queue ≡ rest ++ (id ∷ []))
      × (q.fds ≡ p.fds)
unfolding respond recycle_sess_node create_sess_error connected_pool filled search_in release_id
response_failure_dangles p para a addr id d ns fd node raw rest nodes h s = (
  (respond (sent_pool p para a addr id d ns fd node raw rest nodes h) para false d addr node fd
      (new_sess p para a addr id d ns fd node raw rest nodes h)).1,
  run_lem p para a addr id d ns fd node raw rest nodes h
      ∙ ap
          (λ b. some (
            respond (sent_pool p para a addr id d ns fd node raw rest nodes h) para b d addr node fd
              (new_sess p para a addr id d ns fd node raw rest nodes h)))
          s,
  ground arith,
  ground arith,
  ground (arith, h.id_pos),
  ground arith,
)
