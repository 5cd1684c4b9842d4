-- ===== src/Pool/Table/Delete.antt =====
-- high_speed_delete_sess of src/session_pool.c after high_speed_create_sess_active.
use high_speed_cproxy.Base.{
  ℕ, ◌≡◌, ◌≤◌, ◌<◌, ◌⊎◌, refl, sym, ap, ◌∙◌, subst, fun_ext, true, false, none, some, List, [], ◌∷◌,
  ◌++◌, arith, ltb, update,
}
use high_speed_cproxy.Pool.{
  BackendSession, HighSpeedNetDevice, BackendSessionPool, release_id, delete_in, unlink_from_queue,
  remove_session_node, push_free_session_node, append_node,
}
use high_speed_cproxy.Pool.Nodes.{IsApart}
use high_speed_cproxy.Pool.Create.{SessMsgPara, Answers, filled, high_speed_create_sess_active}
use high_speed_cproxy.Pool.Create.Failure.{
  SameDevice, remove-append, given_back, given_back-SameDevice, put_same,
}
use high_speed_cproxy.Pool.Create.Clean.{remove_head}
use high_speed_cproxy.Pool.Create.Stages.{node_back}
use high_speed_cproxy.Pool.Create.Success.{IsSmooth, IsCreated, create_succeeds}
use high_speed_cproxy.Pool.Table.{return_node, detach, detach_node, finish, high_speed_delete_sess}

-- An entry of the session that the table has just taken.
delete_head : (id addr : ℕ) (t : List (ℕ × ℕ)) → delete_in ((id, addr) ∷ t) addr ≡ t
unfolding delete_in
delete_head id addr t = ground arith

-- A deletion that leaves nothing of the session behind: the state `z` is the state `p` before the session
-- was created, up to the order of free ids and free nodes.
pub record IsUndone (p z : BackendSessionPool) (id : ℕ) (rest : List ℕ) : Type 0 where
  pub heap : z.heap ≡ p.heap
  pub htable : z.htable ≡ p.htable
  pub sess_num : z.sess_num ≡ p.sess_num
  pub epoll : z.epoll ≡ p.epoll
  pub fds : z.fds ≡ p.fds
  pub queue_f2b : z.queue_f2b ≡ p.queue_f2b
  pub queue_b2f : z.queue_b2f ≡ p.queue_b2f
  pub node_sess : z.node_sess ≡ p.node_sess
  pub id_queue : z.id_queue ≡ rest ++ (id ∷ [])
  pub devices : (e : ℕ) → SameDevice (p.hs_net_dev e) (z.hs_net_dev e)

-- The session that high_speed_create_sess_active leaves.
abbrev pub made : SessMsgPara → (id fd node : ℕ) → BackendSession → BackendSession
made para id fd node raw = record (filled raw para id fd) {
  sess_dev_link_state = true;
  sess_node = some node;
  status = true;
}

module _ (p q : BackendSessionPool) (para : SessMsgPara) (addr id d fd node : ℕ)
    (raw : BackendSession) (rest nodes : List ℕ)
    (c : IsCreated p para addr id d fd node raw rest nodes q) (free_heap : p.heap addr ≡ none)
    (free_node : p.node_sess node ≡ none)
    (was_free : (p.hs_net_dev d).free_node_queue ≡ node ∷ nodes)
    (apart : IsApart (p.hs_net_dev d) node)
    (known : (para.trans_proto ≡ 0) ⊎ (para.trans_proto ≡ 1)) (d_in : d < 16)
    (f2b_clear : raw.state_f2b ≡ false) (b2f_clear : raw.state_b2f ≡ false) where
  left : HighSpeedNetDevice
  left = record (p.hs_net_dev d) { free_node_queue = nodes }

  back_lem :
      remove_session_node (q.hs_net_dev d) node para.trans_proto true
      ≡ (record (p.hs_net_dev d) { free_node_queue = nodes }, false)
  back_lem =
      ap (λ dev. remove_session_node dev node para.trans_proto true) c.node_joined
      ∙ remove-append (record (p.hs_net_dev d) { free_node_queue = nodes }) node para.trans_proto
          (record { udp = apart.udp; tcp = apart.tcp }) known

  detached : BackendSessionPool
  detached = detach q addr (made para id fd node raw)

  returned : BackendSessionPool
  returned = record detached {
    hs_net_dev = update q.hs_net_dev d (given_back (p.hs_net_dev d) nodes node);
    node_sess = update q.node_sess node none;
  }

  detach_node_lem : raw.dev_id ≡ d → detach_node detached (made para id fd node raw) ≡ returned
  unfolding detach_node return_node filled detached returned detach push_free_session_node
  detach_node_lem e =
      rw (e, in_test)
        (ap
          (λ r. record detached {
            hs_net_dev = update q.hs_net_dev d (push_free_session_node r.0 node);
            node_sess = update q.node_sess node none;
          })
          back_lem)
    where
      in_test : ltb d 16 ≡ true
      in_test = ground (arith, d_in)

  -- The dev_id of the block puts the device out of reach: the node stays where it is.
  detach_node_out : 16 ≤ raw.dev_id → detach_node detached (made para id fd node raw) ≡ detached
  unfolding detach_node return_node filled detached
  detach_node_out e = ground (arith, e)

  undone : IsUndone p (finish returned addr (made para id fd node raw)) id rest
  unfolding finish returned detached detach filled unlink_from_queue release_id
  undone = record {
    heap = c.heap_rest ∙ fun_ext (λ j. ground (arith, free_heap));
    htable = rw (c.table, delete_head id addr p.htable) refl;
    sess_num = omega (arith, c.counted);
    epoll = rw (c.watched, remove_head fd p.epoll) refl;
    fds = rw (c.opened, remove_head fd p.fds) refl;
    queue_f2b = rw f2b_clear c.queue_f2b;
    queue_b2f = rw b2f_clear c.queue_b2f;
    node_sess =
        ap (λ f. update f node none) c.node_rest ∙ node_back p.node_sess node addr free_node;
    id_queue = ap (λ k. k ++ (id ∷ [])) c.ids_left;
    devices =
        put_same p q d (given_back (p.hs_net_dev d) nodes node)
          (given_back-SameDevice (p.hs_net_dev d) nodes node was_free) c.other_devices;
  }

-- The address and the node are nobody's, and the block says that the session is in no transfer queue.
pub record IsUnused (p : BackendSessionPool) (addr d node : ℕ) (raw : BackendSession) : Type 0 where
  pub free_heap : p.heap addr ≡ none
  pub free_node : p.node_sess node ≡ none
  pub apart : IsApart (p.hs_net_dev d) node
  pub f2b_clear : raw.state_f2b ≡ false
  pub b2f_clear : raw.state_b2f ≡ false

-- Where the block that `malloc` returned is not in use, happens to hold the device's number as `dev_id`, which the
-- creation does not set, and happens to have the flags of both queues of active sessions clear, which the creation does not
-- clear, deleting a session just created over an unused node leaves the pool as it was before the creation: heap,
-- table, count, epoll, descriptors, transfer queues and nodes are the same, the devices are the same up
-- to the order of their free nodes, and the session's id waits at the end of the free ids.
pub delete_undoes_create :
    (p : BackendSessionPool) (para : SessMsgPara) (a : Answers) (addr id d ns fd node : ℕ)
    (raw : BackendSession) (rest nodes : List ℕ)
    → IsSmooth p para a addr id d ns fd node raw rest nodes
    → a.sent_ok ≡ true
    → IsUnused p addr d node raw
    → raw.dev_id ≡ d
    → (q : BackendSessionPool) × (high_speed_create_sess_active p para a ≡ some (true, q))
      × IsUndone p (high_speed_delete_sess q addr (made para id fd node raw)) id rest
unfolding high_speed_delete_sess detached release_id unlink_from_queue delete_in
delete_undoes_create p para a addr id d ns fd node raw rest nodes h s u e =
    let (q, run, c) = create_succeeds p para a addr id d ns fd node raw rest nodes h s in
    (
      q,
      run,
      subst (λ z. IsUndone p (finish z addr (made para id fd node raw)) id rest)
          (sym (
            detach_node_lem p q para addr id d fd node raw rest nodes c u.free_heap u.free_node
              h.nodes_free u.apart h.known h.dev_in u.f2b_clear u.b2f_clear e))
          (undone p q para addr id d fd node raw rest nodes c u.free_heap u.free_node h.nodes_free
            u.apart h.known h.dev_in u.f2b_clear u.b2f_clear),
    )

-- Where the block that `malloc` returned is not in use, happens to hold a number that is no device's as `dev_id`, and
-- happens to have the flags of both queues of active sessions clear, none of which the creation sets, deleting a session
-- just created over an unused node frees the session but leaves its node in the protocol's queue of its device, still pointing at the freed session.
pub delete_leaks_node :
    (p : BackendSessionPool) (para : SessMsgPara) (a : Answers) (addr id d ns fd node : ℕ)
    (raw : BackendSession) (rest nodes : List ℕ)
    → IsSmooth p para a addr id d ns fd node raw rest nodes
    → a.sent_ok ≡ true
    → IsUnused p addr d node raw
    → 16 ≤ raw.dev_id
    → (q z : BackendSessionPool) × (high_speed_create_sess_active p para a ≡ some (true, q))
      × (high_speed_delete_sess q addr (made para id fd node raw) ≡ z)
      × (z.heap addr ≡ none)
      × (z.node_sess node ≡ some addr)
      × (z.hs_net_dev d
          ≡ append_node (record (p.hs_net_dev d) { free_node_queue = nodes }) node para.trans_proto)
unfolding high_speed_delete_sess finish detached detach
delete_leaks_node p para a addr id d ns fd node raw rest nodes h s u e =
    let (q, run, c) = create_succeeds p para a addr id d ns fd node raw rest nodes h s in
    (
      q,
      finish (detach q addr (made para id fd node raw)) addr (made para id fd node raw),
      run,
      ap (λ z. finish z addr (made para id fd node raw))
          (detach_node_out p q para addr id d fd node raw rest nodes c u.free_heap u.free_node
            h.nodes_free u.apart h.known h.dev_in u.f2b_clear u.b2f_clear e),
      ground arith,
      rw c.node_rest (ground arith),
      c.node_joined,
    )
