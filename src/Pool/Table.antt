-- ===== src/Pool/Table.antt =====
-- The table of sessions by id and high_speed_delete_sess of src/session_pool.c.
pub mod Delete
pub mod Queues
use high_speed_cproxy.Base.{
  ℕ, ◌+◌, ◌-◌, Bool, true, false, Option, none, some, List, [], ◌∷◌, ltb, if◌then◌else◌, update,
  remove,
}
use high_speed_cproxy.Pool.{
  BackendSession, SessOpRespData, Response, closed, BackendSessionPool, release_id, search_in,
  delete_in, unlink_from_queue, remove_session_node, push_free_session_node,
}

unfoldable pub high_speed_search_sess : BackendSessionPool → ℕ → Option ℕ
high_speed_search_sess p id = search_in p.htable id

-- The node of a linked session goes back to its device.
pub return_node : BackendSessionPool → BackendSession → BackendSessionPool
return_node p sess = elim sess.sess_node [
  | none ↦ p
  | some node ↦
      let (dev, linked) =
        remove_session_node (p.hs_net_dev sess.dev_id) node sess.proto_type
          sess.sess_dev_link_state in
      record p {
        hs_net_dev = update p.hs_net_dev sess.dev_id (push_free_session_node dev node);
        node_sess = update p.node_sess node none;
      }
]

-- From epoll to the release of the id.
unfoldable pub detach : BackendSessionPool → (addr : ℕ) → BackendSession → BackendSessionPool
detach p addr sess = record p {
  epoll = remove sess.sock_fd p.epoll;
  fds = remove sess.sock_fd p.fds;
  htable = delete_in p.htable addr;
  sess_num = p.sess_num - 1;
  queue_f2b = (unlink_from_queue p.queue_f2b addr sess.state_f2b).0;
  queue_b2f = (unlink_from_queue p.queue_b2f addr sess.state_b2f).0;
  id_queue = release_id p.id_queue sess.backend_sess_id;
}

-- The node, if the device's number is below MAX_HS_DEV_NUM and the session is linked.
pub detach_node : BackendSessionPool → BackendSession → BackendSessionPool
unfolding return_node
detach_node p sess =
    if ltb sess.dev_id 16 then (if sess.sess_dev_link_state then return_node p sess else p) else p

-- `free`, and the response, which names no backend session.
unfoldable pub finish : BackendSessionPool → (addr : ℕ) → BackendSession → BackendSessionPool
finish p addr sess = record p {
  heap = update p.heap addr none;
  sent = closed sess.frontend_sess_id (record { op_status = 0; code = 0 }) ∷ p.sent;
}

-- The session at an address that is not NULL, in a pool with its engine; it returns
-- BACKEND_PROXY_PROCESS_OK. A linked session has a node.
pub high_speed_delete_sess : BackendSessionPool → (addr : ℕ) → BackendSession → BackendSessionPool
unfolding detach detach_node finish
high_speed_delete_sess p addr sess = finish (detach_node (detach p addr sess) sess) addr sess
