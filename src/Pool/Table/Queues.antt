-- ===== src/Pool/Table/Queues.antt =====
-- What high_speed_delete_sess of src/session_pool.c does to the queues of active sessions and the heap.
use high_speed_cproxy.Base.{ℕ, ◌≡◌, none, arith, update}
use high_speed_cproxy.Pool.{BackendSession, BackendSessionPool, unlink_from_queue}
use high_speed_cproxy.Pool.Table.{high_speed_delete_sess, detach_node, return_node, detach, finish}

-- What a deletion does to the queues and the heap.
pub record IsDeleted (p q : BackendSessionPool) (addr : ℕ) (sess : BackendSession) : Type 0 where
  pub queue_f2b : q.queue_f2b ≡ (unlink_from_queue p.queue_f2b addr sess.state_f2b).0
  pub queue_b2f : q.queue_b2f ≡ (unlink_from_queue p.queue_b2f addr sess.state_b2f).0
  pub heap : q.heap ≡ update p.heap addr none

pub delete-IsDeleted :
    (p : BackendSessionPool) (addr : ℕ) (sess : BackendSession)
    → IsDeleted p (high_speed_delete_sess p addr sess) addr sess
unfolding high_speed_delete_sess detach_node return_node detach finish
delete-IsDeleted p addr sess = ground arith
