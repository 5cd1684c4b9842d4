-- ===== src/Engine/Passes.antt =====
-- The second and the fourth step of engine_run_hyperamp of src/engine.c: the passes over the pool's queues of
-- active sessions, to the sockets and to the frontend.
pub mod ToSockets
pub mod Pending
pub mod ToFrontend
mod Examples
use high_speed_cproxy.Base.{
  ℕ, Bool, false, Option, none, some, ◌>>=◌, List, [], ◌∷◌, update, remove,
}
use high_speed_cproxy.Shm.{Shm}
use high_speed_cproxy.Selector.{Ret, process_ok, process_error, process_again}
use high_speed_cproxy.Pool.{SessMsgSeg, BackendSession, BackendSessionPool}
use high_speed_cproxy.Pool.Table.{high_speed_delete_sess}
use high_speed_cproxy.Transfer.{high_speed_data_process_f2b, high_speed_data_process_b2f}

-- What the socket of a session answers: `send` for each segment, and `getsockopt`.
pub record Socket : Type 0 where
  pub send : SessMsgSeg → Option ℕ
  pub buf_size : Option ℕ

-- After data_process_f2b for the session at an address, by its code, with the segments that are left. For an error
-- the session leaves the queue with its flag still set, and delete_sess takes it out once more.
unfoldable pub f2b_done :
    BackendSessionPool
    → (addr : ℕ) → BackendSession
    → Ret
    → (left : List SessMsgSeg) → BackendSessionPool
f2b_done p addr sess process_ok left = record p {
  queue_f2b = remove addr p.queue_f2b;
  heap = update p.heap addr (some (record sess { msg_f2b = left; state_f2b = false }));
}
f2b_done p addr sess process_error left =
    let sess = record sess { msg_f2b = left } in
    high_speed_delete_sess
      (record p { queue_f2b = remove addr p.queue_f2b; heap = update p.heap addr (some sess) }) addr
      sess
f2b_done p addr sess process_again left = record p {
  heap = update p.heap addr (some (record sess { msg_f2b = left }));
}

-- The second step: the `TAILQ_FOREACH_SAFE`, over the sessions that are to come. The second result is what was
-- handed to `send`, for each session. `none`: a session's memory is gone.
unfoldable pub f2b_pass :
    (sockets : ℕ → Socket)
    → BackendSessionPool
    → (todo : List ℕ) → Option (BackendSessionPool × List (ℕ × List SessMsgSeg))
f2b_pass sockets p [] = some (p, [])
f2b_pass sockets p (cur_sess ∷ todo) = elim (p.heap cur_sess) [
  | none ↦ none
  | some sess ↦
      let (ret, left, sent) =
        high_speed_data_process_f2b (sockets cur_sess).send (sockets cur_sess).buf_size
          sess.msg_f2b in
      (do
        (q, log) ← f2b_pass sockets (f2b_done p cur_sess sess ret left) todo
        some (q, (cur_sess, sent) ∷ log))
]

unfoldable pub b2f_done :
    BackendSessionPool
    → (addr : ℕ) → BackendSession
    → Ret
    → (left : List SessMsgSeg) → BackendSessionPool
b2f_done p addr sess process_ok left = record p {
  queue_b2f = remove addr p.queue_b2f;
  heap = update p.heap addr (some (record sess { msg_b2f = left; state_b2f = false }));
}
b2f_done p addr sess process_error left =
    let sess = record sess { msg_b2f = left } in
    high_speed_delete_sess
      (record p { queue_b2f = remove addr p.queue_b2f; heap = update p.heap addr (some sess) }) addr
      sess
b2f_done p addr sess process_again left = record p {
  heap = update p.heap addr (some (record sess { msg_b2f = left }));
}

-- The fourth step, which stops at the first session that finds the frontend's queue full.
unfoldable pub b2f_pass :
    Shm
    → (data_region : ℕ) → BackendSessionPool
    → (todo : List ℕ) → Option (BackendSessionPool × Shm)
b2f_pass s data_region p [] = some (p, s)
b2f_pass s data_region p (cur_sess ∷ todo) = elim (p.heap cur_sess) [
  | none ↦ none
  | some sess ↦ (do
    (ret, left, s') ← high_speed_data_process_b2f s data_region sess.msg_b2f
    elim ret [
      | process_again ↦ some (b2f_done p cur_sess sess process_again left, s')
      | other ↦ b2f_pass s' data_region (b2f_done p cur_sess sess other left) todo
    ])
]
