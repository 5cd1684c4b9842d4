-- ===== src/Transfer.antt =====
-- How messages move between sessions, sockets and the shared-memory queues: the queue calls of
-- src/engine.c (backend_engine_hyperamp_rx_queue_get and _tx_queue_put) and the transfer functions of
-- src/session_pool.c (high_speed_data_process_f2b, _b2f and _nns). HYPERAMP_ZONE_ID_Linux is 0.
pub mod Drain
pub mod Split
pub mod Receive
pub mod Frames
mod Examples
use high_speed_cproxy.Base.{
  ℕ, zero, suc, ◌+◌, ◌-◌, ◌%◌, ◌^◌, min, Bool, true, false, ◌&&◌, Option, none, some, ◌>>=◌, List,
  [], ◌∷◌, ◌++◌, ltb, ◌==◌, if◌then◌else◌, length,
}
use high_speed_cproxy.Memory.{Memory}
use high_speed_cproxy.Spinlock.{HyperampRet, hyperamp_ok, hyperamp_error, hyperamp_again}
use high_speed_cproxy.Shm.{Shm, Received, hyperamp_queue_enqueue, hyperamp_queue_dequeue}
use high_speed_cproxy.Selector.{Ret, process_ok, process_error, process_again}
use high_speed_cproxy.Pool.{SessMsgSeg, BackendSession, link_to_queue}

-- The code of the queue as the engine's.
abbrev pub to_ret : HyperampRet → Ret
to_ret hyperamp_ok = process_ok
to_ret hyperamp_error = process_error
to_ret hyperamp_again = process_again

-- The engine, its queue and its data region are there; `buf` is `data`, `none` for NULL.
pub backend_engine_hyperamp_tx_queue_put :
    Shm → (data_region : ℕ) → Option Memory → (msg_len : ℕ) → Option (Ret × Shm)
backend_engine_hyperamp_tx_queue_put s data_region none msg_len = some (process_error, s)
backend_engine_hyperamp_tx_queue_put s data_region (some buf) msg_len =
    if ltb s.block_size msg_len then some (process_error, s) else (do
      (ret, s') ← hyperamp_queue_enqueue s 0 (some buf) msg_len data_region
      some (to_ret ret, s'))

unfoldable pub backend_engine_hyperamp_rx_queue_get :
    Shm
    → (data_region : ℕ) → Option Memory
    → (out_len : Option ℕ) → (max_msg_len : ℕ) → Option (Ret × Received)
backend_engine_hyperamp_rx_queue_get s data_region none out_len max_msg_len =
    some (process_error, record { ret = hyperamp_error; shm = s; buf = none; actual_len = out_len })
backend_engine_hyperamp_rx_queue_get s data_region (some buf) none max_msg_len =
    some
      (process_error, record { ret = hyperamp_error; shm = s; buf = some buf; actual_len = none })
backend_engine_hyperamp_rx_queue_get s data_region (some buf) (some out_len) max_msg_len = do
  d ← hyperamp_queue_dequeue s 0 (some buf) max_msg_len (some out_len) data_region
  some (to_ret d.ret, d)

-- high_speed_data_process_b2f: the code, the segments still in `msg_b2f`, and the queue. A segment whose
-- put fails with an error is taken out like one that was put.
pub high_speed_data_process_b2f :
    Shm → (data_region : ℕ) → (msg_b2f : List SessMsgSeg) → Option (Ret × List SessMsgSeg × Shm)
unfolding backend_engine_hyperamp_tx_queue_put
high_speed_data_process_b2f s data_region [] = some (process_ok, [], s)
high_speed_data_process_b2f s data_region (cur_seg ∷ rest) = do
  (ret, s') ← backend_engine_hyperamp_tx_queue_put s data_region cur_seg.payload cur_seg.len
  elim ret [
    | process_again ↦ some (process_again, cur_seg ∷ rest, s')
    | _ ↦ high_speed_data_process_b2f s' data_region rest
  ]

-- `cur_seg->data && cur_seg->len > 0`.
abbrev pub is_there : Option Memory → Bool
is_there none = false
is_there (some buf) = true

abbrev pub has_bytes : SessMsgSeg → Bool
has_bytes seg = is_there seg.payload && ltb 0 seg.len

-- The `TAILQ_FOREACH_SAFE` of high_speed_data_process_f2b: `send` says what the call returns for a segment,
-- `none` for -1, and the last result is what was handed to `send`, in order.
pub f2b_loop :
    (send : SessMsgSeg → Option ℕ)
    → (buf_size : ℕ) → (msg_f2b : List SessMsgSeg) → Ret × List SessMsgSeg × List SessMsgSeg
f2b_loop send buf_size [] = (process_ok, [], [])
f2b_loop send buf_size (cur_seg ∷ rest) =
    let skipped = f2b_loop send buf_size rest in
    if has_bytes cur_seg
    then (if ltb cur_seg.len buf_size
        then elim (send cur_seg) [
          | none ↦ (process_error, cur_seg ∷ rest, cur_seg ∷ [])
          | some ret ↦
              let (code, left, sent) = f2b_loop send (buf_size - ret) rest in
              (code, left, cur_seg ∷ sent)
        ]
        else (process_again, cur_seg ∷ rest, []))
    else skipped

-- `buf_size` is what `getsockopt` stores, `none` if it fails.
pub high_speed_data_process_f2b :
    (send : SessMsgSeg → Option ℕ)
    → (buf_size : Option ℕ) → (msg_f2b : List SessMsgSeg) → Ret × List SessMsgSeg × List SessMsgSeg
unfolding f2b_loop
high_speed_data_process_f2b send none msg_f2b = (process_error, msg_f2b, [])
high_speed_data_process_f2b send (some buf_size) msg_f2b = f2b_loop send buf_size msg_f2b
