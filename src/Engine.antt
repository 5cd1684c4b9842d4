-- ===== src/Engine.antt =====
-- The first step of engine_run_hyperamp of src/engine.c: the loop that takes the frontend's messages from the
-- shared-memory queue and has each processed.
pub mod Receive
pub mod Quiet
pub mod Forward
pub mod Passes
pub mod Keeps
pub mod Reach
pub mod Lifetime
pub mod Samples
mod Examples
use high_speed_cproxy.Base.{ℕ, zero, suc, Option, none, some, ◌>>=◌, List, [], ◌∷◌}
use high_speed_cproxy.Memory.{Memory}
use high_speed_cproxy.Shm.{Shm, Received}
use high_speed_cproxy.Selector.{Ret, process_ok, process_error, process_again}
use high_speed_cproxy.Transfer.{backend_engine_hyperamp_rx_queue_get}

-- What the loop leaves: the code that ended it, the queue, `block_size`, and what the messages have changed.
pub record Step1 {ℓ} (State : Type ℓ) : Type ℓ where
  pub ret : Ret
  pub shm : Shm
  pub block_size : Option ℕ
  pub state : State

-- `msg_buf` after a call of backend_engine_hyperamp_rx_queue_get.
abbrev pub buf_after : Option Memory → Memory → Memory
buf_after none msg_buf = msg_buf
buf_after (some buf) msg_buf = buf

-- So many rounds of the `do` loop. `process` is backend_proxy_msg_process, whose code the loop ignores; what it puts into the
-- sending queue it writes to the region that the two queues share, which it is given and returns.
-- HYPERAMP_MSG_HDR_PLUS_MAX_SIZE is 4096. `none`: the rounds have run out, or a call does not return.
unfoldable pub step1 {ℓ} :
    {State : Type ℓ}
    → (process : State → (msg_buf region : Memory) → Option (Ret × State × Memory)) → (rounds : ℕ)
    → Shm
    → (data_region : ℕ) → (msg_buf : Memory) → (block_size : Option ℕ) → State
    → Option (Step1 State)
step1 process zero s data_region msg_buf block_size state = none
step1 process (suc rounds) s data_region msg_buf block_size state = do
  (ret, d) ← backend_engine_hyperamp_rx_queue_get s data_region (some msg_buf) block_size 4096
  elim ret [
    | process_error ↦
        some (record { ret = process_error; shm = d.shm; block_size = d.actual_len; state = state })
    | process_again ↦
        some (record { ret = process_again; shm = d.shm; block_size = d.actual_len; state = state })
    | process_ok ↦ (do
      (code, state', region) ← process state (buf_after d.buf msg_buf) d.shm.region
      step1 process rounds (record (d.shm) { region = region }) data_region
          (buf_after d.buf msg_buf) d.actual_len state')
  ]
