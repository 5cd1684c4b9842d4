-- ===== src/Handler.antt =====
-- backend_proxy_data_msg_process of src/backend_proto.c with sess_msg_seg_alloc of src/session.c: a data message
-- of the frontend goes to the queue of its session.
pub mod Data
pub mod Forward
pub mod Session
pub mod Samples
use high_speed_cproxy.Base.{
  ℕ, ◌%◌, ◌^◌, Bool, true, false, Option, none, some, List, [], ◌∷◌, ◌++◌, if◌then◌else◌, update,
}
use high_speed_cproxy.Memory.{Memory, hyperamp_safe_memcpy}
use high_speed_cproxy.Selector.{Ret, process_ok, process_error}
use high_speed_cproxy.Pool.{SessMsgSeg, BackendSession, BackendSessionPool, link_to_queue}
use high_speed_cproxy.Pool.Table.{high_speed_search_sess}

-- `SessMsgSegType`.
pub data SessMsgSegType : Type 0 where
  dynamic_alloc : SessMsgSegType
  shared_mem_type : SessMsgSegType

-- What the allocations meet: whether `malloc` gives the segment, and the block that it gives for the data.
pub record Mallocs : Type 0 where
  pub segment : Bool
  pub block : Option Memory

unfoldable pub sess_msg_seg_alloc :
    (len : ℕ)
    → SessMsgSegType
    → (shared_data : Option Memory) → (mem_pool : Bool) → Mallocs
    → Option SessMsgSeg
sess_msg_seg_alloc len dynamic_alloc shared_data mem_pool mallocs =
    if mallocs.segment
    then elim mallocs.block [
      | none ↦ none
      | some block ↦ some (record { len = len % 2 ^ 16; shared_mem = false; payload = some block })
    ]
    else none
sess_msg_seg_alloc len shared_mem_type shared_data mem_pool mallocs =
    if mallocs.segment
    then (if mem_pool
        then some (record { len = len % 2 ^ 16; shared_mem = true; payload = shared_data })
        else none)
    else none

-- `memcpy` into a segment with memory of its own.
unfoldable pub copied : SessMsgSeg → (data_len : ℕ) → (msg : Memory) → SessMsgSeg
copied seg data_len msg = if seg.shared_mem then seg else elim seg.payload [
  | none ↦ seg
  | some block ↦ record seg { payload = some (hyperamp_safe_memcpy block 0 msg 0 data_len) }
]

-- The segment at the tail of the session's `msg_f2b`, and the session in the pool's queue.
unfoldable pub queue_data :
    BackendSessionPool → (addr : ℕ) → BackendSession → SessMsgSeg → BackendSessionPool
queue_data p addr sess seg =
    let (queue, state) = link_to_queue p.queue_f2b addr sess.state_f2b in
    record p {
      queue_f2b = queue;
      heap =
          update p.heap addr
            (some (record sess { msg_f2b = sess.msg_f2b ++ (seg ∷ []); state_f2b = state }));
    }

-- From the check of the segment on; `none`: the session's memory is gone.
unfoldable pub segment_made :
    BackendSessionPool
    → (addr : ℕ) → (data_len : ℕ) → (msg : Memory) → Option SessMsgSeg
    → Option (Ret × BackendSessionPool)
segment_made p addr data_len msg none = some (process_error, p)
segment_made p addr data_len msg (some seg) = elim (p.heap addr) [
  | none ↦ none
  | some sess ↦ some (process_ok, queue_data p addr sess (copied seg data_len msg))
]

-- From the check of the session on.
unfoldable pub session_found :
    BackendSessionPool
    → (mem_pool : Bool) → Mallocs
    → (data_len : ℕ) → (msg : Memory) → Option ℕ
    → Option (Ret × BackendSessionPool)
session_found p mem_pool mallocs data_len msg none = some (process_error, p)
session_found p mem_pool mallocs data_len msg (some addr) =
    segment_made p addr data_len msg
      (sess_msg_seg_alloc data_len dynamic_alloc (some msg) mem_pool mallocs)

-- `mem_pool`: the engine has a memory pool.
unfoldable pub backend_proxy_data_msg_process :
    (mem_pool : Bool)
    → Mallocs
    → BackendSessionPool
    → (frontend_sess_id backend_sess_id data_len : ℕ) → (msg : Memory)
    → Option (Ret × BackendSessionPool)
backend_proxy_data_msg_process mem_pool mallocs p frontend_sess_id backend_sess_id data_len msg =
    if p.wired
    then (if mem_pool
        then session_found p mem_pool mallocs data_len msg
            (high_speed_search_sess p backend_sess_id)
        else some (process_error, p))
    else some (process_error, p)
