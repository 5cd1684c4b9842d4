-- ===== src/Transfer/Receive.antt =====
-- high_speed_data_process_nns of src/session_pool.c: the bytes of a session's socket become data messages for
-- the frontend. What the calls on the way return is an argument.
use high_speed_cproxy.Base.{
  ℕ, zero, suc, ◌+◌, ◌-◌, ◌%◌, ◌^◌, Bool, true, false, Option, none, some, List, [], ◌∷◌, ◌++◌,
  length,
}
use high_speed_cproxy.Memory.{Memory, hyperamp_safe_memcpy}
use high_speed_cproxy.Message.{ProxyMsgHeader, put_header}
use high_speed_cproxy.Selector.{Ret, process_ok, process_error, process_again}
use high_speed_cproxy.Pool.{SessMsgSeg, BackendSession, link_to_queue}

-- What one round meets: sess_msg_seg_alloc returns NULL, `read` returns -1, or it stores these bytes, at most
-- 4088 of them, into a block that held something else before.
pub data Round : Type 0 where
  no_memory : Round
  read_fails : Round
  reads : (block : Memory) → List ℕ → Round

-- A list of bytes as memory.
abbrev pub list_memory : List ℕ → Memory
list_memory [] j = 0
list_memory (x ∷ xs) zero = x
list_memory (x ∷ xs) (suc j) = list_memory xs j

-- The header that is written: PROXY_PROTO_VERSION_1 is 1 and PROXY_MSG_TYPE_DATA is 3.
abbrev pub data_header : (frontend_sess_id backend_sess_id ret : ℕ) → ProxyMsgHeader
data_header frontend_sess_id backend_sess_id ret = record {
  version = 1;
  proxy_msg_type = 3;
  frontend_sess_id = frontend_sess_id;
  backend_sess_id = backend_sess_id;
  payload_len = ret % 2 ^ 16;
}

-- The segment of a round: the bytes behind the header's eight, then the header, and the length of both.
unfoldable pub frame : (frontend_sess_id backend_sess_id : ℕ) → Memory → List ℕ → SessMsgSeg
frame frontend_sess_id backend_sess_id block bytes = record {
  len = (length bytes % 2 ^ 16 + 8) % 2 ^ 16;
  shared_mem = false;
  payload = some (
      put_header (hyperamp_safe_memcpy block 8 (list_memory bytes) 0 (length bytes))
        (data_header frontend_sess_id backend_sess_id (length bytes)));
}

-- The `while` loop with the rounds to come: the code, what `msg_b2f` holds, and whether the end of the loop
-- was reached. `none`: `read` has not returned. A count below 0 ends the loop as 0 does.
unfoldable pub nns_loop :
    (frontend_sess_id backend_sess_id bytes_available : ℕ)
    → List SessMsgSeg
    → List Round
    → Option (Ret × List SessMsgSeg × Bool)
nns_loop frontend_sess_id backend_sess_id zero msg_b2f rounds = some (process_ok, msg_b2f, true)
nns_loop frontend_sess_id backend_sess_id (suc n) msg_b2f [] = none
nns_loop frontend_sess_id backend_sess_id (suc n) msg_b2f (no_memory ∷ rounds) =
    some (process_again, msg_b2f, false)
nns_loop frontend_sess_id backend_sess_id (suc n) msg_b2f (read_fails ∷ rounds) =
    some (process_error, msg_b2f, false)
nns_loop frontend_sess_id backend_sess_id (suc n) msg_b2f (reads block bytes ∷ rounds) =
    nns_loop frontend_sess_id backend_sess_id (suc n - length bytes)
      (msg_b2f ++ (frame frontend_sess_id backend_sess_id block bytes ∷ [])) rounds

-- After the loop: the session at its address is linked to the pool's queue if the end was reached.
unfoldable pub nns_done :
    (queue_b2f : List ℕ)
    → (addr : ℕ) → BackendSession
    → Option (Ret × List SessMsgSeg × Bool)
    → Option (Ret × BackendSession × List ℕ)
nns_done queue_b2f addr sess none = none
nns_done queue_b2f addr sess (some (ret, msg_b2f, true)) =
    let (queue, state) = link_to_queue queue_b2f addr sess.state_b2f in
    some (ret, record sess { msg_b2f = msg_b2f; state_b2f = state }, queue)
nns_done queue_b2f addr sess (some (ret, msg_b2f, false)) =
    some (ret, record sess { msg_b2f = msg_b2f }, queue_b2f)

-- `bytes_available` is what `ioctl` stores, `none` if it fails.
unfoldable pub high_speed_data_process_nns :
    (queue_b2f : List ℕ)
    → (addr : ℕ) → BackendSession
    → (bytes_available : Option ℕ) → List Round
    → Option (Ret × BackendSession × List ℕ)
unfolding nns_loop
high_speed_data_process_nns queue_b2f addr sess none rounds = some (process_error, sess, queue_b2f)
high_speed_data_process_nns queue_b2f addr sess (some bytes_available) rounds =
    nns_done queue_b2f addr sess
      (nns_loop sess.frontend_sess_id sess.backend_sess_id bytes_available sess.msg_b2f rounds)
