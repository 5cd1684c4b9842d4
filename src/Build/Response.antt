-- ===== src/Build/Response.antt =====
-- The responses to session messages in src/backend_proto.c: backend_proxy_generate_sess_msg_create_close_response and
-- backend_proxy_send_sess_msg_to_frontend_via_shmem, and their standalone variants for when there is no session.
-- `stack` is the GeneralProxyMsgHeader on the caller's stack, which is filled in part.
pub mod Sent
use high_speed_cproxy.Base.{false}
use high_speed_cproxy.Base.{ℕ, ◌+◌, Bool, not, ◌||◌, Option, none, some, ◌>>=◌, ◌==◌, if◌then◌else◌}
use high_speed_cproxy.Memory.{Memory}
use high_speed_cproxy.Shm.{Shm}
use high_speed_cproxy.Selector.{Ret, process_ok, process_error}
use high_speed_cproxy.Pool.{BackendSession, SessOpRespData}
use high_speed_cproxy.Build.{
  GeneralProxyMsgHeader, EngineTx, put_words, build_proxy_general_message,
}

-- `SessOpRespData` as bytes.
abbrev pub resp_bytes : SessOpRespData → Memory
resp_bytes op_resp j = if j == 0 then op_resp.op_status else op_resp.code

-- IS_VALID_SESS_MSG_TYPE.
abbrev pub sess_msg_type_valid : ℕ → Bool
sess_msg_type_valid sess_msg_type = sess_msg_type == 1 || sess_msg_type == 0

-- The header that both functions fill: PROXY_MSG_TYPE_SESS is 2 and ACTION_TYPE_RESPONSE is 1.
unfoldable pub response_header :
    (stack : GeneralProxyMsgHeader)
    → (frontend_sess_id backend_sess_id ip_version sess_msg_type : ℕ) → GeneralProxyMsgHeader
response_header stack frontend_sess_id backend_sess_id ip_version sess_msg_type = record stack {
  outer_header = record {
    version = 1;
    proxy_msg_type = 2;
    frontend_sess_id = frontend_sess_id;
    backend_sess_id = backend_sess_id;
    payload_len = 10 + 2;
  };
  inner_header =
      put_words stack.inner_header 0 1 (if sess_msg_type == 1 then 1 else 0) 1 ip_version 2;
}

-- `eng`: `sess->eng`.
unfoldable pub backend_proxy_generate_sess_msg_create_close_response :
    (eng : Option EngineTx)
    → Shm
    → (stack : GeneralProxyMsgHeader) → (global_amp_tx_buf : Memory) → Option BackendSession
    → (sess_msg_type : ℕ) → Option SessOpRespData
    → Option (Ret × Shm)
unfolding response_header
backend_proxy_generate_sess_msg_create_close_response (some eng) s stack buf (some sess)
      sess_msg_type (some op_resp) =
    if not (sess_msg_type_valid sess_msg_type)
    then some (process_error, s)
    else build_proxy_general_message (some eng) s
        (response_header stack sess.frontend_sess_id sess.backend_sess_id sess.ip_version
          sess_msg_type)
        (some (resp_bytes op_resp)) 2 buf
backend_proxy_generate_sess_msg_create_close_response _ s stack buf _ sess_msg_type _ =
    some (process_error, s)

unfoldable pub backend_proxy_generate_sess_msg_create_close_response_standalone :
    (eng : Option EngineTx)
    → Shm
    → (stack : GeneralProxyMsgHeader) → (global_amp_tx_buf : Memory)
    → (frontend_sess_id backend_sess_id ip_version sess_msg_type : ℕ) → Option SessOpRespData
    → Option (Ret × Shm)
unfolding response_header
backend_proxy_generate_sess_msg_create_close_response_standalone (some eng) s stack buf
      frontend_sess_id backend_sess_id ip_version sess_msg_type (some op_resp) =
    if not (sess_msg_type_valid sess_msg_type)
    then some (process_error, s)
    else build_proxy_general_message (some eng) s
        (response_header stack frontend_sess_id backend_sess_id ip_version sess_msg_type)
        (some (resp_bytes op_resp)) 2 buf
backend_proxy_generate_sess_msg_create_close_response_standalone _ s stack buf frontend_sess_id
      backend_sess_id ip_version sess_msg_type _ =
    some (process_error, s)

-- `if(BACKEND_PROXY_PROCESS_OK != ret)`.
unfoldable pub sent_result : Ret → Ret
sent_result process_ok = process_ok
sent_result _ = process_error

abbrev pub has_mem_pool : Option EngineTx → Bool
has_mem_pool none = false
has_mem_pool (some eng) = eng.mem_pool

unfoldable pub backend_proxy_send_sess_msg_to_frontend_via_shmem :
    (eng : Option EngineTx)
    → Shm
    → (stack : GeneralProxyMsgHeader) → (global_amp_tx_buf : Memory) → Option BackendSession
    → (sess_msg_type : ℕ) → Option SessOpRespData
    → Option (Ret × Shm)
unfolding sent_result
backend_proxy_send_sess_msg_to_frontend_via_shmem eng s stack buf (some sess) sess_msg_type
      (some op_resp) =
    if not (has_mem_pool eng) then some (process_error, s) else (do
      (ret, s') ←
          backend_proxy_generate_sess_msg_create_close_response eng s stack buf (some sess)
            sess_msg_type (some op_resp)
      some (sent_result ret, s'))
backend_proxy_send_sess_msg_to_frontend_via_shmem eng s stack buf _ sess_msg_type _ =
    some (process_error, s)

-- BACKEND_HANDOVER_SESSION_ID is 65535; `backend_sess_id` is not used.
unfoldable pub backend_proxy_send_sess_standalone_msg_to_frontend_via_shmem :
    (eng : Option EngineTx)
    → Shm
    → (stack : GeneralProxyMsgHeader) → (global_amp_tx_buf : Memory)
    → (frontend_sess_id backend_sess_id ip_version sess_msg_type : ℕ) → Option SessOpRespData
    → Option (Ret × Shm)
unfolding sent_result
backend_proxy_send_sess_standalone_msg_to_frontend_via_shmem eng s stack buf frontend_sess_id
      backend_sess_id ip_version sess_msg_type (some op_resp) =
    if not (has_mem_pool eng) then some (process_error, s) else (do
      (ret, s') ←
          backend_proxy_generate_sess_msg_create_close_response_standalone eng s stack buf
            frontend_sess_id 65535 ip_version sess_msg_type (some op_resp)
      some (sent_result ret, s'))
backend_proxy_send_sess_standalone_msg_to_frontend_via_shmem eng s stack buf frontend_sess_id
      backend_sess_id ip_version sess_msg_type none =
    some (process_error, s)
