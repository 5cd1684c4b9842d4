-- ===== src/Handler/Session.antt =====
-- backend_proxy_sess_msg_process of src/backend_proto.c and the handlers below it: a session message of the
-- frontend creates, confirms or closes a session of the pool.
pub mod CreateClose
pub mod Refused
mod Examples
use high_speed_cproxy.Base.{
  ℕ, ◌+◌, Bool, true, false, not, ◌&&◌, Option, none, some, List, ◌∷◌, ◌==◌, if◌then◌else◌, update,
}
use high_speed_cproxy.Memory.{Memory, read_le}
use high_speed_cproxy.Selector.{Ret, process_ok, process_error}
use high_speed_cproxy.Pool.{BackendSession, BackendSessionPool}
use high_speed_cproxy.Pool.Create.{SessMsgPara, Answers, high_speed_create_sess_active}
use high_speed_cproxy.Pool.Table.{high_speed_search_sess, high_speed_delete_sess}

-- `SessMsgHeader`: five uint16_t, packed.
pub record SessMsgHeader : Type 0 where
  pub version : ℕ
  pub msg_type : ℕ
  pub action_type : ℕ
  pub ip_version : ℕ
  pub payload_len : ℕ

unfoldable pub sess_header_at : Memory → SessMsgHeader
sess_header_at m = record {
  version = read_le m 0 2;
  msg_type = read_le m 2 2;
  action_type = read_le m 4 2;
  ip_version = read_le m 6 2;
  payload_len = read_le m 8 2;
}

-- SESS_MSG_PAYLOAD_LEN; `none` is PROXY_MSG_INVALID_LEN. SESS_MSG_CLOSE is 0 and SESS_MSG_CREATE is 1,
-- ACTION_TYPE_COMMAND is 0 and ACTION_TYPE_RESPONSE is 1.
unfoldable pub sess_msg_payload_len : (msg_type action_type ip_version : ℕ) → Option ℕ
sess_msg_payload_len msg_type action_type ip_version =
    if msg_type == 0
    then (if action_type == 0 then some 0 else (if action_type == 1 then some 2 else none))
    else (if msg_type == 1
        then (if action_type == 1
            then some 2
            else (if action_type == 0
                then (if ip_version == 4
                    then some 10
                    else (if ip_version == 6 then some 22 else none))
                else none))
        else none)

-- `SessParaIPv4` and `SessParaIPv6` begin with the same two members.
unfoldable pub sess_para_at : (frontend_sess_id ip_version : ℕ) → (payload : Memory) → SessMsgPara
sess_para_at frontend_sess_id ip_version payload = record {
  frontend_sess_id = frontend_sess_id;
  ip_version = ip_version;
  dev_id = read_le payload 0 2;
  trans_proto = read_le payload 2 2;
}

-- The code that the creation returns.
unfoldable pub create_result :
    Option (Bool × BackendSessionPool) → Option (Ret × BackendSessionPool)
create_result none = none
create_result (some (true, p)) = some (process_ok, p)
create_result (some (false, p)) = some (process_error, p)

unfoldable pub active_create :
    BackendSessionPool
    → Answers
    → (frontend_sess_id ip_version payload_len : ℕ) → (payload : Memory)
    → Option (Ret × BackendSessionPool)
active_create p a frontend_sess_id ip_version payload_len payload =
    let made =
      create_result
        (high_speed_create_sess_active p (sess_para_at frontend_sess_id ip_version payload) a) in
    let called = if p.wired then made else some (process_error, p) in
    if ip_version == 4
    then (if payload_len == 10 then called else some (process_error, p))
    else (if ip_version == 6
        then (if payload_len == 22 then called else some (process_error, p))
        else some (process_error, p))

-- BACKEND_SESS_REGISTER_EPOLL: EPOLL_CTL_ADD for a descriptor that is not registered, EPOLL_CTL_MOD otherwise.
unfoldable pub register_epoll :
    BackendSessionPool → (epoll_ok : Bool) → (addr : ℕ) → BackendSession → Ret × BackendSessionPool
register_epoll p epoll_ok addr sess = (
  (if epoll_ok then process_ok else process_error),
  record p {
    heap = update p.heap addr (some (record sess { status = true }));
    epoll = if epoll_ok && not sess.status then sess.sock_fd ∷ p.epoll else p.epoll;
  },
)

-- What is done with the session at an address of the table; `none`: its memory is gone.
unfoldable pub with_session :
    BackendSessionPool
    → Option ℕ
    → (ℕ → BackendSession → Ret × BackendSessionPool)
    → Option (Ret × BackendSessionPool)
with_session p none f = some (process_error, p)
with_session p (some addr) f = elim (p.heap addr) [ none ↦ none | some sess ↦ some (f addr sess) ]

unfoldable pub passive_create :
    BackendSessionPool
    → (mem_pool epoll_ok : Bool) → (backend_sess_id : ℕ) → Option (Ret × BackendSessionPool)
passive_create p mem_pool epoll_ok backend_sess_id =
    if p.wired && mem_pool
    then with_session p (high_speed_search_sess p backend_sess_id) (λ addr sess.
      if sess.establish_mode == 0 then register_epoll p epoll_ok addr sess else (process_error, p))
    else some (process_error, p)

unfoldable pub close_sess :
    BackendSessionPool → (backend_sess_id : ℕ) → Option (Ret × BackendSessionPool)
close_sess p backend_sess_id =
    if p.wired
    then with_session p (high_speed_search_sess p backend_sess_id)
        (λ addr sess. (process_ok, high_speed_delete_sess p addr sess))
    else some (process_error, p)

-- The `switch`; BACKEND_HANDOVER_SESSION_ID is 0xFFFF.
unfoldable pub by_msg_type :
    BackendSessionPool
    → (mem_pool : Bool) → Answers
    → (frontend_sess_id backend_sess_id : ℕ) → SessMsgHeader
    → (payload : Memory) → Option (Ret × BackendSessionPool)
by_msg_type p mem_pool a frontend_sess_id backend_sess_id hdr payload =
    let active = active_create p a frontend_sess_id hdr.ip_version hdr.payload_len payload in
    let passive = passive_create p mem_pool a.epoll_ok backend_sess_id in
    if hdr.msg_type == 1
    then (if not (backend_sess_id == 65535)
        then (if not (hdr.action_type == 1) then some (process_error, p) else passive)
        else active)
    else (if hdr.msg_type == 0 then close_sess p backend_sess_id else some (process_error, p))

unfoldable pub backend_proxy_sess_msg_process_ver1 :
    BackendSessionPool
    → (mem_pool : Bool) → Answers
    → (frontend_sess_id backend_sess_id : ℕ) → SessMsgHeader
    → (payload : Memory) → Option (Ret × BackendSessionPool)
backend_proxy_sess_msg_process_ver1 p mem_pool a frontend_sess_id backend_sess_id hdr payload =
    elim (sess_msg_payload_len hdr.msg_type hdr.action_type hdr.ip_version) [
      | none ↦ some (process_error, p)
      | some corr_len ↦
          if not (corr_len == hdr.payload_len)
          then some (process_error, p)
          else by_msg_type p mem_pool a frontend_sess_id backend_sess_id hdr payload
    ]

unfoldable pub backend_proxy_sess_msg_process :
    (mem_pool : Bool)
    → Answers
    → BackendSessionPool
    → (frontend_sess_id backend_sess_id : ℕ) → (msg : Memory) → Option (Ret × BackendSessionPool)
backend_proxy_sess_msg_process mem_pool a p frontend_sess_id backend_sess_id msg =
    let hdr = sess_header_at msg in
    if not (hdr.action_type == 0) && not (hdr.action_type == 1)
    then some (process_error, p)
    else (if hdr.version == 1
        then backend_proxy_sess_msg_process_ver1 p mem_pool a frontend_sess_id backend_sess_id hdr
            (λ j. msg (10 + j))
        else some (process_error, p))
