-- ===== src/Message.antt =====
-- The outer header of a proxy message (include/message.h) as bytes, the checks of
-- include/backend_proto.h, and the dispatch of a message by its type, backend_proxy_msg_process of
-- src/backend_proto.c. What handles the messages of a type is an argument.
pub mod Header
pub mod Dispatch
mod Examples
use high_speed_cproxy.Base.{
  ℕ, ◌+◌, Bool, true, false, not, ◌&&◌, ◌||◌, ltb, leb, ◌==◌, Option, some, if◌then◌else◌,
}
use high_speed_cproxy.Memory.{Memory, store, read_le, write_le}
use high_speed_cproxy.Selector.{Ret, process_error}

-- `ProxyMsgHeader`: two bytes and three uint16_t, packed.
pub record ProxyMsgHeader : Type 0 where
  pub version : ℕ
  pub proxy_msg_type : ℕ
  pub frontend_sess_id : ℕ
  pub backend_sess_id : ℕ
  pub payload_len : ℕ

-- What the header at the beginning of a message says.
unfoldable pub header_at : Memory → ProxyMsgHeader
unfolding read_le
header_at m = record {
  version = m 0;
  proxy_msg_type = m 1;
  frontend_sess_id = read_le m 2 2;
  backend_sess_id = read_le m 4 2;
  payload_len = read_le m 6 2;
}

-- The stores to the header's members.
unfoldable pub put_header : Memory → ProxyMsgHeader → Memory
unfolding write_le
put_header m hdr =
    let m = store m 0 (hdr.version) in
    let m = write_le m 2 hdr.frontend_sess_id 2 in
    let m = write_le m 4 hdr.backend_sess_id 2 in
    let m = store m 1 (hdr.proxy_msg_type) in write_le m 6 hdr.payload_len 2

-- PROXY_MSG_TOTAL_SIZE.
abbrev pub proxy_msg_total_size : ProxyMsgHeader → ℕ
proxy_msg_total_size hdr = 8 + hdr.payload_len

-- PROXY_MSG_TYPE_VALID, PROXY_MSG_LEN_VALID and APP_SESSION_ID_VALID, as they are written.
unfoldable pub proxy_msg_type_valid : ℕ → Bool
proxy_msg_type_valid x = x == 0 || x == 1 || x == 2 || x == 3 || x == 4

unfoldable pub proxy_msg_len_valid : ℕ → Bool
proxy_msg_len_valid x = leb 1 x || leb x 4088

unfoldable pub app_session_id_valid : ℕ → Bool
app_session_id_valid x = not (x == 0) || not (x == 65535)

-- What processes the messages of each type, on a state of any kind; `none`: the handler does not return.
pub record Handlers {ℓ} (State : Type ℓ) : Type ℓ where
  pub dev_msg_process : State → (msg : Memory) → Option (Ret × State)
  pub strgy_msg_process : State → (msg : Memory) → Option (Ret × State)
  pub sess_msg_process :
      State → (frontend_sess_id backend_sess_id : ℕ) → (msg : Memory) → Option (Ret × State)
  pub data_msg_process :
      State → (frontend_sess_id backend_sess_id msg_len : ℕ) → (msg : Memory) → Option (Ret × State)
  pub iot_msg_process :
      State → (frontend_sess_id backend_sess_id msg_len : ℕ) → (msg : Memory) → Option (Ret × State)

-- The message past its header.
abbrev pub past_header : Memory → Memory
past_header msg j = msg (8 + j)

-- From the type on.
pub dispatch {ℓ} :
    {State : Type ℓ}
    → Handlers State
    → State
    → ProxyMsgHeader
    → (msg : Memory) → Option (Ret × State)
dispatch h s hdr msg =
    if hdr.proxy_msg_type == 0
    then (if not (hdr.frontend_sess_id == 0) || not (hdr.backend_sess_id == 0)
        then some (process_error, s)
        else h.dev_msg_process s msg)
    else (if hdr.proxy_msg_type == 1
        then (if not (hdr.frontend_sess_id == 0) || not (hdr.backend_sess_id == 0)
            then some (process_error, s)
            else h.strgy_msg_process s msg)
        else (if hdr.proxy_msg_type == 2
            then h.sess_msg_process s hdr.frontend_sess_id hdr.backend_sess_id msg
            else (if hdr.proxy_msg_type == 3
                then (if not (app_session_id_valid hdr.frontend_sess_id)
                      || not (app_session_id_valid hdr.backend_sess_id)
                    then some (process_error, s)
                    else h.data_msg_process s hdr.frontend_sess_id hdr.backend_sess_id
                        hdr.payload_len msg)
                else (if hdr.proxy_msg_type == 4
                    then h.iot_msg_process s hdr.frontend_sess_id hdr.backend_sess_id
                        hdr.payload_len msg
                    else some (process_error, s)))))

pub backend_proxy_msg_process {ℓ} :
    {State : Type ℓ} → Handlers State → State → (msg : Memory) → Option (Ret × State)
unfolding dispatch
backend_proxy_msg_process h s msg =
    let hdr = header_at msg in
    if not (proxy_msg_type_valid hdr.proxy_msg_type)
    then some (process_error, s)
    else (if not (proxy_msg_len_valid hdr.payload_len)
        then some (process_error, s)
        else dispatch h s hdr (past_header msg))
