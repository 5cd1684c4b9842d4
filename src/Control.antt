-- ===== src/Control.antt =====
-- The device and the strategy messages of src/backend_proto.c: backend_proxy_dev_msg_process,
-- backend_proxy_strgy_msg_process and the handlers below them, which answer with a code and change nothing.
pub mod Accepted
mod Examples
use high_speed_cproxy.Base.{ℕ, ◌+◌, Bool, true, false, not, Option, none, some, ◌==◌, if◌then◌else◌}
use high_speed_cproxy.Memory.{Memory, read_le}
use high_speed_cproxy.Selector.{Ret, process_ok, process_error}

-- `DevMsgHeader` and `StrgyMsgHeader`, which have the same members: five uint16_t, packed.
pub record DevMsgHeader : Type 0 where
  pub version : ℕ
  pub msg_type : ℕ
  pub msg_id : ℕ
  pub action_type : ℕ
  pub payload_len : ℕ

unfoldable pub dev_header_at : Memory → DevMsgHeader
dev_header_at m = record {
  version = read_le m 0 2;
  msg_type = read_le m 2 2;
  msg_id = read_le m 4 2;
  action_type = read_le m 6 2;
  payload_len = read_le m 8 2;
}

-- DEV_MSG_PAYLOAD_LEN: DEV_MSG_DISABLE is 0, DEV_MSG_ENABLE is 1 and DEV_MSG_QUERY is 2, ACTION_TYPE_COMMAND is 0
-- and ACTION_TYPE_RESPONSE is 1; `none` is PROXY_MSG_INVALID_LEN.
unfoldable pub dev_msg_payload_len : (dev_msg_type action_type : ℕ) → Option ℕ
dev_msg_payload_len dev_msg_type action_type =
    if dev_msg_type == 1
    then (if action_type == 0 then some 2 else (if action_type == 1 then some 2 else none))
    else (if dev_msg_type == 0
        then (if action_type == 0 then some 2 else (if action_type == 1 then some 2 else none))
        else (if dev_msg_type == 2
            then (if action_type == 0 then some 0 else (if action_type == 1 then some 4 else none))
            else none))

-- STRGY_MSG_PAYLOAD_LEN: STRGY_MSG_SET is 0 and STRGY_MSG_QUERY is 1.
unfoldable pub strgy_msg_payload_len : (strgy_msg_type action_type : ℕ) → Option ℕ
strgy_msg_payload_len strgy_msg_type action_type =
    if strgy_msg_type == 0
    then (if action_type == 0 then some 2 else (if action_type == 1 then some 2 else none))
    else (if strgy_msg_type == 1
        then (if action_type == 0 then some 0 else (if action_type == 1 then some 4 else none))
        else none)

-- The handlers of the single commands.
unfoldable pub backend_proxy_dev_msg_process_enable_ver1 :
    (payload_len : ℕ) → (msg_payload : Memory) → Ret
backend_proxy_dev_msg_process_enable_ver1 payload_len msg_payload = process_ok

unfoldable pub backend_proxy_dev_msg_process_disable_ver1 :
    (payload_len : ℕ) → (msg_payload : Memory) → Ret
backend_proxy_dev_msg_process_disable_ver1 payload_len msg_payload = process_ok

unfoldable pub backend_proxy_dev_msg_process_query_ver1 :
    (payload_len : ℕ) → (msg_payload : Memory) → Ret
backend_proxy_dev_msg_process_query_ver1 payload_len msg_payload = process_ok

unfoldable pub backend_proxy_strgy_msg_process_set_ver1 :
    (payload_len : ℕ) → (msg_payload : Memory) → Ret
backend_proxy_strgy_msg_process_set_ver1 payload_len msg_payload = process_ok

unfoldable pub backend_proxy_strgy_msg_process_query_ver1 :
    (payload_len : ℕ) → (msg_payload : Memory) → Ret
backend_proxy_strgy_msg_process_query_ver1 payload_len msg_payload = process_ok

-- The check of the length, before the `switch`.
abbrev pub has_length : Option ℕ → (payload_len : ℕ) → Bool
has_length none payload_len = false
has_length (some corr_len) payload_len = corr_len == payload_len

unfoldable pub backend_proxy_dev_msg_process_ver1 :
    (msg_type action_type payload_len : ℕ) → (msg_payload : Memory) → Ret
backend_proxy_dev_msg_process_ver1 msg_type action_type payload_len msg_payload =
    if not (has_length (dev_msg_payload_len msg_type action_type) payload_len)
    then process_error
    else (if msg_type == 0
        then backend_proxy_dev_msg_process_disable_ver1 payload_len msg_payload
        else (if msg_type == 1
            then backend_proxy_dev_msg_process_enable_ver1 payload_len msg_payload
            else (if msg_type == 2
                then backend_proxy_dev_msg_process_query_ver1 payload_len msg_payload
                else process_error)))

unfoldable pub backend_proxy_dev_msg_process : (msg : Memory) → Ret
backend_proxy_dev_msg_process msg =
    let hdr = dev_header_at msg in
    if not (hdr.action_type == 0)
    then process_error
    else (if hdr.version == 1
        then backend_proxy_dev_msg_process_ver1 hdr.msg_type hdr.action_type hdr.payload_len
            (λ j. msg (10 + j))
        else process_error)

unfoldable pub backend_proxy_strgy_msg_process_ver1 :
    (msg_type action_type payload_len : ℕ) → (msg_payload : Memory) → Ret
backend_proxy_strgy_msg_process_ver1 msg_type action_type payload_len msg_payload =
    if not (has_length (strgy_msg_payload_len msg_type action_type) payload_len)
    then process_error
    else (if msg_type == 0
        then backend_proxy_strgy_msg_process_set_ver1 payload_len msg_payload
        else (if msg_type == 1
            then backend_proxy_strgy_msg_process_query_ver1 payload_len msg_payload
            else process_error))

unfoldable pub backend_proxy_strgy_msg_process : (msg : Memory) → Ret
backend_proxy_strgy_msg_process msg =
    let hdr = dev_header_at msg in
    if not (hdr.action_type == 0)
    then process_error
    else (if hdr.version == 1
        then backend_proxy_strgy_msg_process_ver1 hdr.msg_type hdr.action_type hdr.payload_len
            (λ j. msg (10 + j))
        else process_error)
