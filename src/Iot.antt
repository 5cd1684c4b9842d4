-- ===== src/Iot.antt =====
-- The messages for IoT devices in src/backend_proto.c: backend_proxy_iot_msg_process and the handlers of the protocols,
-- which hand what they are to send to the session of their protocol.
pub mod Sends
pub mod Built
pub mod Wire
pub mod Arrives
pub mod Devices
pub mod Modbus
mod Examples
use high_speed_cproxy.Base.{ℕ, ◌+◌, ◌-◌, Bool, not, ◌||◌, List, [], ◌∷◌, ltb, ◌==◌, if◌then◌else◌}
use high_speed_cproxy.Memory.{Memory}
use high_speed_cproxy.Selector.{Ret, process_ok, process_error}
use high_speed_cproxy.Build.{IotMsgHeader, iot_header_at}

-- `IotMsgBuffer`, of which the handlers set these: the address as the bytes of its union, the data and their number.
pub record IotMsgBuffer : Type 0 where
  pub addr_info : Memory
  pub content : Memory
  pub len : ℕ

-- Which of the sessions backend_bluetooth_sess and so on there are, and what the `send_to_remote` of the sessions
-- for Bluetooth, CAN and Modbus answer.
pub record IotSessions : Type 0 where
  pub bluetooth : Bool
  pub zigbee : Bool
  pub can : Bool
  pub lora : Bool
  pub powerlink : Bool
  pub modbustcp : Bool
  pub bluetooth_send : IotMsgBuffer → Ret
  pub can_send : IotMsgBuffer → Ret
  pub modbustcp_send : IotMsgBuffer → Ret

-- What was handed to the sessions, by protocol, the last first.
abbrev pub Sent : Type 0
Sent = List (ℕ × IotMsgBuffer)

-- The buffer zeroed and the first `n` bytes of the message's data copied into its address, member by member: the
-- structures are packed, so that their members are all their bytes.
unfoldable pub with_addr : (n : ℕ) → (iot_data : Memory) → (len : ℕ) → IotMsgBuffer
with_addr n iot_data len = record {
  addr_info = λ j. if ltb j n then iot_data j else 0;
  content = λ j. iot_data (n + j);
  len = len;
}

unfoldable pub backend_proxy_bluetooth_msg_process :
    IotSessions
    → Sent
    → (frontend_sess_id backend_sess_id : ℕ) → IotMsgHeader
    → (iot_data : Memory) → Ret × Sent
unfolding with_addr
backend_proxy_bluetooth_msg_process s sent frontend_sess_id backend_sess_id iot_header iot_data =
    let iot_msg_buf = with_addr 20 iot_data (iot_header.payload_len - 20) in
    if not s.bluetooth || ltb 244 iot_header.payload_len || ltb iot_header.payload_len 20
    then (process_error, sent)
    else (s.bluetooth_send iot_msg_buf, (1, iot_msg_buf) ∷ sent)

unfoldable pub backend_proxy_can_msg_process :
    IotSessions
    → Sent
    → (frontend_sess_id backend_sess_id : ℕ) → IotMsgHeader
    → (iot_data : Memory) → Ret × Sent
unfolding with_addr
backend_proxy_can_msg_process s sent frontend_sess_id backend_sess_id iot_header iot_data =
    let iot_msg_buf = with_addr 7 iot_data (iot_header.payload_len - 7) in
    if not s.can || ltb 64 iot_header.payload_len || ltb iot_header.payload_len 7
    then (process_error, sent)
    else (s.can_send iot_msg_buf, (3, iot_msg_buf) ∷ sent)

-- Three protocols whose messages go nowhere.
unfoldable pub backend_proxy_zigbee_msg_process :
    IotSessions
    → Sent
    → (frontend_sess_id backend_sess_id : ℕ) → IotMsgHeader
    → (iot_data : Memory) → Ret × Sent
backend_proxy_zigbee_msg_process s sent frontend_sess_id backend_sess_id iot_header iot_data =
    if not s.zigbee then (process_error, sent) else (process_ok, sent)

unfoldable pub backend_proxy_lora_msg_process :
    IotSessions
    → Sent
    → (frontend_sess_id backend_sess_id : ℕ) → IotMsgHeader
    → (iot_data : Memory) → Ret × Sent
backend_proxy_lora_msg_process s sent frontend_sess_id backend_sess_id iot_header iot_data =
    if not s.lora then (process_error, sent) else (process_ok, sent)

unfoldable pub backend_proxy_powerlink_msg_process :
    IotSessions
    → Sent
    → (frontend_sess_id backend_sess_id : ℕ) → IotMsgHeader
    → (iot_data : Memory) → Ret × Sent
backend_proxy_powerlink_msg_process s sent frontend_sess_id backend_sess_id iot_header iot_data =
    if not s.powerlink then (process_error, sent) else (process_ok, sent)

-- The length that is handed on is that of the address and the data.
unfoldable pub backend_proxy_modbustcp_msg_process :
    IotSessions
    → Sent
    → (frontend_sess_id backend_sess_id : ℕ) → IotMsgHeader
    → (iot_data : Memory) → Ret × Sent
unfolding with_addr
backend_proxy_modbustcp_msg_process s sent frontend_sess_id backend_sess_id iot_header iot_data =
    let iot_msg_buf = with_addr 11 iot_data iot_header.payload_len in
    if not s.modbustcp || ltb 253 iot_header.payload_len || ltb iot_header.payload_len 11
    then (process_error, sent)
    else (s.modbustcp_send iot_msg_buf, (6, iot_msg_buf) ∷ sent)

-- The header has 12 bytes; `msg` is there.
unfoldable pub backend_proxy_iot_msg_process :
    IotSessions
    → Sent
    → (frontend_sess_id backend_sess_id msg_len : ℕ) → (msg : Memory) → Ret × Sent
backend_proxy_iot_msg_process s sent frontend_sess_id backend_sess_id msg_len msg =
    let iot_msg_hdr = iot_header_at msg in
    let iot_data : Memory = λ j. msg (12 + j) in
    if iot_msg_hdr.proto_type == 1
    then (if ltb msg_len (12 + 20)
        then (process_error, sent)
        else backend_proxy_bluetooth_msg_process s sent frontend_sess_id backend_sess_id iot_msg_hdr
            iot_data)
    else (if iot_msg_hdr.proto_type == 3
        then (if ltb msg_len (12 + 7)
            then (process_error, sent)
            else backend_proxy_can_msg_process s sent frontend_sess_id backend_sess_id iot_msg_hdr
                iot_data)
        else (if iot_msg_hdr.proto_type == 2
            then (if ltb msg_len (12 + 11)
                then (process_error, sent)
                else backend_proxy_zigbee_msg_process s sent frontend_sess_id backend_sess_id
                    iot_msg_hdr iot_data)
            else (if iot_msg_hdr.proto_type == 4
                then (if ltb msg_len (12 + 11)
                    then (process_error, sent)
                    else backend_proxy_lora_msg_process s sent frontend_sess_id backend_sess_id
                        iot_msg_hdr iot_data)
                else (if iot_msg_hdr.proto_type == 5
                    then (if ltb msg_len (12 + 10)
                        then (process_error, sent)
                        else backend_proxy_powerlink_msg_process s sent frontend_sess_id
                            backend_sess_id iot_msg_hdr iot_data)
                    else (if iot_msg_hdr.proto_type == 6
                        then (if ltb msg_len (12 + 11)
                            then (process_error, sent)
                            else backend_proxy_modbustcp_msg_process s sent frontend_sess_id
                                backend_sess_id iot_msg_hdr iot_data)
                        else (process_error, sent))))))
