-- ===== src/Iot/Devices.antt =====
-- The loop over the IoT devices in src/engine.c: engine_iot_dev_run, engine_iot_bluetooth_run, engine_iot_can_run and
-- engine_iot_modbustcp_run, which put what a device sends into the shared-memory queue, and
-- build_proxy_general_message_tmp of src/backend_proto.c, through which the last of them does it.
--
-- What `recv_from_remote` answers is a parameter: the list of its answers, each with the buffer that it has filled in,
-- after which there is nothing to receive. global_amp_tx_buf is cleared whenever a message is built, so that it
-- can be taken to hold the same each time.
pub mod Queued
pub mod Forward
mod Examples
use high_speed_cproxy.Base.{
  ℕ, ◌+◌, not, ◌||◌, Option, none, some, ◌>>=◌, List, [], ◌∷◌, ltb, if◌then◌else◌,
}
use high_speed_cproxy.Memory.{Memory}
use high_speed_cproxy.Shm.{Shm, hyperamp_queue_enqueue}
use high_speed_cproxy.Selector.{Ret, process_ok, process_error, process_again}
use high_speed_cproxy.Transfer.{to_ret}
use high_speed_cproxy.Message.{ProxyMsgHeader}
use high_speed_cproxy.Build.{
  GeneralProxyMsgHeader, EngineTx, put_words, general_built, build_proxy_general_message,
}
use high_speed_cproxy.Iot.{IotMsgBuffer}

-- A copy of build_proxy_general_message.
unfoldable pub build_proxy_general_message_tmp :
    Option EngineTx
    → Shm
    → GeneralProxyMsgHeader
    → Option Memory
    → (payload_len : ℕ) → (global_amp_tx_buf : Memory) → Option (Ret × Shm)
build_proxy_general_message_tmp engine s header none payload_len global_amp_tx_buf =
    some (process_error, s)
build_proxy_general_message_tmp none s header (some payload) payload_len global_amp_tx_buf =
    some (process_error, s)
build_proxy_general_message_tmp (some engine) s header (some payload) payload_len
      global_amp_tx_buf =
    if not engine.mem_pool || not engine.hyper_tx_queue
    then some (process_error, s)
    else elim (general_built header payload payload_len global_amp_tx_buf) [
      | none ↦ some (process_error, s)
      | some (msg, len) ↦ (do
        (ret, s') ← hyperamp_queue_enqueue s 0 (some msg) len engine.data_region
        some (to_ret ret, s'))
    ]

-- `IoTBackendSession`: its engine and what it receives.
pub record IotBackendSession : Type 0 where
  pub eng : Option EngineTx
  pub answers : List (Ret × IotMsgBuffer)

-- The header zeroed and filled in: the type PROXY_MSG_TYPE_IOT, the protocol and its version, the payload's length,
-- the length of the protocol's address, and its first `copied` bytes.
unfoldable pub device_header :
    (proto_type iot_addr_len copied : ℕ) → IotMsgBuffer → GeneralProxyMsgHeader
unfolding put_words
device_header proto_type iot_addr_len copied msg_buf = record {
  outer_header = record {
    version = 0;
    proxy_msg_type = 4;
    frontend_sess_id = 0;
    backend_sess_id = 0;
    payload_len = 0;
  };
  inner_header = put_words (λ _. 0) 0 1 proto_type 0 0 (msg_buf.len + iot_addr_len);
  addr_info = λ j. if ltb j copied then msg_buf.addr_info j else 0;
  iot_addr_len = iot_addr_len;
}

-- `do … while(BACKEND_PROXY_PROCESS_OK == ret)`, which the three functions have: `forward` is called on what is received
-- with BACKEND_PROXY_PROCESS_OK, and its result is not used.
unfoldable pub while_ok :
    (forward : Shm → IotMsgBuffer → Option (Ret × Shm))
    → Shm
    → List (Ret × IotMsgBuffer)
    → Option Shm
while_ok forward s [] = some s
while_ok forward s ((process_ok, msg_buf) ∷ answers) = do
  (_, s') ← forward s msg_buf
  while_ok forward s' answers
while_ok forward s (_ ∷ answers) = some s

unfoldable pub engine_iot_bluetooth_run :
    Shm → (global_amp_tx_buf : Memory) → IotBackendSession → Option Shm
unfolding while_ok device_header
engine_iot_bluetooth_run s buf sess =
    while_ok
      (λ s msg_buf.
        build_proxy_general_message sess.eng s (device_header 1 20 20 msg_buf)
          (some msg_buf.content) msg_buf.len buf)
      s sess.answers

-- `bus_id`, the last byte of the address, is 0.
unfoldable pub engine_iot_can_run :
    Shm → (global_amp_tx_buf : Memory) → IotBackendSession → Option Shm
unfolding while_ok device_header
engine_iot_can_run s buf sess =
    while_ok
      (λ s msg_buf.
        build_proxy_general_message sess.eng s (device_header 3 7 6 msg_buf) (some msg_buf.content)
          msg_buf.len buf)
      s sess.answers

unfoldable pub engine_iot_modbustcp_run :
    Shm → (global_amp_tx_buf : Memory) → IotBackendSession → Option Shm
unfolding while_ok device_header build_proxy_general_message_tmp
engine_iot_modbustcp_run s buf sess =
    while_ok
      (λ s msg_buf.
        build_proxy_general_message_tmp sess.eng s (device_header 6 11 11 msg_buf)
          (some msg_buf.content) msg_buf.len buf)
      s sess.answers

-- `if(NULL != sess)`.
unfoldable pub run_session :
    (IotBackendSession → Option Shm) → Shm → Option IotBackendSession → Option Shm
run_session run s none = some s
run_session run s (some sess) = run sess

-- backend_bluetooth_sess, backend_can_sess and backend_modbustcp_sess.
unfoldable pub engine_iot_dev_run :
    Shm
    → (global_amp_tx_buf : Memory) → (bluetooth can modbustcp : Option IotBackendSession)
    → Option Shm
unfolding run_session engine_iot_bluetooth_run engine_iot_can_run engine_iot_modbustcp_run
engine_iot_dev_run s buf bluetooth can modbustcp = do
  s ← run_session (engine_iot_bluetooth_run s buf) s bluetooth
  s ← run_session (engine_iot_can_run s buf) s can
  run_session (engine_iot_modbustcp_run s buf) s modbustcp
