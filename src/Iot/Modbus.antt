-- ===== src/Iot/Modbus.antt =====
-- The Modbus TCP session of src/session.c: modbustcp_send_to_remote and modbustcp_recv_from_remote, and what a run of
-- engine_iot_modbustcp_run of src/engine.c receives from it.
--
-- What modbus_read_registers reads is a parameter: the number of registers, at least 1, and their bytes, or `none` for
-- a result that is not positive.
pub mod Requests
mod Examples
use high_speed_cproxy.Base.{
  ℕ, ◌*◌, Bool, true, false, not, Option, none, some, List, [], ◌∷◌, ◌==◌, ltb, if◌then◌else◌,
  get_elem?,
}
use high_speed_cproxy.Memory.{Memory}
use high_speed_cproxy.Selector.{Ret, process_ok, process_error, process_again}
use high_speed_cproxy.Iot.{IotMsgBuffer}

-- `IoTBackendSession`, the members that the functions use: IOT_WORK_MODE_CLIENT as `working_mode`, IOT_SESS_STATE_PENDING
-- as `sess_state`, and that `pri_data` is not NULL.
pub record ModbusSession : Type 0 where
  pub client : Bool
  pub pending : Bool
  pub pri_data : Bool

-- `cmd` is the first byte of the data, and IOT_MODBUS_CMD_READ_REQ is 2. Nothing is sent.
unfoldable pub modbustcp_send_to_remote : ModbusSession → IotMsgBuffer → Ret × ModbusSession
modbustcp_send_to_remote sess msg_buf =
    if sess.client
    then (process_ok, if msg_buf.content 0 == 2 then record sess { pending = true } else sess)
    else (process_error, sess)

-- The address of "192.168.137.2:502" with one register from 0 on: the IP address, the port, the unit, the first register
-- and the number of registers.
abbrev pub modbus_source : Memory
modbus_source j =
    elim (get_elem? {A = ℕ} (192 ∷ 168 ∷ 137 ∷ 2 ∷ 246 ∷ 1 ∷ 0 ∷ 0 ∷ 0 ∷ 1 ∷ 0 ∷ []) j) [
      | none ↦ 0
      | some b ↦ b
    ]

-- `msg_buf` is there, and its data zeroed by the caller.
unfoldable pub modbustcp_recv_from_remote :
    ModbusSession → IotMsgBuffer → (read : Option (ℕ × Memory)) → Ret × ModbusSession × IotMsgBuffer
modbustcp_recv_from_remote sess msg_buf none = (process_error, sess, msg_buf)
modbustcp_recv_from_remote sess msg_buf (some (ret, regs)) =
    if sess.client
    then (if sess.pending
        then (if not sess.pri_data then (process_error, sess, msg_buf) else (
          process_ok,
          record sess { pending = false },
          record {
            addr_info = modbus_source;
            content = λ j. if ltb j (2 * ret) then regs j else msg_buf.content j;
            len = 2 * ret;
          },
        ))
        else (process_error, sess, msg_buf))
    else (process_error, sess, msg_buf)

-- `msg_buf` and `data` zeroed, with the size of `data` as the length.
abbrev pub zeroed : IotMsgBuffer
zeroed = record { addr_info = λ _. 0; content = λ _. 0; len = 1024 }

-- The answers that a run of the engine's loop gets, which ends with the first that is not BACKEND_PROXY_PROCESS_OK, and the
-- session after it.
unfoldable pub modbustcp_answers :
    ModbusSession → (reads : List (Option (ℕ × Memory))) → List (Ret × IotMsgBuffer) × ModbusSession
unfolding modbustcp_recv_from_remote
modbustcp_answers sess [] = ([], sess)
modbustcp_answers sess (read ∷ reads) =
    let (ret, sess', msg_buf) = modbustcp_recv_from_remote sess zeroed read in
    elim ret [
      | process_ok ↦
          let (answers, last) = modbustcp_answers sess' reads in
          ((process_ok, msg_buf) ∷ answers, last)
      | process_error ↦ ((process_error, msg_buf) ∷ [], sess')
      | process_again ↦ ((process_again, msg_buf) ∷ [], sess')
    ]
