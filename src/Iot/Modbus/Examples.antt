-- ===== src/Iot/Modbus/Examples.antt =====
-- A write command, two read commands and a run.
use high_speed_cproxy.Base.{ℕ, ◌+◌, ◌≤◌, ◌≡◌, ◌≢◌, true, Option, none, some, List, [], ◌∷◌, length}
use high_speed_cproxy.Memory.{Memory}
use high_speed_cproxy.Selector.{process_ok}
use high_speed_cproxy.Iot.{IotMsgBuffer}
use high_speed_cproxy.Iot.Devices.Forward.{received}
use high_speed_cproxy.Iot.Modbus.{ModbusSession, modbustcp_send_to_remote, modbustcp_answers}
use high_speed_cproxy.Iot.Modbus.Requests.{
  Event, sends, runs, history, one_if, requests, IsAnswered, modbustcp_requests,
}

abbrev client : ModbusSession
client = record { client = true; pending = true; pri_data = true }

abbrev command : ℕ → IotMsgBuffer
command cmd = record { addr_info = λ _. 0; content = λ _. cmd; len = 3 }

abbrev events : List Event
events =
    sends (command 0)
    ∷ sends (command 2)
    ∷ sends (command 2)
    ∷ runs (some (1, (λ _. 9)) ∷ none ∷ [])
    ∷ []

modbustcp_requests_example :
    (length (history client events).0 + one_if (history client events).1.pending
      ≤ one_if true + requests events)
    × ((msg_buf : IotMsgBuffer)
        → true ≡ true
        → ((modbustcp_send_to_remote client msg_buf).0 ≡ process_ok)
          × (msg_buf.content 0 ≢ 2 → (modbustcp_send_to_remote client msg_buf).1 ≡ client))
    × ((ret : ℕ) (regs : Memory) (reads : List (Option (ℕ × Memory)))
        → true ≡ true
        → true ≡ true
        → true ≡ true
        → IsAnswered ret regs reads client)
    × ((reads : List (Option (ℕ × Memory)))
        → (received (modbustcp_answers client (none ∷ reads)).0 ≡ [])
          × ((modbustcp_answers client (none ∷ reads)).1 ≡ client))
modbustcp_requests_example = modbustcp_requests client events
