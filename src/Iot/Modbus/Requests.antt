-- ===== src/Iot/Modbus/Requests.antt =====
-- The requests to a Modbus device and the messages that come back, in any order of events.
use high_speed_cproxy.Base.{subst}
use high_speed_cproxy.Base.{lt→ltb, ◌∙◌}
use high_speed_cproxy.Base.{ap, sym}
use high_speed_cproxy.Base.{ap₂, ltb}
use high_speed_cproxy.Base.{inr}
use high_speed_cproxy.Base.{inl}
use high_speed_cproxy.Base.{Bool-cases, ◌<◌, ◌≢◌}
use high_speed_cproxy.Base.{
  ℕ, ◌+◌, ◌≤◌, ◌≡◌, refl, arith, Bool, true, false, Option, none, some, List, [], ◌∷◌, ◌++◌, ◌*◌,
  ◌==◌, if◌then◌else◌, length, length-append,
}
use high_speed_cproxy.Memory.{Memory}
use high_speed_cproxy.Selector.{process_ok}
use high_speed_cproxy.Iot.{IotMsgBuffer}
use high_speed_cproxy.Iot.Devices.Forward.{received}
use high_speed_cproxy.Iot.Modbus.{
  ModbusSession, modbustcp_send_to_remote, modbustcp_recv_from_remote, modbustcp_answers,
  modbus_source,
}

-- A message for the device, or a run of the engine's loop with what it would read.
pub data Event : Type 0 where
  sends : IotMsgBuffer → Event
  runs : List (Option (ℕ × Memory)) → Event

-- What comes back in all the runs, and the session after the events.
abbrev pub history : ModbusSession → List Event → List IotMsgBuffer × ModbusSession
history sess [] = ([], sess)
history sess (sends msg_buf ∷ events) = history (modbustcp_send_to_remote sess msg_buf).1 events
history sess (runs reads ∷ events) =
    let (answers, sess') = modbustcp_answers sess reads in
    let (messages, last) = history sess' events in (received answers ++ messages, last)

abbrev pub one_if : Bool → ℕ
one_if true = 1
one_if false = 0

-- The read commands among the messages.
abbrev pub requests : List Event → ℕ
requests [] = 0
requests (sends msg_buf ∷ events) = one_if (msg_buf.content 0 == 2) + requests events
requests (runs reads ∷ events) = requests events

abbrev session : (client pending pri_data : Bool) → ModbusSession
session client pending pri_data = record { client = client; pending = pending; pri_data = pri_data }

run_lem :
    (c p d : Bool) (reads : List (Option (ℕ × Memory)))
    → length (received (modbustcp_answers (session c p d) reads).0)
        + one_if (modbustcp_answers (session c p d) reads).1.pending
      ≡ one_if p
unfolding modbustcp_answers modbustcp_recv_from_remote
run_lem c p d [] = omega arith
run_lem c p d (none ∷ reads) = omega arith
run_lem false p d (some (ret, regs) ∷ reads) = omega arith
run_lem true false d (some (ret, regs) ∷ reads) = omega arith
run_lem true true false (some (ret, regs) ∷ reads) = omega arith
run_lem true true true (some (ret, regs) ∷ reads) = omega (arith, run_lem true false true reads)

send_lem :
    (c p d : Bool) (msg_buf : IotMsgBuffer)
    → one_if (modbustcp_send_to_remote (session c p d) msg_buf).1.pending
      ≤ one_if p + one_if (msg_buf.content 0 == 2)
unfolding modbustcp_send_to_remote
send_lem false p d msg_buf = omega arith
send_lem true p d msg_buf = elim (Bool-cases (msg_buf.content 0 == 2)) [
  | inl e ↦ rw e (omega arith)
  | inr e ↦ rw e (omega arith)
]

history_lem :
    (sess : ModbusSession) (events : List Event)
    → length (history sess events).0 + one_if (history sess events).1.pending
      ≤ one_if sess.pending + requests events
history_lem sess [] = omega arith
history_lem sess (sends msg_buf ∷ events) = omega (
  arith,
  send_lem sess.client sess.pending sess.pri_data msg_buf,
  history_lem (modbustcp_send_to_remote sess msg_buf).1 events,
)
history_lem sess (runs reads ∷ events) =
    let (answers, sess') = modbustcp_answers sess reads in
    omega (
      arith,
      length-append (received answers) (history sess' events).0,
      run_lem sess.client sess.pending sess.pri_data reads,
      history_lem sess' events,
    )

-- A message with the registers that were read.
pub record IsReading (ret : ℕ) (regs : Memory) (m : IotMsgBuffer) : Type 0 where
  pub length_read : m.len ≡ 2 * ret
  pub registers : (j : ℕ) → j < 2 * ret → m.content j ≡ regs j
  pub source : m.addr_info ≡ modbus_source

idle_lem :
    (c d : Bool) (reads : List (Option (ℕ × Memory)))
    → (received (modbustcp_answers (session c false d) reads).0 ≡ [])
      × ((modbustcp_answers (session c false d) reads).1.pending ≡ false)
unfolding modbustcp_answers modbustcp_recv_from_remote
idle_lem c d [] = (refl, refl)
idle_lem c d (none ∷ reads) = (refl, refl)
idle_lem false d (some (ret, regs) ∷ reads) = (refl, refl)
idle_lem true d (some (ret, regs) ∷ reads) = (refl, refl)

-- A run brings back exactly this reading.
abbrev pub IsAnswered :
    (ret : ℕ) → (regs : Memory) → (reads : List (Option (ℕ × Memory))) → ModbusSession → Type 0
IsAnswered ret regs reads sess =
    (m : IotMsgBuffer) × (received (modbustcp_answers sess (some (ret, regs) ∷ reads)).0 ≡ m ∷ [])
    × IsReading ret regs m
    × ((modbustcp_answers sess (some (ret, regs) ∷ reads)).1.pending ≡ false)

abbrev reading : (ret : ℕ) → (regs : Memory) → IotMsgBuffer
reading ret regs = record {
  addr_info = modbus_source;
  content = λ j. if ltb j (2 * ret) then regs j else 0;
  len = 2 * ret;
}

pending-IsAnswered :
    (ret : ℕ) (regs : Memory) (reads : List (Option (ℕ × Memory)))
    → IsAnswered ret regs reads (session true true true)
unfolding modbustcp_answers modbustcp_recv_from_remote
pending-IsAnswered ret regs reads = (
  reading ret regs,
  ap (λ t. reading ret regs ∷ t) (idle_lem true true reads).0,
  record { length_read = refl; registers = λ j h. rw (lt→ltb j (2 * ret) h) refl; source = refl },
  (idle_lem true true reads).1,
)

-- Every command for a Modbus client session is answered by BACKEND_PROXY_PROCESS_OK, and one whose first byte is not 2, the
-- read command, changes nothing. In any sequence of commands and runs at most as many messages come back as there
-- were read commands, one more where the session was pending, and one less where it is pending at the end. A run
-- of a pending client session with its context and a successful first read brings back exactly one message, with
-- the registers read, whatever else could be read, and the session is then not pending; a run whose first read fails
-- brings back none, and the session is as before.
pub modbustcp_requests :
    (sess : ModbusSession) (events : List Event)
    → (length (history sess events).0 + one_if (history sess events).1.pending
        ≤ one_if sess.pending + requests events)
      × ((msg_buf : IotMsgBuffer)
          → sess.client ≡ true
          → ((modbustcp_send_to_remote sess msg_buf).0 ≡ process_ok)
            × (msg_buf.content 0 ≢ 2 → (modbustcp_send_to_remote sess msg_buf).1 ≡ sess))
      × ((ret : ℕ) (regs : Memory) (reads : List (Option (ℕ × Memory)))
          → sess.client ≡ true
          → sess.pending ≡ true
          → sess.pri_data ≡ true
          → IsAnswered ret regs reads sess)
      × ((reads : List (Option (ℕ × Memory)))
          → (received (modbustcp_answers sess (none ∷ reads)).0 ≡ [])
            × ((modbustcp_answers sess (none ∷ reads)).1 ≡ sess))
unfolding modbustcp_send_to_remote modbustcp_answers modbustcp_recv_from_remote
modbustcp_requests sess events = (
  history_lem sess events,
  λ m c. (ground (arith, c), λ n. ground (arith, c, n)),
  λ ret regs reads c p d.
      let e : session true true true ≡ sess =
        ap₂ (λ c p. session c p true) (sym c) (sym p)
        ∙ ap (session sess.client sess.pending) (sym d) in
      subst (IsAnswered ret regs reads) e (pending-IsAnswered ret regs reads),
  λ reads. (refl, refl),
)
