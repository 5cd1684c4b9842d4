-- ===== src/Iot/Devices/Forward.antt =====
-- What the loop over the IoT devices of src/engine.c puts into the shared-memory queue.
use high_speed_cproxy.Build.{EngineTx}
use high_speed_cproxy.Base.{inr}
use high_speed_cproxy.Memory.{read_le}
use high_speed_cproxy.Memory.{write_le}
use high_speed_cproxy.Build.{put_words}
use high_speed_cproxy.Iot.Devices.Queued.{
  IsQueue, IsForwarded, none-IsForwarded, then-IsForwarded, sent-IsForwarded,
}
use high_speed_cproxy.Build.{iot_header_at}
use high_speed_cproxy.Base.{ltb}
use high_speed_cproxy.Build.{iot_addr_size}
use high_speed_cproxy.Base.{sym}
use high_speed_cproxy.Base.{
  ℕ, ◌>>=◌, if◌then◌else◌, ◌+◌, ◌<◌, ◌≤◌, ◌≡◌, ◌∙◌, refl, ap, subst, arith, Option, none, some,
  List, [], ◌∷◌, ◌++◌,
}
use high_speed_cproxy.Memory.{Memory}
use high_speed_cproxy.Shm.{Shm}
use high_speed_cproxy.Shm.Fifo.{Rep}
use high_speed_cproxy.Selector.{Ret, process_ok, process_error, process_again}
use high_speed_cproxy.Build.{GeneralProxyMsgHeader, build_proxy_general_message}
use high_speed_cproxy.Build.Words.{put_words_read}
use high_speed_cproxy.Build.Response.Sent.{wired}
use high_speed_cproxy.Iot.{IotMsgBuffer}
use high_speed_cproxy.Iot.Built.{IsBuilt, iot_message, general_iot}
use high_speed_cproxy.Iot.Wire.{iot_wire, wire_lem}
use high_speed_cproxy.Iot.Devices.{
  IotBackendSession, build_proxy_general_message_tmp, device_header, while_ok,
  engine_iot_bluetooth_run, engine_iot_can_run, engine_iot_modbustcp_run, run_session,
  engine_iot_dev_run,
}

-- What arrives before the first answer that is not BACKEND_PROXY_PROCESS_OK.
abbrev pub received : List (Ret × IotMsgBuffer) → List IotMsgBuffer
received [] = []
received ((process_ok, m) ∷ answers) = m ∷ received answers
received (_ ∷ answers) = []

-- The messages of a session: what it received, as the bytes of messages for its protocol.
abbrev pub wires : (proto_type size copied : ℕ) → List IotMsgBuffer → List (List ℕ)
wires p size copied [] = []
wires p size copied (m ∷ ms) =
    iot_wire (device_header p size copied m).outer_header p size m.len
      (λ j. if ltb j copied then m.addr_info j else 0) m.content
    ∷ wires p size copied ms

abbrev pub session_wires : (proto_type size copied : ℕ) → Option IotBackendSession → List (List ℕ)
session_wires p size copied none = []
session_wires p size copied (some sess) = wires p size copied (received sess.answers)

-- All that arrives is at most as long as the buffer it is received into.
pub data AllWithin : List (Ret × IotMsgBuffer) → Type 0 where
  nothing : AllWithin []
  also :
      {ret : Ret} {m : IotMsgBuffer} {answers : List (Ret × IotMsgBuffer)}
      → m.len ≤ 1024
      → AllWithin answers
      → AllWithin ((ret, m) ∷ answers)

-- A session with the engine, whose device sends that.
pub record IsServed (data_region : ℕ) (sess : IotBackendSession) : Type 0 where
  pub engine : sess.eng ≡ some (wired data_region)
  pub within : AllWithin sess.answers

module _ (data_region capacity : ℕ) (buf : Memory) (p size copied : ℕ)
    (known : iot_addr_size p ≡ some size) (size_small : size ≤ 20) (p_small : p < 7) where
  IsBuilt-device :
      (m : IotMsgBuffer) → m.len ≤ 1024 → IsBuilt (device_header p size copied m) m.len p size
  unfolding device_header iot_header_at put_words write_le read_le
  IsBuilt-device m l = record {
    iot_type = refl;
    proto =
        (put_words_read (λ _. 0) 0 1 p 0 0 (m.len + size) (omega arith) (omega (arith, p_small))
          (omega arith) (omega arith) (omega (arith, l))).1;
    known = known;
    all_addr = inr (omega arith);
    size_small = size_small;
    n_small = omega arith;
    p_small = p_small;
  }

  device-IsForwarded :
      (s : Shm) (ms : List (List ℕ)) (m : IotMsgBuffer)
      → m.len ≤ 1024
      → IsQueue data_region capacity s ms
      → IsForwarded data_region capacity ms (wires p size copied (m ∷ [])) (
          build_proxy_general_message
            (some (wired data_region))
            s
            (device_header p size copied m)
            (some m.content)
            m.len
            buf
          >>= λ r. some r.1)
  unfolding build_proxy_general_message write_le device_header
  device-IsForwarded s ms m l q =
      let h = IsBuilt-device m l in
      subst
        (λ w. IsForwarded data_region capacity ms (w ∷ []) (
          build_proxy_general_message (some (wired data_region)) s (device_header p size copied m)
            (some m.content) m.len buf
          >>= λ r. some r.1))
        (wire_lem (device_header p size copied m) m.content m.len buf p size h ∙ refl)
        (sent-IsForwarded data_region capacity s ms
          (iot_message (device_header p size copied m) m.content m.len buf p size h)
          (m.len + (12 + size) + 8) (omega arith) (omega arith) q
          (build_proxy_general_message (some (wired data_region)) s (device_header p size copied m)
            (some m.content) m.len buf)
          (rw (general_iot (device_header p size copied m) m.content m.len buf p size h) refl))

  abbrev forward : Shm → IotMsgBuffer → Option (Ret × Shm)
  forward s m =
      build_proxy_general_message (some (wired data_region)) s (device_header p size copied m)
        (some m.content) m.len buf

  session-IsForwarded :
      (answers : List (Ret × IotMsgBuffer))
      → AllWithin answers
      → (s : Shm) (ms : List (List ℕ)) → IsQueue data_region capacity s ms
      → IsForwarded data_region capacity ms
          (wires p size copied (received answers))
          (while_ok forward s answers)
  unfolding while_ok
  session-IsForwarded [] within s ms q = none-IsForwarded data_region capacity s ms q
  session-IsForwarded ((process_error, m) ∷ answers) within s ms q =
      none-IsForwarded data_region capacity s ms q
  session-IsForwarded ((process_again, m) ∷ answers) within s ms q =
      none-IsForwarded data_region capacity s ms q
  session-IsForwarded ((process_ok, m) ∷ answers) (also l within) s ms q =
      subst (IsForwarded data_region capacity ms (wires p size copied (m ∷ received answers)))
        (bind_assoc (forward s m) (λ s'. while_ok forward s' answers))
        (then-IsForwarded data_region capacity ms (wires p size copied (m ∷ []))
          (wires p size copied (received answers)) (forward s m >>= λ r. some r.1)
          (λ s'. while_ok forward s' answers) (device-IsForwarded s ms m l q)
          (session-IsForwarded answers within))
    where
      bind_assoc :
          (c : Option (Ret × Shm)) (next : Shm → Option Shm)
          → ((c >>= λ r. some r.1) >>= next) ≡ (c >>= λ r. next r.1)
      bind_assoc none next = refl
      bind_assoc (some r) next = refl

  -- The run of a session that may be there.
  optional-IsForwarded :
      (run : Shm → IotBackendSession → Option Shm)
      → ((s : Shm) (sess : IotBackendSession)
          → sess.eng ≡ some (wired data_region)
          → run s sess ≡ while_ok forward s sess.answers)
      → (session : Option IotBackendSession)
      → ((sess : IotBackendSession) → session ≡ some sess → IsServed data_region sess)
      → (s : Shm) (ms : List (List ℕ)) → IsQueue data_region capacity s ms
      → IsForwarded data_region capacity ms
          (session_wires p size copied session)
          (run_session (run s) s session)
  unfolding run_session
  optional-IsForwarded run same none h s ms q = none-IsForwarded data_region capacity s ms q
  optional-IsForwarded run same (some sess) h s ms q =
      let v = h sess refl in
      subst (IsForwarded data_region capacity ms (session_wires p size copied (some sess)))
        (sym (same s sess v.engine)) (session-IsForwarded sess.answers v.within s ms q)

tmp_lem :
    (engine : Option EngineTx) (s : Shm) (header : GeneralProxyMsgHeader) (payload : Option Memory)
    (n : ℕ) (buf : Memory)
    → build_proxy_general_message_tmp engine s header payload n buf
      ≡ build_proxy_general_message engine s header payload n buf
unfolding build_proxy_general_message_tmp build_proxy_general_message
tmp_lem none s header none n buf = refl
tmp_lem none s header (some payload) n buf = refl
tmp_lem (some engine) s header none n buf = refl
tmp_lem (some engine) s header (some payload) n buf = refl

-- The loop over the devices returns. To a valid queue with blocks of at least 1064 bytes it adds the messages of the Bluetooth,
-- the CAN and the Modbus session, where they are there, in this order, each as an IoT message with the device's
-- address and bytes; as many as fit, and the others are lost. A session's messages are those that it receives before
-- the first answer other than BACKEND_PROXY_PROCESS_OK, at most 1024 bytes each.
pub dev_run-IsForwarded :
    (data_region : ℕ) (s : Shm) (ms : List (List ℕ)) (buf : Memory)
    (bluetooth can modbustcp : Option IotBackendSession)
    → Rep data_region s ms
    → 1064 ≤ s.block_size
    → ((sess : IotBackendSession) → bluetooth ≡ some sess → IsServed data_region sess)
    → ((sess : IotBackendSession) → can ≡ some sess → IsServed data_region sess)
    → ((sess : IotBackendSession) → modbustcp ≡ some sess → IsServed data_region sess)
    → IsForwarded data_region s.capacity ms
        (session_wires 1 20 20 bluetooth
          ++ (session_wires 3 7 6 can ++ session_wires 6 11 11 modbustcp))
        (engine_iot_dev_run s buf bluetooth can modbustcp)
unfolding engine_iot_dev_run engine_iot_bluetooth_run engine_iot_can_run engine_iot_modbustcp_run
    iot_addr_size
dev_run-IsForwarded data_region s ms buf bluetooth can modbustcp r blocks b c m =
    then-IsForwarded data_region s.capacity ms (session_wires 1 20 20 bluetooth)
      (session_wires 3 7 6 can ++ session_wires 6 11 11 modbustcp) _ _
      (optional-IsForwarded data_region s.capacity buf 1 20 20 refl (omega arith) (omega arith)
        (λ s'. engine_iot_bluetooth_run s' buf) (λ s' sess e. rw e refl) bluetooth b s ms
        (record { rep = r; places = refl; blocks = blocks }))
      (λ s' ms' q.
        then-IsForwarded data_region s.capacity ms' (session_wires 3 7 6 can)
          (session_wires 6 11 11 modbustcp) _ _
          (optional-IsForwarded data_region s.capacity buf 3 7 6 refl (omega arith) (omega arith)
            (λ s'. engine_iot_can_run s' buf) (λ s' sess e. rw e refl) can c s' ms' q)
          (optional-IsForwarded data_region s.capacity buf 6 11 11 refl (omega arith) (omega arith)
            (λ s'. engine_iot_modbustcp_run s' buf)
            (λ s' sess e. rw e (
              ap (λ f. while_ok f s' sess.answers)
                (λ i x y.
                  tmp_lem (some (wired data_region)) x (device_header 6 11 11 y) (some y.content)
                    y.len buf i)))
            modbustcp m))
