-- ===== src/Iot/Devices/Examples.antt =====
-- Two messages from a CAN device, for a queue with one free place.
use high_speed_cproxy.Base.{subst}
use high_speed_cproxy.Base.{◌≡◌, refl, arith, none, some, [], ◌∷◌, ◌++◌}
use high_speed_cproxy.Shm.{Shm}
use high_speed_cproxy.Shm.Fifo.{Rep}
use high_speed_cproxy.Selector.{process_ok, process_again}
use high_speed_cproxy.Build.Samples.{threes, empty_queue}
use high_speed_cproxy.Build.Response.Sent.{wired}
use high_speed_cproxy.Iot.{IotMsgBuffer}
use high_speed_cproxy.Iot.Devices.{IotBackendSession, engine_iot_dev_run}
use high_speed_cproxy.Iot.Devices.Queued.{IsForwarded}
use high_speed_cproxy.Iot.Devices.Forward.{
  IsServed, nothing, also, session_wires, dev_run-IsForwarded,
}

abbrev frame : IotMsgBuffer
frame = record { addr_info = threes; content = threes; len = 8 }

abbrev can_session : IotBackendSession
can_session = record {
  eng = some (wired 100);
  answers = (process_ok, frame) ∷ (process_ok, frame) ∷ (process_again, frame) ∷ [];
}

abbrev wide_queue : Shm
wide_queue = record empty_queue { queue = record (empty_queue.queue) { block_size = 2048 } }

wide_queue-Rep : Rep 100 wide_queue []
wide_queue-Rep = record {
  valid = record {
    capacity_pos = omega arith;
    capacity_u16 = omega arith;
    header_in = omega arith;
    tail_in = omega arith;
    fits = omega arith;
    unlocked = refl;
  };
  room = omega arith;
  place = refl;
  slots = tt;
}

can_session-IsServed : (sess : IotBackendSession) → some can_session ≡ some sess → IsServed 100 sess
can_session-IsServed sess e = subst (IsServed 100) (let i : can_session ≡ sess = cc in i) (record {
  engine = refl;
  within = also (omega arith) (also (omega arith) (also (omega arith) nothing));
})

dev_run-IsForwarded_example :
    IsForwarded 100 2 []
      (session_wires 1 20 20 none
        ++ (session_wires 3 7 6 (some can_session) ++ session_wires 6 11 11 none))
      (engine_iot_dev_run wide_queue threes none (some can_session) none)
dev_run-IsForwarded_example =
    dev_run-IsForwarded 100 wide_queue [] threes none (some can_session) none wide_queue-Rep
      (omega arith) (λ sess e. absurd cc) can_session-IsServed (λ sess e. absurd cc)
