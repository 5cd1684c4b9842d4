-- ===== src/Iot/Examples.antt =====
-- A message to a CAN device.
use high_speed_cproxy.Memory.{read_le}
use high_speed_cproxy.Base.{
  ◌+◌, ◌≡◌, refl, inl, arith, true, false, some, [], ◌∷◌, ◌==◌, if◌then◌else◌,
}
use high_speed_cproxy.Memory.{Memory}
use high_speed_cproxy.Selector.{Ret, process_ok, process_error}
use high_speed_cproxy.Message.{Handlers, backend_proxy_msg_process}
use high_speed_cproxy.Build.{GeneralProxyMsgHeader, iot_header_at, general_built}
use high_speed_cproxy.Iot.{IotMsgBuffer, IotSessions, Sent}
use high_speed_cproxy.Iot.Sends.{by_can}
use high_speed_cproxy.Iot.Arrives.{with_iot, IsGot, iot_arrives}

abbrev sevens : Memory
sevens = λ _. 7

abbrev refusing : Handlers Sent
refusing = record {
  dev_msg_process = λ p msg. some (process_error, p);
  strgy_msg_process = λ p msg. some (process_error, p);
  sess_msg_process = λ p f b msg. some (process_error, p);
  data_msg_process = λ p f b n msg. some (process_error, p);
  iot_msg_process = λ p f b n msg. some (process_error, p);
}

abbrev answer : IotMsgBuffer → Ret
answer _ = process_ok

abbrev only_can : IotSessions
only_can = record {
  bluetooth = false;
  zigbee = false;
  can = true;
  lora = false;
  powerlink = false;
  modbustcp = false;
  bluetooth_send = answer;
  can_send = answer;
  modbustcp_send = answer;
}

-- The CAN protocol is 3.
abbrev can_header : GeneralProxyMsgHeader
can_header = record {
  outer_header = record {
    version = 1;
    proxy_msg_type = 4;
    frontend_sess_id = 2;
    backend_sess_id = 2;
    payload_len = 0;
  };
  inner_header = λ j. if j == 2 then 3 else 0;
  addr_info = sevens;
  iot_addr_len = 0;
}

proto_lem : (iot_header_at can_header.inner_header).proto_type ≡ 3
unfolding iot_header_at read_le
proto_lem = refl

iot_arrives_example :
    (msg : Memory) × (got : IotMsgBuffer) × (general_built can_header sevens 8 sevens
      ≡ some (msg, 8 + (12 + 7) + 8))
    × (backend_proxy_msg_process (with_iot refusing only_can) [] msg
        ≡ some (process_ok, (3, got) ∷ []))
    × IsGot can_header sevens 8 7 0 got
iot_arrives_example =
    iot_arrives refusing only_can [] 3 7 64 0 answer can_header sevens 8 sevens (by_can refl) refl
      proto_lem (inl refl) (omega arith)

abbrev message : Memory
message = λ j. if j == 2 then 3 else (if j == 8 then 9 else 0)
