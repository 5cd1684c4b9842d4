-- ===== src/Iot/Arrives.antt =====
-- A message for an IoT device, from its construction to the session that sends it.
use high_speed_cproxy.Base.{lt→ltb}
use high_speed_cproxy.Base.{ℕ, ◌+◌, ◌-◌, ◌<◌, ◌≤◌, ◌≡◌, ◌⊎◌, ◌∙◌, refl, ap, inr, arith, some, ◌∷◌}
use high_speed_cproxy.Memory.{Memory}
use high_speed_cproxy.Selector.{Ret}
use high_speed_cproxy.Message.{header_at, past_header, Handlers, backend_proxy_msg_process}
use high_speed_cproxy.Build.{GeneralProxyMsgHeader, iot_header_at, iot_addr_size, general_built}
use high_speed_cproxy.Message.Dispatch.{msg_process_by_type}
use high_speed_cproxy.Iot.{
  IotMsgBuffer, IotSessions, Sent, with_addr, backend_proxy_iot_msg_process,
}
use high_speed_cproxy.Iot.Built.{
  IsBuilt, iot_message, general_iot, outside, in_address, in_payload, type_lem, payload_len_lem,
  iot_payload_len_lem, proto_lem,
}
use high_speed_cproxy.Iot.Sends.{Route, by_bluetooth, by_can, by_modbustcp, iot_sends}

-- The handlers of the other types, and the IoT handler over the sessions.
abbrev pub with_iot : Handlers Sent → IotSessions → Handlers Sent
with_iot rest s = record rest {
  iot_msg_process = λ sent f b n msg. some (backend_proxy_iot_msg_process s sent f b n msg);
}

-- The size of the address is the one of the builder, and small.
Route-size :
    (s : IotSessions) (p size limit excess : ℕ) (send : IotMsgBuffer → Ret)
    → Route s p size limit send excess
    → (iot_addr_size p ≡ some size) × (0 < size) × (size ≤ 20) × (limit ≤ 253) × (p < 7)
unfolding iot_addr_size
Route-size s p size limit excess send (by_bluetooth e) =
    (refl, omega arith, omega arith, omega arith, omega arith)
Route-size s p size limit excess send (by_can e) =
    (refl, omega arith, omega arith, omega arith, omega arith)
Route-size s p size limit excess send (by_modbustcp e) =
    (refl, omega arith, omega arith, omega arith, omega arith)

-- A session gets the payload and the address of a message.
pub record IsGot (header : GeneralProxyMsgHeader) (payload : Memory) (n size excess : ℕ)
    (got : IotMsgBuffer) : Type 0 where
  pub length_sent : got.len ≡ n + excess
  pub address : (j : ℕ) → j < size → got.addr_info j ≡ header.addr_info j
  pub content : (j : ℕ) → j < n → got.content j ≡ payload j

module _ (header : GeneralProxyMsgHeader) (payload : Memory) (n : ℕ) (buf : Memory) (p size : ℕ)
    (b : IsBuilt header n p size) where
  abbrev message : Memory
  message = iot_message header payload n buf p size b

  abbrev got : (excess : ℕ) → IotMsgBuffer
  got excess =
      with_addr size (λ j. past_header message (12 + j))
        ((iot_header_at (past_header message)).payload_len - size + excess)

  got-IsGot : (excess : ℕ) → IsGot header payload n size excess (got excess)
  unfolding with_addr iot_header_at
  got-IsGot excess = record {
    length_sent = omega (arith, (iot_payload_len_lem header payload n buf p size b));
    address = λ j h. rw (lt→ltb j size h) (
        ap message (omega arith)
        ∙ outside header payload n buf p size b (20 + j) (inr (inr (omega arith)))
        ∙ in_address header payload n buf p size b j h);
    content = λ j h.
        ap message (omega arith)
        ∙ outside header payload n buf p size b (20 + (size + j)) (inr (inr (omega arith)))
        ∙ in_payload header payload n buf p size b j h;
  }

  received :
      (rest : Handlers Sent) (s : IotSessions) (sent : Sent) (limit excess : ℕ)
      (send : IotMsgBuffer → Ret)
      → Route s p size limit send excess
      → size + n ≤ limit
      → backend_proxy_msg_process (with_iot rest s) sent message
        ≡ some (send (got excess), (p, got excess) ∷ sent)
  unfolding header_at iot_header_at
  received rest s sent limit excess send route fits =
      (msg_process_by_type (with_iot rest s) sent message).5
        (type_lem header payload n buf p size b)
      ∙ ap some (
          (iot_sends s sent (header_at message).frontend_sess_id (header_at message).backend_sess_id
              (header_at message).payload_len (past_header message)).0
            p size limit excess send route
            (record {
              same = (proto_lem header payload n buf p size b);
              whole = omega (arith, (payload_len_lem header payload n buf p size b));
              holds_addr = omega (arith, (iot_payload_len_lem header payload n buf p size b));
              within = omega (arith, (iot_payload_len_lem header payload n buf p size b), fits);
            }))

-- build_proxy_general_message builds a message for Bluetooth, CAN or Modbus whose address is not cut off by iot_addr_len
-- and whose address and payload keep the protocol's limit, in 8 + 12 + size + n bytes. Where
-- backend_proxy_msg_process receives the bytes, the session of the protocol, which is there, gets a buffer with that
-- address and that payload, and its answer is the code; the length in the buffer is that of the payload, but
-- for Modbus 11 more. The buffer's former content, the ids and the other handlers make no difference.
pub iot_arrives :
    (rest : Handlers Sent) (s : IotSessions) (sent : Sent) (p size limit excess : ℕ)
    (send : IotMsgBuffer → Ret) (header : GeneralProxyMsgHeader) (payload : Memory) (n : ℕ)
    (buf : Memory)
    → Route s p size limit send excess
    → header.outer_header.proxy_msg_type ≡ 4
    → (iot_header_at header.inner_header).proto_type ≡ p
    → (header.iot_addr_len ≡ 0) ⊎ (size ≤ header.iot_addr_len)
    → size + n ≤ limit
    → (msg : Memory) × (got : IotMsgBuffer) × (general_built header payload n buf
        ≡ some (msg, n + (12 + size) + 8))
      × (backend_proxy_msg_process (with_iot rest s) sent msg ≡ some (send got, (p, got) ∷ sent))
      × IsGot header payload n size excess got
iot_arrives rest s sent p size limit excess send header payload n buf route iot_type proto all_addr
      fits =
    let (known, size_pos, small, limit_small, p_small) =
      Route-size s p size limit excess send route in
    let b : IsBuilt header n p size = record {
      iot_type = iot_type;
      proto = proto;
      known = known;
      all_addr = all_addr;
      size_small = small;
      n_small = omega (arith, fits, limit_small);
      p_small = p_small;
    } in
    (
      iot_message header payload n buf p size b,
      got header payload n buf p size b excess,
      general_iot header payload n buf p size b,
      received header payload n buf p size b rest s sent limit excess send route fits,
      got-IsGot header payload n buf p size b excess,
    )
