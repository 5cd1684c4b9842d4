-- ===== src/Iot/Sends.antt =====
-- When a message for an IoT device is handed to a session, and what the session gets.
use high_speed_cproxy.Base.{ℕ_discrete}
use high_speed_cproxy.Base.{ℕ, ◌+◌, ◌-◌, ◌≤◌, ◌≡◌, ◌≢◌, ◌⊎◌, ◌↔◌, refl, true, ◌∷◌, arith}
use high_speed_cproxy.Memory.{Memory}
use high_speed_cproxy.Selector.{Ret, process_ok, process_error}
use high_speed_cproxy.Build.{IotMsgHeader, iot_header_at}
use high_speed_cproxy.Iot.{
  IotMsgBuffer, IotSessions, Sent, with_addr, backend_proxy_bluetooth_msg_process,
  backend_proxy_can_msg_process, backend_proxy_zigbee_msg_process, backend_proxy_lora_msg_process,
  backend_proxy_powerlink_msg_process, backend_proxy_modbustcp_msg_process,
  backend_proxy_iot_msg_process,
}

-- The protocols whose messages are sent: the size of the address, the largest payload with the address, the session's
-- `send_to_remote`, and how many bytes the length that it gets exceeds the data by.
pub data Route (s : IotSessions)
    : (proto_type size limit : ℕ) → (IotMsgBuffer → Ret) → (excess : ℕ) → Type 0 where
  by_bluetooth : s.bluetooth ≡ true → Route s 1 20 244 s.bluetooth_send 0
  by_can : s.can ≡ true → Route s 3 7 64 s.can_send 0
  by_modbustcp : s.modbustcp ≡ true → Route s 6 11 253 s.modbustcp_send 11

-- The header and the length of the message allow it.
pub record IsSendable (hdr : IotMsgHeader) (msg_len proto_type size limit : ℕ) : Type 0 where
  pub same : hdr.proto_type ≡ proto_type
  pub whole : 12 + size ≤ msg_len
  pub holds_addr : size ≤ hdr.payload_len
  pub within : hdr.payload_len ≤ limit

module _ (s : IotSessions) (sent : Sent) (f b msg_len : ℕ) (msg : Memory) where
  abbrev hdr : IotMsgHeader
  hdr = iot_header_at msg

  abbrev iot_data : Memory
  iot_data j = msg (12 + j)

  handed :
      (p size limit excess : ℕ) (send : IotMsgBuffer → Ret)
      → Route s p size limit send excess
      → IsSendable hdr msg_len p size limit
      → backend_proxy_iot_msg_process s sent f b msg_len msg ≡ (
        send (with_addr size iot_data (hdr.payload_len - size + excess)),
        (p, with_addr size iot_data (hdr.payload_len - size + excess)) ∷ sent,
      )
  unfolding backend_proxy_iot_msg_process backend_proxy_bluetooth_msg_process
      backend_proxy_can_msg_process backend_proxy_modbustcp_msg_process
  handed p size limit excess send (by_bluetooth e) h =
      ground (arith, e, h.same, h.whole, h.holds_addr, h.within)
  handed p size limit excess send (by_can e) h =
      ground (arith, e, h.same, h.whole, h.holds_addr, h.within)
  handed p size limit excess send (by_modbustcp e) h =
      ground (arith, e, h.same, h.whole, h.holds_addr, h.within)

  -- The messages of the other three protocols, which are only looked at.
  abbrev pub IsLookedAt : Type 0
  IsLookedAt =
      ((hdr.proto_type ≡ 2) × (s.zigbee ≡ true) × (23 ≤ msg_len))
      ⊎ ((hdr.proto_type ≡ 4) × (s.lora ≡ true) × (23 ≤ msg_len))
      ⊎ ((hdr.proto_type ≡ 5) × (s.powerlink ≡ true) × (22 ≤ msg_len))

  abbrev processed : Ret × Sent
  processed = backend_proxy_iot_msg_process s sent f b msg_len msg

  abbrev None : Type 0
  None =
      (p size limit excess : ℕ) (send : IotMsgBuffer → Ret)
      → Route s p size limit send excess
      → ¬ IsSendable hdr msg_len p size limit

  bluetooth_kept : None → hdr.proto_type ≡ 1 → processed ≡ (process_error, sent)
  unfolding backend_proxy_iot_msg_process backend_proxy_bluetooth_msg_process
  bluetooth_kept n p =
      let no : s.bluetooth ≡ true
          → 32 ≤ msg_len
          → 20 ≤ hdr.payload_len
          → hdr.payload_len ≤ 244
          → ⊥ =
        λ e w a l.
          n 1 20 244 0 s.bluetooth_send (by_bluetooth e)
            (record { same = p; whole = w; holds_addr = a; within = l }) in
      rw p (ground (arith, no))

  can_kept : None → hdr.proto_type ≡ 3 → processed ≡ (process_error, sent)
  unfolding backend_proxy_iot_msg_process backend_proxy_can_msg_process
  can_kept n p =
      let no : s.can ≡ true → 19 ≤ msg_len → 7 ≤ hdr.payload_len → hdr.payload_len ≤ 64 → ⊥ =
        λ e w a l.
          n 3 7 64 0 s.can_send (by_can e)
            (record { same = p; whole = w; holds_addr = a; within = l }) in
      rw p (ground (arith, no))

  modbustcp_kept : None → hdr.proto_type ≡ 6 → processed ≡ (process_error, sent)
  unfolding backend_proxy_iot_msg_process backend_proxy_modbustcp_msg_process
  modbustcp_kept n p =
      let no : s.modbustcp ≡ true
          → 23 ≤ msg_len
          → 11 ≤ hdr.payload_len
          → hdr.payload_len ≤ 253
          → ⊥ =
        λ e w a l.
          n 6 11 253 11 s.modbustcp_send (by_modbustcp e)
            (record { same = p; whole = w; holds_addr = a; within = l }) in
      rw p (ground (arith, no))

  abbrev IsKept : Ret × Sent → Type 0
  IsKept r = (r.1 ≡ sent) × (r.0 ≡ process_ok ↔ IsLookedAt) × (¬ IsLookedAt → r.0 ≡ process_error)

  error-IsKept : ¬ IsLookedAt → (r : Ret × Sent) → r ≡ (process_error, sent) → IsKept r
  error-IsKept n r e = rw e (refl, (λ o. absurd (ground (arith, o)), λ l. absurd (n l)), λ _. refl)

  others-IsKept : hdr.proto_type ≢ 1 → hdr.proto_type ≢ 3 → hdr.proto_type ≢ 6 → IsKept processed
  unfolding backend_proxy_iot_msg_process backend_proxy_zigbee_msg_process
      backend_proxy_lora_msg_process backend_proxy_powerlink_msg_process
  others-IsKept bt can mb = (
    ground (arith, bt, can, mb),
    (λ o. ground (arith, bt, can, mb, o), λ l. ground (arith, l)),
    λ l. ground (arith, bt, can, mb, l),
  )

  kept-IsKept : None → IsKept processed
  kept-IsKept n = elim (ℕ_discrete hdr.proto_type 1) [
    | yes p ↦ error-IsKept (λ l. ground (arith, p, l)) processed (bluetooth_kept n p)
    | no bt ↦ elim (ℕ_discrete hdr.proto_type 3) [
      | yes p ↦ error-IsKept (λ l. ground (arith, p, l)) processed (can_kept n p)
      | no can ↦ elim (ℕ_discrete hdr.proto_type 6) [
        | yes p ↦ error-IsKept (λ l. ground (arith, p, l)) processed (modbustcp_kept n p)
        | no mb ↦ others-IsKept bt can mb
      ]
    ]
  ]

  pub iot_sends :
      ((p size limit excess : ℕ) (send : IotMsgBuffer → Ret)
        → Route s p size limit send excess
        → IsSendable hdr msg_len p size limit
        → processed ≡ (
          send (with_addr size iot_data (hdr.payload_len - size + excess)),
          (p, with_addr size iot_data (hdr.payload_len - size + excess)) ∷ sent,
        ))
      × (((p size limit excess : ℕ) (send : IotMsgBuffer → Ret)
            → Route s p size limit send excess
            → ¬ IsSendable hdr msg_len p size limit)
          → (processed.1 ≡ sent)
            × (processed.0 ≡ process_ok ↔ IsLookedAt)
            × (¬ IsLookedAt → processed.0 ≡ process_error))
  iot_sends = (handed, kept-IsKept)
