-- ===== src/Iot/Wire.antt =====
-- The message for an IoT device that build_proxy_general_message of src/backend_proto.c builds, as a list of bytes.
use high_speed_cproxy.Base.{
  ℕ, ◌+◌, ◌%◌, ◌/◌, ◌<◌, ◌≡◌, ◌∙◌, refl, ap, ap₂, inr, arith, List, [], ◌∷◌, ◌++◌,
}
use high_speed_cproxy.Memory.{Memory, write_le}
use high_speed_cproxy.Memory.Copy.{bytes, bytes-append, bytes-agree}
use high_speed_cproxy.Message.{ProxyMsgHeader}
use high_speed_cproxy.Build.{GeneralProxyMsgHeader, put_iot_header, put_outer}
use high_speed_cproxy.Iot.Built.{
  IsBuilt, headers, iot_message, in_headers, in_address, in_payload, outside,
}

-- The outer header, the IoT header, the address and the payload.
abbrev pub iot_wire : ProxyMsgHeader → (p size n : ℕ) → (addr_info payload : Memory) → List ℕ
iot_wire hdr p size n addr_info payload =
    (hdr.version
      ∷ hdr.proxy_msg_type
      ∷ hdr.frontend_sess_id % 256
      ∷ hdr.frontend_sess_id / 256 % 256
      ∷ hdr.backend_sess_id % 256
      ∷ hdr.backend_sess_id / 256 % 256
      ∷ (n + (12 + size)) % 256
      ∷ (n + (12 + size)) / 256 % 256
      ∷ 0
      ∷ 0
      ∷ p % 256
      ∷ p / 256 % 256
      ∷ 0
      ∷ 0
      ∷ 0
      ∷ 0
      ∷ (n + size) % 256
      ∷ (n + size) / 256 % 256
      ∷ 0
      ∷ 0
      ∷ [])
    ++ (bytes addr_info 0 size ++ bytes payload 0 n)

module _ (header : GeneralProxyMsgHeader) (payload : Memory) (n : ℕ) (buf : Memory) (p size : ℕ)
    (h : IsBuilt header n p size) where
  abbrev message : Memory
  message = iot_message header payload n buf p size h

  -- The headers with the lengths.
  abbrev lengths_in : Memory
  lengths_in =
      write_le (write_le (headers header payload n buf p size h) 16 (n + size) 2) 6
        (n + (12 + size)) 2

  same_headers : (j : ℕ) → j < 20 → message j ≡ lengths_in j
  unfolding write_le
  same_headers j l = ground (arith, in_headers header payload n buf p size h j l)

  header_bytes : bytes message 0 20 ≡ bytes lengths_in 0 20
  header_bytes =
      bytes-agree message 0 lengths_in 0 20
        (λ k l. ap message (omega arith) ∙ same_headers k l ∙ ap lengths_in (omega arith))

  rest_bytes : bytes message 20 (size + n) ≡ bytes header.addr_info 0 size ++ bytes payload 0 n
  rest_bytes =
      bytes-append message 20 size n
      ∙ ap₂ (λ x y. x ++ y)
          (bytes-agree message 20 header.addr_info 0 size (λ k l.
            outside header payload n buf p size h (20 + k) (inr (inr (omega arith)))
            ∙ in_address header payload n buf p size h k l
            ∙ ap header.addr_info (omega arith)))
          (bytes-agree message (20 + size) payload 0 n (λ k l.
            ap message (omega arith)
            ∙ outside header payload n buf p size h (20 + (size + k)) (inr (inr (omega arith)))
            ∙ in_payload header payload n buf p size h k l
            ∙ ap payload (omega arith)))

  pub wire_lem :
      bytes message 0 (n + (12 + size) + 8)
      ≡ iot_wire header.outer_header p size n header.addr_info payload
  unfolding write_le put_iot_header put_outer
  wire_lem =
      ap (λ k. bytes message 0 k) (omega arith)
      ∙ bytes-append message 0 20 (size + n)
      ∙ ap₂ (λ x y. x ++ y) (header_bytes ∙ refl) rest_bytes
