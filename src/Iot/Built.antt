-- ===== src/Iot/Built.antt =====
-- The message for an IoT device that build_proxy_general_message of src/backend_proto.c builds, byte by byte.
use high_speed_cproxy.Base.{ℕ, ◌+◌, ◌<◌, ◌≤◌, ◌^◌, ◌≡◌, ◌⊎◌, ◌∙◌, refl, ap, inl, inr, arith, some}
use high_speed_cproxy.Memory.{Memory, read_le, write_le, hyperamp_safe_memset, hyperamp_safe_memcpy}
use high_speed_cproxy.Memory.Copy.{hyperamp_safe_memcpy_ne, hyperamp_safe_memcpy_at}
use high_speed_cproxy.Selector.{process_ok}
use high_speed_cproxy.Message.{past_header}
use high_speed_cproxy.Build.{
  GeneralProxyMsgHeader, iot_header_at, iot_addr_size, refined, put_iot_header, put_iot_body,
  put_outer, build_proxy_iot_message, inner_built, general_built,
}
use high_speed_cproxy.Build.Words.{read_u16-agree, write_u16_ne, write_u16_read, write_u16_beside}

-- A header of a known protocol, whose address is not cut off, and lengths that fit their members.
pub record IsBuilt (header : GeneralProxyMsgHeader) (n p size : ℕ) : Type 0 where
  pub iot_type : header.outer_header.proxy_msg_type ≡ 4
  pub proto : (iot_header_at header.inner_header).proto_type ≡ p
  pub known : iot_addr_size p ≡ some size
  pub all_addr : (header.iot_addr_len ≡ 0) ⊎ (size ≤ header.iot_addr_len)
  pub size_small : size ≤ 20
  pub n_small : n + size + 12 < 2 ^ 16
  pub p_small : p < 7

module _ (header : GeneralProxyMsgHeader) (payload : Memory) (n : ℕ) (buf : Memory) (p size : ℕ)
    (h : IsBuilt header n p size) where
  abbrev pub headers : Memory
  headers = put_iot_header (put_outer (hyperamp_safe_memset buf 0 0 4096) header.outer_header) 8 p

  abbrev with_address : Memory
  with_address = hyperamp_safe_memcpy headers 20 header.addr_info 0 size

  abbrev pub body : Memory
  body = hyperamp_safe_memcpy with_address (20 + size) payload 0 n

  abbrev pub iot_message : Memory
  iot_message = write_le (write_le body 16 (n + size) 2) 6 (n + (12 + size)) 2

  refined_lem : refined header.iot_addr_len size ≡ size
  unfolding refined
  refined_lem = ground (arith, h.all_addr)

  iot_built :
      (m : Memory)
      → build_proxy_iot_message header payload n m 8
        ≡ (process_ok, put_iot_body header.addr_info payload n (put_iot_header m 8 p) 8 size)
  unfolding build_proxy_iot_message
  iot_built m =
      rw (h.proto, build_proxy_iot_message, h.known, refined_lem) (ground (arith, h.size_small))

  pub general_iot : general_built header payload n buf ≡ some (iot_message, n + (12 + size) + 8)
  unfolding general_built put_iot_body
  general_iot =
      rw
        (
          inner_iot (put_outer (hyperamp_safe_memset buf 0 0 4096) header.outer_header),
          general_built,
        )
        refl
    where
      inner_iot :
          (m : Memory)
          → inner_built header payload n m 8
            ≡ some (
              process_ok,
              12 + size,
              put_iot_body header.addr_info payload n (put_iot_header m 8 p) 8 size,
            )
      inner_iot m = rw (h.iot_type, inner_built, h.proto, h.known, iot_built m) refl

  -- What is where in the message.
  pub in_headers : (j : ℕ) → j < 20 → body j ≡ headers j
  in_headers j l =
      hyperamp_safe_memcpy_ne with_address (20 + size) payload 0 n j (inl (omega arith))
      ∙ hyperamp_safe_memcpy_ne headers 20 header.addr_info 0 size j (inl l)

  pub in_address : (j : ℕ) → j < size → body (20 + j) ≡ header.addr_info j
  in_address j l =
      hyperamp_safe_memcpy_ne with_address (20 + size) payload 0 n (20 + j) (inl (omega arith))
      ∙ hyperamp_safe_memcpy_at headers 20 header.addr_info 0 size j l
      ∙ ap header.addr_info (omega arith)

  pub in_payload : (j : ℕ) → j < n → body (20 + (size + j)) ≡ payload j
  in_payload j l =
      ap body (omega arith)
      ∙ hyperamp_safe_memcpy_at with_address (20 + size) payload 0 n j l
      ∙ ap payload (omega arith)

  pub outside : (j : ℕ) → (j < 6) ⊎ ((8 ≤ j) × (j < 16)) ⊎ (18 ≤ j) → iot_message j ≡ body j
  outside j l =
      write_u16_ne (write_le body 16 (n + size) 2) 6 (n + (12 + size)) j (ground (arith, l))
      ∙ write_u16_ne body 16 (n + size) j (ground (arith, l))

  pub type_lem : iot_message 1 ≡ 4
  unfolding put_iot_header put_outer write_le
  type_lem = outside 1 (inl (omega arith)) ∙ in_headers 1 (omega arith) ∙ h.iot_type

  pub payload_len_lem : read_le iot_message 6 2 ≡ n + (12 + size)
  payload_len_lem = write_u16_read (write_le body 16 (n + size) 2) 6 (n + (12 + size)) (omega arith)

  pub iot_payload_len_lem : read_le (past_header iot_message) 8 2 ≡ n + size
  iot_payload_len_lem =
      read_u16-agree (past_header iot_message) 8 iot_message 16 refl refl
      ∙ write_u16_beside (write_le body 16 (n + size) 2) 6 (n + (12 + size)) 16 (inr (omega arith))
      ∙ write_u16_read body 16 (n + size) (omega arith)

  pub proto_lem : read_le (past_header iot_message) 2 2 ≡ p
  unfolding put_iot_header put_outer write_le read_le
  proto_lem =
      let b0 = outside 10 (inr (inl (omega arith, omega arith))) ∙ in_headers 10 (omega arith) in
      let b1 = outside 11 (inr (inl (omega arith, omega arith))) ∙ in_headers 11 (omega arith) in
      omega (arith, b0, b1)
