-- ===== src/Build/Response/Sent.antt =====
-- What the frontend gets as the response to a session message.
use high_speed_cproxy.Memory.{copy_from}
use high_speed_cproxy.Build.Response.{sess_msg_type_valid}
use high_speed_cproxy.Base.{subst}
use high_speed_cproxy.Base.{
  ℕ, ◌+◌, ◌%◌, ◌/◌, ◌<◌, ◌≤◌, ◌^◌, ◌≡◌, ◌⊎◌, refl, arith, true, Option, some, ◌>>=◌, List, [], ◌∷◌,
  ◌++◌, ◌==◌, if◌then◌else◌, length,
}
use high_speed_cproxy.Memory.{Memory, write_le, hyperamp_safe_memset}
use high_speed_cproxy.Memory.Copy.{bytes, hyperamp_safe_memcpy-copy_from}
use high_speed_cproxy.Shm.{Shm}
use high_speed_cproxy.Shm.Fifo.{Rep, enqueue_fifo}
use high_speed_cproxy.Selector.{Ret, process_ok, process_error}
use high_speed_cproxy.Pool.{BackendSession, SessOpRespData}
use high_speed_cproxy.Handler.Session.{SessMsgHeader, sess_header_at, sess_msg_payload_len}
use high_speed_cproxy.Build.{
  GeneralProxyMsgHeader, EngineTx, put_words, put_outer, general_built, build_proxy_general_message,
}
use high_speed_cproxy.Build.General.{sess_message, general_sess}
use high_speed_cproxy.Build.Words.{put_words_read}
use high_speed_cproxy.Build.Response.{
  resp_bytes, response_header, backend_proxy_generate_sess_msg_create_close_response,
  backend_proxy_generate_sess_msg_create_close_response_standalone, sent_result,
  backend_proxy_send_sess_msg_to_frontend_via_shmem,
  backend_proxy_send_sess_standalone_msg_to_frontend_via_shmem,
}

-- A response on the wire: the outer header (8 bytes), the session header (10 bytes), the status and the code.
abbrev pub response :
    (frontend_sess_id backend_sess_id ip_version sess_msg_type : ℕ) → SessOpRespData → List ℕ
response f b v t op_resp =
    1
    ∷ 2
    ∷ f % 256
    ∷ f / 256 % 256
    ∷ b % 256
    ∷ b / 256 % 256
    ∷ 12
    ∷ 0
    ∷ 1
    ∷ 0
    ∷ t
    ∷ 0
    ∷ 1
    ∷ 0
    ∷ v % 256
    ∷ v / 256 % 256
    ∷ 2
    ∷ 0
    ∷ op_resp.op_status
    ∷ op_resp.code
    ∷ []

module _ (stack : GeneralProxyMsgHeader) (buf : Memory) (f b v t : ℕ) (op_resp : SessOpRespData)
    (v_u16 : v < 2 ^ 16) (t_valid : (t ≡ 0) ⊎ (t ≡ 1)) where
  abbrev hdr : GeneralProxyMsgHeader
  hdr = response_header stack f b v t

  abbrev sess_hdr : SessMsgHeader
  sess_hdr = record { version = 1; msg_type = t; action_type = 1; ip_version = v; payload_len = 2 }

  kind_lem : (if t == 1 then 1 else 0) ≡ t
  kind_lem = ground (arith, t_valid)

  sess_header_lem : sess_header_at (hdr.inner_header) ≡ sess_hdr
  unfolding response_header sess_header_at
  sess_header_lem =
      let (r0, r1, r2, r3, r4) =
        put_words_read stack.inner_header 0 1 t 1 v 2 (omega arith) (ground (arith, t_valid))
          (omega arith) v_u16 (omega arith) in
      rw (kind_lem, r0, r1, r2, r3, r4) refl

  length_lem : sess_msg_payload_len t 1 v ≡ some 2
  unfolding sess_msg_payload_len
  length_lem = ground (arith, t_valid)

  abbrev message : Memory
  message = sess_message hdr sess_hdr (resp_bytes op_resp) buf

  outer_lem : hdr.outer_header.proxy_msg_type ≡ 2
  unfolding response_header
  outer_lem = refl

  built_lem : general_built hdr (resp_bytes op_resp) 2 buf ≡ some (message, 20)
  built_lem =
      general_sess hdr sess_hdr (resp_bytes op_resp) buf outer_lem sess_header_lem length_lem

  bytes_lem : bytes message 0 20 ≡ response f b v t op_resp
  unfolding write_le put_words put_outer response_header copy_from
  bytes_lem =
      rw
        (
          hyperamp_safe_memcpy-copy_from
              (put_words (put_outer (hyperamp_safe_memset buf 0 0 4096) hdr.outer_header) 8 1 t 1 v
                2)
              18 (resp_bytes op_resp) 0 2,
          low,
          high,
        )
        refl
    where
      low : t % 256 ≡ t
      low = ground (arith, t_valid)

      high : t / 256 % 256 ≡ 0
      high = ground (arith, t_valid)

-- An engine with its memory pool and its queue.
abbrev pub wired : (data_region : ℕ) → EngineTx
wired data_region = record { mem_pool = true; hyper_tx_queue = true; data_region = data_region }

-- A call that puts one message into a queue that holds `ms`, or returns an error if the queue is full.
abbrev pub IsSent :
    (data_region : ℕ)
    → Shm
    → (ms : List (List ℕ)) → (m : List ℕ) → (call : Option (Ret × Shm)) → Type 0
IsSent data_region s ms m call =
    (length ms + 1 < s.capacity
      → (s' : Shm) × (call ≡ some (process_ok, s')) × Rep data_region s' (ms ++ (m ∷ [])))
    × (length ms + 1 ≡ s.capacity
        → (s' : Shm) × (call ≡ some (process_error, s')) × Rep data_region s' ms)

module _ (data_region : ℕ) (s : Shm) (ms : List (List ℕ)) (r : Rep data_region s ms)
    (fits : 20 ≤ s.block_size) (stack : GeneralProxyMsgHeader) (buf : Memory)
    (op_resp : SessOpRespData) where
  general-IsSent :
      (f b v t : ℕ)
      → v < 2 ^ 16
      → (t ≡ 0) ⊎ (t ≡ 1)
      → IsSent data_region s ms (response f b v t op_resp) (do
        (ret, s') ←
            build_proxy_general_message
              (some (wired data_region))
              s
              (response_header stack f b v t)
              (some (resp_bytes op_resp))
              2
              buf
        some (sent_result ret, s'))
  unfolding build_proxy_general_message sent_result
  general-IsSent f b v t v_u16 t_valid =
      let (room, full) =
        enqueue_fifo data_region s ms 0 (message stack buf f b v t op_resp v_u16 t_valid) 20 r
          (omega arith) fits in
      (
        λ h.
            let (s', e, r', _, _) = room h in
            (
              s',
              rw (built_lem stack buf f b v t op_resp v_u16 t_valid, e) refl,
              subst (λ m. Rep data_region s' (ms ++ (m ∷ [])))
                  (bytes_lem stack buf f b v t op_resp v_u16 t_valid) r',
            ),
        λ h.
            let (s', e, r', _, _) = full h in
            (s', rw (built_lem stack buf f b v t op_resp v_u16 t_valid, e) refl, r'),
      )

  valid_lem : (t : ℕ) → (t ≡ 0) ⊎ (t ≡ 1) → sess_msg_type_valid t ≡ true
  valid_lem t h = ground (arith, h)

  -- The engine has its memory pool and its queue, and the queue is valid with blocks of at least 20 bytes. A response
  -- to a message that creates (1) or closes (0) a session then appends exactly one message of 20 bytes, whose bytes
  -- say the session's ids, the type and the IP version of the session, the status and the code, and returns
  -- BACKEND_PROXY_PROCESS_OK; if the queue is full nothing is queued and the code is BACKEND_PROXY_PROCESS_ERROR.
  -- The same holds of the variant without a session, except that its message always has 65535 as the
  -- backend's id, whatever id it is called with. What is on the stack and in the buffer before makes no difference.
  pub response-IsSent :
      (sess : BackendSession) (t : ℕ)
      → sess.ip_version < 2 ^ 16
      → (t ≡ 0) ⊎ (t ≡ 1)
      → IsSent data_region s ms
          (response sess.frontend_sess_id sess.backend_sess_id sess.ip_version t op_resp)
          (backend_proxy_send_sess_msg_to_frontend_via_shmem
            (some (wired data_region))
            s
            stack
            buf
            (some sess)
            t
            (some op_resp))
        × ((backend_sess_id : ℕ)
            → IsSent data_region s ms
                (response sess.frontend_sess_id 65535 sess.ip_version t op_resp)
                (backend_proxy_send_sess_standalone_msg_to_frontend_via_shmem
                  (some (wired data_region))
                  s
                  stack
                  buf
                  sess.frontend_sess_id
                  backend_sess_id
                  sess.ip_version
                  t
                  (some op_resp)))
  unfolding backend_proxy_send_sess_msg_to_frontend_via_shmem
      backend_proxy_send_sess_standalone_msg_to_frontend_via_shmem
      backend_proxy_generate_sess_msg_create_close_response
      backend_proxy_generate_sess_msg_create_close_response_standalone
  response-IsSent sess t v_u16 t_valid = rw (valid_lem t t_valid) (
    general-IsSent sess.frontend_sess_id sess.backend_sess_id sess.ip_version t v_u16 t_valid,
    λ backend_sess_id. general-IsSent sess.frontend_sess_id 65535 sess.ip_version t v_u16 t_valid,
  )
