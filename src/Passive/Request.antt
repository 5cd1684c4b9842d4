-- ===== src/Passive/Request.antt =====
-- The message that asks the frontend to create its side of an accepted connection.
use high_speed_cproxy.Base.{subst}
use high_speed_cproxy.Base.{
  ℕ, ◌+◌, ◌%◌, ◌/◌, ◌<◌, ◌≤◌, ◌≡◌, refl, arith, some, List, [], ◌∷◌, ◌++◌, length,
}
use high_speed_cproxy.Memory.{Memory, write_le, copy_from, hyperamp_safe_memset}
use high_speed_cproxy.Memory.Copy.{bytes, hyperamp_safe_memcpy-copy_from}
use high_speed_cproxy.Shm.{Shm}
use high_speed_cproxy.Shm.Fifo.{Rep, enqueue_fifo}
use high_speed_cproxy.Selector.{process_ok, process_again}
use high_speed_cproxy.Pool.{BackendSessionPool}
use high_speed_cproxy.Handler.Session.{SessMsgHeader, sess_header_at, sess_msg_payload_len}
use high_speed_cproxy.Build.{
  GeneralProxyMsgHeader, put_words, put_outer, general_built, build_proxy_general_message,
}
use high_speed_cproxy.Build.Words.{put_words_read}
use high_speed_cproxy.Build.General.{sess_message, general_sess}
use high_speed_cproxy.Build.Response.Sent.{wired}
use high_speed_cproxy.Passive.{
  PassiveSessParaIp, PassiveStack, request_header, sess_ipv4_paras, request,
}

-- The message on the wire: the outer header, the session header of a command to create with IPv4, and the parameters.
abbrev pub create_command : (id dev_id trans_proto : ℕ) → (endpoint : Memory) → List ℕ
create_command id dev_id trans_proto endpoint =
    1
    ∷ 2
    ∷ 255
    ∷ 255
    ∷ id % 256
    ∷ id / 256 % 256
    ∷ 20
    ∷ 0
    ∷ 1
    ∷ 0
    ∷ 1
    ∷ 0
    ∷ 0
    ∷ 0
    ∷ 4
    ∷ 0
    ∷ 10
    ∷ 0
    ∷ dev_id % 256
    ∷ dev_id / 256 % 256
    ∷ trans_proto % 256
    ∷ trans_proto / 256 % 256
    ∷ endpoint 0
    ∷ endpoint 1
    ∷ endpoint 2
    ∷ endpoint 3
    ∷ endpoint 4
    ∷ endpoint 5
    ∷ []

module _ (para : PassiveSessParaIp) (stack : PassiveStack) (buf : Memory) (id : ℕ) where
  abbrev hdr : GeneralProxyMsgHeader
  hdr = request_header stack id 4

  abbrev sess_hdr : SessMsgHeader
  sess_hdr = record { version = 1; msg_type = 1; action_type = 0; ip_version = 4; payload_len = 10 }

  abbrev paras : Memory
  paras = sess_ipv4_paras stack para.dev_id para.trans_proto para.endpoint

  sess_header_lem : sess_header_at (hdr.inner_header) ≡ sess_hdr
  unfolding request_header sess_header_at
  sess_header_lem =
      let (r0, r1, r2, r3, r4) =
        put_words_read stack.msg_header.inner_header 0 1 1 0 4 10 (omega arith) (omega arith)
          (omega arith) (omega arith) (omega arith) in
      rw (r0, r1, r2, r3, r4) refl

  outer_lem : hdr.outer_header.proxy_msg_type ≡ 2
  unfolding request_header
  outer_lem = refl

  length_lem : sess_msg_payload_len 1 0 4 ≡ some 10
  unfolding sess_msg_payload_len
  length_lem = refl

  abbrev message : Memory
  message = sess_message hdr sess_hdr paras buf

  built_lem : general_built hdr paras 10 buf ≡ some (message, 28)
  built_lem = general_sess hdr sess_hdr paras buf outer_lem sess_header_lem length_lem

  bytes_lem : bytes message 0 28 ≡ create_command id para.dev_id para.trans_proto para.endpoint
  unfolding write_le put_words put_outer request_header copy_from sess_ipv4_paras
  bytes_lem =
      rw
        (
          hyperamp_safe_memcpy-copy_from
              (put_words (put_outer (hyperamp_safe_memset buf 0 0 4096) hdr.outer_header) 8 1 1 0 4
                10)
              18 paras 0 10,
          hyperamp_safe_memcpy-copy_from
              (write_le (write_le stack.paras 0 para.dev_id 2) 2 para.trans_proto 2) 4 para.endpoint
              0 6,
        )
        refl

  built_ip :
      para.ip_version ≡ 4
      → general_built (request_header stack id para.ip_version) paras 10 buf ≡ some (message, 28)
  built_ip v4 = rw v4 built_lem

  -- What comes of the message: it is queued, or the queue is full.
  pub request_lem :
      (p : BackendSessionPool) (data_region : ℕ) (s : Shm) (ms : List (List ℕ))
      → Rep data_region s ms
      → 28 ≤ s.block_size
      → para.ip_version ≡ 4
      → (length ms + 1 < s.capacity
          → (s' : Shm) × (request p (wired data_region) s buf para stack id
              ≡ some (process_ok, p, s'))
            × Rep data_region s'
                (ms ++ (create_command id para.dev_id para.trans_proto para.endpoint ∷ [])))
        × (length ms + 1 ≡ s.capacity
            → (s' : Shm) × (request p (wired data_region) s buf para stack id
                ≡ some (process_again, p, s'))
              × Rep data_region s' ms)
  unfolding request build_proxy_general_message
  request_lem p data_region s ms r fits v4 =
      let (room, full) = enqueue_fifo data_region s ms 0 message 28 r (omega arith) fits in
      (
        λ h.
            let (s', e, r', _, _) = room h in
            (
              s',
              rw (built_ip v4, e) refl,
              subst (λ m. Rep data_region s' (ms ++ (m ∷ []))) bytes_lem r',
            ),
        λ h. let (s', e, r', _, _) = full h in (s', rw (built_ip v4, e) refl, r'),
      )
