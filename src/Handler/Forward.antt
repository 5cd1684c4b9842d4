-- ===== src/Handler/Forward.antt =====
-- A whole data message through backend_proxy_msg_process of src/backend_proto.c, from its bytes to the session's queue.
use high_speed_cproxy.Base.{
  ap₂, ℕ, zero, suc, ◌+◌, ◌≡◌, refl, ap, subst, ◌∙◌, true, some, ◌∷◌, arith,
}
use high_speed_cproxy.Memory.{Memory}
use high_speed_cproxy.Memory.Copy.{Holds, bytes}
use high_speed_cproxy.Message.{
  ProxyMsgHeader, header_at, put_header, Handlers, past_header, backend_proxy_msg_process,
}
use high_speed_cproxy.Message.Header.{IsHeader, header_at-put_header}
use high_speed_cproxy.Message.Dispatch.{msg_process_by_type}
use high_speed_cproxy.Selector.{process_ok}
use high_speed_cproxy.Pool.{BackendSession, BackendSessionPool}
use high_speed_cproxy.Pool.Table.{high_speed_search_sess}
use high_speed_cproxy.Handler.{Mallocs, backend_proxy_data_msg_process}
use high_speed_cproxy.Handler.Data.{segment_of, with_segment, data_queued}

-- The handlers with the one for data messages in its place.
abbrev pub with_data : Handlers BackendSessionPool → (block : Memory) → Handlers BackendSessionPool
with_data h block = record h {
  data_msg_process =
      backend_proxy_data_msg_process true (record { segment = true; block = some block });
}

bytes_shift : (m : Memory) (a n : ℕ) → bytes (past_header m) a n ≡ bytes m (8 + a) n
bytes_shift m a zero = refl
bytes_shift m a (suc n) =
    ap (λ l. m (8 + a) ∷ l) (bytes_shift m (a + 1) n ∙ ap (λ k. bytes m k n) (omega arith))

bytes_agree :
    (m w : Memory) (a n : ℕ) → ((k : ℕ) → m (a + k) ≡ w (a + k)) → bytes m a n ≡ bytes w a n
bytes_agree m w a zero h = refl
bytes_agree m w a (suc n) h =
    ap₂ (λ x l. x ∷ l) (ap m (omega arith) ∙ h 0 ∙ ap w (omega arith))
      (bytes_agree m w (a + 1) n (λ k. ap m (omega arith) ∙ h (suc k) ∙ ap w (omega arith)))

-- The same for a buffer with such a header, whatever has put it there.
pub buffer_queued :
    (rest : Handlers BackendSessionPool) (p : BackendSessionPool) (block : Memory)
    (hdr : ProxyMsgHeader) (msg : Memory) (addr : ℕ) (sess : BackendSession)
    → header_at msg ≡ hdr
    → IsHeader hdr
    → hdr.proxy_msg_type ≡ 3
    → p.wired ≡ true
    → high_speed_search_sess p hdr.backend_sess_id ≡ some addr
    → p.heap addr ≡ some sess
    → (buf : Memory) × Holds buf 0 (bytes msg 8 hdr.payload_len)
      × (backend_proxy_msg_process (with_data rest block) p msg
          ≡ some (process_ok, with_segment p addr sess (segment_of hdr.payload_len buf)))
buffer_queued rest p block hdr msg addr sess read h data_type w found live =
    let mallocs : Mallocs = record { segment = true; block = some block } in
    let handler = backend_proxy_data_msg_process true mallocs p in
    let queued =
      data_queued p block hdr.frontend_sess_id hdr.backend_sess_id hdr.payload_len addr sess
        (past_header msg) w found live h.payload_u16 in
    let by_type = msg_process_by_type (with_data rest block) p msg in
    (
      queued.0,
      subst (Holds queued.0 0) (bytes_shift msg 0 hdr.payload_len) queued.1,
      by_type.4 (ap (λ g. g.proxy_msg_type) read ∙ data_type)
          ∙ ap (λ g. handler g.frontend_sess_id g.backend_sess_id g.payload_len (past_header msg))
              read
          ∙ queued.2,
    )

-- A message of type data whose header's members have the widths of their C types, for a session that is in the
-- table and live, in a pool with its operations, memory pool and memory for the segment:
-- backend_proxy_msg_process reads the header back and returns BACKEND_PROXY_PROCESS_OK, and what it changes is that the
-- payload's bytes, as many as the header says, are the last segment of the session's
-- frontend-to-backend queue and the session is linked to the pool's queue.
pub message_queued :
    (rest : Handlers BackendSessionPool) (p : BackendSessionPool) (block : Memory)
    (hdr : ProxyMsgHeader) (m : Memory) (addr : ℕ) (sess : BackendSession)
    → IsHeader hdr
    → hdr.proxy_msg_type ≡ 3
    → p.wired ≡ true
    → high_speed_search_sess p hdr.backend_sess_id ≡ some addr
    → p.heap addr ≡ some sess
    → (buf : Memory) × Holds buf 0 (bytes m 8 hdr.payload_len)
      × (backend_proxy_msg_process (with_data rest block) p (put_header m hdr)
          ≡ some (process_ok, with_segment p addr sess (segment_of hdr.payload_len buf)))
message_queued rest p block hdr m addr sess h data_type w found live =
    let written = header_at-put_header m hdr h in
    let (buf, holds, run) =
      buffer_queued rest p block hdr (put_header m hdr) addr sess written.0 h data_type w found
        live in
    (
      buf,
      subst (Holds buf 0) (bytes_agree (put_header m hdr) m 8 hdr.payload_len (λ k. written.1 k))
          holds,
      run,
    )
