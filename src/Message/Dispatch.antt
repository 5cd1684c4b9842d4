-- ===== src/Message/Dispatch.antt =====
-- Which messages backend_proxy_msg_process of src/backend_proto.c hands on, and to what.
use high_speed_cproxy.Base.{ℕ, ◌≤◌, ◌<◌, ◌≡◌, ◌≢◌, ◌⊎◌, arith, true, some}
use high_speed_cproxy.Memory.{Memory}
use high_speed_cproxy.Selector.{process_error}
use high_speed_cproxy.Message.{
  header_at, Handlers, dispatch, past_header, proxy_msg_type_valid, proxy_msg_len_valid,
  app_session_id_valid, backend_proxy_msg_process,
}

-- The check of a payload's length and the check of an application's session id accept every number, those
-- that they are meant to refuse (0 and lengths above 4088; the ids 0 and 0xFFFF) included.
checks_accept_all : (x : ℕ) → (proxy_msg_len_valid x ≡ true) × (app_session_id_valid x ≡ true)
unfolding proxy_msg_len_valid app_session_id_valid
checks_accept_all x = (ground arith, ground arith)

-- The result of backend_proxy_msg_process by the message's type, whatever its version and payload's length: a
-- device or strategy message goes to its handler if both session ids are those of the admin session (0), and is
-- refused otherwise; a session, data or IoT message goes to its handler with the ids; a message of
-- another type is refused. A refused message leaves the state as it was.
pub msg_process_by_type {ℓ} :
    {State : Type ℓ} (h : Handlers State) (s : State) (msg : Memory)
    → let hdr = header_at msg in
      let r = backend_proxy_msg_process h s msg in
      (hdr.proxy_msg_type ≡ 0
        → hdr.frontend_sess_id ≡ 0
        → hdr.backend_sess_id ≡ 0
        → r ≡ h.dev_msg_process s (past_header msg))
      × (hdr.proxy_msg_type ≡ 1
          → hdr.frontend_sess_id ≡ 0
          → hdr.backend_sess_id ≡ 0
          → r ≡ h.strgy_msg_process s (past_header msg))
      × (hdr.proxy_msg_type ≤ 1
          → (hdr.frontend_sess_id ≢ 0) ⊎ (hdr.backend_sess_id ≢ 0)
          → r ≡ some (process_error, s))
      × (hdr.proxy_msg_type ≡ 2
          → r ≡ h.sess_msg_process s hdr.frontend_sess_id hdr.backend_sess_id (past_header msg))
      × (hdr.proxy_msg_type ≡ 3
          → r
            ≡ h.data_msg_process s hdr.frontend_sess_id hdr.backend_sess_id hdr.payload_len
                (past_header msg))
      × (hdr.proxy_msg_type ≡ 4
          → r
            ≡ h.iot_msg_process s hdr.frontend_sess_id hdr.backend_sess_id hdr.payload_len
                (past_header msg))
      × (4 < hdr.proxy_msg_type → r ≡ some (process_error, s))
unfolding backend_proxy_msg_process dispatch proxy_msg_type_valid
msg_process_by_type h s msg =
    let len = (checks_accept_all (header_at msg).payload_len).0 in
    let front = (checks_accept_all (header_at msg).frontend_sess_id).1 in
    let back = (checks_accept_all (header_at msg).backend_sess_id).1 in
    (
      λ e a b. ground (arith, e, a, b, len),
      λ e a b. ground (arith, e, a, b, len),
      λ e d. ground (arith, e, d, len),
      λ e. ground (arith, e, len),
      λ e. ground (arith, e, len, front, back),
      λ e. ground (arith, e, len),
      λ e. ground (arith, e, len),
    )
