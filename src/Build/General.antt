-- ===== src/Build/General.antt =====
-- Session messages as build_proxy_general_message of src/backend_proto.c builds them.
use high_speed_cproxy.Base.{ℕ, ◌+◌, ◌≡◌, ◌∙◌, refl, ap, arith, some}
use high_speed_cproxy.Memory.{Memory, write_le, hyperamp_safe_memset, hyperamp_safe_memcpy}
use high_speed_cproxy.Selector.{process_ok}
use high_speed_cproxy.Handler.Session.{SessMsgHeader, sess_header_at, sess_msg_payload_len}
use high_speed_cproxy.Build.{
  GeneralProxyMsgHeader, put_words, put_outer, build_proxy_sess_message, inner_built, general_built,
}

inner_sess :
    (header : GeneralProxyMsgHeader) (payload : Memory) (n : ℕ) (m : Memory) (h : SessMsgHeader)
    → header.outer_header.proxy_msg_type ≡ 2
    → sess_header_at header.inner_header ≡ h
    → inner_built header payload n m 8
      ≡ some (
        (build_proxy_sess_message h payload n m 8).0,
        10,
        (build_proxy_sess_message h payload n m 8).1,
      )
unfolding inner_built
inner_sess header payload n m h e i = rw (e, i) refl

general_ok :
    (header : GeneralProxyMsgHeader) (payload : Memory) (n : ℕ) (buf : Memory) (k : ℕ) (m : Memory)
    → inner_built header payload n
        (put_outer (hyperamp_safe_memset buf 0 0 4096) header.outer_header)
        8
      ≡ some (process_ok, k, m)
    → general_built header payload n buf ≡ some (write_le m 6 (n + k) 2, n + k + 8)
unfolding general_built
general_ok header payload n buf k m e = rw (e, general_built) refl

-- The buffer with both headers and a payload of `h.payload_len` bytes.
abbrev pub sess_message : GeneralProxyMsgHeader → SessMsgHeader → (payload buf : Memory) → Memory
sess_message header h payload buf =
    write_le
      (hyperamp_safe_memcpy
        (put_words (put_outer (hyperamp_safe_memset buf 0 0 4096) header.outer_header) 8 h.version
          h.msg_type h.action_type h.ip_version h.payload_len)
        18 payload 0 h.payload_len)
      6 (h.payload_len + 10) 2

sess_built_lem :
    (h : SessMsgHeader) (payload m : Memory)
    → sess_msg_payload_len h.msg_type h.action_type h.ip_version ≡ some h.payload_len
    → build_proxy_sess_message h payload h.payload_len m 8 ≡ (
      process_ok,
      hyperamp_safe_memcpy
          (put_words m 8 h.version h.msg_type h.action_type h.ip_version h.payload_len)
          18
          payload
          0
          h.payload_len,
    )
unfolding build_proxy_sess_message
sess_built_lem h payload m e = rw e (ground arith)

-- A session message whose payload has the length of its header and its type is built.
pub general_sess :
    (header : GeneralProxyMsgHeader) (h : SessMsgHeader) (payload buf : Memory)
    → header.outer_header.proxy_msg_type ≡ 2
    → sess_header_at header.inner_header ≡ h
    → sess_msg_payload_len h.msg_type h.action_type h.ip_version ≡ some h.payload_len
    → general_built header payload h.payload_len buf
      ≡ some (sess_message header h payload buf, h.payload_len + 10 + 8)
general_sess header h payload buf type inner fits =
    general_ok header payload h.payload_len buf 10 filled (
      inner_sess header payload h.payload_len zeroed h type inner
      ∙ ap (λ r. some (r.0, 10, r.1)) (sess_built_lem h payload zeroed fits))
  where
    zeroed : Memory
    zeroed = put_outer (hyperamp_safe_memset buf 0 0 4096) header.outer_header

    filled : Memory
    filled =
        hyperamp_safe_memcpy
          (put_words zeroed 8 h.version h.msg_type h.action_type h.ip_version h.payload_len) 18
          payload 0 h.payload_len
