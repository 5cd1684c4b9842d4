-- ===== src/Control/Accepted.antt =====
-- Which device and strategy messages src/backend_proto.c accepts.
use high_speed_cproxy.Base.{◌≡◌, ◌≢◌, ◌⊎◌, ◌↔◌, arith}
use high_speed_cproxy.Memory.{Memory}
use high_speed_cproxy.Selector.{process_ok, process_error}
use high_speed_cproxy.Control.{
  DevMsgHeader, dev_header_at, dev_msg_payload_len, strgy_msg_payload_len,
  backend_proxy_dev_msg_process_ver1, backend_proxy_dev_msg_process,
  backend_proxy_strgy_msg_process_ver1, backend_proxy_strgy_msg_process,
  backend_proxy_dev_msg_process_enable_ver1, backend_proxy_dev_msg_process_disable_ver1,
  backend_proxy_dev_msg_process_query_ver1, backend_proxy_strgy_msg_process_set_ver1,
  backend_proxy_strgy_msg_process_query_ver1,
}

-- The commands of version 1: to disable (0) or enable (1) devices with a mask of two bytes, and to query them (2).
abbrev pub IsDevCommand : DevMsgHeader → Type 0
IsDevCommand hdr =
    (hdr.version ≡ 1)
    × (hdr.action_type ≡ 0)
    × (((hdr.msg_type ≡ 0) × (hdr.payload_len ≡ 2))
        ⊎ ((hdr.msg_type ≡ 1) × (hdr.payload_len ≡ 2))
        ⊎ ((hdr.msg_type ≡ 2) × (hdr.payload_len ≡ 0)))

-- To set a strategy (0), in two bytes, and to query it (1).
abbrev pub IsStrgyCommand : DevMsgHeader → Type 0
IsStrgyCommand hdr =
    (hdr.version ≡ 1)
    × (hdr.action_type ≡ 0)
    × (((hdr.msg_type ≡ 0) × (hdr.payload_len ≡ 2)) ⊎ ((hdr.msg_type ≡ 1) × (hdr.payload_len ≡ 0)))

module _ (msg : Memory) where
  abbrev hdr : DevMsgHeader
  hdr = dev_header_at msg

  -- A device message and a strategy message are each accepted, with BACKEND_PROXY_PROCESS_OK, exactly if their header is that of a
  -- command of version 1 whose length belongs to its type, and are answered with BACKEND_PROXY_PROCESS_ERROR otherwise.
  pub control_accepts :
      ((backend_proxy_dev_msg_process msg ≡ process_ok) ↔ IsDevCommand (dev_header_at msg))
      × ((backend_proxy_strgy_msg_process msg ≡ process_ok) ↔ IsStrgyCommand (dev_header_at msg))
      × (backend_proxy_dev_msg_process msg ≢ process_ok
          → backend_proxy_dev_msg_process msg ≡ process_error)
      × (backend_proxy_strgy_msg_process msg ≢ process_ok
          → backend_proxy_strgy_msg_process msg ≡ process_error)
  unfolding backend_proxy_dev_msg_process backend_proxy_dev_msg_process_ver1 dev_msg_payload_len
      backend_proxy_strgy_msg_process backend_proxy_strgy_msg_process_ver1 strgy_msg_payload_len
      backend_proxy_dev_msg_process_enable_ver1 backend_proxy_dev_msg_process_disable_ver1
      backend_proxy_dev_msg_process_query_ver1 backend_proxy_strgy_msg_process_set_ver1
      backend_proxy_strgy_msg_process_query_ver1
  control_accepts = (
    (λ e. ground (arith, e), λ h. ground (arith, h)),
    (λ e. ground (arith, e), λ h. ground (arith, h)),
    λ n. ground (arith, n),
    λ n. ground (arith, n),
  )
