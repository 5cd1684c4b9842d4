-- ===== src/Message/Examples.antt =====
-- Runs of the message header and the dispatch.
use high_speed_cproxy.Base.{ℕ, ◌+◌, ◌≤◌, ◌<◌, ◌≡◌, ◌≢◌, ◌⊎◌, some}
use high_speed_cproxy.Memory.{Memory}
use high_speed_cproxy.Selector.{process_ok, process_error}
use high_speed_cproxy.Message.{header_at, Handlers, backend_proxy_msg_process}
use high_speed_cproxy.Message.Dispatch.{msg_process_by_type}

-- Handlers that count what reaches them, each kind by its own weight.
abbrev counting : Handlers ℕ
counting = record {
  dev_msg_process = λ s msg. some (process_ok, s + 1);
  strgy_msg_process = λ s msg. some (process_ok, s + 10);
  sess_msg_process = λ s f b msg. some (process_ok, s + 100);
  data_msg_process = λ s f b n msg. some (process_ok, s + 1000);
  iot_msg_process = λ s f b n msg. some (process_ok, s + 10000);
}

msg_process_by_type_example :
    let msg : Memory = λ _. 3 in
    let hdr = header_at msg in
    let r = backend_proxy_msg_process counting 0 msg in
    (hdr.proxy_msg_type ≡ 0
      → hdr.frontend_sess_id ≡ 0
      → hdr.backend_sess_id ≡ 0
      → r ≡ some (process_ok, 1))
    × (hdr.proxy_msg_type ≡ 1
        → hdr.frontend_sess_id ≡ 0
        → hdr.backend_sess_id ≡ 0
        → r ≡ some (process_ok, 10))
    × (hdr.proxy_msg_type ≤ 1
        → (hdr.frontend_sess_id ≢ 0) ⊎ (hdr.backend_sess_id ≢ 0)
        → r ≡ some (process_error, 0))
    × (hdr.proxy_msg_type ≡ 2 → r ≡ some (process_ok, 100))
    × (hdr.proxy_msg_type ≡ 3 → r ≡ some (process_ok, 1000))
    × (hdr.proxy_msg_type ≡ 4 → r ≡ some (process_ok, 10000))
    × (4 < hdr.proxy_msg_type → r ≡ some (process_error, 0))
msg_process_by_type_example = msg_process_by_type counting 0 (λ _. 3)
