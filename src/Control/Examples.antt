-- ===== src/Control/Examples.antt =====
-- Runs of the device and strategy handlers.
use high_speed_cproxy.Base.{◌≡◌, ◌≢◌, ◌↔◌, ◌==◌, if◌then◌else◌}
use high_speed_cproxy.Memory.{Memory}
use high_speed_cproxy.Selector.{process_ok, process_error}
use high_speed_cproxy.Control.{
  dev_header_at, backend_proxy_dev_msg_process, backend_proxy_strgy_msg_process,
}
use high_speed_cproxy.Control.Accepted.{IsDevCommand, IsStrgyCommand, control_accepts}

abbrev set_strategy : Memory
set_strategy j = if j == 0 then 1 else (if j == 8 then 2 else 0)

control_accepts_example :
    ((backend_proxy_dev_msg_process set_strategy ≡ process_ok)
      ↔ IsDevCommand (dev_header_at set_strategy))
    × ((backend_proxy_strgy_msg_process set_strategy ≡ process_ok)
        ↔ IsStrgyCommand (dev_header_at set_strategy))
    × (backend_proxy_dev_msg_process set_strategy ≢ process_ok
        → backend_proxy_dev_msg_process set_strategy ≡ process_error)
    × (backend_proxy_strgy_msg_process set_strategy ≢ process_ok
        → backend_proxy_strgy_msg_process set_strategy ≡ process_error)
control_accepts_example = control_accepts set_strategy
