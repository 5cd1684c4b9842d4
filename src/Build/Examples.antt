-- ===== src/Build/Examples.antt =====
-- Messages that are built and sent.
use high_speed_cproxy.Base.{ℕ, ◌≡◌, ◌↔◌, refl, inr, arith, some, []}
use high_speed_cproxy.Selector.{process_ok}
use high_speed_cproxy.Pool.{SessOpRespData}
use high_speed_cproxy.Handler.Samples.{session}
use high_speed_cproxy.Control.{
  DevMsgHeader, dev_msg_payload_len, backend_proxy_dev_msg_process, backend_proxy_strgy_msg_process,
}
use high_speed_cproxy.Build.{build_proxy_dev_message, build_proxy_strgy_message}
use high_speed_cproxy.Build.Samples.{threes, empty_queue, empty_queue-Rep, stack}
use high_speed_cproxy.Build.Commands.{IsDevHeader, IsFitting, Carries, from_addr, commands_built}
use high_speed_cproxy.Build.Response.{
  backend_proxy_send_sess_msg_to_frontend_via_shmem,
  backend_proxy_send_sess_standalone_msg_to_frontend_via_shmem,
}
use high_speed_cproxy.Build.Response.Sent.{IsSent, response, wired, response-IsSent}

abbrev success : SessOpRespData
success = record { op_status = 0; code = 0 }

response-IsSent_example :
    IsSent 100 empty_queue []
      (response
        (session 4).frontend_sess_id
        (session 4).backend_sess_id
        (session 4).ip_version
        1
        success)
      (backend_proxy_send_sess_msg_to_frontend_via_shmem
        (some (wired 100))
        empty_queue
        stack
        threes
        (some (session 4))
        1
        (some success))
    × ((backend_sess_id : ℕ)
        → IsSent 100 empty_queue []
            (response (session 4).frontend_sess_id 65535 (session 4).ip_version 1 success)
            (backend_proxy_send_sess_standalone_msg_to_frontend_via_shmem
              (some (wired 100))
              empty_queue
              stack
              threes
              (session 4).frontend_sess_id
              backend_sess_id
              (session 4).ip_version
              1
              (some success)))
response-IsSent_example =
    response-IsSent 100 empty_queue [] empty_queue-Rep (omega arith) stack threes success
      (session 4) 1 (omega arith) (inr refl)

-- To enable devices by a mask of two bytes.
abbrev enable : DevMsgHeader
enable = record { version = 1; msg_type = 1; msg_id = 9; action_type = 0; payload_len = 2 }

enable-IsDevHeader : IsDevHeader enable
enable-IsDevHeader = record {
  version_u16 = omega arith;
  msg_type_u16 = omega arith;
  msg_id_u16 = omega arith;
  action_type_u16 = omega arith;
  payload_len_u16 = omega arith;
}

commands_built_example :
    (((build_proxy_dev_message enable threes 2 threes 8).0 ≡ process_ok)
      ↔ IsFitting (dev_msg_payload_len 1 0) 2 enable)
    × (((build_proxy_strgy_message enable threes 2 threes 8).0 ≡ process_ok)
        ↔ IsFitting (dev_msg_payload_len 1 0) 2 enable)
    × ((build_proxy_dev_message enable threes 2 threes 8).0 ≡ process_ok
        → Carries enable threes threes 8 (build_proxy_dev_message enable threes 2 threes 8).1
          × ((backend_proxy_dev_msg_process
                  (from_addr (build_proxy_dev_message enable threes 2 threes 8).1 8)
                ≡ process_ok)
              ↔ (enable.version ≡ 1) × (enable.action_type ≡ 0)))
    × ((build_proxy_strgy_message enable threes 2 threes 8).0 ≡ process_ok
        → Carries enable threes threes 8 (build_proxy_strgy_message enable threes 2 threes 8).1
          × ((backend_proxy_strgy_msg_process
                  (from_addr (build_proxy_strgy_message enable threes 2 threes 8).1 8)
                ≡ process_ok)
              ↔ (enable.version ≡ 1) × (enable.action_type ≡ 0) × (enable.msg_type ≡ 0)))
commands_built_example = commands_built enable enable-IsDevHeader threes 2 threes 8
