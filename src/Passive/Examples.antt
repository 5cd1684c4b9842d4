-- ===== src/Passive/Examples.antt =====
-- A connection that a device accepts.
use high_speed_cproxy.Base.{◌+◌, ◌<◌, ◌≡◌, refl, arith, Bool, none, some, [], ◌∷◌, ◌++◌}
use high_speed_cproxy.Shm.{Shm}
use high_speed_cproxy.Shm.Fifo.{Rep}
use high_speed_cproxy.Selector.{process_ok, process_error, process_again}
use high_speed_cproxy.Pool.{BackendSessionPool}
use high_speed_cproxy.Pool.Table.{high_speed_search_sess}
use high_speed_cproxy.Handler.Samples.{session, pool}
use high_speed_cproxy.Handler.Session.{passive_create}
use high_speed_cproxy.Build.Response.Sent.{wired}
use high_speed_cproxy.Build.Samples.{threes, empty_queue, empty_queue-Rep, stack}
use high_speed_cproxy.Passive.{PassiveSessParaIp, PassiveStack, high_speed_create_sess_passive}
use high_speed_cproxy.Passive.Request.{create_command}
use high_speed_cproxy.Passive.Outcome.{IsAccepting, accepted, passive_created}

abbrev para : PassiveSessParaIp
para = record { fd = 12; dev_id = 0; trans_proto = 1; ip_version = 4; endpoint = threes }

abbrev on_stack : PassiveStack
on_stack = record { block = some (900, session 7); junk_id = 7; msg_header = stack; paras = threes }

abbrev no_sessions : BackendSessionPool
no_sessions = pool [] (λ _. none)

no_sessions-IsAccepting : IsAccepting no_sessions para on_stack 900 1 8 (session 7) (2 ∷ []) []
no_sessions-IsAccepting = record {
  has_ops = refl;
  ipv4 = refl;
  dev_in = omega arith;
  block = refl;
  ids = refl;
  id_pos = omega arith;
  free = refl;
  proto = omega arith;
}

passive_created_example :
    (0 + 1 < 2
      → (s' : Shm) × (high_speed_create_sess_passive no_sessions
            (wired 100)
            empty_queue
            threes
            (some para)
            on_stack
          ≡ some (process_ok, accepted no_sessions para 900 1 8 (session 7) (2 ∷ []) [], s'))
        × Rep 100 s' ([] ++ (create_command 1 0 1 threes ∷ [])))
    × (0 + 1 ≡ 2
        → (s' : Shm) × (high_speed_create_sess_passive no_sessions
              (wired 100)
              empty_queue
              threes
              (some para)
              on_stack
            ≡ some (process_again, accepted no_sessions para 900 1 8 (session 7) (2 ∷ []) [], s'))
          × Rep 100 s' [])
    × (high_speed_search_sess no_sessions 1 ≡ none
        → (mem_pool epoll_ok : Bool)
        → passive_create
            (accepted no_sessions para 900 1 8 (session 7) (2 ∷ []) [])
            mem_pool
            epoll_ok
            1
          ≡ some (process_error, accepted no_sessions para 900 1 8 (session 7) (2 ∷ []) []))
passive_created_example =
    passive_created no_sessions para on_stack 900 1 8 (session 7) (2 ∷ []) []
      no_sessions-IsAccepting 100 empty_queue threes [] empty_queue-Rep (omega arith)
