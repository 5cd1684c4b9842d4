-- ===== src/Handler/Session/Examples.antt =====
-- Runs of the session handlers.
use high_speed_cproxy.Base.{◌≡◌, refl, inr, true, none, some, [], ◌∷◌, arith}
use high_speed_cproxy.Memory.{Memory, read_le}
use high_speed_cproxy.Selector.{process_ok, process_error}
use high_speed_cproxy.Pool.{BackendSessionPool, search_in}
use high_speed_cproxy.Pool.Nodes.{IsApart}
use high_speed_cproxy.Pool.Create.{Answers}
use high_speed_cproxy.Pool.Create.Success.{IsSmooth}
use high_speed_cproxy.Pool.Table.{high_speed_search_sess}
use high_speed_cproxy.Pool.Table.Delete.{IsUndone, IsUnused}
use high_speed_cproxy.Transfer.Receive.{list_memory}
use high_speed_cproxy.Handler.Samples.{device, session, pool}
use high_speed_cproxy.Handler.Session.{sess_header_at, sess_para_at, backend_proxy_sess_msg_process}
use high_speed_cproxy.Handler.Session.CreateClose.{
  create_command, close_command, payload_of, create_then_close,
}
use high_speed_cproxy.Handler.Session.Refused.{sess_refused}

-- A command for a TCP session on device 0, to 10.0.0.7, port 80, and a command to close a session.
abbrev create : Memory
create =
    list_memory
      (1 ∷ 0 ∷ 1 ∷ 0 ∷ 0 ∷ 0 ∷ 4 ∷ 0 ∷ 10 ∷ 0 ∷ 0 ∷ 0 ∷ 1 ∷ 0 ∷ 10 ∷ 0 ∷ 0 ∷ 7 ∷ 80 ∷ 0 ∷ [])

abbrev close : Memory
close = list_memory (1 ∷ 0 ∷ 0 ∷ 0 ∷ 0 ∷ 0 ∷ 4 ∷ 0 ∷ 0 ∷ 0 ∷ [])

abbrev empty : BackendSessionPool
empty = pool [] (λ _. none)

abbrev answers : Answers
answers = record {
  block = some (500, session 0);
  junk_id = 0;
  junk_resp = record { op_status = 9; code = 9 };
  auto_dev = none;
  socket = some 12;
  connects = true;
  epoll_ok = true;
  sent_ok = true;
}

create_header : sess_header_at create ≡ create_command
unfolding sess_header_at read_le
create_header = refl

close_header : sess_header_at close ≡ close_command
unfolding sess_header_at read_le
close_header = refl

smooth :
    IsSmooth empty
      (sess_para_at 700 4 (payload_of create))
      answers
      500
      1
      0
      3
      12
      8
      (session 0)
      (2 ∷ [])
      []
unfolding search_in sess_para_at read_le
smooth = record {
  wired = refl;
  block = refl;
  ids = refl;
  id_pos = λ e. absurd (omega (arith, e));
  dev_num_pos = λ e. absurd (omega (arith, e));
  dev_id = refl;
  dev_in = omega arith;
  active = refl;
  ns_id = refl;
  socket = refl;
  connects = refl;
  nodes_free = refl;
  known = inr refl;
  epoll_ok = refl;
  id_new = refl;
}

apart8 : IsApart device 8
apart8 = record { udp = refl; tcp = refl }

unused : IsUnused empty 500 0 8 (session 0)
unused = record {
  free_heap = refl;
  free_node = refl;
  apart = apart8;
  f2b_clear = refl;
  b2f_clear = refl;
}

create_then_close_example :
    (q z : BackendSessionPool) × (backend_proxy_sess_msg_process true answers empty 700 65535 create
      ≡ some (process_ok, q))
    × (backend_proxy_sess_msg_process true answers q 700 1 close ≡ some (process_ok, z))
    × IsUndone empty z 1 (2 ∷ [])
create_then_close_example =
    create_then_close true empty answers answers 700 500 1 0 3 12 8 (session 0) (2 ∷ []) [] create
      close create_header close_header smooth refl unused refl

missing : high_speed_search_sess empty 1 ≡ none
unfolding high_speed_search_sess search_in
missing = refl

sess_refused_example :
    backend_proxy_sess_msg_process true answers empty 700 1 close ≡ some (process_error, empty)
sess_refused_example =
    sess_refused true answers empty 700 1 close
      (inr (inr (inr (λ e. absurd (omega (arith, e)), missing))))
