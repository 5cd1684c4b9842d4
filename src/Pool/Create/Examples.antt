-- ===== src/Pool/Create/Examples.antt =====
-- Runs of high_speed_create_sess_active, and of high_speed_delete_sess after it.
use high_speed_cproxy.Base.{
  ℕ, ◌≡◌, ◌≢◌, inr, refl, Bool, Option, none, some, true, false, List, [], ◌∷◌, arith, subst, ap,
}
use high_speed_cproxy.Pool.{
  BackendSessionPool, insert_session_node, remove_session_node, append_node, search_in, allocate_id,
  release_id, pop_free_session_node, take_node, push_free_session_node,
}
use high_speed_cproxy.Pool.Nodes.{IsApart}
use high_speed_cproxy.Pool.Create.{
  high_speed_create_sess_active, allocated, with_id, on_device, socket_made, connected, node_popped,
  node_inserted, register, inserted, recycle_sess_node, create_sess_error, filled,
}
use high_speed_cproxy.Pool.Create.Failure.{IsClean}
use high_speed_cproxy.Pool.Create.Clean.{IsReady}
use high_speed_cproxy.Pool.Create.GiveBack.{create_fails_clean}
use high_speed_cproxy.Pool.Create.Success.{
  IsSmooth, IsCreated, create_succeeds, response_failure_dangles,
}
use high_speed_cproxy.Pool.Table.{high_speed_delete_sess}
use high_speed_cproxy.Pool.Table.Delete.{
  IsUndone, IsUnused, made, delete_undoes_create, delete_leaks_node,
}
use high_speed_cproxy.Pool.Create.Samples.{device, apart8, pool, para, rubbish, answers}

smooth :
    (dev_id : ℕ) (sent_ok : Bool)
    → IsSmooth pool para (answers dev_id true sent_ok) 500 1 0 3 12 8 (rubbish dev_id) (2 ∷ []) []
unfolding search_in
smooth dev_id sent_ok = record {
  wired = refl;
  block = refl;
  ids = refl;
  id_pos = λ e. absurd (omega (arith, e));
  dev_num_pos = λ e. absurd (omega (arith, e));
  dev_id = refl;
  dev_in = omega arith;
  active = refl;
  ns_id = refl;
  socket = refl;
  connects = refl;
  nodes_free = refl;
  known = inr refl;
  epoll_ok = refl;
  id_new = refl;
}

unused : (dev_id : ℕ) → IsUnused pool 500 0 8 (rubbish dev_id)
unused dev_id = record {
  free_heap = refl;
  free_node = refl;
  apart = apart8;
  f2b_clear = refl;
  b2f_clear = refl;
}

create_succeeds_example :
    (q : BackendSessionPool) × (high_speed_create_sess_active pool para (answers 0 true true)
      ≡ some (true, q))
    × IsCreated pool para 500 1 0 12 8 (rubbish 0) (2 ∷ []) [] q
create_succeeds_example =
    create_succeeds pool para (answers 0 true true) 500 1 0 3 12 8 (rubbish 0) (2 ∷ []) []
      (smooth 0 true) refl

response_failure_dangles_example :
    (q : BackendSessionPool) × (high_speed_create_sess_active pool para (answers 0 true false)
      ≡ some (false, q))
    × (search_in q.htable 1 ≡ some 500)
    × (q.heap 500 ≡ none)
    × (q.id_queue ≡ 2 ∷ 1 ∷ [])
    × (q.fds ≡ [])
response_failure_dangles_example =
    response_failure_dangles pool para (answers 0 true false) 500 1 0 3 12 8 (rubbish 0) (2 ∷ []) []
      (smooth 0 false) refl

delete_undoes_create_example :
    (q : BackendSessionPool) × (high_speed_create_sess_active pool para (answers 0 true true)
      ≡ some (true, q))
    × IsUndone pool (high_speed_delete_sess q 500 (made para 1 12 8 (rubbish 0))) 1 (2 ∷ [])
delete_undoes_create_example =
    delete_undoes_create pool para (answers 0 true true) 500 1 0 3 12 8 (rubbish 0) (2 ∷ []) []
      (smooth 0 true) refl (unused 0) refl

delete_leaks_node_example :
    (q z : BackendSessionPool) × (high_speed_create_sess_active pool para (answers 999 true true)
      ≡ some (true, q))
    × (high_speed_delete_sess q 500 (made para 1 12 8 (rubbish 999)) ≡ z)
    × (z.heap 500 ≡ none)
    × (z.node_sess 8 ≡ some 500)
    × (z.hs_net_dev 0 ≡ append_node (record device { free_node_queue = [] }) 8 1)
delete_leaks_node_example =
    delete_leaks_node pool para (answers 999 true true) 500 1 0 3 12 8 (rubbish 999) (2 ∷ []) []
      (smooth 999 true) refl (unused 999) (omega arith)

-- The pool in a result.
abbrev pool_of : Option (Bool × BackendSessionPool) → BackendSessionPool
pool_of none = pool
pool_of (some r) = r.1

-- The pool after a call in which `epoll_ctl` fails.
abbrev failed_pool : BackendSessionPool
failed_pool = pool_of (high_speed_create_sess_active pool para (answers 0 false true))

failed_run :
    high_speed_create_sess_active pool para (answers 0 false true) ≡ some (false, failed_pool)
unfolding high_speed_create_sess_active allocated with_id on_device socket_made connected
    node_popped node_inserted register inserted recycle_sess_node create_sess_error filled
    allocate_id release_id pop_free_session_node insert_session_node append_node remove_session_node
    take_node push_free_session_node
failed_run = refl

nodes_ready :
    (d node : ℕ) (rest : List ℕ)
    → 8 ∷ [] ≡ node ∷ rest
    → (pool.node_sess node ≡ none) × IsApart device node
nodes_ready d node rest e = (refl, subst (IsApart device) (ap (λ l. head_of l) e) apart8)
  where
    head_of : List ℕ → ℕ
    head_of [] = 0
    head_of (x ∷ xs) = x

ids_ready : (id : ℕ) (rest : List ℕ) → 1 ∷ 2 ∷ [] ≡ id ∷ rest → id ≢ 0
ids_ready id rest e z = absurd (ground (arith, e, z))

ready : IsReady pool (answers 0 false true)
ready = record {
  wired = refl;
  fresh = λ addr raw e. refl;
  id_pos = ids_ready;
  nodes = nodes_ready;
  sent_ok = refl;
  no_junk = λ e. refl;
}

create_fails_clean_example : IsClean pool failed_pool para
create_fails_clean_example =
    create_fails_clean pool para (answers 0 false true) failed_pool ready failed_run
