-- ===== src/Engine/Lifetime/Examples.antt =====
-- A pool that is initialised, gets a session, and is destroyed.
use high_speed_cproxy.Base.{ℕ, ◌≡◌, refl, inr, arith, true, none, []}
use high_speed_cproxy.Pool.{BackendSessionPool, fill_from, search_in}
use high_speed_cproxy.Pool.Ids.{fill_id_queue_first}
use high_speed_cproxy.Pool.Nodes.{count}
use high_speed_cproxy.Pool.Links.{IsLinked, times_f2b, times_b2f}
use high_speed_cproxy.Pool.Lifetime.{
  high_speed_init_pool, high_speed_deinit_pool, high_speed_destroy_pool, in_table, IsEmptied,
}
use high_speed_cproxy.Pool.Create.Success.{IsSmooth, create_succeeds}
use high_speed_cproxy.Pool.Create.Samples.{apart8, pool, para, rubbish, answers}
use high_speed_cproxy.Pool.Table.Delete.{IsUnused}
use high_speed_cproxy.Engine.Reach.{Reach, create, here, next}
use high_speed_cproxy.Engine.Lifetime.{IsClosed, pool_lifetime}

abbrev started : BackendSessionPool
started = high_speed_init_pool true pool

smooth :
    IsSmooth started para (answers 0 true true) 500 1 0 3 12 8 (rubbish 0) (fill_from [] 2 1023) []
unfolding search_in high_speed_init_pool
smooth = record {
  wired = refl;
  block = refl;
  ids = fill_id_queue_first;
  id_pos = λ e. absurd (omega (arith, e));
  dev_num_pos = λ e. absurd (omega (arith, e));
  dev_id = refl;
  dev_in = omega arith;
  active = refl;
  ns_id = refl;
  socket = refl;
  connects = refl;
  nodes_free = refl;
  known = inr refl;
  epoll_ok = refl;
  id_new = refl;
}

unused : IsUnused started 500 0 8 (rubbish 0)
unfolding high_speed_init_pool
unused = record {
  free_heap = refl;
  free_node = refl;
  apart = apart8;
  f2b_clear = refl;
  b2f_clear = refl;
}

abbrev one_created : BackendSessionPool
one_created =
    (create_succeeds started para (answers 0 true true) 500 1 0 3 12 8 (rubbish 0)
      (fill_from [] 2 1023) [] smooth refl).0

steps : Reach started one_created
steps = next here (
    create para (answers 0 true true) 500 1 0 3 12 8 (rubbish 0) (fill_from [] 2 1023) [] smooth
      refl unused
      (create_succeeds started para (answers 0 true true) 500 1 0 3 12 8 (rubbish 0)
        (fill_from [] 2 1023) [] smooth refl).1)

pool_lifetime_example :
    IsLinked one_created
    × IsEmptied one_created (high_speed_destroy_pool one_created)
    × ((a : ℕ)
        → in_table one_created.htable a ≡ true
        → ((high_speed_destroy_pool one_created).heap a ≡ none)
          × (count a (high_speed_destroy_pool one_created).queue_f2b
              ≡ times_f2b (one_created.heap a))
          × (count a (high_speed_destroy_pool one_created).queue_b2f
              ≡ times_b2f (one_created.heap a)))
    × IsClosed
        (high_speed_destroy_pool one_created)
        (high_speed_deinit_pool (high_speed_destroy_pool one_created))
pool_lifetime_example = pool_lifetime true pool one_created (λ a. refl) steps
