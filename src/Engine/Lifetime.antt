-- ===== src/Engine/Lifetime.antt =====
-- A session pool of src/session_pool.c from its initialisation to its end.
mod Examples
use high_speed_cproxy.Base.{ℕ, ◌≡◌, refl, sym, ap, ◌∙◌, Bool, true, none, List, []}
use high_speed_cproxy.Pool.{BackendSessionPool}
use high_speed_cproxy.Pool.Nodes.{count}
use high_speed_cproxy.Pool.Links.{IsLinked, times_f2b, times_b2f}
use high_speed_cproxy.Pool.Lifetime.{
  high_speed_init_pool, high_speed_deinit_pool, high_speed_destroy_pool, in_table, IsEmptied,
  destroy-IsEmptied, release_id_queue_lem,
}
use high_speed_cproxy.Engine.Reach.{Reach, Reach-IsLinked}

init-IsLinked :
    (wired : Bool) (p : BackendSessionPool)
    → ((a : ℕ) → p.heap a ≡ none)
    → IsLinked (high_speed_init_pool wired p)
unfolding high_speed_init_pool
init-IsLinked wired p empty = record {
  f2b = λ a. ap times_f2b (sym (empty a));
  b2f = λ a. ap times_b2f (sym (empty a));
}

-- After the deinitialisation nothing is in a queue, and the rest is as before.
pub record IsClosed (p q : BackendSessionPool) : Type 0 where
  pub no_ids : q.id_queue ≡ []
  pub no_f2b : q.queue_f2b ≡ []
  pub no_b2f : q.queue_b2f ≡ []
  pub table : q.htable ≡ p.htable
  pub heap : q.heap ≡ p.heap

deinit-IsClosed : (p : BackendSessionPool) → IsClosed p (high_speed_deinit_pool p)
unfolding high_speed_deinit_pool
deinit-IsClosed p = record {
  no_ids = release_id_queue_lem p.id_queue;
  no_f2b = refl;
  no_b2f = refl;
  table = refl;
  heap = refl;
}

-- However a pool came about from one that was initialised with no session live, by data messages, data from sockets,
-- passes to the sockets, passes to a valid frontend's queue with segments that fit, deletions of live sessions, and
-- active creations that either fail at any stage before a response that is passed on, or succeed with an unused
-- block whose flags are clear: a session stands in a queue of active sessions exactly once if it is live with its flag
-- set, and otherwise not at all. Destroying the pool then frees the sessions of its table, and only them, and empties
-- the table; the queues, devices, nodes, registrations, sockets and free ids stay as they are, so that a freed
-- session whose flag was set is still in its queue. The deinitialisation after it empties the queues of active
-- sessions and of ids.
pub pool_lifetime :
    (wired : Bool) (p q : BackendSessionPool)
    → ((a : ℕ) → p.heap a ≡ none)
    → Reach (high_speed_init_pool wired p) q
    → IsLinked q
      × IsEmptied q (high_speed_destroy_pool q)
      × ((a : ℕ)
          → in_table q.htable a ≡ true
          → ((high_speed_destroy_pool q).heap a ≡ none)
            × (count a (high_speed_destroy_pool q).queue_f2b ≡ times_f2b (q.heap a))
            × (count a (high_speed_destroy_pool q).queue_b2f ≡ times_b2f (q.heap a)))
      × IsClosed (high_speed_destroy_pool q) (high_speed_deinit_pool (high_speed_destroy_pool q))
pool_lifetime wired p q empty r =
    let l = Reach-IsLinked r (init-IsLinked wired p empty) in
    let d = destroy-IsEmptied q in
    (
      l,
      d,
      λ a h. (d.freed a h, ap (count a) d.queue_f2b ∙ l.f2b a, ap (count a) d.queue_b2f ∙ l.b2f a),
      deinit-IsClosed (high_speed_destroy_pool q),
    )
