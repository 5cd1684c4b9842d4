-- ===== src/Engine/Passes/Examples.antt =====
-- Runs of the passes, and a pool that some steps lead to.
use high_speed_cproxy.Base.{
  ℕ, ◌≡◌, refl, sym, ap, subst, ◌∙◌, ℕ_discrete, Option, none, some, true, List, [], ◌∷◌, arith,
  ◌==◌, if◌then◌else◌,
}
use high_speed_cproxy.Shm.{Shm}
use high_speed_cproxy.Selector.{process_ok}
use high_speed_cproxy.Pool.{SessMsgSeg, BackendSession, BackendSessionPool, search_in}
use high_speed_cproxy.Pool.Nodes.{count}
use high_speed_cproxy.Pool.Links.{IsLinked}
use high_speed_cproxy.Pool.Table.{high_speed_search_sess, high_speed_delete_sess}
use high_speed_cproxy.Handler.Data.{data_queued, segment_of, with_segment}
use high_speed_cproxy.Engine.Samples.{
  threes, queue4, messages, queue4-Rep, segment, busy, busy_pool, busy_pool-IsLinked,
}
use high_speed_cproxy.Transfer.Drain.{Fit}
use high_speed_cproxy.Engine.Passes.{Socket, f2b_pass, b2f_pass}
use high_speed_cproxy.Engine.Passes.ToSockets.{log_of, served, f2b_pass_serves}
use high_speed_cproxy.Engine.Passes.Pending.{AllFit, IsPassed}
use high_speed_cproxy.Engine.Passes.ToFrontend.{b2f_pass_drains}
use high_speed_cproxy.Engine.Reach.{Reach, data_message, delete, here, next, Reach-IsLinked}

-- A socket that takes every segment, with room for ten bytes.
abbrev roomy : ℕ → Socket
roomy a = record { send = λ seg. some seg.len; buf_size = some 10 }

f2b_pass_serves_example :
    (q : BackendSessionPool) × (f2b_pass roomy busy_pool (500 ∷ [])
      ≡ some (q, log_of roomy busy_pool.heap (500 ∷ [])))
    × IsLinked q
    × ((a : ℕ)
        → q.heap a ≡ (
            if count a (500 ∷ []) == 0
            then busy_pool.heap a
            else served (roomy a) (busy_pool.heap a)))
f2b_pass_serves_example = f2b_pass_serves roomy busy_pool busy_pool-IsLinked

busy_pool-AllFit : AllFit 8 busy_pool.heap
busy_pool-AllFit a sess e = elim (ℕ_discrete a 500) [
  | yes h ↦
      subst (Fit 8) (ap segments (sym (ap busy_pool.heap h) ∙ e))
        ((threes, refl), omega arith, omega arith, ((threes, refl), omega arith, omega arith, tt))
  | no h ↦ absurd (ground (arith, h, e))
]
  where
    segments : Option BackendSession → List SessMsgSeg
    segments none = []
    segments (some s) = s.msg_b2f

b2f_pass_drains_example :
    (q : BackendSessionPool) × (s' : Shm) × (b2f_pass queue4 100 busy_pool (500 ∷ [])
      ≡ some (q, s'))
    × IsPassed 100 s' messages busy_pool q (500 ∷ [])
b2f_pass_drains_example =
    b2f_pass_drains 100 queue4 messages busy_pool queue4-Rep busy_pool-IsLinked busy_pool-AllFit

found : high_speed_search_sess busy_pool 5 ≡ some 500
unfolding high_speed_search_sess search_in
found = refl

-- A data message for the session, and then its deletion.
abbrev queued : BackendSession
queued = record busy {
  msg_f2b =
      segment 4
      ∷ segment_of 2
          (data_queued busy_pool threes 700 5 2 500 busy threes refl found refl (omega arith)).0
      ∷ [];
}

abbrev queued_pool : BackendSessionPool
queued_pool = with_segment busy_pool 500 busy (
    segment_of 2
      (data_queued busy_pool threes 700 5 2 500 busy threes refl found refl (omega arith)).0)

steps : Reach busy_pool (high_speed_delete_sess queued_pool 500 queued)
steps =
    next
      (next here (
        data_message true (record { segment = true; block = some threes }) 700 5 2 threes process_ok
          (data_queued busy_pool threes 700 5 2 500 busy threes refl found refl (omega arith)).2))
      (delete 500 queued refl refl)

Reach-IsLinked_example : IsLinked (high_speed_delete_sess queued_pool 500 queued)
Reach-IsLinked_example = Reach-IsLinked steps busy_pool-IsLinked
