-- ===== src/Pool/Links.antt =====
-- The invariant of the two queues of active sessions of src/session_pool.c: a session stands in a queue exactly
-- when its flag for that queue is set (include/session.h).
use high_speed_cproxy.Base.{
  ℕ, suc, ◌-◌, ◌≡◌, refl, sym, ap, ◌∙◌, Bool, true, false, Option, none, some, List, [], ◌∷◌, arith,
  ◌==◌, if◌then◌else◌, update, remove, ℕ_discrete,
}
use high_speed_cproxy.Pool.{BackendSession, BackendSessionPool, link_to_queue, unlink_from_queue}
use high_speed_cproxy.Pool.Nodes.{count, count-append}
use high_speed_cproxy.Pool.Table.{high_speed_delete_sess}
use high_speed_cproxy.Pool.Table.Queues.{delete-IsDeleted}

-- How often a session with this flag stands in a queue.
abbrev pub times : Bool → ℕ
times true = 1
times false = 0

abbrev pub times_f2b : Option BackendSession → ℕ
times_f2b none = 0
times_f2b (some sess) = times sess.state_f2b

abbrev pub times_b2f : Option BackendSession → ℕ
times_b2f none = 0
times_b2f (some sess) = times sess.state_b2f

-- Every live session with its flag set stands once in the queue, and nothing else stands there.
pub record IsLinked (p : BackendSessionPool) : Type 0 where
  pub f2b : (a : ℕ) → count a p.queue_f2b ≡ times_f2b (p.heap a)
  pub b2f : (a : ℕ) → count a p.queue_b2f ≡ times_b2f (p.heap a)

pub count-remove_eq :
    (a b : ℕ) (q : List ℕ) → count a (remove b q) ≡ (if a == b then count a q - 1 else count a q)
count-remove_eq a b [] = ground arith
count-remove_eq a b (x ∷ q) = ground (arith, count-remove_eq a b q)

pub link_sets : (q : List ℕ) (addr : ℕ) (flag : Bool) → (link_to_queue q addr flag).1 ≡ true
unfolding link_to_queue
link_sets q addr true = refl
link_sets q addr false = refl

pub count-link :
    (a addr : ℕ) (flag : Bool) (q : List ℕ)
    → count a (link_to_queue q addr flag).0
      ≡ (if a == addr then (if flag then count a q else suc (count a q)) else count a q)
unfolding link_to_queue
count-link a addr true q = ground arith
count-link a addr false q = ground (arith, count-append a q (addr ∷ []))

pub count-unlink :
    (a addr : ℕ) (flag : Bool) (q : List ℕ)
    → count a (unlink_from_queue q addr flag).0
      ≡ (if a == addr then (if flag then count a q - 1 else count a q) else count a q)
unfolding unlink_from_queue
count-unlink a addr true q = count-remove_eq a addr q
count-unlink a addr false q = ground arith

-- A session has changed, and its flags and the queues with it.
module _ (p : BackendSessionPool) (addr : ℕ) (sess : BackendSession) (l : IsLinked p)
    (live : p.heap addr ≡ some sess) where
  pub here_f2b : count addr p.queue_f2b ≡ times sess.state_f2b
  here_f2b = l.f2b addr ∙ ap times_f2b live

  pub here_b2f : count addr p.queue_b2f ≡ times sess.state_b2f
  here_b2f = l.b2f addr ∙ ap times_b2f live

  pub kept_f2b :
      (v : Option BackendSession)
      → times_f2b v ≡ times sess.state_f2b
      → (a : ℕ) → count a p.queue_f2b ≡ times_f2b (update p.heap addr v a)
  kept_f2b v e a = elim (ℕ_discrete a addr) [
    | yes h ↦ ground (arith, h, e, here_f2b)
    | no h ↦ ground (arith, h, l.f2b a)
  ]

  pub kept_b2f :
      (v : Option BackendSession)
      → times_b2f v ≡ times sess.state_b2f
      → (a : ℕ) → count a p.queue_b2f ≡ times_b2f (update p.heap addr v a)
  kept_b2f v e a = elim (ℕ_discrete a addr) [
    | yes h ↦ ground (arith, h, e, here_b2f)
    | no h ↦ ground (arith, h, l.b2f a)
  ]

  pub unlinked_f2b :
      (v : Option BackendSession)
      → times_f2b v ≡ 0
      → (a : ℕ)
      → count a (unlink_from_queue p.queue_f2b addr sess.state_f2b).0
        ≡ times_f2b (update p.heap addr v a)
  unlinked_f2b v e a =
      ground (arith, count-unlink a addr sess.state_f2b p.queue_f2b, here_f2b, l.f2b a, e)

  pub unlinked_b2f :
      (v : Option BackendSession)
      → times_b2f v ≡ 0
      → (a : ℕ)
      → count a (unlink_from_queue p.queue_b2f addr sess.state_b2f).0
        ≡ times_b2f (update p.heap addr v a)
  unlinked_b2f v e a =
      ground (arith, count-unlink a addr sess.state_b2f p.queue_b2f, here_b2f, l.b2f a, e)

  pub linked_f2b :
      (v : Option BackendSession)
      → times_f2b v ≡ 1
      → (a : ℕ)
      → count a (link_to_queue p.queue_f2b addr sess.state_f2b).0
        ≡ times_f2b (update p.heap addr v a)
  linked_f2b v e a =
      ground (arith, count-link a addr sess.state_f2b p.queue_f2b, here_f2b, l.f2b a, e)

  pub linked_b2f :
      (v : Option BackendSession)
      → times_b2f v ≡ 1
      → (a : ℕ)
      → count a (link_to_queue p.queue_b2f addr sess.state_b2f).0
        ≡ times_b2f (update p.heap addr v a)
  linked_b2f v e a =
      ground (arith, count-link a addr sess.state_b2f p.queue_b2f, here_b2f, l.b2f a, e)

  -- The session taken out, whose flag is known to be set.
  pub removed_f2b :
      sess.state_f2b ≡ true
      → (v : Option BackendSession) → times_f2b v ≡ 0
      → (a : ℕ) → count a (remove addr p.queue_f2b) ≡ times_f2b (update p.heap addr v a)
  removed_f2b flag v e a =
      ground (arith, count-remove_eq a addr p.queue_f2b, here_f2b, l.f2b a, e, flag)

  pub removed_b2f :
      sess.state_b2f ≡ true
      → (v : Option BackendSession) → times_b2f v ≡ 0
      → (a : ℕ) → count a (remove addr p.queue_b2f) ≡ times_b2f (update p.heap addr v a)
  removed_b2f flag v e a =
      ground (arith, count-remove_eq a addr p.queue_b2f, here_b2f, l.b2f a, e, flag)

  pub delete-IsLinked : IsLinked (high_speed_delete_sess p addr sess)
  delete-IsLinked =
      let d = delete-IsDeleted p addr sess in
      record {
        f2b = λ a.
            ap (count a) d.queue_f2b
            ∙ unlinked_f2b none refl a
            ∙ ap (λ h. times_f2b (h a)) (sym d.heap);
        b2f = λ a.
            ap (count a) d.queue_b2f
            ∙ unlinked_b2f none refl a
            ∙ ap (λ h. times_b2f (h a)) (sym d.heap);
      }
