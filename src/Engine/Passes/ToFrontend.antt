-- ===== src/Engine/Passes/ToFrontend.antt =====
-- The fourth step of engine_run_hyperamp of src/engine.c: the messages of the sessions reach the frontend's queue in
-- order, across sessions, and none is lost.
use mathlib.Core.List.{append-nil}
use high_speed_cproxy.Base.{
  ℕ, suc, ◌≤◌, ◌≡◌, inl, inr, refl, ap, ◌∙◌, true, Option, none, some, List, [], ◌∷◌, ◌++◌, map,
  arith,
}
use high_speed_cproxy.Shm.{Shm}
use high_speed_cproxy.Shm.Fifo.{Rep}
use high_speed_cproxy.Selector.{Ret, process_ok, process_error, process_again}
use high_speed_cproxy.Pool.{SessMsgSeg, BackendSession, BackendSessionPool}
use high_speed_cproxy.Pool.Nodes.{count}
use high_speed_cproxy.Pool.Links.{times_b2f, IsLinked}
use high_speed_cproxy.Transfer.{high_speed_data_process_b2f}
use high_speed_cproxy.Transfer.Drain.{message, IsDrained, b2f_drains}
use high_speed_cproxy.Engine.Passes.{b2f_done, b2f_pass}
use high_speed_cproxy.Engine.Passes.Pending.{
  AllFit, ok_pool, again_pool, ok-IsLinked, again-IsPassed, ok-IsPassed, to_come, still_fit,
  IsPassed,
}

-- The session that is to come is linked.
next_flag :
    (p : BackendSessionPool) (x : ℕ) (n : ℕ)
    → suc n ≤ count x p.queue_b2f
    → IsLinked p
    → (sess : BackendSession) × (p.heap x ≡ some sess) × (sess.state_b2f ≡ true) × (n ≡ 0)
next_flag p x n h l = go (p.heap x) refl
  where
    go :
        (o : Option BackendSession)
        → p.heap x ≡ o
        → (sess : BackendSession) × (p.heap x ≡ some sess) × (sess.state_b2f ≡ true) × (n ≡ 0)
    go none e = absurd (omega (arith, h, l.b2f x, ap times_b2f e))
    go (some sess) e = (
      sess,
      e,
      ground (arith, h, l.b2f x, ap times_b2f e),
      ground (arith, h, l.b2f x, ap times_b2f e),
    )

module _ (base : ℕ) where
  abbrev Passes : Shm → List (List ℕ) → List ℕ → BackendSessionPool → Type 0
  Passes s ms todo p =
      (q : BackendSessionPool) × (s' : Shm) × (b2f_pass s base p todo ≡ some (q, s'))
      × IsPassed base s' ms p q todo

  round :
      (s : Shm) (p : BackendSessionPool) (x : ℕ) (todo : List ℕ) (sess : BackendSession) (ret : Ret)
      (left : List SessMsgSeg) (s₁ : Shm)
      → p.heap x ≡ some sess
      → high_speed_data_process_b2f s base sess.msg_b2f ≡ some (ret, left, s₁)
      → b2f_pass s base p (x ∷ todo) ≡ elim ret [
        | process_again ↦ some (b2f_done p x sess process_again left, s₁)
        | other ↦ b2f_pass s₁ base (b2f_done p x sess other left) todo
      ]
  unfolding b2f_pass
  round s p x todo sess ret left s₁ live run = rw (live, b2f_pass) (rw run refl)

  pass_cons :
      (p : BackendSessionPool) (x : ℕ) (todo : List ℕ) (sess : BackendSession) (s s₁ : Shm)
      (ms : List (List ℕ)) (left : List SessMsgSeg) (ret : Ret)
      → IsLinked p
      → p.heap x ≡ some sess
      → sess.state_b2f ≡ true
      → count x todo ≡ 0
      → AllFit s.block_size p.heap
      → ((a : ℕ) → count a (x ∷ todo) ≤ count a p.queue_b2f)
      → high_speed_data_process_b2f s base sess.msg_b2f ≡ some (ret, left, s₁)
      → IsDrained base s s₁ ms sess.msg_b2f left ret
      → ((s : Shm) (ms : List (List ℕ)) (p : BackendSessionPool)
          → Rep base s ms
          → IsLinked p
          → AllFit s.block_size p.heap
          → ((a : ℕ) → count a todo ≤ count a p.queue_b2f)
          → Passes s ms todo p)
      → Passes s ms (x ∷ todo) p
  unfolding ok_pool again_pool
  pass_cons p x todo sess s s₁ ms left process_ok l live flag once f h run d rest =
      let done : left ≡ [] = elim d.outcome [
        | inl h ↦ h.1
        | inr h ↦ absurd (ground (arith, h.0))
      ] in
      let (q, s', go, r) =
        rest s₁ (ms ++ map message d.taken)
          (ok_pool p x todo sess l live flag once base s s₁ ms left) d.rep
          (ok-IsLinked p x todo sess l live flag once base s s₁ ms left)
          (still_fit p x todo sess l live flag once base s s₁ ms left done f d.block)
          (to_come p x todo sess l live flag once base s s₁ ms left h) in
      (
        q,
        s',
        round s p x todo sess process_ok left s₁ live run ∙ go,
        ok-IsPassed p x todo sess l live flag once base s s₁ ms left s' q d r,
      )
  pass_cons p x todo sess s s₁ ms left process_error l live flag once f h run d rest =
      absurd (elim d.outcome [
        | inl h ↦ absurd (ground (arith, h.0))
        | inr h ↦ absurd (ground (arith, h.0))
      ])
  pass_cons p x todo sess s s₁ ms left process_again l live flag once f h run d rest = (
    again_pool p x todo sess l live flag once base s s₁ ms left,
    s₁,
    round s p x todo sess process_again left s₁ live run,
    again-IsPassed p x todo sess l live flag once base s s₁ ms left d,
  )

  pass_lem :
      (todo : List ℕ) (s : Shm) (ms : List (List ℕ)) (p : BackendSessionPool)
      → Rep base s ms
      → IsLinked p
      → AllFit s.block_size p.heap
      → ((a : ℕ) → count a todo ≤ count a p.queue_b2f)
      → Passes s ms todo p
  unfolding b2f_pass
  pass_lem [] s ms p r l f h = (
    p,
    s,
    refl,
    record {
      taken = [];
      rep = rw (append-nil ms) r;
      order = refl;
      linked = l;
      others = λ a n. refl;
      outcome = inl refl;
    },
  )
  pass_lem (x ∷ todo) s ms p r l f h =
      let (sess, live, flag, once) = next_flag p x (count x todo) (ground (arith, h x)) l in
      let (ret, left, s₁, run, d) = b2f_drains base s ms sess.msg_b2f r (f x sess live) in
      pass_cons p x todo sess s s₁ ms left ret l live flag once f h run d (pass_lem todo)

-- From a valid queue, for a pool whose queues and flags agree and whose segments for the frontend all have 1 to
-- block_size bytes, the fourth step of engine_run_hyperamp ends. The messages of the sessions in the pool's queue,
-- one session after the other, are those that have joined the frontend's queue, in order, followed by those that the
-- sessions still have, and something is left only if the frontend's queue is full. Every session
-- that was not in the pool's queue is as it was, and queues and flags agree again.
pub b2f_pass_drains :
    (base : ℕ) (s : Shm) (ms : List (List ℕ)) (p : BackendSessionPool)
    → Rep base s ms
    → IsLinked p
    → AllFit s.block_size p.heap
    → (q : BackendSessionPool) × (s' : Shm) × (b2f_pass s base p p.queue_b2f ≡ some (q, s'))
      × IsPassed base s' ms p q p.queue_b2f
b2f_pass_drains base s ms p r l f = pass_lem base p.queue_b2f s ms p r l f (λ a. omega arith)
