-- ===== src/Engine/Reach.antt =====
-- The pool between the operations that src/engine.c runs on it: a step for each, in any order.
use high_speed_cproxy.Base.{
  ℕ, ◌≡◌, sym, ap, subst, ◌∙◌, Bool, true, false, Option, none, some, List,
}
use high_speed_cproxy.Memory.{Memory}
use high_speed_cproxy.Shm.{Shm}
use high_speed_cproxy.Shm.Fifo.{Rep}
use high_speed_cproxy.Selector.{Ret}
use high_speed_cproxy.Pool.{SessMsgSeg, BackendSession, BackendSessionPool}
use high_speed_cproxy.Pool.Links.{IsLinked, delete-IsLinked}
use high_speed_cproxy.Pool.Create.{SessMsgPara, Answers, high_speed_create_sess_active}
use high_speed_cproxy.Pool.Create.Clean.{IsReady}
use high_speed_cproxy.Pool.Create.GiveBack.{create_fails_clean}
use high_speed_cproxy.Pool.Create.Success.{IsSmooth, create_succeeds}
use high_speed_cproxy.Pool.Table.{high_speed_delete_sess}
use high_speed_cproxy.Pool.Table.Delete.{IsUnused}
use high_speed_cproxy.Transfer.Receive.{Round, high_speed_data_process_nns}
use high_speed_cproxy.Handler.{Mallocs, backend_proxy_data_msg_process}
use high_speed_cproxy.Engine.Passes.{Socket, f2b_pass, b2f_pass}
use high_speed_cproxy.Engine.Passes.ToSockets.{f2b_pass_serves}
use high_speed_cproxy.Engine.Passes.Pending.{AllFit}
use high_speed_cproxy.Engine.Passes.ToFrontend.{b2f_pass_drains}
use high_speed_cproxy.Engine.Keeps.{
  Keeps, with_nns, data-Keeps, nns-Keeps, clean-IsLinked, created-IsLinked,
}

-- One operation on the pool: a data message of the frontend, data from a session's socket, the two passes, and the
-- creation and deletion of a session, each with the result that its function returns.
pub data Step : BackendSessionPool → BackendSessionPool → Type 0 where
  data_message :
      {p q : BackendSessionPool} (mem_pool : Bool) (mallocs : Mallocs) (f b n : ℕ) (msg : Memory)
      (ret : Ret)
      → backend_proxy_data_msg_process mem_pool mallocs p f b n msg ≡ some (ret, q)
      → Step p q
  socket_data :
      {p q : BackendSessionPool} (addr : ℕ) (sess : BackendSession) (available : Option ℕ)
      (rounds : List Round) (ret : Ret)
      → p.heap addr ≡ some sess
      → with_nns p addr (high_speed_data_process_nns p.queue_b2f addr sess available rounds)
        ≡ some (ret, q)
      → Step p q
  to_sockets :
      {p q : BackendSessionPool} (sockets : ℕ → Socket) (log : List (ℕ × List SessMsgSeg))
      → f2b_pass sockets p p.queue_f2b ≡ some (q, log)
      → Step p q
  to_frontend :
      {p q : BackendSessionPool} (base : ℕ) (s s' : Shm) (ms : List (List ℕ))
      → Rep base s ms
      → AllFit s.block_size p.heap
      → b2f_pass s base p p.queue_b2f ≡ some (q, s')
      → Step p q
  delete :
      {p q : BackendSessionPool} (addr : ℕ) (sess : BackendSession)
      → p.heap addr ≡ some sess
      → high_speed_delete_sess p addr sess ≡ q
      → Step p q
  create :
      {p q : BackendSessionPool} (para : SessMsgPara) (a : Answers) (addr id d ns fd node : ℕ)
      (raw : BackendSession) (rest nodes : List ℕ)
      → IsSmooth p para a addr id d ns fd node raw rest nodes
      → a.sent_ok ≡ true
      → IsUnused p addr d node raw
      → high_speed_create_sess_active p para a ≡ some (true, q)
      → Step p q
  create_fails :
      {p q : BackendSessionPool} (para : SessMsgPara) (a : Answers)
      → IsReady p a
      → high_speed_create_sess_active p para a ≡ some (false, q)
      → Step p q

pub data Reach (p : BackendSessionPool) : BackendSessionPool → Type 0 where
  here : Reach p p
  next : {q r : BackendSessionPool} → Reach p q → Step q r → Reach p r

-- Two results of the same call.
same_pool {ℓ} :
    {A : Type ℓ} (o : Option (BackendSessionPool × A)) (q r : BackendSessionPool) (x y : A)
    → o ≡ some (q, x)
    → o ≡ some (r, y)
    → q ≡ r
same_pool o q r x y e f = cc

Step-IsLinked : {p q : BackendSessionPool} → Step p q → IsLinked p → IsLinked q
Step-IsLinked (data_message mem_pool mallocs f b n msg ret e) l =
    subst Keeps e (data-Keeps _ l mem_pool mallocs f b n msg)
Step-IsLinked (socket_data addr sess available rounds ret live e) l =
    subst Keeps e (nns-Keeps _ l addr sess available rounds live)
Step-IsLinked {p} {q} (to_sockets sockets log e) l =
    let (r, run, lr, heap) = f2b_pass_serves sockets p l in
    subst IsLinked (same_pool (f2b_pass sockets p p.queue_f2b) r q _ log run e) lr
Step-IsLinked {p} {q} (to_frontend base s s' ms r f e) l =
    let (r, s₂, run, passed) = b2f_pass_drains base s ms p r l f in
    subst IsLinked (same_pool (b2f_pass s base p p.queue_b2f) r q s₂ s' run e) passed.linked
Step-IsLinked {p} (delete addr sess live e) l =
    subst IsLinked e (delete-IsLinked p addr sess l live)
Step-IsLinked {p} {q} (create para a addr id d ns fd node raw rest nodes h sent u e) l =
    let (r, run, c) = create_succeeds p para a addr id d ns fd node raw rest nodes h sent in
    subst IsLinked (ap (λ o. pool_of p o) (sym run ∙ e))
      (created-IsLinked p l r para addr id d fd node raw rest nodes c u)
  where
    pool_of : BackendSessionPool → Option (Bool × BackendSessionPool) → BackendSessionPool
    pool_of p none = p
    pool_of p (some r) = r.1
Step-IsLinked {p} {q} (create_fails para a h e) l =
    clean-IsLinked p l q para (create_fails_clean p para a q h e)

-- However a pool came about from one whose queues and flags agree, by data messages, data from sockets, passes to the
-- sockets, passes to a valid frontend's queue with segments that fit, deletions of live sessions, and creations that
-- either fail at any stage before a response that is passed on, or succeed with an unused block whose flags are clear: a session
-- stands in a queue of active sessions exactly once if it is live with its flag set, and otherwise not at all.
pub Reach-IsLinked : {p q : BackendSessionPool} → Reach p q → IsLinked p → IsLinked q
Reach-IsLinked here l = l
Reach-IsLinked (next r st) l = Step-IsLinked st (Reach-IsLinked r l)
