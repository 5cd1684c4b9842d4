-- ===== src/Engine/Passes/ToSockets.antt =====
-- The second step of engine_run_hyperamp of src/engine.c serves each session of its queue once, and keeps the queue
-- and the sessions' flags in agreement.
use high_speed_cproxy.Base.{
  ℕ, suc, ◌≤◌, ◌≡◌, ◌≢◌, refl, sym, ap, ap₂, subst, ◌∙◌, true, false, Option, none, some, ◌>>=◌,
  List, [], ◌∷◌, arith, ◌==◌, if◌then◌else◌, update, remove, ℕ_discrete,
}
use high_speed_cproxy.Selector.{Ret, process_ok, process_error, process_again}
use high_speed_cproxy.Pool.{SessMsgSeg, BackendSession, BackendSessionPool, unlink_from_queue}
use high_speed_cproxy.Pool.Nodes.{count}
use high_speed_cproxy.Pool.Links.{
  times_f2b, times_b2f, IsLinked, count-remove_eq, count-unlink, here_f2b, kept_f2b, kept_b2f,
  removed_f2b, unlinked_b2f,
}
use high_speed_cproxy.Pool.Table.Queues.{delete-IsDeleted}
use high_speed_cproxy.Transfer.{high_speed_data_process_f2b}
use high_speed_cproxy.Engine.Passes.{Socket, f2b_done, f2b_pass}

-- What becomes of a session: sent and out of the queue, deleted, or with segments left for the next time.
abbrev pub settled : BackendSession → Ret → (left : List SessMsgSeg) → Option BackendSession
settled sess process_ok left = some (record sess { msg_f2b = left; state_f2b = false })
settled sess process_error left = none
settled sess process_again left = some (record sess { msg_f2b = left })

-- data_process_f2b for a session, with its socket.
abbrev pub process : Socket → BackendSession → Ret × List SessMsgSeg × List SessMsgSeg
process socket sess = high_speed_data_process_f2b socket.send socket.buf_size sess.msg_f2b

abbrev pub served : Socket → Option BackendSession → Option BackendSession
served socket none = none
served socket (some sess) = settled sess (process socket sess).0 (process socket sess).1

-- What each of the sessions hands to its socket.
abbrev pub sent_by : Socket → Option BackendSession → List SessMsgSeg
sent_by socket none = []
sent_by socket (some sess) = (process socket sess).2

abbrev pub log_of : (ℕ → Socket) → (ℕ → Option BackendSession) → List ℕ → List (ℕ × List SessMsgSeg)
log_of sockets heap [] = []
log_of sockets heap (a ∷ todo) = (a, sent_by (sockets a) (heap a)) ∷ log_of sockets heap todo

log_of-agree :
    (sockets : ℕ → Socket) (h k : ℕ → Option BackendSession) (todo : List ℕ)
    → ((a : ℕ) → count a todo ≢ 0 → h a ≡ k a)
    → log_of sockets h todo ≡ log_of sockets k todo
log_of-agree sockets h k [] e = refl
log_of-agree sockets h k (x ∷ todo) e =
    ap₂ (λ v l. (x, sent_by (sockets x) v) ∷ l) (e x (λ z. absurd (ground (arith, z))))
      (log_of-agree sockets h k todo (λ a n. e a (λ z. n (ground (arith, z)))))

update_if :
    (f : ℕ → Option BackendSession) (k : ℕ) (v : Option BackendSession) (a : ℕ)
    → update f k v a ≡ (if a == k then v else f a)
update_if f k v a = ground arith

module _ (p : BackendSessionPool) (addr : ℕ) (sess : BackendSession) (l : IsLinked p)
    (live : p.heap addr ≡ some sess) (flag : sess.state_f2b ≡ true) (left : List SessMsgSeg) where
  error_pool : BackendSessionPool
  error_pool = record p {
    queue_f2b = remove addr p.queue_f2b;
    heap = update p.heap addr (some (record sess { msg_f2b = left }));
  }

  f2b_done-heap :
      (ret : Ret) (a : ℕ)
      → (f2b_done p addr sess ret left).heap a
        ≡ (if a == addr then settled sess ret left else p.heap a)
  unfolding f2b_done error_pool
  f2b_done-heap process_ok a = ground arith
  f2b_done-heap process_error a =
      ap (λ h. h a) (delete-IsDeleted error_pool addr (record sess { msg_f2b = left })).heap
      ∙ ground arith
  f2b_done-heap process_again a = ground arith

  same : (a : ℕ) → update p.heap addr none a ≡ (f2b_done p addr sess process_error left).heap a
  same a = update_if p.heap addr none a ∙ sym (f2b_done-heap process_error a)

  twice :
      (a : ℕ)
      → count a (unlink_from_queue (remove addr p.queue_f2b) addr sess.state_f2b).0
        ≡ times_f2b (update p.heap addr none a)
  twice a = ground (
    arith,
    count-unlink a addr sess.state_f2b (remove addr p.queue_f2b),
    count-remove_eq a addr p.queue_f2b,
    here_f2b p addr sess l live,
    l.f2b a,
    flag,
  )

  f2b_done-IsLinked : (ret : Ret) → IsLinked (f2b_done p addr sess ret left)
  unfolding f2b_done error_pool unlink_from_queue
  f2b_done-IsLinked process_ok = record {
    f2b =
        removed_f2b p addr sess l live flag
          (some (record sess { msg_f2b = left; state_f2b = false })) refl;
    b2f =
        kept_b2f p addr sess l live (some (record sess { msg_f2b = left; state_f2b = false })) refl;
  }
  f2b_done-IsLinked process_error =
      let d = delete-IsDeleted error_pool addr (record sess { msg_f2b = left }) in
      record {
        f2b = λ a. ap (count a) d.queue_f2b ∙ twice a ∙ ap times_f2b (same a);
        b2f = λ a.
            ap (count a) d.queue_b2f
            ∙ unlinked_b2f p addr sess l live none refl a
            ∙ ap times_b2f (same a);
      }
  f2b_done-IsLinked process_again = record {
    f2b = kept_f2b p addr sess l live (some (record sess { msg_f2b = left })) refl;
    b2f = kept_b2f p addr sess l live (some (record sess { msg_f2b = left })) refl;
  }

module _ (sockets : ℕ → Socket) where
  -- The sessions that are to come are linked.
  next_flag :
      (p : BackendSessionPool) (x : ℕ) (n : ℕ)
      → suc n ≤ count x p.queue_f2b
      → IsLinked p
      → (sess : BackendSession) × (p.heap x ≡ some sess) × (sess.state_f2b ≡ true) × (n ≡ 0)
  next_flag p x n h l = go (p.heap x) refl
    where
      go :
          (o : Option BackendSession)
          → p.heap x ≡ o
          → (sess : BackendSession) × (p.heap x ≡ some sess) × (sess.state_f2b ≡ true) × (n ≡ 0)
      go none e = absurd (omega (arith, h, l.f2b x, ap times_f2b e))
      go (some sess) e = (
        sess,
        e,
        ground (arith, h, l.f2b x, ap times_f2b e),
        ground (arith, h, l.f2b x, ap times_f2b e),
      )

  abbrev Served : List ℕ → BackendSessionPool → Type 0
  Served todo p =
      (q : BackendSessionPool) × (f2b_pass sockets p todo ≡ some (q, log_of sockets p.heap todo))
      × IsLinked q
      × ((a : ℕ)
          → q.heap a ≡ (if count a todo == 0 then p.heap a else served (sockets a) (p.heap a)))

  module _ (p : BackendSessionPool) (x : ℕ) (todo : List ℕ) (sess : BackendSession) (l : IsLinked p)
      (live : p.heap x ≡ some sess) (flag : sess.state_f2b ≡ true) (once : count x todo ≡ 0) where
    abbrev after : BackendSessionPool
    after = f2b_done p x sess (process (sockets x) sess).0 (process (sockets x) sess).1

    after-heap :
        (a : ℕ) → after.heap a ≡ (if a == x then served (sockets x) (p.heap x) else p.heap a)
    after-heap a =
        f2b_done-heap p x sess l live flag (process (sockets x) sess).1 (process (sockets x) sess).0
          a
        ∙ ap (λ v. if a == x then v else p.heap a) (ap (served (sockets x)) (sym live))

    after-IsLinked : IsLinked after
    after-IsLinked =
        f2b_done-IsLinked p x sess l live flag (process (sockets x) sess).1
          (process (sockets x) sess).0

    other_heap : (a : ℕ) → a ≢ x → after.heap a ≡ p.heap a
    other_heap a ne = after-heap a ∙ if_other a ne
      where
        if_other :
            (a : ℕ)
            → a ≢ x
            → (if a == x then served (sockets x) (p.heap x) else p.heap a) ≡ p.heap a
        if_other a ne = ground (arith, ne)

    to_come :
        ((a : ℕ) → count a (x ∷ todo) ≤ count a p.queue_f2b)
        → (a : ℕ) → count a todo ≤ count a after.queue_f2b
    to_come h a = elim (ℕ_discrete a x) [
      | yes e ↦ omega (arith, ap (λ b. count b todo) e, once)
      | no ne ↦
          let fewer : count a todo ≤ count a p.queue_f2b = ground (arith, ne, h a) in
          omega (arith, fewer, after-IsLinked.f2b a, ap times_f2b (other_heap a ne), l.f2b a)
    ]

    same_log : log_of sockets after.heap todo ≡ log_of sockets p.heap todo
    same_log =
        log_of-agree sockets after.heap p.heap todo
          (λ a n. other_heap a (λ e. n (ap (λ b. count b todo) e ∙ once)))

    round : f2b_pass sockets p (x ∷ todo) ≡ (
        f2b_pass sockets after todo >>= (λ r. some (r.0, (x, (process (sockets x) sess).2) ∷ r.1)))
    unfolding f2b_pass
    round = rw (live, f2b_pass) refl

    Served-cons : Served todo after → Served (x ∷ todo) p
    unfolding f2b_pass
    Served-cons (q, run, lq, heap) = (
      q,
      round
          ∙ ap (λ o. o >>= (λ r. some (r.0, (x, (process (sockets x) sess).2) ∷ r.1))) run
          ∙ ap₂ (λ sent log. some (q, (x, sent) ∷ log)) (ap (sent_by (sockets x)) (sym live))
              same_log,
      lq,
      λ a. elim (ℕ_discrete a x) [
        | yes e ↦
            subst
              (λ b.
                q.heap b
                ≡ (if count b (x ∷ todo) == 0 then p.heap b else served (sockets b) (p.heap b)))
              (sym e) (ground (arith, heap x, after-heap x, once))
        | no ne ↦
            heap a
            ∙ ap (λ v. if count a todo == 0 then v else served (sockets a) v) (other_heap a ne)
            ∙ ground (arith, ne)
      ],
    )

  pass_lem :
      (todo : List ℕ) (p : BackendSessionPool)
      → IsLinked p
      → ((a : ℕ) → count a todo ≤ count a p.queue_f2b)
      → Served todo p
  unfolding f2b_pass
  pass_lem [] p l h = (p, refl, l, λ a. refl)
  pass_lem (x ∷ todo) p l h =
      let (sess, live, flag, once) = next_flag p x (count x todo) (ground (arith, h x)) l in
      Served-cons p x todo sess l live flag once (
        pass_lem todo (after p x todo sess l live flag once)
          (after-IsLinked p x todo sess l live flag once)
          (to_come p x todo sess l live flag once h))

-- In a pool whose queues and flags agree, the second step of engine_run_hyperamp ends. Each session of the queue has
-- had its segments handed to its socket once, in the order of the queue, as high_speed_data_process_f2b hands
-- them on, and is then by its result: out of the queue with the segments left over, deleted, or still in the queue with
-- the segments left over. Every other session is as it was, and queues and flags agree again.
pub f2b_pass_serves :
    (sockets : ℕ → Socket) (p : BackendSessionPool)
    → IsLinked p
    → (q : BackendSessionPool) × (f2b_pass sockets p p.queue_f2b
        ≡ some (q, log_of sockets p.heap p.queue_f2b))
      × IsLinked q
      × ((a : ℕ)
          → q.heap a
            ≡ (if count a p.queue_f2b == 0 then p.heap a else served (sockets a) (p.heap a)))
f2b_pass_serves sockets p l = pass_lem sockets p.queue_f2b p l (λ a. omega arith)
