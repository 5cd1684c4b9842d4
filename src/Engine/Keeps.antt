-- ===== src/Engine/Keeps.antt =====
-- Each operation of src/session_pool.c and src/backend_proto.c on the pool keeps the queues of active sessions
-- and the sessions' flags in agreement.
use high_speed_cproxy.Base.{
  ℕ, ◌≡◌, ◌≢◌, ℕ_discrete, refl, sym, ap, ◌∙◌, Bool, true, false, Option, none, some, List, [], ◌∷◌,
  ◌++◌, arith, if◌then◌else◌, update,
}
use high_speed_cproxy.Memory.{Memory}
use high_speed_cproxy.Selector.{Ret, process_ok, process_error}
use high_speed_cproxy.Pool.{SessMsgSeg, BackendSession, BackendSessionPool, link_to_queue}
use high_speed_cproxy.Pool.Nodes.{count}
use high_speed_cproxy.Pool.Links.{
  times, times_f2b, times_b2f, link_sets, IsLinked, linked_f2b, kept_b2f, linked_b2f, kept_f2b,
}
use high_speed_cproxy.Pool.Create.{SessMsgPara, filled}
use high_speed_cproxy.Pool.Create.Failure.{IsClean}
use high_speed_cproxy.Pool.Create.Success.{IsCreated}
use high_speed_cproxy.Pool.Table.{high_speed_search_sess}
use high_speed_cproxy.Pool.Table.Delete.{IsUnused}
use high_speed_cproxy.Transfer.Receive.{Round, nns_loop, nns_done, high_speed_data_process_nns}
use high_speed_cproxy.Handler.{
  Mallocs, dynamic_alloc, sess_msg_seg_alloc, copied, queue_data, segment_made, session_found,
  backend_proxy_data_msg_process,
}

-- A pool in a result.
abbrev pub Keeps : Option (Ret × BackendSessionPool) → Type 0
Keeps none = Unit
Keeps (some (ret, q)) = IsLinked q

-- The pool with what high_speed_data_process_nns has made of a session and the pool's queue.
abbrev pub with_nns :
    BackendSessionPool
    → (addr : ℕ) → Option (Ret × BackendSession × List ℕ)
    → Option (Ret × BackendSessionPool)
with_nns p addr none = none
with_nns p addr (some (ret, sess, queue)) =
    some (ret, record p { queue_b2f = queue; heap = update p.heap addr (some sess) })

module _ (p : BackendSessionPool) (l : IsLinked p) where
  queue_data-IsLinked :
      (addr : ℕ) (sess : BackendSession) (seg : SessMsgSeg)
      → p.heap addr ≡ some sess
      → IsLinked (queue_data p addr sess seg)
  unfolding queue_data
  queue_data-IsLinked addr sess seg live = record {
    f2b =
        linked_f2b p addr sess l live
          (some (record sess {
            msg_f2b = sess.msg_f2b ++ (seg ∷ []);
            state_f2b = (link_to_queue p.queue_f2b addr sess.state_f2b).1;
          }))
          (ap times (link_sets p.queue_f2b addr sess.state_f2b));
    b2f =
        kept_b2f p addr sess l live
          (some (record sess {
            msg_f2b = sess.msg_f2b ++ (seg ∷ []);
            state_f2b = (link_to_queue p.queue_f2b addr sess.state_f2b).1;
          }))
          refl;
  }

  -- The result does not look at the heap before it is known to be live.
  live-Keeps :
      (o : Option BackendSession) (f : BackendSession → Ret × BackendSessionPool)
      → ((sess : BackendSession) → o ≡ some sess → IsLinked (f sess).1)
      → Keeps (elim o [ none ↦ none | some sess ↦ some (f sess) ])
  live-Keeps none f h = tt
  live-Keeps (some sess) f h = h sess refl

  segment_made-Keeps :
      (addr n : ℕ) (msg : Memory) (o : Option SessMsgSeg) → Keeps (segment_made p addr n msg o)
  unfolding segment_made
  segment_made-Keeps addr n msg none = l
  segment_made-Keeps addr n msg (some seg) =
      live-Keeps (p.heap addr) (λ sess. (process_ok, queue_data p addr sess (copied seg n msg)))
        (λ sess e. queue_data-IsLinked addr sess (copied seg n msg) e)

  session_found-Keeps :
      (mem_pool : Bool) (mallocs : Mallocs) (n : ℕ) (msg : Memory) (o : Option ℕ)
      → Keeps (session_found p mem_pool mallocs n msg o)
  unfolding session_found
  session_found-Keeps mem_pool mallocs n msg none = l
  session_found-Keeps mem_pool mallocs n msg (some addr) =
      segment_made-Keeps addr n msg (sess_msg_seg_alloc n dynamic_alloc (some msg) mem_pool mallocs)

  pub data-Keeps :
      (mem_pool : Bool) (mallocs : Mallocs) (f b n : ℕ) (msg : Memory)
      → Keeps (backend_proxy_data_msg_process mem_pool mallocs p f b n msg)
  unfolding backend_proxy_data_msg_process
  data-Keeps mem_pool mallocs f b n msg =
      go p.wired mem_pool (session_found p mem_pool mallocs n msg (high_speed_search_sess p b))
        (session_found-Keeps mem_pool mallocs n msg (high_speed_search_sess p b))
    where
      go :
          (w m : Bool) (o : Option (Ret × BackendSessionPool))
          → Keeps o
          → Keeps
              (if w then (if m then o else some (process_error, p)) else some (process_error, p))
      go false m o h = l
      go true false o h = l
      go true true o h = h

  nns_done-Keeps :
      (addr : ℕ) (sess : BackendSession) (o : Option (Ret × List SessMsgSeg × Bool))
      → p.heap addr ≡ some sess
      → Keeps (with_nns p addr (nns_done p.queue_b2f addr sess o))
  unfolding nns_done
  nns_done-Keeps addr sess none live = tt
  nns_done-Keeps addr sess (some (ret, segs, true)) live =
      let v = some (record sess {
        msg_b2f = segs;
        state_b2f = (link_to_queue p.queue_b2f addr sess.state_b2f).1;
      }) in
      record {
        f2b = kept_f2b p addr sess l live v refl;
        b2f =
            linked_b2f p addr sess l live v (ap times (link_sets p.queue_b2f addr sess.state_b2f));
      }
  nns_done-Keeps addr sess (some (ret, segs, false)) live = record {
    f2b = kept_f2b p addr sess l live (some (record sess { msg_b2f = segs })) refl;
    b2f = kept_b2f p addr sess l live (some (record sess { msg_b2f = segs })) refl;
  }

  pub nns-Keeps :
      (addr : ℕ) (sess : BackendSession) (available : Option ℕ) (rounds : List Round)
      → p.heap addr ≡ some sess
      → Keeps (with_nns p addr (high_speed_data_process_nns p.queue_b2f addr sess available rounds))
  unfolding high_speed_data_process_nns
  nns-Keeps addr sess none rounds live = record {
    f2b = kept_f2b p addr sess l live (some sess) refl;
    b2f = kept_b2f p addr sess l live (some sess) refl;
  }
  nns-Keeps addr sess (some n) rounds live =
      nns_done-Keeps addr sess
        (nns_loop sess.frontend_sess_id sess.backend_sess_id n sess.msg_b2f rounds) live

  pub clean-IsLinked : (q : BackendSessionPool) (para : SessMsgPara) → IsClean p q para → IsLinked q
  clean-IsLinked q para c = record {
    f2b = λ a. ap (count a) c.queue_f2b ∙ l.f2b a ∙ ap (λ h. times_f2b (h a)) (sym c.heap);
    b2f = λ a. ap (count a) c.queue_b2f ∙ l.b2f a ∙ ap (λ h. times_b2f (h a)) (sym c.heap);
  }

  module _ (q : BackendSessionPool) (para : SessMsgPara) (addr id d fd node : ℕ)
      (raw : BackendSession) (rest nodes : List ℕ)
      (c : IsCreated p para addr id d fd node raw rest nodes q)
      (u : IsUnused p addr d node raw) where
    created_other : (a : ℕ) → a ≢ addr → q.heap a ≡ p.heap a
    created_other a ne = sym (aside q.heap) ∙ ap (λ h. h a) c.heap_rest ∙ aside p.heap
      where
        aside : (f : ℕ → Option BackendSession) → update f addr none a ≡ f a
        aside f = ground (arith, ne)

    created_here : (times_f2b (q.heap addr) ≡ 0) × (times_b2f (q.heap addr) ≡ 0)
    unfolding filled
    created_here =
        (ap times_f2b c.stored ∙ ap times u.f2b_clear, ap times_b2f c.stored ∙ ap times u.b2f_clear)

    pub created-IsLinked : IsLinked q
    created-IsLinked = record {
      f2b = λ a. ap (count a) c.queue_f2b ∙ l.f2b a ∙ elim (ℕ_discrete a addr) [
        | yes e ↦
            ap (λ b. times_f2b (p.heap b)) e
            ∙ ap times_f2b u.free_heap
            ∙ sym created_here.0
            ∙ ap (λ b. times_f2b (q.heap b)) (sym e)
        | no ne ↦ ap times_f2b (sym (created_other a ne))
      ];
      b2f = λ a. ap (count a) c.queue_b2f ∙ l.b2f a ∙ elim (ℕ_discrete a addr) [
        | yes e ↦
            ap (λ b. times_b2f (p.heap b)) e
            ∙ ap times_b2f u.free_heap
            ∙ sym created_here.1
            ∙ ap (λ b. times_b2f (q.heap b)) (sym e)
        | no ne ↦ ap times_b2f (sym (created_other a ne))
      ];
    }
