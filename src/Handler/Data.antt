-- ===== src/Handler/Data.antt =====
-- What backend_proxy_data_msg_process of src/backend_proto.c does to the pool.
use native.Mathlib.Nat.{mod-eq_of_lt}
use high_speed_cproxy.Base.{
  ℕ, ◌%◌, ◌^◌, ◌<◌, ◌≡◌, ◌⊎◌, refl, ap, ◌∙◌, Bool, true, false, Option, none, some, [], ◌∷◌, ◌++◌,
  arith, update, if◌then◌else◌, inl, inr,
}
use high_speed_cproxy.Memory.{Memory, hyperamp_safe_memcpy}
use high_speed_cproxy.Memory.Copy.{Holds, bytes, hyperamp_safe_memcpy-Holds}
use high_speed_cproxy.Selector.{process_ok, process_error}
use high_speed_cproxy.Pool.Links.{link_sets}
use high_speed_cproxy.Pool.{SessMsgSeg, BackendSession, BackendSessionPool, link_to_queue}
use high_speed_cproxy.Pool.Table.{high_speed_search_sess}
use high_speed_cproxy.Handler.{
  Mallocs, dynamic_alloc, sess_msg_seg_alloc, copied, queue_data, segment_made, session_found,
  backend_proxy_data_msg_process,
}

-- A segment with memory of its own that holds the bytes of a message.
abbrev pub segment_of : ℕ → Memory → SessMsgSeg
segment_of data_len buf = record { len = data_len; shared_mem = false; payload = some buf }

-- The pool after a segment has joined a session's queue.
abbrev pub with_segment : BackendSessionPool → ℕ → BackendSession → SessMsgSeg → BackendSessionPool
with_segment p addr sess seg = record p {
  queue_f2b = (link_to_queue p.queue_f2b addr sess.state_f2b).0;
  heap =
      update p.heap addr
        (some (record sess { msg_f2b = sess.msg_f2b ++ (seg ∷ []); state_f2b = true }));
}

queue_data_lem :
    (p : BackendSessionPool) (addr : ℕ) (sess : BackendSession) (seg : SessMsgSeg)
    → queue_data p addr sess seg ≡ with_segment p addr sess seg
unfolding queue_data
queue_data_lem p addr sess seg =
    ap
      (λ s. record p {
        queue_f2b = (link_to_queue p.queue_f2b addr sess.state_f2b).0;
        heap =
            update p.heap addr
              (some (record sess { msg_f2b = sess.msg_f2b ++ (seg ∷ []); state_f2b = s }));
      })
      (link_sets p.queue_f2b addr sess.state_f2b)

-- The two tests that come first.
guarded {ℓ} :
    {A : Type ℓ} (w m : Bool) (r x : A)
    → (w ≡ false) ⊎ (m ≡ false) ⊎ (r ≡ x)
    → (if w then (if m then r else x) else x) ≡ x
guarded false m r x h = refl
guarded true false r x h = refl
guarded true true r x (inl e) = absurd (ground (arith, e))
guarded true true r x (inr (inl e)) = absurd (ground (arith, e))
guarded true true r x (inr (inr e)) = e

no_segment :
    (n : ℕ) (msg : Memory) (mem_pool : Bool) (mallocs : Mallocs)
    → (mallocs.segment ≡ false) ⊎ (mallocs.block ≡ none)
    → sess_msg_seg_alloc n dynamic_alloc (some msg) mem_pool mallocs ≡ none
unfolding sess_msg_seg_alloc
no_segment n msg mem_pool mallocs h = ground (arith, h)

-- For a pool whose operations and memory pool are there, a session in the table that is live, and memory for
-- the segment, backend_proxy_data_msg_process returns BACKEND_PROXY_PROCESS_OK: the message's bytes, all data_len of
-- them, are the last segment of the session's frontend-to-backend queue, the session is linked to the
-- pool's queue, and nothing else in the pool changes.
pub data_queued :
    (p : BackendSessionPool) (block : Memory) (f b n addr : ℕ) (sess : BackendSession)
    (msg : Memory)
    → p.wired ≡ true
    → high_speed_search_sess p b ≡ some addr
    → p.heap addr ≡ some sess
    → n < 2 ^ 16
    → (buf : Memory) × Holds buf 0 (bytes msg 0 n)
      × (backend_proxy_data_msg_process true
            (record { segment = true; block = some block })
            p
            f
            b
            n
            msg
          ≡ some (process_ok, with_segment p addr sess (segment_of n buf)))
unfolding backend_proxy_data_msg_process session_found segment_made sess_msg_seg_alloc copied
data_queued p block f b n addr sess msg w found live small =
    let buf = hyperamp_safe_memcpy block 0 msg 0 n in
    let mallocs : Mallocs = record { segment = true; block = some block } in
    (
      buf,
      hyperamp_safe_memcpy-Holds block 0 msg 0 n,
      ap
            (λ w.
              if w
              then session_found p true mallocs n msg (high_speed_search_sess p b)
              else some (process_error, p))
            w
          ∙ ap (λ o. session_found p true mallocs n msg o) found
          ∙ ap
              (λ o. elim o [
                | none ↦ none
                | some s ↦ some (process_ok, queue_data p addr s (segment_of (n % 2 ^ 16) buf))
              ])
              live
          ∙ ap (λ k. some (process_ok, queue_data p addr sess (segment_of k buf)))
              (mod-eq_of_lt small)
          ∙ ap (λ q. some (process_ok, q)) (queue_data_lem p addr sess (segment_of n buf)),
    )

-- When the operations or the memory pool are missing, the id is not in the table, or either allocation fails,
-- backend_proxy_data_msg_process returns BACKEND_PROXY_PROCESS_ERROR and leaves the pool as it was.
data_refused :
    (p : BackendSessionPool) (mem_pool : Bool) (mallocs : Mallocs) (f b n : ℕ) (msg : Memory)
    → (p.wired ≡ false)
      ⊎ (mem_pool ≡ false)
      ⊎ (high_speed_search_sess p b ≡ none)
      ⊎ (mallocs.segment ≡ false)
      ⊎ (mallocs.block ≡ none)
    → backend_proxy_data_msg_process mem_pool mallocs p f b n msg ≡ some (process_error, p)
unfolding backend_proxy_data_msg_process session_found segment_made
data_refused p mem_pool mallocs f b n msg h =
    guarded p.wired mem_pool (session_found p mem_pool mallocs n msg (high_speed_search_sess p b))
      (some (process_error, p))
      (elim h [
        | inl e ↦ inl e
        | inr (inl e) ↦ inr (inl e)
        | inr (inr (inl e)) ↦ inr (inr (ap (λ o. session_found p mem_pool mallocs n msg o) e))
        | inr (inr (inr d)) ↦
            inr (inr (found (high_speed_search_sess p b) (no_segment n msg mem_pool mallocs d)))
      ])
  where
    found :
        (o : Option ℕ)
        → sess_msg_seg_alloc n dynamic_alloc (some msg) mem_pool mallocs ≡ none
        → session_found p mem_pool mallocs n msg o ≡ some (process_error, p)
    found none e = refl
    found (some addr) e = ap (λ o. segment_made p addr n msg o) e
