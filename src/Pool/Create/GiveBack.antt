-- ===== src/Pool/Create/GiveBack.antt =====
-- high_speed_create_sess_active of src/session_pool.c as a whole: a call that fails has taken nothing.
use high_speed_cproxy.Base.{
  ℕ, ◌≡◌, inl, inr, refl, sym, ap, ◌∙◌, subst, Bool, true, false, Option, none, some, List, [], ◌∷◌,
  arith, ltb, ◌==◌, if◌then◌else◌, update, Bool-cases,
}
use high_speed_cproxy.Pool.{BackendSession, SessOpRespData, BackendSessionPool, allocate_id}
use high_speed_cproxy.Pool.Create.{
  SessMsgPara, Answers, failed, create_sess_error, put_sess, socket_made, on_device, with_id,
  allocated, high_speed_create_sess_active,
}
use high_speed_cproxy.Pool.Create.Clean.{IsReady}
use high_speed_cproxy.Pool.Create.Stages.{connect_stage, early}
use high_speed_cproxy.Pool.Create.Failure.{IsClean, Outcome, same_device, update_back}

-- The outcome of a call that may stop the program.
abbrev MayStop : BackendSessionPool → SessMsgPara → Option (Bool × BackendSessionPool) → Type 0
MayStop p para none = Unit
MayStop p para (some r) = Outcome p para r

module _ (p : BackendSessionPool) (para : SessMsgPara) (a : Answers) (r : IsReady p a) where
  socket_stage :
      (socket : Option ℕ) (d addr id : ℕ) (raw : BackendSession) (rest : List ℕ)
      → p.heap addr ≡ none
      → p.id_queue ≡ id ∷ rest
      → Outcome p para (
          socket_made
            (record p { heap = update p.heap addr (some raw); id_queue = rest })
            para
            a
            socket
            d
            addr
            id
            raw)
  unfolding socket_made
  socket_stage none d addr id raw rest eh ei = λ e.
      early p para a r (failed 3) addr id none (update p.heap addr (some raw)) rest p.fds
        (update_back p.heap addr (some raw) eh) ei refl
  socket_stage (some fd) d addr id raw rest eh ei =
      connect_stage p para a r a.connects d addr id fd raw rest eh ei

  module _ (addr id : ℕ) (raw : BackendSession) (rest : List ℕ) (eh : p.heap addr ≡ none)
      (ei : p.id_queue ≡ id ∷ rest) where
    abbrev started : BackendSessionPool
    started = record p { heap = update p.heap addr (some raw); id_queue = rest }

    exit :
        (resp : SessOpRespData)
        → IsClean p (create_sess_error started para resp (some addr) id none) para
    exit resp =
        early p para a r resp addr id none (update p.heap addr (some raw)) rest p.fds
          (update_back p.heap addr (some raw) eh) ei refl

    namespace_stage :
        (d : ℕ) (active : Bool) (ns : Option ℕ)
        → MayStop p para (
            if active
            then elim ns [
              | none ↦ some (false, create_sess_error started para (failed 2) (some addr) id none)
              | some ns_id ↦ some (socket_made started para a a.socket d addr id raw)
            ]
            else none)
    namespace_stage d true none = λ e. exit (failed 2)
    namespace_stage d true (some ns_id) = socket_stage a.socket d addr id raw rest eh ei
    namespace_stage d false ns = tt

    device_stage : (dev : Option ℕ) → MayStop p para (on_device started para a dev addr id raw)
    unfolding on_device
    device_stage none = λ e. exit (failed 2)
    device_stage (some d) = elim (Bool-cases (ltb d 16)) [
      | inl e ↦ rw e (namespace_stage d (p.hs_net_dev d).active (p.hs_net_dev d).ns_id)
      | inr e ↦ rw e tt
    ]

    tests_stage :
        (no_id no_dev : Bool) (dev : Option ℕ)
        → MayStop p para (
            if no_id
            then some (false, create_sess_error started para (failed 3) (some addr) id none)
            else (if no_dev
                then some (false, create_sess_error started para (failed 2) (some addr) id none)
                else on_device started para a dev addr id raw))
    tests_stage true no_dev dev = λ e. exit (failed 3)
    tests_stage false true dev = λ e. exit (failed 2)
    tests_stage false false dev = device_stage dev

    id_stage : MayStop p para (with_id (put_sess p addr raw) para a addr raw (id, rest))
    unfolding with_id
    id_stage =
        tests_stage (id == 0) (p.dev_num == 0)
          (if para.dev_id == 255 then a.auto_dev else some para.dev_id)

  -- The exits with no id in hand.
  no_id :
      (addr : ℕ) (raw : BackendSession)
      → p.heap addr ≡ none
      → p.id_queue ≡ []
      → IsClean p
          (create_sess_error
            (record (put_sess p addr raw) { id_queue = [] })
            para
            (failed 3)
            (some addr)
            0
            none)
          para
  unfolding create_sess_error
  no_id addr raw eh ei = record {
    heap = update_back p.heap addr (some raw) eh;
    htable = refl;
    sess_num = refl;
    epoll = refl;
    fds = refl;
    queue_f2b = refl;
    queue_b2f = refl;
    node_sess = refl;
    id_queue = inl (sym ei);
    devices = λ d. same_device (p.hs_net_dev d);
    answered = (failed 3, refl);
  }

  no_block :
      a.junk_id ≡ 0 → IsClean p (create_sess_error p para (failed 3) none a.junk_id none) para
  unfolding create_sess_error
  no_block e = record {
    heap = refl;
    htable = refl;
    sess_num = refl;
    epoll = refl;
    fds = refl;
    queue_f2b = refl;
    queue_b2f = refl;
    node_sess = refl;
    id_queue = inl (ground (arith, e));
    devices = λ d. same_device (p.hs_net_dev d);
    answered = (failed 3, refl);
  }

  queue_stage :
      (addr : ℕ) (raw : BackendSession) (queue : List ℕ)
      → p.heap addr ≡ none
      → p.id_queue ≡ queue
      → MayStop p para (with_id (put_sess p addr raw) para a addr raw (allocate_id queue))
  unfolding allocate_id with_id
  queue_stage addr raw [] eh ei = λ e. no_id addr raw eh ei
  queue_stage addr raw (id ∷ rest) eh ei = id_stage addr id raw rest eh ei

  block_stage :
      (block : Option (ℕ × BackendSession))
      → a.block ≡ block
      → MayStop p para (allocated p para a block)
  unfolding allocated
  block_stage none e = λ f. no_block (r.no_junk e)
  block_stage (some (addr, raw)) e = queue_stage addr raw p.id_queue (r.fresh addr raw e) refl

-- In a pool that is ready for the call (see IsReady), a call of high_speed_create_sess_active that fails
-- leaves everything as it was and sends the frontend a failure: the heap, the table and its count,
-- epoll, the open descriptors, the transfer queues and the nodes are the same, the devices are the same
-- up to the order of their free nodes, and the free ids are the same up to one moved to the end.
pub create_fails_clean :
    (p : BackendSessionPool) (para : SessMsgPara) (a : Answers) (q : BackendSessionPool)
    → IsReady p a
    → high_speed_create_sess_active p para a ≡ some (false, q)
    → IsClean p q para
unfolding high_speed_create_sess_active
create_fails_clean p para a q r e =
    subst (MayStop p para)
      (sym (ap (λ w. if w then allocated p para a a.block else some (false, p)) r.wired) ∙ e)
      (block_stage p para a r a.block refl) refl
