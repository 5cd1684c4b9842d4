-- ===== src/Pool/Create/Stages.antt =====
-- The stages of high_speed_create_sess_active of src/session_pool.c from the start to the node's insertion,
-- and the whole.
use high_speed_cproxy.Base.{
  ℕ, zero, suc, ◌≡◌, ◌≢◌, ◌⊎◌, inl, inr, refl, sym, ◌∙◌, subst, fun_ext, Bool, true, false, Option,
  none, some, List, [], ◌∷◌, arith, update, remove,
}
use high_speed_cproxy.Pool.{
  BackendSession, HighSpeedNetDevice, SessOpRespData, BackendSessionPool, pop_free_session_node,
  push_free_session_node, insert_session_node, append_node,
}
use high_speed_cproxy.Pool.Create.{
  SessMsgPara, Answers, failed, overwritten, create_sess_error, put_sess, put_dev, filled,
  node_inserted, node_popped, connected,
}
use high_speed_cproxy.Pool.Create.Clean.{IsReady, registered, update_twice, remove_head}
use high_speed_cproxy.Pool.Create.Failure.{
  IsClean, IsHolding, IsLinked, Outcome, exit_clean, same_device, update_back, put_same, given_back,
  given_back-SameDevice,
}

pub insert_known :
    (dev : HighSpeedNetDevice) (node proto_type : ℕ)
    → (proto_type ≡ 0) ⊎ (proto_type ≡ 1)
    → insert_session_node dev node proto_type false ≡ (true, append_node dev node proto_type, true)
unfolding insert_session_node
insert_known dev node proto_type k = ground (arith, k)

insert_unknown :
    (dev : HighSpeedNetDevice) (node proto_type : ℕ)
    → proto_type ≢ 0
    → proto_type ≢ 1
    → insert_session_node dev node proto_type false ≡ (false, dev, false)
unfolding insert_session_node
insert_unknown dev node proto_type m n = ground (arith, m, n)

known_cases : (n : ℕ) → ((n ≡ 0) ⊎ (n ≡ 1)) ⊎ ((n ≢ 0) × (n ≢ 1))
known_cases zero = inl (inl refl)
known_cases (suc zero) = inl (inr refl)
known_cases (suc (suc n)) = inr (λ e. absurd (omega (arith, e)), λ e. absurd (omega (arith, e)))

pub node_back :
    (f : ℕ → Option ℕ) (k addr : ℕ) → f k ≡ none → update (update f k (some addr)) k none ≡ f
node_back f k addr h = fun_ext (λ j. ground (arith, h))

pub update_here : (f : ℕ → HighSpeedNetDevice) (k : ℕ) (v : HighSpeedNetDevice) → update f k v k ≡ v
update_here f k v = ground arith

pub update_there :
    (f : ℕ → HighSpeedNetDevice) (k : ℕ) (v : HighSpeedNetDevice) (j : ℕ)
    → k ≢ j
    → update f k v j ≡ f j
update_there f k v j ne = ground (arith, ne)

module _ (p : BackendSessionPool) (para : SessMsgPara) (a : Answers) (r : IsReady p a) where
  -- The pool with a block, an id and perhaps a socket taken.
  abbrev pub taken : (ℕ → Option BackendSession) → List ℕ → List ℕ → BackendSessionPool
  taken heap id_queue fds = record p { heap = heap; id_queue = id_queue; fds = fds }

  holding :
      (q : BackendSessionPool) (addr id : ℕ) (fd : Option ℕ) (heap : ℕ → Option BackendSession)
      (rest fds : List ℕ)
      → q ≡ taken heap rest fds
      → update heap addr none ≡ p.heap
      → p.id_queue ≡ id ∷ rest
      → elim fd [ none ↦ fds | some fd ↦ remove fd fds ] ≡ p.fds
      → IsHolding p q addr id fd
  holding q addr id fd heap rest fds e eh ei ef =
      subst (λ q. IsHolding p q addr id fd) (sym e)
        (record {
          kept = record {
            htable = refl;
            sess_num = refl;
            epoll = refl;
            queue_f2b = refl;
            queue_b2f = refl;
            sent = refl;
          };
          heap = eh;
          ids = ei;
          id_pos = r.id_pos id rest ei;
          fds = ef;
        })

  -- An exit before a node is taken.
  pub early :
      (resp : SessOpRespData) (addr id : ℕ) (fd : Option ℕ) (heap : ℕ → Option BackendSession)
      (rest fds : List ℕ)
      → update heap addr none ≡ p.heap
      → p.id_queue ≡ id ∷ rest
      → elim fd [ none ↦ fds | some fd ↦ remove fd fds ] ≡ p.fds
      → IsClean p (create_sess_error (taken heap rest fds) para resp (some addr) id fd) para
  early resp addr id fd heap rest fds eh ei ef =
      exit_clean p (taken heap rest fds) para resp addr id fd
        (holding (taken heap rest fds) addr id fd heap rest fds refl eh ei ef) refl
        (λ d. same_device (p.hs_net_dev d))

  module _ (d addr fd node : ℕ) (nodes : List ℕ) (sess : BackendSession)
      (heap : ℕ → Option BackendSession) (rest fds : List ℕ) (eh : update heap addr none ≡ p.heap)
      (ei : p.id_queue ≡ sess.backend_sess_id ∷ rest) (ef : remove fd fds ≡ p.fds)
      (en : (p.hs_net_dev d).free_node_queue ≡ node ∷ nodes) where
    abbrev left : HighSpeedNetDevice
    left = record (p.hs_net_dev d) { free_node_queue = nodes }

    abbrev joined : BackendSession
    joined = record sess { sess_dev_link_state = true; sess_node = some node }

    abbrev with_node : BackendSessionPool
    with_node = record (taken heap rest fds) { node_sess = update p.node_sess node (some addr) }

    abbrev with_dev : BackendSessionPool
    with_dev = put_sess (put_dev with_node d (append_node left node sess.proto_type)) addr joined

    joined-IsHolding : IsHolding p with_dev addr sess.backend_sess_id (some fd)
    joined-IsHolding = record {
      kept = record {
        htable = refl;
        sess_num = refl;
        epoll = refl;
        queue_f2b = refl;
        queue_b2f = refl;
        sent = refl;
      };
      heap = update_twice heap addr (some joined) ∙ eh;
      ids = ei;
      id_pos = r.id_pos sess.backend_sess_id rest ei;
      fds = ef;
    }

    joined-IsLinked :
        (sess.proto_type ≡ 0) ⊎ (sess.proto_type ≡ 1) → IsLinked p with_dev d addr node nodes joined
    joined-IsLinked k = record {
      node_sess = node_back p.node_sess node addr (r.nodes d node nodes en).0;
      was_free = en;
      apart = (r.nodes d node nodes en).1;
      linked = refl;
      known = k;
      here = update_here p.hs_net_dev d (append_node left node sess.proto_type);
      there = update_there p.hs_net_dev d (append_node left node sess.proto_type);
    }

    -- The node given back after an insertion for an unknown protocol.
    refused :
        IsClean p
          (create_sess_error
            (put_dev
              (record with_node { node_sess = update with_node.node_sess node none })
              d
              (given_back (p.hs_net_dev d) nodes node))
            para
            (failed 2)
            (some addr)
            sess.backend_sess_id
            (some fd))
          para
    refused =
        exit_clean p
          (put_dev (record with_node { node_sess = update with_node.node_sess node none }) d
            (given_back (p.hs_net_dev d) nodes node))
          para (failed 2) addr sess.backend_sess_id (some fd)
          (record {
            kept = record {
              htable = refl;
              sess_num = refl;
              epoll = refl;
              queue_f2b = refl;
              queue_b2f = refl;
              sent = refl;
            };
            heap = eh;
            ids = ei;
            id_pos = r.id_pos sess.backend_sess_id rest ei;
            fds = ef;
          })
          (node_back p.node_sess node addr (r.nodes d node nodes en).0)
          (put_same p p d (given_back (p.hs_net_dev d) nodes node)
            (given_back-SameDevice (p.hs_net_dev d) nodes node en) (λ e ne. refl))

    popped :
        Outcome p para (node_popped (taken heap rest fds) para a d addr fd sess (some node, left))
    unfolding node_popped node_inserted push_free_session_node
    popped = elim (known_cases sess.proto_type) [
      | inl k ↦ rw (insert_known left node sess.proto_type k) (
          registered p para a r with_dev a.epoll_ok d addr node fd nodes joined joined-IsHolding
            (joined-IsLinked k))
      | inr (m, n) ↦ rw (insert_unknown left node sess.proto_type m n) (λ e. refused)
    ]

  -- From the free node on.
  nodes_stage :
      (d addr fd : ℕ) (sess : BackendSession) (heap : ℕ → Option BackendSession) (rest fds : List ℕ)
      → update heap addr none ≡ p.heap
      → p.id_queue ≡ sess.backend_sess_id ∷ rest
      → remove fd fds ≡ p.fds
      → (queue : List ℕ) → (p.hs_net_dev d).free_node_queue ≡ queue
      → Outcome p para (
          node_popped
            (taken heap rest fds)
            para
            a
            d
            addr
            fd
            sess
            (pop_free_session_node (record (p.hs_net_dev d) { free_node_queue = queue })))
  unfolding node_popped pop_free_session_node
  nodes_stage d addr fd sess heap rest fds eh ei ef [] en =
      λ e. early (failed 3) addr sess.backend_sess_id (some fd) heap rest fds eh ei ef
  nodes_stage d addr fd sess heap rest fds eh ei ef (node ∷ nodes) en =
      popped d addr fd node nodes sess heap rest fds eh ei ef en

  -- From connect_socket_netns on.
  pub connect_stage :
      (connects : Bool) (d addr id fd : ℕ) (raw : BackendSession) (rest : List ℕ)
      → p.heap addr ≡ none
      → p.id_queue ≡ id ∷ rest
      → Outcome p para (
          connected
            (taken (update p.heap addr (some raw)) rest (fd ∷ p.fds))
            para
            a
            connects
            d
            addr
            id
            fd
            raw)
  unfolding connected filled
  connect_stage false d addr id fd raw rest eh ei = λ e.
      early (overwritten 4 a.junk_resp) addr id (some fd) (update p.heap addr (some raw)) rest
        (fd ∷ p.fds) (update_back p.heap addr (some raw) eh) ei (remove_head fd p.fds)
  connect_stage true d addr id fd raw rest eh ei =
      nodes_stage d addr fd (filled raw para id fd)
        (update (update p.heap addr (some raw)) addr (some (filled raw para id fd))) rest
        (fd ∷ p.fds)
        (update_twice (update p.heap addr (some raw)) addr (some (filled raw para id fd))
          ∙ update_back p.heap addr (some raw) eh)
        ei (remove_head fd p.fds) (p.hs_net_dev d).free_node_queue refl
