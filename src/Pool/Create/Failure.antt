-- ===== src/Pool/Create/Failure.antt =====
-- The early exits of high_speed_create_sess_active of src/session_pool.c give everything back.
use high_speed_cproxy.Base.{
  ℕ, ◌≡◌, ◌≢◌, ◌⊎◌, inl, inr, refl, ap, subst, fun_ext, Bool, true, false, Option, none, some, List,
  [], ◌∷◌, ◌++◌, arith, update, remove, ℕ_discrete,
}
use high_speed_cproxy.Pool.{
  BackendSession, HighSpeedNetDevice, SessOpRespData, create_failed, BackendSessionPool, release_id,
  push_free_session_node, remove_session_node, append_node, take_node,
}
use high_speed_cproxy.Pool.Nodes.{remove-snoc, IsApart}
use high_speed_cproxy.Pool.Create.{SessMsgPara, create_sess_error, recycle_sess_node}

-- A queue as it was, or with its first element moved to the end.
abbrev pub Rotated : List ℕ → List ℕ → Type 0
Rotated xs ys = (ys ≡ xs) ⊎ ((x : ℕ) × (rest : List ℕ) × (xs ≡ x ∷ rest) × (ys ≡ rest ++ (x ∷ [])))

-- A device as it was, up to the order of its free nodes.
pub record SameDevice (dev dev' : HighSpeedNetDevice) : Type 0 where
  pub active : dev'.active ≡ dev.active
  pub ns_id : dev'.ns_id ≡ dev.ns_id
  pub udp : dev'.udp_node_queue ≡ dev.udp_node_queue
  pub tcp : dev'.tcp_node_queue ≡ dev.tcp_node_queue
  pub free_nodes : Rotated dev.free_node_queue dev'.free_node_queue

-- Everything that the call took has been given back, and the frontend has been sent a failure.
pub record IsClean (p q : BackendSessionPool) (para : SessMsgPara) : Type 0 where
  pub heap : q.heap ≡ p.heap
  pub htable : q.htable ≡ p.htable
  pub sess_num : q.sess_num ≡ p.sess_num
  pub epoll : q.epoll ≡ p.epoll
  pub fds : q.fds ≡ p.fds
  pub queue_f2b : q.queue_f2b ≡ p.queue_f2b
  pub queue_b2f : q.queue_b2f ≡ p.queue_b2f
  pub node_sess : q.node_sess ≡ p.node_sess
  pub id_queue : Rotated p.id_queue q.id_queue
  pub devices : (d : ℕ) → SameDevice (p.hs_net_dev d) (q.hs_net_dev d)
  pub answered :
      (resp : SessOpRespData) × (q.sent ≡ create_failed para.frontend_sess_id resp ∷ p.sent)

pub same_device : (dev : HighSpeedNetDevice) → SameDevice dev dev
same_device dev = record {
  active = refl;
  ns_id = refl;
  udp = refl;
  tcp = refl;
  free_nodes = inl refl;
}

pub update_back :
    (f : ℕ → Option BackendSession) (k : ℕ) (v : Option BackendSession)
    → f k ≡ none
    → update (update f k v) k none ≡ f
update_back f k v h = fun_ext (λ j. ground (arith, h))

-- What stays the same from the start of the call on.
pub record IsKept (p q : BackendSessionPool) : Type 0 where
  pub htable : q.htable ≡ p.htable
  pub sess_num : q.sess_num ≡ p.sess_num
  pub epoll : q.epoll ≡ p.epoll
  pub queue_f2b : q.queue_f2b ≡ p.queue_f2b
  pub queue_b2f : q.queue_b2f ≡ p.queue_b2f
  pub sent : q.sent ≡ p.sent

-- `q` holds the block at `addr`, the id taken from the queue and perhaps an open socket.
pub record IsHolding (p q : BackendSessionPool) (addr id : ℕ) (fd : Option ℕ) : Type 0 where
  pub kept : IsKept p q
  pub heap : update q.heap addr none ≡ p.heap
  pub ids : p.id_queue ≡ id ∷ q.id_queue
  pub id_pos : id ≢ 0
  pub fds : elim fd [ none ↦ q.fds | some fd ↦ remove fd q.fds ] ≡ p.fds

pub exit_clean :
    (p q : BackendSessionPool) (para : SessMsgPara) (resp : SessOpRespData) (addr id : ℕ)
    (fd : Option ℕ)
    → IsHolding p q addr id fd
    → q.node_sess ≡ p.node_sess
    → ((d : ℕ) → SameDevice (p.hs_net_dev d) (q.hs_net_dev d))
    → IsClean p (create_sess_error q para resp (some addr) id fd) para
unfolding create_sess_error release_id
exit_clean p q para resp addr id fd h ns ds = record {
  heap = h.heap;
  htable = h.kept.htable;
  sess_num = h.kept.sess_num;
  epoll = h.kept.epoll;
  fds = h.fds;
  queue_f2b = h.kept.queue_f2b;
  queue_b2f = h.kept.queue_b2f;
  node_sess = ns;
  id_queue = inr (id, q.id_queue, h.ids, ground (arith, h.id_pos));
  devices = ds;
  answered = (resp, ap (λ s. create_failed para.frontend_sess_id resp ∷ s) h.kept.sent);
}

-- `q` also has the device's first free node in the session's queue.
pub record IsLinked (p q : BackendSessionPool) (d addr node : ℕ) (rest : List ℕ)
    (sess : BackendSession) : Type 0 where
  pub node_sess : update q.node_sess node none ≡ p.node_sess
  pub was_free : (p.hs_net_dev d).free_node_queue ≡ node ∷ rest
  pub apart : IsApart (p.hs_net_dev d) node
  pub linked : sess.sess_dev_link_state ≡ true
  pub known : (sess.proto_type ≡ 0) ⊎ (sess.proto_type ≡ 1)
  pub here :
      q.hs_net_dev d
      ≡ append_node (record (p.hs_net_dev d) { free_node_queue = rest }) node sess.proto_type
  pub there : (e : ℕ) → d ≢ e → q.hs_net_dev e ≡ p.hs_net_dev e

pub remove-append :
    (dev : HighSpeedNetDevice) (node proto_type : ℕ)
    → IsApart dev node
    → (proto_type ≡ 0) ⊎ (proto_type ≡ 1)
    → remove_session_node (append_node dev node proto_type) node proto_type true ≡ (dev, false)
unfolding remove_session_node append_node take_node
remove-append dev node proto_type h k =
    ground (
      arith,
      k,
      remove-snoc node dev.udp_node_queue h.udp,
      remove-snoc node dev.tcp_node_queue h.tcp,
    )

-- The device with the node back at the end of the free nodes.
abbrev pub given_back : HighSpeedNetDevice → List ℕ → ℕ → HighSpeedNetDevice
given_back dev rest node = record dev { free_node_queue = rest ++ (node ∷ []) }

pub given_back-SameDevice :
    (dev : HighSpeedNetDevice) (rest : List ℕ) (node : ℕ)
    → dev.free_node_queue ≡ node ∷ rest
    → SameDevice dev (given_back dev rest node)
given_back-SameDevice dev rest node e = record {
  active = refl;
  ns_id = refl;
  udp = refl;
  tcp = refl;
  free_nodes = inr (node, rest, e, refl);
}

pub put_same :
    (p q : BackendSessionPool) (d : ℕ) (dev : HighSpeedNetDevice)
    → SameDevice (p.hs_net_dev d) dev
    → ((e : ℕ) → d ≢ e → q.hs_net_dev e ≡ p.hs_net_dev e)
    → (e : ℕ) → SameDevice (p.hs_net_dev e) (update q.hs_net_dev d dev e)
put_same p q d dev h there e = elim (ℕ_discrete d e) [
  | yes s ↦
      subst (λ k. SameDevice (p.hs_net_dev k) (update q.hs_net_dev d dev k)) s
        (rw (update_at q.hs_net_dev d dev) h)
  | no ne ↦ rw (update_other q.hs_net_dev d dev e ne, there e ne) (same_device (p.hs_net_dev e))
]
  where
    update_at : (f : ℕ → HighSpeedNetDevice) (k : ℕ) (v : HighSpeedNetDevice) → update f k v k ≡ v
    update_at f k v = ground arith

    update_other :
        (f : ℕ → HighSpeedNetDevice) (k : ℕ) (v : HighSpeedNetDevice) (j : ℕ)
        → k ≢ j
        → update f k v j ≡ f j
    update_other f k v j ne = ground (arith, ne)

pub recycle_clean :
    (p q : BackendSessionPool) (para : SessMsgPara) (resp : SessOpRespData) (d addr node fd : ℕ)
    (rest : List ℕ) (sess : BackendSession)
    → IsHolding p q addr sess.backend_sess_id (some fd)
    → IsLinked p q d addr node rest sess
    → IsClean p (recycle_sess_node q para resp d addr node fd sess) para
unfolding recycle_sess_node push_free_session_node
recycle_clean p q para resp d addr node fd rest sess h l =
    rw
      (
        l.here,
        l.linked,
        remove-append (record (p.hs_net_dev d) { free_node_queue = rest }) node sess.proto_type
            apart l.known,
      )
      (exit_clean p
        (record q {
          hs_net_dev = update q.hs_net_dev d (given_back (p.hs_net_dev d) rest node);
          node_sess = update q.node_sess node none;
        })
        para resp addr sess.backend_sess_id (some fd)
        (record { kept = k; heap = h.heap; ids = h.ids; id_pos = h.id_pos; fds = h.fds })
        l.node_sess
        (put_same p q d (given_back (p.hs_net_dev d) rest node)
          (given_back-SameDevice (p.hs_net_dev d) rest node l.was_free) l.there))
  where
    apart : IsApart (record (p.hs_net_dev d) { free_node_queue = rest }) node
    apart = record { udp = l.apart.udp; tcp = l.apart.tcp }

    k : IsKept p (record q {
      hs_net_dev = update q.hs_net_dev d (given_back (p.hs_net_dev d) rest node);
      node_sess = update q.node_sess node none;
    })
    k = record {
      htable = h.kept.htable;
      sess_num = h.kept.sess_num;
      epoll = h.kept.epoll;
      queue_f2b = h.kept.queue_f2b;
      queue_b2f = h.kept.queue_b2f;
      sent = h.kept.sent;
    }

-- What a stage returns: if it fails, everything is as it was at the start.
abbrev pub Outcome : BackendSessionPool → SessMsgPara → Bool × BackendSessionPool → Type 0
Outcome p para r = r.0 ≡ false → IsClean p r.1 para
