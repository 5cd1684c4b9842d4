-- ===== src/Pool/Create/Clean.antt =====
-- The stages of high_speed_create_sess_active of src/session_pool.c, each with what it has taken.
use high_speed_cproxy.Base.{
  ℕ, ◌+◌, ◌≡◌, ◌≢◌, inl, inr, refl, ◌∙◌, fun_ext, Bool, true, false, Option, none, some, List, ◌∷◌,
  arith, update, remove, Option-cases,
}
use high_speed_cproxy.Pool.{BackendSession, BackendSessionPool, search_in}
use high_speed_cproxy.Pool.Nodes.{IsApart}
use high_speed_cproxy.Pool.Create.{
  SessMsgPara, Answers, overwritten, put_sess, recycle_sess_node, respond, high_speed_insert_sess,
  inserted, register,
}
use high_speed_cproxy.Pool.Create.Failure.{IsClean, IsHolding, IsLinked, Outcome, recycle_clean}

-- What the call meets: a block that nothing uses yet, ids other than 0, free nodes that nothing uses, and a
-- response that is passed on. If `malloc` fails, the uninitialised `new_sess_id` happens to be 0.
pub record IsReady (p : BackendSessionPool) (a : Answers) : Type 0 where
  pub wired : p.wired ≡ true
  pub fresh : (addr : ℕ) (raw : BackendSession) → a.block ≡ some (addr, raw) → p.heap addr ≡ none
  pub id_pos : (id : ℕ) (rest : List ℕ) → p.id_queue ≡ id ∷ rest → id ≢ 0
  pub nodes :
      (d node : ℕ) (rest : List ℕ)
      → (p.hs_net_dev d).free_node_queue ≡ node ∷ rest
      → (p.node_sess node ≡ none) × IsApart (p.hs_net_dev d) node
  pub sent_ok : a.sent_ok ≡ true
  pub no_junk : a.block ≡ none → a.junk_id ≡ 0

pub update_twice :
    (f : ℕ → Option BackendSession) (k : ℕ) (v : Option BackendSession)
    → update (update f k v) k none ≡ update f k none
update_twice f k v = fun_ext (λ j. ground arith)

pub remove_head : (x : ℕ) (xs : List ℕ) → remove x (x ∷ xs) ≡ xs
remove_head x xs = ground arith

pub insert_new :
    (p : BackendSessionPool) (id addr : ℕ)
    → search_in p.htable id ≡ none
    → high_speed_insert_sess p id addr
      ≡ (true, record p { htable = (id, addr) ∷ p.htable; sess_num = p.sess_num + 1 })
unfolding high_speed_insert_sess
insert_new p id addr e = rw (high_speed_insert_sess, e) refl

pub insert_old :
    (p : BackendSessionPool) (id addr other : ℕ)
    → search_in p.htable id ≡ some other
    → high_speed_insert_sess p id addr ≡ (false, p)
unfolding high_speed_insert_sess
insert_old p id addr other e = rw (high_speed_insert_sess, e) refl

module _ (p : BackendSessionPool) (para : SessMsgPara) (a : Answers) (r : IsReady p a) where
  responded :
      (q : BackendSessionPool) (d addr node fd : ℕ) (sess : BackendSession)
      → Outcome p para (respond q para a.sent_ok d addr node fd sess)
  unfolding respond
  responded q d addr node fd sess = rw r.sent_ok (λ e. absurd (ground (arith, e)))

  pub put-IsHolding :
      (q : BackendSessionPool) (addr id fd : ℕ) (sess : BackendSession)
      → IsHolding p q addr id (some fd)
      → IsHolding p (put_sess q addr sess) addr id (some fd)
  put-IsHolding q addr id fd sess h = record {
    kept = record {
      htable = h.kept.htable;
      sess_num = h.kept.sess_num;
      epoll = h.kept.epoll;
      queue_f2b = h.kept.queue_f2b;
      queue_b2f = h.kept.queue_b2f;
      sent = h.kept.sent;
    };
    heap = update_twice q.heap addr (some sess) ∙ h.heap;
    ids = h.ids;
    id_pos = h.id_pos;
    fds = h.fds;
  }

  put-IsLinked :
      (q : BackendSessionPool) (d addr node : ℕ) (rest : List ℕ) (sess : BackendSession)
      (events : List ℕ)
      → IsLinked p q d addr node rest sess
      → IsLinked p
          (put_sess (record q { epoll = events }) addr (record sess { status = true }))
          d
          addr
          node
          rest
          (record sess { status = true })
  put-IsLinked q d addr node rest sess events l = record {
    node_sess = l.node_sess;
    was_free = l.was_free;
    apart = l.apart;
    linked = l.linked;
    known = l.known;
    here = l.here;
    there = l.there;
  }

  abbrev entered : BackendSessionPool → (addr fd : ℕ) → BackendSession → BackendSessionPool
  entered q addr fd sess =
      put_sess (record q { epoll = fd ∷ q.epoll }) addr (record sess { status = true })

  -- The state in which the response is sent.
  abbrev enter : BackendSessionPool → (addr node fd : ℕ) → BackendSession → BackendSessionPool
  enter q addr node fd sess =
      record (put_sess (record q { epoll = fd ∷ q.epoll }) addr (record sess { status = true })) {
        htable = (sess.backend_sess_id, addr) ∷ q.htable;
        sess_num = q.sess_num + 1;
      }

  back :
      (q : BackendSessionPool) (d addr node fd : ℕ) (rest : List ℕ) (sess : BackendSession)
      → IsHolding p q addr sess.backend_sess_id (some fd)
      → IsLinked p q d addr node rest sess
      → IsClean p
          (recycle_sess_node
            (put_sess q addr (record sess { status = true }))
            para
            (overwritten 3 a.junk_resp)
            d
            addr
            node
            fd
            (record sess { status = true }))
          para
  back q d addr node fd rest sess h l =
      recycle_clean p (put_sess q addr (record sess { status = true })) para
        (overwritten 3 a.junk_resp) d addr node fd rest (record sess { status = true })
        (put-IsHolding q addr sess.backend_sess_id fd (record sess { status = true }) h)
        (put-IsLinked q d addr node rest sess q.epoll l)

  pub registered :
      (q : BackendSessionPool) (epoll_ok : Bool) (d addr node fd : ℕ) (rest : List ℕ)
      (sess : BackendSession)
      → IsHolding p q addr sess.backend_sess_id (some fd)
      → IsLinked p q d addr node rest sess
      → Outcome p para (register q para a epoll_ok d addr node fd sess)
  unfolding register inserted
  registered q true d addr node fd rest sess h l =
      elim (Option-cases (search_in q.htable sess.backend_sess_id)) [
        | inl e ↦
            rw (insert_new (entered q addr fd sess) sess.backend_sess_id addr e)
              (responded (enter q addr node fd sess) d addr node fd (record sess { status = true }))
        | inr (other, e) ↦
            rw
              (
                insert_old (entered q addr fd sess) sess.backend_sess_id addr other e,
                remove_head fd q.epoll,
              )
              (λ f. back q d addr node fd rest sess h l)
      ]
  registered q false d addr node fd rest sess h l = λ f. back q d addr node fd rest sess h l
