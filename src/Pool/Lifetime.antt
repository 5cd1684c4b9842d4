-- ===== src/Pool/Lifetime.antt =====
-- How src/session_pool.c sets a pool up and takes it down: high_speed_init_pool, high_speed_deinit_pool,
-- high_speed_delete_all_sess and high_speed_destroy_pool.
use high_speed_cproxy.Base.{ℕ_discrete}
use high_speed_cproxy.Base.{arith}
use high_speed_cproxy.Base.{
  ℕ, ◌≡◌, ◌∙◌, refl, ap, Bool, true, false, ◌||◌, none, List, [], ◌∷◌, ◌==◌, update,
}
use high_speed_cproxy.Pool.{BackendSessionPool, fill_id_queue, delete_in}

-- The loop takes out the first element each time.
unfoldable pub release_id_queue : List ℕ → List ℕ
release_id_queue [] = []
release_id_queue (id ∷ id_q) = release_id_queue id_q

-- `wired`: get_global_backend_engine returns an engine, with its tables of operations.
unfoldable pub high_speed_init_pool : (wired : Bool) → BackendSessionPool → BackendSessionPool
unfolding fill_id_queue
high_speed_init_pool wired p = record p {
  wired = wired;
  sess_num = 0;
  id_queue = fill_id_queue [];
  queue_f2b = [];
  queue_b2f = [];
  htable = [];
}

unfoldable pub high_speed_deinit_pool : BackendSessionPool → BackendSessionPool
unfolding release_id_queue
high_speed_deinit_pool p = record p {
  id_queue = release_id_queue p.id_queue;
  queue_f2b = [];
  queue_b2f = [];
}

-- HASH_ITER over these entries of the table.
unfoldable pub delete_each : List (ℕ × ℕ) → BackendSessionPool → BackendSessionPool
delete_each [] p = p
delete_each ((key, sess) ∷ rest) p =
    delete_each rest (record p { htable = delete_in p.htable sess; heap = update p.heap sess none })

unfoldable pub high_speed_delete_all_sess : BackendSessionPool → BackendSessionPool
unfolding delete_each
high_speed_delete_all_sess p = delete_each p.htable p

-- The operations are NULL afterwards.
unfoldable pub high_speed_destroy_pool : BackendSessionPool → BackendSessionPool
unfolding high_speed_delete_all_sess
high_speed_destroy_pool p = high_speed_delete_all_sess (record p { wired = false; sess_num = 0 })

-- The table has an entry with this session.
abbrev pub in_table : List (ℕ × ℕ) → ℕ → Bool
in_table [] a = false
in_table ((key, sess) ∷ rest) a = let other = in_table rest a in sess == a || other

-- The sessions of the table are freed, and nothing else is given back or taken out of a queue.
pub record IsEmptied (p q : BackendSessionPool) : Type 0 where
  pub table : q.htable ≡ []
  pub freed : (a : ℕ) → in_table p.htable a ≡ true → q.heap a ≡ none
  pub kept : (a : ℕ) → in_table p.htable a ≡ false → q.heap a ≡ p.heap a
  pub queue_f2b : q.queue_f2b ≡ p.queue_f2b
  pub queue_b2f : q.queue_b2f ≡ p.queue_b2f
  pub ids : q.id_queue ≡ p.id_queue
  pub devices : q.hs_net_dev ≡ p.hs_net_dev
  pub nodes : q.node_sess ≡ p.node_sess
  pub registered : q.epoll ≡ p.epoll
  pub sockets : q.fds ≡ p.fds

delete_each-table :
    (es : List (ℕ × ℕ)) (p : BackendSessionPool) → p.htable ≡ es → (delete_each es p).htable ≡ []
unfolding delete_each delete_in
delete_each-table [] p e = e
delete_each-table ((key, sess) ∷ rest) p e =
    delete_each-table rest _ (ap (λ t. delete_in t sess) e ∙ ground arith)

delete_each-freed :
    (es : List (ℕ × ℕ)) (p : BackendSessionPool) (a : ℕ)
    → p.heap a ≡ none
    → (delete_each es p).heap a ≡ none
unfolding delete_each
delete_each-freed [] p a e = e
delete_each-freed ((key, sess) ∷ rest) p a e = delete_each-freed rest _ a (ground (arith, e))

delete_each-in_table :
    (es : List (ℕ × ℕ)) (p : BackendSessionPool) (a : ℕ)
    → in_table es a ≡ true
    → (delete_each es p).heap a ≡ none
unfolding delete_each
delete_each-in_table [] p a e = absurd (ground (arith, e))
delete_each-in_table ((key, sess) ∷ rest) p a e = elim (ℕ_discrete sess a) [
  | yes h ↦ delete_each-freed rest _ a (ground (arith, h))
  | no h ↦ delete_each-in_table rest _ a (ground (arith, e, h))
]

delete_each-kept :
    (es : List (ℕ × ℕ)) (p : BackendSessionPool) (a : ℕ)
    → in_table es a ≡ false
    → (delete_each es p).heap a ≡ p.heap a
unfolding delete_each
delete_each-kept [] p a e = refl
delete_each-kept ((key, sess) ∷ rest) p a e =
    delete_each-kept rest _ a (ground (arith, e)) ∙ ground (arith, e)

delete_each-rest :
    (es : List (ℕ × ℕ)) (p : BackendSessionPool)
    → delete_each es p
      ≡ record p { htable = (delete_each es p).htable; heap = (delete_each es p).heap }
unfolding delete_each
delete_each-rest [] p = refl
delete_each-rest ((key, sess) ∷ rest) p =
    delete_each-rest rest
      (record p { htable = delete_in p.htable sess; heap = update p.heap sess none })

pub destroy-IsEmptied : (p : BackendSessionPool) → IsEmptied p (high_speed_destroy_pool p)
unfolding high_speed_destroy_pool high_speed_delete_all_sess
destroy-IsEmptied p =
    let p' : BackendSessionPool = record p { wired = false; sess_num = 0 } in
    let e = delete_each-rest p.htable p' in
    record {
      table = delete_each-table p.htable p' refl;
      freed = delete_each-in_table p.htable p';
      kept = delete_each-kept p.htable p';
      queue_f2b = ap (λ q. q.queue_f2b) e;
      queue_b2f = ap (λ q. q.queue_b2f) e;
      ids = ap (λ q. q.id_queue) e;
      devices = ap (λ q. q.hs_net_dev) e;
      nodes = ap (λ q. q.node_sess) e;
      registered = ap (λ q. q.epoll) e;
      sockets = ap (λ q. q.fds) e;
    }

pub release_id_queue_lem : (id_q : List ℕ) → release_id_queue id_q ≡ []
unfolding release_id_queue
release_id_queue_lem [] = refl
release_id_queue_lem (id ∷ id_q) = release_id_queue_lem id_q
