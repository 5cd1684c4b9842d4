-- ===== src/Pool/Create.antt =====
-- high_speed_create_sess_active of src/session_pool.c, in the stages between its early exits. What
-- other parts of the system answer on the way is an argument.
pub mod Failure
pub mod Clean
pub mod Stages
pub mod GiveBack
pub mod Samples
mod Examples
pub mod Success
use high_speed_cproxy.Base.{
  ℕ, ◌+◌, Bool, true, false, not, Option, none, some, List, [], ◌∷◌, ltb, ◌==◌, if◌then◌else◌,
  update, remove,
}
use high_speed_cproxy.Pool.{
  BackendSession, HighSpeedNetDevice, SessOpRespData, Response, created, create_failed,
  BackendSessionPool, allocate_id, release_id, search_in, pop_free_session_node,
  push_free_session_node, insert_session_node, remove_session_node,
}

-- `SessMsgPara`, what the pool reads of it.
pub record SessMsgPara : Type 0 where
  pub frontend_sess_id : ℕ
  pub ip_version : ℕ
  pub dev_id : ℕ
  pub trans_proto : ℕ

-- What one call meets: the block that `malloc` returns and what it holds, `new_sess_id` and `resp_dat`
-- as the stack has them before anything is stored, what `choose_dev` stores if it succeeds, the socket
-- of create_socket_netns if there is one, and whether connect_socket_netns, `epoll_ctl` and
-- backend_proxy_send_sess_msg_to_frontend_via_shmem succeed.
pub record Answers : Type 0 where
  pub block : Option (ℕ × BackendSession)
  pub junk_id : ℕ
  pub junk_resp : SessOpRespData
  pub auto_dev : Option ℕ
  pub socket : Option ℕ
  pub connects : Bool
  pub epoll_ok : Bool
  pub sent_ok : Bool

-- `resp_dat.status = SESS_OP_STATUS_FAIL; resp_dat.code = code;`
abbrev pub failed : ℕ → SessOpRespData
failed code = record { op_status = 1; code = code }

-- Where the code of the failure is stored into `resp_dat.status`, over SESS_OP_STATUS_FAIL.
abbrev pub overwritten : ℕ → SessOpRespData → SessOpRespData
overwritten code resp = record resp { op_status = code }

-- The label create_sess_error: `new_sess` is `none` for NULL and `fd` for ERROR_SOCKET_FD.
pub create_sess_error :
    BackendSessionPool
    → SessMsgPara
    → SessOpRespData
    → (new_sess : Option ℕ) → (new_sess_id : ℕ) → (fd : Option ℕ) → BackendSessionPool
create_sess_error p para resp new_sess new_sess_id fd = record p {
  sent = create_failed para.frontend_sess_id resp ∷ p.sent;
  heap = elim new_sess [ none ↦ p.heap | some addr ↦ update p.heap addr none ];
  id_queue = if new_sess_id == 0 then p.id_queue else release_id p.id_queue new_sess_id;
  fds = elim fd [ none ↦ p.fds | some fd ↦ remove fd p.fds ];
}

-- Stores the session at its address.
abbrev pub put_sess : BackendSessionPool → ℕ → BackendSession → BackendSessionPool
put_sess p addr sess = record p { heap = update p.heap addr (some sess) }

abbrev pub put_dev : BackendSessionPool → ℕ → HighSpeedNetDevice → BackendSessionPool
put_dev p dev_id dev = record p { hs_net_dev = update p.hs_net_dev dev_id dev }

-- The label recycle_sess_node, and on to create_sess_error.
pub recycle_sess_node :
    BackendSessionPool
    → SessMsgPara
    → SessOpRespData
    → (dev_id addr node fd : ℕ) → BackendSession
    → BackendSessionPool
unfolding create_sess_error
recycle_sess_node p para resp dev_id addr node fd sess =
    let (dev, linked) =
      remove_session_node (p.hs_net_dev dev_id) node sess.proto_type sess.sess_dev_link_state in
    let p = put_dev p dev_id (push_free_session_node dev node) in
    let p = record p { node_sess = update p.node_sess node none } in
    create_sess_error p para resp (some addr) sess.backend_sess_id (some fd)

-- From the response on.
pub respond :
    BackendSessionPool
    → SessMsgPara
    → (sent_ok : Bool) → (dev_id addr node fd : ℕ) → BackendSession
    → Bool × BackendSessionPool
unfolding recycle_sess_node
respond p para true dev_id addr node fd sess = (
  true,
  record p {
    sent =
        created sess.frontend_sess_id sess.backend_sess_id (record { op_status = 0; code = 0 })
        ∷ p.sent;
  },
)
respond p para false dev_id addr node fd sess =
    (false, recycle_sess_node p para (overwritten 3 (failed 0)) dev_id addr node fd sess)

-- high_speed_insert_sess; whether it returns BACKEND_PROXY_PROCESS_OK.
unfoldable pub high_speed_insert_sess :
    BackendSessionPool → (id addr : ℕ) → Bool × BackendSessionPool
high_speed_insert_sess p id addr = elim (search_in p.htable id) [
  | some other ↦ (false, p)
  | none ↦ (true, record p { htable = (id, addr) ∷ p.htable; sess_num = p.sess_num + 1 })
]

-- After the insertion into the table.
pub inserted :
    BackendSessionPool
    → SessMsgPara
    → Answers
    → (dev_id addr node fd : ℕ) → BackendSession
    → Bool × BackendSessionPool
    → Bool × BackendSessionPool
unfolding respond recycle_sess_node
inserted q para a dev_id addr node fd sess (true, p) =
    respond p para a.sent_ok dev_id addr node fd sess
inserted q para a dev_id addr node fd sess (false, p) =
    let p = record p { epoll = remove fd p.epoll } in
    (false, recycle_sess_node p para (overwritten 3 a.junk_resp) dev_id addr node fd sess)

-- BACKEND_SESS_REGISTER_EPOLL of a session that is not registered, and on.
pub register :
    BackendSessionPool
    → SessMsgPara
    → Answers
    → (epoll_ok : Bool) → (dev_id addr node fd : ℕ) → BackendSession
    → Bool × BackendSessionPool
unfolding inserted recycle_sess_node
register p para a true dev_id addr node fd sess =
    let sess = record sess { status = true } in
    let p = put_sess (record p { epoll = fd ∷ p.epoll }) addr sess in
    inserted p para a dev_id addr node fd sess (high_speed_insert_sess p sess.backend_sess_id addr)
register p para a false dev_id addr node fd sess =
    let sess = record sess { status = true } in
    let p = put_sess p addr sess in
    (false, recycle_sess_node p para (overwritten 3 a.junk_resp) dev_id addr node fd sess)

-- The session's members, as far as they are set: `dev_id` stays what the block holds, and of the two
-- state fields only the flag that the block holds.
unfoldable pub filled : BackendSession → SessMsgPara → (id fd : ℕ) → BackendSession
filled raw para id fd = record raw {
  frontend_sess_id = para.frontend_sess_id;
  backend_sess_id = id;
  ip_version = para.ip_version;
  sock_fd = fd;
  status = false;
  establish_mode = 1;
  proto_type = para.trans_proto;
  msg_f2b = [];
  msg_b2f = [];
}

-- From the result of the node's insertion on.
pub node_inserted :
    BackendSessionPool
    → SessMsgPara
    → Answers
    → (dev_id addr node fd : ℕ) → BackendSession
    → Bool × HighSpeedNetDevice × Bool
    → Bool × BackendSessionPool
unfolding register create_sess_error
node_inserted p para a dev_id addr node fd sess (true, dev, linked) =
    let sess = record sess { sess_dev_link_state = linked; sess_node = some node } in
    let p = put_sess (put_dev p dev_id dev) addr sess in
    register p para a a.epoll_ok dev_id addr node fd sess
node_inserted p para a dev_id addr node fd sess (false, dev, linked) =
    let p = record p { node_sess = update p.node_sess node none } in
    let p = put_dev p dev_id (push_free_session_node dev node) in
    (false, create_sess_error p para (failed 2) (some addr) sess.backend_sess_id (some fd))

-- From the free node on.
pub node_popped :
    BackendSessionPool
    → SessMsgPara
    → Answers
    → (dev_id addr fd : ℕ) → BackendSession
    → Option ℕ × HighSpeedNetDevice
    → Bool × BackendSessionPool
unfolding node_inserted create_sess_error
node_popped p para a dev_id addr fd sess (none, dev) =
    (false, create_sess_error p para (failed 3) (some addr) sess.backend_sess_id (some fd))
node_popped p para a dev_id addr fd sess (some node, dev) =
    let p = record p { node_sess = update p.node_sess node (some addr) } in
    node_inserted p para a dev_id addr node fd sess
      (insert_session_node dev node sess.proto_type false)

-- From connect_socket_netns on.
pub connected :
    BackendSessionPool
    → SessMsgPara
    → Answers
    → (connects : Bool) → (dev_id addr id fd : ℕ) → BackendSession
    → Bool × BackendSessionPool
unfolding node_popped filled create_sess_error
connected p para a false dev_id addr id fd raw =
    (false, create_sess_error p para (overwritten 4 a.junk_resp) (some addr) id (some fd))
connected p para a true dev_id addr id fd raw =
    let sess = filled raw para id fd in
    node_popped (put_sess p addr sess) para a dev_id addr fd sess
      (pop_free_session_node (p.hs_net_dev dev_id))

-- From create_socket_netns on.
pub socket_made :
    BackendSessionPool
    → SessMsgPara
    → Answers
    → (socket : Option ℕ) → (dev_id addr id : ℕ) → BackendSession
    → Bool × BackendSessionPool
unfolding connected create_sess_error
socket_made p para a none dev_id addr id raw =
    (false, create_sess_error p para (failed 3) (some addr) id none)
socket_made p para a (some fd) dev_id addr id raw =
    connected (record p { fds = fd ∷ p.fds }) para a a.connects dev_id addr id fd raw

-- From GET_NS_ID on. The macro stops the program (`none`) if the device is not there or not active.
pub on_device :
    BackendSessionPool
    → SessMsgPara
    → Answers
    → (dev : Option ℕ) → (addr id : ℕ) → BackendSession
    → Option (Bool × BackendSessionPool)
unfolding socket_made create_sess_error
on_device p para a none addr id raw =
    some (false, create_sess_error p para (failed 2) (some addr) id none)
on_device p para a (some dev_id) addr id raw =
    if ltb dev_id 16
    then (if (p.hs_net_dev dev_id).active
        then elim (p.hs_net_dev dev_id).ns_id [
          | none ↦ some (false, create_sess_error p para (failed 2) (some addr) id none)
          | some ns_id ↦ some (socket_made p para a a.socket dev_id addr id raw)
        ]
        else none)
    else none

-- From the id on. DEV_ID_AUTO_HANDOVER is 255.
pub with_id :
    BackendSessionPool
    → SessMsgPara
    → Answers
    → (addr : ℕ) → BackendSession
    → ℕ × List ℕ
    → Option (Bool × BackendSessionPool)
unfolding on_device create_sess_error
with_id p para a addr raw (id, id_queue) =
    let p = record p { id_queue = id_queue } in
    if id == 0
    then some (false, create_sess_error p para (failed 3) (some addr) id none)
    else (if p.dev_num == 0
        then some (false, create_sess_error p para (failed 2) (some addr) id none)
        else (let dev = if para.dev_id == 255 then a.auto_dev else some para.dev_id in
            on_device p para a dev addr id raw))

-- From `malloc` on.
pub allocated :
    BackendSessionPool
    → SessMsgPara
    → Answers
    → Option (ℕ × BackendSession)
    → Option (Bool × BackendSessionPool)
unfolding with_id create_sess_error
allocated p para a none = some (false, create_sess_error p para (failed 3) none a.junk_id none)
allocated p para a (some (addr, raw)) =
    with_id (put_sess p addr raw) para a addr raw (allocate_id p.id_queue)

pub high_speed_create_sess_active :
    BackendSessionPool → SessMsgPara → Answers → Option (Bool × BackendSessionPool)
unfolding allocated
high_speed_create_sess_active p para a =
    if p.wired then allocated p para a a.block else some (false, p)
