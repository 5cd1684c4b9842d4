-- ===== src/Pool.antt =====
-- The session pool of src/session_pool.c with what it shares with include/session.h and
-- include/dev.h: the sessions on the heap, the table of sessions by id, the queue of free ids, the
-- transfer queues and the devices' queues of session nodes. A pointer is an address; a tail queue is the
-- list of its elements, and a flag bit is a Boolean.
pub mod Ids
pub mod Nodes
pub mod Links
pub mod Create
pub mod Table
pub mod Lifetime
use high_speed_cproxy.Base.{
  ℕ, zero, suc, ◌+◌, ◌-◌, Bool, true, false, not, ◌||◌, Option, none, some, List, [], ◌∷◌, ◌++◌,
  ◌==◌, if◌then◌else◌, update, remove,
}
use high_speed_cproxy.Memory.{Memory}

-- `SessMsgSeg`: the type is SESS_MSG_SEG_SHARED_MEM or not; `len` bytes count of the buffer
-- `payload` (`data`), which is `none` for NULL.
pub record SessMsgSeg : Type 0 where
  pub len : ℕ
  pub shared_mem : Bool
  pub payload : Option Memory

-- `BackendSession`, the members that the pool's functions use. `status` is `net_channel.status`: true
-- for EPOLL_REG_STATUS_REGISTERED. The state fields hold one flag each.
pub record BackendSession : Type 0 where
  pub dev_id : ℕ
  pub proto_type : ℕ
  pub establish_mode : ℕ
  pub sock_fd : ℕ
  pub ip_version : ℕ
  pub frontend_sess_id : ℕ
  pub backend_sess_id : ℕ
  pub state_f2b : Bool
  pub state_b2f : Bool
  pub sess_dev_link_state : Bool
  pub sess_node : Option ℕ
  pub status : Bool
  pub msg_f2b : List SessMsgSeg
  pub msg_b2f : List SessMsgSeg

-- `HighSpeedNetDevice`: its namespace (`none` for ERROR_NAMESPACE_ID) and its queues of session nodes.
pub record HighSpeedNetDevice : Type 0 where
  pub active : Bool
  pub ns_id : Option ℕ
  pub udp_node_queue : List ℕ
  pub tcp_node_queue : List ℕ
  pub free_node_queue : List ℕ

-- `SessOpRespData`: SESS_OP_STATUS_FAIL is 1; the codes 2, 3 and 4 are DEVICE_ERROR,
-- RESOURCE_INSUFFICIENT and NETWORK_UNREACHABLE.
pub record SessOpRespData : Type 0 where
  pub op_status : ℕ
  pub code : ℕ

-- A response passed to the frontend: SESS_MSG_CREATE or SESS_MSG_CLOSE, and to which session.
pub data Response : Type 0 where
  created : (frontend_sess_id backend_sess_id : ℕ) → SessOpRespData → Response
  create_failed : (frontend_sess_id : ℕ) → SessOpRespData → Response
  closed : (frontend_sess_id : ℕ) → SessOpRespData → Response

-- `BackendSessionPool` and what hangs on it. `heap` gives the live sessions, `htable` the table's
-- entries, `node_sess` a node's `sess`, `epoll` the descriptors that epoll_ctl has added and not
-- deleted, `fds` the open ones, and `sent` the responses, the last first. That closing a descriptor also ends its
-- registration does not show in `epoll`. `wired`: the engine and both tables of operations are there.
pub record BackendSessionPool : Type 0 where
  pub wired : Bool
  pub dev_num : ℕ
  pub sess_num : ℕ
  pub id_queue : List ℕ
  pub queue_f2b : List ℕ
  pub queue_b2f : List ℕ
  pub htable : List (ℕ × ℕ)
  pub heap : ℕ → Option BackendSession
  pub hs_net_dev : ℕ → HighSpeedNetDevice
  pub node_sess : ℕ → Option ℕ
  pub epoll : List ℕ
  pub fds : List ℕ
  pub sent : List Response

-- fill_id_queue: the ids from `i` on, so many of them, at the tail.
pub fill_from : List ℕ → (i rounds : ℕ) → List ℕ
fill_from id_q i zero = id_q
fill_from id_q i (suc rounds) = fill_from (id_q ++ (i ∷ [])) (i + 1) rounds

unfoldable pub fill_id_queue : List ℕ → List ℕ
unfolding fill_from
fill_id_queue id_q = fill_from id_q 1 1024

unfoldable pub allocate_id : List ℕ → ℕ × List ℕ
allocate_id [] = (0, [])
allocate_id (id ∷ id_q) = (id, id_q)

unfoldable pub release_id : List ℕ → ℕ → List ℕ
release_id id_q id = id_q ++ (id ∷ [])

-- `HASH_FIND` on the table.
unfoldable pub search_in : List (ℕ × ℕ) → ℕ → Option ℕ
search_in [] id = none
search_in ((key, sess) ∷ rest) id =
    let other = search_in rest id in if key == id then some sess else other

-- `HASH_DEL`: the entry of this session.
unfoldable pub delete_in : List (ℕ × ℕ) → ℕ → List (ℕ × ℕ)
delete_in [] addr = []
delete_in ((key, sess) ∷ rest) addr =
    let other = delete_in rest addr in if sess == addr then rest else (key, sess) ∷ other

-- BACKEND_SESS_LINK_TO_QUEUE and BACKEND_SESS_UNLINK_FROM_QUEUE: the queue and the session's flag.
unfoldable pub link_to_queue : List ℕ → ℕ → Bool → List ℕ × Bool
link_to_queue q sess true = (q, true)
link_to_queue q sess false = (q ++ (sess ∷ []), true)

unfoldable pub unlink_from_queue : List ℕ → ℕ → Bool → List ℕ × Bool
unlink_from_queue q sess true = (remove sess q, false)
unlink_from_queue q sess false = (q, false)

-- HIGH_SPEED_NET_DEV_POP_FREE_SESSION_NODE, _PUSH_FREE_SESSION_NODE, _INSERT_SESSION_NODE and
-- _REMOVE_SESSION_NODE of include/dev.h. At their calls no pointer is NULL and the node's session is
-- the given one. SESS_UDP_PROTO is 0 and SESS_TCP_PROTO is 1; an insert of another protocol fails.
unfoldable pub pop_free_session_node : HighSpeedNetDevice → Option ℕ × HighSpeedNetDevice
pop_free_session_node dev = elim dev.free_node_queue [
  | [] ↦ (none, dev)
  | node ∷ rest ↦ (some node, record dev { free_node_queue = rest })
]

unfoldable pub push_free_session_node : HighSpeedNetDevice → ℕ → HighSpeedNetDevice
push_free_session_node dev node = record dev {
  free_node_queue = dev.free_node_queue ++ (node ∷ []);
}

unfoldable pub append_node : HighSpeedNetDevice → ℕ → (proto_type : ℕ) → HighSpeedNetDevice
append_node dev node proto_type =
    if proto_type == 0
    then record dev { udp_node_queue = dev.udp_node_queue ++ (node ∷ []) }
    else record dev { tcp_node_queue = dev.tcp_node_queue ++ (node ∷ []) }

unfoldable pub take_node : HighSpeedNetDevice → ℕ → (proto_type : ℕ) → HighSpeedNetDevice
take_node dev node proto_type =
    if proto_type == 0
    then record dev { udp_node_queue = remove node dev.udp_node_queue }
    else record dev { tcp_node_queue = remove node dev.tcp_node_queue }

-- The device and the session's flag after it, and whether it returns BACKEND_PROXY_PROCESS_OK.
unfoldable pub insert_session_node :
    HighSpeedNetDevice → (node proto_type : ℕ) → (linked : Bool) → Bool × HighSpeedNetDevice × Bool
unfolding append_node
insert_session_node dev node proto_type linked =
    if proto_type == 0 || proto_type == 1
    then (true, (if linked then dev else append_node dev node proto_type), true)
    else (false, dev, linked)

unfoldable pub remove_session_node :
    HighSpeedNetDevice → (node proto_type : ℕ) → (linked : Bool) → HighSpeedNetDevice × Bool
unfolding take_node
remove_session_node dev node proto_type linked =
    if proto_type == 0 || proto_type == 1
    then ((if linked then take_node dev node proto_type else dev), false)
    else (dev, linked)
