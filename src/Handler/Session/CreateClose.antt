-- ===== src/Handler/Session/CreateClose.antt =====
-- A session that a message creates and another closes, and the messages that backend_proxy_sess_msg_process of
-- src/backend_proto.c refuses.
use high_speed_cproxy.Base.{
  ℕ, ◌+◌, ◌≡◌, sym, ap, subst, ◌∙◌, Bool, true, not, ◌&&◌, Option, none, some, List, ◌==◌,
  if◌then◌else◌,
}
use high_speed_cproxy.Memory.{Memory}
use high_speed_cproxy.Selector.{Ret, process_ok, process_error}
use high_speed_cproxy.Pool.{BackendSession, BackendSessionPool}
use high_speed_cproxy.Pool.Create.{Answers, high_speed_create_sess_active}
use high_speed_cproxy.Pool.Create.Success.{IsSmooth, create_succeeds}
use high_speed_cproxy.Pool.Table.{high_speed_search_sess, high_speed_delete_sess}
use high_speed_cproxy.Pool.Table.Delete.{IsUndone, IsUnused, made, delete_undoes_create}
use high_speed_cproxy.Handler.Session.{
  SessMsgHeader, sess_header_at, sess_msg_payload_len, sess_para_at, create_result, active_create,
  with_session, close_sess, by_msg_type, backend_proxy_sess_msg_process_ver1,
  backend_proxy_sess_msg_process,
}

-- The headers of the command that creates a session over IPv4 and of the command that closes one.
abbrev pub create_command : SessMsgHeader
create_command = record {
  version = 1;
  msg_type = 1;
  action_type = 0;
  ip_version = 4;
  payload_len = 10;
}

abbrev pub close_command : SessMsgHeader
close_command = record {
  version = 1;
  msg_type = 0;
  action_type = 0;
  ip_version = 4;
  payload_len = 0;
}

abbrev pub payload_of : Memory → Memory
payload_of msg j = msg (10 + j)

-- The message's result when its header is the given one.
with_header :
    (mem_pool : Bool) (a : Answers) (p : BackendSessionPool) (f b : ℕ) (msg : Memory)
    (hdr : SessMsgHeader)
    → sess_header_at msg ≡ hdr
    → backend_proxy_sess_msg_process mem_pool a p f b msg ≡ (
        if not (hdr.action_type == 0) && not (hdr.action_type == 1)
        then some (process_error, p)
        else (if hdr.version == 1
            then backend_proxy_sess_msg_process_ver1 p mem_pool a f b hdr (payload_of msg)
            else some (process_error, p)))
unfolding backend_proxy_sess_msg_process
with_header mem_pool a p f b msg hdr e =
    ap
      (λ h.
        if not (h.action_type == 0) && not (h.action_type == 1)
        then some (process_error, p)
        else (if h.version == 1
            then backend_proxy_sess_msg_process_ver1 p mem_pool a f b h (payload_of msg)
            else some (process_error, p)))
      e

create_message :
    (mem_pool : Bool) (a : Answers) (p : BackendSessionPool) (f : ℕ) (msg : Memory)
    → sess_header_at msg ≡ create_command
    → p.wired ≡ true
    → backend_proxy_sess_msg_process mem_pool a p f 65535 msg
      ≡ create_result (high_speed_create_sess_active p (sess_para_at f 4 (payload_of msg)) a)
unfolding backend_proxy_sess_msg_process_ver1 sess_msg_payload_len by_msg_type active_create
create_message mem_pool a p f msg e w =
    with_header mem_pool a p f 65535 msg create_command e
    ∙ ap
        (λ b.
          if b
          then create_result (high_speed_create_sess_active p (sess_para_at f 4 (payload_of msg)) a)
          else some (process_error, p))
        w

close_message :
    (mem_pool : Bool) (a : Answers) (p : BackendSessionPool) (f b addr : ℕ) (sess : BackendSession)
    (msg : Memory)
    → sess_header_at msg ≡ close_command
    → p.wired ≡ true
    → high_speed_search_sess p b ≡ some addr
    → p.heap addr ≡ some sess
    → backend_proxy_sess_msg_process mem_pool a p f b msg
      ≡ some (process_ok, high_speed_delete_sess p addr sess)
unfolding backend_proxy_sess_msg_process_ver1 sess_msg_payload_len by_msg_type close_sess
    with_session
close_message mem_pool a p f b addr sess msg e w found live =
    let delete : ℕ → BackendSession → Ret × BackendSessionPool =
      λ addr sess. (process_ok, high_speed_delete_sess p addr sess) in
    with_header mem_pool a p f b msg close_command e
    ∙ ap
        (λ t.
          if t then with_session p (high_speed_search_sess p b) delete else some (process_error, p))
        w
    ∙ ap (λ o. with_session p o delete) found
    ∙ ap (λ o. elim o [ none ↦ none | some s ↦ some (delete addr s) ]) live

-- A message to the handover session that asks for a session over IPv4, in a pool where nothing stands in the
-- way of its creation, where the node is unused and the new block, which is not in use, happens to hold the device's number
-- as `dev_id` and to have the flags of both queues of active sessions clear, and then a message that closes the session under the id that was given out: both return BACKEND_PROXY_PROCESS_OK, and the
-- pool is then as it was, up to the order of free ids and free nodes.
pub create_then_close :
    (mem_pool : Bool) (p : BackendSessionPool) (a a₂ : Answers) (f addr id d ns fd node : ℕ)
    (raw : BackendSession) (rest nodes : List ℕ) (create close : Memory)
    → sess_header_at create ≡ create_command
    → sess_header_at close ≡ close_command
    → IsSmooth p (sess_para_at f 4 (payload_of create)) a addr id d ns fd node raw rest nodes
    → a.sent_ok ≡ true
    → IsUnused p addr d node raw
    → raw.dev_id ≡ d
    → (q z : BackendSessionPool) × (backend_proxy_sess_msg_process mem_pool a p f 65535 create
        ≡ some (process_ok, q))
      × (backend_proxy_sess_msg_process mem_pool a₂ q f id close ≡ some (process_ok, z))
      × IsUndone p z id rest
unfolding create_result high_speed_search_sess
create_then_close mem_pool p a a₂ f addr id d ns fd node raw rest nodes create close e₁ e₂ h s u
      same =
    let para = sess_para_at f 4 (payload_of create) in
    let (q, run, c) = create_succeeds p para a addr id d ns fd node raw rest nodes h s in
    let (q₂, run₂, undone) =
      delete_undoes_create p para a addr id d ns fd node raw rest nodes h s u same in
    (
      q,
      high_speed_delete_sess q addr (made para id fd node raw),
      create_message mem_pool a p f create e₁ h.wired ∙ ap (λ r. create_result r) run,
      close_message mem_pool a₂ q f id addr (made para id fd node raw) close e₂ (c.wired ∙ h.wired)
          c.found c.stored,
      subst (λ q. IsUndone p (high_speed_delete_sess q addr (made para id fd node raw)) id rest)
          (ap (λ r. pool_of p r) (sym run₂ ∙ run)) undone,
    )
  where
    pool_of : BackendSessionPool → Option (Bool × BackendSessionPool) → BackendSessionPool
    pool_of p none = p
    pool_of p (some r) = r.1
