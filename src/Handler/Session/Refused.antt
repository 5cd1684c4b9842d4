-- ===== src/Handler/Session/Refused.antt =====
-- The messages that backend_proxy_sess_msg_process of src/backend_proto.c refuses.
use high_speed_cproxy.Base.{
  ℕ, ◌+◌, ◌≤◌, ◌≡◌, ◌≢◌, ◌⊎◌, inl, inr, refl, ap, Bool, true, false, not, ◌&&◌, Option, none, some,
  arith, ◌==◌, if◌then◌else◌,
}
use high_speed_cproxy.Memory.{Memory}
use high_speed_cproxy.Selector.{Ret, process_ok, process_error}
use high_speed_cproxy.Pool.{BackendSession, BackendSessionPool}
use high_speed_cproxy.Pool.Create.{Answers}
use high_speed_cproxy.Pool.Table.{high_speed_search_sess, high_speed_delete_sess}
use high_speed_cproxy.Handler.Session.{
  SessMsgHeader, sess_header_at, sess_msg_payload_len, with_session, register_epoll, passive_create,
  close_sess, active_create, by_msg_type, backend_proxy_sess_msg_process_ver1,
  backend_proxy_sess_msg_process,
}

module _ {ℓ} {A : Type ℓ} (r x : A) where
  first_guards :
      (action version : ℕ)
      → (version ≢ 1) ⊎ (2 ≤ action) ⊎ (r ≡ x)
      → (if not (action == 0) && not (action == 1) then x else (if version == 1 then r else x)) ≡ x
  first_guards action version (inl e) = ground (arith, e)
  first_guards action version (inr (inl e)) = ground (arith, e)
  first_guards action version (inr (inr e)) = ground (arith, e)

  len_guard :
      (corr : Option ℕ) (len : ℕ)
      → (corr ≢ some len) ⊎ (r ≡ x)
      → elim corr [ none ↦ x | some corr_len ↦ if not (corr_len == len) then x else r ] ≡ x
  len_guard none len h = refl
  len_guard (some corr_len) len (inl e) = ground (arith, e)
  len_guard (some corr_len) len (inr e) = ground (arith, e)

type_guards {ℓ} :
    {A : Type ℓ} (passive close active x : A) (m action b : ℕ)
    → passive ≡ x
    → close ≡ x
    → b ≢ 65535
    → (if m == 1
        then (if not (b == 65535) then (if not (action == 1) then x else passive) else active)
        else (if m == 0 then close else x))
      ≡ x
type_guards passive close active x m action b e₁ e₂ h = ground (arith, e₁, e₂, h)

module _ (mem_pool : Bool) (a : Answers) (p : BackendSessionPool) (f b : ℕ) where
  unknown :
      (guard : Bool) (g : ℕ → BackendSession → Ret × BackendSessionPool)
      → high_speed_search_sess p b ≡ none
      → (if guard then with_session p (high_speed_search_sess p b) g else some (process_error, p))
        ≡ some (process_error, p)
  unfolding with_session
  unknown false g e = refl
  unknown true g e = ap (λ o. with_session p o g) e

  passive_unknown :
      high_speed_search_sess p b ≡ none
      → passive_create p mem_pool a.epoll_ok b ≡ some (process_error, p)
  unfolding passive_create
  passive_unknown e =
      unknown (p.wired && mem_pool)
        (λ addr sess.
          if sess.establish_mode == 0
          then register_epoll p a.epoll_ok addr sess
          else (process_error, p))
        e

  close_unknown : high_speed_search_sess p b ≡ none → close_sess p b ≡ some (process_error, p)
  unfolding close_sess
  close_unknown e =
      unknown p.wired (λ addr sess. (process_ok, high_speed_delete_sess p addr sess)) e

  no_session :
      (hdr : SessMsgHeader) (payload : Memory)
      → b ≢ 65535
      → high_speed_search_sess p b ≡ none
      → by_msg_type p mem_pool a f b hdr payload ≡ some (process_error, p)
  unfolding by_msg_type
  no_session hdr payload h e =
      type_guards (passive_create p mem_pool a.epoll_ok b) (close_sess p b)
        (active_create p a f hdr.ip_version hdr.payload_len payload) (some (process_error, p))
        hdr.msg_type hdr.action_type b (passive_unknown e) (close_unknown e) h

  -- A session message whose version is not 1, whose action is neither a command nor a response, whose length is
  -- not the one that belongs to its type, action and IP version (which an unknown type, or a creation
  -- over neither IPv4 nor IPv6, does not have), or which names a session that the table does not have, is answered with
  -- BACKEND_PROXY_PROCESS_ERROR and leaves the pool as it was.
  pub sess_refused :
      (msg : Memory)
      → let hdr = sess_header_at msg in
        (hdr.version ≢ 1)
          ⊎ (2 ≤ hdr.action_type)
          ⊎ (sess_msg_payload_len hdr.msg_type hdr.action_type hdr.ip_version
              ≢ some hdr.payload_len)
          ⊎ ((b ≢ 65535) × (high_speed_search_sess p b ≡ none))
        → backend_proxy_sess_msg_process mem_pool a p f b msg ≡ some (process_error, p)
  unfolding backend_proxy_sess_msg_process backend_proxy_sess_msg_process_ver1
  sess_refused msg h =
      let hdr = sess_header_at msg in
      let payload : Memory = λ j. msg (10 + j) in
      let error : Option (Ret × BackendSessionPool) = some (process_error, p) in
      let corr = sess_msg_payload_len hdr.msg_type hdr.action_type hdr.ip_version in
      let handled = by_msg_type p mem_pool a f b hdr payload in
      first_guards (backend_proxy_sess_msg_process_ver1 p mem_pool a f b hdr payload) error
        hdr.action_type hdr.version
        (elim h [
          | inl e ↦ inl e
          | inr (inl e) ↦ inr (inl e)
          | inr (inr (inl e)) ↦ inr (inr (len_guard handled error corr hdr.payload_len (inl e)))
          | inr (inr (inr (e, n))) ↦ inr (
              inr (len_guard handled error corr hdr.payload_len (inr (no_session hdr payload e n))))
        ])
