-- ===== src/Engine/Forward.antt =====
-- A data message from the shared-memory queue through engine_run_hyperamp of src/engine.c to its session.
use high_speed_cproxy.Base.{
  ℕ, zero, suc, ◌+◌, ◌≤◌, ◌<◌, ◌≡◌, refl, ap, ap₂, subst, ◌∙◌, true, some, Option, List, [], ◌∷◌,
  arith, take,
}
use high_speed_cproxy.Memory.{Memory, read_le}
use high_speed_cproxy.Memory.Copy.{Holds, bytes}
use high_speed_cproxy.Message.{
  ProxyMsgHeader, header_at, put_header, Handlers, backend_proxy_msg_process,
}
use high_speed_cproxy.Message.Header.{IsHeader, header_at-put_header}
use high_speed_cproxy.Selector.{process_again}
use high_speed_cproxy.Pool.{BackendSession, BackendSessionPool}
use high_speed_cproxy.Pool.Table.{high_speed_search_sess}
use high_speed_cproxy.Shm.{Shm}
use high_speed_cproxy.Shm.Fifo.{Rep}
use high_speed_cproxy.Handler.Data.{segment_of, with_segment}
use high_speed_cproxy.Handler.Forward.{with_data, buffer_queued}
use high_speed_cproxy.Engine.{step1}
use high_speed_cproxy.Engine.Quiet.{HoldAll, writing_nothing, receive_quiet}

-- The bytes of a message: the header, and as many bytes after it as the header says.
abbrev pub message_bytes : ProxyMsgHeader → Memory → List ℕ
message_bytes hdr m = bytes (put_header m hdr) 0 (8 + hdr.payload_len)

take-bytes : (m : Memory) (a n k : ℕ) → n ≤ k → take k (bytes m a n) ≡ bytes m a n
take-bytes m a zero zero h = refl
take-bytes m a zero (suc k) h = refl
take-bytes m a (suc n) zero h = absurd (omega (arith, h))
take-bytes m a (suc n) (suc k) h = ap (λ l. m a ∷ l) (take-bytes m (a + 1) n k (omega (arith, h)))

Holds-at : (m w : Memory) (a b n k : ℕ) → Holds m a (bytes w b n) → k < n → m (a + k) ≡ w (b + k)
Holds-at m w a b zero k h l = absurd (omega (arith, l))
Holds-at m w a b (suc n) zero h l = ap m (omega arith) ∙ h.0 ∙ ap w (omega arith)
Holds-at m w a b (suc n) (suc k) h l =
    ap m (omega arith)
    ∙ Holds-at m w (a + 1) (b + 1) n k h.1 (omega (arith, l))
    ∙ ap w (omega arith)

bytes_within :
    (m w : Memory) (a n : ℕ) → ((k : ℕ) → k < n → m (a + k) ≡ w (a + k)) → bytes m a n ≡ bytes w a n
bytes_within m w a zero h = refl
bytes_within m w a (suc n) h =
    ap₂ (λ x l. x ∷ l) (ap m (omega arith) ∙ h 0 (omega arith) ∙ ap w (omega arith))
      (bytes_within m w (a + 1) n
        (λ k l. ap m (omega arith) ∙ h (suc k) (omega (arith, l)) ∙ ap w (omega arith)))

header_within : (m w : Memory) → ((k : ℕ) → k < 8 → m k ≡ w k) → header_at m ≡ header_at w
unfolding header_at read_le
header_within m w h =
    rw
      (
        h 0 (omega arith),
        h 1 (omega arith),
        h 2 (omega arith),
        h 3 (omega arith),
        h 4 (omega arith),
        h 5 (omega arith),
        h 6 (omega arith),
        h 7 (omega arith),
      )
      refl

-- The only buffer of one message.
one_buffer :
    (bufs : List Memory) (m : List ℕ)
    → HoldAll bufs (m ∷ [])
    → (buf : Memory) × (bufs ≡ buf ∷ []) × Holds buf 0 (take 4096 m)
one_buffer [] m h = absurd h
one_buffer (buf ∷ []) m h = (buf, refl, h.0)
one_buffer (buf ∷ b ∷ bufs) m h = absurd h.1

-- A valid queue holds one message: a header of type data with members of their C types' widths and a payload of at most
-- 4088 bytes, as many as the header says. If the pool has its operations, its memory pool and
-- memory for a segment, the session that the header names is in the table and live, and the handlers write nothing to
-- the region of the queues, as the one for data does not, then the first step of
-- engine_run_hyperamp ends with BACKEND_PROXY_PROCESS_AGAIN and an empty queue, and in the pool
-- exactly the payload is the last segment of the session's frontend-to-backend queue and the session is
-- linked to the pool's queue.
pub data_arrives :
    (rest : Handlers BackendSessionPool) (p : BackendSessionPool) (block : Memory)
    (hdr : ProxyMsgHeader) (m : Memory) (addr : ℕ) (sess : BackendSession) (base : ℕ) (s : Shm)
    (msg_buf : Memory) (n : ℕ)
    → Rep base s (message_bytes hdr m ∷ [])
    → IsHeader hdr
    → hdr.proxy_msg_type ≡ 3
    → hdr.payload_len ≤ 4088
    → p.wired ≡ true
    → high_speed_search_sess p hdr.backend_sess_id ≡ some addr
    → p.heap addr ≡ some sess
    → (s' : Shm) × (buf : Memory) × (len : Option ℕ) × Rep base s' []
      × Holds buf 0 (bytes m 8 hdr.payload_len)
      × (step1
            (writing_nothing (backend_proxy_msg_process (with_data rest block)))
            2
            s
            base
            msg_buf
            (some n)
            p
          ≡ some (record {
            ret = process_again;
            shm = s';
            block_size = len;
            state = with_segment p addr sess (segment_of hdr.payload_len buf);
          }))
data_arrives rest p block hdr m addr sess base s msg_buf n r h data_type fits w found live =
    let process = backend_proxy_msg_process (with_data rest block) in
    let (s', bufs, len, all, empty, run) =
      receive_quiet process base 2 s (message_bytes hdr m ∷ []) msg_buf n r (omega arith) in
    let (buf₀, one, begins) = one_buffer bufs (message_bytes hdr m) all in
    let whole =
      subst (Holds buf₀ 0)
        (take-bytes (put_header m hdr) 0 (8 + hdr.payload_len) 4096 (omega (arith, fits))) begins in
    let same : (k : ℕ) → k < 8 + hdr.payload_len → buf₀ k ≡ put_header m hdr k = λ k l.
      ap buf₀ (omega arith)
      ∙ Holds-at buf₀ (put_header m hdr) 0 0 (8 + hdr.payload_len) k whole l
      ∙ ap (put_header m hdr) (omega arith) in
    let written = header_at-put_header m hdr h in
    let read =
      header_within buf₀ (put_header m hdr) (λ k l. same k (omega (arith, l))) ∙ written.0 in
    let (buf, holds, queued) =
      buffer_queued rest p block hdr buf₀ addr sess read h data_type w found live in
    (
      s',
      buf,
      len,
      empty,
      subst (Holds buf 0)
          (bytes_within buf₀ m 8 hdr.payload_len
            (λ k l. same (8 + k) (omega (arith, l)) ∙ written.1 k))
          holds,
      run p ∙ rw (one, queued) refl,
    )
