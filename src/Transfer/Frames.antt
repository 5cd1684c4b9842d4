-- ===== src/Transfer/Frames.antt =====
-- What high_speed_data_process_nns of src/session_pool.c makes of the bytes it reads, and that the queue takes
-- its messages.
use mathlib.Core.List.{append-nil, append_assoc}
use native.Mathlib.Nat.{mod-eq_of_lt}
use high_speed_cproxy.Base.{
  ℕ, zero, suc, ◌+◌, ◌-◌, ◌%◌, ◌^◌, ◌≤◌, ◌<◌, ◌≡◌, refl, ap, ap₂, ◌∙◌, subst, true, some, List, [],
  ◌∷◌, ◌++◌, arith, length,
}
use high_speed_cproxy.Memory.{Memory, hyperamp_safe_memcpy}
use high_speed_cproxy.Memory.Copy.{Holds, Holds-agree, bytes, hyperamp_safe_memcpy-Holds}
use high_speed_cproxy.Message.{header_at, put_header}
use high_speed_cproxy.Message.Header.{header_at-put_header}
use high_speed_cproxy.Selector.{process_ok}
use high_speed_cproxy.Pool.Links.{link_sets}
use high_speed_cproxy.Pool.{SessMsgSeg, BackendSession, link_to_queue}
use high_speed_cproxy.Transfer.Drain.{Fit}
use high_speed_cproxy.Transfer.Receive.{
  Round, reads, list_memory, data_header, frame, nns_loop, nns_done, high_speed_data_process_nns,
}

-- The segment holds a data message of the session with these bytes.
pub record IsFrame (frontend_sess_id backend_sess_id : ℕ) (chunk : List ℕ) (seg : SessMsgSeg)
    : Type 0 where
  pub buf : Memory
  pub payload : seg.payload ≡ some buf
  pub header : header_at buf ≡ record {
    version = 1;
    proxy_msg_type = 3;
    frontend_sess_id = frontend_sess_id;
    backend_sess_id = backend_sess_id;
    payload_len = length chunk;
  }
  pub holds : Holds buf 8 chunk
  pub len : seg.len ≡ length chunk + 8

-- What each round reads, with the block that it is read into.
abbrev pub Chunks : Type 0
Chunks = List (Memory × List ℕ)

abbrev pub total : Chunks → ℕ
total [] = 0
total ((block, chunk) ∷ rest) = length chunk + total rest

abbrev pub rounds_of : Chunks → List Round
rounds_of [] = []
rounds_of ((block, chunk) ∷ rest) = reads block chunk ∷ rounds_of rest

-- Every read returns 1 to 4088 bytes.
abbrev pub IsRead : Chunks → Type 0
IsRead [] = Unit
IsRead ((block, chunk) ∷ rest) = (0 < length chunk) × (length chunk ≤ 4088) × IsRead rest

abbrev pub Frames : ℕ → ℕ → Chunks → List SessMsgSeg → Type 0
Frames f b [] [] = Unit
Frames f b [] (seg ∷ segs) = ⊥
Frames f b (c ∷ cs) [] = ⊥
Frames f b ((block, chunk) ∷ rest) (seg ∷ segs) = IsFrame f b chunk seg × Frames f b rest segs

bytes-list_memory :
    (m : Memory) (a : ℕ) (xs : List ℕ)
    → ((k : ℕ) → m (a + k) ≡ list_memory xs k)
    → bytes m a (length xs) ≡ xs
bytes-list_memory m a [] h = refl
bytes-list_memory m a (x ∷ xs) h =
    ap₂ (λ y ys. y ∷ ys) (ap m (omega arith) ∙ h 0)
      (bytes-list_memory m (a + 1) xs (λ k. ap m (omega arith) ∙ h (suc k)))

module _ (f b : ℕ) (hf : f < 2 ^ 16) (hb : b < 2 ^ 16) where
  frame-IsFrame :
      (block : Memory) (chunk : List ℕ)
      → length chunk ≤ 4088
      → IsFrame f b chunk (frame f b block chunk)
  unfolding frame
  frame-IsFrame block chunk h = record {
    buf = put_header copied (data_header f b (length chunk));
    payload = refl;
    header = written.0 ∙ rw small refl;
    holds =
        Holds-agree copied 8 (put_header copied (data_header f b (length chunk))) 8 chunk
          (λ k l. written.1 k)
          (subst (Holds copied 8)
            (bytes-list_memory (list_memory chunk) 0 chunk
              (λ k. ap (list_memory chunk) (omega arith)))
            (hyperamp_safe_memcpy-Holds block 8 (list_memory chunk) 0 (length chunk)));
    len = omega (arith, h);
  }
    where
      copied : Memory
      copied = hyperamp_safe_memcpy block 8 (list_memory chunk) 0 (length chunk)

      small : length chunk % 2 ^ 16 ≡ length chunk
      small = mod-eq_of_lt (omega (arith, h))

      written :
          (header_at (put_header copied (data_header f b (length chunk)))
            ≡ data_header f b (length chunk))
          × ((j : ℕ) → put_header copied (data_header f b (length chunk)) (8 + j) ≡ copied (8 + j))
      written =
          header_at-put_header copied (data_header f b (length chunk))
            (record { frontend_u16 = hf; backend_u16 = hb; payload_u16 = omega arith })

  abbrev framed : Chunks → List SessMsgSeg
  framed [] = []
  framed ((block, chunk) ∷ rest) = frame f b block chunk ∷ framed rest

  framed-Frames : (cs : Chunks) → IsRead cs → Frames f b cs (framed cs)
  framed-Frames [] h = tt
  framed-Frames ((block, chunk) ∷ rest) h = (frame-IsFrame block chunk h.1, framed-Frames rest h.2)

  framed-Fit : (cs : Chunks) → IsRead cs → Fit 4096 (framed cs)
  framed-Fit [] h = tt
  framed-Fit ((block, chunk) ∷ rest) h =
      let g = frame-IsFrame block chunk h.1 in
      ((g.buf, g.payload), omega (arith, g.len), omega (arith, g.len, h.1), framed-Fit rest h.2)

  loop_reads :
      (cs : Chunks) (n : ℕ) (q : List SessMsgSeg)
      → IsRead cs
      → total cs ≡ n
      → nns_loop f b n q (rounds_of cs) ≡ some (process_ok, q ++ framed cs, true)
  unfolding nns_loop
  loop_reads [] zero q h e = rw (append-nil q) refl
  loop_reads [] (suc n) q h e = absurd (ground (arith, e))
  loop_reads ((block, chunk) ∷ rest) zero q h e = absurd (omega (arith, e, h.0))
  loop_reads ((block, chunk) ∷ rest) (suc n) q h e =
      loop_reads rest (suc n - length chunk) (q ++ (frame f b block chunk ∷ [])) h.2
        (omega (arith, e))
      ∙ ap (λ l. some (process_ok, l, true))
          (append_assoc q (frame f b block chunk ∷ []) (framed rest))

-- When the socket has some bytes ready and reads of 1 to 4088 bytes return exactly those,
-- high_speed_data_process_nns returns BACKEND_PROXY_PROCESS_OK. Behind the session's messages it has queued one data
-- message for each read, in order, with the session's ids and the read's bytes and length; each fits a
-- block of 4096 bytes, and the session is linked to the pool's queue.
pub nns_forwards :
    (queue_b2f : List ℕ) (addr : ℕ) (sess : BackendSession) (cs : Chunks)
    → sess.frontend_sess_id < 2 ^ 16
    → sess.backend_sess_id < 2 ^ 16
    → IsRead cs
    → (segs : List SessMsgSeg) × (high_speed_data_process_nns queue_b2f addr sess
          (some (total cs))
          (rounds_of cs)
        ≡ some (
          process_ok,
          record sess { msg_b2f = sess.msg_b2f ++ segs; state_b2f = true },
          (link_to_queue queue_b2f addr sess.state_b2f).0,
        ))
      × Frames sess.frontend_sess_id sess.backend_sess_id cs segs
      × Fit 4096 segs
unfolding high_speed_data_process_nns nns_done link_to_queue
nns_forwards queue_b2f addr sess cs hf hb h =
    let f = sess.frontend_sess_id in
    let b = sess.backend_sess_id in
    (
      framed f b hf hb cs,
      ap (λ o. nns_done queue_b2f addr sess o)
            (loop_reads f b hf hb cs (total cs) sess.msg_b2f h refl)
          ∙ ap
              (λ s. some (
                process_ok,
                record sess { msg_b2f = sess.msg_b2f ++ framed f b hf hb cs; state_b2f = s },
                (link_to_queue queue_b2f addr sess.state_b2f).0,
              ))
              (link_sets queue_b2f addr sess.state_b2f),
      framed-Frames f b hf hb cs h,
      framed-Fit f b hf hb cs h,
    )
