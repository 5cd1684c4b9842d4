-- ===== src/Transfer/Drain.antt =====
-- high_speed_data_process_b2f of src/session_pool.c on the shared-memory queue of
-- src/hyperamp_shm_queue.c: a session's messages reach the frontend in order.
use mathlib.Core.List.{append-nil, append_assoc}
use high_speed_cproxy.Base.{
  ℕ, ◌+◌, ◌≤◌, ◌<◌, ◌≡◌, ◌≢◌, refl, sym, ap, ◌∙◌, subst, ◌⊎◌, inl, inr, Option, none, some, ◌>>=◌,
  List, [], ◌∷◌, ◌++◌, map, arith, length, dec_lt,
}
use high_speed_cproxy.Memory.{Memory}
use high_speed_cproxy.Memory.Copy.{bytes}
use high_speed_cproxy.Shm.{Shm}
use high_speed_cproxy.Shm.Fifo.{Rep, enqueue_fifo}
use high_speed_cproxy.Selector.{Ret, process_ok, process_error, process_again}
use high_speed_cproxy.Pool.{SessMsgSeg}
use high_speed_cproxy.Transfer.{backend_engine_hyperamp_tx_queue_put, high_speed_data_process_b2f}

-- The bytes of a segment.
abbrev pub bytes_of : Option Memory → ℕ → List ℕ
bytes_of none n = []
bytes_of (some buf) n = bytes buf 0 n

abbrev pub message : SessMsgSeg → List ℕ
message seg = bytes_of seg.payload seg.len

-- Every segment has a buffer and 1 to `block_size` bytes.
abbrev pub Fit : ℕ → List SessMsgSeg → Type 0
Fit block_size [] = Unit
Fit block_size (seg ∷ segs) =
    ((buf : Memory) × (seg.payload ≡ some buf))
    × (0 < seg.len)
    × (seg.len ≤ block_size)
    × Fit block_size segs

-- What a put does.
put_ok :
    (base : ℕ) (s : Shm) (ms : List (List ℕ)) (buf : Memory) (len : ℕ)
    → Rep base s ms
    → 0 < len
    → len ≤ s.block_size
    → length ms + 1 < s.capacity
    → (s' : Shm) × (backend_engine_hyperamp_tx_queue_put s base (some buf) len
        ≡ some (process_ok, s'))
      × Rep base s' (ms ++ (bytes buf 0 len ∷ []))
      × (s'.block_size ≡ s.block_size)
      × (s'.capacity ≡ s.capacity)
unfolding backend_engine_hyperamp_tx_queue_put
put_ok base s ms buf len r pos fits room =
    let (s', e, rep, b, c) = (enqueue_fifo base s ms 0 buf len r pos fits).0 room in
    (s', ground (arith, fits, e), rep, b, c)

put_again :
    (base : ℕ) (s : Shm) (ms : List (List ℕ)) (buf : Memory) (len : ℕ)
    → Rep base s ms
    → 0 < len
    → len ≤ s.block_size
    → length ms + 1 ≡ s.capacity
    → (s' : Shm) × (backend_engine_hyperamp_tx_queue_put s base (some buf) len
        ≡ some (process_again, s'))
      × Rep base s' ms
      × (s'.block_size ≡ s.block_size)
      × (s'.capacity ≡ s.capacity)
unfolding backend_engine_hyperamp_tx_queue_put
put_again base s ms buf len r pos fits room =
    let (s', e, rep, b, c) = (enqueue_fifo base s ms 0 buf len r pos fits).1 room in
    (s', ground (arith, fits, e), rep, b, c)

-- The segments split into those that the queue has taken, in order after its messages, and those left:
-- none, or, with the queue full, at least one.
pub record IsDrained (base : ℕ) (s s' : Shm) (ms : List (List ℕ)) (segs left : List SessMsgSeg)
    (ret : Ret) : Type 0 where
  pub taken : List SessMsgSeg
  pub split : segs ≡ taken ++ left
  pub rep : Rep base s' (ms ++ map message taken)
  pub block : s'.block_size ≡ s.block_size
  pub outcome :
      ((ret ≡ process_ok) × (left ≡ []))
      ⊎ ((ret ≡ process_again) × (left ≢ []) × (length (ms ++ map message taken) + 1 ≡ s'.capacity))

-- From a valid queue, high_speed_data_process_b2f with segments of 1 to block_size bytes returns. It has put
-- a first part of the segments into the queue, in order and after the messages that were there, and the
-- rest is still the session's, in order: with BACKEND_PROXY_PROCESS_OK nothing is left, and with
-- BACKEND_PROXY_PROCESS_AGAIN something is left and the queue is full.
pub b2f_drains :
    (base : ℕ) (s : Shm) (ms : List (List ℕ)) (segs : List SessMsgSeg)
    → Rep base s ms
    → Fit s.block_size segs
    → (ret : Ret) × (left : List SessMsgSeg) × (s' : Shm) × (high_speed_data_process_b2f s base segs
        ≡ some (ret, left, s'))
      × IsDrained base s s' ms segs left ret
unfolding high_speed_data_process_b2f
b2f_drains base s ms [] r f = (
  process_ok,
  [],
  s,
  refl,
  record {
    taken = [];
    split = refl;
    rep = rw (append-nil ms) r;
    block = refl;
    outcome = inl (refl, refl);
  },
)
b2f_drains base s ms (seg ∷ segs) r f = elim (dec_lt (length ms + 1) s.capacity) [
  | yes room ↦
      let (s1, put, rep, same_block, same_cap) = put_ok base s ms f.0.0 seg.len r f.1 f.2 room in
      let put' = ap (λ o. backend_engine_hyperamp_tx_queue_put s base o seg.len) f.0.1 ∙ put in
      let (ret, left, s', run, d) =
        b2f_drains base s1 (ms ++ (bytes f.0.0 0 seg.len ∷ [])) segs rep
          (subst (λ n. Fit n segs) (sym same_block) f.3) in
      let here : (ms ++ (bytes f.0.0 0 seg.len ∷ [])) ++ map message d.taken
          ≡ ms ++ map message (seg ∷ d.taken) =
        append_assoc ms (bytes f.0.0 0 seg.len ∷ []) (map message d.taken)
        ∙ ap (λ x. ms ++ (x ∷ map message d.taken)) (ap (λ o. bytes_of o seg.len) (sym f.0.1)) in
      (
        ret,
        left,
        s',
        rw put' run,
        record {
          taken = seg ∷ d.taken;
          split = ap (λ l. seg ∷ l) d.split;
          rep = subst (Rep base s') here d.rep;
          block = d.block ∙ same_block;
          outcome =
              subst
                (λ l.
                  ((ret ≡ process_ok) × (left ≡ []))
                  ⊎ ((ret ≡ process_again) × (left ≢ []) × (length l + 1 ≡ s'.capacity)))
                here d.outcome;
        },
      )
  | no full ↦
      let at : length ms + 1 ≡ s.capacity = omega (arith, r.room) in
      let (s1, put, rep, same_block, same_cap) = put_again base s ms f.0.0 seg.len r f.1 f.2 at in
      let put' = ap (λ o. backend_engine_hyperamp_tx_queue_put s base o seg.len) f.0.1 ∙ put in
      (
        process_again,
        seg ∷ segs,
        s1,
        rw put' refl,
        record {
          taken = [];
          split = refl;
          rep = rw (append-nil ms) rep;
          block = same_block;
          outcome = inr (
            refl,
            λ e. absurd (ground (arith, e)),
            rw (append-nil ms) (omega (arith, at, same_cap)),
          );
        },
      )
]

-- A segment larger than a block never reaches the queue: high_speed_data_process_b2f takes it out of the
-- session's messages, leaves the queue as it is and goes on with the others as if it had been sent.
b2f_drops_oversize :
    (base : ℕ) (s : Shm) (buf : Memory) (seg : SessMsgSeg) (segs : List SessMsgSeg)
    → seg.payload ≡ some buf
    → s.block_size < seg.len
    → high_speed_data_process_b2f s base (seg ∷ segs) ≡ high_speed_data_process_b2f s base segs
unfolding high_speed_data_process_b2f backend_engine_hyperamp_tx_queue_put
b2f_drops_oversize base s buf seg segs e l =
    ap (λ o. elim_put o) {x = backend_engine_hyperamp_tx_queue_put s base seg.payload seg.len}
      {y = some (process_error, s)}
      (ap (λ o. backend_engine_hyperamp_tx_queue_put s base o seg.len) e ∙ ground (arith, l))
  where
    elim_put : Option (Ret × Shm) → Option (Ret × List SessMsgSeg × Shm)
    elim_put o = do
      (ret, s') ← o
      elim ret [
        | process_again ↦ some (process_again, seg ∷ segs, s')
        | _ ↦ high_speed_data_process_b2f s' base segs
      ]
