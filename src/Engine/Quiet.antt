-- ===== src/Engine/Quiet.antt =====
-- The first step of engine_run_hyperamp of src/engine.c on a valid queue, for messages to which nothing is sent back.
use high_speed_cproxy.Base.{
  ℕ, zero, suc, ◌<◌, ◌≡◌, refl, ap, Option, none, some, ◌>>=◌, List, [], ◌∷◌, arith, length, take,
}
use high_speed_cproxy.Memory.{Memory}
use high_speed_cproxy.Memory.Copy.{Holds}
use high_speed_cproxy.Spinlock.{hyperamp_ok, hyperamp_again}
use high_speed_cproxy.Shm.{Shm, read_len}
use high_speed_cproxy.Shm.Fifo.{Rep}
use high_speed_cproxy.Shm.Take.{dequeue_fifo}
use high_speed_cproxy.Selector.{Ret, process_ok, process_again}
use high_speed_cproxy.Transfer.{to_ret, backend_engine_hyperamp_rx_queue_get}
use high_speed_cproxy.Engine.{step1}

-- The buffers begin with the messages, each cut to 4096 bytes.
abbrev pub HoldAll : List Memory → List (List ℕ) → Type 0
HoldAll [] [] = Unit
HoldAll [] (m ∷ ms) = ⊥
HoldAll (buf ∷ bufs) [] = ⊥
HoldAll (buf ∷ bufs) (m ∷ ms) = Holds buf 0 (take 4096 m) × HoldAll bufs ms

abbrev pub with_region {ℓ} :
    {State : Type ℓ} → Memory → Option (Ret × State) → Option (Ret × State × Memory)
with_region region none = none
with_region region (some (code, state)) = some (code, state, region)

-- A processing of messages that sends nothing.
abbrev pub writing_nothing {ℓ} :
    {State : Type ℓ}
    → (State → Memory → Option (Ret × State))
    → State
    → (msg_buf region : Memory) → Option (Ret × State × Memory)
writing_nothing process state buf region = with_region region (process state buf)

-- The messages in these buffers, processed one after the other.
abbrev pub process_all {ℓ} :
    {State : Type ℓ} → (State → Memory → Option (Ret × State)) → State → List Memory → Option State
process_all process state [] = some state
process_all process state (buf ∷ bufs) = do
  (code, state') ← process state buf
  process_all process state' bufs

module _ {ℓ} {State : Type ℓ} (process : State → Memory → Option (Ret × State)) (base : ℕ) where
  -- A call on a valid queue.
  get_ok :
      (s : Shm) (m : List ℕ) (ms : List (List ℕ)) (buf : Memory) (n : ℕ)
      → Rep base s (m ∷ ms)
      → (s' : Shm) × (buf' : Memory) × (backend_engine_hyperamp_rx_queue_get s base
            (some buf)
            (some n)
            4096
          ≡ some (
            process_ok,
            record {
              ret = hyperamp_ok;
              shm = s';
              buf = some buf';
              actual_len = some (read_len 4096 s.block_size);
            },
          ))
        × Holds buf' 0 (take 4096 m)
        × Rep base s' ms
  unfolding backend_engine_hyperamp_rx_queue_get
  get_ok s m ms buf n r =
      let (s', buf', run, holds, rep) =
        (dequeue_fifo base s (m ∷ ms) 0 buf 4096 (some n) r (omega arith)).0 m ms refl in
      (s', buf', ap (λ o. o >>= (λ d. some (to_ret d.ret, d))) run, holds, rep)

  get_again :
      (s : Shm) (buf : Memory) (n : ℕ)
      → Rep base s []
      → (s' : Shm) × (backend_engine_hyperamp_rx_queue_get s base (some buf) (some n) 4096
          ≡ some (
            process_again,
            record { ret = hyperamp_again; shm = s'; buf = some buf; actual_len = some n },
          ))
        × Rep base s' []
  unfolding backend_engine_hyperamp_rx_queue_get
  get_again s buf n r =
      let (s', run, rep) = (dequeue_fifo base s [] 0 buf 4096 (some n) r (omega arith)).1 refl in
      (s', ap (λ o. o >>= (λ d. some (to_ret d.ret, d))) run, rep)

  -- A round and what follows it, for the processing of one message and of the others.
  in_turn {ℓ₂} :
      {B : Type ℓ₂} (o : Option (Ret × State)) (region : Memory) (run : State → Memory → Option B)
      (others : State → Option State) (k : State → Option B)
      → ((state : State) → run state region ≡ (others state >>= k))
      → (with_region region o >>= (λ r. run r.1 r.2)) ≡ ((o >>= (λ r. others r.1)) >>= k)
  in_turn none region run others k h = refl
  in_turn (some (code, state)) region run others k h = h state

  -- From a valid queue, where no call of `process` writes to the region.
  pub receive_quiet :
      (rounds : ℕ) (s : Shm) (ms : List (List ℕ)) (buf : Memory) (n : ℕ)
      → Rep base s ms
      → length ms < rounds
      → (s' : Shm) × (bufs : List Memory) × (len : Option ℕ) × HoldAll bufs ms
        × Rep base s' []
        × ((state : State)
            → step1 (writing_nothing process) rounds s base buf (some n) state ≡ (
                process_all process state bufs >>= (λ state'.
                  some
                    (record { ret = process_again; shm = s'; block_size = len; state = state' }))))
  unfolding step1
  receive_quiet zero s ms buf n r l = absurd (omega (arith, l))
  receive_quiet (suc rounds) s [] buf n r l =
      let (s', run, rep) = get_again s buf n r in (s', [], some n, tt, rep, λ state. rw run refl)
  receive_quiet (suc rounds) s (m ∷ ms) buf n r l =
      let (s₁, buf', run, holds, rep) = get_ok s m ms buf n r in
      let len₁ = read_len 4096 s.block_size in
      let (s', bufs, len, all, empty, rest) =
        receive_quiet rounds s₁ ms buf' len₁ rep (omega (arith, l)) in
      (
        s',
        buf' ∷ bufs,
        len,
        (holds, all),
        empty,
        λ state. rw run (
            in_turn (process state buf') s₁.region
              (λ st region.
                step1 (writing_nothing process) rounds (record s₁ { region = region }) base buf'
                  (some len₁) st)
              (λ st. process_all process st bufs)
              (λ st. some (record { ret = process_again; shm = s'; block_size = len; state = st }))
              rest),
      )
