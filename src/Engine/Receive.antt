-- ===== src/Engine/Receive.antt =====
-- The first step of engine_run_hyperamp of src/engine.c on a valid queue, whatever the processing of its messages writes to
-- the region that the sending queue shares.
use high_speed_cproxy.Base.{length-take-le}
use high_speed_cproxy.Base.{
  ℕ, zero, suc, ◌+◌, ◌%◌, ◌<◌, ◌≤◌, ◌≡◌, refl, sym, ap, ◌∙◌, subst, Option, some, ◌>>=◌, List, [],
  ◌∷◌, arith, length, take,
}
use high_speed_cproxy.Memory.{Memory}
use high_speed_cproxy.Memory.Copy.{Holds, Holds-agree, Holds-take}
use high_speed_cproxy.Spinlock.{hyperamp_ok, hyperamp_again}
use high_speed_cproxy.Shm.{Shm, read_len}
use high_speed_cproxy.Shm.Fifo.{Rep}
use high_speed_cproxy.Shm.Slots.{Slots}
use high_speed_cproxy.Shm.Reread.{
  slot_at, IsRead, IsTaken, dequeue-IsTaken, dequeue_empty, rewritten-Rep,
}
use high_speed_cproxy.Selector.{Ret, process_ok, process_again}
use high_speed_cproxy.Transfer.{to_ret, backend_engine_hyperamp_rx_queue_get}
use high_speed_cproxy.Engine.{step1}

lt-read_len : (k n c m b : ℕ) → k < n → n ≤ c → n ≤ m → m ≤ b → k < read_len c b
lt-read_len k n c m b h h₁ h₂ h₃ = ground (arith, h, h₁, h₂, h₃)

-- A block that begins with a message, read into a buffer.
begins :
    (base block_size slot : ℕ) (region buf : Memory) (m : List ℕ)
    → IsRead 4096 base block_size slot region buf
    → length m ≤ block_size
    → Holds region (slot_at base block_size slot) m
    → Holds buf 0 (take 4096 m)
begins base block_size slot region buf m read fits h =
    let bound = length-take-le 4096 m in
    Holds-agree region (slot_at base block_size slot) buf 0 (take 4096 m)
      (λ k l.
        ap buf (omega arith)
        ∙ read k (
            lt-read_len k (length (take 4096 m)) 4096 (length m) block_size l bound.0 bound.1 fits))
      (Holds-take region (slot_at base block_size slot) 4096 m h)

module _ {ℓ} {State : Type ℓ}
    (process : State → (msg_buf region : Memory) → Option (Ret × State × Memory)) where
  -- So many blocks, from a slot on, processed one after the other, each as it then stands in its slot, in a buffer that
  -- begins with it: the state and the region before, and after.
  pub data Processed (base block_size capacity : ℕ)
      : (count slot : ℕ) → State → Memory → State → Memory → Type ℓ where
    done :
        {slot : ℕ} {state : State} {region : Memory}
        → Processed base block_size capacity 0 slot state region state region
    one :
        {count slot : ℕ} {state state₁ state₂ : State} {region region₁ region₂ : Memory}
        (buf : Memory) (code : Ret)
        → IsRead 4096 base block_size slot region buf
        → process state buf region ≡ some (code, state₁, region₁)
        → Processed base block_size capacity count
            ((slot + 1) % capacity)
            state₁
            region₁
            state₂
            region₂
        → Processed base block_size capacity (suc count) slot state region state₂ region₂

  -- Messages processed one after the other, each in a buffer that begins with it, cut to 4096 bytes, with the region the same.
  pub data InOrder (region : Memory) : List (List ℕ) → State → State → Type ℓ where
    done : {state : State} → InOrder region [] state state
    one :
        {m : List ℕ} {ms : List (List ℕ)} {state state₁ state₂ : State} (buf : Memory) (code : Ret)
        → Holds buf 0 (take 4096 m)
        → process state buf region ≡ some (code, state₁, region)
        → InOrder region ms state₁ state₂
        → InOrder region (m ∷ ms) state state₂

  -- No call changes the region.
  abbrev pub IsQuiet : Type ℓ
  IsQuiet =
      (state state' : State) (buf region region' : Memory) (code : Ret)
      → process state buf region ≡ some (code, state', region')
      → region' ≡ region

  get-IsTaken :
      (base : ℕ) (s : Shm) (m : List ℕ) (ms : List (List ℕ)) (buf : Memory) (n : ℕ)
      → Rep base s (m ∷ ms)
      → (s' : Shm) × (buf' : Memory) × (backend_engine_hyperamp_rx_queue_get s base
            (some buf)
            (some n)
            4096
          ≡ some (
            process_ok,
            record {
              ret = hyperamp_ok;
              shm = s';
              buf = some buf';
              actual_len = some (read_len 4096 s.block_size);
            },
          ))
        × IsTaken 4096 base s s' buf'
        × Rep base s' ms
  unfolding backend_engine_hyperamp_rx_queue_get
  get-IsTaken base s m ms buf n r =
      let (s', buf', run, taken, rep) =
        dequeue-IsTaken base s m ms 0 buf 4096 (some n) r (omega arith) in
      (s', buf', ap (λ o. o >>= (λ d. some (to_ret d.ret, d))) run, taken, rep)

  get_empty :
      (base : ℕ) (s : Shm) (buf : Memory) (n : ℕ)
      → Rep base s []
      → (s' : Shm) × (backend_engine_hyperamp_rx_queue_get s base (some buf) (some n) 4096
          ≡ some (
            process_again,
            record { ret = hyperamp_again; shm = s'; buf = some buf; actual_len = some n },
          ))
        × (s'.region ≡ s.region)
        × Rep base s' []
  unfolding backend_engine_hyperamp_rx_queue_get
  get_empty base s buf n r =
      let (s', run, same, rep) = dequeue_empty base s 0 buf 4096 (some n) r (omega arith) in
      (s', ap (λ o. o >>= (λ d. some (to_ret d.ret, d))) run, same, rep)

  same-Processed :
      {base b b' c c' n n' t t' : ℕ} {state state' : State} {region region' : Memory}
      → b ≡ b'
      → c ≡ c'
      → n ≡ n'
      → t ≡ t'
      → Processed base b c n t state region state' region'
      → Processed base b' c' n' t' state region state' region'
  same-Processed {base} {b' = b'} {c} {c' = c'} {n} {n' = n'} {t} {state = x} {state' = y}
        {region = v} {region' = w} eb ec en et p =
      subst (λ t. Processed base b' c' n' t x v y w) et
        (subst (λ n. Processed base b' c' n t x v y w) en
          (subst (λ c. Processed base b' c n t x v y w) ec
            (subst (λ b. Processed base b c n t x v y w) eb p)))

  module _ (base : ℕ)
      (returns : (state : State) (buf region : Memory)
        → (r : Ret × State × Memory) × (process state buf region ≡ some r)) where
    receive_blocks :
        (rounds : ℕ) (s : Shm) (ms : List (List ℕ)) (buf : Memory) (n : ℕ) (state : State)
        → Rep base s ms
        → length ms < rounds
        → (s' : Shm) × (len : Option ℕ) × (state' : State) × (step1 process rounds s base buf
              (some n)
              state
            ≡ some (record { ret = process_again; shm = s'; block_size = len; state = state' }))
          × Rep base s' []
          × Processed base s.block_size s.capacity
              (length ms)
              s.tail
              state
              s.region
              state'
              s'.region
    unfolding step1
    receive_blocks zero s ms buf n state r l = absurd (omega (arith, l))
    receive_blocks (suc rounds) s [] buf n state r l =
        let (s', run, same, rep) = get_empty base s buf n r in
        (
          s',
          some n,
          state,
          rw run refl,
          rep,
          subst (λ v. Processed base s.block_size s.capacity 0 s.tail state s.region state v)
              (sym same) done,
        )
    receive_blocks (suc rounds) s (m ∷ ms) buf n state r l =
        let (s₁, buf', run, taken, rep) = get-IsTaken base s m ms buf n r in
        let (res, called) = returns state buf' s₁.region in
        let (ms', same, rep₂) = rewritten-Rep base s₁ ms res.2 rep in
        let (s', len, state', rest, empty, processed) =
          receive_blocks rounds (record s₁ { region = res.2 }) ms' buf' (read_len 4096 s.block_size)
            res.1 rep₂ (omega (arith, same, l)) in
        (
          s',
          len,
          state',
          rw (run, called) rest,
          empty,
          one buf' res.0 taken.read
              (subst (λ v. process state buf' v ≡ some res) taken.region called)
              (same-Processed taken.block_size taken.capacity same taken.tail processed),
        )

  in_order :
      (quiet : IsQuiet) {base block_size capacity count slot : ℕ} {state state' : State}
      {region region' : Memory}
      → Processed base block_size capacity count slot state region state' region'
      → (ms : List (List ℕ)) → count ≡ length ms
      → Slots base block_size capacity region slot ms
      → InOrder region ms state state'
  in_order quiet done [] e h = done
  in_order quiet done (m ∷ ms) e h = absurd (omega (arith, e))
  in_order quiet (one buf code read called rest) [] e h = absurd (omega (arith, e))
  in_order quiet {base} {block_size} {capacity} {slot} {state} {state'} {region}
        (one {state₁ = mid} {region₁ = v} buf code read called rest) (m ∷ ms) e h =
      let same : v ≡ region = quiet state mid buf region v code called in
      one buf code (begins base block_size slot region buf m read h.0 h.1)
        (subst (λ w. process state buf region ≡ some (code, mid, w)) same called)
        (subst (λ w. InOrder w ms mid state') same
          (in_order quiet rest ms (omega (arith, e)) (
            subst (λ w. Slots base block_size capacity w ((slot + 1) % capacity) ms) (sym same)
              h.2)))

-- The queue is valid, there are more rounds than it holds messages, and every call of backend_proxy_msg_process returns,
-- whatever its code and whatever it writes to the data region, which the sending queue shares. Then the first step of
-- engine_run_hyperamp ends with BACKEND_PROXY_PROCESS_AGAIN and an empty queue, after as many calls as there were
-- messages, for their slots in order: each call gets a buffer that begins with the block, cut to 4096 bytes, that stands in
-- the slot at the time, so what an earlier call has written there and not what was sent. If no call changes the
-- region these are the messages of the queue, oldest first, each cut to 4096 bytes.
pub receive_all {ℓ} :
    {State : Type ℓ} (process : State → (msg_buf region : Memory) → Option (Ret × State × Memory))
    (base rounds : ℕ) (s : Shm) (ms : List (List ℕ)) (buf : Memory) (n : ℕ) (state : State)
    → Rep base s ms
    → length ms < rounds
    → ((state : State) (buf region : Memory)
        → (r : Ret × State × Memory) × (process state buf region ≡ some r))
    → (s' : Shm) × (len : Option ℕ) × (state' : State) × (step1 process rounds s base buf
          (some n)
          state
        ≡ some (record { ret = process_again; shm = s'; block_size = len; state = state' }))
      × Rep base s' []
      × Processed process base s.block_size s.capacity
          (length ms)
          s.tail
          state
          s.region
          state'
          s'.region
      × (IsQuiet process → InOrder process s.region ms state state')
receive_all process base rounds s ms buf n state r l returns =
    let (s', len, state', run, empty, processed) =
      receive_blocks process base returns rounds s ms buf n state r l in
    (
      s',
      len,
      state',
      run,
      empty,
      processed,
      λ quiet. in_order process quiet processed ms refl r.slots,
    )
